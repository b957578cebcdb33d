-- ===== src/MemoryAnalysis/Printed.antt =====
-- What the reports of the memory analysis print, without the static variables of show_line.
use omniprobe.Prelude.{
  ℕ, ◌≡◌, Bool, true, false, List, [], ◌++◌, Option, none, some, Bytes, if◌then◌else◌, ◌==◌,
}
use omniprobe.Comms.{MemoryAccess}
use omniprobe.MemoryAnalysis.Accesses.{LdsAccess, GlobalAccess, Located}
use omniprobe.MemoryAnalysis.SourceLines.{Sources, Shown}
use omniprobe.MemoryAnalysis.Reports.{
  placed, lds_text, global_text, all_texts, any_left, cache_line_head, cache_line_message,
  cache_line_end, bank_conflict_head, bank_conflict_message, bank_conflict_end,
}

unfoldable pub or_no_lines : Option (List Bytes) → List Bytes
or_no_lines none = []
or_no_lines (some lines) = lines

-- The lines that are kept are those of the file.
unfoldable pub IsCached : Sources → Shown → Type 0
IsCached sources shown = shown.cached_lines ≡ or_no_lines (sources shown.cached_fname)

-- Is an access not reported? In the verbose mode each is.
abbrev pub lds_left_out : Bool → LdsAccess → Bool
lds_left_out true a = false
lds_left_out false a = a.no_bank_conflicts == 0

abbrev pub global_left_out : Bool → GlobalAccess → Bool
global_left_out true a = false
global_left_out false a = a.no_cache_lines_used == a.min_cache_lines_needed

-- A report: its head, the texts of the accesses that are not left out, a message if there are none, and
-- its end.
abbrev pub section : Bytes → Bytes → Bool → Bytes → Bytes → Bytes
section head body left message end = head ++ (body ++ ((if left then [] else message) ++ end))

module _ (sources : Sources) (kinds : ℕ → Option MemoryAccess) (verbose : Bool) where
  abbrev pub cache_line_section : Located GlobalAccess → Bytes
  cache_line_section accesses =
      section cache_line_head
        (all_texts sources (global_left_out verbose) (global_text kinds) (placed accesses))
        (any_left sources (global_left_out verbose) (global_text kinds) (placed accesses))
        cache_line_message cache_line_end

  abbrev pub bank_conflict_section : Located LdsAccess → Bytes
  bank_conflict_section accesses =
      section bank_conflict_head
        (all_texts sources (lds_left_out verbose) (lds_text kinds) (placed accesses))
        (any_left sources (lds_left_out verbose) (lds_text kinds) (placed accesses))
        bank_conflict_message bank_conflict_end
