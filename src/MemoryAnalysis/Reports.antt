-- ===== src/MemoryAnalysis/Reports.antt =====
-- report_bank_conflicts, report_cache_line_use and report of memory_analysis_handler_t
-- (src/memory_analysis_handler.cc): the text that they print. The report as JSON is in JsonReport.antt.
use omniprobe.Prelude.{
  ℕ, Bool, true, false, not, ◌&&◌, ◌||◌, List, [], ◌∷◌, ◌++◌, Option, none, some, Bytes, codes,
  if◌then◌else◌, ◌==◌,
}
use omniprobe.Prelude.Digits.{decimal}
use omniprobe.Comms.{MemoryAccess}
use omniprobe.MemoryAnalysis.Accesses.{LdsAccess, GlobalAccess, Located}
use omniprobe.MemoryAnalysis.SourceLines.{Sources, Shown, print_line, show_line}

-- rw2str, of what the map has for the kind of an access.
unfoldable pub rw2str : Option MemoryAccess → Bytes
rw2str (some MemoryAccess.undefined) = codes "unspecified memory operation"
rw2str (some MemoryAccess.read) = codes "read"
rw2str (some MemoryAccess.write) = codes "write"
rw2str (some MemoryAccess.read_write) = codes "read/write"
rw2str none = codes "[coding error: invalid encoding of memory operation type]"

-- An access with its place.
pub record Placed (T : Type 0) : Type 0 where
  pub fname : Bytes
  pub line : ℕ
  pub column : ℕ
  pub access : T

-- The nested loops over files, lines, columns and accesses.
abbrev pub in_column : {T : Type 0} → Bytes → ℕ → ℕ → List T → List (Placed T)
in_column fname line column [] = []
in_column fname line column (access ∷ accesses) =
    record { fname = fname; line = line; column = column; access = access }
    ∷ in_column fname line column accesses

abbrev pub in_line : {T : Type 0} → Bytes → ℕ → List (ℕ × List T) → List (Placed T)
in_line fname line [] = []
in_line fname line ((column, accesses) ∷ columns) =
    in_column fname line column accesses ++ in_line fname line columns

abbrev pub in_file : {T : Type 0} → Bytes → List (ℕ × List (ℕ × List T)) → List (Placed T)
in_file fname [] = []
in_file fname ((line, columns) ∷ lines) = in_line fname line columns ++ in_file fname lines

unfoldable pub placed : {T : Type 0} → Located T → List (Placed T)
placed [] = []
placed ((fname, lines) ∷ files) = in_file fname lines ++ placed files

-- The line with the place.
abbrev pub place_text : {T : Type 0} → Placed T → Bytes
place_text p =
    p.fname ++ (codes ":" ++ (decimal p.line ++ (codes ":" ++ (decimal p.column ++ codes "\n"))))

abbrev pub lds_text : (ℕ → Option MemoryAccess) → LdsAccess → Bytes
lds_text kinds a =
    (codes "\t"
      ++ (rw2str (kinds a.access.rw_kind)
          ++ (codes " of " ++ (decimal a.access.ir_access_size ++ codes " bytes at IR level\n"))))
    ++ (codes "\texecuted "
        ++ (decimal a.access.no_accesses
            ++ (codes " times, "
                ++ (decimal a.no_bank_conflicts ++ codes " bank conflicts in total\n"))))

abbrev pub global_text : (ℕ → Option MemoryAccess) → GlobalAccess → Bytes
global_text kinds a =
    (codes "\t"
      ++ (rw2str (kinds a.access.rw_kind)
          ++ (codes " of "
              ++ (decimal a.access.ir_access_size
                  ++ (codes " bytes at IR level ("
                      ++ (decimal a.access.isa_access_size
                          ++ (codes " bytes at ISA level: \""
                              ++ (a.access.isa_instruction ++ codes "\")\n"))))))))
    ++ (codes "\texecuted "
        ++ (decimal a.access.no_accesses
            ++ (codes " times, "
                ++ (decimal a.min_cache_lines_needed
                    ++ (codes " cache lines needed, "
                        ++ (decimal a.no_cache_lines_used ++ codes " cache lines used\n"))))))

-- Is the access left out?
abbrev pub lds_skipped : Bool → LdsAccess → Bool
lds_skipped verbose a = not verbose && a.no_bank_conflicts == 0

abbrev pub global_skipped : Bool → GlobalAccess → Bool
global_skipped verbose a = not verbose && a.no_cache_lines_used == a.min_cache_lines_needed

-- What show_line prints of a file whose lines are read for it alone.
unfoldable pub line_text : Sources → Bytes → ℕ → ℕ → Bytes
line_text sources fname line column = elim (sources fname) [
  | none ↦ []
  | some lines ↦ print_line lines line column
]

module _ {T : Type 0} (sources : Sources) (skipped : T → Bool) (text : T → Bytes) where
  -- The body of the loops: whether something was found, the static variables, and what is printed.
  unfoldable pub print_all : List (Placed T) → Bool → Shown → Bool × (Shown × Bytes)
  print_all [] found shown = (found, (shown, []))
  print_all (p ∷ ps) found shown =
      let next = show_line sources p.fname p.line p.column shown in
      let later = print_all ps true next.0 in
      let others = print_all ps found shown in
      if skipped p.access
      then others
      else (later.0, (later.1.0, place_text p ++ (next.1 ++ (text p.access ++ later.1.1))))

  -- What is printed of the accesses that are not left out.
  abbrev pub all_texts : List (Placed T) → Bytes
  all_texts [] = []
  all_texts (p ∷ ps) =
      if skipped p.access
      then all_texts ps
      else place_text p
        ++ (line_text sources p.fname p.line p.column ++ (text p.access ++ all_texts ps))

  abbrev pub any_left : List (Placed T) → Bool
  any_left [] = false
  any_left (p ∷ ps) = not (skipped p.access) || any_left ps

-- The fixed lines of the two reports.
abbrev pub cache_line_head : Bytes
cache_line_head = codes "\n=== L2 cache line use report ======================\n"

abbrev pub cache_line_message : Bytes
cache_line_message = codes "No excess cache lines used for global memory accesses\n"

abbrev pub cache_line_end : Bytes
cache_line_end = codes "=== End of L2 cache line use report ===============\n"

abbrev pub bank_conflict_head : Bytes
bank_conflict_head = codes "\n=== Bank conflicts report =========================\n"

abbrev pub bank_conflict_message : Bytes
bank_conflict_message = codes "No bank conflicts found\n"

abbrev pub bank_conflict_end : Bytes
bank_conflict_end = codes "=== End of bank conflicts report ====================\n"

unfoldable pub report_bank_conflicts :
    Sources → (ℕ → Option MemoryAccess) → Bool → Located LdsAccess → Shown → Shown × Bytes
unfolding placed print_all
report_bank_conflicts sources kinds verbose lds_accesses shown =
    let printed =
      print_all sources (lds_skipped verbose) (lds_text kinds) (placed lds_accesses) false shown in
    (
      printed.1.0,
      bank_conflict_head
          ++ (printed.1.1
              ++ ((if printed.0 then [] else bank_conflict_message) ++ bank_conflict_end)),
    )

unfoldable pub report_cache_line_use :
    Sources → (ℕ → Option MemoryAccess) → Bool → Located GlobalAccess → Shown → Shown × Bytes
unfolding placed print_all
report_cache_line_use sources kinds verbose global_accesses shown =
    let printed =
      print_all sources (global_skipped verbose) (global_text kinds) (placed global_accesses) false
        shown in
    (
      printed.1.0,
      cache_line_head
          ++ (printed.1.1 ++ ((if printed.0 then [] else cache_line_message) ++ cache_line_end)),
    )

-- report in the text format.
unfoldable pub report_text :
    Sources
    → (ℕ → Option MemoryAccess)
    → Bool
    → Located GlobalAccess
    → Located LdsAccess
    → Shown
    → Shown × Bytes
report_text sources kinds verbose global_accesses lds_accesses shown =
    let first = report_cache_line_use sources kinds verbose global_accesses shown in
    let second = report_bank_conflicts sources kinds verbose lds_accesses first.0 in
    (second.0, first.1 ++ second.1)
