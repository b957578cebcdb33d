-- ===== src/Tests/Printing.antt =====
-- The reports of the memory analysis at concrete inputs.
use omniprobe.Prelude.{ℕ, ◌≡◌, [], ◌∷◌, Option, none, some, codes, text_eq, if◌then◌else◌, arith}
use omniprobe.Comms.{MemoryAccess}
use omniprobe.MemoryAnalysis.Accesses.{Access, LdsAccess, GlobalAccess, Located}
use omniprobe.MemoryAnalysis.SourceLines.{Sources, replace_tabs, replace_tabs-expand}

replace_tabs-expand_example : replace_tabs 3 0 (codes "\ta\tb") ≡ some (codes "        a        b")
replace_tabs-expand_example = replace_tabs-expand 3 (codes "\ta\tb") (omega arith)

abbrev access : Access
access = record {
  no_accesses = 2;
  ir_access_size = 4;
  isa_access_size = 4;
  rw_kind = 1;
  isa_instruction = codes "global_load_dword";
}

abbrev global_accesses : Located GlobalAccess
global_accesses =
    (
      codes "a.cpp",
      (
        2,
        (3, record { access = access; min_cache_lines_needed = 2; no_cache_lines_used = 5 } ∷ [])
            ∷ [],
      )
          ∷ [],
    )
    ∷ []

abbrev lds_accesses : Located LdsAccess
lds_accesses =
    (codes "a.cpp", (1, (2, record { access = access; no_bank_conflicts = 0 } ∷ []) ∷ []) ∷ []) ∷ []

unfoldable sources : Sources
sources fname =
    if text_eq fname (codes "a.cpp") then some (codes "int x;" ∷ codes "\tx = 1;" ∷ []) else none

abbrev kinds : ℕ → Option MemoryAccess
kinds kind = some MemoryAccess.read
