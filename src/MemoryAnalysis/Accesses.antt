-- ===== src/MemoryAnalysis/Accesses.antt =====
-- The access records of memory_analysis_handler_t (inc/memory_analysis_handler.h), kept by file,
-- line and column, and how src/memory_analysis_handler.cc adds one access to them.
pub mod Totals
use omniprobe.Prelude.{
  ℕ, ◌+◌, ◌%◌, ◌^◌, Bool, ◌&&◌, List, [], ◌∷◌, Option, none, some, Bytes, if◌then◌else◌, ◌==◌, u64,
}
use omniprobe.Prelude.Maps.{upsert, nat_key, text_key}

-- memory_accesses_t.
pub record Access : Type 0 where
  pub no_accesses : ℕ
  pub ir_access_size : ℕ
  pub isa_access_size : ℕ
  pub rw_kind : ℕ
  pub isa_instruction : Bytes

pub record LdsAccess : Type 0 where
  pub access : Access
  pub no_bank_conflicts : ℕ

pub record GlobalAccess : Type 0 where
  pub access : Access
  pub min_cache_lines_needed : ℕ
  pub no_cache_lines_used : ℕ

-- file_line_col_access_t: file, line, column.
abbrev pub Located : Type 0 → Type 0
Located T = List (Bytes × List (ℕ × List (ℕ × List T)))

-- `m[key]` on a map whose default value is empty.
abbrev pub or_empty {ℓ} : {A : Type ℓ} → Option (List A) → List A
or_empty none = []
or_empty (some xs) = xs

-- `accesses[fname][line][column]`, changed in place; the line and column keys are uint16_t.
unfoldable pub update_located :
    {T : Type 0} → Bytes → ℕ → ℕ → (List T → List T) → Located T → Located T
update_located fname line column f = upsert fname λ lines.
    upsert (line % 2 ^ 16)
      (λ columns. upsert (column % 2 ^ 16) (λ accesses. f (or_empty accesses)) (or_empty columns))
      (or_empty lines)

-- The test of both `std::find_if` calls.
abbrev pub same_kind : Access → Access → Bool
same_kind a b =
    a.ir_access_size == b.ir_access_size
    && a.isa_access_size == b.isa_access_size
    && a.rw_kind == b.rw_kind

abbrev pub again : Access → Access
again a = record a { no_accesses = u64 (a.no_accesses + 1) }

unfoldable pub merge_global : GlobalAccess → List GlobalAccess → List GlobalAccess
merge_global current [] = current ∷ []
merge_global current (a ∷ rest) =
    if same_kind a.access current.access
    then record {
      access = again a.access;
      min_cache_lines_needed = u64 (a.min_cache_lines_needed + current.min_cache_lines_needed);
      no_cache_lines_used = u64 (a.no_cache_lines_used + current.no_cache_lines_used);
    }
      ∷ rest
    else a ∷ merge_global current rest

unfoldable pub merge_lds : LdsAccess → List LdsAccess → List LdsAccess
merge_lds current [] = current ∷ []
merge_lds current (a ∷ rest) =
    if same_kind a.access current.access
    then record {
      access = again a.access;
      no_bank_conflicts = u64 (a.no_bank_conflicts + current.no_bank_conflicts);
    }
      ∷ rest
    else a ∷ merge_lds current rest
