-- ===== src/MemoryAnalysis/Accesses/Totals.antt =====
-- What one more access adds to the records of its source location, and that the other locations
-- keep theirs.
use omniprobe.Prelude.{
  ℕ, ◌+◌, ◌%◌, ◌^◌, ◌<◌, ◌≡◌, List, [], ◌∷◌, Option, Bytes, two64, arith, Bool-cases, inl, inr,
}
use omniprobe.Prelude.Maps.{
  lookup, upsert, nat_key, text_key, lookup-upsert_self, same_or_kept, lookup-upsert_at,
}
use omniprobe.MemoryAnalysis.Accesses.{
  LdsAccess, GlobalAccess, Located, or_empty, update_located, same_kind, merge_global, merge_lds,
}

-- The records of a location.
unfoldable pub located_at : {T : Type 0} → Bytes → ℕ → ℕ → Located T → List T
located_at fname line column m =
    or_empty
      (lookup (column % 2 ^ 16) (or_empty (lookup (line % 2 ^ 16) (or_empty (lookup fname m)))))

pub located_at-update_self :
    {T : Type 0} (fname : Bytes) (line column : ℕ) (f : List T → List T) (m : Located T)
    → located_at fname line column (update_located fname line column f m)
      ≡ f (located_at fname line column m)
unfolding located_at update_located
located_at-update_self fname line column f m = simp (lookup-upsert_self)

-- A location is told apart by its file, or by its line or column as a uint16_t.
abbrev pub Elsewhere : Bytes → ℕ → ℕ → Bytes → ℕ → ℕ → Type 0
Elsewhere fname line column fname' line' column' =
    (fname ≡ fname') × (line % 2 ^ 16 ≡ line' % 2 ^ 16) × (column % 2 ^ 16 ≡ column' % 2 ^ 16) → ⊥

pub located_at-update-Elsewhere :
    {T : Type 0} (fname : Bytes) (line column : ℕ) (f : List T → List T) (m : Located T)
    (fname' : Bytes) (line' column' : ℕ)
    → Elsewhere fname' line' column' fname line column
    → located_at fname' line' column' (update_located fname line column f m)
      ≡ located_at fname' line' column' m
unfolding located_at update_located
located_at-update-Elsewhere {T} fname line column f m fname' line' column' away =
    let put_column = λ (columns : Option (List (ℕ × List T))).
      upsert (column % 2 ^ 16) (λ accesses. f (or_empty accesses)) (or_empty columns) in
    let put_line = λ (lines : Option (List (ℕ × List (ℕ × List T)))).
      upsert (line % 2 ^ 16) put_column (or_empty lines) in
    let lines = or_empty (lookup fname' m) in
    let columns = or_empty (lookup (line' % 2 ^ 16) lines) in
    ground (
      arith,
      same_or_kept fname put_line m fname',
      lookup-upsert_at fname put_line m fname',
      same_or_kept (line % 2 ^ 16) put_column lines (line' % 2 ^ 16),
      lookup-upsert_at (line % 2 ^ 16) put_column lines (line' % 2 ^ 16),
      same_or_kept (column % 2 ^ 16) (λ accesses. f (or_empty accesses)) columns (column' % 2 ^ 16),
    )

-- The executions and the conflicts, or the cache lines, of a list of records.
abbrev pub lds_executions : List LdsAccess → ℕ
lds_executions [] = 0
lds_executions (a ∷ rest) = a.access.no_accesses + lds_executions rest

abbrev pub lds_conflicts : List LdsAccess → ℕ
lds_conflicts [] = 0
lds_conflicts (a ∷ rest) = a.no_bank_conflicts + lds_conflicts rest

pub merge_lds_totals :
    (current : LdsAccess) (xs : List LdsAccess)
    → current.access.no_accesses ≡ 1
    → lds_executions xs + 1 < two64
    → lds_conflicts xs + current.no_bank_conflicts < two64
    → (lds_executions (merge_lds current xs) ≡ lds_executions xs + 1)
      × (lds_conflicts (merge_lds current xs) ≡ lds_conflicts xs + current.no_bank_conflicts)
unfolding merge_lds
merge_lds_totals current [] one small small' = (omega arith, omega arith)
merge_lds_totals current (a ∷ xs) one small small' =
    elim (Bool-cases (same_kind a.access current.access)) [
      | inl e ↦ rw e (omega arith, omega arith)
      | inr e ↦
          let ih = merge_lds_totals current xs one (omega arith) (omega arith) in
          rw e (omega (arith, ih.0), omega (arith, ih.1))
    ]

abbrev pub executions : List GlobalAccess → ℕ
executions [] = 0
executions (a ∷ rest) = a.access.no_accesses + executions rest

abbrev pub lines_needed : List GlobalAccess → ℕ
lines_needed [] = 0
lines_needed (a ∷ rest) = a.min_cache_lines_needed + lines_needed rest

abbrev pub lines_used : List GlobalAccess → ℕ
lines_used [] = 0
lines_used (a ∷ rest) = a.no_cache_lines_used + lines_used rest

pub merge_global_totals :
    (current : GlobalAccess) (xs : List GlobalAccess)
    → current.access.no_accesses ≡ 1
    → executions xs + 1 < two64
    → lines_needed xs + current.min_cache_lines_needed < two64
    → lines_used xs + current.no_cache_lines_used < two64
    → (executions (merge_global current xs) ≡ executions xs + 1)
      × (lines_needed (merge_global current xs) ≡ lines_needed xs + current.min_cache_lines_needed)
      × (lines_used (merge_global current xs) ≡ lines_used xs + current.no_cache_lines_used)
unfolding merge_global
merge_global_totals current [] one s₁ s₂ s₃ = (omega arith, omega arith, omega arith)
merge_global_totals current (a ∷ xs) one s₁ s₂ s₃ =
    elim (Bool-cases (same_kind a.access current.access)) [
      | inl e ↦ rw e (omega arith, omega arith, omega arith)
      | inr e ↦
          let (x, y, z) =
            merge_global_totals current xs one (omega arith) (omega arith) (omega arith) in
          rw e (omega arith, omega arith, omega arith)
    ]
