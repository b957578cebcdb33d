-- ===== src/MemoryAnalysis/Conflict/Phases.antt =====
-- The table of conflict sets against its description in inc/memory_analysis_handler.h.
use omniprobe.Prelude.{
  ℕ, zero, suc, ◌+◌, ◌*◌, ◌/◌, ◌<◌, ◌≡◌, refl, Bool, true, ◌&&◌, List, [], ◌∷◌, some, none, arith,
  ◌==◌, ==_iff, if◌then◌else◌, length, contains, All, all, range_from, ◌≤◌,
}
use omniprobe.Prelude.Maps.{lookup, nat_key}
use omniprobe.MemoryAnalysis.Conflict.{ConflictSet, conflict_sets}
use Prim.Native.Nat.{max}

-- The number of the first set that holds the lane: the phase in which the lane's access runs.
unfoldable pub phase : List ConflictSet → ℕ → ℕ
phase [] lane = 0
phase (cs ∷ rest) lane = if contains cs.lanes lane then 0 else suc (phase rest lane)

-- The number of sets that hold the lane.
unfoldable pub holders : List ConflictSet → ℕ → ℕ
holders [] lane = 0
holders (cs ∷ rest) lane = (if contains cs.lanes lane then 1 else 0) + holders rest lane

-- A test that holds along a run of numbers holds at each of them.
all-range_from :
    (test : ℕ → Bool) (from count x : ℕ)
    → all test (range_from from count) ≡ true
    → from ≤ x
    → x < from + count
    → test x ≡ true
all-range_from test from zero x h low high = absurd (omega arith)
all-range_from test from (suc count) x h low high =
    ground (arith, all-range_from test (suc from) count x)

abbrev lanes_pass : (ℕ → Bool) → Bool
lanes_pass test = all test (range_from 0 64)

lanes_pass_lem :
    (test : ℕ → Bool) (lane : ℕ) → lanes_pass test ≡ true → lane < 64 → test lane ≡ true
lanes_pass_lem test lane h small = all-range_from test 0 64 lane h (omega arith) (omega arith)

both : (a b : Bool) → (a && b) ≡ true → (a ≡ true) × (b ≡ true)
both a b h = ground arith

-- One set takes the lane, for each lane of a wavefront.
abbrev pub IsPartition : List ConflictSet → Type 0
IsPartition sets = (lane : ℕ) → lane < 64 → holders sets lane ≡ 1

-- The sets of an access size serve 128 bytes a phase, which is one dword for each of the 32 banks.
abbrev pub Fills : ℕ → List ConflictSet → Type 0
Fills size sets = All (λ cs. length cs.lanes * max 4 size ≡ 128) sets

IsPartition-by_check :
    (table : List (ℕ × List ConflictSet))
    → all (λ entry. lanes_pass (λ lane. holders entry.1 lane == 1)) table ≡ true
    → All (λ entry. IsPartition entry.1) table
IsPartition-by_check [] e = tt
IsPartition-by_check (entry ∷ table) e =
    let check = λ (lane : ℕ). holders entry.1 lane == 1 in
    let parts = both (lanes_pass check) _ e in
    (
      λ lane h. (==_iff _ 1).0 (lanes_pass_lem check lane parts.0 h),
      IsPartition-by_check table parts.1,
    )

-- For each supported access size, every lane below 64 is in exactly one conflict set of the table,
-- and each set has as many lanes as move 128 bytes, an access below 4 bytes counting as 4.
conflict_sets-IsPartition :
    All (λ entry. IsPartition entry.1) conflict_sets
    × All (λ entry. Fills entry.0 entry.1) conflict_sets
unfolding conflict_sets holders
conflict_sets-IsPartition = (IsPartition-by_check conflict_sets refl, omega arith)

-- The sets of one access size, empty for a size that the table lacks.
unfoldable pub sets_for : ℕ → List ConflictSet
unfolding lookup conflict_sets
sets_for size = elim (lookup size conflict_sets) [ none ↦ [] | some sets ↦ sets ]

-- The order of the phases, by the size of the access: lanes 0..31 before lanes 32..63 for dwords,
-- and four groups of sixteen lanes for two dwords. For four dwords the lanes of one phase are two
-- runs of four lanes within one half of the wavefront.
phase_lem :
    (lane : ℕ)
    → lane < 64
    → (phase (sets_for 4) lane ≡ lane / 32)
      × (phase (sets_for 8) lane ≡ lane / 16)
      × (phase (sets_for 16) lane / 4 ≡ lane / 32)
unfolding sets_for phase
phase_lem lane h = (
  (==_iff _ _).0 (lanes_pass_lem (λ l. phase (sets_for 4) l == l / 32) lane refl h),
  (==_iff _ _).0 (lanes_pass_lem (λ l. phase (sets_for 8) l == l / 16) lane refl h),
  (==_iff _ _).0 (lanes_pass_lem (λ l. phase (sets_for 16) l / 4 == l / 32) lane refl h),
)
