-- ===== src/MemoryAnalysis/Conflict.antt =====
-- LDS bank conflicts: class conflict_set of src/memory_analysis_handler.cc and the table of
-- conflict sets that the constructors of memory_analysis_handler_t build. Lanes and dwords are
-- numbers, a std::set is an increasing list.
pub mod Phases
pub mod Banks
pub mod Freedom
use omniprobe.Prelude.{
  ℕ, zero, suc, ◌+◌, ◌-◌, ◌/◌, ◌%◌, ◌≡◌, Bool, true, false, List, [], ◌∷◌, map, length, contains,
  replicate, range_from, if◌then◌else◌,
}
use omniprobe.Prelude.Sets.{insert, insert_all}
use Prim.Native.Nat.{max}

abbrev pub no_banks : ℕ
no_banks = 32

pub record ConflictSet : Type 0 where
  pub lanes : List ℕ
  pub banks : List (List ℕ)

-- The lanes of the half-open ranges `fl_pairs`.
unfoldable pub lanes_of : List (ℕ × ℕ) → List ℕ → List ℕ
unfolding insert_all
lanes_of [] s = s
lanes_of ((first, second) ∷ ps) s = lanes_of ps (insert_all (range_from first (second - first)) s)

unfoldable pub conflict_set : List (ℕ × ℕ) → ConflictSet
unfolding lanes_of insert
conflict_set fl_pairs = record { lanes = lanes_of fl_pairs []; banks = replicate 32 [] }

-- `banks[i].insert(d)`.
unfoldable pub insert_at : ℕ → ℕ → List (List ℕ) → List (List ℕ)
insert_at i d [] = []
insert_at zero d (b ∷ bs) = insert d b ∷ bs
insert_at (suc i) d (b ∷ bs) = b ∷ insert_at i d bs

-- The new set, and whether the lane belongs to it.
unfoldable pub register_access : ℕ → ℕ → ConflictSet → ConflictSet × Bool
register_access lane address cs =
    if contains cs.lanes lane
    then (record cs { banks = insert_at (address / 4 % no_banks) (address / 4) cs.banks }, true)
    else (cs, false)

unfoldable pub most_dwords : ℕ → List (List ℕ) → ℕ
most_dwords m [] = m
most_dwords m (b ∷ bs) = most_dwords (max m (length b)) bs

unfoldable pub bank_conflict_count : ConflictSet → ℕ
unfolding most_dwords
bank_conflict_count cs = most_dwords 1 cs.banks - 1

unfoldable pub clear : ConflictSet → ConflictSet
clear cs = record cs { banks = map (λ bank. []) cs.banks }

-- The sets for accesses of 1, 2 and 4 bytes.
abbrev halves : List ConflictSet
halves = conflict_set ((0, 32) ∷ []) ∷ conflict_set ((32, 64) ∷ []) ∷ []

-- The sets by access size, as both constructors insert them.
unfoldable pub conflict_sets : List (ℕ × List ConflictSet)
unfolding conflict_set
conflict_sets =
    (1, halves)
    ∷ (2, halves)
    ∷ (4, halves)
    ∷ (
      8,
      conflict_set ((0, 16) ∷ [])
          ∷ conflict_set ((16, 32) ∷ [])
          ∷ conflict_set ((32, 48) ∷ [])
          ∷ conflict_set ((48, 64) ∷ [])
          ∷ [],
    )
    ∷ (
      16,
      conflict_set ((0, 4) ∷ (20, 24) ∷ [])
          ∷ conflict_set ((4, 8) ∷ (16, 20) ∷ [])
          ∷ conflict_set ((8, 12) ∷ (28, 32) ∷ [])
          ∷ conflict_set ((12, 16) ∷ (24, 28) ∷ [])
          ∷ conflict_set ((32, 36) ∷ (52, 56) ∷ [])
          ∷ conflict_set ((36, 40) ∷ (48, 52) ∷ [])
          ∷ conflict_set ((40, 44) ∷ (60, 64) ∷ [])
          ∷ conflict_set ((44, 48) ∷ (56, 60) ∷ [])
          ∷ [],
    )
    ∷ []

-- The inner loop over the sets, which stops at the set that takes the access.
unfoldable pub register_in : ℕ → ℕ → List ConflictSet → List ConflictSet
register_in lane address [] = []
register_in lane address (cs ∷ rest) =
    let tried = register_access lane address cs in
    if tried.1 then tried.0 ∷ rest else tried.0 ∷ register_in lane address rest

-- The outer loop over the data items, paired with the active lanes.
unfoldable pub register_all : List (ℕ × ℕ) → List ConflictSet → List ConflictSet
unfolding register_in register_access insert_at insert
register_all [] sets = sets
register_all ((lane, address) ∷ items) sets = register_all items (register_in lane address sets)

-- The closing loop: the conflicts of all the sets.
unfoldable pub total_conflicts : List ConflictSet → ℕ
unfolding bank_conflict_count
total_conflicts [] = 0
total_conflicts (cs ∷ rest) = bank_conflict_count cs + total_conflicts rest

-- `handle_bank_conflict_analysis` on the sets of one access size: the number of conflicts, and
-- the sets after the closing loop has cleared them.
unfoldable pub count_conflicts : List (ℕ × ℕ) → List ConflictSet → ℕ × List ConflictSet
unfolding register_all total_conflicts clear
count_conflicts items sets =
    let filled = register_all items sets in (total_conflicts filled, map clear filled)
