-- ===== src/MemoryAnalysis/Conflict/Freedom.antt =====
-- When an LDS access has no bank conflicts, and that the counting leaves nothing behind.
use omniprobe.Prelude.{
  ℕ, zero, suc, ◌/◌, ◌%◌, ◌<◌, ◌≡◌, ◌↔◌, inl, inr, refl, ap, Bool, true, false, ◌&&◌, ◌||◌, List,
  [], ◌∷◌, map, length, contains, replicate, All, if◌then◌else◌, ◌==◌, arith, Bool-cases,
}
use omniprobe.Prelude.Sets.{IsIncreasing}
use omniprobe.MemoryAnalysis.Conflict.{
  ConflictSet, insert_at, register_access, register_in, register_all, bank_conflict_count,
  total_conflicts, clear, count_conflicts, conflict_sets,
}
use omniprobe.MemoryAnalysis.Conflict.Banks.{
  bank, register_list, register_list_facts, register_list-bank, touches, IsSound, count_zero_iff,
  IsClean,
}
use omniprobe.MemoryAnalysis.Conflict.Phases.{phase}

-- Does an access that runs in phase `k` touch the dword?
pub touches_in : List ConflictSet → ℕ → List (ℕ × ℕ) → ℕ → Bool
touches_in sets k [] d = false
touches_in sets k ((lane, address) ∷ items) d =
    (phase sets lane == k && address / 4 == d) || touches_in sets k items d

-- The accesses that the set leaves to the sets behind it.
passed : List ℕ → List (ℕ × ℕ) → List (ℕ × ℕ)
passed lanes [] = []
passed lanes ((lane, address) ∷ items) =
    let rest = passed lanes items in if contains lanes lane then rest else (lane, address) ∷ rest

-- The sets work side by side: the first takes its lanes, the others see the rest.
register_all_split :
    (items : List (ℕ × ℕ)) (cs : ConflictSet) (rest : List ConflictSet)
    → register_all items (cs ∷ rest)
      ≡ register_list items cs ∷ register_all (passed cs.lanes items) rest
unfolding register_all register_list passed register_access
register_all_split [] cs rest = refl
register_all_split ((lane, address) ∷ items) cs rest = elim (Bool-cases (contains cs.lanes lane)) [
  | inl e ↦
      let taken = record cs { banks = insert_at (address / 4 % 32) (address / 4) cs.banks } in
      rw e (register_all_split items taken rest)
  | inr e ↦ rw e (register_all_split items cs (register_in lane address rest))
]

touches_first :
    (cs : ConflictSet) (rest : List ConflictSet) (items : List (ℕ × ℕ)) (d : ℕ)
    → touches_in (cs ∷ rest) 0 items d ≡ touches cs.lanes items d
unfolding touches_in touches phase
touches_first cs rest [] d = refl
touches_first cs rest ((lane, address) ∷ items) d = ground (arith, touches_first cs rest items d)

touches_later :
    (cs : ConflictSet) (rest : List ConflictSet) (k : ℕ) (items : List (ℕ × ℕ)) (d : ℕ)
    → touches_in (cs ∷ rest) (suc k) items d ≡ touches_in rest k (passed cs.lanes items) d
unfolding touches_in phase passed
touches_later cs rest k [] d = refl
touches_later cs rest k ((lane, address) ∷ items) d =
    ground (arith, touches_later cs rest k items d)

-- No two accesses of phase `k` go to different dwords of one bank.
abbrev pub IsConflictFree : List ConflictSet → List (ℕ × ℕ) → ℕ → Type 0
IsConflictFree sets items k =
    (d e : ℕ)
    → touches_in sets k items d ≡ true
    → touches_in sets k items e ≡ true
    → d % 32 ≡ e % 32
    → d ≡ e

bank-replicate : (n b : ℕ) → bank (replicate n []) b ≡ []
bank-replicate zero b = refl
bank-replicate (suc n) zero = refl
bank-replicate (suc n) (suc b) = bank-replicate n b

IsIncreasing-replicate : (n : ℕ) → All (IsIncreasing 0) (replicate n [])
IsIncreasing-replicate zero = tt
IsIncreasing-replicate (suc n) = (tt, IsIncreasing-replicate n)

clean-IsSound : (cs : ConflictSet) → IsClean cs → IsSound cs
clean-IsSound cs c = record { width = rw c refl; increasing = rw c (IsIncreasing-replicate 32) }

-- From clean banks, a bank holds exactly the touched dwords of that bank.
held :
    (cs : ConflictSet) (items : List (ℕ × ℕ)) (b a : ℕ)
    → IsClean cs
    → contains (bank (register_list items cs).banks b) a ≡ (touches cs.lanes items a && a % 32 == b)
held cs items b a c = ground (
  arith,
  register_list-bank items cs b a (clean-IsSound cs c),
  ap (λ bs. contains (bank bs b) a) c,
  ap (λ xs. contains xs a) (bank-replicate 32 b),
)

SetFree : ConflictSet → List (ℕ × ℕ) → Type 0
SetFree cs items =
    (d e : ℕ)
    → touches cs.lanes items d ≡ true
    → touches cs.lanes items e ≡ true
    → d % 32 ≡ e % 32
    → d ≡ e

SetFree-iff :
    (cs : ConflictSet) (items : List (ℕ × ℕ))
    → IsClean cs
    → (bank_conflict_count (register_list items cs) ≡ 0) ↔ SetFree cs items
unfolding SetFree
SetFree-iff cs items c =
    let filled = register_list items cs in
    let sound = (register_list_facts items cs (clean-IsSound cs c)).0 in
    let counted = count_zero_iff filled sound in
    (
      λ h d e td te same.
          counted.0 h (d % 32) d e (ground (arith, held cs items (d % 32) d c))
            (ground (arith, held cs items (d % 32) e c)),
      λ free. counted.1 λ b d e hd he.
          free d e (ground (arith, held cs items b d c)) (ground (arith, held cs items b e c))
            (ground (arith, held cs items b d c, held cs items b e c)),
    )

register_all_nil : (items : List (ℕ × ℕ)) → register_all items [] ≡ []
unfolding register_all
register_all_nil [] = refl
register_all_nil ((lane, address) ∷ items) = register_all_nil items

-- All the sets are free, each on the accesses that reach it.
AllFree : List ConflictSet → List (ℕ × ℕ) → Type 0
unfolding SetFree
AllFree [] items = Unit {0}
AllFree (cs ∷ rest) items = SetFree cs items × AllFree rest (passed cs.lanes items)

total_free_iff :
    (sets : List ConflictSet) (items : List (ℕ × ℕ))
    → All IsClean sets
    → (total_conflicts (register_all items sets) ≡ 0) ↔ AllFree sets items
unfolding total_conflicts AllFree
total_free_iff [] items c = (λ h. tt, λ f. rw (register_all_nil items) refl)
total_free_iff (cs ∷ rest) items c =
    let own = SetFree-iff cs items c.0 in
    let others = total_free_iff rest (passed cs.lanes items) c.1 in
    rw (register_all_split items cs rest) (
      λ h. (own.0 (omega arith), others.0 (omega arith)),
      λ f. omega (arith, own.1 f.0, others.1 f.1),
    )

free_phases :
    (sets : List ConflictSet) (items : List (ℕ × ℕ))
    → AllFree sets items ↔ ((k : ℕ) → k < length sets → IsConflictFree sets items k)
unfolding AllFree
free_phases [] items = (λ f k h. absurd (omega arith), λ f. tt)
free_phases (cs ∷ rest) items =
    let others = free_phases rest (passed cs.lanes items) in
    (
      λ f. elim [
        | zero ↦ λ h d e td te.
            f.0 d e (rw (touches_first cs rest items d) at td)
              (rw (touches_first cs rest items e) at te)
        | suc k ↦ λ h d e td te.
            others.0 f.1 k (omega arith) d e (rw (touches_later cs rest k items d) at td)
              (rw (touches_later cs rest k items e) at te)
      ],
      λ g. (
        λ d e td te.
            g 0 (omega arith) d e (rw (touches_first cs rest items d) td)
              (rw (touches_first cs rest items e) te),
        others.1 λ k h d e td te.
            g (suc k) (omega arith) d e (rw (touches_later cs rest k items d) td)
              (rw (touches_later cs rest k items e) te),
      ),
    )

-- On conflict sets with empty banks, an LDS access counts no bank conflicts exactly when, in each
-- of its phases, any two touched dwords of one bank are the same dword.
pub count_conflicts-IsConflictFree :
    (sets : List ConflictSet) (items : List (ℕ × ℕ))
    → All IsClean sets
    → ((count_conflicts items sets).0 ≡ 0)
      ↔ ((k : ℕ) → k < length sets → IsConflictFree sets items k)
unfolding count_conflicts
count_conflicts-IsConflictFree sets items c =
    let total = total_free_iff sets items c in
    let phases = free_phases sets items in (λ h. phases.0 (total.0 h), λ g. total.1 (phases.1 g))

map_empty : (bs : List (List ℕ)) → map {B = List ℕ} (λ bank. []) bs ≡ replicate (length bs) []
map_empty [] = refl
map_empty (b ∷ bs) = ap (◌∷◌ []) (map_empty bs)

clear-register_list :
    (cs : ConflictSet) (items : List (ℕ × ℕ)) → IsClean cs → clear (register_list items cs) ≡ cs
unfolding clear
clear-register_list cs items c =
    let (sound, same) = register_list_facts items cs (clean-IsSound cs c) in
    ground (
      arith,
      map_empty (register_list items cs).banks,
      ap (λ n. replicate {A = List ℕ} n []) sound.width,
    )

-- Counting leaves conflict sets with empty banks as they were, so one access never counts towards
-- the next.
pub count_conflicts_restores :
    (sets : List ConflictSet) (items : List (ℕ × ℕ))
    → All IsClean sets
    → (count_conflicts items sets).1 ≡ sets
unfolding count_conflicts
count_conflicts_restores [] items c = rw (register_all_nil items) refl
count_conflicts_restores (cs ∷ rest) items c = rw (register_all_split items cs rest) (
    cc
      (clear-register_list cs items c.0, count_conflicts_restores rest (passed cs.lanes items) c.1))

-- The table that the constructors build is clean.
pub conflict_sets-IsClean : All (λ entry. All IsClean entry.1) conflict_sets
unfolding conflict_sets
conflict_sets-IsClean = (
  (refl, (refl, tt)),
  (
    (refl, (refl, tt)),
    (
      (refl, (refl, tt)),
      (
        (refl, (refl, (refl, (refl, tt)))),
        ((refl, (refl, (refl, (refl, (refl, (refl, (refl, (refl, tt)))))))), tt),
      ),
    ),
  ),
)
