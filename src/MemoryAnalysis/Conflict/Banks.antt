-- ===== src/MemoryAnalysis/Conflict/Banks.antt =====
-- The banks of one conflict set after a run of accesses.
use omniprobe.Prelude.{
  ℕ, zero, suc, ◌/◌, ◌%◌, ◌≤◌, ◌<◌, ◌≡◌, ◌↔◌, inl, inr, refl, ap, ◌∙◌, Bool, true, false, ◌&&◌,
  ◌||◌, List, [], ◌∷◌, length, contains, get_or, replicate, All, ◌==◌, arith, Bool-cases,
}
use omniprobe.Prelude.Sets.{IsIncreasing, contains-insert, insert-IsIncreasing}
use Prim.Native.Nat.{max}
use omniprobe.MemoryAnalysis.Conflict.{
  ConflictSet, insert_at, register_access, most_dwords, bank_conflict_count,
}

-- The bank of a dword, and the dwords that a bank holds.
abbrev pub bank : List (List ℕ) → ℕ → List ℕ
bank bs b = get_or bs b []

pub length-insert_at : (i d : ℕ) (bs : List (List ℕ)) → length (insert_at i d bs) ≡ length bs
unfolding insert_at
length-insert_at i d [] = refl
length-insert_at zero d (b ∷ bs) = refl
length-insert_at (suc i) d (b ∷ bs) = ap suc (length-insert_at i d bs)

pub bank-insert_at :
    (i d : ℕ) (bs : List (List ℕ)) (b a : ℕ)
    → i < length bs
    → contains (bank (insert_at i d bs) b) a ≡ ((i == b && d == a) || contains (bank bs b) a)
unfolding insert_at
bank-insert_at i d [] b a h = absurd (omega arith)
bank-insert_at zero d (s ∷ bs) zero a h = contains-insert d a s
bank-insert_at zero d (s ∷ bs) (suc b) a h = ground arith
bank-insert_at (suc i) d (s ∷ bs) zero a h = ground arith
bank-insert_at (suc i) d (s ∷ bs) (suc b) a h = ground (arith, bank-insert_at i d bs b a)

insert_at-IsIncreasing :
    (i d : ℕ) (bs : List (List ℕ))
    → All (IsIncreasing 0) bs
    → All (IsIncreasing 0) (insert_at i d bs)
unfolding insert_at
insert_at-IsIncreasing i d [] h = tt
insert_at-IsIncreasing zero d (s ∷ bs) h = (insert-IsIncreasing 0 d s (omega arith) h.0, h.1)
insert_at-IsIncreasing (suc i) d (s ∷ bs) h = (h.0, insert_at-IsIncreasing i d bs h.1)

-- The accesses that one set takes, one after the other.
unfoldable pub register_list : List (ℕ × ℕ) → ConflictSet → ConflictSet
unfolding register_access
register_list [] cs = cs
register_list ((lane, address) ∷ items) cs = register_list items (register_access lane address cs).0

-- Does an access of one of the set's lanes touch the dword?
unfoldable pub touches : List ℕ → List (ℕ × ℕ) → ℕ → Bool
touches lanes [] d = false
touches lanes ((lane, address) ∷ items) d =
    (contains lanes lane && address / 4 == d) || touches lanes items d

pub record IsSound (cs : ConflictSet) : Type 0 where
  pub width : length cs.banks ≡ 32
  pub increasing : All (IsIncreasing 0) cs.banks

register_access-IsSound :
    (lane address : ℕ) (cs : ConflictSet) → IsSound cs → IsSound (register_access lane address cs).0
unfolding register_access
register_access-IsSound lane address cs s = elim (Bool-cases (contains cs.lanes lane)) [
  | inl e ↦ rw e (record {
    width = omega (arith, s.width, length-insert_at (address / 4 % 32) (address / 4) cs.banks);
    increasing = insert_at-IsIncreasing (address / 4 % 32) (address / 4) cs.banks s.increasing;
  })
  | inr e ↦ rw e s
]

register_access_lanes :
    (lane address : ℕ) (cs : ConflictSet) → (register_access lane address cs).0.lanes ≡ cs.lanes
unfolding register_access
register_access_lanes lane address cs = ground arith

register_access-bank :
    (lane address : ℕ) (cs : ConflictSet) (b a : ℕ)
    → IsSound cs
    → contains (bank (register_access lane address cs).0.banks b) a ≡ (
        (contains cs.lanes lane && (address / 4 == a && a % 32 == b))
        || contains (bank cs.banks b) a)
unfolding register_access
register_access-bank lane address cs b a s =
    ground (arith, s.width, bank-insert_at (address / 4 % 32) (address / 4) cs.banks b a)

pub register_list_facts :
    (items : List (ℕ × ℕ)) (cs : ConflictSet)
    → IsSound cs
    → IsSound (register_list items cs) × ((register_list items cs).lanes ≡ cs.lanes)
unfolding register_list
register_list_facts [] cs s = (s, refl)
register_list_facts ((lane, address) ∷ items) cs s =
    let (t, e) =
      register_list_facts items (register_access lane address cs).0
        (register_access-IsSound lane address cs s) in
    (t, e ∙ register_access_lanes lane address cs)

-- A bank holds the dwords of that bank which the set's lanes have touched, and what it held before.
pub register_list-bank :
    (items : List (ℕ × ℕ)) (cs : ConflictSet) (b a : ℕ)
    → IsSound cs
    → contains (bank (register_list items cs).banks b) a
      ≡ ((touches cs.lanes items a && a % 32 == b) || contains (bank cs.banks b) a)
unfolding register_list touches
register_list-bank [] cs b a s = refl
register_list-bank ((lane, address) ∷ items) cs b a s =
    let next = (register_access lane address cs).0 in
    ground (
      arith,
      register_list-bank items next b a (register_access-IsSound lane address cs s),
      register_access_lanes lane address cs,
      register_access-bank lane address cs b a s,
    )

abbrev AtMostOne : List ℕ → Type 0
AtMostOne s = length s ≤ 1

most_dwords_lem :
    (m : ℕ) (bs : List (List ℕ)) → (most_dwords m bs ≤ 1) ↔ ((m ≤ 1) × All AtMostOne bs)
unfolding most_dwords
most_dwords_lem m [] = (λ h. (h, tt), λ h. h.0)
most_dwords_lem m (b ∷ bs) =
    let ih = most_dwords_lem (max m (length b)) bs in
    (λ h. let (x, y) = ih.0 h in (omega arith, (omega arith, y)), λ h. ih.1 (omega arith, h.1.1))

-- An increasing list has at most one element if no two differ.
at_most_one :
    (s : List ℕ)
    → IsIncreasing 0 s
    → ((d e : ℕ) → contains s d ≡ true → contains s e ≡ true → d ≡ e)
    → AtMostOne s
at_most_one [] i h = omega arith
at_most_one (x ∷ []) i h = omega arith
at_most_one (x ∷ y ∷ s) i h = absurd (omega (arith, h x y (ground arith) (ground arith)))

one_of : (s : List ℕ) (d e : ℕ) → AtMostOne s → contains s d ≡ true → contains s e ≡ true → d ≡ e
one_of [] d e l h k = cc
one_of (x ∷ []) d e l h k = ground arith
one_of (x ∷ y ∷ s) d e l h k = absurd (omega arith)

All-bank : (bs : List (List ℕ)) (b : ℕ) → All AtMostOne bs → AtMostOne (bank bs b)
All-bank [] b h = omega arith
All-bank (s ∷ bs) zero h = h.0
All-bank (s ∷ bs) (suc b) h = All-bank bs b h.1

All-of_bank :
    (bs : List (List ℕ))
    → All (IsIncreasing 0) bs
    → ((b d e : ℕ) → contains (bank bs b) d ≡ true → contains (bank bs b) e ≡ true → d ≡ e)
    → All AtMostOne bs
All-of_bank [] i h = tt
All-of_bank (s ∷ bs) i h = (at_most_one s i.0 (h 0), All-of_bank bs i.1 (λ b. h (suc b)))

-- A set has no conflicts exactly when no bank holds two dwords.
pub count_zero_iff :
    (cs : ConflictSet)
    → IsSound cs
    → (bank_conflict_count cs ≡ 0) ↔ (
        (b d e : ℕ)
        → contains (bank cs.banks b) d ≡ true
        → contains (bank cs.banks b) e ≡ true
        → d ≡ e)
unfolding bank_conflict_count
count_zero_iff cs s = (
  λ h b d e.
      one_of (bank cs.banks b) d e
        (All-bank cs.banks b ((most_dwords_lem 1 cs.banks).0 (omega arith)).1),
  λ h.
      let low = (most_dwords_lem 1 cs.banks).1 (omega arith, All-of_bank cs.banks s.increasing h) in
      omega arith,
)

abbrev pub IsClean : ConflictSet → Type 0
IsClean cs = cs.banks ≡ replicate 32 []
