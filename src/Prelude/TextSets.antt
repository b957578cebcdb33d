-- ===== src/Prelude/TextSets.antt =====
-- std::set of std::string as an increasing list of texts.
use mathlib.Core.Path.{◌≡◌, refl, ap}
use mathlib.Core.Bool.{Bool, false, ◌||◌}
use mathlib.Core.List.{List, [], ◌∷◌}
use native.Mathlib.Omega.{arith}
use Prim.Native.Nat.{Ordering}
use omniprobe.Prelude.Lists.{All}
use omniprobe.Prelude.Text.{Bytes, text_eq}
use omniprobe.Prelude.Maps.{text_cmp, text_cmp_eq, text_flip, text_trans}

-- `std::set<std::string>::insert`, on the elements in their order.
unfoldable pub insert_text : Bytes → List Bytes → List Bytes
insert_text x [] = x ∷ []
insert_text x (y ∷ ys) = elim (text_cmp x y) [
  | Ordering.lt ↦ x ∷ y ∷ ys
  | Ordering.eq ↦ y ∷ ys
  | Ordering.gt ↦ y ∷ insert_text x ys
]

unfoldable pub insert_texts : List Bytes → List Bytes → List Bytes
insert_texts [] s = s
insert_texts (x ∷ xs) s = insert_texts xs (insert_text x s)

abbrev pub has_text : Bytes → List Bytes → Bool
has_text t [] = false
has_text t (x ∷ xs) = text_eq t x || has_text t xs

abbrev pub any_text : (Bytes → Bool) → List Bytes → Bool
any_text p [] = false
any_text p (x ∷ xs) = p x || any_text p xs

-- Every text is greater than the one before, so that none is there twice.
abbrev pub IsSorted : List Bytes → Type 0
IsSorted [] = Unit {0}
IsSorted (x ∷ xs) = All (λ y. text_cmp x y ≡ Ordering.lt) xs × IsSorted xs

text_eq_cmp : (t a b : Bytes) → text_cmp a b ≡ Ordering.eq → text_eq t a ≡ text_eq t b
text_eq_cmp t a b h = ap (λ x. text_eq t x) (text_cmp_eq a b h)

pub has_text-insert_text :
    (t x : Bytes) (s : List Bytes) → has_text t (insert_text x s) ≡ (text_eq t x || has_text t s)
unfolding insert_text
has_text-insert_text t x [] = refl
has_text-insert_text t x (y ∷ s) = ground (arith, has_text-insert_text t x s, text_eq_cmp t x y)

pub has_text-insert_texts :
    (t : Bytes) (xs s : List Bytes)
    → has_text t (insert_texts xs s) ≡ (has_text t xs || has_text t s)
unfolding insert_texts
has_text-insert_texts t [] s = refl
has_text-insert_texts t (x ∷ xs) s =
    ground (arith, has_text-insert_texts t xs (insert_text x s), has_text-insert_text t x s)

All-insert_text {κ} :
    (P : Bytes → Type κ) (x : Bytes) (s : List Bytes) → P x → All P s → All P (insert_text x s)
unfolding insert_text
All-insert_text P x [] p a = (p, tt)
All-insert_text P x (y ∷ s) p a = go (text_cmp x y) (All-insert_text P x s p a.1)
  where
    go :
        (r : Ordering)
        → All P (insert_text x s)
        → All P (elim r [
          | Ordering.lt ↦ x ∷ y ∷ s
          | Ordering.eq ↦ y ∷ s
          | Ordering.gt ↦ y ∷ insert_text x s
        ])
    go Ordering.lt later = (p, a)
    go Ordering.eq later = a
    go Ordering.gt later = (a.0, later)

lower_for :
    (x y : Bytes) (s : List Bytes)
    → text_cmp x y ≡ Ordering.lt
    → All (λ z. text_cmp y z ≡ Ordering.lt) s
    → All (λ z. text_cmp x z ≡ Ordering.lt) s
lower_for x y [] h a = tt
lower_for x y (z ∷ s) h a = (text_trans x y z h a.0, lower_for x y s h a.1)

pub insert_text-IsSorted : (x : Bytes) (s : List Bytes) → IsSorted s → IsSorted (insert_text x s)
unfolding insert_text
insert_text-IsSorted x [] i = (tt, tt)
insert_text-IsSorted x (y ∷ s) i =
    go (text_cmp x y) refl (insert_text-IsSorted x s i.1)
      (All-insert_text (λ z. text_cmp y z ≡ Ordering.lt) x s)
  where
    go :
        (r : Ordering)
        → text_cmp x y ≡ r
        → IsSorted (insert_text x s)
        → (text_cmp y x ≡ Ordering.lt
            → All (λ z. text_cmp y z ≡ Ordering.lt) s
            → All (λ z. text_cmp y z ≡ Ordering.lt) (insert_text x s))
        → IsSorted (elim r [
          | Ordering.lt ↦ x ∷ y ∷ s
          | Ordering.eq ↦ y ∷ s
          | Ordering.gt ↦ y ∷ insert_text x s
        ])
    go Ordering.lt e later below = ((e, lower_for x y s e i.0), i)
    go Ordering.eq e later below = i
    go Ordering.gt e later below = (below (text_flip x y e) i.0, later)

pub insert_texts-IsSorted : (xs s : List Bytes) → IsSorted s → IsSorted (insert_texts xs s)
unfolding insert_texts
insert_texts-IsSorted [] s i = i
insert_texts-IsSorted (x ∷ xs) s i =
    insert_texts-IsSorted xs (insert_text x s) (insert_text-IsSorted x s i)
