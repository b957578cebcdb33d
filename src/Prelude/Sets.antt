-- ===== src/Prelude/Sets.antt =====
-- std::set of numbers as an increasing list.
use Prim.Native.Nat.{ℕ, suc, ◌≤◌, ◌<◌}
use mathlib.Core.Path.{◌≡◌, refl}
use mathlib.Core.Bool.{false, ◌||◌}
use mathlib.Core.List.{List, [], ◌∷◌}
use native.Mathlib.Omega.{arith}
use omniprobe.Prelude.Tests.{if◌then◌else◌, ◌==◌, ltb}
use omniprobe.Prelude.Lists.{contains}

-- `s.insert(x)`.
unfoldable pub insert : ℕ → List ℕ → List ℕ
insert x [] = x ∷ []
insert x (y ∷ ys) = if ltb x y then x ∷ y ∷ ys else if x == y then y ∷ ys else y ∷ insert x ys

unfoldable pub insert_all : List ℕ → List ℕ → List ℕ
insert_all [] s = s
insert_all (x ∷ xs) s = insert_all xs (insert x s)

-- Every element is at least the bound, and the elements increase.
abbrev pub IsIncreasing : ℕ → List ℕ → Type 0
IsIncreasing lo [] = Unit {0}
IsIncreasing lo (x ∷ xs) = (lo ≤ x) × IsIncreasing (suc x) xs

pub contains-insert : (x a : ℕ) (s : List ℕ) → contains (insert x s) a ≡ (x == a || contains s a)
unfolding insert
contains-insert x a [] = refl
contains-insert x a (y ∷ s) = ground (arith, contains-insert x a s)

pub contains-insert_all :
    (a : ℕ) (xs s : List ℕ) → contains (insert_all xs s) a ≡ (contains xs a || contains s a)
unfolding insert_all
contains-insert_all a [] s = refl
contains-insert_all a (x ∷ xs) s =
    ground (arith, contains-insert_all a xs (insert x s), contains-insert x a s)

pub insert-IsIncreasing :
    (lo x : ℕ) (s : List ℕ) → lo ≤ x → IsIncreasing lo s → IsIncreasing lo (insert x s)
unfolding insert
insert-IsIncreasing lo x [] h i = (h, tt)
insert-IsIncreasing lo x (y ∷ s) h i = ground (arith, insert-IsIncreasing (suc y) x s)

-- In an increasing list nothing lies below the bound.
pub not-contains_below : (lo a : ℕ) (s : List ℕ) → a < lo → IsIncreasing lo s → contains s a ≡ false
not-contains_below lo a [] h i = refl
not-contains_below lo a (y ∷ s) h i = ground (arith, not-contains_below (suc y) a s)
