-- ===== src/Prelude/Maps.antt =====
-- std::map as an association list in key order: a lookup or an insertion walks the keys up to the
-- first one that is not less, as a search does, so the laws need no sortedness.
use Prim.Native.Nat.{ℕ, compare, Ordering}
use mathlib.Core.Path.{◌≡◌, refl, subst}
use mathlib.Core.Logic.{◌≢◌, ◌⊎◌, inl, inr}
use mathlib.Core.List.{List, [], ◌∷◌}
use mathlib.Core.Option.{Option, none, some}
use native.Mathlib.Omega.{arith}
use omniprobe.Prelude.Lists.{All}

-- The order of a map's keys (`std::less`, or the comparison object of the map).
pub record Key {ℓ} (K : Type ℓ) : Type ℓ where
  pub cmp : K → K → Ordering
  pub cmp_refl : (a : K) → cmp a a ≡ Ordering.eq
  pub cmp_eq : (a b : K) → cmp a b ≡ Ordering.eq → a ≡ b
  pub cmp_trans :
      (a b c : K) → cmp a b ≡ Ordering.lt → cmp b c ≡ Ordering.lt → cmp a c ≡ Ordering.lt
  pub cmp_flip : (a b : K) → cmp a b ≡ Ordering.gt → cmp b a ≡ Ordering.lt

pub nat_trans :
    (a b c : ℕ) → compare a b ≡ Ordering.lt → compare b c ≡ Ordering.lt → compare a c ≡ Ordering.lt
nat_trans a b c h k = ground arith

pub nat_flip : (a b : ℕ) → compare a b ≡ Ordering.gt → compare b a ≡ Ordering.lt
nat_flip a b h = ground arith

pub nat_refl : (a : ℕ) → compare a a ≡ Ordering.eq
nat_refl a = ground arith

pub nat_eq : (a b : ℕ) → compare a b ≡ Ordering.eq → a ≡ b
nat_eq a b h = ground arith

instance abbrev pub nat_key : Key ℕ
nat_key = record {
  cmp = compare;
  cmp_refl = nat_refl;
  cmp_eq = nat_eq;
  cmp_trans = nat_trans;
  cmp_flip = nat_flip;
}

-- Lexicographic order of bytes.
unfoldable pub text_cmp : List ℕ → List ℕ → Ordering
text_cmp [] [] = Ordering.eq
text_cmp [] (y ∷ ys) = Ordering.lt
text_cmp (x ∷ xs) [] = Ordering.gt
text_cmp (x ∷ xs) (y ∷ ys) = elim (compare x y) [ Ordering.eq ↦ text_cmp xs ys | other ↦ other ]

pub text_refl : (a : List ℕ) → text_cmp a a ≡ Ordering.eq
unfolding text_cmp
text_refl [] = refl
text_refl (x ∷ xs) = ground (arith, text_refl xs)

pub text_cmp_eq : (a b : List ℕ) → text_cmp a b ≡ Ordering.eq → a ≡ b
unfolding text_cmp
text_cmp_eq [] [] h = refl
text_cmp_eq [] (y ∷ ys) h = cc
text_cmp_eq (x ∷ xs) [] h = cc
text_cmp_eq (x ∷ xs) (y ∷ ys) h = ground (arith, text_cmp_eq xs ys)

pub text_trans :
    (a b c : List ℕ)
    → text_cmp a b ≡ Ordering.lt
    → text_cmp b c ≡ Ordering.lt
    → text_cmp a c ≡ Ordering.lt
unfolding text_cmp
text_trans [] [] c h k = cc
text_trans [] (y ∷ b) [] h k = cc
text_trans [] (y ∷ b) (z ∷ c) h k = refl
text_trans (x ∷ a) [] c h k = cc
text_trans (x ∷ a) (y ∷ b) [] h k = cc
text_trans (x ∷ a) (y ∷ b) (z ∷ c) h k = ground (arith, text_trans a b c)

pub text_flip : (a b : List ℕ) → text_cmp a b ≡ Ordering.gt → text_cmp b a ≡ Ordering.lt
unfolding text_cmp
text_flip [] [] h = cc
text_flip [] (y ∷ b) h = cc
text_flip (x ∷ a) [] h = refl
text_flip (x ∷ a) (y ∷ b) h = ground (arith, text_flip a b)

instance abbrev pub text_key : Key (List ℕ)
text_key = record {
  cmp = text_cmp;
  cmp_refl = text_refl;
  cmp_eq = text_cmp_eq;
  cmp_trans = text_trans;
  cmp_flip = text_flip;
}

flip_lt {ℓ} : {K : Type ℓ} ⦃o : Key K⦄ (a b : K) → o.cmp a b ≡ Ordering.lt → o.cmp b a ≡ Ordering.gt
flip_lt ⦃o⦄ a b h = go (o.cmp b a) refl
  where
    go : (r : Ordering) → o.cmp b a ≡ r → o.cmp b a ≡ Ordering.gt
    go Ordering.lt e = absurd (cc (o.cmp_trans a b a h e, o.cmp_refl a))
    go Ordering.eq e = cc (o.cmp_eq b a e, o.cmp_refl a)
    go Ordering.gt e = e

module _ {ℓ κ} {K : Type ℓ} {V : Type κ} ⦃o : Key K⦄ where
  -- `m.find(k)`.
  unfoldable pub lookup : K → List (K × V) → Option V
  lookup k [] = none
  lookup k ((j, v) ∷ m) = elim (o.cmp k j) [
    | Ordering.lt ↦ none
    | Ordering.eq ↦ some v
    | Ordering.gt ↦ lookup k m
  ]

  -- `m[k] = f(m[k])`, where `f` is told whether the key is there.
  unfoldable pub upsert : K → (Option V → V) → List (K × V) → List (K × V)
  upsert k f [] = (k, f none) ∷ []
  upsert k f ((j, v) ∷ m) = elim (o.cmp k j) [
    | Ordering.lt ↦ (k, f none) ∷ (j, v) ∷ m
    | Ordering.eq ↦ (j, f (some v)) ∷ m
    | Ordering.gt ↦ (j, v) ∷ upsert k f m
  ]

  -- `m[k] = v`.
  abbrev pub assign : K → V → List (K × V) → List (K × V)
  assign k v = upsert k (λ old. v)

  -- `m.erase(k)`.
  unfoldable pub erase : K → List (K × V) → List (K × V)
  erase k [] = []
  erase k ((j, v) ∷ m) = elim (o.cmp k j) [
    | Ordering.lt ↦ (j, v) ∷ m
    | Ordering.eq ↦ m
    | Ordering.gt ↦ (j, v) ∷ erase k m
  ]

  -- After an update the key holds the new value.
  pub lookup-upsert_self :
      (k : K) (f : Option V → V) (m : List (K × V))
      → lookup k (upsert k f m) ≡ some (f (lookup k m))
  unfolding lookup upsert
  lookup-upsert_self k f [] = rw (o.cmp_refl k)
  lookup-upsert_self k f ((j, v) ∷ m) =
      ground (arith, o.cmp_refl k, lookup-upsert_self k f m, o.cmp_flip k j, flip_lt k j)

  -- The other keys hold what they held.
  pub lookup-upsert_ne :
      (k : K) (f : Option V → V) (m : List (K × V)) (i : K)
      → o.cmp i k ≢ Ordering.eq
      → lookup i (upsert k f m) ≡ lookup i m
  unfolding lookup upsert
  lookup-upsert_ne k f [] i h = ground arith
  lookup-upsert_ne k f ((j, v) ∷ m) i h =
      ground (arith, lookup-upsert_ne k f m i h, o.cmp_trans i k j, o.cmp_flip i k, o.cmp_eq k j)

  -- Storing what is stored already changes nothing.
  pub assign_self : (k : K) (v : V) (m : List (K × V)) → lookup k m ≡ some v → assign k v m ≡ m
  unfolding lookup upsert
  assign_self k v [] h = cc
  assign_self k v ((j, w) ∷ m) h = ground (arith, assign_self k v m)

  -- An entry that is stored keeps a property of all values.
  pub upsert-All {μ} :
      (P : V → Type μ) (k : K) (f : Option V → V) (m : List (K × V))
      → P (f none)
      → ((v : V) → P v → P (f (some v)))
      → All (λ entry. P entry.1) m
      → All (λ entry. P entry.1) (upsert k f m)
  unfolding upsert
  upsert-All P k f [] fresh old a = (fresh, tt)
  upsert-All P k f ((j, w) ∷ m) fresh old a =
      elim (o.cmp k j)
        as (λ c.
          All (λ entry. P entry.1)
            (elim c [
              | Ordering.lt ↦ (k, f none) ∷ (j, w) ∷ m
              | Ordering.eq ↦ (j, f (some w)) ∷ m
              | Ordering.gt ↦ (j, w) ∷ upsert k f m
            ])) [
              | Ordering.lt ↦ (fresh, a)
              | Ordering.eq ↦ (old w a.0, a.1)
              | Ordering.gt ↦ (a.0, upsert-All P k f m fresh old a.1)
            ]

  -- What a lookup finds has every property of the values.
  pub lookup-All {μ} :
      (P : V → Type μ) (k : K) (m : List (K × V)) {v : V}
      → All (λ entry. P entry.1) m
      → lookup k m ≡ some v
      → P v
  unfolding lookup
  lookup-All P k [] a h = absurd (cc h)
  lookup-All P k ((j, w) ∷ m) {v} a h = go (o.cmp k j) refl (lookup-All P k m a.1)
    where
      go : (r : Ordering) → o.cmp k j ≡ r → (lookup k m ≡ some v → P v) → P v
      go Ordering.lt e rest = absurd (ground arith)
      go Ordering.eq e rest = let same : w ≡ v = ground arith in subst P same a.0
      go Ordering.gt e rest = rest (ground arith)

  -- An update is seen at its key, and at no other.
  pub lookup-upsert_at :
      (k : K) (f : Option V → V) (m : List (K × V)) (i : K)
      → i ≡ k
      → lookup i (upsert k f m) ≡ some (f (lookup i m))
  lookup-upsert_at k f m i e = rw e (lookup-upsert_self k f m)

  pub same_or_kept :
      (k : K) (f : Option V → V) (m : List (K × V)) (i : K)
      → (i ≡ k) ⊎ (lookup i (upsert k f m) ≡ lookup i m)
  same_or_kept k f m i = go (o.cmp i k) refl
    where
      go : (r : Ordering) → o.cmp i k ≡ r → (i ≡ k) ⊎ (lookup i (upsert k f m) ≡ lookup i m)
      go Ordering.lt e = inr (lookup-upsert_ne k f m i (λ h. cc))
      go Ordering.eq e = inl (o.cmp_eq i k e)
      go Ordering.gt e = inr (lookup-upsert_ne k f m i (λ h. cc))
