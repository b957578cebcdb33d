-- ===== src/Prelude/Masks.antt =====
-- Rounding by a mask: `x & ~(2 ^ k - 1)`, over the binary digits of a number.
use Prim.Native.Nat.{
  ℕ, zero, suc, ◌+◌, ◌-◌, ◌*◌, ◌/◌, ◌%◌, ◌≤◌, ◌<◌, min, bit_and, digits, bit_and-bitwise,
}
use mathlib.Core.Path.{◌≡◌, refl, sym, ap, ◌∙◌, subst}
use native.Mathlib.Omega.{arith}

-- 2 ^ k.
abbrev pub pw : ℕ → ℕ
pw zero = 1
pw (suc k) = pw k + pw k

-- The number with `j` ones in front of `k` zeros.
abbrev pub top : ℕ → ℕ → ℕ
top zero j = pw j - 1
top (suc k) j = top k j + top k j

-- 2 ^ (k + j).
abbrev pub pw_sum : ℕ → ℕ → ℕ
pw_sum zero j = pw j
pw_sum (suc k) j = pw_sum k j + pw_sum k j

abbrev and_from : ℕ → ℕ → ℕ → ℕ
and_from n a b = digits (λ b. zero) min n a b

pub pw_positive : (k : ℕ) → 1 ≤ pw k
pw_positive zero = omega arith
pw_positive (suc k) = omega (arith, pw_positive k)

pub top_lem : (k j : ℕ) → top k j + pw k ≡ pw_sum k j
top_lem zero j = omega (arith, pw_positive j)
top_lem (suc k) j = omega (arith, top_lem k j)

and_ones : (n k a : ℕ) → a ≤ n → a < pw k → and_from n a (pw k - 1) ≡ a
and_ones zero k a h s = omega arith
and_ones (suc n) k zero h s = refl
and_ones (suc n) zero (suc a) h s = absurd (omega arith)
and_ones (suc n) (suc k) (suc a) h s =
    let one = pw_positive k in
    let half : (pw k + pw k - 1) / 2 ≡ pw k - 1 = omega arith in
    let ih = and_ones n k (suc a / 2) (omega arith) (omega arith) in
    ap (λ b. and_from n (suc a / 2) b * 2 + min (suc a % 2) ((pw k + pw k - 1) % 2)) half
    ∙ omega (arith, ih)

-- A multiple of `p` that is at most `a`, and nearer than `p`.
abbrev pub IsRoundedDown : ℕ → ℕ → ℕ → Type 0
IsRoundedDown p a r = (q : ℕ) × (r ≡ q * p) × (r ≤ a) × (a < r + p)

and_top : (n k j a : ℕ) → a ≤ n → a < pw_sum k j → IsRoundedDown (pw k) a (and_from n a (top k j))
and_top n zero j a h s =
    let same = and_ones n j a h s in
    (a, omega (arith, same), omega (arith, same), omega (arith, same))
and_top zero (suc k) j a h s = let one = pw_positive k in (0, omega arith, omega arith, omega arith)
and_top (suc n) (suc k) j zero h s =
    let one = pw_positive k in (0, omega arith, omega arith, omega arith)
and_top (suc n) (suc k) j (suc a) h s =
    let (q, e, below, near) = and_top n k j (suc a / 2) (omega arith) (omega arith) in
    let half : (top k j + top k j) / 2 ≡ top k j = omega arith in
    let now : and_from (suc n) (suc a) (top (suc k) j)
        ≡ and_from n (suc a / 2) (top k j) * 2 + min (suc a % 2) ((top k j + top k j) % 2) =
      ap (λ b. and_from n (suc a / 2) b * 2 + min (suc a % 2) ((top k j + top k j) % 2)) half in
    let twice : and_from (suc n) (suc a) (top (suc k) j) ≡ (and_from n (suc a / 2) (top k j)) * 2 =
      omega (arith, now) in
    (q, omega (arith, twice, e), omega (arith, twice, below), omega (arith, twice, near))

-- With `k` zeros at its end, the mask takes a number down to a multiple of 2 ^ k.
pub bit_and-IsRoundedDown :
    (k j a : ℕ) → a < pw_sum k j → IsRoundedDown (pw k) a (bit_and a (top k j))
bit_and-IsRoundedDown k j a s =
    subst (λ r. IsRoundedDown (pw k) a r) (sym (bit_and-bitwise a (top k j)))
      (and_top a k j a (omega arith) s)
