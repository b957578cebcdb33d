-- ===== src/Scope/Numbers.antt =====
-- std::strtoul in base 10, as src/instrumentation/InstrumentationCommon.cpp uses it.
use omniprobe.Prelude.{
  ℕ, ◌+◌, ◌-◌, ◌*◌, ◌<◌, ◌≡◌, ◌≢◌, refl, Bool, true, false, ◌&&◌, ◌||◌, [], ◌∷◌, Bytes,
  if◌then◌else◌, ◌==◌, ltb, leb, two64, u64, arith, All,
}
use Prim.Native.Nat.{min}

abbrev pub is_digit : ℕ → Bool
is_digit c = leb b'0' c && leb c b'9'

-- std::isspace in the C locale.
abbrev pub is_space : ℕ → Bool
is_space c = c == 32 || (leb 9 c && leb c 13)

unfoldable pub skip_space : Bytes → Bytes
skip_space [] = []
skip_space (c ∷ s) = let rest = skip_space s in if is_space c then rest else c ∷ s

-- The digits at the front are read into the accumulator; the text behind them is kept.
unfoldable pub read_digits : ℕ → Bytes → ℕ × Bytes
read_digits acc [] = (acc, [])
read_digits acc (c ∷ s) =
    let rest = read_digits (acc * 10 + (c - b'0')) s in if is_digit c then rest else (acc, c ∷ s)

-- The value is clamped to ULONG_MAX; a minus sign negates it, as an unsigned long.
abbrev pub clamp : ℕ → ℕ
clamp n = min n (two64 - 1)

unfoldable pub negate : ℕ → ℕ
negate n = if ltb n two64 then u64 (two64 - n) else two64 - 1

-- The digits behind a sign; with no digit there the whole text is left unread.
unfoldable pub signed : Bytes → Bool → Bytes → ℕ × Bytes
unfolding read_digits
signed text negative [] = (0, text)
signed text negative (c ∷ s) =
    if is_digit c
    then (
      if negative then negate (read_digits 0 (c ∷ s)).0 else clamp (read_digits 0 (c ∷ s)).0,
      (read_digits 0 (c ∷ s)).1,
    )
    else (0, text)

unfoldable pub after_space : Bytes → Bytes → ℕ × Bytes
unfolding signed
after_space text [] = (0, text)
after_space text (c ∷ s) =
    if c == b'-'
    then signed text true s
    else if c == b'+'
    then signed text false s
    else signed text false (c ∷ s)

-- The number, and the text from `*endptr` on.
unfoldable pub strtoul : Bytes → ℕ × Bytes
unfolding skip_space after_space
strtoul text = after_space text (skip_space text)

-- The number that decimal digits denote.
abbrev pub value_from : ℕ → Bytes → ℕ
value_from acc [] = acc
value_from acc (c ∷ s) = value_from (acc * 10 + (c - b'0')) s

abbrev pub value : Bytes → ℕ
value = value_from 0

abbrev pub AllDigits : Bytes → Type 0
AllDigits s = All (λ c. is_digit c ≡ true) s

read_digits-value : (acc : ℕ) (s : Bytes) → AllDigits s → read_digits acc s ≡ (value_from acc s, [])
unfolding read_digits
read_digits-value acc [] h = refl
read_digits-value acc (c ∷ s) h = rw h.0 (read_digits-value (acc * 10 + (c - b'0')) s h.1)

-- A text of digits is read as a whole, and as its value, if that fits.
pub strtoul-value : (s : Bytes) → AllDigits s → s ≢ [] → value s < two64 → strtoul s ≡ (value s, [])
unfolding strtoul
strtoul-value [] h ne small = absurd (ne refl)
strtoul-value (c ∷ s) h ne small = ground (arith, read_digits-value 0 (c ∷ s) h)
