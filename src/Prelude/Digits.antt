-- ===== src/Prelude/Digits.antt =====
-- What operator<< prints of an unsigned number: decimal, and hexadecimal in a field of 16.
use Prim.Native.Nat.{ℕ, zero, suc, ◌+◌, ◌-◌, ◌/◌, ◌%◌}
use mathlib.Core.List.{[], ◌∷◌, ◌++◌}
use omniprobe.Prelude.Tests.{if◌then◌else◌, ◌==◌, ltb}
use omniprobe.Prelude.Lists.{length, replicate}
use omniprobe.Prelude.Text.{Bytes}

-- The digit of a value below 16.
abbrev pub digit : ℕ → ℕ
digit n = if ltb n 10 then b'0' + n else b'a' + (n - 10)

-- The digits in front of the text; a number has no more digits than its value and one.
unfoldable pub decimal_from : ℕ → ℕ → Bytes → Bytes
decimal_from zero n text = text
decimal_from (suc fuel) n text =
    let later = decimal_from fuel (n / 10) (digit (n % 10) ∷ text) in
    if n / 10 == 0 then digit (n % 10) ∷ text else later

unfoldable pub decimal : ℕ → Bytes
decimal n = decimal_from (suc n) n []

unfoldable pub hex_from : ℕ → ℕ → Bytes → Bytes
hex_from zero n text = text
hex_from (suc fuel) n text =
    let later = hex_from fuel (n / 16) (digit (n % 16) ∷ text) in
    if n / 16 == 0 then digit (n % 16) ∷ text else later

unfoldable pub hex : ℕ → Bytes
hex n = hex_from (suc n) n []

-- `std::setw(16) << std::setfill('0')`.
unfoldable pub hex_16 : ℕ → Bytes
hex_16 n = replicate (16 - length (hex n)) b'0' ++ hex n
