-- ===== src/Scope/Plain.antt =====
-- Texts that the scope parser takes as they are: no blanks to trim, no delimiters to split at.
use omniprobe.Prelude.{
  ℕ, ◌≡◌, refl, Bool, true, false, not, ◌&&◌, [], ◌∷◌, ◌++◌, Bytes, ◌==◌, contains, All, All-append,
  arith,
}
use mathlib.Core.List.{reverse, reverse-reverse, append-nil, append_assoc, reverse-cons}
use omniprobe.Scope.Numbers.{is_digit, AllDigits}
use omniprobe.Scope.Parse.{is_blank, skip_blanks, trim_whitespace, pieces}

-- A character that the parser takes as part of a word in every position.
abbrev pub is_plain : ℕ → Bool
is_plain c = not (is_blank c) && not (c == b';')

abbrev pub AllPlain : Bytes → Type 0
AllPlain s = All (λ c. is_plain c ≡ true) s

-- A file pattern of plain characters, with no colon.
abbrev pub IsPattern : Bytes → Type 0
IsPattern s = All (λ c. (is_plain c && not (c == b':')) ≡ true) s

skip_blanks-AllPlain : (s : Bytes) → AllPlain s → skip_blanks s ≡ s
unfolding skip_blanks
skip_blanks-AllPlain [] h = refl
skip_blanks-AllPlain (c ∷ s) h = ground arith

reverse-AllPlain : (s : Bytes) → AllPlain s → AllPlain (reverse s)
reverse-AllPlain [] h = tt
reverse-AllPlain (c ∷ s) h =
    rw (reverse-cons c s)
      (All-append (λ c. is_plain c ≡ true) (reverse s) (c ∷ []) (reverse-AllPlain s h.1) (h.0, tt))

pub trim-AllPlain : (s : Bytes) → AllPlain s → trim_whitespace s ≡ s
unfolding trim_whitespace
trim-AllPlain s h = rw (
  skip_blanks-AllPlain s h,
  skip_blanks-AllPlain (reverse s) (reverse-AllPlain s h),
  reverse-reverse s,
)

-- A text without the delimiter is one piece.
pieces_one :
    (d : ℕ) (a : ℕ) (acc s : Bytes)
    → contains s d ≡ false
    → pieces d (a ∷ acc) s ≡ (a ∷ acc ++ s) ∷ []
unfolding pieces
pieces_one d a acc [] h = rw append-nil
pieces_one d a acc (c ∷ s) h =
    let ih = pieces_one d a (acc ++ c ∷ []) s (ground arith) in
    let joined = append_assoc acc (c ∷ []) s in ground (arith, ih, joined)

pub pieces_whole :
    (d c : ℕ) (s : Bytes) → contains (c ∷ s) d ≡ false → pieces d [] (c ∷ s) ≡ (c ∷ s) ∷ []
unfolding pieces
pieces_whole d c s h = ground (arith, pieces_one d c [] s)

pub plain-contains : (s : Bytes) → AllPlain s → contains s b';' ≡ false
plain-contains [] h = refl
plain-contains (c ∷ s) h = ground (arith, plain-contains s h.1)

pub digits-contains : (d : ℕ) (s : Bytes) → is_digit d ≡ false → AllDigits s → contains s d ≡ false
digits-contains d [] n h = refl
digits-contains d (c ∷ s) n h = ground (arith, digits-contains d s n h.1)

pub contains-append :
    (d : ℕ) (s t : Bytes)
    → contains s d ≡ false
    → contains t d ≡ false
    → contains (s ++ t) d ≡ false
contains-append d [] t h k = k
contains-append d (c ∷ s) t h k = ground (arith, contains-append d s t)

pub digits-AllPlain : (s : Bytes) → AllDigits s → AllPlain s
digits-AllPlain [] h = tt
digits-AllPlain (c ∷ s) h = (ground arith, digits-AllPlain s h.1)

pub pattern-AllPlain : (s : Bytes) → IsPattern s → AllPlain s
pattern-AllPlain [] h = tt
pattern-AllPlain (c ∷ s) h = (ground arith, pattern-AllPlain s h.1)
