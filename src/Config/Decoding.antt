-- ===== src/Config/Decoding.antt =====
-- The loop of verify_signature (src/config_receiver.cc) that decodes the signature piece by piece.
use mathlib.Core.List.{append_assoc, append-nil}
use omniprobe.Prelude.{
  ℕ, zero, suc, ◌+◌, ◌-◌, ◌≤◌, ◌≡◌, refl, sym, ap, ◌∙◌, List, [], ◌∷◌, ◌++◌, Bytes, if◌then◌else◌,
  ltb, length, take, drop, replicate, length-append, length-take, length-replicate, Bool-cases, inl,
  inr, arith,
}
use omniprobe.Config.{resize, copy_to, read_all, decode}

-- The pieces up to the first that is empty.
abbrev pub before_end : List Bytes → Bytes
before_end [] = []
before_end ([] ∷ pieces) = []
before_end ((b ∷ bs) ∷ pieces) = (b ∷ bs) ++ before_end pieces

take_all : (n : ℕ) (xs ys : Bytes) → length xs ≡ n → take n (xs ++ ys) ≡ xs
take_all zero [] ys h = refl
take_all zero (x ∷ xs) ys h = absurd (omega (arith, h))
take_all (suc n) [] ys h = absurd (omega (arith, h))
take_all (suc n) (x ∷ xs) ys h = ap (λ l. x ∷ l) (take_all n xs ys (omega (arith, h)))

take_some : (n : ℕ) (xs ys : Bytes) → n ≤ length xs → take n (xs ++ ys) ≡ take n xs
take_some zero xs ys h = refl
take_some (suc n) [] ys h = absurd (omega (arith, h))
take_some (suc n) (x ∷ xs) ys h = ap (λ l. x ∷ l) (take_some n xs ys (omega (arith, h)))

take-take : (m n : ℕ) (xs : Bytes) → m ≤ n → take m (take n xs) ≡ take m xs
take-take zero n xs h = refl
take-take (suc m) zero xs h = absurd (omega (arith, h))
take-take (suc m) (suc n) [] h = refl
take-take (suc m) (suc n) (x ∷ xs) h = ap (λ l. x ∷ l) (take-take m n xs (omega (arith, h)))

length-resize : (n : ℕ) (bytes : Bytes) → length (resize n bytes) ≡ n
length-resize n bytes = omega (
  arith,
  length-append (take n bytes) (replicate (n - length bytes) 0),
  length-take n bytes,
  length-replicate {A = ℕ} (n - length bytes) 0,
)

-- A piece behind the first `at` bytes: they and the piece are the first bytes of the result.
copied :
    (at : ℕ) (piece bytes : Bytes)
    → at ≤ length bytes
    → take (at + length piece) (copy_to at piece bytes) ≡ take at bytes ++ piece
copied at piece bytes h =
    let whole = take at bytes ++ piece in
    let rest = drop (at + length piece) bytes in
    ap (take (at + length piece)) (sym (append_assoc (take at bytes) piece rest))
    ∙ take_all (at + length piece) whole rest
        (omega (arith, h, length-append (take at bytes) piece, length-take at bytes))

length-copy_to :
    (at : ℕ) (piece bytes : Bytes)
    → at + length piece ≤ length bytes
    → at + length piece ≤ length (copy_to at piece bytes)
length-copy_to at piece bytes h =
    let rest = drop (at + length piece) bytes in
    omega (
      arith,
      h,
      length-append (take at bytes) (piece ++ rest),
      length-append piece rest,
      length-take at bytes,
    )

-- Room for a piece, in which the first bytes are as before.
abbrev roomy : ℕ → Bytes → Bytes
roomy end signature = if ltb (length signature) end then resize end signature else signature

roomy_keeps :
    (at end : ℕ) (signature : Bytes)
    → at ≤ end
    → at ≤ length signature
    → (end ≤ length (roomy end signature)) × (take at (roomy end signature) ≡ take at signature)
roomy_keeps at end signature h k = elim (Bool-cases (ltb (length signature) end)) [
  | inr e ↦ rw e (ground (arith, e), refl)
  | inl e ↦
      let short : at ≤ length (take end signature) =
        omega (arith, h, k, length-take end signature) in
      rw e (
        omega (arith, length-resize end signature),
        take_some at (take end signature) (replicate (end - length signature) 0) short
            ∙ take-take at end signature h,
      )
]

-- After the loop the decoded length is that of all pieces, and they are the first bytes.
read_all_lem :
    (pieces : List Bytes) (signature : Bytes) (len : ℕ)
    → len ≤ length signature
    → ((read_all pieces signature len).1 ≡ len + length (before_end pieces))
      × ((read_all pieces signature len).1 ≤ length (read_all pieces signature len).0)
      × (take (read_all pieces signature len).1 (read_all pieces signature len).0
          ≡ take len signature ++ before_end pieces)
unfolding read_all
read_all_lem [] signature len h = (omega arith, h, sym (append-nil (take len signature)))
read_all_lem ([] ∷ pieces) signature len h = (omega arith, h, sym (append-nil (take len signature)))
read_all_lem ((b ∷ bs) ∷ pieces) signature len h =
    let piece : Bytes = b ∷ bs in
    let end = len + length piece in
    let large = roomy end signature in
    let (room, same) = roomy_keeps len end signature (omega arith) h in
    let (count, fits, first) =
      read_all_lem pieces (copy_to len piece large) end (length-copy_to len piece large room) in
    let rest = before_end pieces in
    (
      omega (arith, count, length-append piece rest),
      fits,
      first
          ∙ (ap (λ t. t ++ rest) (copied len piece large (omega (arith, room)))
              ∙ (ap (λ t. (t ++ piece) ++ rest) same
                  ∙ append_assoc (take len signature) piece rest)),
    )

-- The signature is what is decoded, all pieces in their order.
pub decode_lem :
    (pieces : List Bytes) (signature_b64 : Bytes)
    → decode pieces signature_b64 ≡ (before_end pieces, length (before_end pieces))
unfolding decode
decode_lem pieces signature_b64 =
    let start : Bytes = replicate (length signature_b64) 0 in
    let (count, fits, first) = read_all_lem pieces start 0 (omega arith) in
    let read = read_all pieces start 0 in
    let no_more : read.1 - length read.0 ≡ 0 = omega (arith, fits) in
    let bytes : resize read.1 read.0 ≡ before_end pieces =
      ap (λ n. take read.1 read.0 ++ replicate n 0) no_more
      ∙ (append-nil (take read.1 read.0) ∙ first) in
    ap (λ t. (t, read.1)) bytes ∙ ap (λ n. (before_end pieces, n)) (omega (arith, count))
