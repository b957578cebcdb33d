-- ===== src/Scope/Lines.antt =====
-- A definition with a file pattern and a line spec, from its text to the lines that it selects.
use omniprobe.Prelude.{
  ℕ, ◌+◌, ◌%◌, ◌^◌, ◌<◌, ◌≡◌, ◌≢◌, refl, ap, ◌∙◌, Bool, true, false, ◌&&◌, List, [], ◌∷◌, ◌++◌,
  Option, none, some, Bytes, ◌==◌, ltb, leb, contains, All-append, arith, u64,
}
use omniprobe.Scope.Numbers.{is_digit, strtoul-value, value, AllDigits}
use omniprobe.Scope.Parse.{
  pieces, split_at, split_at_lines, is_empty, parse_spec, parse_specs, split_definition, is_full,
  parse_definition, parse_all, parse_definitions,
}
use omniprobe.Scope.{instrumentation_scope, file_matches, matches}
use omniprobe.Scope.Plain.{
  is_plain, AllPlain, IsPattern, trim-AllPlain, pieces_whole, plain-contains, digits-contains,
  contains-append, digits-AllPlain, pattern-AllPlain,
}

-- The file pattern `f` as the matcher reads it.
abbrev pub pattern_matches : Bytes → Bytes → Bool
pattern_matches f file =
    file_matches (record { file_pattern = f; is_full_path = is_full f; ranges = [] }) file

-- The first colon before a digit ends the file pattern.
split_at_lines_pattern :
    (f : Bytes) (c : ℕ) (s : Bytes)
    → IsPattern f
    → is_digit c ≡ true
    → split_at_lines (f ++ (b':' ∷ c ∷ s)) ≡ some (f, c ∷ s)
unfolding split_at_lines
split_at_lines_pattern [] c s h d = ground arith
split_at_lines_pattern (x ∷ f) c s h d = ground (arith, split_at_lines_pattern f c s h.1 d)

split_definition_pattern :
    (f : Bytes) (c : ℕ) (s : Bytes)
    → IsPattern f
    → is_digit c ≡ true
    → split_definition (f ++ (b':' ∷ c ∷ s)) ≡ (f, c ∷ s)
unfolding split_definition
split_definition_pattern [] c s h d = refl
split_definition_pattern (x ∷ f) c s h d = ground (arith, split_at_lines_pattern (x ∷ f) c s h d)

split_at_colon : (a b : Bytes) → AllDigits a → split_at b':' (a ++ (b':' ∷ b)) ≡ some (a, b)
unfolding split_at
split_at_colon [] b h = refl
split_at_colon (c ∷ a) b h = ground (arith, split_at_colon a b h.1)

split_at-none : (d : ℕ) (s : Bytes) → contains s d ≡ false → split_at d s ≡ none
unfolding split_at
split_at-none d [] h = refl
split_at-none d (c ∷ s) h = ground (arith, split_at-none d s)

parse_spec_range :
    (a b : Bytes)
    → AllDigits a
    → AllDigits b
    → a ≢ []
    → b ≢ []
    → value a < value b
    → value b < 2 ^ 32
    → parse_spec (a ++ (b':' ∷ b)) ≡ some (value a, value b)
unfolding parse_spec
parse_spec_range a b da db na nb less small =
    let first = strtoul-value a da na (omega arith) in
    let second = strtoul-value b db nb (omega arith) in
    let keep_a : value a % 2 ^ 32 ≡ value a = omega arith in
    let keep_b : value b % 2 ^ 32 ≡ value b = omega arith in
    rw (split_at_colon a b da, parse_spec, first, second, keep_a, keep_b)
      (ground (arith, digits-contains b':' b refl db))

parse_spec_line :
    (a : Bytes)
    → AllDigits a
    → a ≢ []
    → value a + 1 < 2 ^ 32
    → parse_spec a ≡ some (value a, value a + 1)
unfolding parse_spec
parse_spec_line a da na small =
    let first = strtoul-value a da na (omega arith) in
    let keep : value a % 2 ^ 32 ≡ value a = omega arith in
    let next : u64 (value a + 1) % 2 ^ 32 ≡ value a + 1 = omega arith in
    rw (split_at-none b':' a (digits-contains b':' a refl da), parse_spec, first, keep, next) refl

-- A definition of one pattern and one line spec, the text of which has a digit in front and no
-- blank, semicolon or comma, gives one entry.
parse_one :
    (f : Bytes) (c : ℕ) (s : Bytes) (range : ℕ × ℕ)
    → IsPattern f
    → is_digit c ≡ true
    → AllPlain (c ∷ s)
    → contains (c ∷ s) b',' ≡ false
    → parse_spec (c ∷ s) ≡ some range
    → parse_definition (f ++ (b':' ∷ c ∷ s))
      ≡ some (record { file_pattern = f; is_full_path = is_full f; ranges = range ∷ [] })
unfolding parse_definition parse_specs
parse_one f c s range hf hc hs comma spec =
    rw
      (
        parse_definition,
        split_definition_pattern f c s hf hc,
        pieces_whole b',' c s comma,
        trim-AllPlain (c ∷ s) hs,
        parse_specs,
        spec,
      )
      (ground (arith, split_definition_pattern f c s hf hc))

nonempty-append : (f : Bytes) (c : ℕ) (s : Bytes) → is_empty (f ++ (c ∷ s)) ≡ false
nonempty-append [] c s = refl
nonempty-append (x ∷ f) c s = refl

pieces_text :
    (d : ℕ) (t : Bytes) → is_empty t ≡ false → contains t d ≡ false → pieces d [] t ≡ t ∷ []
pieces_text d [] e h = absurd (cc e)
pieces_text d (c ∷ t) e h = pieces_whole d c t h

scope_one :
    (open_file : Bytes → Option (List Bytes)) (f : Bytes) (c : ℕ) (s : Bytes) (range : ℕ × ℕ)
    (file : Bytes) (line : ℕ)
    → IsPattern f
    → is_digit c ≡ true
    → AllPlain (c ∷ s)
    → contains (c ∷ s) b',' ≡ false
    → parse_spec (c ∷ s) ≡ some range
    → matches (instrumentation_scope open_file (some (f ++ (b':' ∷ c ∷ s))) none) file line ≡ (
        file_matches
          (record { file_pattern = f; is_full_path = is_full f; ranges = range ∷ [] })
          file
        && (leb range.0 line && ltb line range.1))
unfolding instrumentation_scope parse_definitions parse_all matches
scope_one open_file f c s range file line hf hc hs comma spec =
    let text = f ++ (b':' ∷ c ∷ s) in
    let plain =
      All-append (λ x. is_plain x ≡ true) f (b':' ∷ c ∷ s) (pattern-AllPlain f hf) (refl, hs) in
    let full = nonempty-append f b':' (c ∷ s) in
    let whole = pieces_text b';' text full (plain-contains text plain) in
    let trimmed = trim-AllPlain text plain in
    let parsed = parse_one f c s range hf hc hs comma spec in
    rw (instrumentation_scope, full, whole) (ground (arith, trimmed, full, parsed))

-- For a file pattern f without blanks, semicolons and colons, and decimal numbers a and b with a
-- below b and b in 32 bits, the scope `f:a:b` selects, of the files that match f, the lines from
-- a up to, and not with, b.
pub range_selects :
    (open_file : Bytes → Option (List Bytes)) (f : Bytes) (c : ℕ) (s b file : Bytes) (line : ℕ)
    → IsPattern f
    → AllDigits (c ∷ s)
    → AllDigits b
    → b ≢ []
    → value (c ∷ s) < value b
    → value b < 2 ^ 32
    → matches
        (instrumentation_scope open_file (some (f ++ (b':' ∷ ((c ∷ s) ++ (b':' ∷ b))))) none)
        file
        line
      ≡ (pattern_matches f file && (leb (value (c ∷ s)) line && ltb line (value b)))
unfolding file_matches
range_selects open_file f c s b file line hf da db nb less small =
    let plain =
      All-append (λ x. is_plain x ≡ true) (c ∷ s) (b':' ∷ b) (digits-AllPlain (c ∷ s) da)
        (refl, digits-AllPlain b db) in
    let comma =
      contains-append b',' (c ∷ s) (b':' ∷ b) (digits-contains b',' (c ∷ s) refl da)
        (digits-contains b',' b refl db) in
    scope_one open_file f c (s ++ (b':' ∷ b)) (value (c ∷ s), value b) file line hf da.0 plain comma
      (parse_spec_range (c ∷ s) b da db (λ e. cc) nb less small)

-- For a file pattern f without blanks, semicolons and colons, and a decimal number a with a + 1
-- in 32 bits, the scope `f:a` selects, of the files that match f, exactly line a.
line_selects :
    (open_file : Bytes → Option (List Bytes)) (f : Bytes) (c : ℕ) (s file : Bytes) (line : ℕ)
    → IsPattern f
    → AllDigits (c ∷ s)
    → value (c ∷ s) + 1 < 2 ^ 32
    → matches (instrumentation_scope open_file (some (f ++ (b':' ∷ c ∷ s))) none) file line
      ≡ (pattern_matches f file && (line == value (c ∷ s)))
unfolding file_matches
line_selects open_file f c s file line hf da small =
    let one =
      scope_one open_file f c s (value (c ∷ s), value (c ∷ s) + 1) file line hf da.0
        (digits-AllPlain (c ∷ s) da) (digits-contains b',' (c ∷ s) refl da)
        (parse_spec_line (c ∷ s) da (λ e. cc) small) in
    let width : (leb (value (c ∷ s)) line && ltb line (value (c ∷ s) + 1))
        ≡ (line == value (c ∷ s)) =
      ground arith in
    one ∙ ap (λ t. pattern_matches f file && t) width
