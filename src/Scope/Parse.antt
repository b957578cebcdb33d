-- ===== src/Scope/Parse.antt =====
-- parseDefinitions of src/instrumentation/InstrumentationCommon.cpp.
use omniprobe.Prelude.{
  ℕ, ◌+◌, ◌%◌, ◌^◌, Bool, true, false, not, ◌&&◌, ◌||◌, List, [], ◌∷◌, ◌++◌, Option, none, some,
  Bytes, if◌then◌else◌, ◌==◌, leb, u64, contains,
}
use mathlib.Core.List.{reverse}
use omniprobe.Scope.Numbers.{is_digit, strtoul}

pub record ScopeEntry : Type 0 where
  pub file_pattern : Bytes
  pub is_full_path : Bool
  pub ranges : List (ℕ × ℕ)

abbrev pub is_blank : ℕ → Bool
is_blank c = c == b' ' || c == 9 || c == 13 || c == 10

unfoldable pub skip_blanks : Bytes → Bytes
skip_blanks [] = []
skip_blanks (c ∷ s) = let rest = skip_blanks s in if is_blank c then rest else c ∷ s

-- `trimWhitespace`: the text from its first to its last character that is not blank.
unfoldable pub trim_whitespace : Bytes → Bytes
unfolding skip_blanks
trim_whitespace s = reverse (skip_blanks (reverse (skip_blanks s)))

-- The pieces that std::getline reads with a delimiter: an empty rest is no piece.
unfoldable pub pieces : ℕ → Bytes → Bytes → List Bytes
pieces d [] [] = []
pieces d (a ∷ acc) [] = (a ∷ acc) ∷ []
pieces d acc (c ∷ s) =
    let fresh = pieces d [] s in
    let longer = pieces d (acc ++ c ∷ []) s in if c == d then acc ∷ fresh else longer

-- The text before and behind the first character `d`.
unfoldable pub split_at : ℕ → Bytes → Option (Bytes × Bytes)
split_at d [] = none
split_at d (c ∷ s) =
    let later = split_at d s in
    if c == d
    then some ([], s)
    else elim later [ none ↦ none | some (before, behind) ↦ some (c ∷ before, behind) ]

abbrev starts_with_digit : Bytes → Bool
starts_with_digit [] = false
starts_with_digit (c ∷ s) = is_digit c

-- The text before and behind the first colon that a digit follows.
unfoldable pub split_at_lines : Bytes → Option (Bytes × Bytes)
split_at_lines [] = none
split_at_lines (c ∷ s) =
    let later = split_at_lines s in
    if c == b':' && starts_with_digit s
    then some ([], s)
    else elim later [ none ↦ none | some (before, behind) ↦ some (c ∷ before, behind) ]

abbrev pub is_empty : Bytes → Bool
is_empty [] = true
is_empty (c ∷ s) = false

-- One line spec: `N:M`, or `N` for the range from N to N + 1; `none` is a syntax error.
unfoldable pub parse_spec : Bytes → Option (ℕ × ℕ)
unfolding split_at strtoul
parse_spec spec = elim (split_at b':' spec) [
  | some (start_str, end_str) ↦
      let start = strtoul start_str in
      let stop = strtoul end_str in
      if contains end_str b':'
      then none
      else if not (is_empty start.1)
      then none
      else if not (is_empty stop.1)
      then none
      else if leb stop.0 start.0
      then none
      else some (start.0 % 2 ^ 32, stop.0 % 2 ^ 32)
  | none ↦
      let line = strtoul spec in
      if not (is_empty line.1) then none else some (line.0 % 2 ^ 32, u64 (line.0 + 1) % 2 ^ 32)
]

-- The loop over the comma-separated specs, with the ranges read so far.
unfoldable pub parse_specs : List (ℕ × ℕ) → List Bytes → Option (List (ℕ × ℕ))
parse_specs ranges [] = some ranges
parse_specs ranges (piece ∷ rest) =
    let spec = trim_whitespace piece in
    let skipped = parse_specs ranges rest in
    if is_empty spec then skipped else elim (parse_spec spec) [
      | none ↦ none
      | some range ↦ parse_specs (ranges ++ range ∷ []) rest
    ]

-- The file part and the line part of a definition that is not empty.
unfoldable pub split_definition : Bytes → Bytes × Bytes
unfolding split_at_lines
split_definition [] = ([], [])
split_definition (c ∷ s) =
    if c == b':'
    then ([], s)
    else elim (split_at_lines (c ∷ s)) [ none ↦ (c ∷ s, []) | some parts ↦ parts ]

abbrev pub is_full : Bytes → Bool
is_full [] = false
is_full (c ∷ s) = c == b'/'

unfoldable pub parse_definition : Bytes → Option ScopeEntry
unfolding split_definition pieces
parse_definition definition =
    let parts = split_definition definition in
    elim (parse_specs [] (pieces b',' [] parts.1)) [
      | none ↦ none
      | some ranges ↦
          some (record { file_pattern = parts.0; is_full_path = is_full parts.0; ranges = ranges })
    ]

-- The loop over the definitions: the entries, and whether all of them could be read.
unfoldable pub parse_all : List ScopeEntry → List Bytes → List ScopeEntry × Bool
parse_all entries [] = (entries, true)
parse_all entries (piece ∷ rest) =
    let definition = trim_whitespace piece in
    let skipped = parse_all entries rest in
    if is_empty definition then skipped else elim (parse_definition definition) [
      | none ↦ (entries, false)
      | some entry ↦ parse_all (entries ++ entry ∷ []) rest
    ]

unfoldable pub parse_definitions : List ScopeEntry → Bytes → List ScopeEntry × Bool
parse_definitions entries input = parse_all entries (pieces b';' [] input)
