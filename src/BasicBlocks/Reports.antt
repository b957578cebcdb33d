-- ===== src/BasicBlocks/Reports.antt =====
-- Parts of the report of src/basic_block_analysis.cc: the lines of a file (readFileLines), lines 57 to 86.
-- The files that open, with their lines, are a parameter. The line number never passes the last line
-- asked for, which is of 32 bits, and so it does not wrap around.
use mathlib.Core.List.{append-nil, append_assoc}
use omniprobe.Prelude.{
  ℕ, zero, suc, ◌+◌, ◌-◌, ◌≡◌, ◌⊎◌, refl, sym, ap, ◌∙◌, true, false, ◌||◌, List, [], ◌∷◌, ◌++◌,
  Option, none, some, Bytes, if◌then◌else◌, ◌==◌, ltb, take, drop, Option-cases, inl, inr, arith,
}
use omniprobe.Prelude.Maps.{text_key}

-- What readFileLines ends with: the exceptions for the range and for the file, or the lines.
pub data FileLines : Type 0 where
  invalid_range not_opened : FileLines
  lines_read : List Bytes → FileLines

-- The loop that skips lines: the current line, and the lines that std::getline gives.
unfoldable pub skip_lines : ℕ → ℕ → List Bytes → ℕ × List Bytes
skip_lines limit current [] = (current, [])
skip_lines limit current (line ∷ rest) =
    let later = skip_lines limit (suc current) rest in
    if ltb current limit then later else (current, line ∷ rest)

-- The loop that keeps lines.
unfoldable pub keep_lines : ℕ → ℕ → List Bytes → List Bytes → List Bytes
keep_lines limit current [] lines = lines
keep_lines limit current (line ∷ rest) lines =
    let later = keep_lines limit (suc current) rest (lines ++ line ∷ []) in
    if ltb current limit then later else lines

unfoldable pub read_file_lines : (Bytes → Option (List Bytes)) → Bytes → ℕ → ℕ → FileLines
unfolding skip_lines keep_lines
read_file_lines open_file filename start_line end_line =
    if start_line == 0 || ltb end_line start_line
    then invalid_range
    else elim (open_file filename) [
      | none ↦ not_opened
      | some file ↦
          let skipped = skip_lines (start_line - 1) 0 file in
          lines_read (keep_lines end_line skipped.0 skipped.1 [])
    ]

skip_lines_lem :
    (n current : ℕ) (file : List Bytes) → (skip_lines (current + n) current file).1 ≡ drop n file
unfolding skip_lines
skip_lines_lem zero current [] = refl
skip_lines_lem zero current (line ∷ rest) = ground arith
skip_lines_lem (suc n) current [] = refl
skip_lines_lem (suc n) current (line ∷ rest) =
    let ih = skip_lines_lem n (suc current) rest in
    let same : suc current + n ≡ current + suc n = omega arith in
    let more : (skip_lines (current + suc n) (suc current) rest).1 ≡ drop n rest =
      ap (λ l. (skip_lines l (suc current) rest).1) (sym same) ∙ ih in
    let below : ltb current (current + suc n) ≡ true = ground arith in rw (skip_lines, below) more

-- All lines before the limit are skipped, or the file has ended.
skip_lines_count :
    (n current : ℕ) (file : List Bytes)
    → ((skip_lines (current + n) current file).0 ≡ current + n) ⊎ (drop n file ≡ [])
unfolding skip_lines
skip_lines_count zero current [] = inl (omega arith)
skip_lines_count zero current (line ∷ rest) = inl (ground arith)
skip_lines_count (suc n) current [] = inr refl
skip_lines_count (suc n) current (line ∷ rest) =
    let same : suc current + n ≡ current + suc n = omega arith in
    let below : ltb current (current + suc n) ≡ true = ground arith in
    elim (skip_lines_count n (suc current) rest) [
      | inr e ↦ inr e
      | inl e ↦ inl (
          rw (skip_lines, below)
            (ap (λ l. (skip_lines l (suc current) rest).0) (sym same) ∙ (e ∙ same)))
    ]

keep_lines_lem :
    (n current : ℕ) (file lines : List Bytes)
    → keep_lines (current + n) current file lines ≡ lines ++ take n file
unfolding keep_lines
keep_lines_lem zero current [] lines = sym (append-nil lines)
keep_lines_lem zero current (line ∷ rest) lines = ground (arith, append-nil lines)
keep_lines_lem (suc n) current [] lines = sym (append-nil lines)
keep_lines_lem (suc n) current (line ∷ rest) lines =
    let same : suc current + n ≡ current + suc n = omega arith in
    let below : ltb current (current + suc n) ≡ true = ground arith in
    let ih = keep_lines_lem n (suc current) rest (lines ++ line ∷ []) in
    rw (keep_lines, below)
      (ap (λ l. keep_lines l (suc current) rest (lines ++ line ∷ [])) (sym same)
        ∙ (ih ∙ append_assoc lines (line ∷ []) (take n rest)))

-- What is asked for: the count lines after the first skipped ones, as many as the file has.
unfoldable pub requested_lines : ℕ → ℕ → Option (List Bytes) → FileLines
requested_lines skipped count none = not_opened
requested_lines skipped count (some file) = lines_read (take count (drop skipped file))

take_none : (count : ℕ) → take {A = Bytes} count [] ≡ []
take_none zero = refl
take_none (suc count) = refl

-- Reading goes on from the line where skipping stopped, also past the end of the file.
keep_lines-skip_lines :
    (skipped count : ℕ) (file : List Bytes)
    → (let from = skip_lines skipped 0 file in keep_lines (skipped + count) from.0 from.1 [])
      ≡ take count (drop skipped file)
unfolding keep_lines
keep_lines-skip_lines skipped count file =
    let from_zero : 0 + skipped ≡ skipped = omega arith in
    let rest : (skip_lines skipped 0 file).1 ≡ drop skipped file =
      ap (λ n. (skip_lines n 0 file).1) (sym from_zero) ∙ skip_lines_lem skipped 0 file in
    elim (skip_lines_count skipped 0 file) [
      | inl at ↦
          let stopped : (skip_lines skipped 0 file).0 ≡ skipped =
            ap (λ n. (skip_lines n 0 file).0) (sym from_zero) ∙ (at ∙ from_zero) in
          rw (stopped, rest) (keep_lines_lem count skipped (drop skipped file) [])
      | inr ended ↦ rw (rest, ended) (sym (take_none count))
    ]

-- Of a range that starts at line 1 or later and ends where it starts or later, readFileLines returns
-- exactly the lines from the first to the last, as many of them as the file has, and it ends with the
-- exception for the file when the file does not open.
read_file_lines-requested_lines :
    (open_file : Bytes → Option (List Bytes)) (filename : Bytes) (before more : ℕ)
    → read_file_lines open_file filename (suc before) (before + suc more)
      ≡ requested_lines before (suc more) (open_file filename)
unfolding read_file_lines requested_lines
read_file_lines-requested_lines open_file filename before more =
    let counted : (suc before == 0) ≡ false = ground arith in
    let in_range : ltb (before + suc more) (suc before) ≡ false = ground arith in
    let previous : suc before - 1 ≡ before = omega arith in
    elim (Option-cases (open_file filename)) [
      | inl failed ↦ rw (failed, counted, in_range) refl
      | inr (file, opened) ↦
          rw (opened, counted, in_range, previous)
            (ap lines_read (keep_lines-skip_lines before (suc more) file))
    ]
