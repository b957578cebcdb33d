-- ===== src/MemoryAnalysis/SourceLines.antt =====
-- show_line of src/memory_analysis_handler.cc: a source line with its tabs replaced and a mark below a
-- column. The lines of a file are a parameter; `none` is a file that cannot be opened.
use mathlib.Core.List.{append_assoc}
use omniprobe.Prelude.{
  ℕ, zero, suc, ◌+◌, ◌-◌, ◌<◌, ◌≡◌, refl, sym, ap, ◌∙◌, List, [], ◌∷◌, ◌++◌, Option, none, some,
  Bytes, codes, if◌then◌else◌, ◌==◌, ltb, length, take, drop, replicate, get_or, text_eq,
  length-append, Option-cases, Bool-cases, inl, inr, arith,
}

abbrev pub Sources : Type 0
Sources = Bytes → Option (List Bytes)

-- The static variables.
pub record Shown : Type 0 where
  pub cached_fname : Bytes
  pub cached_lines : List Bytes

abbrev pub nothing_shown : Shown
nothing_shown = record { cached_fname = []; cached_lines = [] }

abbrev eight_spaces : Bytes
eight_spaces = codes "        "

-- `find('\t')` in a text.
unfoldable pub find_tab : Bytes → Option ℕ
find_tab [] = none
find_tab (c ∷ s) =
    let later = find_tab s in
    if c == b'\t' then some 0 else elim later [ none ↦ none | some k ↦ some (suc k) ]

-- The loop that replaces each tab from a position on; `none` is that the fuel ran out.
unfoldable pub replace_tabs : ℕ → ℕ → Bytes → Option Bytes
unfolding find_tab
replace_tabs zero pos line = none
replace_tabs (suc fuel) pos line = elim (find_tab (drop pos line)) [
  | none ↦ some line
  | some k ↦
      replace_tabs fuel (pos + k + 8)
        (take (pos + k) line ++ (eight_spaces ++ drop (pos + k + 1) line))
]

abbrev pub count_tabs : Bytes → ℕ
count_tabs [] = 0
count_tabs (c ∷ s) = (if c == b'\t' then 1 else 0) + count_tabs s

-- Every tab replaced, character by character.
abbrev pub expand : Bytes → Bytes
expand [] = []
expand (c ∷ s) = if c == b'\t' then eight_spaces ++ expand s else c ∷ expand s

-- A text up to its first tab.
record AtTab (s : Bytes) (k : ℕ) : Type 0 where
  front : Bytes
  behind : Bytes
  whole : s ≡ front ++ (b'\t' ∷ behind)
  place : length front ≡ k
  expanded : expand s ≡ front ++ (eight_spaces ++ expand behind)
  tabs : count_tabs s ≡ suc (count_tabs behind)

no_tab : (s : Bytes) → find_tab s ≡ none → expand s ≡ s
unfolding find_tab
no_tab [] h = refl
no_tab (c ∷ s) h = elim (Bool-cases (c == b'\t')) [
  | inl e ↦ absurd (ground (arith, h, e))
  | inr e ↦ elim (Option-cases (find_tab s)) [
    | inl n ↦ rw e (ap (λ t. c ∷ t) (no_tab s n))
    | inr (k, n) ↦ absurd (ground (arith, h, e, n))
  ]
]

at_tab : (s : Bytes) (k : ℕ) → find_tab s ≡ some k → AtTab s k
unfolding find_tab
at_tab [] k h = absurd (cc h)
at_tab (c ∷ s) k h = elim (Bool-cases (c == b'\t')) [
  | inl e ↦
      let same : c ≡ b'\t' = ground (arith, e) in
      let start : 0 ≡ k = ground (arith, h, e) in
      record {
        front = [];
        behind = s;
        whole = ap (λ d. d ∷ s) same;
        place = start;
        expanded = rw e refl;
        tabs = rw e (omega arith);
      }
  | inr e ↦ elim (Option-cases (find_tab s)) [
    | inl n ↦ absurd (ground (arith, h, e, n))
    | inr (j, n) ↦
        let later = at_tab s j n in
        let next : suc j ≡ k = ground (arith, h, e, n) in
        record {
          front = c ∷ later.front;
          behind = later.behind;
          whole = ap (λ t. c ∷ t) later.whole;
          place = ap suc later.place ∙ next;
          expanded = rw e (ap (λ t. c ∷ t) later.expanded);
          tabs = rw e (omega (arith, later.tabs));
        }
  ]
]

drop-append : (xs ys : Bytes) (n : ℕ) → length xs ≡ n → drop n (xs ++ ys) ≡ ys
drop-append [] ys zero h = refl
drop-append [] ys (suc n) h = absurd (omega (arith, h))
drop-append (x ∷ xs) ys zero h = absurd (omega (arith, h))
drop-append (x ∷ xs) ys (suc n) h = drop-append xs ys n (omega (arith, h))

take-append : (xs ys : Bytes) (n : ℕ) → length xs ≡ n → take n (xs ++ ys) ≡ xs
take-append [] ys zero h = refl
take-append [] ys (suc n) h = absurd (omega (arith, h))
take-append (x ∷ xs) ys zero h = absurd (omega (arith, h))
take-append (x ∷ xs) ys (suc n) h = ap (λ l. x ∷ l) (take-append xs ys n (omega (arith, h)))

-- From a position on, with more fuel than tabs behind it, the loop ends with those tabs replaced.
replaced :
    (fuel pos : ℕ) (before rest : Bytes)
    → length before ≡ pos
    → count_tabs rest < fuel
    → replace_tabs fuel pos (before ++ rest) ≡ some (before ++ expand rest)
unfolding replace_tabs
replaced zero pos before rest l h = absurd (omega arith)
replaced (suc fuel) pos before rest l h =
    let here = ap find_tab (drop-append before rest pos l) in
    elim (Option-cases (find_tab rest)) [
      | inl n ↦
          let now = here ∙ n in
          rw (replace_tabs, now) (ap (λ t. some (before ++ t)) (sym (no_tab rest n)))
      | inr (k, n) ↦
          let now = here ∙ n in
          let t = at_tab rest k n in
          let front = before ++ t.front in
          let long : length front ≡ pos + k =
            omega (arith, length-append before t.front, l, t.place) in
          let whole : before ++ rest ≡ front ++ (b'\t' ∷ t.behind) =
            ap (λ r. before ++ r) t.whole ∙ sym (append_assoc before t.front (b'\t' ∷ t.behind)) in
          let taken : take (pos + k) (before ++ rest) ≡ front =
            ap (take (pos + k)) whole ∙ take-append front (b'\t' ∷ t.behind) (pos + k) long in
          let longer : length (front ++ b'\t' ∷ []) ≡ pos + k + 1 =
            omega (arith, length-append front (b'\t' ∷ []), long) in
          let dropped : drop (pos + k + 1) (before ++ rest) ≡ t.behind =
            ap (drop (pos + k + 1)) (whole ∙ sym (append_assoc front (b'\t' ∷ []) t.behind))
            ∙ drop-append (front ++ b'\t' ∷ []) t.behind (pos + k + 1) longer in
          let next : take (pos + k) (before ++ rest)
                ++ (eight_spaces ++ drop (pos + k + 1) (before ++ rest))
              ≡ (front ++ eight_spaces) ++ t.behind =
            ap (λ a. a ++ (eight_spaces ++ drop (pos + k + 1) (before ++ rest))) taken
            ∙ (ap (λ b. front ++ (eight_spaces ++ b)) dropped
                ∙ sym (append_assoc front eight_spaces t.behind)) in
          let spaced : length (front ++ eight_spaces) ≡ pos + k + 8 =
            omega (arith, length-append front eight_spaces, long) in
          let ih =
            replaced fuel (pos + k + 8) (front ++ eight_spaces) t.behind spaced
              (omega (arith, h, t.tabs)) in
          let ended : (front ++ eight_spaces) ++ expand t.behind ≡ before ++ expand rest =
            append_assoc front eight_spaces (expand t.behind)
            ∙ (append_assoc before t.front (eight_spaces ++ expand t.behind)
                ∙ sym (ap (λ r. before ++ r) t.expanded)) in
          rw (replace_tabs, now) (ap (replace_tabs fuel (pos + k + 8)) next ∙ (ih ∙ ap some ended))
    ]

-- show_line, with the fuel that its loop needs: the static variables after it, and what is printed.
abbrev pub shown_line : Bytes → Bytes
shown_line line = elim (replace_tabs (suc (count_tabs line)) 0 line) [
  | none ↦ []
  | some processed ↦ processed
]

unfoldable pub print_line : List Bytes → ℕ → ℕ → Bytes
print_line lines line column =
    if line == 0
    then []
    else if ltb (length lines) line
    then []
    else (shown_line (get_or lines (line - 1) []) ++ codes "\n")
      ++ (if column == 0 then [] else replicate (column - 1) 32 ++ codes "^\n")

unfoldable pub show_line : Sources → Bytes → ℕ → ℕ → Shown → Shown × Bytes
unfolding print_line
show_line sources fname line column shown =
    if text_eq fname shown.cached_fname
    then (shown, print_line shown.cached_lines line column)
    else elim (sources fname) [
      | none ↦ (record { cached_fname = fname; cached_lines = [] }, [])
      | some lines ↦
          (record { cached_fname = fname; cached_lines = lines }, print_line lines line column)
    ]

-- The loop ends, with every tab replaced by eight spaces, if it has more fuel than there are tabs.
pub replace_tabs-expand :
    (fuel : ℕ) (line : Bytes)
    → count_tabs line < fuel
    → replace_tabs fuel 0 line ≡ some (expand line)
replace_tabs-expand fuel line h = replaced fuel 0 [] line refl h
