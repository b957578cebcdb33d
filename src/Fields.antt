-- ===== src/Fields.antt =====
-- The string helpers of inc/utils.h: split and trim.
use omniprobe.Prelude.{
  ℕ, suc, ◌+◌, ◌≡◌, refl, sym, ap, ◌∙◌, Bool, true, false, ◌||◌, List, [], ◌∷◌, ◌++◌, Bytes,
  if◌then◌else◌, ◌==◌, length, Bool-cases, inl, inr, arith, contains, All,
}
use mathlib.Core.List.{append_assoc, append-nil}
use omniprobe.Scope.Numbers.{is_space, skip_space}

abbrev not_blank : Bytes → Bool
not_blank [] = false
not_blank (c ∷ s) = true

-- The loop of split: the field read so far, the rest of the text, the container and the count.
unfoldable pub split_from : ℕ → Bool → Bytes → Bytes → List Bytes → ℕ → List Bytes × ℕ
split_from delimiter keep field [] container n =
    if keep || not_blank field then (container ++ field ∷ [], suc n) else (container, n)
split_from delimiter keep field (c ∷ s) container n =
    let longer = split_from delimiter keep (field ++ c ∷ []) s container n in
    let pushed = split_from delimiter keep [] s (container ++ field ∷ []) (suc n) in
    let skipped = split_from delimiter keep [] s container n in
    if delimiter == c then if keep || not_blank field then pushed else skipped else longer

-- split, with the first character of its delimiter: the container with the fields, and their number.
unfoldable pub split : Bytes → List Bytes → ℕ → Bool → List Bytes × ℕ
unfolding split_from
split text container delimiter keep = split_from delimiter keep [] text container 0

-- ltrim: the text from the first character that is no space.
unfoldable pub ltrim : Bytes → Bytes
ltrim = skip_space

-- rtrim: the text up to the last character that is no space.
unfoldable pub rtrim : Bytes → Bytes
rtrim [] = []
rtrim (c ∷ s) =
    let rest = rtrim s in if not_blank rest then c ∷ rest else if is_space c then [] else c ∷ []

unfoldable pub trim : Bytes → Bytes
unfolding ltrim rtrim
trim s = rtrim (ltrim s)

-- The fields between the delimiters, with the blank ones: `before` is put in front of the first.
abbrev pub fields_of : ℕ → Bytes → Bytes → List Bytes
fields_of delimiter before [] = before ∷ []
fields_of delimiter before (c ∷ s) =
    if delimiter == c
    then before ∷ fields_of delimiter [] s
    else fields_of delimiter (before ++ c ∷ []) s

abbrev pub kept_fields : Bool → List Bytes → List Bytes
kept_fields keep [] = []
kept_fields keep (field ∷ fields) =
    if keep || not_blank field then field ∷ kept_fields keep fields else kept_fields keep fields

-- The fields with a delimiter between each two.
abbrev pub join_with : ℕ → List Bytes → Bytes
join_with delimiter [] = []
join_with delimiter (field ∷ []) = field
join_with delimiter (field ∷ next ∷ fields) =
    field ++ (delimiter ∷ join_with delimiter (next ∷ fields))

split_from_fields :
    (delimiter : ℕ) (keep : Bool) (field s : Bytes) (container : List Bytes) (n : ℕ)
    → split_from delimiter keep field s container n ≡ (
      container ++ kept_fields keep (fields_of delimiter field s),
      n + length (kept_fields keep (fields_of delimiter field s)),
    )
unfolding split_from
split_from_fields delimiter keep field [] container n = ground (arith, append-nil container)
split_from_fields delimiter keep field (c ∷ s) container n =
    let fields = kept_fields keep (fields_of delimiter [] s) in
    ground (
      arith,
      split_from_fields delimiter keep [] s (container ++ field ∷ []) (suc n),
      split_from_fields delimiter keep [] s container n,
      split_from_fields delimiter keep (field ++ c ∷ []) s container n,
      append_assoc container (field ∷ []) fields,
    )

some_field :
    (delimiter : ℕ) (field s : Bytes)
    → (x : Bytes) × ((xs : List Bytes) × (fields_of delimiter field s ≡ x ∷ xs))
some_field delimiter field [] = (field, ([], refl))
some_field delimiter field (c ∷ s) = elim (Bool-cases (delimiter == c)) [
  | inl e ↦ (field, (fields_of delimiter [] s, rw e refl))
  | inr e ↦ rw e (some_field delimiter (field ++ c ∷ []) s)
]

join_with_fields :
    (delimiter : ℕ) (field s : Bytes)
    → join_with delimiter (fields_of delimiter field s) ≡ field ++ s
join_with_fields delimiter field [] = sym (append-nil field)
join_with_fields delimiter field (c ∷ s) =
    let (x, (xs, more)) = some_field delimiter [] s in
    let later = join_with_fields delimiter [] s in
    let longer = join_with_fields delimiter (field ++ c ∷ []) s in
    elim (Bool-cases (delimiter == c)) [
      | inl e ↦
          let same : delimiter ≡ c = ground (arith, e) in
          ap
            (λ b. join_with delimiter (
              if b
              then field ∷ fields_of delimiter [] s
              else fields_of delimiter (field ++ c ∷ []) s))
            e
          ∙ (ap (λ l. join_with delimiter (field ∷ l)) more
              ∙ (ap (λ t. field ++ (delimiter ∷ t)) (ap (join_with delimiter) (sym more) ∙ later)
                  ∙ ap (λ d. field ++ (d ∷ s)) same))
      | inr e ↦
          ap
            (λ b. join_with delimiter (
              if b
              then field ∷ fields_of delimiter [] s
              else fields_of delimiter (field ++ c ∷ []) s))
            e
          ∙ (longer ∙ append_assoc field (c ∷ []) s)
    ]

kept_all : (fields : List Bytes) → kept_fields true fields ≡ fields
kept_all [] = refl
kept_all (field ∷ fields) = ap (λ l. field ∷ l) (kept_all fields)

contains_snoc : (xs : Bytes) (c d : ℕ) → contains (xs ++ c ∷ []) d ≡ (contains xs d || c == d)
contains_snoc [] c d = ground arith
contains_snoc (x ∷ xs) c d = ground (arith, contains_snoc xs c d)

-- No field has the delimiter in it.
abbrev pub AreFree : ℕ → List Bytes → Type 0
AreFree delimiter fields = All (λ field. contains field delimiter ≡ false) fields

fields_of-AreFree :
    (delimiter : ℕ) (field s : Bytes)
    → contains field delimiter ≡ false
    → AreFree delimiter (fields_of delimiter field s)
fields_of-AreFree delimiter field [] h = (h, tt)
fields_of-AreFree delimiter field (c ∷ s) h =
    let later = fields_of-AreFree delimiter [] s refl in
    let longer = fields_of-AreFree delimiter (field ++ c ∷ []) s in
    let snoc = contains_snoc field c delimiter in
    elim (Bool-cases (delimiter == c)) [
      | inl e ↦ rw e (h, later)
      | inr e ↦ rw e (longer (ground (arith, snoc, h, e)))
    ]

-- With the blank fields kept, the fields are free of the delimiter, and joined by it they are the text
-- again; without them the result is the same list with the blank ones left out. Both times the fields come behind those
-- of the container, and their number is returned.
split-join_with :
    (text : Bytes) (container : List Bytes) (delimiter : ℕ)
    → (fields : List Bytes) × AreFree delimiter fields
      × (join_with delimiter fields ≡ text)
      × (split text container delimiter true ≡ (container ++ fields, length fields))
      × (split text container delimiter false
          ≡ (container ++ kept_fields false fields, length (kept_fields false fields)))
unfolding split
split-join_with text container delimiter =
    let fields = fields_of delimiter [] text in
    let all = split_from_fields delimiter true [] text container 0 in
    let some_left = split_from_fields delimiter false [] text container 0 in
    let kept = kept_all fields in
    (
      fields,
      fields_of-AreFree delimiter [] text refl,
      join_with_fields delimiter [] text,
      ground (arith, all, kept),
      ground (arith, some_left),
    )
