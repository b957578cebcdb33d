-- ===== src/Interceptor/Names.antt =====
-- Kernel names: getInstrumentedName, clipKernelName, clipInstrumentedKernelName of src/utils.cc, and
-- the name that cloneKernelWithExtraArg of src/instrumentation/InstrumentationCommon.cpp gives a
-- clone.
use mathlib.Core.List.{append-nil, append_assoc}
use omniprobe.Prelude.{
  ℕ, ◌≡◌, refl, sym, ap, ◌∙◌, Bool, true, false, [], ◌∷◌, ◌++◌, Option, none, some, Bytes, codes,
  starts_with, if◌then◌else◌, ◌==◌, contains, arith,
}

-- OMNIPROBE_PREFIX.
abbrev pub prefix : Bytes
prefix = codes "__amd_crk_"

-- The text before the last `d`, and the text behind it (`find_last_of`, `rfind` of one character).
unfoldable pub split_last : ℕ → Bytes → Option (Bytes × Bytes)
split_last d [] = none
split_last d (c ∷ s) =
    let later = split_last d s in
    elim later [
      | some (before, behind) ↦ some (c ∷ before, behind)
      | none ↦ if c == d then some ([], s) else none
    ]

-- The text before the first `d`, and the text behind it (`find_first_of`).
unfoldable pub split_first : ℕ → Bytes → Option (Bytes × Bytes)
split_first d [] = none
split_first d (c ∷ s) =
    let later = split_first d s in
    if c == d
    then some ([], s)
    else elim later [ none ↦ none | some (before, behind) ↦ some (c ∷ before, behind) ]

-- The text before the last occurrence of a pattern, and the text from it on (`rfind`).
unfoldable pub rfind : Bytes → Bytes → Option (Bytes × Bytes)
unfolding starts_with
rfind p [] = none
rfind p (c ∷ s) =
    let later = rfind p s in
    elim later [
      | some (before, from) ↦ some (c ∷ before, from)
      | none ↦ if starts_with p (c ∷ s) then some ([], c ∷ s) else none
    ]

-- The prefix goes behind the return type: behind the first space if that comes before the first
-- parenthesis, else in front.
unfoldable pub insert_prefix : Bytes → Bytes
unfolding split_first
insert_prefix s = elim (split_first b' ' s) [
  | none ↦ prefix ++ s
  | some (before, behind) ↦
      if contains before b'(' then prefix ++ s else before ++ (b' ' ∷ prefix ++ behind)
]

unfoldable pub get_instrumented_name : Bytes → Bytes
unfolding split_last rfind
get_instrumented_name func_decl = elim (split_last b')' func_decl) [
  | some (before, behind) ↦ insert_prefix (before ++ codes ", void*)" ++ behind)
  | none ↦ elim (rfind (codes ".kd") func_decl) [
    | some (before, from) ↦ prefix ++ (before ++ codes "Pv" ++ from)
    | none ↦ prefix ++ (func_decl ++ codes "Pv")
  ]
]

unfoldable pub clip_kernel_name : Bytes → Bytes
unfolding split_last
clip_kernel_name str = elim (split_last b')' str) [
  | none ↦ str
  | some (before, behind) ↦ before ++ (b')' ∷ [])
]

unfoldable pub clip_instrumented_kernel_name : Bytes → Bytes
unfolding split_last
clip_instrumented_kernel_name str = elim (split_last b',' str) [
  | none ↦ str
  | some (before, behind) ↦ before ++ (b')' ∷ [])
]

-- The name that the compiler pass gives the clone of a kernel (`AugmentedName`).
unfoldable pub augmented_name : Bytes → Bytes
augmented_name orig = codes "__amd_crk_" ++ orig ++ codes "Pv"

split_last-none : (d : ℕ) (s : Bytes) → contains s d ≡ false → split_last d s ≡ none
unfolding split_last
split_last-none d [] h = refl
split_last-none d (c ∷ s) h = ground (arith, split_last-none d s)

-- With no `d` behind it, a `d` is the last one.
split_last_append :
    (d : ℕ) (a b : Bytes) → contains b d ≡ false → split_last d (a ++ (d ∷ b)) ≡ some (a, b)
unfolding split_last
split_last_append d [] b h = ground (arith, split_last-none d b h)
split_last_append d (c ∷ a) b h = ground (arith, split_last_append d a b h)

contains_left :
    (d : ℕ) (s t : Bytes)
    → contains s d ≡ false
    → contains t d ≡ false
    → contains (s ++ t) d ≡ false
contains_left d [] t h k = k
contains_left d (c ∷ s) t h k = ground (arith, contains_left d s t)

rfind_suffix : (s : Bytes) → rfind (codes ".kd") (s ++ codes ".kd") ≡ some (s, codes ".kd")
unfolding rfind
rfind_suffix [] = refl
rfind_suffix (c ∷ s) = ground (arith, rfind_suffix s)

-- The name that is looked up for a kernel whose name has no closing parenthesis, with the suffix of
-- a kernel descriptor, is the name that the compiler gives the clone, with that suffix.
get_instrumented_name-augmented_name_descriptor :
    (name : Bytes)
    → contains name b')' ≡ false
    → get_instrumented_name (name ++ codes ".kd") ≡ augmented_name name ++ codes ".kd"
unfolding get_instrumented_name augmented_name
get_instrumented_name-augmented_name_descriptor name h =
    rw
      (
        get_instrumented_name,
        split_last-none b')' (name ++ codes ".kd") (contains_left b')' name (codes ".kd") h refl),
        rfind_suffix name,
      )
      (ground (arith, sym (append_assoc name (codes "Pv") (codes ".kd"))))

-- For a name with no closing parenthesis and no ".kd", the name that is looked up is the name
-- that the compiler gives the clone.
pub get_instrumented_name-augmented_name :
    (name : Bytes)
    → contains name b')' ≡ false
    → rfind (codes ".kd") name ≡ none
    → get_instrumented_name name ≡ augmented_name name
unfolding get_instrumented_name augmented_name
get_instrumented_name-augmented_name name h k =
    rw (get_instrumented_name, split_last-none b')' name h, k) refl

-- Does a text before the first space have a parenthesis?
abbrev opens : Option (Bytes × Bytes) → Bool
opens none = true
opens (some (before, behind)) = contains before b'('

split_first-opens :
    (f rest : Bytes)
    → contains f b' ' ≡ false
    → opens (split_first b' ' (f ++ (b'(' ∷ rest))) ≡ true
unfolding split_first
split_first-opens [] rest h = ground arith
split_first-opens (c ∷ f) rest h = ground (arith, split_first-opens f rest)

insert_prefix_front :
    (f rest : Bytes)
    → contains f b' ' ≡ false
    → insert_prefix (f ++ (b'(' ∷ rest)) ≡ prefix ++ (f ++ (b'(' ∷ rest))
unfolding insert_prefix
insert_prefix_front f rest h = ground (arith, split_first-opens f rest h)

get_instrumented_name_call :
    (f args : Bytes)
    → contains f b' ' ≡ false
    → get_instrumented_name (f ++ (b'(' ∷ args ++ codes ")"))
      ≡ prefix ++ (f ++ (b'(' ∷ args ++ codes ", void*)"))
unfolding get_instrumented_name
get_instrumented_name_call f args h =
    let joined : f ++ (b'(' ∷ args ++ codes ")") ≡ (f ++ (b'(' ∷ args)) ++ codes ")" =
      sym (append_assoc f (b'(' ∷ args) (codes ")")) in
    let grown : ((f ++ (b'(' ∷ args)) ++ codes ", void*)") ++ []
        ≡ f ++ (b'(' ∷ args ++ codes ", void*)") =
      append-nil ((f ++ (b'(' ∷ args)) ++ codes ", void*)")
      ∙ append_assoc f (b'(' ∷ args) (codes ", void*)") in
    rw (get_instrumented_name, joined, split_last_append b')' (f ++ (b'(' ∷ args)) [] refl, grown)
      (insert_prefix_front f (args ++ codes ", void*)") h)

clip_comma :
    (a b : Bytes)
    → contains b b',' ≡ false
    → clip_instrumented_kernel_name (a ++ (b',' ∷ b)) ≡ a ++ codes ")"
unfolding clip_instrumented_kernel_name
clip_comma a b h = rw (clip_instrumented_kernel_name, split_last_append b',' a b h) refl

-- Clipping the instrumented name of `f(args)`, with no space in f, takes the added parameter off
-- again and leaves the prefix.
clip_instrumented_kernel_name-get_instrumented_name :
    (f args : Bytes)
    → contains f b' ' ≡ false
    → clip_instrumented_kernel_name (get_instrumented_name (f ++ (b'(' ∷ args ++ codes ")")))
      ≡ prefix ++ (f ++ (b'(' ∷ args ++ codes ")"))
clip_instrumented_kernel_name-get_instrumented_name f args h =
    let text = f ++ (b'(' ∷ args) in
    let comma : prefix ++ (f ++ (b'(' ∷ args ++ codes ", void*)"))
        ≡ (prefix ++ text) ++ codes ", void*)" =
      ap (λ t. prefix ++ t) (sym (append_assoc f (b'(' ∷ args) (codes ", void*)"))) in
    let closed : (prefix ++ text) ++ codes ")" ≡ prefix ++ (f ++ (b'(' ∷ args ++ codes ")")) =
      ap (λ t. prefix ++ t) (append_assoc f (b'(' ∷ args) (codes ")")) in
    ap clip_instrumented_kernel_name (get_instrumented_name_call f args h ∙ comma)
    ∙ clip_comma (prefix ++ text) (codes " void*)") refl
    ∙ closed
