-- ===== src/Interceptor/Filled.antt =====
-- What the loops of resolveRuntimeArgDescriptors (src/utils.cc) fill in.
use omniprobe.Prelude.{
  ℕ, ◌≡◌, ap, ◌∙◌, sym, Bool, true, false, ◌||◌, List, [], ◌∷◌, Option, none, some, Bytes, ◌==◌,
  contains, text_eq, text_eq_iff, Option-cases, Bool-cases, inl, inr, arith,
}
use omniprobe.Prelude.Maps.{text_key, nat_key, text_cmp_eq, lookup}
use omniprobe.Interceptor.KernArgs.{ArgDescriptor}
use omniprobe.Interceptor.Cache.{lookup_in, assign_in, lookup_in-assign_in}
use omniprobe.Interceptor.Resolution.{
  CodeObjects, Descriptors, missing_objects, fill, fill_from, resolve_objects, fill_one, fill_keeps,
  fill_from_keeps, resolve_one, resolve_objects_keeps,
}

-- The name has a descriptor; the name is among the names; some code object describes the name.
abbrev pub has_descriptor : ℕ → Bytes → Descriptors → Bool
has_descriptor agent n m = elim (lookup_in agent n m) [ none ↦ false | some desc ↦ true ]

abbrev pub has_name : Bytes → List (Bytes × ℕ) → Bool
has_name n [] = false
has_name n ((name, symbol) ∷ names) = text_eq n name || has_name n names

abbrev pub describes : CodeObjects → Bytes → List (Option Bytes) → Bool
describes objects n [] = false
describes objects n (none ∷ rest) = describes objects n rest
describes objects n (some bits ∷ rest) =
    (elim (objects.describe bits n) [ none ↦ false | some desc ↦ true ]) || describes objects n rest

kept :
    (agent : ℕ) (n : Bytes) (m next : Descriptors)
    → ((desc : ArgDescriptor)
        → lookup_in agent n m ≡ some desc
        → lookup_in agent n next ≡ some desc)
    → has_descriptor agent n m ≡ true
    → has_descriptor agent n next ≡ true
kept agent n m next k h = elim (Option-cases (lookup_in agent n m)) [
  | inl e ↦ absurd (ground (arith, h, e))
  | inr (desc, e) ↦ let there = k desc e in ground (arith, there)
]

fill_first :
    (describe : Bytes → Option ArgDescriptor) (agent : ℕ) (name : Bytes) (symbol : ℕ)
    (names : List (Bytes × ℕ)) (m : Descriptors) (d : ArgDescriptor)
    → describe name ≡ some d
    → has_descriptor agent name (fill describe agent ((name, symbol) ∷ names) m) ≡ true
unfolding fill
fill_first describe agent name symbol names m d g = elim (Option-cases (lookup_in agent name m)) [
  | inr (old, k) ↦
      let there = fill_keeps describe agent ((name, symbol) ∷ names) m name old k in
      ap (λ o. elim o [ none ↦ false | some desc ↦ true ]) there
  | inl k ↦
      let there =
        fill_keeps describe agent names (assign_in agent name d m) name d
          (lookup_in-assign_in agent name d m) in
      rw (fill, k, g) (ap (λ o. elim o [ none ↦ false | some desc ↦ true ]) there)
]

-- A name that the code object describes has a descriptor after the loop over the names.
fill_gives :
    (describe : Bytes → Option ArgDescriptor) (agent : ℕ) (names : List (Bytes × ℕ))
    (m : Descriptors) (n : Bytes) (d : ArgDescriptor)
    → has_name n names ≡ true
    → describe n ≡ some d
    → has_descriptor agent n (fill describe agent names m) ≡ true
unfolding fill
fill_gives describe agent [] m n d h g = absurd (cc h)
fill_gives describe agent ((name, symbol) ∷ names) m n d h g = elim (Bool-cases (text_eq n name)) [
  | inr e ↦ elim (fill_one describe agent name symbol names m) [
    | inl k ↦
        let later = fill_gives describe agent names m n d (ground (arith, h, e)) g in
        ap (has_descriptor agent n) k ∙ later
    | inr (new, a, b, k) ↦
        ap (has_descriptor agent n) k
        ∙ fill_gives describe agent names (assign_in agent name new m) n d (ground (arith, h, e)) g
  ]
  | inl e ↦
      let same = (text_eq_iff n name).0 e in
      let first = fill_first describe agent name symbol names m d (ap describe (sym same) ∙ g) in
      ap (λ t. has_descriptor agent t (fill describe agent ((name, symbol) ∷ names) m)) same ∙ first
]

fill_from_gives :
    (objects : CodeObjects) (agent : ℕ) (names : List (Bytes × ℕ)) (cos : List (Option Bytes))
    (m : Descriptors) (n : Bytes)
    → has_name n names ≡ true
    → describes objects n cos ≡ true
    → has_descriptor agent n (fill_from objects agent names cos m) ≡ true
unfolding fill_from
fill_from_gives objects agent names [] m n h g = absurd (cc g)
fill_from_gives objects agent names (none ∷ rest) m n h g =
    fill_from_gives objects agent names rest m n h g
fill_from_gives objects agent names (some bits ∷ rest) m n h g =
    let filled = fill (objects.describe bits) agent names m in
    elim (Option-cases (objects.describe bits n)) [
      | inl e ↦ fill_from_gives objects agent names rest filled n h (ground (arith, g, e))
      | inr (d, e) ↦
          kept agent n filled (fill_from objects agent names rest filled)
            (λ desc. fill_from_keeps objects agent names rest filled n desc)
            (fill_gives (objects.describe bits) agent names m n d h e)
    ]

-- If an executable of a missing object describes the name, the name has a descriptor in the end; for
-- an executable that is seen already it has to have one before.
pub resolve_objects_gives :
    (objects : CodeObjects) (agent : ℕ) (names : List (Bytes × ℕ)) (kos seen : List ℕ)
    (m : Descriptors) (n : Bytes) (ko executable : ℕ)
    → has_name n names ≡ true
    → contains kos ko ≡ true
    → objects.query_executable ko ≡ some executable
    → describes objects n (objects.code_objects executable) ≡ true
    → (contains seen executable ≡ true → has_descriptor agent n m ≡ true)
    → has_descriptor agent n (resolve_objects objects agent names kos seen m) ≡ true
resolve_objects_gives objects agent names [] seen m n ko executable h c q g s = absurd (cc c)
resolve_objects_gives objects agent names (object ∷ rest) seen m n ko executable h c q g s =
    elim (resolve_one objects agent names object rest seen m) [
      | inl (e, known) ↦ ap (has_descriptor agent n) e ∙ (elim (Bool-cases (object == ko)) [
        | inr other ↦
            resolve_objects_gives objects agent names rest seen m n ko executable h
              (ground (arith, c, other)) q g s
        | inl same ↦
            let now : object ≡ ko = ground (arith, same) in
            kept agent n m (resolve_objects objects agent names rest seen m)
              (λ desc. resolve_objects_keeps objects agent names rest seen m n desc)
              (s (known executable (ap (objects.query_executable) now ∙ q)))
      ])
      | inr (found, p, e) ↦
          let cos = objects.code_objects found in
          let filled = fill_from objects agent names cos m in
          let last = resolve_objects objects agent names rest (found ∷ seen) filled in
          let on = λ (desc : ArgDescriptor).
            resolve_objects_keeps objects agent names rest (found ∷ seen) filled n desc in
          let before = λ (desc : ArgDescriptor). fill_from_keeps objects agent names cos m n desc in
          ap (has_descriptor agent n) e ∙ (elim (Bool-cases (found == executable)) [
            | inl same ↦
                let now : found ≡ executable = ground (arith, same) in
                kept agent n filled last on (
                  fill_from_gives objects agent names cos m n h
                    (ap (λ x. describes objects n (objects.code_objects x)) now ∙ g))
            | inr other ↦
                resolve_objects_gives objects agent names rest (found ∷ seen) filled n ko executable
                  h (still c p q other) q g
                  (λ there. kept agent n m filled before (s (ground (arith, there, other))))
          ])
    ]
  where
    still :
        contains (object ∷ rest) ko ≡ true
        → {found : ℕ} → objects.query_executable object ≡ some found
        → objects.query_executable ko ≡ some executable
        → (found == executable) ≡ false
        → contains rest ko ≡ true
    still c {found} p q other = elim (Bool-cases (object == ko)) [
      | inr e ↦ ground (arith, c, e)
      | inl e ↦
          let now : object ≡ ko = ground (arith, e) in
          let same = sym p ∙ ap (objects.query_executable) now ∙ q in
          absurd (ground (arith, same, other))
    ]

pub contains-missing_objects :
    (agent : ℕ) (n : Bytes) (ko : ℕ) (kernels : List (Bytes × ℕ)) (m : Descriptors)
    → lookup n kernels ≡ some ko
    → lookup_in agent n m ≡ none
    → contains (missing_objects agent kernels m) ko ≡ true
unfolding missing_objects lookup
contains-missing_objects agent n ko [] m h g = absurd (cc h)
contains-missing_objects agent n ko ((name, object) ∷ kernels) m h g =
    ground (arith, h, g, contains-missing_objects agent n ko kernels m, text_cmp_eq n name)
