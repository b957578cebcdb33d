-- ===== src/Interceptor/Exclusion.antt =====
-- isKernelFromExcludedFile of coCache (src/utils.cc): whether a kernel was loaded from a file that the
-- library filter excludes, with the answers kept by executable. What the loader knows of an executable
-- is a parameter of each call.
use omniprobe.Prelude.{
  ℕ, ◌≡◌, refl, sym, ap, ◌∙◌, Bool, true, false, ◌||◌, List, [], ◌∷◌, ◌++◌, Option, none, some, map,
  Bytes, codes, if◌then◌else◌, ◌==◌, starts_with, drop, contains, length, All, Bool-cases,
  Option-cases, inl, inr, arith,
}
use omniprobe.Prelude.Maps.{nat_key, lookup, assign, lookup-upsert_self, same_or_kept}
use omniprobe.LibraryFilter.{Outside, Filter, is_excluded}

-- A loaded code object, as the loader describes it; `none` is a query that fails.
pub record LoadedCodeObject : Type 0 where
  pub uri_length : Option ℕ
  pub uri : Option Bytes

-- hsa_ven_amd_loader_query_executable, and the loaded code objects of an executable.
pub record Loader : Type 0 where
  pub query_executable : ℕ → Option ℕ
  pub loaded_code_objects : ℕ → List LoadedCodeObject

abbrev pub file_prefix : Bytes
file_prefix = codes "file://"

-- The text in front of the first hash sign.
unfoldable pub before_fragment : Bytes → Bytes
before_fragment [] = []
before_fragment (c ∷ s) = let rest = before_fragment s in if c == b'#' then [] else c ∷ rest

unfoldable pub file_path : Bytes → Option Bytes
unfolding before_fragment
file_path uri = if starts_with file_prefix uri then some (before_fragment (drop 7 uri)) else none

-- The path of a code object that was loaded from a file.
unfoldable pub file_of : LoadedCodeObject → Option Bytes
file_of lco = elim (lco.uri_length) [
  | none ↦ none
  | some length ↦
      if length == 0 then none else elim (lco.uri) [ none ↦ none | some uri ↦ file_path uri ]
]

abbrev pub Memo : Type 0
Memo = List (ℕ × Bool)

module _ {R : Type 0} (loader : Loader) (env : Outside R) (filter : Filter R) where
  -- The iteration, which stops at the first excluded file.
  unfoldable pub any_excluded : List LoadedCodeObject → Bool
  any_excluded [] = false
  any_excluded (lco ∷ lcos) =
      let later = any_excluded lcos in
      elim (file_of lco) [
        | none ↦ later
        | some path ↦ if is_excluded env filter path then true else later
      ]

  unfoldable pub is_kernel_from_excluded_file : ℕ → Memo → Bool × Memo
  is_kernel_from_excluded_file kernel_object memo = elim (loader.query_executable kernel_object) [
    | none ↦ (false, memo)
    | some executable ↦ elim (lookup executable memo) [
      | some excluded ↦ (excluded, memo)
      | none ↦
          let excluded = any_excluded (loader.loaded_code_objects executable) in
          (excluded, assign executable excluded memo)
    ]
  ]

-- What is behind a prefix of a text.
abbrev pub behind : Bytes → Bytes → Option Bytes
behind [] s = some s
behind (p ∷ ps) [] = none
behind (p ∷ ps) (c ∷ s) = if p == c then behind ps s else none

-- A text up to its first hash sign, which has the code 35.
abbrev pub up_to_hash : Bytes → Bytes
up_to_hash [] = []
up_to_hash (c ∷ s) = if c == 35 then [] else c ∷ up_to_hash s

abbrev pub hash_cut : Option Bytes → Option Bytes
hash_cut none = none
hash_cut (some s) = some (up_to_hash s)

-- The file that a URI of a length names: what is behind `file://`, up to the place in the file.
abbrev pub named_by : Option ℕ → Option Bytes → Option Bytes
named_by none uri = none
named_by (some length) none = none
named_by (some length) (some uri) =
    if length == 0 then none else hash_cut (behind (codes "file://") uri)

behind-drop :
    (p s : Bytes) → (if starts_with p s then some (drop (length p) s) else none) ≡ behind p s
unfolding starts_with
behind-drop [] s = refl
behind-drop (p ∷ ps) [] = refl
behind-drop (p ∷ ps) (c ∷ s) = elim (Bool-cases (p == c)) [
  | inl e ↦ rw e (behind-drop ps s)
  | inr e ↦ rw e refl
]

before_fragment-up_to_hash : (s : Bytes) → before_fragment s ≡ up_to_hash s
unfolding before_fragment
before_fragment-up_to_hash [] = refl
before_fragment-up_to_hash (c ∷ s) = ground (arith, before_fragment-up_to_hash s)

file_path-hash_cut : (uri : Bytes) → file_path uri ≡ hash_cut (behind (codes "file://") uri)
unfolding file_path
file_path-hash_cut uri = elim (Bool-cases (starts_with file_prefix uri)) [
  | inl e ↦
      let split = behind-drop file_prefix uri in
      let found : some (drop 7 uri) ≡ behind file_prefix uri = rw e at split in
      rw (file_path, e) (ap some (before_fragment-up_to_hash (drop 7 uri)) ∙ ap hash_cut found)
  | inr e ↦
      let split = behind-drop file_prefix uri in
      let found : none ≡ behind file_prefix uri = rw e at split in
      rw (file_path, e) (ap hash_cut found)
]

file_of-named_by : (lco : LoadedCodeObject) → file_of lco ≡ named_by lco.uri_length lco.uri
unfolding file_of
file_of-named_by lco = elim (Option-cases lco.uri_length) [
  | inl n ↦ rw (file_of, n) refl
  | inr (length, n) ↦ elim (Option-cases lco.uri) [
    | inl u ↦ rw (file_of, n, u) (ground arith)
    | inr (uri, u) ↦ elim (Bool-cases (length == 0)) [
      | inl e ↦ rw (file_of, n, u, e) refl
      | inr e ↦ rw (file_of, n, u, e) (file_path-hash_cut uri)
    ]
  ]
]

module _ {R : Type 0} (env : Outside R) (filter : Filter R) where
  -- The answers to a sequence of questions, each with the loader as it is then.
  unfoldable pub answers : List (Loader × ℕ) → Memo → List Bool
  answers [] memo = []
  answers ((loader, kernel_object) ∷ later) memo =
      let asked = is_kernel_from_excluded_file loader env filter kernel_object memo in
      asked.0 ∷ answers later asked.1

  abbrev pub is_path_excluded : Option Bytes → Bool
  is_path_excluded none = false
  is_path_excluded (some path) = is_excluded env filter path

  -- What the answer is to mean: some code object of the kernel's executable comes from an excluded file.
  abbrev pub comes_excluded : List LoadedCodeObject → Bool
  comes_excluded [] = false
  comes_excluded (lco ∷ lcos) =
      is_path_excluded (named_by lco.uri_length lco.uri) || comes_excluded lcos

  unfoldable pub is_from_excluded : Loader × ℕ → Bool
  is_from_excluded (loader, kernel_object) = elim (loader.query_executable kernel_object) [
    | none ↦ false
    | some executable ↦ comes_excluded (loader.loaded_code_objects executable)
  ]

  any_excluded-comes_excluded :
      (loader : Loader) (lcos : List LoadedCodeObject)
      → any_excluded loader env filter lcos ≡ comes_excluded lcos
  unfolding any_excluded
  any_excluded-comes_excluded loader [] = refl
  any_excluded-comes_excluded loader (lco ∷ lcos) = elim (Option-cases (file_of lco)) [
    | inl n ↦
        let same : named_by lco.uri_length lco.uri ≡ none = sym (file_of-named_by lco) ∙ n in
        rw (any_excluded, n, same) (any_excluded-comes_excluded loader lcos)
    | inr (path, n) ↦
        let same : named_by lco.uri_length lco.uri ≡ some path = sym (file_of-named_by lco) ∙ n in
        rw (any_excluded, n, same) (ground (arith, any_excluded-comes_excluded loader lcos))
  ]

  -- The loader gives the code objects that an executable has for all time.
  abbrev pub Gives : (ℕ → List LoadedCodeObject) → Loader → Type 0
  Gives objects loader =
      (executable : ℕ) → loader.loaded_code_objects executable ≡ objects executable

  IsRight : (ℕ → List LoadedCodeObject) → Memo → Type 0
  IsRight objects memo =
      (executable : ℕ) (excluded : Bool)
      → lookup executable memo ≡ some excluded
      → excluded ≡ comes_excluded (objects executable)

  asked-IsRight :
      (objects : ℕ → List LoadedCodeObject) (loader : Loader) (kernel_object : ℕ) (memo : Memo)
      → Gives objects loader
      → IsRight objects memo
      → ((is_kernel_from_excluded_file loader env filter kernel_object memo).0
          ≡ is_from_excluded (loader, kernel_object))
        × IsRight objects (is_kernel_from_excluded_file loader env filter kernel_object memo).1
  unfolding is_kernel_from_excluded_file is_from_excluded IsRight
  asked-IsRight objects loader kernel_object memo gives h =
      elim (Option-cases (loader.query_executable kernel_object)) [
        | inl n ↦ rw (is_kernel_from_excluded_file, is_from_excluded, n) (refl, h)
        | inr (executable, n) ↦ elim (Option-cases (lookup executable memo)) [
          | inr (excluded, k) ↦
              rw (is_kernel_from_excluded_file, is_from_excluded, n, k)
                (h executable excluded k ∙ ap comes_excluded (sym (gives executable)), h)
          | inl k ↦
              let found = any_excluded loader env filter (loader.loaded_code_objects executable) in
              let fresh =
                any_excluded-comes_excluded loader (loader.loaded_code_objects executable) in
              let kept = fresh ∙ ap comes_excluded (gives executable) in
              rw (is_kernel_from_excluded_file, is_from_excluded, n, k)
                (
                  fresh,
                  λ other excluded l. elim (same_or_kept executable (λ old. found) memo other) [
                    | inl e ↦
                        let stored = lookup-upsert_self executable (λ old. found) memo in
                        let here : excluded ≡ found = ground (arith, e, l, stored) in
                        here ∙ kept ∙ ap (λ x. comes_excluded (objects x)) (sym e)
                    | inr e ↦ h other excluded (sym e ∙ l)
                  ],
                )
        ]
      ]

  answers_kept :
      (objects : ℕ → List LoadedCodeObject) (questions : List (Loader × ℕ)) (memo : Memo)
      → All (λ question. Gives objects question.0) questions
      → IsRight objects memo
      → answers questions memo ≡ map is_from_excluded questions
  unfolding answers
  answers_kept objects [] memo gives h = refl
  answers_kept objects ((loader, k) ∷ ks) memo gives h =
      let (a, b) = asked-IsRight objects loader k memo gives.0 h in
      rw
        (
          a,
          answers_kept objects ks (is_kernel_from_excluded_file loader env filter k memo).1 gives.1
              b,
        )
        refl

  -- However the questions repeat, and whichever executables the loader has loaded by each of them: if no
  -- executable gets other code objects than it had, the answers kept by executable are those of a search
  -- for each kernel anew, whether some code object of the kernel's executable comes from an excluded
  -- file. A kernel with no known executable is not excluded.
  pub answers-is_from_excluded :
      (objects : ℕ → List LoadedCodeObject) (questions : List (Loader × ℕ))
      → All (λ question. Gives objects question.0) questions
      → answers questions [] ≡ map is_from_excluded questions
  unfolding IsRight lookup
  answers-is_from_excluded objects questions gives =
      answers_kept objects questions [] gives (λ executable excluded l. absurd (cc l))

drop_prefix : (path : Bytes) → drop 7 (file_prefix ++ path) ≡ path
drop_prefix path = refl

before_fragment_lem :
    (path fragment : Bytes)
    → contains path b'#' ≡ false
    → before_fragment (path ++ (b'#' ∷ fragment)) ≡ path
unfolding before_fragment
before_fragment_lem [] fragment h = refl
before_fragment_lem (c ∷ path) fragment h = ground (arith, h, before_fragment_lem path fragment)

-- For a path with no hash sign, the path is read back from its URI with the place in the file.
file_path-uri :
    (path fragment : Bytes)
    → contains path b'#' ≡ false
    → file_path (file_prefix ++ (path ++ (b'#' ∷ fragment))) ≡ some path
unfolding file_path starts_with
file_path-uri path fragment h = ap some (before_fragment_lem path fragment h)
