-- ===== src/Interceptor/Entries.antt =====
-- What addFile of coCache (src/utils.cc) enters: for each name, the last kernel of the file that has it.
use omniprobe.Prelude.{
  ℕ, ◌≡◌, refl, sym, ap, ◌∙◌, Bool, true, false, ◌⊎◌, ◌&&◌, List, [], ◌∷◌, ◌++◌, Option, none, some,
  Bytes, if◌then◌else◌, text_eq, text_eq_iff, Option-cases, Bool-cases, inl, inr, arith,
}
use mathlib.Core.Path.{subst}
use omniprobe.Prelude.Maps.{text_key, nat_key, assign}
use omniprobe.Interceptor.Cache.{Cache, CodeObjectRef, lookup_in, assign_in, lookup_in-assign_in}
use omniprobe.Interceptor.Resolution.{lookup_in-assign_in_ne}
use omniprobe.Interceptor.Loading.{
  Hsa, Files, Loaded, Outcome, load_all, passes, enter, add_symbol, add_symbols, add_executables,
  add_file,
}

-- A kernel of the file: its symbol, and where it comes from.
abbrev pub Kernel : Type 0
Kernel = ℕ × CodeObjectRef

abbrev pub has_passed : Option Bool → Bool
has_passed none = false
has_passed (some passed) = passed

-- A name is admitted if there is no filter, or the expression is found in it.
abbrev pub is_admitted : Hsa → Bytes → Bytes → Bool
is_admitted hsa [] name = true
is_admitted hsa (c ∷ filter) name = has_passed (hsa.regex_search (c ∷ filter) name)

has_passed-passes :
    (hsa : Hsa) (filter name : Bytes)
    → has_passed (passes hsa filter name) ≡ is_admitted hsa filter name
unfolding passes text_eq
has_passed-passes hsa [] name = refl
has_passed-passes hsa (c ∷ filter) name = refl

abbrev pub ref_of : Hsa → Bytes → Bytes → ℕ → CodeObjectRef
ref_of hsa name co_file symbol = record {
  source_file = name;
  co_file = co_file;
  mangled_name = hsa.symbol_name symbol;
}

-- The kernels of a code object whose names pass the filter, by name, in the order of the symbols.
abbrev pub kernels_of : Hsa → Bytes → Bytes → Bytes → List ℕ → List (Bytes × Kernel)
kernels_of hsa name filter co_file [] = []
kernels_of hsa name filter co_file (symbol ∷ symbols) =
    let kernel_name = hsa.demangle_name (hsa.symbol_name symbol) in
    let rest = kernels_of hsa name filter co_file symbols in
    if hsa.is_kernel symbol && is_admitted hsa filter kernel_name
    then (kernel_name, (symbol, ref_of hsa name co_file symbol)) ∷ rest
    else rest

abbrev pub kernels_in : Hsa → Bytes → Bytes → List (ℕ × Bytes) → List (Bytes × Kernel)
kernels_in hsa name filter [] = []
kernels_in hsa name filter ((exe, co_file) ∷ executables) =
    kernels_of hsa name filter co_file (hsa.symbols_of exe)
    ++ kernels_in hsa name filter executables

-- The kernels of the code objects that become executables, in the order of the code objects.
abbrev pub kernels_loaded : Hsa → ℕ → Bytes → Bytes → List Bytes → List (Bytes × Kernel)
kernels_loaded hsa agent name filter [] = []
kernels_loaded hsa agent name filter (co_file ∷ co_files) =
    (elim (hsa.load agent co_file) [
      | Loaded.left_out ↦ []
      | Loaded.failed ↦ []
      | Loaded.executable exe ↦ kernels_of hsa name filter co_file (hsa.symbols_of exe)
    ])
    ++ kernels_loaded hsa agent name filter co_files

unfoldable pub kernels_of_file : Hsa → ℕ → Bytes → Bytes → List (Bytes × Kernel)
kernels_of_file hsa agent name filter = elim (hsa.extract_code_objects agent name) [
  | none ↦ []
  | some co_files ↦ kernels_loaded hsa agent name filter co_files
]

Loaded-cases :
    (l : Loaded)
    → (l ≡ Loaded.left_out ⊎ l ≡ Loaded.failed) ⊎ ((exe : ℕ) × (l ≡ Loaded.executable exe))
Loaded-cases Loaded.left_out = inl (inl refl)
Loaded-cases Loaded.failed = inl (inr refl)
Loaded-cases (Loaded.executable exe) = inr (exe, refl)

kernels_loaded-load_all :
    (hsa : Hsa) (agent : ℕ) (name filter : Bytes) (co_files : List Bytes)
    (executables : List (ℕ × Bytes))
    → load_all hsa agent co_files ≡ some executables
    → kernels_loaded hsa agent name filter co_files ≡ kernels_in hsa name filter executables
unfolding load_all
kernels_loaded-load_all hsa agent name filter [] executables h = cc h
kernels_loaded-load_all hsa agent name filter (co_file ∷ co_files) executables h =
    elim (Loaded-cases (hsa.load agent co_file)) [
      | inl (inl l) ↦ rw l (
          kernels_loaded-load_all hsa agent name filter co_files executables (ground (arith, h, l)))
      | inl (inr l) ↦ absurd (ground (arith, h, l))
      | inr (exe, l) ↦ elim (Option-cases (load_all hsa agent co_files)) [
        | inl n ↦ absurd (ground (arith, h, l, n))
        | inr (rest, n) ↦
            let whole : executables ≡ (exe, co_file) ∷ rest = ground (arith, h, l, n) in
            rw (l, whole)
              (ap (λ later. kernels_of hsa name filter co_file (hsa.symbols_of exe) ++ later)
                (kernels_loaded-load_all hsa agent name filter co_files rest n))
      ]
    ]

-- The part of the last kernel with the name, or the old one if none has it.
abbrev pub last_named :
    {V : Type 0} → (Kernel → V) → Bytes → List (Bytes × Kernel) → Option V → Option V
last_named part n [] old = old
last_named part n ((name, kernel) ∷ kernels) old =
    last_named part n kernels (if text_eq n name then some (part kernel) else old)

last_named-append :
    {V : Type 0} (part : Kernel → V) (n : Bytes) (xs ys : List (Bytes × Kernel)) (old : Option V)
    → last_named part n (xs ++ ys) old ≡ last_named part n ys (last_named part n xs old)
last_named-append part n [] ys old = refl
last_named-append part n ((name, kernel) ∷ xs) ys old =
    last_named-append part n xs ys (if text_eq n name then some (part kernel) else old)

abbrev symbol_of : Kernel → ℕ
symbol_of kernel = kernel.0

abbrev source_of : Kernel → CodeObjectRef
source_of kernel = kernel.1

-- Both maps hold, for every name, the last kernel of the list, or what they held.
abbrev pub Entered : ℕ → List (Bytes × Kernel) → Cache → Cache → Type 0
Entered agent kernels before after =
    (n : Bytes)
    → (lookup_in agent n after.lookup_map
        ≡ last_named symbol_of n kernels (lookup_in agent n before.lookup_map))
      × (lookup_in agent n after.kernel_co_map
          ≡ last_named source_of n kernels (lookup_in agent n before.kernel_co_map))

assigned :
    {V : Type 0} (agent : ℕ) (name n : Bytes) (v : V) (m : List (ℕ × List (Bytes × V)))
    → lookup_in agent n (assign_in agent name v m)
      ≡ (if text_eq n name then some v else lookup_in agent n m)
assigned agent name n v m = elim (Bool-cases (text_eq n name)) [
  | inl e ↦
      let same = (text_eq_iff n name).0 e in
      ap (λ t. lookup_in agent t (assign_in agent name v m)) same
      ∙ (lookup_in-assign_in agent name v m
          ∙ sym (ap (λ b. if b then some v else lookup_in agent n m) e))
  | inr e ↦
      lookup_in-assign_in_ne agent agent name n v m e
      ∙ sym (ap (λ b. if b then some v else lookup_in agent n m) e)
]

enter-Entered :
    (hsa : Hsa) (agent : ℕ) (name co_file : Bytes) (symbol : ℕ) (cache : Cache)
    → Entered agent
        ((hsa.demangle_name (hsa.symbol_name symbol), (symbol, ref_of hsa name co_file symbol))
          ∷ [])
        cache
        (enter hsa agent name co_file symbol cache)
unfolding enter
enter-Entered hsa agent name co_file symbol cache = λ n.
    let kernel_name = hsa.demangle_name (hsa.symbol_name symbol) in
    (
      assigned agent kernel_name n symbol cache.lookup_map,
      assigned agent kernel_name n (ref_of hsa name co_file symbol) cache.kernel_co_map,
    )

joined :
    (agent : ℕ) (xs ys : List (Bytes × Kernel)) (a b c : Cache)
    → Entered agent xs a b
    → Entered agent ys b c
    → Entered agent (xs ++ ys) a c
joined agent xs ys a b c h k = λ n. (
  (k n).0
      ∙ (ap (last_named symbol_of n ys) (h n).0
          ∙ sym (last_named-append symbol_of n xs ys (lookup_in agent n a.lookup_map))),
  (k n).1
      ∙ (ap (last_named source_of n ys) (h n).1
          ∙ sym (last_named-append source_of n xs ys (lookup_in agent n a.kernel_co_map))),
)

-- The kernels that one symbol brings.
abbrev one_kernel : Hsa → Bytes → Bytes → Bytes → ℕ → List (Bytes × Kernel)
one_kernel hsa name filter co_file symbol = kernels_of hsa name filter co_file (symbol ∷ [])

kernels_of_cons :
    (hsa : Hsa) (name filter co_file : Bytes) (symbol : ℕ) (symbols : List ℕ)
    → kernels_of hsa name filter co_file (symbol ∷ symbols)
      ≡ one_kernel hsa name filter co_file symbol ++ kernels_of hsa name filter co_file symbols
kernels_of_cons hsa name filter co_file symbol symbols =
    elim (Bool-cases (
      hsa.is_kernel symbol
      && is_admitted hsa filter (hsa.demangle_name (hsa.symbol_name symbol)))) [
        | inl e ↦ rw e refl
        | inr e ↦ rw e refl
      ]

moved :
    (agent : ℕ) (a : Cache) (xs ys : List (Bytes × Kernel)) (b c : Cache)
    → xs ≡ ys
    → b ≡ c
    → Entered agent xs a b
    → Entered agent ys a c
moved agent a xs ys b c e k h =
    subst (λ x. Entered agent ys a x) k (subst (λ x. Entered agent x a b) e h)

unentered : (agent : ℕ) (a : Cache) → Entered agent [] a a
unentered agent a = λ n. (refl, refl)

add_symbol-Entered :
    (hsa : Hsa) (agent : ℕ) (name filter co_file : Bytes) (symbol : ℕ) (files next : Files)
    → add_symbol hsa agent name filter co_file symbol files ≡ some next
    → Entered agent (one_kernel hsa name filter co_file symbol) files.cache next.cache
unfolding add_symbol
add_symbol-Entered hsa agent name filter co_file symbol files next h =
    let kernel_name = hsa.demangle_name (hsa.symbol_name symbol) in
    let one = one_kernel hsa name filter co_file symbol in
    let new : List (Bytes × Kernel) =
      (kernel_name, (symbol, ref_of hsa name co_file symbol)) ∷ [] in
    let after = enter hsa agent name co_file symbol files.cache in
    let entered = enter-Entered hsa agent name co_file symbol files.cache in
    let same = λ (e : [] ≡ one) (k : files.cache ≡ next.cache).
      moved agent files.cache [] one files.cache next.cache e k (unentered agent files.cache) in
    elim (Bool-cases (hsa.is_kernel symbol)) [
      | inr k ↦ same (rw k refl) (ground (arith, h, k))
      | inl k ↦ elim (Option-cases (passes hsa filter kernel_name)) [
        | inl p ↦ absurd (ground (arith, h, k, p))
        | inr (passed, p) ↦
            let admitted : is_admitted hsa filter kernel_name ≡ passed =
              sym (has_passed-passes hsa filter kernel_name) ∙ ap has_passed p in
            elim (Bool-cases passed) [
              | inr b ↦ same (rw (k, admitted, b) refl) (ground (arith, h, k, p, b))
              | inl b ↦
                  let is_new : new ≡ one = rw (k, admitted, b) refl in
                  let is_after : after ≡ next.cache = ground (arith, h, k, p, b) in
                  moved agent files.cache new one after next.cache is_new is_after entered
            ]
      ]
    ]

add_symbols-Entered :
    (hsa : Hsa) (agent : ℕ) (name filter co_file : Bytes) (symbols : List ℕ) (files next : Files)
    → add_symbols hsa agent name filter co_file symbols files ≡ some next
    → Entered agent (kernels_of hsa name filter co_file symbols) files.cache next.cache
unfolding add_symbols
add_symbols-Entered hsa agent name filter co_file [] files next h =
    moved agent files.cache [] [] files.cache next.cache refl (ground (arith, h))
      (unentered agent files.cache)
add_symbols-Entered hsa agent name filter co_file (symbol ∷ symbols) files next h =
    elim (Option-cases (add_symbol hsa agent name filter co_file symbol files)) [
      | inl e ↦ absurd (ground (arith, h, e))
      | inr (mid, e) ↦
          let first = add_symbol-Entered hsa agent name filter co_file symbol files mid e in
          let later =
            add_symbols-Entered hsa agent name filter co_file symbols mid next
              (ground (arith, h, e)) in
          moved agent files.cache
            (one_kernel hsa name filter co_file symbol
              ++ kernels_of hsa name filter co_file symbols)
            (kernels_of hsa name filter co_file (symbol ∷ symbols)) next.cache next.cache
            (sym (kernels_of_cons hsa name filter co_file symbol symbols)) refl
            (joined agent (one_kernel hsa name filter co_file symbol)
              (kernels_of hsa name filter co_file symbols) files.cache mid.cache next.cache first
              later)
    ]

add_executables-Entered :
    (hsa : Hsa) (agent : ℕ) (name filter : Bytes) (executables : List (ℕ × Bytes))
    (files next : Files)
    → add_executables hsa agent name filter executables files ≡ some next
    → Entered agent (kernels_in hsa name filter executables) files.cache next.cache
unfolding add_executables
add_executables-Entered hsa agent name filter [] files next h =
    moved agent files.cache [] [] files.cache next.cache refl (ground (arith, h))
      (unentered agent files.cache)
add_executables-Entered hsa agent name filter ((exe, co_file) ∷ executables) files next h =
    elim (Option-cases (add_symbols hsa agent name filter co_file (hsa.symbols_of exe) files)) [
      | inl e ↦ absurd (ground (arith, h, e))
      | inr (mid, e) ↦
          let kept : Files = record mid {
            cache_objects_ = assign agent (exe, name) mid.cache_objects_;
          } in
          let first =
            add_symbols-Entered hsa agent name filter co_file (hsa.symbols_of exe) files mid e in
          let later =
            add_executables-Entered hsa agent name filter executables kept next
              (ground (arith, h, e)) in
          joined agent (kernels_of hsa name filter co_file (hsa.symbols_of exe))
            (kernels_in hsa name filter executables) files.cache mid.cache next.cache first later
    ]

-- When addFile returns, it returns false; and for every name, the lookup map and the code object map
-- of the agent hold the symbol and the source of the last kernel of the file that has the name and
-- passes the filter, among its code objects that became executables, or what they held where there is none.
pub add_file-Entered :
    (hsa : Hsa) (agent : ℕ) (name filter : Bytes) (files next : Files) (result : Bool)
    → add_file hsa agent name filter files ≡ Outcome.returned result next
    → (result ≡ false)
      × Entered agent (kernels_of_file hsa agent name filter) files.cache next.cache
unfolding add_file kernels_of_file load_all
add_file-Entered hsa agent name filter files next result h =
    elim (Option-cases (hsa.extract_code_objects agent name)) [
      | inl e ↦ absurd (ground (arith, h, e))
      | inr ([], e) ↦
          let is_false : result ≡ false = ground (arith, h, e) in
          let same : files.cache ≡ next.cache = ground (arith, h, e) in
          (
            is_false,
            moved agent files.cache [] (kernels_of_file hsa agent name filter) files.cache
                next.cache (rw (kernels_of_file, e) refl) same (unentered agent files.cache),
          )
      | inr (co_file ∷ co_files, e) ↦
          elim (Option-cases (load_all hsa agent (co_file ∷ co_files))) [
            | inl l ↦ absurd (ground (arith, h, e, l))
            | inr (executables, l) ↦
                elim (Option-cases (add_executables hsa agent name filter executables files)) [
                  | inl a ↦ absurd (ground (arith, h, e, l, a))
                  | inr (last, a) ↦
                      let is_false : result ≡ false = ground (arith, h, e, l, a) in
                      let same : last.cache ≡ next.cache = ground (arith, h, e, l, a) in
                      (
                        is_false,
                        moved agent files.cache (kernels_in hsa name filter executables)
                            (kernels_of_file hsa agent name filter) last.cache next.cache
                            (rw (kernels_of_file, e)
                              (sym (
                                kernels_loaded-load_all hsa agent name filter (co_file ∷ co_files)
                                  executables l)))
                            same
                            (add_executables-Entered hsa agent name filter executables files last
                              a),
                      )
                ]
          ]
    ]
