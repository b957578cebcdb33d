-- ===== src/Interceptor/Resolution.antt =====
-- resolveRuntimeArgDescriptors of coCache (src/utils.cc): the argument descriptors of kernels that the
-- application registered at run time, from the code objects that the loader has. What the loader knows,
-- and what KernelArgHelper reads of a code object through comgr, are parameters.
use omniprobe.Prelude.{
  ℕ, ◌≡◌, ◌⊎◌, refl, ap, ◌∙◌, Bool, true, false, List, [], ◌∷◌, Option, none, some, Bytes,
  if◌then◌else◌, contains, text_eq, text_eq_iff, Option-cases, Bool-cases, inl, inr, arith,
}
use omniprobe.Prelude.Maps.{text_key, nat_key, lookup, assign, lookup-upsert_self, same_or_kept}
use omniprobe.Interceptor.KernArgs.{ArgDescriptor}
use omniprobe.Interceptor.Cache.{Cache, lookup_in, assign_in, or_empty}

-- The executable of a kernel object, the bytes of its loaded code objects (`none` where there are none
-- to be had, so that the object is skipped), and the descriptor of a kernel in a code object.
pub record CodeObjects : Type 0 where
  pub query_executable : ℕ → Option ℕ
  pub code_objects : ℕ → List (Option Bytes)
  pub describe : Bytes → Bytes → Option ArgDescriptor

abbrev pub Descriptors : Type 0
Descriptors = List (ℕ × List (Bytes × ArgDescriptor))

-- The kernel objects whose name has no descriptor.
unfoldable pub missing_objects : ℕ → List (Bytes × ℕ) → Descriptors → List ℕ
missing_objects agent [] arg_map = []
missing_objects agent ((name, object) ∷ kernels) arg_map =
    let later = missing_objects agent kernels arg_map in
    elim (lookup_in agent name arg_map) [ none ↦ object ∷ later | some desc ↦ later ]

-- The loop over the names of `lookup_map_`: a name with a descriptor is left alone.
unfoldable pub fill :
    (Bytes → Option ArgDescriptor) → ℕ → List (Bytes × ℕ) → Descriptors → Descriptors
fill describe agent [] arg_map = arg_map
fill describe agent ((name, symbol) ∷ names) arg_map =
    let filled : Descriptors = elim (lookup_in agent name arg_map) [
      | some desc ↦ arg_map
      | none ↦ elim (describe name) [
        | none ↦ arg_map
        | some desc ↦ assign_in agent name desc arg_map
      ]
    ] in
    fill describe agent names filled

-- The loop over the loaded code objects of an executable.
unfoldable pub fill_from :
    CodeObjects → ℕ → List (Bytes × ℕ) → List (Option Bytes) → Descriptors → Descriptors
unfolding fill
fill_from objects agent names [] arg_map = arg_map
fill_from objects agent names (none ∷ rest) arg_map = fill_from objects agent names rest arg_map
fill_from objects agent names (some bits ∷ rest) arg_map =
    fill_from objects agent names rest (fill (objects.describe bits) agent names arg_map)

-- The loop over the missing kernel objects, with the executables that were seen.
unfoldable pub resolve_objects :
    CodeObjects → ℕ → List (Bytes × ℕ) → List ℕ → List ℕ → Descriptors → Descriptors
resolve_objects objects agent names [] seen arg_map = arg_map
resolve_objects objects agent names (object ∷ rest) seen arg_map =
    elim (objects.query_executable object) [
      | none ↦ resolve_objects objects agent names rest seen arg_map
      | some executable ↦
          if contains seen executable
          then resolve_objects objects agent names rest seen arg_map
          else resolve_objects objects agent names rest (executable ∷ seen)
              (fill_from objects agent names (objects.code_objects executable) arg_map)
    ]

-- The names that `lookup_map_` has for the agent.
abbrev pub names_of : ℕ → Cache → List (Bytes × ℕ)
names_of agent cache = or_empty (lookup agent cache.lookup_map)

unfoldable pub resolve_runtime_arg_descriptors : CodeObjects → ℕ → Cache → Bool × Cache
unfolding missing_objects
resolve_runtime_arg_descriptors objects agent cache =
    elim (lookup agent cache.runtime_kernel_objects) [
      | none ↦ (false, cache)
      | some kernels ↦ elim (missing_objects agent kernels cache.arg_map) [
        | [] ↦ (true, cache)
        | object ∷ rest ↦ (
          true,
          record cache {
            arg_map =
                resolve_objects objects agent (names_of agent cache) (object ∷ rest) []
                  cache.arg_map;
          },
        )
      ]
    ]

lookup_nothing : {V : Type 0} (n : Bytes) (m : List (Bytes × V)) → m ≡ [] → lookup n m ≡ none
unfolding lookup
lookup_nothing n m h = rw h refl

-- An entry stays when another name gets one.
pub lookup_in-assign_in_ne :
    {V : Type 0} (agent other : ℕ) (name n : Bytes) (v : V) (m : List (ℕ × List (Bytes × V)))
    → text_eq n name ≡ false
    → lookup_in other n (assign_in agent name v m) ≡ lookup_in other n m
lookup_in-assign_in_ne agent other name n v m h =
    elim (same_or_kept agent (λ inner. assign name v (or_empty inner)) m other) [
      | inr k ↦ rw (lookup_in, k) refl
      | inl e ↦
          let seen = lookup-upsert_self agent (λ inner. assign name v (or_empty inner)) m in
          elim (same_or_kept name (λ old. v) (or_empty (lookup agent m)) n) [
            | inl s ↦ absurd (ground (arith, h, (text_eq_iff n name).1 s))
            | inr s ↦ ground (arith, e, seen, s, lookup_nothing n (or_empty (lookup agent m)))
          ]
    ]

-- A name that gets an entry did not have one, so it is no name that has one.
pub other_name :
    {V : Type 0} (agent : ℕ) (name n : Bytes) (m : List (ℕ × List (Bytes × V))) {v : V}
    → lookup_in agent name m ≡ none
    → lookup_in agent n m ≡ some v
    → text_eq n name ≡ false
other_name agent name n m a h = elim (Bool-cases (text_eq n name)) [
  | inl e ↦
      let same = ap (λ t. lookup_in agent t m) ((text_eq_iff n name).0 e) in
      absurd (cc (a, h, same))
  | inr e ↦ e
]

-- What one step of the loop leaves.
pub fill_one :
    (describe : Bytes → Option ArgDescriptor) (agent : ℕ) (name : Bytes) (symbol : ℕ)
    (names : List (Bytes × ℕ)) (m : Descriptors)
    → (fill describe agent ((name, symbol) ∷ names) m ≡ fill describe agent names m)
      ⊎ ((desc : ArgDescriptor) × (lookup_in agent name m ≡ none)
          × (describe name ≡ some desc)
          × (fill describe agent ((name, symbol) ∷ names) m
              ≡ fill describe agent names (assign_in agent name desc m)))
unfolding fill
fill_one describe agent name symbol names m = elim (Option-cases (lookup_in agent name m)) [
  | inr (old, a) ↦ inl (rw (fill, a) refl)
  | inl a ↦ elim (Option-cases (describe name)) [
    | inl b ↦ inl (rw (fill, a, b) refl)
    | inr (desc, b) ↦ inr (desc, a, b, rw (fill, a, b) refl)
  ]
]

-- A descriptor that is there stays the same.
pub fill_keeps :
    (describe : Bytes → Option ArgDescriptor) (agent : ℕ) (names : List (Bytes × ℕ))
    (m : Descriptors) (n : Bytes) (desc : ArgDescriptor)
    → lookup_in agent n m ≡ some desc
    → lookup_in agent n (fill describe agent names m) ≡ some desc
unfolding fill
fill_keeps describe agent [] m n desc h = h
fill_keeps describe agent ((name, symbol) ∷ names) m n desc h =
    elim (fill_one describe agent name symbol names m) [
      | inl e ↦ ap (lookup_in agent n) e ∙ fill_keeps describe agent names m n desc h
      | inr (new, a, b, e) ↦
          let kept =
            lookup_in-assign_in_ne agent agent name n new m (other_name agent name n m a h) in
          ap (lookup_in agent n) e
          ∙ fill_keeps describe agent names (assign_in agent name new m) n desc (kept ∙ h)
    ]

pub fill_from_keeps :
    (objects : CodeObjects) (agent : ℕ) (names : List (Bytes × ℕ)) (cos : List (Option Bytes))
    (m : Descriptors) (n : Bytes) (desc : ArgDescriptor)
    → lookup_in agent n m ≡ some desc
    → lookup_in agent n (fill_from objects agent names cos m) ≡ some desc
unfolding fill_from
fill_from_keeps objects agent names [] m n desc h = h
fill_from_keeps objects agent names (none ∷ rest) m n desc h =
    fill_from_keeps objects agent names rest m n desc h
fill_from_keeps objects agent names (some bits ∷ rest) m n desc h =
    fill_from_keeps objects agent names rest (fill (objects.describe bits) agent names m) n desc
      (fill_keeps (objects.describe bits) agent names m n desc h)

-- What one missing kernel object does: nothing, or its executable is seen and its objects are read.
pub resolve_one :
    (objects : CodeObjects) (agent : ℕ) (names : List (Bytes × ℕ)) (object : ℕ) (rest seen : List ℕ)
    (m : Descriptors)
    → ((resolve_objects objects agent names (object ∷ rest) seen m
          ≡ resolve_objects objects agent names rest seen m)
        × ((e : ℕ) → objects.query_executable object ≡ some e → contains seen e ≡ true))
      ⊎ ((executable : ℕ) × (objects.query_executable object ≡ some executable)
          × (resolve_objects objects agent names (object ∷ rest) seen m
              ≡ resolve_objects objects agent names rest
                  (executable ∷ seen)
                  (fill_from objects agent names (objects.code_objects executable) m)))
unfolding resolve_objects
resolve_one objects agent names object rest seen m =
    elim (Option-cases (objects.query_executable object)) [
      | inl a ↦ inl (rw (resolve_objects, a) refl, λ e q. absurd (cc (a, q)))
      | inr (executable, a) ↦ elim (Bool-cases (contains seen executable)) [
        | inl b ↦ inl (rw (resolve_objects, a, b) refl, λ e q. ground (arith, a, b, q))
        | inr b ↦ inr (executable, a, rw (resolve_objects, a, b) refl)
      ]
    ]

pub resolve_objects_keeps :
    (objects : CodeObjects) (agent : ℕ) (names : List (Bytes × ℕ)) (kos seen : List ℕ)
    (m : Descriptors) (n : Bytes) (desc : ArgDescriptor)
    → lookup_in agent n m ≡ some desc
    → lookup_in agent n (resolve_objects objects agent names kos seen m) ≡ some desc
unfolding resolve_objects
resolve_objects_keeps objects agent names [] seen m n desc h = h
resolve_objects_keeps objects agent names (object ∷ rest) seen m n desc h =
    elim (resolve_one objects agent names object rest seen m) [
      | inl (e, q) ↦
          ap (lookup_in agent n) e ∙ resolve_objects_keeps objects agent names rest seen m n desc h
      | inr (executable, q, e) ↦
          let cos = objects.code_objects executable in
          ap (lookup_in agent n) e
          ∙ resolve_objects_keeps objects agent names rest (executable ∷ seen)
              (fill_from objects agent names cos m) n desc
              (fill_from_keeps objects agent names cos m n desc h)
    ]
