-- ===== src/Interceptor/Described.antt =====
-- Whether resolveRuntimeArgDescriptors finds what there is to be found.
use omniprobe.Prelude.{
  ℕ, ◌≡◌, refl, ap, ◌∙◌, sym, Bool, true, false, List, [], ◌∷◌, Option, none, some, Bytes,
  if◌then◌else◌, contains, text_eq_iff, Option-cases, List-cases, inl, inr, arith,
}
use omniprobe.Prelude.Maps.{text_key, nat_key, text_cmp_eq, lookup}
use omniprobe.Interceptor.KernArgs.{ArgDescriptor}
use omniprobe.Interceptor.Names.{get_instrumented_name}
use omniprobe.Interceptor.Cache.{
  Cache, lookup_in, or_empty, find_arg_descriptor, get_arg_descriptor,
}
use omniprobe.Interceptor.Filled.{
  has_descriptor, has_name, describes, resolve_objects_gives, contains-missing_objects,
}
use omniprobe.Interceptor.Resolution.{
  CodeObjects, missing_objects, names_of, resolve_runtime_arg_descriptors, resolve_objects_keeps,
}

has_name-lookup :
    (n : Bytes) (names : List (Bytes × ℕ)) (symbol : ℕ)
    → lookup n names ≡ some symbol
    → has_name n names ≡ true
unfolding lookup
has_name-lookup n [] symbol h = absurd (cc h)
has_name-lookup n ((name, s) ∷ names) symbol h =
    ground (arith, h, has_name-lookup n names symbol, text_cmp_eq n name, (text_eq_iff n name).1)

inner_of :
    {V : Type 0} (agent : ℕ) (n : Bytes) (m : List (ℕ × List (Bytes × V))) {v : V}
    → lookup_in agent n m ≡ some v
    → (inner : List (Bytes × V)) × (lookup agent m ≡ some inner) × (lookup n inner ≡ some v)
inner_of agent n m h = elim (Option-cases (lookup agent m)) [
  | inl e ↦ absurd (ground (arith, h, e))
  | inr (inner, e) ↦ (inner, e, ground (arith, h, e))
]

resolved :
    (objects : CodeObjects) (agent : ℕ) (n : Bytes) (cache : Cache) (ko executable symbol : ℕ)
    → lookup_in agent n cache.runtime_kernel_objects ≡ some ko
    → lookup_in agent n cache.lookup_map ≡ some symbol
    → objects.query_executable ko ≡ some executable
    → describes objects n (objects.code_objects executable) ≡ true
    → lookup_in agent n cache.arg_map ≡ none
    → ((resolve_runtime_arg_descriptors objects agent cache).0 ≡ true)
      × (has_descriptor agent n (resolve_runtime_arg_descriptors objects agent cache).1.arg_map
          ≡ true)
unfolding resolve_runtime_arg_descriptors
resolved objects agent n cache ko executable symbol r l q g none_yet =
    let (kernels, k, there) = inner_of agent n cache.runtime_kernel_objects r in
    let (names, s, named) = inner_of agent n cache.lookup_map l in
    let missing = contains-missing_objects agent n ko kernels cache.arg_map there none_yet in
    let h : has_name n (names_of agent cache) ≡ true =
      ap (λ o. has_name n (or_empty o)) s ∙ has_name-lookup n names symbol named in
    elim (List-cases (missing_objects agent kernels cache.arg_map)) [
      | inl e ↦ absurd (cc (missing, ap (λ x. contains x ko) e))
      | inr (object, (rest, e)) ↦
          rw (resolve_runtime_arg_descriptors, k, e)
            (
              refl,
              resolve_objects_gives objects agent (names_of agent cache) (object ∷ rest) []
                  cache.arg_map n ko executable h (ap (λ x. contains x ko) (sym e) ∙ missing) q g
                  (λ seen. absurd (cc seen)),
            )
    ]

abbrev pub is_found : Option ArgDescriptor → Bool
is_found none = false
is_found (some desc) = true

-- The name that is asked for.
abbrev pub wanted_name : Bytes → Bool → Bytes
wanted_name name instrumented = if instrumented then get_instrumented_name name else name

is_found_iff :
    (agent : ℕ) (name : Bytes) (instrumented : Bool) (cache : Cache)
    → is_found (find_arg_descriptor agent name instrumented cache)
      ≡ has_descriptor agent (wanted_name name instrumented) cache.arg_map
unfolding find_arg_descriptor
is_found_iff agent name instrumented cache = ground arith

resolve_keeps :
    (objects : CodeObjects) (agent : ℕ) (cache : Cache) (n : Bytes) (desc : ArgDescriptor)
    → lookup_in agent n cache.arg_map ≡ some desc
    → lookup_in agent n (resolve_runtime_arg_descriptors objects agent cache).1.arg_map ≡ some desc
unfolding resolve_runtime_arg_descriptors
resolve_keeps objects agent cache n desc h =
    elim (Option-cases (lookup agent cache.runtime_kernel_objects)) [
      | inl k ↦ rw (resolve_runtime_arg_descriptors, k) h
      | inr (kernels, k) ↦ elim (List-cases (missing_objects agent kernels cache.arg_map)) [
        | inl e ↦ rw (resolve_runtime_arg_descriptors, k, e) h
        | inr (object, (rest, e)) ↦
            rw (resolve_runtime_arg_descriptors, k, e)
              (resolve_objects_keeps objects agent (names_of agent cache) (object ∷ rest) []
                cache.arg_map n desc h)
      ]
    ]

-- A kernel that was registered at run time: if the name that is asked for is in the lookup map and has
-- a kernel object, and a code object of that object's executable describes the name, then the search
-- for its argument descriptor finds one. No descriptor that is there is changed.
pub get_arg_descriptor-resolve_runtime_arg_descriptors :
    (objects : CodeObjects) (agent : ℕ) (name : Bytes) (instrumented : Bool) (cache : Cache)
    (ko executable symbol : ℕ)
    → lookup_in agent (wanted_name name instrumented) cache.runtime_kernel_objects ≡ some ko
    → lookup_in agent (wanted_name name instrumented) cache.lookup_map ≡ some symbol
    → objects.query_executable ko ≡ some executable
    → describes objects (wanted_name name instrumented) (objects.code_objects executable) ≡ true
    → (is_found
          (get_arg_descriptor
            (resolve_runtime_arg_descriptors objects)
            agent
            name
            instrumented
            cache).0
        ≡ true)
      × ((n : Bytes) (desc : ArgDescriptor)
          → lookup_in agent n cache.arg_map ≡ some desc
          → lookup_in agent n
              (get_arg_descriptor
                (resolve_runtime_arg_descriptors objects)
                agent
                name
                instrumented
                cache).1.arg_map
            ≡ some desc)
unfolding get_arg_descriptor
get_arg_descriptor-resolve_runtime_arg_descriptors objects agent name instrumented cache ko
      executable symbol r l q g =
    let wanted = wanted_name name instrumented in
    let next = (resolve_runtime_arg_descriptors objects agent cache).1 in
    let before = is_found_iff agent name instrumented cache in
    let after = is_found_iff agent name instrumented next in
    elim (Option-cases (find_arg_descriptor agent name instrumented cache)) [
      | inr (found, e) ↦ rw (get_arg_descriptor, e) (refl, λ n desc h. h)
      | inl e ↦ elim (Option-cases (lookup_in agent wanted cache.arg_map)) [
        | inr (desc, k) ↦ absurd (ground (arith, before, e, k))
        | inl k ↦
            let (answered, there) =
              resolved objects agent wanted cache ko executable symbol r l q g k in
            rw (get_arg_descriptor, e, answered) (after ∙ there, resolve_keeps objects agent cache)
      ]
    ]
