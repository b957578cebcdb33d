-- ===== src/Interceptor/Cache.antt =====
-- coCache of src/utils.cc, the lookups: which alternative kernel, argument descriptor and code object
-- the cache has for a kernel. An HSA handle is its number; the queries of the HSA runtime are parameters,
-- and so is resolveRuntimeArgDescriptors, which Interceptor/Resolution models.
use omniprobe.Prelude.{
  ℕ, ◌+◌, ◌-◌, ◌≡◌, refl, Bool, true, false, not, List, [], Option, none, some, Bytes,
  if◌then◌else◌, ◌==◌, u64, two64,
}
use omniprobe.Prelude.Maps.{text_key, nat_key, assign, lookup, upsert, lookup-upsert_self}
use omniprobe.Interceptor.Names.{get_instrumented_name}
use omniprobe.Interceptor.KernArgs.{ArgDescriptor}

pub record CodeObjectRef : Type 0 where
  pub source_file : Bytes
  pub co_file : Bytes
  pub mangled_name : Bytes

-- The maps of coCache that the lookups use.
pub record Cache : Type 0 where
  pub lookup_map : List (ℕ × List (Bytes × ℕ))
  pub arg_map : List (ℕ × List (Bytes × ArgDescriptor))
  pub alternatives : List (ℕ × List (ℕ × ℕ))
  pub kernarg_sizes : List (ℕ × ℕ)
  pub kernel_co_map : List (ℕ × List (Bytes × CodeObjectRef))
  pub runtime_kernel_objects : List (ℕ × List (Bytes × ℕ))

-- What hsa_executable_symbol_get_info says of a symbol; a failure aborts the program.
pub record Symbols : Type 0 where
  pub kernarg_segment_size : ℕ → ℕ
  pub kernel_object : ℕ → ℕ

-- The entry of a map in a map, `m[a][b]`, if both are there.
abbrev pub lookup_in : {V : Type 0} → ℕ → Bytes → List (ℕ × List (Bytes × V)) → Option V
lookup_in agent name m = elim (lookup agent m) [ none ↦ none | some inner ↦ lookup name inner ]

abbrev pub or_empty : {V : Type 0} → Option (List V) → List V
or_empty none = []
or_empty (some inner) = inner

-- `m[a][b] = v`.
abbrev pub assign_in :
    {V : Type 0} → ℕ → Bytes → V → List (ℕ × List (Bytes × V)) → List (ℕ × List (Bytes × V))
assign_in agent name v = upsert agent (λ inner. assign name v (or_empty inner))

unfoldable pub has_kernels : Cache → ℕ → Bool
has_kernels cache agent = elim (lookup agent cache.lookup_map) [ none ↦ false | some inner ↦ true ]

unfoldable pub register_runtime_kernel : Bytes → ℕ → ℕ → ℕ → ℕ → Cache → Cache
register_runtime_kernel name symbol kernel_object agent kernarg_size cache =
    elim (lookup_in agent name cache.lookup_map) [
      | some registered ↦ cache
      | none ↦ record cache {
        lookup_map = assign_in agent name symbol cache.lookup_map;
        kernarg_sizes = assign kernel_object kernarg_size cache.kernarg_sizes;
        runtime_kernel_objects = assign_in agent name kernel_object cache.runtime_kernel_objects;
      }
    ]

unfoldable pub get_arg_size : ℕ → Cache → ℕ
get_arg_size kernel_object cache = elim (lookup kernel_object cache.kernarg_sizes) [
  | none ↦ 0
  | some size ↦ size
]

unfoldable pub get_code_object_ref : ℕ → Bytes → Cache → Option CodeObjectRef
get_code_object_ref agent name cache = lookup_in agent name cache.kernel_co_map

-- The bytes behind the explicit arguments of the original kernel, if it has hidden arguments.
unfoldable pub clone_hidden_length : Option ArgDescriptor → ℕ
clone_hidden_length none = 0
clone_hidden_length (some clone) =
    if clone.hidden_args_length == 0
    then 0
    else u64 (clone.kernarg_length + (two64 - clone.explicit_args_length))

-- One attempt of getArgDescriptor.
unfoldable pub find_arg_descriptor : ℕ → Bytes → Bool → Cache → Option ArgDescriptor
unfolding clone_hidden_length
find_arg_descriptor agent name instrumented cache =
    let wanted = if instrumented then get_instrumented_name name else name in
    let hidden =
      if instrumented then clone_hidden_length (lookup_in agent name cache.arg_map) else 0 in
    elim (lookup_in agent wanted cache.arg_map) [
      | none ↦ none
      | some desc ↦ some (record desc { clone_hidden_args_length = hidden })
    ]

-- getArgDescriptor; `resolve` fills in the descriptors of loaded code objects, and says if it did.
unfoldable pub get_arg_descriptor :
    (ℕ → Cache → Bool × Cache) → ℕ → Bytes → Bool → Cache → Option ArgDescriptor × Cache
unfolding find_arg_descriptor
get_arg_descriptor resolve agent name instrumented cache =
    elim (find_arg_descriptor agent name instrumented cache) [
      | some desc ↦ (some desc, cache)
      | none ↦
          let resolved = resolve agent cache in
          if resolved.0
          then (find_arg_descriptor agent name instrumented resolved.1, resolved.1)
          else (none, resolved.1)
    ]

-- findAlternative: the kernel object registered for a name, or 0. The agent is the symbol's.
unfoldable pub find_alternative : Symbols → ℕ → Bytes → Cache → ℕ × Cache
find_alternative symbols agent name cache = elim (lookup_in agent name cache.lookup_map) [
  | none ↦ (0, cache)
  | some alternative ↦
      let object = symbols.kernel_object alternative in
      elim (lookup object cache.kernarg_sizes) [
        | some size ↦ (object, cache)
        | none ↦ (
          object,
          record cache {
            kernarg_sizes =
                assign object (symbols.kernarg_segment_size alternative) cache.kernarg_sizes;
          },
        )
      ]
]

-- findInstrumentedAlternative, with the symbol's agent and the queue's.
unfoldable pub find_instrumented_alternative : Symbols → (ℕ → ℕ) → ℕ → Bytes → ℕ → Cache → ℕ × Cache
unfolding find_alternative
find_instrumented_alternative symbols agent_of symbol name queue_agent cache =
    let known = lookup queue_agent cache.alternatives in
    let result : ℕ = elim known [
      | none ↦ 0
      | some inner ↦ elim (lookup symbol inner) [ none ↦ 0 | some object ↦ object ]
    ] in
    let opened : Cache = elim known [
      | some inner ↦ cache
      | none ↦ record cache { alternatives = assign queue_agent [] cache.alternatives }
    ] in
    let found = find_alternative symbols (agent_of symbol) (get_instrumented_name name) opened in
    if not (result == 0) then (result, opened) else if found.0 == 0 then found else (
      found.0,
      record (found.1) {
        alternatives =
            upsert queue_agent (λ inner. assign symbol found.0 (or_empty inner))
              found.1.alternatives;
      },
    )

pub lookup_in-assign_in :
    {V : Type 0} (agent : ℕ) (name : Bytes) (v : V) (m : List (ℕ × List (Bytes × V)))
    → lookup_in agent name (assign_in agent name v m) ≡ some v
lookup_in-assign_in agent name v m =
    rw (lookup_in, lookup-upsert_self agent (λ inner. assign name v (or_empty inner)) m)
      (lookup-upsert_self name (λ old. v) (or_empty (lookup agent m)))

-- After a kernel is registered under a new name with the kernel object of its symbol, the search
-- by that name finds that object, and the size that was registered for the object is its argument
-- size.
find_alternative-register_runtime_kernel :
    (symbols : Symbols) (name : Bytes) (symbol agent kernarg_size : ℕ) (cache : Cache)
    → lookup_in agent name cache.lookup_map ≡ none
    → ((find_alternative symbols agent name (
          register_runtime_kernel name symbol
            (symbols.kernel_object symbol)
            agent
            kernarg_size
            cache)).0
        ≡ symbols.kernel_object symbol)
      × (get_arg_size
            (symbols.kernel_object symbol)
            (find_alternative symbols agent name (
              register_runtime_kernel name symbol
                (symbols.kernel_object symbol)
                agent
                kernarg_size
                cache)).1
          ≡ kernarg_size)
unfolding find_alternative register_runtime_kernel get_arg_size
find_alternative-register_runtime_kernel symbols name symbol agent kernarg_size cache h =
    let there = lookup_in-assign_in agent name symbol cache.lookup_map in
    let sized =
      lookup-upsert_self (symbols.kernel_object symbol) (λ old. kernarg_size) cache.kernarg_sizes in
    let registered : Cache = record cache {
      lookup_map = assign_in agent name symbol cache.lookup_map;
      kernarg_sizes = assign (symbols.kernel_object symbol) kernarg_size cache.kernarg_sizes;
      runtime_kernel_objects =
          assign_in agent name (symbols.kernel_object symbol) cache.runtime_kernel_objects;
    } in
    let same : register_runtime_kernel name symbol (symbols.kernel_object symbol) agent kernarg_size
          cache
        ≡ registered =
      rw (register_runtime_kernel, h) refl in
    let found : find_alternative symbols agent name registered
        ≡ (symbols.kernel_object symbol, registered) =
      rw (find_alternative, there, sized) refl in
    (rw (same, found) refl, rw (same, found, get_arg_size, sized) refl)
