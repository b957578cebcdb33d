-- ===== src/Interceptor/Discovery.antt =====
-- The replaced entries of the API table in src/interceptor.cc: hsa_executable_symbol_get_info and
-- hsa_queue_create, on the members of the interceptor that lives. What the runtime's own functions
-- answer is a parameter; a status of 0 is HSA_STATUS_SUCCESS. The exceptions that are caught are not modelled.
use omniprobe.Prelude.{
  ◌%◌, ◌^◌, ℕ, ◌+◌, ◌≡◌, refl, Bool, true, List, [], ◌∷◌, Option, none, some, Bytes, if◌then◌else◌,
  ◌==◌, ◌&&◌, not, ap, ◌∙◌, arith, Bool-cases, Option-cases, inl, inr,
}
use omniprobe.Interceptor.Packets.{
  KernelDescriptor, put, State, Runtime, add_queue, add_kernel, or_name,
}

-- The length is a uint32_t.
abbrev pub u32 : ℕ → ℕ
u32 n = n % 2 ^ 32

-- hsa_executable_symbol_info_t, as far as the code names it.
pub data Attribute : Type 0 where
  kernel_object : Attribute
  other_attribute : ℕ → Attribute

-- What the saved hsa_executable_symbol_get_info gives: the status, and what is stored for the caller.
pub record SymbolAnswers : Type 0 where
  pub object_of : ℕ → ℕ × ℕ
  pub other_of : ℕ → ℕ → ℕ × ℕ
  pub name_length_of : ℕ → ℕ × ℕ
  pub name_of : ℕ → ℕ × Bytes
  pub kernarg_size_of : ℕ → ℕ × ℕ
  pub agent_of_symbol : ℕ → ℕ × ℕ

unfoldable pub answer : SymbolAnswers → ℕ → Attribute → ℕ × ℕ
answer api symbol kernel_object = api.object_of symbol
answer api symbol (other_attribute n) = api.other_of symbol n

-- A text in a buffer, up to its end.
unfoldable pub c_string : Bytes → Bytes
c_string [] = []
c_string (c ∷ s) = let rest = c_string s in if c == 0 then [] else c ∷ rest

-- The kernel that a symbol names, once it has a name; `none` is an abort in CHECK_STATUS.
unfoldable pub found_kernel : Runtime → SymbolAnswers → ℕ → ℕ → Bytes → State → Option State
found_kernel rt api symbol object name st =
    if not ((api.kernarg_size_of symbol).0 == 0)
    then none
    else if not ((api.agent_of_symbol symbol).0 == 0)
    then none
    else some (
        add_kernel rt object (c_string name) symbol (api.agent_of_symbol symbol).1
          (api.kernarg_size_of symbol).1 st)

-- `allocates` tells if malloc gives a buffer of the size.
unfoldable pub look_at_symbol :
    Runtime → (ℕ → Bool) → SymbolAnswers → ℕ → Attribute → ℕ → State → Option State
unfolding found_kernel
look_at_symbol rt allocates api symbol (other_attribute n) object st = some st
look_at_symbol rt allocates api symbol kernel_object object st =
    if not ((api.name_length_of symbol).0 == 0)
    then some st
    else if not (allocates (u32 ((api.name_length_of symbol).1 + 1)))
    then some st
    else if not ((api.name_of symbol).0 == 0)
    then some st
    else found_kernel rt api symbol object (api.name_of symbol).1 st

-- The status and the value for the caller, and the members after it.
unfoldable pub hsa_executable_symbol_get_info :
    Runtime → (ℕ → Bool) → SymbolAnswers → ℕ → Attribute → State → Option ((ℕ × ℕ) × State)
unfolding answer look_at_symbol
hsa_executable_symbol_get_info rt allocates api symbol attribute st =
    let result = answer api symbol attribute in
    elim (look_at_symbol rt allocates api symbol attribute result.1 st) [
      | none ↦ none
      | some next ↦ some (result, next)
    ]

-- What the runtime gives for a queue: the status and the queue; and the queues with a callback.
unfoldable pub hsa_queue_create : (ℕ → ℕ × ℕ) → ℕ → State → List ℕ → (ℕ × ℕ) × (State × List ℕ)
hsa_queue_create intercept_create agent st registered =
    let created = intercept_create agent in
    if created.0 == 0
    then (created, (add_queue created.1 agent st, created.1 ∷ registered))
    else (created, (st, registered))

abbrev pub or_kernel : Option KernelDescriptor → KernelDescriptor → KernelDescriptor
or_kernel none kernel = kernel
or_kernel (some registered) kernel = registered

-- The descriptor for the answers about a symbol.
abbrev pub described : Runtime → SymbolAnswers → ℕ → KernelDescriptor
described rt api symbol =
    let name = c_string (api.name_of symbol).1 in
    record {
      name_ = or_name (rt.demangle name) name;
      symbol_ = symbol;
      agent_ = (api.agent_of_symbol symbol).1;
      kernarg_size_ = (api.kernarg_size_of symbol).1;
    }

-- The members but for the kernel objects and the code object cache.
abbrev pub KeepsOthers : State → State → Type 0
KeepsOthers st next =
    (next.sig_pool_ ≡ st.sig_pool_)
    × (next.pending_signals_ ≡ st.pending_signals_)
    × (next.pending_kernargs_ ≡ st.pending_kernargs_)
    × (next.queues_ ≡ st.queues_)
    × (next.effects ≡ st.effects)

abbrev pub AddsKernel : ℕ → KernelDescriptor → State → State → Type 0
AddsKernel object kernel st next =
    ((o : ℕ)
      → next.kernel_objects_ o ≡ (
          if o == object
          then some (or_kernel (st.kernel_objects_ o) kernel)
          else st.kernel_objects_ o))
    × KeepsOthers st next

stays :
    (object : ℕ) (kernel k : KernelDescriptor) (m : ℕ → Option KernelDescriptor)
    → m object ≡ some k
    → (o : ℕ) → m o ≡ (if o == object then some (or_kernel (m o) kernel) else m o)
stays object kernel k m e o = elim (Bool-cases (o == object)) [
  | inl same ↦ let there : m o ≡ some k = ap m (ground (arith, same)) ∙ e in rw (same, there) refl
  | inr other ↦ rw other refl
]

enters :
    (object : ℕ) (kernel : KernelDescriptor) (m : ℕ → Option KernelDescriptor)
    → m object ≡ none
    → (o : ℕ)
    → put object (some kernel) m o ≡ (if o == object then some (or_kernel (m o) kernel) else m o)
enters object kernel m e o = elim (Bool-cases (o == object)) [
  | inl same ↦ let there : m o ≡ none = ap m (ground (arith, same)) ∙ e in rw (same, there) refl
  | inr other ↦ rw other refl
]

add_kernel-AddsKernel :
    (rt : Runtime) (object : ℕ) (name : Bytes) (symbol agent size : ℕ) (st : State)
    → AddsKernel object
        (record {
          name_ = or_name (rt.demangle name) name;
          symbol_ = symbol;
          agent_ = agent;
          kernarg_size_ = size;
        })
        st
        (add_kernel rt object name symbol agent size st)
unfolding add_kernel
add_kernel-AddsKernel rt object name symbol agent size st =
    elim (Option-cases (st.kernel_objects_ object)) [
      | inr (k, e) ↦
          rw (add_kernel, e) (stays object _ k st.kernel_objects_ e, (refl, refl, refl, refl, refl))
      | inl e ↦ elim (Bool-cases (st.run_instrumented_ && not (rt.is_excluded_file object))) [
        | inl b ↦
            rw (add_kernel, e, b)
              (enters object _ st.kernel_objects_ e, (refl, refl, refl, refl, refl))
        | inr b ↦
            rw (add_kernel, e, b)
              (enters object _ st.kernel_objects_ e, (refl, refl, refl, refl, refl))
      ]
    ]

-- When the runtime answers every question about a symbol and malloc gives the buffer for its name, the
-- request for its kernel object gives the caller what the runtime gave, registers under that object
-- the kernel with the demangled name, unless one is registered there already, and changes no
-- other kernel object, signal, queue or effect.
pub hsa_executable_symbol_get_info-AddsKernel :
    (rt : Runtime) (allocates : ℕ → Bool) (api : SymbolAnswers) (symbol : ℕ) (st : State)
    → (api.name_length_of symbol).0 ≡ 0
    → allocates (u32 ((api.name_length_of symbol).1 + 1)) ≡ true
    → (api.name_of symbol).0 ≡ 0
    → (api.kernarg_size_of symbol).0 ≡ 0
    → (api.agent_of_symbol symbol).0 ≡ 0
    → (next : State) × (hsa_executable_symbol_get_info rt allocates api symbol kernel_object st
        ≡ some (api.object_of symbol, next))
      × AddsKernel (api.object_of symbol).1 (described rt api symbol) st next
unfolding hsa_executable_symbol_get_info
hsa_executable_symbol_get_info-AddsKernel rt allocates api symbol st length_ok buffer name_ok
      size_ok agent_ok =
    (
      add_kernel rt (api.object_of symbol).1 (c_string (api.name_of symbol).1) symbol
          (api.agent_of_symbol symbol).1 (api.kernarg_size_of symbol).1 st,
      rw
          (
            hsa_executable_symbol_get_info, look_at_symbol, found_kernel, length_ok, buffer,
            name_ok, size_ok, agent_ok,
          )
          refl,
      add_kernel-AddsKernel rt (api.object_of symbol).1 _ symbol _ _ st,
    )
