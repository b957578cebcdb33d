-- ===== src/Interceptor/Signals.antt =====
-- Who owns a completion signal: the pool, or a dispatch that is pending.
use omniprobe.Prelude.{
  ℕ, zero, suc, ◌+◌, ◌≡◌, refl, ap, false, not, List, [], ◌∷◌, Option, none, some, if◌then◌else◌,
  ◌==◌, contains, arith, Option-cases, Bool-cases, inl, inr,
}
use omniprobe.Interceptor.KernArgs.{ArgDescriptor, fixup_kern_args}
use omniprobe.Interceptor.Dispatches.{can_dispatch}
use omniprobe.Interceptor.Cache.{
  Cache, has_kernels, get_arg_size, get_arg_descriptor, find_alternative,
  find_instrumented_alternative,
}
use omniprobe.Interceptor.Packets.{
  KernelInfo, KernelDescriptor, Packet, State, Runtime, Stage, Attempt, unless_thrown, or_abort,
  with_comms, tracked, grow, replenish, instrument, choose_kernel, rewrite, track, fixup_taken,
}

-- The places that hold a signal.
abbrev pub held_in : ℕ → List ℕ → ℕ
held_in g [] = 0
held_in g (x ∷ xs) = (if x == g then 1 else 0) + held_in g xs

abbrev pub is_pending : Option KernelInfo → ℕ
is_pending none = 0
is_pending (some ki) = 1

-- A signal that the runtime created is at one place: once in the pool, or pending, or lost once by an
-- exception. Another is nowhere.
abbrev pub SignalsAreOwned : State → Type 0
SignalsAreOwned st =
    (g : ℕ)
    → held_in g st.sig_pool_ + is_pending (st.pending_signals_ g) + held_in g st.lost
      ≡ (if contains st.created g then 1 else 0)

-- hsa_signal_create gives a handle that it has not given before.
abbrev pub GivesFresh : Runtime → Type 0
GivesFresh rt = (created : List ℕ) → contains created (rt.create_signal created) ≡ false

-- What a step that takes no signal leaves as it is, but for the kernarg segment of `sig`.
abbrev pub Keeps : ℕ → State → State → Type 0
Keeps sig st next =
    (next.sig_pool_ ≡ st.sig_pool_)
    × (next.created ≡ st.created)
    × (next.pending_signals_ ≡ st.pending_signals_)
    × (next.effects ≡ st.effects)
    × (next.lost ≡ st.lost)
    × ((g : ℕ) → (g == sig) ≡ false → next.pending_kernargs_ g ≡ st.pending_kernargs_ g)

abbrev KeepsAll : ℕ → State → Packet → Attempt (Packet × (Option ℕ × State)) → Type 0
KeepsAll sig st packet Attempt.aborted = Unit {0}
KeepsAll sig st packet (Attempt.thrown left) = Keeps sig st left
KeepsAll sig st packet (Attempt.done (dispatch, (comms, next))) =
    Keeps sig st next × (dispatch.completion_signal ≡ packet.completion_signal)

-- A state with only another cache.
abbrev SameButCache : State → State → Type 0
SameButCache st next =
    (next.sig_pool_ ≡ st.sig_pool_)
    × (next.created ≡ st.created)
    × (next.pending_signals_ ≡ st.pending_signals_)
    × (next.effects ≡ st.effects)
    × (next.lost ≡ st.lost)
    × (next.pending_kernargs_ ≡ st.pending_kernargs_)

unless_thrown-KeepsAll :
    (sig : ℕ) (packet : Packet) (o : Option Cache) (st now : State)
    (more : Attempt (Packet × (Option ℕ × State)))
    → SameButCache st now
    → KeepsAll sig st packet more
    → KeepsAll sig st packet (unless_thrown o now more)
unless_thrown-KeepsAll sig packet none st now more same h = h
unless_thrown-KeepsAll sig packet (some cache) st now more same h =
    (same.0, same.1, same.2, same.3, same.4, λ g e. ap (λ m. m g) same.5)

with_comms-KeepsAll :
    (rt : Runtime) (sig : ℕ) (args : ArgDescriptor) (object : ℕ) (packet : Packet) (buffer : ℕ)
    (st now : State) (o : Option ℕ)
    → SameButCache st now
    → KeepsAll sig st packet (with_comms rt sig args object packet buffer now o)
unfolding with_comms
with_comms-KeepsAll rt sig args object packet buffer st now none same = tt
with_comms-KeepsAll rt sig args object packet buffer st now (some comms) same =
    elim (Option-cases
      (fixup_kern_args (now.memory packet.kernarg_address) (rt.dev_rsrc_ptr comms) args)) [
        | inl f ↦ rw (with_comms, f) tt
        | inr (segment, f) ↦
            rw (with_comms, f)
              (
                (
                  same.0,
                  same.1,
                  same.2,
                  same.3,
                  same.4,
                  λ g h. ground (arith, h, ap (λ (m : ℕ → Option ℕ). m g) same.5),
                ),
                refl,
              )
      ]

or_abort-KeepsAll :
    {A : Type 0} (sig : ℕ) (packet : Packet) (st : State) (o : Option A)
    (more : A → Attempt (Packet × (Option ℕ × State)))
    → ((a : A) → KeepsAll sig st packet (more a))
    → KeepsAll sig st packet (or_abort o more)
or_abort-KeepsAll sig packet st none more h = tt
or_abort-KeepsAll sig packet st (some a) more h = h a

instrument-KeepsAll :
    (rt : Runtime) (agent sig id : ℕ) (kernel : KernelDescriptor) (object : ℕ) (packet : Packet)
    (st : State)
    → KeepsAll sig st packet (instrument rt agent sig id kernel object packet st)
unfolding instrument
instrument-KeepsAll rt agent sig id kernel object packet st =
    let asked =
      get_arg_descriptor rt.resolve agent kernel.name_ st.run_instrumented_ st.kernel_cache_ in
    let described : State = record st { kernel_cache_ = asked.1 } in
    unless_thrown-KeepsAll sig packet (rt.throws st Stage.describing) st st _
      (refl, refl, refl, refl, refl, refl)
      (or_abort-KeepsAll sig packet st (asked.0) _ (λ args.
        unless_thrown-KeepsAll sig packet (rt.throws described Stage.preparing) st described _
          (refl, refl, refl, refl, refl, refl)
          (with_comms-KeepsAll rt sig args object packet (rt.allocate st args.kernarg_length agent)
            st described (rt.checkout_comms st agent kernel.name_ id)
            (refl, refl, refl, refl, refl, refl))))

-- A change of the cache and the dispatcher alone.
choose_kernel-KeepsAll :
    (rt : Runtime) (agent sig id : ℕ) (kernel : KernelDescriptor) (packet : Packet) (st : State)
    → KeepsAll sig st packet (choose_kernel rt agent sig id kernel packet st)
unfolding choose_kernel
choose_kernel-KeepsAll rt agent sig id kernel packet st =
    let found : ℕ × Cache =
      if st.run_instrumented_
      then find_instrumented_alternative rt.symbols rt.agent_of kernel.symbol_ kernel.name_ agent
          st.kernel_cache_
      else find_alternative rt.symbols (rt.agent_of kernel.symbol_) kernel.name_ st.kernel_cache_ in
    let asked = can_dispatch (rt.draw st) found.0 st.dispatcher_ in
    let counted : State = record st { kernel_cache_ = found.1; dispatcher_ = asked.1 } in
    unless_thrown-KeepsAll sig packet (rt.throws st Stage.searching) st st _
      (refl, refl, refl, refl, refl, refl)
      (elim (Bool-cases (found.0 == 0)) [
        | inl a ↦ rw (a) ((refl, refl, refl, refl, refl, λ g h. refl), refl)
        | inr a ↦ elim (Bool-cases (not st.run_instrumented_)) [
          | inl b ↦ rw (a, b) ((refl, refl, refl, refl, refl, λ g h. refl), refl)
          | inr b ↦ elim (Bool-cases (not asked.0)) [
            | inl c ↦ rw (a, b, c) ((refl, refl, refl, refl, refl, λ g h. refl), refl)
            | inr c ↦ elim (Bool-cases (get_arg_size found.0 found.1 == 0)) [
              | inl d ↦ rw (a, b, c, d) tt
              | inr d ↦
                  rw (a, b, c, d)
                    (instrument-KeepsAll rt agent sig id kernel found.0 packet counted)
            ]
          ]
        ]
      ])

rewrite-KeepsAll :
    (rt : Runtime) (agent sig id : ℕ) (packet : Packet) (st : State)
    → KeepsAll sig st packet (rewrite rt agent sig id packet st)
unfolding rewrite
rewrite-KeepsAll rt agent sig id packet st =
    elim (Bool-cases (not (has_kernels st.kernel_cache_ agent))) [
      | inl a ↦ rw (rewrite, a) ((refl, refl, refl, refl, refl, λ g h. refl), refl)
      | inr a ↦ elim (Option-cases (st.kernel_objects_ packet.kernel_object)) [
        | inl b ↦ rw (rewrite, a, b) ((refl, refl, refl, refl, refl, λ g h. refl), refl)
        | inr (kernel, b) ↦
            rw (rewrite, a, b) (choose_kernel-KeepsAll rt agent sig id kernel packet st)
      ]
    ]

-- The entries of the other signals are the same.
abbrev pub OthersStay : ℕ → State → State → Type 0
OthersStay sig st next =
    (g : ℕ)
    → (g == sig) ≡ false
    → (next.pending_signals_ g ≡ st.pending_signals_ g)
      × (next.pending_kernargs_ g ≡ st.pending_kernargs_ g)

-- What fixupPacket does with the signal that it takes from the pool.
abbrev pub IsTaken : ℕ → List ℕ → Packet → State → Attempt (Packet × State) → Type 0
IsTaken sig rest packet st Attempt.aborted = Unit {0}
IsTaken sig rest packet st (Attempt.thrown left) =
    (left.lost ≡ sig ∷ st.lost)
    × (left.sig_pool_ ≡ rest)
    × (left.created ≡ st.created)
    × (left.effects ≡ st.effects)
    × (left.pending_signals_ sig ≡ st.pending_signals_ sig)
    × OthersStay sig st left
IsTaken sig rest packet st (Attempt.done (dispatch, next)) =
    (dispatch.completion_signal ≡ sig)
    × (next.sig_pool_ ≡ rest)
    × (next.created ≡ st.created)
    × (next.effects ≡ st.effects)
    × (is_pending (next.pending_signals_ sig) ≡ 1)
    × OthersStay sig st next
    × (next.lost ≡ st.lost)

tracked-IsTaken :
    (sig agent : ℕ) (rest : List ℕ) (packet : Packet) (st : State)
    (result : Attempt (Packet × (Option ℕ × State)))
    → KeepsAll sig (record st { sig_pool_ = rest }) packet result
    → IsTaken sig rest packet st (tracked sig agent packet result)
unfolding track
tracked-IsTaken sig agent rest packet st Attempt.aborted k = tt
tracked-IsTaken sig agent rest packet st (Attempt.thrown left) k = (
  ap (λ l. sig ∷ l) k.4,
  k.0,
  k.1,
  k.3,
  ap (λ (m : ℕ → Option KernelInfo). m sig) k.2,
  λ g h. (ap (λ (m : ℕ → Option KernelInfo). m g) k.2, k.5 g h),
)
tracked-IsTaken sig agent rest packet st (Attempt.done (dispatch, (comms, next))) (k, c) =
    (refl, k.0, k.1, k.3, ground arith, λ g h. (ground (arith, k.2), k.5 g h), k.4)

pub fixup_taken-IsTaken :
    (rt : Runtime) (agent id sig : ℕ) (rest : List ℕ) (packet : Packet) (st : State)
    → IsTaken sig rest packet st (fixup_taken rt agent id packet st (sig ∷ rest))
unfolding fixup_taken
fixup_taken-IsTaken rt agent id sig rest packet st =
    tracked-IsTaken sig agent rest packet st
      (rewrite rt agent sig id packet (record st { sig_pool_ = rest }))
      (rewrite-KeepsAll rt agent sig id packet (record st { sig_pool_ = rest }))

grow-SignalsAreOwned :
    (rt : Runtime) (n : ℕ) (st : State)
    → GivesFresh rt
    → SignalsAreOwned st
    → SignalsAreOwned (grow rt n st)
unfolding grow
grow-SignalsAreOwned rt zero st f h = h
grow-SignalsAreOwned rt (suc n) st f h =
    let sig = rt.create_signal st.created in
    let more : State = record st { sig_pool_ = sig ∷ st.sig_pool_; created = sig ∷ st.created } in
    grow-SignalsAreOwned rt n more f (λ g. ground (arith, h g, f st.created))

pub replenish-SignalsAreOwned :
    (rt : Runtime) (st : State)
    → GivesFresh rt
    → SignalsAreOwned st
    → SignalsAreOwned (replenish rt st)
unfolding replenish
replenish-SignalsAreOwned rt st f h = go (st.sig_pool_)
  where
    go : (pool : List ℕ) → SignalsAreOwned (elim pool [ [] ↦ grow rt 8 st | sig ∷ rest ↦ st ])
    go [] = grow-SignalsAreOwned rt 8 st f h
    go (sig ∷ rest) = h
