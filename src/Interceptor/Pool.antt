-- ===== src/Interceptor/Pool.antt =====
-- The signal pool of hsaInterceptor over a sequence of events.
use omniprobe.Prelude.{
  ℕ, suc, ◌+◌, ◌≡◌, refl, sym, ap, ◌∙◌, not, ◌&&◌, List, [], ◌∷◌, Option, none, some, Bytes,
  if◌then◌else◌, ◌==◌, contains, arith, Option-cases, Bool-cases, inl, inr,
}
use omniprobe.Interceptor.Packets.{
  Packet, AnyPacket, Effect, State, Runtime, Attempt, replenish, fixup_taken, fixup_packet,
  do_packets, signal_completed, add_queue, add_kernel,
}
use omniprobe.Interceptor.Signals.{
  held_in, is_pending, SignalsAreOwned, GivesFresh, IsTaken, fixup_taken-IsTaken,
  replenish-SignalsAreOwned,
}

-- What the handlers are called for.
pub data Event : Type 0 where
  packets : ℕ → List AnyPacket → Event
  completed : ℕ → Event
  queue_created : ℕ → ℕ → Event
  kernel_found : ℕ → Bytes → ℕ → ℕ → ℕ → Event

unfoldable pub handle_event : Runtime → Event → State → Option State
handle_event rt (packets queue ps) st = do_packets rt queue ps st
handle_event rt (completed sig) st = some (signal_completed sig st)
handle_event rt (queue_created queue agent) st = some (add_queue queue agent st)
handle_event rt (kernel_found object name symbol agent size) st =
    some (add_kernel rt object name symbol agent size st)

unfoldable pub run : Runtime → List Event → State → Option State
run rt [] st = some st
run rt (e ∷ es) st = elim (handle_event rt e st) [ none ↦ none | some next ↦ run rt es next ]

abbrev pub AreOwned : Option State → Type 0
AreOwned none = Unit {0}
AreOwned (some st) = SignalsAreOwned st

abbrev pub AreOwnedAfter : Attempt (Packet × State) → Type 0
AreOwnedAfter Attempt.aborted = Unit {0}
AreOwnedAfter (Attempt.thrown left) = SignalsAreOwned left
AreOwnedAfter (Attempt.done (dispatch, st)) = SignalsAreOwned st

taken-AreOwnedAfter :
    (sig : ℕ) (rest : List ℕ) (packet : Packet) (st : State) (result : Attempt (Packet × State))
    → st.sig_pool_ ≡ sig ∷ rest
    → SignalsAreOwned st
    → IsTaken sig rest packet st result
    → AreOwnedAfter result
taken-AreOwnedAfter sig rest packet st Attempt.aborted p h t = tt
taken-AreOwnedAfter sig rest packet st (Attempt.thrown left) p h
      (gone, pool, made, e, same, others) =
    λ g.
      let before : held_in g (sig ∷ rest) + is_pending (st.pending_signals_ g) + held_in g st.lost
          ≡ (if contains st.created g then 1 else 0) =
        ap (λ l. held_in g l + is_pending (st.pending_signals_ g) + held_in g st.lost) (sym p)
        ∙ h g in
      let lost_now : held_in g left.lost ≡ held_in g (sig ∷ st.lost) = ap (held_in g) gone in
      elim (Bool-cases (g == sig)) [
        | inl e ↦
            let one : g ≡ sig = ground arith in
            ground (arith, before, pool, made, same, one, lost_now)
        | inr e ↦ let kept = (others g e).0 in ground (arith, before, pool, made, kept, e, lost_now)
      ]
taken-AreOwnedAfter sig rest packet st (Attempt.done (dispatch, next)) p h t = λ g.
    let before : held_in g (sig ∷ rest) + is_pending (st.pending_signals_ g) + held_in g st.lost
        ≡ (if contains st.created g then 1 else 0) =
      ap (λ l. held_in g l + is_pending (st.pending_signals_ g) + held_in g st.lost) (sym p)
      ∙ h g in
    let pool = t.1 in
    let made = t.2 in
    let there = t.4 in
    let others = t.5 g in
    let lost_now = t.6 in
    elim (Bool-cases (g == sig)) [
      | inl e ↦
          let same : g ≡ sig = ground arith in
          ground (arith, before, pool, made, there, same, lost_now)
      | inr e ↦ let kept = (others e).0 in ground (arith, before, pool, made, kept, e, lost_now)
    ]

pub fixup_packet-AreOwnedAfter :
    (rt : Runtime) (packet : Packet) (queue id : ℕ) (st : State)
    → GivesFresh rt
    → SignalsAreOwned st
    → AreOwnedAfter (fixup_packet rt packet queue id st)
unfolding fixup_packet fixup_taken
fixup_packet-AreOwnedAfter rt packet queue id st f h = go (ready.sig_pool_) refl
  where
    ready : State
    ready = replenish rt st

    go :
        (pool : List ℕ)
        → ready.sig_pool_ ≡ pool
        → AreOwnedAfter (fixup_taken rt (st.queues_ queue) id packet ready pool)
    go [] e = tt
    go (sig ∷ rest) e =
        taken-AreOwnedAfter sig rest packet ready
          (fixup_taken rt (st.queues_ queue) id packet ready (sig ∷ rest)) e
          (replenish-SignalsAreOwned rt st f h)
          (fixup_taken-IsTaken rt (st.queues_ queue) id sig rest packet ready)

pub signal_completed-SignalsAreOwned :
    (sig : ℕ) (st : State) → SignalsAreOwned st → SignalsAreOwned (signal_completed sig st)
unfolding signal_completed
signal_completed-SignalsAreOwned sig st h = elim (Option-cases (st.pending_signals_ sig)) [
  | inl e ↦ rw (signal_completed, e) h
  | inr (ki, e) ↦
      rw (signal_completed, e)
        (λ g.
          let own = h g in
          elim (Bool-cases (g == sig)) [
            | inl s ↦ let same : g ≡ sig = ground arith in ground (arith, own, e, same)
            | inr s ↦ ground (arith, own, s)
          ])
]

after_dispatch :
    (result : Attempt (Packet × State)) (go_on : Packet → State → Option State)
    → AreOwnedAfter result
    → ((dispatch : Packet) (next : State) → SignalsAreOwned next → AreOwned (go_on dispatch next))
    → AreOwned (elim result [
      | Attempt.aborted ↦ none
      | Attempt.thrown left ↦ some left
      | Attempt.done (dispatch, next) ↦ go_on dispatch next
    ])
after_dispatch Attempt.aborted go_on a k = tt
after_dispatch (Attempt.thrown left) go_on a k = a
after_dispatch (Attempt.done (dispatch, next)) go_on a k = k dispatch next a

after_event :
    (result : Option State) (go_on : State → Option State)
    → AreOwned result
    → ((next : State) → SignalsAreOwned next → AreOwned (go_on next))
    → AreOwned (elim result [ none ↦ none | some next ↦ go_on next ])
after_event none go_on a k = tt
after_event (some next) go_on a k = k next a

do_packets-AreOwned :
    (rt : Runtime) (queue : ℕ) (ps : List AnyPacket) (st : State)
    → GivesFresh rt
    → SignalsAreOwned st
    → AreOwned (do_packets rt queue ps st)
unfolding do_packets
do_packets-AreOwned rt queue [] st f h = h
do_packets-AreOwned rt queue (AnyPacket.other_packet bytes ∷ rest) st f h =
    do_packets-AreOwned rt queue rest
      (record st { effects = Effect.write_other bytes ∷ st.effects }) f h
do_packets-AreOwned rt queue (AnyPacket.kernel_dispatch packet ∷ rest) st f h =
    let id = suc st.dispatch_count_ in
    after_dispatch (fixup_packet rt packet queue id (record st { dispatch_count_ = id }))
      (λ dispatch next.
        do_packets rt queue rest
          (record next { effects = Effect.write_dispatch dispatch ∷ next.effects }))
      (fixup_packet-AreOwnedAfter rt packet queue id (record st { dispatch_count_ = id }) f h)
      (λ dispatch next a.
        do_packets-AreOwned rt queue rest
          (record next { effects = Effect.write_dispatch dispatch ∷ next.effects }) f a)

add_kernel-SignalsAreOwned :
    (rt : Runtime) (object : ℕ) (name : Bytes) (symbol agent size : ℕ) (st : State)
    → SignalsAreOwned st
    → SignalsAreOwned (add_kernel rt object name symbol agent size st)
unfolding add_kernel
add_kernel-SignalsAreOwned rt object name symbol agent size st h =
    elim (Option-cases (st.kernel_objects_ object)) [
      | inr (k, e) ↦ rw (add_kernel, e) h
      | inl e ↦ elim (Bool-cases (st.run_instrumented_ && not (rt.is_excluded_file object))) [
        | inl b ↦ rw (add_kernel, e, b) h
        | inr b ↦ rw (add_kernel, e, b) h
      ]
    ]

pub handle_event-AreOwned :
    (rt : Runtime) (e : Event) (st : State)
    → GivesFresh rt
    → SignalsAreOwned st
    → AreOwned (handle_event rt e st)
unfolding handle_event add_queue
handle_event-AreOwned rt (packets queue ps) st f h = do_packets-AreOwned rt queue ps st f h
handle_event-AreOwned rt (completed sig) st f h = signal_completed-SignalsAreOwned sig st h
handle_event-AreOwned rt (queue_created queue agent) st f h = h
handle_event-AreOwned rt (kernel_found object name symbol agent size) st f h =
    add_kernel-SignalsAreOwned rt object name symbol agent size st h

-- With a runtime whose new signals are fresh, and from a state in which each created signal is at
-- exactly one place, once in the pool or pending or lost, every sequence of events that does not abort
-- leaves it so. Lost are the signals whose fixupPacket threw an exception, which doPackets catches.
pub run-AreOwned :
    (rt : Runtime) (es : List Event) (st : State)
    → GivesFresh rt
    → SignalsAreOwned st
    → AreOwned (run rt es st)
unfolding run
run-AreOwned rt [] st f h = h
run-AreOwned rt (e ∷ es) st f h =
    after_event (handle_event rt e st) (run rt es) (handle_event-AreOwned rt e st f h)
      (λ next a. run-AreOwned rt es next f a)
