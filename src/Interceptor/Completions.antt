-- ===== src/Interceptor/Completions.antt =====
-- What the completion of a dispatch gives back, whatever happened since the dispatch.
use omniprobe.Prelude.{
  ℕ, zero, suc, ◌+◌, ◌≡◌, refl, sym, ap, ◌∙◌, Bool, true, false, not, ◌&&◌, List, [], ◌∷◌, Option,
  none, some, Bytes, if◌then◌else◌, ◌==◌, contains, arith, Option-cases, Bool-cases, inl, inr, all,
}
use omniprobe.Interceptor.Packets.{
  Packet, AnyPacket, Effect, State, Runtime, Attempt, grow, replenish, fixup_taken, fixup_packet,
  do_packets, signal_completed, add_queue, add_kernel,
}
use omniprobe.Interceptor.Signals.{
  held_in, is_pending, SignalsAreOwned, GivesFresh, IsTaken, fixup_taken-IsTaken,
  replenish-SignalsAreOwned,
}
use omniprobe.Interceptor.Pool.{
  Event, handle_event, run, AreOwned, AreOwnedAfter, fixup_packet-AreOwnedAfter,
  handle_event-AreOwned,
}

-- The entries of a signal are the same before and after.
abbrev pub SameEntries : ℕ → State → State → Type 0
SameEntries g st next =
    (next.pending_signals_ g ≡ st.pending_signals_ g)
    × (next.pending_kernargs_ g ≡ st.pending_kernargs_ g)

abbrev pub Stays : ℕ → State → Option State → Type 0
Stays g st none = Unit {0}
Stays g st (some next) = SameEntries g st next

abbrev StaysAfter : ℕ → State → Attempt (Packet × State) → Type 0
StaysAfter g st Attempt.aborted = Unit {0}
StaysAfter g st (Attempt.thrown left) = SameEntries g st left
StaysAfter g st (Attempt.done (dispatch, next)) = SameEntries g st next

same_trans : (g : ℕ) (a b c : State) → SameEntries g a b → SameEntries g b c → SameEntries g a c
same_trans g a b c h k = (k.0 ∙ h.0, k.1 ∙ h.1)

grow-SameEntries : (rt : Runtime) (n g : ℕ) (st : State) → SameEntries g st (grow rt n st)
unfolding grow
grow-SameEntries rt zero g st = (refl, refl)
grow-SameEntries rt (suc n) g st =
    let sig = rt.create_signal st.created in
    grow-SameEntries rt n g
      (record st { sig_pool_ = sig ∷ st.sig_pool_; created = sig ∷ st.created })

replenish-SameEntries : (rt : Runtime) (g : ℕ) (st : State) → SameEntries g st (replenish rt st)
unfolding replenish
replenish-SameEntries rt g st = go (st.sig_pool_)
  where
    go : (pool : List ℕ) → SameEntries g st (elim pool [ [] ↦ grow rt 8 st | sig ∷ rest ↦ st ])
    go [] = grow-SameEntries rt 8 g st
    go (sig ∷ rest) = (refl, refl)

taken-StaysAfter :
    (g sig : ℕ) (rest : List ℕ) (packet : Packet) (st : State) (result : Attempt (Packet × State))
    → (g == sig) ≡ false
    → IsTaken sig rest packet st result
    → StaysAfter g st result
taken-StaysAfter g sig rest packet st Attempt.aborted e t = tt
taken-StaysAfter g sig rest packet st (Attempt.thrown left) e t = t.5 g e
taken-StaysAfter g sig rest packet st (Attempt.done (dispatch, next)) e t = t.5 g e

not_taken :
    (g sig : ℕ) (rest : List ℕ) (pending lost : ℕ) (made : Bool)
    → held_in g (sig ∷ rest) + pending + lost ≡ (if made then 1 else 0)
    → pending ≡ 1
    → (g == sig) ≡ false
not_taken g sig rest pending lost made own there = ground (arith, own, there)

trans_after :
    (g : ℕ) (st ready : State) (result : Attempt (Packet × State))
    → SameEntries g st ready
    → StaysAfter g ready result
    → StaysAfter g st result
trans_after g st ready Attempt.aborted s t = tt
trans_after g st ready (Attempt.thrown left) s t = same_trans g st ready left s t
trans_after g st ready (Attempt.done (dispatch, next)) s t = same_trans g st ready next s t

trans_Stays :
    (g : ℕ) (st next : State) (result : Option State)
    → SameEntries g st next
    → Stays g next result
    → Stays g st result
trans_Stays g st next none s t = tt
trans_Stays g st next (some last) s t = same_trans g st next last s t

-- A pending signal is not in the pool, so it is not the one that is taken.
fixup_packet-StaysAfter :
    (rt : Runtime) (packet : Packet) (queue id g : ℕ) (st : State)
    → GivesFresh rt
    → SignalsAreOwned st
    → is_pending (st.pending_signals_ g) ≡ 1
    → StaysAfter g st (fixup_packet rt packet queue id st)
unfolding fixup_packet fixup_taken
fixup_packet-StaysAfter rt packet queue id g st f h p = go (ready.sig_pool_) refl
  where
    ready : State
    ready = replenish rt st

    go :
        (pool : List ℕ)
        → ready.sig_pool_ ≡ pool
        → StaysAfter g st (fixup_taken rt (st.queues_ queue) id packet ready pool)
    go [] e = tt
    go (sig ∷ rest) e =
        let kept = replenish-SameEntries rt g st in
        let own : held_in g (sig ∷ rest)
              + is_pending (ready.pending_signals_ g)
              + held_in g ready.lost
            ≡ (if contains ready.created g then 1 else 0) =
          ap (λ l. held_in g l + is_pending (ready.pending_signals_ g) + held_in g ready.lost)
            (sym e)
          ∙ replenish-SignalsAreOwned rt st f h g in
        let there : is_pending (ready.pending_signals_ g) ≡ 1 = ap is_pending kept.0 ∙ p in
        let result = fixup_taken rt (st.queues_ queue) id packet ready (sig ∷ rest) in
        trans_after g st ready result kept (
          taken-StaysAfter g sig rest packet ready result
            (not_taken g sig rest (is_pending (ready.pending_signals_ g)) (held_in g ready.lost)
              (contains ready.created g) own there)
            (fixup_taken-IsTaken rt (st.queues_ queue) id sig rest packet ready))

after_packet :
    (g : ℕ) (st : State) (result : Attempt (Packet × State)) (go_on : Packet → State → Option State)
    → StaysAfter g st result
    → AreOwnedAfter result
    → ((dispatch : Packet) (next : State)
        → SignalsAreOwned next
        → SameEntries g st next
        → Stays g next (go_on dispatch next))
    → Stays g st (elim result [
      | Attempt.aborted ↦ none
      | Attempt.thrown left ↦ some left
      | Attempt.done (dispatch, next) ↦ go_on dispatch next
    ])
after_packet g st Attempt.aborted go_on a o k = tt
after_packet g st (Attempt.thrown left) go_on a o k = a
after_packet g st (Attempt.done (dispatch, next)) go_on a o k =
    trans_Stays g st next (go_on dispatch next) a (k dispatch next o a)

do_packets-Stays :
    (rt : Runtime) (queue g : ℕ) (ps : List AnyPacket) (st : State)
    → GivesFresh rt
    → SignalsAreOwned st
    → is_pending (st.pending_signals_ g) ≡ 1
    → Stays g st (do_packets rt queue ps st)
unfolding do_packets
do_packets-Stays rt queue g [] st f h p = (refl, refl)
do_packets-Stays rt queue g (AnyPacket.other_packet bytes ∷ rest) st f h p =
    do_packets-Stays rt queue g rest (record st { effects = Effect.write_other bytes ∷ st.effects })
      f h p
do_packets-Stays rt queue g (AnyPacket.kernel_dispatch packet ∷ rest) st f h p =
    let id = suc st.dispatch_count_ in
    let counted : State = record st { dispatch_count_ = id } in
    after_packet g st (fixup_packet rt packet queue id counted)
      (λ dispatch next.
        do_packets rt queue rest
          (record next { effects = Effect.write_dispatch dispatch ∷ next.effects }))
      (fixup_packet-StaysAfter rt packet queue id g counted f h p)
      (fixup_packet-AreOwnedAfter rt packet queue id counted f h)
      (λ dispatch next o s.
        do_packets-Stays rt queue g rest
          (record next { effects = Effect.write_dispatch dispatch ∷ next.effects }) f o
          (ap is_pending s.0 ∙ p))

-- The event is not the completion of the signal.
abbrev pub leaves : ℕ → Event → Bool
leaves g (Event.completed sig) = not (sig == g)
leaves g (Event.packets queue ps) = true
leaves g (Event.queue_created queue agent) = true
leaves g (Event.kernel_found object name symbol agent size) = true

completed-SameEntries :
    (g sig : ℕ) (st : State) → (g == sig) ≡ false → SameEntries g st (signal_completed sig st)
unfolding signal_completed
completed-SameEntries g sig st e = elim (Option-cases (st.pending_signals_ sig)) [
  | inl n ↦ rw (signal_completed, n) (refl, refl)
  | inr (ki, n) ↦ rw (signal_completed, n) (rw e refl, rw e refl)
]

add_kernel-SameEntries :
    (rt : Runtime) (object : ℕ) (name : Bytes) (symbol agent size g : ℕ) (st : State)
    → SameEntries g st (add_kernel rt object name symbol agent size st)
unfolding add_kernel
add_kernel-SameEntries rt object name symbol agent size g st =
    elim (Option-cases (st.kernel_objects_ object)) [
      | inr (k, e) ↦ rw (add_kernel, e) (refl, refl)
      | inl e ↦ elim (Bool-cases (st.run_instrumented_ && not (rt.is_excluded_file object))) [
        | inl b ↦ rw (add_kernel, e, b) (refl, refl)
        | inr b ↦ rw (add_kernel, e, b) (refl, refl)
      ]
    ]

handle_event-Stays :
    (rt : Runtime) (e : Event) (g : ℕ) (st : State)
    → GivesFresh rt
    → SignalsAreOwned st
    → is_pending (st.pending_signals_ g) ≡ 1
    → leaves g e ≡ true
    → Stays g st (handle_event rt e st)
unfolding handle_event add_queue
handle_event-Stays rt (Event.packets queue ps) g st f h p l =
    do_packets-Stays rt queue g ps st f h p
handle_event-Stays rt (Event.completed sig) g st f h p l =
    completed-SameEntries g sig st (ground (arith, l))
handle_event-Stays rt (Event.queue_created queue agent) g st f h p l = (refl, refl)
handle_event-Stays rt (Event.kernel_found object name symbol agent size) g st f h p l =
    add_kernel-SameEntries rt object name symbol agent size g st

after_event :
    (g : ℕ) (st : State) (result : Option State) (go_on : State → Option State)
    → Stays g st result
    → AreOwned result
    → ((next : State) → SignalsAreOwned next → SameEntries g st next → Stays g next (go_on next))
    → Stays g st (elim result [ none ↦ none | some next ↦ go_on next ])
after_event g st none go_on a o k = tt
after_event g st (some next) go_on a o k = trans_Stays g st next (go_on next) a (k next o a)

-- While none of the events is the completion of a pending signal, its entries stay as they are.
pub run-Stays :
    (rt : Runtime) (es : List Event) (g : ℕ) (st : State)
    → GivesFresh rt
    → SignalsAreOwned st
    → is_pending (st.pending_signals_ g) ≡ 1
    → all (leaves g) es ≡ true
    → Stays g st (run rt es st)
unfolding run
run-Stays rt [] g st f h p l = (refl, refl)
run-Stays rt (e ∷ es) g st f h p l =
    after_event g st (handle_event rt e st) (run rt es)
      (handle_event-Stays rt e g st f h p (ground (arith, l))) (handle_event-AreOwned rt e st f h)
      (λ next o s. run-Stays rt es g next f o (ap is_pending s.0 ∙ p) (ground (arith, l)))
