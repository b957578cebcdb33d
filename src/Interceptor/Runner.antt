-- ===== src/Interceptor/Runner.antt =====
-- signal_runner and getPendingSignals of src/interceptor.cc: the thread that waits for the completion of
-- pending dispatches. `ready` says which waits return 0, by round and signal: hsa_signal_wait is code
-- outside. A round is one pass of the inner loop; the other threads rest while the rounds are run. The
-- assertion that a handle is not 0, and the outer loop until the shutdown, are not modelled.
use omniprobe.Prelude.{
  ℕ, zero, suc, ◌+◌, ◌≤◌, ◌≡◌, refl, ap, ◌∙◌, Bool, true, false, ◌&&◌, List, [], ◌∷◌, Option, none,
  some, if◌then◌else◌, ◌==◌, contains, arith, Option-cases, Bool-cases, List-cases, inl, inr,
}
use omniprobe.Prelude.Sets.{insert_all, contains-insert_all}
use omniprobe.Interceptor.Packets.{KernelInfo, State, signal_completed}
use omniprobe.Interceptor.Signals.{held_in, SignalsAreOwned}
use omniprobe.Interceptor.Pool.{signal_completed-SignalsAreOwned}

abbrev has_entry : Option KernelInfo → Bool
has_entry none = false
has_entry (some ki) = true

-- The signals of a list that have an entry in `pending_signals_`.
unfoldable pub pending_among : List ℕ → State → List ℕ
pending_among [] st = []
pending_among (sig ∷ sigs) st =
    let rest = pending_among sigs st in
    if has_entry (st.pending_signals_ sig) then sig ∷ rest else rest

-- getPendingSignals: the keys of `pending_signals_`, in their order. Each is a signal that was created.
unfoldable pub get_pending_signals : State → List ℕ
unfolding pending_among
get_pending_signals st = insert_all (pending_among st.created st) []

-- One round: every signal whose wait returns 0 is completed.
unfoldable pub run_round : (ℕ → Bool) → List ℕ → State → State
run_round ready [] st = st
run_round ready (sig ∷ sigs) st =
    run_round ready sigs (if ready sig then signal_completed sig st else st)

-- The inner loop of signal_runner, until no signal is pending; `none` is that the rounds ran out.
unfoldable pub drain : (ℕ → ℕ → Bool) → ℕ → ℕ → State → Option State
unfolding run_round
drain ready round zero st = none
drain ready round (suc fuel) st = elim (get_pending_signals st) [
  | [] ↦ some st
  | sig ∷ sigs ↦ drain ready (suc round) fuel (run_round (ready round) (sig ∷ sigs) st)
]

contains-pending_among :
    (g : ℕ) (sigs : List ℕ) (st : State)
    → contains (pending_among sigs st) g ≡ (contains sigs g && has_entry (st.pending_signals_ g))
unfolding pending_among
contains-pending_among g [] st = refl
contains-pending_among g (sig ∷ sigs) st =
    let ih = contains-pending_among g sigs st in
    elim (Bool-cases (sig == g)) [
      | inl e ↦ let same : sig ≡ g = ground arith in ground (arith, ih, same)
      | inr e ↦ ground (arith, ih, e)
    ]

contains-get_pending_signals :
    (g : ℕ) (st : State)
    → contains (get_pending_signals st) g
      ≡ (contains st.created g && has_entry (st.pending_signals_ g))
unfolding get_pending_signals
contains-get_pending_signals g st = ground (
  arith,
  contains-insert_all g (pending_among st.created st) [],
  contains-pending_among g st.created st,
)

signal_completed_at :
    (sig g : ℕ) (st : State)
    → (signal_completed sig st).pending_signals_ g
      ≡ (if sig == g then none else st.pending_signals_ g)
unfolding signal_completed
signal_completed_at sig g st = elim (Option-cases (st.pending_signals_ sig)) [
  | inl e ↦ elim (Bool-cases (sig == g)) [
    | inl s ↦ let same : sig ≡ g = ground arith in ground (arith, e, same, s)
    | inr s ↦ ground (arith, e, s)
  ]
  | inr (ki, e) ↦ ground (arith, e)
]

signal_completed-created : (sig : ℕ) (st : State) → (signal_completed sig st).created ≡ st.created
unfolding signal_completed
signal_completed-created sig st = ground arith

signal_completed-lost : (sig : ℕ) (st : State) → (signal_completed sig st).lost ≡ st.lost
unfolding signal_completed
signal_completed-lost sig st = ground arith

-- The signals of the list have no entry after a round in which all waits return 0.
run_round_at :
    (ready : ℕ → Bool) (sigs : List ℕ) (g : ℕ) (st : State)
    → ((sig : ℕ) → ready sig ≡ true)
    → (run_round ready sigs st).pending_signals_ g
      ≡ (if contains sigs g then none else st.pending_signals_ g)
unfolding run_round
run_round_at ready [] g st all = refl
run_round_at ready (sig ∷ sigs) g st all = ground (
  arith,
  run_round_at ready sigs g (signal_completed sig st) all,
  signal_completed_at sig g st,
  all sig,
)

-- A round keeps the signals where they belong.
run_round_keeps :
    (ready : ℕ → Bool) (sigs : List ℕ) (st : State)
    → SignalsAreOwned st
    → SignalsAreOwned (run_round ready sigs st)
      × ((run_round ready sigs st).created ≡ st.created)
      × ((run_round ready sigs st).lost ≡ st.lost)
unfolding run_round
run_round_keeps ready [] st h = (h, refl, refl)
run_round_keeps ready (sig ∷ sigs) st h = elim (Bool-cases (ready sig)) [
  | inl e ↦
      let next = signal_completed sig st in
      let (a, b, c) = run_round_keeps ready sigs next (signal_completed-SignalsAreOwned sig st h) in
      rw (run_round, e) (a, b ∙ signal_completed-created sig st, c ∙ signal_completed-lost sig st)
  | inr e ↦ rw (run_round, e) (run_round_keeps ready sigs st h)
]

-- Nothing is pending, and the pool holds every signal that was created and was not lost before, once.
abbrev pub AllAreBack : State → State → Type 0
AllAreBack st last =
    (last.created ≡ st.created)
    × ((g : ℕ) → last.pending_signals_ g ≡ none)
    × ((g : ℕ)
        → held_in g last.sig_pool_ + held_in g st.lost ≡ (if contains st.created g then 1 else 0))

unpended :
    (g : ℕ) (st : State)
    → contains (get_pending_signals st) g ≡ false
    → SignalsAreOwned st
    → st.pending_signals_ g ≡ none
unpended g st e h =
    let own = h g in
    let all = contains-get_pending_signals g st in
    elim (Option-cases (st.pending_signals_ g)) [
      | inl n ↦ n
      | inr (ki, n) ↦ absurd (ground (arith, own, all, n, e))
    ]

drained :
    (st last : State)
    → get_pending_signals last ≡ []
    → SignalsAreOwned last
    → last.created ≡ st.created
    → last.lost ≡ st.lost
    → AllAreBack st last
drained st last e h c same =
    let gone : (g : ℕ) → last.pending_signals_ g ≡ none =
      λ g. unpended g last (ap (λ l. contains l g) e) h in
    (c, gone, λ g. ground (arith, h g, gone g, c, ap (held_in g) same))

-- After a round in which all waits return 0 nothing is pending.
round_clears :
    (ready : ℕ → Bool) (sigs : List ℕ) (st : State)
    → ((sig : ℕ) → ready sig ≡ true)
    → SignalsAreOwned st
    → get_pending_signals st ≡ sigs
    → (g : ℕ) → (run_round ready sigs st).pending_signals_ g ≡ none
round_clears ready sigs st all h e g =
    let at = run_round_at ready sigs g st all in
    elim (Bool-cases (contains sigs g)) [
      | inl c ↦ ground (arith, at, c)
      | inr c ↦
          let gone = unpended g st (ap (λ l. contains l g) e ∙ c) h in ground (arith, at, c, gone)
    ]

none_pending :
    (sigs : List ℕ) (st : State)
    → ((g : ℕ) → st.pending_signals_ g ≡ none)
    → pending_among sigs st ≡ []
unfolding pending_among
none_pending [] st h = refl
none_pending (sig ∷ sigs) st h = ground (arith, h sig, none_pending sigs st h)

drain_done :
    (ready : ℕ → ℕ → Bool) (round fuel : ℕ) (st : State)
    → get_pending_signals st ≡ []
    → drain ready round (suc fuel) st ≡ some st
unfolding drain
drain_done ready round fuel st e = rw (drain, e) refl

drain_more :
    (ready : ℕ → ℕ → Bool) (round fuel sig : ℕ) (sigs : List ℕ) (st : State)
    → get_pending_signals st ≡ sig ∷ sigs
    → drain ready round (suc fuel) st
      ≡ drain ready (suc round) fuel (run_round (ready round) (sig ∷ sigs) st)
unfolding drain
drain_more ready round fuel sig sigs st e = rw (drain, e) refl

nothing_left : (st : State) → ((g : ℕ) → st.pending_signals_ g ≡ none) → get_pending_signals st ≡ []
unfolding get_pending_signals insert_all
nothing_left st h = ap (λ l. insert_all l []) (none_pending st.created st h)

-- From a state in which each created signal is at exactly one place, and if from some round on every
-- wait returns 0: the loop ends, at the latest in the round after that one, and then no signal is
-- pending, and the pool holds every signal that was created and that no exception had lost, once.
pub drain-AllAreBack :
    (ready : ℕ → ℕ → Bool) (n round : ℕ) (st : State)
    → SignalsAreOwned st
    → ((m sig : ℕ) → round + n ≤ m → ready m sig ≡ true)
    → (last : State) × (drain ready round (suc (suc n)) st ≡ some last) × AllAreBack st last
drain-AllAreBack ready zero round st h all = elim (List-cases (get_pending_signals st)) [
  | inl e ↦ (st, drain_done ready round 1 st e, drained st st e h refl refl)
  | inr (sig, (sigs, e)) ↦
      let next = run_round (ready round) (sig ∷ sigs) st in
      let (own, made, same) = run_round_keeps (ready round) (sig ∷ sigs) st h in
      let now : (sig : ℕ) → ready round sig ≡ true = λ sig. all round sig (omega arith) in
      let left = nothing_left next (round_clears (ready round) (sig ∷ sigs) st now h e) in
      (
        next,
        drain_more ready round 1 sig sigs st e ∙ drain_done ready (suc round) 0 next left,
        drained st next left own made same,
      )
]
drain-AllAreBack ready (suc n) round st h all = elim (List-cases (get_pending_signals st)) [
  | inl e ↦ (st, drain_done ready round (suc (suc n)) st e, drained st st e h refl refl)
  | inr (sig, (sigs, e)) ↦
      let next = run_round (ready round) (sig ∷ sigs) st in
      let (own, made, same) = run_round_keeps (ready round) (sig ∷ sigs) st h in
      let (last, d, back) =
        drain-AllAreBack ready n (suc round) next own (λ m sig le. all m sig (omega arith)) in
      (
        last,
        drain_more ready round (suc (suc n)) sig sigs st e ∙ d,
        (back.0 ∙ made, back.1, λ g. ground (arith, back.2 g, made, ap (held_in g) same)),
      )
]
