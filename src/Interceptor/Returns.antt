-- ===== src/Interceptor/Returns.antt =====
-- A dispatch and its completion: what is given back.
use omniprobe.Prelude.{
  ℕ, ◌≡◌, refl, ap, ◌∙◌, true, List, [], ◌∷◌, ◌++◌, Option, none, some, if◌then◌else◌, ◌==◌, arith,
  all,
}
use omniprobe.Interceptor.Packets.{KernelInfo, Effect, State, Runtime, signal_completed}
use omniprobe.Interceptor.Signals.{is_pending, SignalsAreOwned, GivesFresh}
use omniprobe.Interceptor.Pool.{Event, run}
use omniprobe.Interceptor.Completions.{leaves, run-Stays, Stays}

-- What a completion does outside, the latest first: the comms object back, the segment freed, the
-- signal set to 1 again, and the application's signal decremented, each if there is one.
abbrev pub comms_back : KernelInfo → List Effect
comms_back ki = elim (ki.comms_obj_) [ none ↦ [] | some c ↦ Effect.checkin_comms ki.agent_ c ∷ [] ]

abbrev pub segment_freed : Option ℕ → List Effect
segment_freed none = []
segment_freed (some buffer) = Effect.free_kernargs buffer ∷ []

abbrev pub signal_passed_on : KernelInfo → List Effect
signal_passed_on ki = if ki.signal_ == 0 then [] else Effect.subtract ki.signal_ ∷ []

abbrev pub answers : ℕ → KernelInfo → Option ℕ → List Effect
answers sig ki buffer =
    comms_back ki ++ (segment_freed buffer ++ (Effect.store_one sig ∷ signal_passed_on ki))

-- The completion of `sig` in a state gives back what the entries say.
abbrev pub GivesBack : ℕ → KernelInfo → Option ℕ → State → Type 0
GivesBack sig ki buffer st =
    ((signal_completed sig st).effects ≡ answers sig ki buffer ++ st.effects)
    × ((signal_completed sig st).sig_pool_ ≡ sig ∷ st.sig_pool_)
    × ((signal_completed sig st).pending_signals_ sig ≡ none)
    × ((signal_completed sig st).pending_kernargs_ sig ≡ none)
    × (signal_completed sig (signal_completed sig st) ≡ signal_completed sig st)

abbrev pub GivesBackAfter : ℕ → KernelInfo → Option ℕ → Option State → Type 0
GivesBackAfter sig ki buffer none = Unit {0}
GivesBackAfter sig ki buffer (some next) = GivesBack sig ki buffer next

completed_none :
    (sig : ℕ) (st : State) → st.pending_signals_ sig ≡ none → signal_completed sig st ≡ st
unfolding signal_completed
completed_none sig st h = rw (signal_completed, h) refl

signal_completed-GivesBack :
    (sig : ℕ) (ki : KernelInfo) (buffer : Option ℕ) (st : State)
    → st.pending_signals_ sig ≡ some ki
    → st.pending_kernargs_ sig ≡ buffer
    → GivesBack sig ki buffer st
unfolding signal_completed
signal_completed-GivesBack sig ki buffer st p k =
    let same : (sig == sig) ≡ true = ground arith in
    (
      ground (arith, p, k),
      ground (arith, p, k),
      ground (arith, p, k, same),
      ground (arith, p, k, same),
      completed_none sig (signal_completed sig st) (ground (arith, p, k, same)),
    )

-- With a runtime whose new signals are fresh, and from a state in which each created signal is at
-- exactly one place, the pool, the pending ones or the lost ones, and `sig` is pending: after any
-- sequence of events, with exceptions of fixupPacket, that does not abort and in
-- which `sig` is not completed, the completion of `sig` puts it back into the pool, clears its
-- entries, checks its comms object in, frees its segment, resets the signal and decrements the
-- application's one, each that there is once, and nothing else; a second completion does nothing.
pub run-GivesBack :
    (rt : Runtime) (es : List Event) (sig : ℕ) (ki : KernelInfo) (st : State)
    → GivesFresh rt
    → SignalsAreOwned st
    → st.pending_signals_ sig ≡ some ki
    → all (leaves sig) es ≡ true
    → GivesBackAfter sig ki (st.pending_kernargs_ sig) (run rt es st)
run-GivesBack rt es sig ki st f h p l =
    go (run rt es st) (run-Stays rt es sig st f h (ap is_pending p) l)
  where
    go :
        (result : Option State)
        → Stays sig st result
        → GivesBackAfter sig ki (st.pending_kernargs_ sig) result
    go none s = tt
    go (some next) s =
        signal_completed-GivesBack sig ki (st.pending_kernargs_ sig) next (s.0 ∙ p) s.1
