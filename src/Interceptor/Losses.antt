-- ===== src/Interceptor/Losses.antt =====
-- Which events lose a completion signal: src/interceptor.cc loses one only by an exception.
use omniprobe.Prelude.{◌≡◌, Bool, true, false, Option, none, some}
use omniprobe.Interceptor.Cache.{Cache}
use omniprobe.Interceptor.Packets.{Packet, State, Runtime, Stage, Attempt}

-- Nothing that fixupPacket calls throws.
abbrev pub NeverThrows : Runtime → Type 0
NeverThrows rt = (st : State) (stage : Stage) → rt.throws st stage ≡ none

abbrev is_thrown : {A : Type 0} → Attempt A → Bool
is_thrown Attempt.aborted = false
is_thrown (Attempt.thrown left) = true
is_thrown (Attempt.done a) = false

-- The lost signals are as before.
abbrev LosesNone : State → Attempt (Packet × State) → Type 0
LosesNone st Attempt.aborted = Unit {0}
LosesNone st (Attempt.thrown left) = left.lost ≡ st.lost
LosesNone st (Attempt.done (dispatch, next)) = next.lost ≡ st.lost

abbrev pub LosesNoneAfter : State → Option State → Type 0
LosesNoneAfter st none = Unit {0}
LosesNoneAfter st (some next) = next.lost ≡ st.lost
