-- ===== src/Interceptor/Waits.antt =====
-- How long ensure_shutdown of src/interceptor.cc waits for the pending signals.
use omniprobe.Prelude.{
  ℕ, zero, suc, ◌+◌, ◌≤◌, ◌<◌, ◌≡◌, refl, ap, ◌∙◌, Bool, true, false, some, ◌⊎◌, ltb, arith,
  Bool-cases, inl, inr,
}
use omniprobe.Interceptor.Lifetime.{Hook, Process, wait_count, ensure_shutdown, shutdown}

-- A number of waits, from the first on: at most 1000, with a signal pending before each of
-- them, and none pending at the end unless it waited 1000 times.
abbrev pub IsWaited : (ℕ → Bool) → ℕ → ℕ → Type 0
IsWaited has_pending first count =
    (first ≤ count)
    × (count ≤ 1000)
    × ((i : ℕ) → has_pending (first + i) ≡ true ⊎ count ≤ first + i)
    × (has_pending count ≡ false ⊎ count ≡ 1000)

no_wait :
    (has_pending : ℕ → Bool) (count : ℕ)
    → count ≤ 1000
    → has_pending count ≡ false ⊎ count ≡ 1000
    → IsWaited has_pending count count
no_wait has_pending count small end = (omega arith, small, λ i. inr (omega arith), end)

plus_none : (n : ℕ) → n + 0 ≡ n
plus_none n = omega arith

plus_next : (n i : ℕ) → n + suc i ≡ suc n + i
plus_next n i = omega arith

one_wait :
    (has_pending : ℕ → Bool) (count last : ℕ)
    → has_pending count ≡ true
    → IsWaited has_pending (suc count) last
    → IsWaited has_pending count last
one_wait has_pending count last now (after, small, each, end) =
    (omega arith, small, λ i. each_from i, end)
  where
    each_from : (i : ℕ) → has_pending (count + i) ≡ true ⊎ last ≤ count + i
    each_from zero = inl (ap has_pending (plus_none count) ∙ now)
    each_from (suc i) = elim (each i) [
      | inl e ↦ inl (ap has_pending (plus_next count i) ∙ e)
      | inr e ↦ inr (omega arith)
    ]

wait_count-IsWaited :
    (has_pending : ℕ → Bool) (fuel count : ℕ)
    → count ≤ 1000
    → 1000 < fuel + count
    → IsWaited has_pending count (wait_count has_pending fuel count)
unfolding wait_count
wait_count-IsWaited has_pending zero count small enough = omega arith
wait_count-IsWaited has_pending (suc fuel) count small enough =
    elim (Bool-cases (has_pending count)) [
      | inr e ↦ rw e (no_wait has_pending count small (inl e))
      | inl e ↦ elim (Bool-cases (ltb count 1000)) [
        | inr b ↦ rw (e, b) (no_wait has_pending count small (inr (ground arith)))
        | inl b ↦
            rw (e, b)
              (one_wait has_pending count _ e
                (wait_count-IsWaited has_pending fuel (suc count) (ground arith) (omega arith)))
      ]
    ]

-- A shutdown of a process with an interceptor sets the flag that its threads end by, and nothing else, and then waits at most 1000
-- times: before each wait a signal was pending, and unless it waited 1000 times, no signal is
-- pending when it returns.
pub ensure_shutdown-IsWaited :
    (has_pending : ℕ → Bool) (hook : Hook) (st : Process)
    → st.singleton_ ≡ some hook
    → ((ensure_shutdown has_pending st).1
        ≡ record st { singleton_ = some (record hook { shutting_down_ = true }) })
      × IsWaited has_pending 0 (ensure_shutdown has_pending st).0
unfolding ensure_shutdown shutdown
ensure_shutdown-IsWaited has_pending hook st lives =
    rw (ensure_shutdown, lives)
      (refl, wait_count-IsWaited has_pending 1001 0 (omega arith) (omega arith))
