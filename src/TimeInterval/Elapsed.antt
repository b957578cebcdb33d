-- ===== src/TimeInterval/Elapsed.antt =====
-- The time of all blocks (src/time_interval_handler_wrapper.cc) over a sequence of messages.
use omniprobe.Prelude.{
  ℕ, ◌+◌, ◌-◌, ◌≡◌, ◌<◌, refl, sym, ap, ◌∙◌, false, List, [], ◌∷◌, none, some, Bytes, ◌==◌, u64,
  two64, arith, Option-cases, inl, inr,
}
use mathlib.Core.Path.{subst}
use omniprobe.Prelude.Maps.{nat_key, upsert}
use omniprobe.Comms.{Message}
use omniprobe.TimeInterval.{initial, handle, handle_all}
use omniprobe.TimeInterval.Blocks.{
  LineBlocks, Context, Wrapper, wrapper, added, located_block, enter, track_block, handle_wrapped,
  run_wrapped, located, last_time, total, AreProper,
}

total-upsert :
    (block time : ℕ) (timings : List (ℕ × ℕ))
    → u64 (total (upsert block (added time) timings)) ≡ u64 (total timings + time)
unfolding upsert
total-upsert block time [] = ground arith
total-upsert block time ((b, t) ∷ timings) = ground (arith, total-upsert block time timings)

-- The state after a message that is located, or not.
unlocated_step :
    (c : Context) (blocks : LineBlocks) (message : Message) (w : Wrapper)
    → c.kdb_p_ ≡ some blocks
    → located_block blocks c.kernel_name_ message ≡ none
    → (handle_wrapped c message w).0 ≡ record w { wrapped_ = (handle message w.wrapped_).0 }
unfolding handle_wrapped track_block
unlocated_step c blocks message w r e = rw (handle_wrapped, track_block, r, e) refl

located_step :
    (c : Context) (blocks : LineBlocks) (message : Message) (w : Wrapper) (block : ℕ)
    → c.kdb_p_ ≡ some blocks
    → located_block blocks c.kernel_name_ message ≡ some block
    → (handle_wrapped c message w).0 ≡ record (enter block message.header.timestamp w) {
      wrapped_ = (handle message (enter block message.header.timestamp w).wrapped_).0;
    }
unfolding handle_wrapped track_block
located_step c blocks message w block r e = rw (handle_wrapped, track_block, r, e) refl

entered_total :
    (block time : ℕ) (w : Wrapper)
    → (w.current_block_ == 0) ≡ false
    → u64 (total (enter block time w).block_timings_)
      ≡ u64 (total w.block_timings_ + u64 (time + (two64 - w.start_time_)))
unfolding enter
entered_total block time w c =
    rw (enter, c)
      (total-upsert w.current_block_ (u64 (time + (two64 - w.start_time_))) w.block_timings_)

-- Sums of differences, as uint64_t.
telescope :
    (before start time last passed after : ℕ)
    → start < two64
    → u64 passed ≡ u64 (before + u64 (time + (two64 - start)))
    → u64 (after + time) ≡ u64 (passed + last)
    → u64 (after + start) ≡ u64 (before + last)
telescope before start time last passed after s p h = omega arith

-- While a block runs, the time that is added is the time that passes.
elapsed :
    (c : Context) (blocks : LineBlocks) (messages : List Message) (w : Wrapper)
    → c.kdb_p_ ≡ some blocks
    → AreProper (located blocks c.kernel_name_ messages)
    → (w.current_block_ == 0) ≡ false
    → w.start_time_ < two64
    → u64 (total (run_wrapped c messages w).block_timings_ + w.start_time_)
      ≡ u64 (
          total w.block_timings_ + last_time w.start_time_ (located blocks c.kernel_name_ messages))
unfolding run_wrapped enter located
elapsed c blocks [] w r p b s = refl
elapsed c blocks (message ∷ messages) w r p b s =
    let goal =
      λ (v : Wrapper). u64 (total (run_wrapped c messages v).block_timings_ + w.start_time_) in
    let last = λ (l : List (ℕ × ℕ)). u64 (total w.block_timings_ + last_time w.start_time_ l) in
    elim (Option-cases (located_block blocks c.kernel_name_ message)) [
      | inl e ↦
          let same : located blocks c.kernel_name_ (message ∷ messages)
              ≡ located blocks c.kernel_name_ messages =
            rw (located, e) refl in
          let next : Wrapper = record w { wrapped_ = (handle message w.wrapped_).0 } in
          ap goal (unlocated_step c blocks message w r e)
          ∙ (elapsed c blocks messages next r (subst AreProper same p) b s ∙ ap last (sym same))
      | inr (block, e) ↦
          let time = message.header.timestamp in
          let rest = located blocks c.kernel_name_ messages in
          let same : located blocks c.kernel_name_ (message ∷ messages) ≡ (block, time) ∷ rest =
            rw (located, e) refl in
          let (proper, later) = subst AreProper same p in
          let next : Wrapper = record (enter block time w) {
            wrapped_ = (handle message (enter block time w).wrapped_).0;
          } in
          let ih = elapsed c blocks messages next r later proper.0 proper.1 in
          ap goal (located_step c blocks message w block r e)
          ∙ (telescope (total w.block_timings_) w.start_time_ time (last_time time rest)
                (total (enter block time w).block_timings_)
                (total (run_wrapped c messages next).block_timings_) s
                (entered_total block time w b) ih
              ∙ ap last (sym same))
    ]

-- The time of all blocks is that from the first located message to the last one.
abbrev pub Covers : List (ℕ × ℕ) → List (ℕ × ℕ) → Type 0
Covers timings [] = total timings ≡ 0
Covers timings ((block, first) ∷ rest) = u64 (total timings + first) ≡ u64 (last_time first rest)

from_first :
    (c : Context) (blocks : LineBlocks) (messages : List Message) (w : Wrapper)
    → c.kdb_p_ ≡ some blocks
    → AreProper (located blocks c.kernel_name_ messages)
    → w.current_block_ ≡ 0
    → w.block_timings_ ≡ []
    → Covers (run_wrapped c messages w).block_timings_ (located blocks c.kernel_name_ messages)
unfolding run_wrapped enter located
from_first c blocks [] w r p z t = ap total t
from_first c blocks (message ∷ messages) w r p z t =
    elim (Option-cases (located_block blocks c.kernel_name_ message)) [
      | inl e ↦
          let same : located blocks c.kernel_name_ (message ∷ messages)
              ≡ located blocks c.kernel_name_ messages =
            rw (located, e) refl in
          let next : Wrapper = record w { wrapped_ = (handle message w.wrapped_).0 } in
          let ih = from_first c blocks messages next r (subst AreProper same p) z t in
          let moved = subst (Covers (run_wrapped c messages next).block_timings_) (sym same) ih in
          subst
            (λ v.
              Covers (run_wrapped c messages v).block_timings_
                (located blocks c.kernel_name_ (message ∷ messages)))
            (sym (unlocated_step c blocks message w r e)) moved
      | inr (block, e) ↦
          let time = message.header.timestamp in
          let rest = located blocks c.kernel_name_ messages in
          let same : located blocks c.kernel_name_ (message ∷ messages) ≡ (block, time) ∷ rest =
            rw (located, e) refl in
          let (proper, later) = subst AreProper same p in
          let next : Wrapper = record (enter block time w) {
            wrapped_ = (handle message (enter block time w).wrapped_).0;
          } in
          let nothing : total (enter block time w).block_timings_ ≡ 0 =
            rw (enter, z) (ap total t) in
          let ih = elapsed c blocks messages next r later proper.0 proper.1 in
          let covers : u64 (total (run_wrapped c messages next).block_timings_ + time)
              ≡ u64 (last_time time rest) =
            omega (arith, ih, nothing) in
          let moved =
            subst (Covers (run_wrapped c messages next).block_timings_) (sym same) covers in
          subst
            (λ v.
              Covers (run_wrapped c messages v).block_timings_
                (located blocks c.kernel_name_ (message ∷ messages)))
            (sym (located_step c blocks message w block r e)) moved
    ]

wrapped_all :
    (c : Context) (messages : List Message) (w : Wrapper)
    → (run_wrapped c messages w).wrapped_ ≡ handle_all messages w.wrapped_
unfolding run_wrapped handle_wrapped track_block enter handle_all
wrapped_all c [] w = refl
wrapped_all c (message ∷ messages) w =
    wrapped_all c messages (handle_wrapped c message w).0
    ∙ ap (λ t. handle_all messages (handle message t).0) (kept c message w)
  where
    kept :
        (c : Context) (message : Message) (w : Wrapper)
        → (track_block c message w).wrapped_ ≡ w.wrapped_
    kept c message w = ground arith

-- From the constructor's state, with kernelDB, and when the located messages have blocks that are not
-- null and timestamps that fit in 64 bits: whatever the messages, the times of all blocks add up to
-- the time from the first located message to the last one, modulo 2^64, and the wrapped handler is in
-- the state that it would be in alone.
pub run_wrapped-Covers :
    (c : Context) (blocks : LineBlocks) (messages : List Message) (str_kernel : Bytes) (id : ℕ)
    → c.kdb_p_ ≡ some blocks
    → AreProper (located blocks c.kernel_name_ messages)
    → Covers
        (run_wrapped c messages (wrapper str_kernel id)).block_timings_
        (located blocks c.kernel_name_ messages)
      × ((run_wrapped c messages (wrapper str_kernel id)).wrapped_ ≡ handle_all messages initial)
unfolding wrapper
run_wrapped-Covers c blocks messages str_kernel id r p = (
  from_first c blocks messages (wrapper str_kernel id) r p refl refl,
  wrapped_all c messages (wrapper str_kernel id),
)
