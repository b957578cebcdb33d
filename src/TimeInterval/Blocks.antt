-- ===== src/TimeInterval/Blocks.antt =====
-- src/time_interval_handler_wrapper.cc: the time from one located message to the next, by basic block,
-- in front of the time interval handler. What kernelDB knows of a source line is a parameter: the
-- blocks of its instructions, or an exception. A null block is 0.
use omniprobe.Prelude.{
  ℕ, ◌+◌, ◌-◌, ◌≡◌, ◌<◌, Bool, false, List, [], ◌∷◌, Option, none, some, Bytes, if◌then◌else◌, ◌==◌,
  u64, two64, All,
}
use omniprobe.Prelude.Maps.{nat_key, upsert}
use omniprobe.Comms.{MessageType, Message}
use omniprobe.TimeInterval.{Totals, initial, handle, clear}

abbrev pub LineBlocks : Type 0
LineBlocks = Bytes → ℕ → Option (List ℕ)

-- kdb_message_handler_base: its members, and set_context.
pub record Context : Type 0 where
  pub kdb_p_ : Option LineBlocks
  pub kernel_name_ : Bytes

unfoldable pub set_context : LineBlocks → Bytes → Context → Context
set_context blocks kernel c = record { kdb_p_ = some blocks; kernel_name_ = kernel }

pub record Wrapper : Type 0 where
  pub block_timings_ : List (ℕ × ℕ)
  pub current_block_ : ℕ
  pub start_time_ : ℕ
  pub str_kernel : Bytes
  pub dispatch_id_ : ℕ
  pub wrapped_ : Totals

unfoldable pub wrapper : Bytes → ℕ → Wrapper
wrapper str_kernel dispatch_id = record {
  block_timings_ = [];
  current_block_ = 0;
  start_time_ = 0;
  str_kernel = str_kernel;
  dispatch_id_ = dispatch_id;
  wrapped_ = initial;
}

-- Time is added to the entry of a block, or it is the entry; uint64_t.
abbrev pub added : ℕ → Option ℕ → ℕ
added time none = time
added time (some old) = u64 (old + time)

-- The block of a located message, if the message has one.
unfoldable pub located_block : LineBlocks → Bytes → Message → Option ℕ
located_block blocks kernel message = elim (message.header.user_type) [
  | MessageType.time_interval ↦ elim (blocks kernel message.header.dwarf_line) [
    | none ↦ none
    | some [] ↦ none
    | some (block ∷ later) ↦ some block
  ]
  | _ ↦ none
]

-- The end of the block that runs, and the start of the next one.
unfoldable pub enter : ℕ → ℕ → Wrapper → Wrapper
enter block timestamp w =
    let elapsed = u64 (timestamp + (two64 - w.start_time_)) in
    let timings =
      if w.current_block_ == 0
      then w.block_timings_
      else upsert w.current_block_ (added elapsed) w.block_timings_ in
    record w { block_timings_ = timings; current_block_ = block; start_time_ = timestamp }

unfoldable pub track_block : Context → Message → Wrapper → Wrapper
unfolding located_block enter
track_block c message w = elim (c.kdb_p_) [
  | none ↦ w
  | some blocks ↦ elim (located_block blocks c.kernel_name_ message) [
    | none ↦ w
    | some block ↦ enter block message.header.timestamp w
  ]
]

unfoldable pub handle_wrapped : Context → Message → Wrapper → Wrapper × Bool
unfolding track_block
handle_wrapped c message w =
    let tracked = track_block c message w in
    let handled = handle message tracked.wrapped_ in
    (record tracked { wrapped_ = handled.0 }, handled.1)

unfoldable pub clear_wrapped : Wrapper → Wrapper
clear_wrapped w = record w { wrapped_ = clear w.wrapped_; str_kernel = []; dispatch_id_ = 0 }

unfoldable pub run_wrapped : Context → List Message → Wrapper → Wrapper
run_wrapped c [] w = w
run_wrapped c (message ∷ messages) w = run_wrapped c messages (handle_wrapped c message w).0

-- The times of the located messages, and the blocks they begin.
unfoldable pub located : LineBlocks → Bytes → List Message → List (ℕ × ℕ)
located blocks kernel [] = []
located blocks kernel (message ∷ messages) = elim (located_block blocks kernel message) [
  | none ↦ located blocks kernel messages
  | some block ↦ (block, message.header.timestamp) ∷ located blocks kernel messages
]

abbrev pub last_time : ℕ → List (ℕ × ℕ) → ℕ
last_time time [] = time
last_time time ((block, next) ∷ rest) = last_time next rest

-- The time of all blocks.
abbrev pub total : List (ℕ × ℕ) → ℕ
total [] = 0
total ((block, time) ∷ rest) = time + total rest

abbrev pub AreProper : List (ℕ × ℕ) → Type 0
AreProper = All (λ entry. ((entry.0 == 0) ≡ false) × (entry.1 < two64))
