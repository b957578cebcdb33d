-- ===== src/Tests/Blocks.antt =====
-- The basic block analysis at a concrete message.
use omniprobe.Prelude.{
  ℕ, ◌≡◌, refl, List, [], ◌∷◌, get_elem?, u64, Option, none, some, Bytes, codes, text_eq, arith,
  if◌then◌else◌, ◌==◌,
}
use omniprobe.Prelude.Maps.{text_key, nat_key, lookup}
use omniprobe.Comms.{MessageType, Header, Message}
use omniprobe.TimeInterval.{handle_all, initial}
use omniprobe.TimeInterval.Blocks.{
  LineBlocks, Context, wrapper, run_wrapped, located, located_block,
}
use omniprobe.TimeInterval.Elapsed.{Covers, run_wrapped-Covers}
use omniprobe.Prelude.Digits.{decimal, decimal_from}
use omniprobe.BasicBlocks.Counts.{reported_counts, executions, or_zero, reported_counts-executions}
use omniprobe.BasicBlocks.Resources.{
  Groups, nested, pop_back, render_dies, render_compute_resources,
}
use omniprobe.BasicBlocks.{BlockInfo, Block, Blocks, Analysis, count_bits, count_set_bits}

abbrev hdr : Header
hdr = record {
  user_type = MessageType.address;
  user_data = 5;
  arch = 1;
  exec = 7;
  timestamp = 130;
  dwarf_fname_hash = 0;
  dwarf_line = 12;
  dwarf_column = 3;
  block_idx_x = 1;
  block_idx_y = 0;
  block_idx_z = 0;
  wave_num = 2;
  xcc_id = 0;
  se_id = 0;
  cu_id = 0;
  active_lane_count = 3;
}

abbrev block : Block
block = record { address = 64; instructions = (codes "s_nop", 64) ∷ [] }

abbrev blocks : Blocks
blocks index = some block

-- The wave has been in block 32 since time 100, and 40 have been spent in it before.
abbrev before : Analysis
before = record {
  message_count = 1;
  wave_states =
      (1 ∷ 0 ∷ 0 ∷ 2 ∷ 0 ∷ 0 ∷ 0 ∷ [], record { current_block = 32; start_time = 100; count = 1 })
      ∷ [];
  block_info = (32, record { thread_count = 3; count = 1; duration = 40 }) ∷ [];
  blocks_seen = [];
  compute_resources = [];
}

count_set_bits_run : count_set_bits 0xf1 ≡ 5
unfolding count_set_bits count_bits
count_set_bits_run = refl

-- A time interval message of a time and a line.
abbrev timed : ℕ → ℕ → Message
timed time line = record {
  header = record hdr {
    user_type = MessageType.time_interval;
    timestamp = time;
    dwarf_line = line;
  };
  addresses = [];
  intervals = [];
}

abbrev line_blocks : LineBlocks
line_blocks kernel line = if line == 3 then none else some (line ∷ [])

abbrev context : Context
context = record { kdb_p_ = some line_blocks; kernel_name_ = codes "f" }

abbrev timed_messages : List Message
timed_messages = timed 100 7 ∷ timed 110 3 ∷ timed 130 8 ∷ timed 190 7 ∷ []

run_wrapped-Covers_example :
    Covers
      (run_wrapped context timed_messages (wrapper (codes "f") 1)).block_timings_
      ((7, 100) ∷ (8, 130) ∷ (7, 190) ∷ [])
    × ((run_wrapped context timed_messages (wrapper (codes "f") 1)).wrapped_
        ≡ handle_all timed_messages initial)
unfolding located located_block
run_wrapped-Covers_example =
    run_wrapped-Covers context line_blocks timed_messages (codes "f") 1 refl
      ((refl, omega arith), ((refl, omega arith), ((refl, omega arith), tt)))

-- The only file that opens: it has three lines.
abbrev open_kernel : Bytes → Option (List Bytes)
open_kernel filename =
    if text_eq filename (codes "k.hip") then some (codes "a" ∷ codes "b" ∷ codes "c" ∷ []) else none

abbrev busy : BlockInfo
busy = record { thread_count = 70; count = 2; duration = 9 }

abbrev code_of : List (Bytes × ℕ)
code_of = (codes "v_add", 1) ∷ (codes "s_nop", 1) ∷ (codes "v_add", 1) ∷ []

-- The second block is reported with the counts of both.
reported_counts-executions_example :
    (counts : List (Bytes × ℕ)) × (get_elem?
        (reported_counts ((busy, code_of) ∷ (busy, code_of) ∷ []) [])
        1
      ≡ some counts)
    × ((inst : Bytes)
        → u64 (or_zero (lookup inst counts))
          ≡ u64 (executions inst ((busy, code_of) ∷ (busy, code_of) ∷ [])))
reported_counts-executions_example =
    reported_counts-executions ((busy, code_of) ∷ []) busy code_of []

-- Two work groups on one compute unit.
abbrev ran : Groups
ran = (0 ∷ 1 ∷ 2 ∷ 0 ∷ 0 ∷ 0 ∷ [], 0 ∷ 1 ∷ []) ∷ (0 ∷ 1 ∷ 2 ∷ 1 ∷ 0 ∷ 0 ∷ [], 0 ∷ []) ∷ []

-- Without a wave the opening bracket is taken off.
no_resources :
    render_compute_resources (codes "k") 1 []
    ≡ codes "{\"kernel\": \"k\", \"dispatch\": 1, \"resources\":]}\n"
unfolding render_compute_resources nested render_dies pop_back decimal decimal_from
no_resources = refl
