-- ===== src/BasicBlocks.antt =====
-- src/basic_block_analysis.cc: the time that the waves of a dispatch spend in each basic block, and the
-- compute units that they run on. What kernelDB knows of a block is a parameter: its address, the
-- blocks that its instructions belong to, and whether the last instruction is s_endpgm. Of its
-- report, Counts.antt has the instruction counts, Resources.antt the compute resources, and Reports.antt the
-- reading of file lines.
pub mod Reports
pub mod Counts
pub mod Resources
use omniprobe.Prelude.{
  ℕ, zero, suc, ◌+◌, ◌-◌, ◌/◌, ◌%◌, ◌^◌, ◌≤◌, Bool, true, false, List, [], ◌∷◌, Option, none, some,
  Bytes, u64, two64, if◌then◌else◌, text_eq, codes,
}
use omniprobe.Prelude.Maps.{text_key, nat_key, lookup, upsert, assign, erase}
use omniprobe.Prelude.Sets.{insert, insert_all}
use omniprobe.Comms.{MessageType, Header}

-- wave_state_t.
pub record WaveState : Type 0 where
  pub current_block : ℕ
  pub start_time : ℕ
  pub count : ℕ

-- blockInfo_t, without the source line.
pub record BlockInfo : Type 0 where
  pub thread_count : ℕ
  pub count : ℕ
  pub duration : ℕ

-- A basic block of kernelDB: each of its instructions with the block it belongs to.
pub record Block : Type 0 where
  pub address : ℕ
  pub instructions : List (Bytes × ℕ)

-- kernelDB's answer for the index of a block; `none` is a std::runtime_error.
abbrev pub Blocks : Type 0
Blocks = ℕ → Option Block

-- The members. A wave is known by its work group and number, a compute unit by its XCC, SE and CU.
pub record Analysis : Type 0 where
  pub message_count : ℕ
  pub wave_states : List (Bytes × WaveState)
  pub block_info : List (ℕ × BlockInfo)
  pub blocks_seen : List ℕ
  pub compute_resources : List (Bytes × List ℕ)

-- The loop of `countSetBits` over the 64 bits of a mask; it may stop early, when none is left.
unfoldable pub count_bits : ℕ → ℕ → ℕ
count_bits zero mask = 0
count_bits (suc n) mask = mask % 2 + count_bits n (mask / 2)

unfoldable pub count_set_bits : ℕ → ℕ
count_set_bits = count_bits 64

-- The key of a wave. memcmp compares the whole waveIdentifier_t, with the three bytes behind wave_id_, which
-- the initialization need not set; they are a parameter.
abbrev pub wave_of : Bytes → Header → Bytes
wave_of padding hdr = hdr.block_idx_x ∷ hdr.block_idx_y ∷ hdr.block_idx_z ∷ hdr.wave_num ∷ padding

-- A uint16_t in memory, the low byte first.
abbrev pub two_bytes : ℕ → Bytes → Bytes
two_bytes n behind = n % 256 ∷ n / 256 ∷ behind

-- The keys of a work group. memcmp compares the bytes of workgroup_id_t.
abbrev pub place_of : Header → Bytes
place_of hdr =
    hdr.xcc_id
    ∷ hdr.se_id
    ∷ hdr.cu_id
    ∷ two_bytes hdr.block_idx_x (two_bytes hdr.block_idx_y (two_bytes hdr.block_idx_z []))

abbrev or_none : Option (List ℕ) → List ℕ
or_none none = []
or_none (some waves) = waves

unfoldable pub update_compute_resources : Header → List (Bytes × List ℕ) → List (Bytes × List ℕ)
update_compute_resources hdr = upsert (place_of hdr) (λ waves. insert hdr.wave_num (or_none waves))

abbrev pub seen_blocks : List (Bytes × ℕ) → List ℕ
seen_blocks [] = []
seen_blocks ((inst, block) ∷ rest) = block ∷ seen_blocks rest

abbrev pub ends_program : List (Bytes × ℕ) → Bool
ends_program [] = false
ends_program ((inst, block) ∷ []) = text_eq inst (codes "s_endpgm")
ends_program ((inst, block) ∷ next ∷ rest) = ends_program (next ∷ rest)

-- The entry of the block that the wave was in, with the time since the wave's last message.
unfoldable pub add_time : Header → WaveState → Option BlockInfo → BlockInfo
add_time hdr ws none = record {
  thread_count = count_set_bits hdr.exec;
  count = 1;
  duration = u64 (hdr.timestamp + two64 - ws.start_time);
}
add_time hdr ws (some info) = record {
  thread_count = u64 (info.thread_count + count_set_bits hdr.exec);
  count = u64 (info.count + ws.count);
  duration = u64 (info.duration + u64 (hdr.timestamp + two64 - ws.start_time));
}

-- The part for a block with instructions and a message that is no time interval.
unfoldable pub enter_block : Bytes → Header → Block → Analysis → Analysis
enter_block padding hdr block st =
    let wave = wave_of padding hdr in
    let here : WaveState = record {
      current_block = block.address;
      start_time = hdr.timestamp;
      count = 1;
    } in
    elim (lookup wave st.wave_states) [
      | none ↦ record st { wave_states = assign wave here st.wave_states }
      | some ws ↦ record st {
        block_info = upsert ws.current_block (add_time hdr ws) st.block_info;
        wave_states =
            if ends_program block.instructions
            then erase wave st.wave_states
            else assign wave here st.wave_states;
      }
    ]

-- A block with instructions; a time interval fails an assertion, which is `none`.
unfoldable pub handle_block :
    Bytes → MessageType → Header → Block → Analysis → Option (Analysis × Bool)
handle_block padding MessageType.time_interval hdr block st = none
handle_block padding kind hdr block st = some (
  enter_block padding hdr block
      (record st { blocks_seen = insert_all (seen_blocks block.instructions) st.blocks_seen }),
  true,
)

-- `handle`, with the padding bytes of its waveIdentifier_t, given kernelDB's blocks of the kernel if there is a kernelDB.
unfoldable pub handle : Bytes → Option Blocks → Header → Analysis → Option (Analysis × Bool)
handle padding none hdr st = some (st, true)
handle padding (some blocks) hdr st =
    let counted : Analysis = record st {
      message_count = u64 (st.message_count + 1);
      compute_resources = update_compute_resources hdr st.compute_resources;
    } in
    elim (blocks (hdr.user_data % 2 ^ 32)) [
      | none ↦ some (counted, false)
      | some block ↦ elim (block.instructions) [
        | [] ↦ some (counted, true)
        | inst ∷ rest ↦ handle_block padding hdr.user_type hdr block counted
      ]
    ]

-- The time in all blocks.
unfoldable pub total_duration : List (ℕ × BlockInfo) → ℕ
total_duration [] = 0
total_duration ((block, info) ∷ rest) = info.duration + total_duration rest

abbrev duration_of : Option BlockInfo → ℕ
duration_of none = 0
duration_of (some info) = info.duration

-- The time since the last message of the wave, and that it does not lie in the future.
abbrev pub elapsed : Header → Option WaveState → ℕ
elapsed hdr none = 0
elapsed hdr (some ws) = hdr.timestamp - ws.start_time

abbrev pub IsInOrder : Header → Option WaveState → Type 0
IsInOrder hdr none = Unit {0}
IsInOrder hdr (some ws) = ws.start_time ≤ hdr.timestamp

-- The total of all blocks after a message, if it was handled.
abbrev pub total_after : Option (Analysis × Bool) → Option ℕ
total_after none = none
total_after (some (st, ok)) = some (total_duration st.block_info)
