-- ===== src/Tests/Memory.antt =====
-- The message handlers at concrete messages.
use omniprobe.Prelude.{
  ℕ, ◌+◌, ◌≡◌, ◌≤◌, ◌<◌, ◌%◌, ◌^◌, ◌*◌, refl, true, List, [], ◌∷◌, some, codes, if◌then◌else◌, ◌==◌,
  length, All, arith, two64, ◌↔◌, contains,
}
use omniprobe.Prelude.Maps.{nat_key, lookup}
use omniprobe.Prelude.Sets.{insert, insert_all}
use omniprobe.Comms.{MessageType, MemoryAccess, AddressSpace, Header, Message, Platform}
use omniprobe.MemoryAnalysis.Conflict.{ConflictSet, conflict_sets, count_conflicts}
use omniprobe.MemoryAnalysis.Conflict.Banks.{IsClean}
use omniprobe.MemoryAnalysis.Conflict.Phases.{sets_for}
use omniprobe.MemoryAnalysis.Conflict.Freedom.{IsConflictFree, count_conflicts-IsConflictFree}
use omniprobe.MemoryAnalysis.CacheLines.{
  cache_lines, lines_of, min_cache_lines, Touched, cache_lines-Touched,
}
use omniprobe.MemoryAnalysis.Handler.{initial, handle, measure_global}
use omniprobe.MemoryAnalysis.Handler.Effects.{
  handle_all, SetsAreFresh, handle_all-SetsAreFresh, handle_refused, Answers, is_refused,
}
use omniprobe.MemoryAnalysis.Handler.Global.{handle_global_totals, info_of, global_here}
use omniprobe.MemoryAnalysis.Accesses.{GlobalAccess}
use omniprobe.MemoryAnalysis.Accesses.Totals.{located_at, executions, lines_needed, lines_used}
use omniprobe.MemoryAnalysis.Dwarf.{get_dwarf_info}
use omniprobe.Heatmap
use omniprobe.TimeInterval

abbrev platform : Platform
platform = record {
  l2_cache_line_size = λ arch. 128;
  space_of = λ n. if n == 4 then AddressSpace.shared else AddressSpace.global;
  access_of = λ n. MemoryAccess.read;
  active_lanes = λ exec. 0 ∷ 1 ∷ 2 ∷ [];
  hash = length;
}

abbrev header : MessageType → ℕ → Header
header kind fields = record {
  user_type = kind;
  user_data = fields;
  arch = 1;
  exec = 7;
  timestamp = 0;
  dwarf_fname_hash = 9;
  dwarf_line = 12;
  dwarf_column = 3;
  block_idx_x = 0;
  block_idx_y = 0;
  block_idx_z = 0;
  wave_num = 0;
  xcc_id = 0;
  se_id = 0;
  cu_id = 0;
  active_lane_count = 3;
}

-- Three lanes read a dword each: the first two in one bank.
abbrev lds_message : Message
lds_message = record {
  header = header MessageType.address 273;
  addresses = 0 ∷ 128 ∷ 4 ∷ [];
  intervals = [];
}

abbrev global_message : Message
global_message = record {
  header = header MessageType.address 257;
  addresses = 1024 ∷ 1028 ∷ 2048 ∷ [];
  intervals = [];
}

abbrev time_message : Message
time_message = record {
  header = header MessageType.time_interval 0;
  addresses = [];
  intervals = record { start = 100; stop = 130 } ∷ record { start = 90; stop = 110 } ∷ [];
}

abbrev items : List (ℕ × ℕ)
items = (0, 0) ∷ (1, 128) ∷ (2, 4) ∷ []

abbrev dword_sets : List ConflictSet
dword_sets = sets_for 4

count_conflicts_run : (count_conflicts items dword_sets).0 ≡ 1
unfolding count_conflicts sets_for conflict_sets lookup
count_conflicts_run = refl

dword_sets-IsClean : All IsClean dword_sets
unfolding sets_for conflict_sets lookup
dword_sets-IsClean = (refl, (refl, tt))

count_conflicts-IsConflictFree_example :
    ((count_conflicts items dword_sets).0 ≡ 0)
    ↔ ((k : ℕ) → k < length dword_sets → IsConflictFree dword_sets items k)
count_conflicts-IsConflictFree_example =
    count_conflicts-IsConflictFree dword_sets items dword_sets-IsClean

cache_lines_run : cache_lines 128 4 (1024 ∷ 1028 ∷ 2046 ∷ []) [] ≡ 8 ∷ 15 ∷ 16 ∷ []
unfolding cache_lines lines_of insert_all insert
cache_lines_run = refl

cache_lines-Touched_example :
    (contains (cache_lines 128 4 (1024 ∷ 2046 ∷ []) []) 16 ≡ true)
    ↔ Touched 128 4 (1024 ∷ 2046 ∷ []) 16
cache_lines-Touched_example =
    cache_lines-Touched 128 4 (1024 ∷ 2046 ∷ []) 16 (omega arith) (omega arith)
      (omega arith, (omega arith, tt))

initial_fresh : SetsAreFresh initial
unfolding initial
initial_fresh = refl

line_differs : 1 % 2 ^ 16 ≡ 12 % 2 ^ 16 → ⊥
line_differs h = omega (arith, h)

abbrev measured_global : GlobalAccess
measured_global = record {
  access = record {
    no_accesses = 1;
    ir_access_size = 4;
    isa_access_size = 0;
    rw_kind = 1;
    isa_instruction = [];
  };
  min_cache_lines_needed = 1;
  no_cache_lines_used = 2;
}

global_measured :
    measure_global platform 128 (info_of platform global_message initial) global_message
    ≡ some measured_global
unfolding measure_global initial get_dwarf_info cache_lines min_cache_lines lines_of insert
    insert_all
global_measured = refl

abbrev heat_message : Message
heat_message = record {
  header = header MessageType.address 257;
  addresses = 4096 ∷ 8191 ∷ 8192 ∷ [];
  intervals = [];
}

abbrev empty_map : Heatmap.Heatmap
empty_map = record { page_size = 4096; page_counts = [] }

heat_small :
    Heatmap.count_at (1 * 4096) empty_map.page_counts
      + Heatmap.hits (1 * 4096) (1 * 4096 + 4096) heat_message.addresses
    < two64
unfolding Heatmap.count_at Heatmap.hits lookup
heat_small = omega arith

time_ordered :
    All
      (λ ti. (ti.start ≤ ti.stop) × (ti.stop < two64))
      (TimeInterval.intervals_of (time_message ∷ lds_message ∷ []))
unfolding TimeInterval.intervals_of
time_ordered = ((omega arith, omega arith), ((omega arith, omega arith), tt))

time_small :
    TimeInterval.covered (TimeInterval.intervals_of (time_message ∷ lds_message ∷ [])) < two64
unfolding TimeInterval.intervals_of TimeInterval.covered
time_small = omega arith

time_short : length (TimeInterval.intervals_of (time_message ∷ lds_message ∷ [])) < two64
unfolding TimeInterval.intervals_of
time_short = omega arith

handle_all-SetsAreFresh_example :
    SetsAreFresh (handle_all platform (lds_message ∷ global_message ∷ []) initial)
handle_all-SetsAreFresh_example =
    handle_all-SetsAreFresh platform (lds_message ∷ global_message ∷ []) initial initial_fresh

handle_refused_example :
    Answers
      (is_refused platform time_message initial)
      initial
      (handle platform time_message initial)
handle_refused_example = handle_refused platform time_message initial

handle_global_totals_example :
    (executions (global_here [] global_message.header (handle platform global_message initial).0)
      ≡ executions (global_here [] global_message.header initial) + 1)
    × (lines_needed
          (global_here [] global_message.header (handle platform global_message initial).0)
        ≡ lines_needed (global_here [] global_message.header initial)
          + measured_global.min_cache_lines_needed)
    × (lines_used (global_here [] global_message.header (handle platform global_message initial).0)
        ≡ lines_used (global_here [] global_message.header initial)
          + measured_global.no_cache_lines_used)
    × (located_at (codes "other.hip") 1 1 (handle platform global_message initial).0.global_accesses
        ≡ located_at (codes "other.hip") 1 1 initial.global_accesses)
    × ((handle platform global_message initial).0.lds_accesses ≡ initial.lds_accesses)
unfolding initial get_dwarf_info located_at lookup
handle_global_totals_example =
    handle_global_totals platform global_message initial measured_global refl refl refl refl
      global_measured (codes "other.hip") 1 1 (omega arith) (omega arith) (omega arith)
      (λ same. line_differs same.1)

handle_all-Describes_example :
    TimeInterval.Describes
      (TimeInterval.handle_all (time_message ∷ lds_message ∷ []) TimeInterval.initial)
      (TimeInterval.intervals_of (time_message ∷ lds_message ∷ []))
handle_all-Describes_example =
    TimeInterval.handle_all-Describes (time_message ∷ lds_message ∷ []) time_ordered time_small
      time_short
