-- ===== src/MemoryAnalysis/Handler.antt =====
-- The handler of src/memory_analysis_handler.cc: its tables and state, `handle` with its two
-- analyses, and `clear`. The messages that it prints when verbose are not modelled, and the two
-- asserts are read as conditions on the messages: a lane for each data item, aligned addresses.
pub mod Effects
pub mod Global
use omniprobe.Prelude.{
  ℕ, ◌+◌, Bool, true, false, not, ◌&&◌, List, [], ◌∷◌, Option, none, some, length, Bytes, codes,
  text_eq, if◌then◌else◌, ◌==◌,
}
use omniprobe.Prelude.Maps.{lookup, upsert, assign, nat_key, text_key}
use omniprobe.Comms.{Header, MessageType, AddressSpace, Message, KernelDb, Platform}
use omniprobe.MemoryAnalysis.Accesses.{
  LdsAccess, GlobalAccess, Located, or_empty, update_located, merge_global, merge_lds,
}
use omniprobe.MemoryAnalysis.Dwarf.{DwarfInfo, get_dwarf_info, rw_kind_of, space_field, ir_size_of}
use omniprobe.MemoryAnalysis.Conflict.{ConflictSet, conflict_sets, count_conflicts}
use omniprobe.MemoryAnalysis.CacheLines.{cache_lines, min_cache_lines}

-- The members of memory_analysis_handler_t that `handle` reads and writes, and the context that
-- kdb_message_handler_base holds.
pub record State : Type 0 where
  pub sets : List (ℕ × List ConflictSet)
  pub global_accesses : Located GlobalAccess
  pub lds_accesses : Located LdsAccess
  pub fname_hash_to_fname : List (ℕ × Bytes)
  pub kernel_name : Bytes
  pub kdb : Option KernelDb

unfoldable pub initial : State
initial = record {
  sets = conflict_sets;
  global_accesses = [];
  lds_accesses = [];
  fname_hash_to_fname = [];
  kernel_name = [];
  kdb = none;
}

-- The entry that one global access makes, or nothing if the message is dropped.
unfoldable pub measure_global : Platform → ℕ → DwarfInfo → Message → Option GlobalAccess
unfolding cache_lines min_cache_lines
measure_global p line_size info message =
    let ir = ir_size_of message.header in
    let corrected = not (info.access_size == 0) && not (info.access_size == ir) in
    let data_size = if corrected then info.access_size else ir in
    let needed = min_cache_lines line_size data_size (length message.addresses) in
    let used = length (cache_lines line_size data_size message.addresses []) in
    let current : GlobalAccess = record {
      access = record {
        no_accesses = 1;
        ir_access_size = ir;
        isa_access_size = info.access_size;
        rw_kind = rw_kind_of message.header;
        isa_instruction = info.isa_instruction;
      };
      min_cache_lines_needed = needed;
      no_cache_lines_used = used;
    } in
    if corrected && used == needed + 1 then none else some current

-- handle_cache_line_count_analysis.
unfoldable pub handle_cache_line_count_analysis : Platform → Message → State → State × Bool
unfolding get_dwarf_info measure_global update_located merge_global
handle_cache_line_count_analysis p message st =
    let h = message.header in
    let line_size = p.l2_cache_line_size h.arch in
    let info = get_dwarf_info p st.kdb st.kernel_name h in
    if line_size == 0
    then (st, false)
    else if info.access_size == 0xffff
    then (st, true)
    else elim (measure_global p line_size info message) [
      | none ↦ (st, true)
      | some current ↦ (
        record st {
          global_accesses =
              update_located info.fname h.dwarf_line h.dwarf_column (merge_global current)
                st.global_accesses;
          fname_hash_to_fname = assign h.dwarf_fname_hash info.fname st.fname_hash_to_fname;
        },
        true,
      )
    ]

-- The data items with the lanes that made them.
unfoldable pub zip : List ℕ → List ℕ → List (ℕ × ℕ)
zip (lane ∷ lanes) (address ∷ addresses) = (lane, address) ∷ zip lanes addresses
zip _ _ = []

-- `fname_hash_to_fname[hash]`, which makes an empty entry if there is none.
abbrev pub named : Bytes → Bytes
named fname = if text_eq fname [] then codes "<unknown source file>" else fname

-- The file name of an LDS access, through the hash.
abbrev pub lds_file : State → Header → Bytes
lds_file st h = named (or_empty (lookup h.dwarf_fname_hash st.fname_hash_to_fname))

abbrev pub lds_entry : Header → ℕ → LdsAccess
lds_entry h conflicts = record {
  access = record {
    no_accesses = 1;
    ir_access_size = ir_size_of h;
    isa_access_size = 0;
    rw_kind = rw_kind_of h;
    isa_instruction = [];
  };
  no_bank_conflicts = conflicts;
}

-- handle_bank_conflict_analysis.
unfoldable pub handle_bank_conflict_analysis : Platform → Message → State → State × Bool
unfolding zip count_conflicts update_located merge_lds
handle_bank_conflict_analysis p message st =
    let h = message.header in
    let size = ir_size_of h in
    let items = zip (p.active_lanes h.exec) message.addresses in
    elim (lookup size st.sets) [
      | none ↦ (st, false)
      | some sets ↦
          let counted = count_conflicts items sets in
          let names = upsert h.dwarf_fname_hash or_empty st.fname_hash_to_fname in
          (
            record st {
              sets = assign size counted.1 st.sets;
              lds_accesses =
                  update_located (lds_file st h) h.dwarf_line h.dwarf_column
                    (merge_lds (lds_entry h counted.0)) st.lds_accesses;
              fname_hash_to_fname = names;
            },
            true,
          )
    ]

-- The switch of `handle` on the address space.
unfoldable pub handle_space : Platform → AddressSpace → Message → State → State × Bool
unfolding handle_cache_line_count_analysis handle_bank_conflict_analysis
handle_space p AddressSpace.global message st = handle_cache_line_count_analysis p message st
handle_space p AddressSpace.shared message st = handle_bank_conflict_analysis p message st
handle_space p _ message st = (st, false)

unfoldable pub handle_type : Platform → MessageType → Message → State → State × Bool
unfolding handle_space
handle_type p MessageType.address message st =
    handle_space p (p.space_of (space_field message.header)) message st
handle_type p _ message st = (st, false)

unfoldable pub handle : Platform → Message → State → State × Bool
unfolding handle_type
handle p message st = handle_type p message.header.user_type message st

unfoldable pub clear : State → State
clear st = record st { global_accesses = []; lds_accesses = [] }
