-- ===== src/MemoryAnalysis/Dwarf.antt =====
-- get_dwarf_info of src/memory_analysis_handler.cc: the size of an access at the level of the
-- instruction set, found by its source location.
use omniprobe.Prelude.{
  ℕ, ◌/◌, ◌%◌, ◌^◌, Bool, true, false, ◌&&◌, List, [], ◌∷◌, Option, none, some, Bytes, codes,
  text_eq, if◌then◌else◌, ◌==◌,
}
use omniprobe.Prelude.Maps.{nat_key, text_key}
use omniprobe.Comms.{MemoryAccess, read, write, Header, Instruction, KernelDb, Platform}

-- access_size_and_type.
pub record SizeAndType : Type 0 where
  pub size : ℕ
  pub access_type : MemoryAccess

abbrev pub entry : ℕ → MemoryAccess → SizeAndType
entry size access_type = record { size = size; access_type = access_type }

-- The known load and store instructions.
unfoldable pub instr_size_map : List (Bytes × SizeAndType)
instr_size_map =
    (codes "global_load_ubyte", entry 1 read)
    ∷ (codes "global_load_sbyte", entry 1 read)
    ∷ (codes "global_load_ubyte_d16", entry 1 read)
    ∷ (codes "global_load_ubyte_d16_hi", entry 1 read)
    ∷ (codes "global_load_sbyte_d16", entry 1 read)
    ∷ (codes "global_load_sbyte_d16_hi", entry 1 read)
    ∷ (codes "global_load_ushort", entry 2 read)
    ∷ (codes "global_load_sshort", entry 2 read)
    ∷ (codes "global_load_short_d16", entry 2 read)
    ∷ (codes "global_load_short_d16_hi", entry 2 read)
    ∷ (codes "global_load_dword", entry 4 read)
    ∷ (codes "global_load_dwordx2", entry 8 read)
    ∷ (codes "global_load_dwordx3", entry 12 read)
    ∷ (codes "global_load_dwordx4", entry 16 read)
    ∷ (codes "global_store_byte", entry 1 write)
    ∷ (codes "global_store_byte_d16_hi", entry 1 write)
    ∷ (codes "global_store_short", entry 2 write)
    ∷ (codes "global_store_short_d16_hi", entry 2 write)
    ∷ (codes "global_store_dword", entry 4 write)
    ∷ (codes "global_store_dwordx2", entry 8 write)
    ∷ (codes "global_store_dwordx3", entry 12 write)
    ∷ (codes "global_store_dwordx4", entry 16 write)
    ∷ (codes "global_load_lds_ubyte", entry 1 read)
    ∷ (codes "global_load_lds_sbyte", entry 1 read)
    ∷ (codes "global_load_lds_ushort", entry 2 read)
    ∷ (codes "global_load_lds_sshort", entry 2 read)
    ∷ (codes "global_load_lds_dword", entry 4 read)
    ∷ (codes "buffer_load_ubyte", entry 1 read)
    ∷ (codes "buffer_load_sbyte", entry 1 read)
    ∷ (codes "buffer_load_ubyte_d16", entry 1 read)
    ∷ (codes "buffer_load_ubyte_d16_hi", entry 1 read)
    ∷ (codes "buffer_load_sbyte_d16", entry 1 read)
    ∷ (codes "buffer_load_sbyte_d16_hi", entry 1 read)
    ∷ (codes "buffer_load_ushort", entry 2 read)
    ∷ (codes "buffer_load_sshort", entry 2 read)
    ∷ (codes "buffer_load_short_d16", entry 2 read)
    ∷ (codes "buffer_load_short_d16_hi", entry 2 read)
    ∷ (codes "buffer_load_dword", entry 4 read)
    ∷ (codes "buffer_load_dwordx2", entry 8 read)
    ∷ (codes "buffer_load_dwordx3", entry 12 read)
    ∷ (codes "buffer_load_dwordx4", entry 16 read)
    ∷ (codes "buffer_store_byte", entry 1 write)
    ∷ (codes "buffer_store_byte_d16_hi", entry 1 write)
    ∷ (codes "buffer_store_short", entry 2 write)
    ∷ (codes "buffer_store_short_d16_hi", entry 2 write)
    ∷ (codes "buffer_store_dword", entry 4 write)
    ∷ (codes "buffer_store_dwordx2", entry 8 write)
    ∷ (codes "buffer_store_dwordx3", entry 12 write)
    ∷ (codes "buffer_store_dwordx4", entry 16 write)
    ∷ []

-- `instr_size_map.find(name)`.
find_size : Bytes → List (Bytes × SizeAndType) → Option SizeAndType
find_size name [] = none
find_size name ((key, value) ∷ rest) = if text_eq key name then some value else find_size name rest

abbrev pub same_access : MemoryAccess → MemoryAccess → Bool
same_access MemoryAccess.undefined MemoryAccess.undefined = true
same_access MemoryAccess.read MemoryAccess.read = true
same_access MemoryAccess.write MemoryAccess.write = true
same_access MemoryAccess.read_write MemoryAccess.read_write = true
same_access _ _ = false

-- The fields of `user_data`.
abbrev pub rw_kind_of : Header → ℕ
rw_kind_of h = h.user_data % 4

abbrev pub space_field : Header → ℕ
space_field h = h.user_data / 4 % 16

abbrev pub ir_size_of : Header → ℕ
ir_size_of h = h.user_data / 64 % 2 ^ 16

-- dwarf_info_t; an access size of 0xffff tells that kernelDB threw.
pub record DwarfInfo : Type 0 where
  pub fname : Bytes
  pub isa_instruction : Bytes
  pub access_size : ℕ

abbrev pub no_info : DwarfInfo
no_info = record { fname = []; isa_instruction = []; access_size = 0 }

abbrev pub not_found : DwarfInfo
not_found = record { fname = []; isa_instruction = []; access_size = 0xffff }

-- Is the instruction at the source location of the message, with a known size and its access type?
unfoldable pub known_size : Platform → Header → Instruction → Bytes → Option ℕ
unfolding find_size instr_size_map
known_size p h i fname =
    if p.hash fname == h.dwarf_fname_hash && i.line == h.dwarf_line && i.column == h.dwarf_column
    then elim (find_size i.inst instr_size_map) [
      | none ↦ none
      | some e ↦
          if same_access e.access_type (p.access_of (rw_kind_of h)) then some e.size else none
    ]
    else none

-- The loop over the instructions of the line; an exception of `getFileName` ends it.
unfoldable pub scan_instructions :
    Platform → KernelDb → Bytes → Header → List Instruction → DwarfInfo
unfolding known_size
scan_instructions p kdb kernel h [] = no_info
scan_instructions p kdb kernel h (i ∷ rest) =
    let later = scan_instructions p kdb kernel h rest in
    elim (kdb.file_name kernel i.path_id) [
      | none ↦ not_found
      | some fname ↦ elim (known_size p h i fname) [
        | none ↦ later
        | some size ↦ record { fname = fname; isa_instruction = i.inst; access_size = size }
      ]
    ]

unfoldable pub get_dwarf_info : Platform → Option KernelDb → Bytes → Header → DwarfInfo
unfolding scan_instructions
get_dwarf_info p none kernel h = no_info
get_dwarf_info p (some kdb) kernel h = elim (kdb.instructions_for_line kernel h.dwarf_line) [
  | none ↦ not_found
  | some instructions ↦ scan_instructions p kdb kernel h instructions
]
