-- ===== src/Comms.antt =====
-- What the message handlers (src/*_handler.cc, src/memory_heatmap.cc, src/basic_block_analysis.cc)
-- read of the two external libraries: a dh_comms message, the constants of dh_comms, and the
-- kernelDB queries. None of that code is in the repository, so all of it is data or a parameter.
use omniprobe.Prelude.{ℕ, List, Option, Bytes}

-- dh_comms::message_type, as far as the handlers tell values apart.
pub data MessageType : Type 0 where
  address time_interval : MessageType
  other : ℕ → MessageType

-- dh_comms::memory_access.
pub data MemoryAccess : Type 0 where
  undefined read write read_write : MemoryAccess

-- dh_comms::address_space; `unknown` stands for a value that is none of the enumerators.
pub data AddressSpace : Type 0 where
  flat global gds shared constant scratch undefined unknown : AddressSpace

-- The fields of dh_comms::wave_header_t that the handlers read.
pub record Header : Type 0 where
  pub user_type : MessageType
  pub user_data : ℕ
  pub arch : ℕ
  pub exec : ℕ
  pub timestamp : ℕ
  pub dwarf_fname_hash : ℕ
  pub dwarf_line : ℕ
  pub dwarf_column : ℕ
  pub block_idx_x : ℕ
  pub block_idx_y : ℕ
  pub block_idx_z : ℕ
  pub wave_num : ℕ
  pub xcc_id : ℕ
  pub se_id : ℕ
  pub cu_id : ℕ
  pub active_lane_count : ℕ

-- dh_comms::time_interval.
pub record Interval : Type 0 where
  pub start : ℕ
  pub stop : ℕ

-- A message: its header, and its data items read as uint64_t and as time_interval.
pub record Message : Type 0 where
  pub header : Header
  pub addresses : List ℕ
  pub intervals : List Interval

-- An instruction of kernelDB, with its source location.
pub record Instruction : Type 0 where
  pub inst : Bytes
  pub path_id : ℕ
  pub line : ℕ
  pub column : ℕ

-- The queries of kernelDB that the memory analysis makes; `none` is an exception.
pub record KernelDb : Type 0 where
  pub instructions_for_line : Bytes → ℕ → Option (List Instruction)
  pub file_name : Bytes → ℕ → Option Bytes

-- Constants and helpers of dh_comms and of the C++ library.
pub record Platform : Type 0 where
  pub l2_cache_line_size : ℕ → ℕ
  pub space_of : ℕ → AddressSpace
  pub access_of : ℕ → MemoryAccess
  pub active_lanes : ℕ → List ℕ
  pub hash : Bytes → ℕ
