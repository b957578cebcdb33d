-- ===== src/Passes.antt =====
-- What the instrumentation passes of src/instrumentation read of a module of LLVM IR, and what they put
-- into it. LLVM is not in the repository: a module is the data that the passes ask for, and the calls
-- that change it or read files are the fields of `Toolchain`.
pub mod Linking
pub mod Clones
pub mod Addresses
pub mod Reported
pub mod BlockStarts
pub mod Intervals
pub mod Blocks
pub mod Messages
pub mod Modules
pub mod Found
use omniprobe.Prelude.{ℕ, Bool, List, Option, none, some, Bytes, [], ◌∷◌, ◌++◌, codes}

-- DILocation: the directory and the name of the file of its scope, if it has one, and the position.
pub record Location : Type 0 where
  pub file : Option (Bytes × Bytes)
  pub line : ℕ
  pub column : ℕ

-- Types: only pointers and their address spaces are told apart.
pub data IrType : Type 0 where
  pointer : ℕ → IrType
  other_type : ℕ → IrType

-- A pointer operand: the value, and the address space of the pointer without its casts.
pub record Pointer : Type 0 where
  pub value : ℕ
  pub address_space : ℕ

-- An argument of a call: the value, the size of its type in memory and, if it is the result of a call,
-- the name of the function that is called, if that is known, with the call's first argument.
pub record Operand : Type 0 where
  pub value : ℕ
  pub store_size : ℕ
  pub source : Option (Option Bytes × ℕ)

-- What `dyn_cast` tells the passes of an instruction. A load or a store has its pointer operand and the
-- size of the value's type in memory; a call has its callee, its arguments and the size of its result.
pub data Opcode : Type 0 where
  load store : Pointer → ℕ → Opcode
  call : Option Bytes → List Operand → ℕ → Opcode
  phi terminator other : Opcode

pub record Instruction : Type 0 where
  pub id : ℕ
  pub opcode : Opcode
  pub debug_loc : Option Location

-- A value that a pass hands to a call: one that the kernel has, the argument that the pass has added,
-- a constant, or what the builder computes of these.
pub data Value : Type 0 where
  existing : ℕ → Value
  buffer_argument null_pointer clock_result time_interval : Value
  int8 int16 int32 int64 : ℕ → Value
  ptr_to_int sign_extend int_to_ptr pointer_cast : Value → Value
  sum_of : Value → Value → Value
  element : Value → ℕ → Value

-- An instruction of an instrumented block. The casts and sums of the builder stand where they are used.
pub data Item : Type 0 where
  kept : Instruction → Item
  inserted_call : Bytes → List Value → Item
  inserted_alloca : ℕ → Item
  inserted_store : Value → Value → Item

pub record Param : Type 0 where
  pub name : Bytes
  pub type : IrType

-- A function, over the instructions of its blocks. `attributes` stands for what copyAttributesFrom
-- copies beside the calling convention and the target.
pub record Function (I : Type 0) : Type 0 where
  pub name : Bytes
  pub params : List Param
  pub return_type : IrType
  pub is_var_arg : Bool
  pub linkage : ℕ
  pub address_space : ℕ
  pub is_intrinsic : Bool
  pub is_kernel : Bool
  pub target_cpu : Option Bytes
  pub attributes : ℕ
  pub blocks : List (List I)

pub record IrModule (I : Type 0) : Type 0 where
  pub target_triple : Bytes
  pub target_cpu : Option Bytes
  pub functions : List (Function I)

-- LLVM and the file system: the path that dladdr gives, files, bitcode, the linker (with `true` for an
-- error, as there), the copy of a body into a clone, the name that a new function gets beside the names that
-- are taken, and std::hash.
pub record Toolchain : Type 0 where
  pub plugin_path : Option Bytes
  pub is_directory : Bytes → Bool
  pub exists : Bytes → Bool
  pub get_file : Bytes → Option Bytes
  pub parse_bitcode_file : Bytes → Option (IrModule Instruction)
  pub link_modules : IrModule Instruction → IrModule Instruction → IrModule Instruction × Bool
  pub clone_body : List (List Instruction) → List (List Instruction)
  pub unique_name : List Bytes → Bytes → Bytes
  pub hash : Bytes → ℕ

-- `getFullPath` of a location.
unfoldable pub get_full_path : Location → Bytes
get_full_path loc = elim (loc.file) [
  | none ↦ []
  | some (directory, name) ↦ elim directory [ [] ↦ name | c ∷ rest ↦ (c ∷ rest) ++ (b'/' ∷ name) ]
]

-- The constants of a location: the path that is hashed, the line and the column.
abbrev pub file_of : Option Location → Bytes
file_of none = codes "<unknown source file>"
file_of (some loc) = get_full_path loc

abbrev pub line_of : Option Location → ℕ
line_of none = 0
line_of (some loc) = loc.line

abbrev pub column_of : Option Location → ℕ
column_of none = 0
column_of (some loc) = loc.column
