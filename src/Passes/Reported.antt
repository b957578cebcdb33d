-- ===== src/Passes/Reported.antt =====
-- What the messages of an instrumented block report of its accesses, for the pass of
-- src/instrumentation/AMDGCNSubmitAddressMessages.cpp. How LLVM computes addresses is a parameter.
use omniprobe.Prelude.{
  ℕ, ◌+◌, ◌%◌, ◌^◌, ◌≡◌, Bool, true, false, not, ◌&&◌, ◌||◌, ◌==◌, List, [], ◌∷◌, ◌++◌, Option,
  none, some, Bytes, codes, starts_with, text_eq, if◌then◌else◌,
}
use omniprobe.Scope.{Scope, matches}
use omniprobe.Passes.{
  Location, Operand, Instruction, Opcode, load, store, call, Value, existing, buffer_argument,
  null_pointer, int8, int16, int32, int64, ptr_to_int, sign_extend, int_to_ptr, pointer_cast,
  sum_of, Item, kept, inserted_call, inserted_alloca, inserted_store, get_full_path, file_of,
  line_of, column_of,
}
use omniprobe.Passes.Addresses.{is_amdgcn_buffer_load, is_amdgcn_buffer_store}

-- What the values are when the code runs. The laws are those of the LLVM instructions.
pub record Machine : Type 0 where
  pub value : Value → ℕ
  pub extended : ℕ → ℕ
  pub null_pointer_lem : value null_pointer ≡ 0
  pub ptr_to_int_lem : (v : Value) → value (ptr_to_int v) ≡ value v
  pub int_to_ptr_lem : (v : Value) → value (int_to_ptr v) ≡ value v
  pub sign_extend_lem : (v : Value) → value (sign_extend v) ≡ extended (value v)
  pub sum_of_lem : (v w : Value) → value (sum_of v w) ≡ (value v + value w) % 2 ^ 64

-- What a message says of an access.
pub record Report : Type 0 where
  pub address : ℕ
  pub file_hash : ℕ
  pub line : ℕ
  pub column : ℕ
  pub access_type : ℕ
  pub address_space : ℕ
  pub size : ℕ

pub data Event : Type 0 where
  executed : Instruction → Event
  reported : Report → Event

-- v_submit_address by its parameters: what is sent.
unfoldable pub received : Machine → List Value → Option Report
received m
      (buffer_argument
        ∷ address
        ∷ int64 hash
        ∷ int32 line
        ∷ int32 column
        ∷ int8 type
        ∷ int8 space
        ∷ int16 size
        ∷ []) =
    some (record {
      address = m.value address;
      file_hash = hash;
      line = line;
      column = column;
      access_type = type;
      address_space = space;
      size = size;
    })
received m args = none

unfoldable pub events_of : Option Report → List Event
events_of none = []
events_of (some report) = reported report ∷ []

-- What a run through the items does.
unfoldable pub trace : Machine → List Item → List Event
unfolding received events_of
trace m [] = []
trace m (kept inst ∷ rest) = executed inst ∷ trace m rest
trace m (inserted_call name args ∷ rest) =
    let later = trace m rest in
    if text_eq name (codes "v_submit_address") then events_of (received m args) ++ later else later
trace m (inserted_alloca n ∷ rest) = trace m rest
trace m (inserted_store v p ∷ rest) = trace m rest

-- The access of an instruction: its address, kind, address space and size.
pub record IrAccess : Type 0 where
  pub address : ℕ
  pub access_type : ℕ
  pub address_space : ℕ
  pub size : ℕ

-- The base of a buffer, which is 0 if the pointer is not known.
unfoldable pub base_of : Machine → Operand → ℕ
base_of m desc = elim (desc.source) [
  | none ↦ 0
  | some (none, arg) ↦ 0
  | some (some name, arg) ↦
      if starts_with (codes "llvm.amdgcn.make.buffer.rsrc") name then m.value (existing arg) else 0
]

-- A buffer access is at the base, the offset and the scalar offset together.
abbrev buffer_access : Machine → Operand → Operand → Operand → (kind size : ℕ) → Option IrAccess
buffer_access m desc offset scalar kind size = some (record {
  address =
      (base_of m desc
        + m.extended (m.value (existing offset.value))
        + m.value (existing scalar.value))
      % 2 ^ 64;
  access_type = kind;
  address_space = 1;
  size = size;
})

unfoldable pub load_access : Machine → List Operand → ℕ → Option IrAccess
unfolding base_of
load_access m (desc ∷ offset ∷ scalar ∷ rest) size = buffer_access m desc offset scalar 1 size
load_access m args size = none

unfoldable pub store_access : Machine → List Operand → Option IrAccess
unfolding base_of
store_access m (value ∷ desc ∷ offset ∷ scalar ∷ rest) =
    buffer_access m desc offset scalar 2 value.store_size
store_access m args = none

unfoldable pub accessed : Machine → Opcode → Option IrAccess
unfolding load_access store_access is_amdgcn_buffer_load is_amdgcn_buffer_store
accessed m (load ptr size) = some (record {
  address = m.value (pointer_cast (existing ptr.value));
  access_type = 1;
  address_space = ptr.address_space;
  size = size;
})
accessed m (store ptr size) = some (record {
  address = m.value (pointer_cast (existing ptr.value));
  access_type = 2;
  address_space = ptr.address_space;
  size = size;
})
accessed m (call callee args size) =
    if is_amdgcn_buffer_load callee
    then load_access m args size
    else if is_amdgcn_buffer_store callee
    then store_access m args
    else none
accessed m opcode = none

-- The descriptor is made of a pointer where it can be seen.
unfoldable pub has_base : Operand → Bool
has_base desc = elim (desc.source) [
  | none ↦ false
  | some (none, arg) ↦ false
  | some (some name, arg) ↦ starts_with (codes "llvm.amdgcn.make.buffer.rsrc") name
]

unfoldable pub is_struct : Option Bytes → Bool
is_struct none = false
is_struct (some name) = starts_with (codes "llvm.amdgcn.struct.ptr.buffer") name

-- The arguments of a buffer access whose base can be seen and whose scalar offset is 0.
abbrev pub is_plain_load : Machine → List Operand → Bool
is_plain_load m (desc ∷ offset ∷ scalar ∷ rest) =
    has_base desc && m.value (existing scalar.value) == 0
is_plain_load m args = false

abbrev pub is_plain_store : Machine → List Operand → Bool
is_plain_store m (value ∷ desc ∷ offset ∷ scalar ∷ rest) =
    has_base desc && m.value (existing scalar.value) == 0
is_plain_store m args = false

-- A buffer access is a raw one, with such arguments.
unfoldable pub is_plain : Machine → Opcode → Bool
unfolding is_amdgcn_buffer_load is_amdgcn_buffer_store
is_plain m (call callee args size) =
    if is_amdgcn_buffer_load callee
    then not (is_struct callee) && is_plain_load m args
    else if is_amdgcn_buffer_store callee
    then not (is_struct callee) && is_plain_store m args
    else true
is_plain m opcode = true

-- The message of an access: its numbers in the width of the fields, with the source location.
unfoldable pub report_of : (Bytes → ℕ) → Option Location → Option IrAccess → Option Report
report_of hash loc none = none
report_of hash loc (some access) = some (record {
  address = access.address;
  file_hash = hash (file_of loc) % 2 ^ 64;
  line = line_of loc % 2 ^ 32;
  column = column_of loc % 2 ^ 32;
  access_type = access.access_type;
  address_space = access.address_space % 2 ^ 8;
  size = access.size % 2 ^ 16;
})

unfoldable pub is_selected : Scope → Option Location → Bool
unfolding matches
is_selected scope none = not scope.active
is_selected scope (some loc) = not scope.active || matches scope (get_full_path loc) loc.line

abbrev pub report_in : (Bytes → ℕ) → Scope → Machine → Instruction → Option Report
report_in hash scope m inst =
    if is_selected scope inst.debug_loc
    then report_of hash inst.debug_loc (accessed m inst.opcode)
    else none

-- Each selected access is reported directly before it is made, and nothing else is.
unfoldable pub expected : (Bytes → ℕ) → Scope → Machine → List Instruction → List Event
unfolding accessed report_of is_selected events_of
expected hash scope m [] = []
expected hash scope m (inst ∷ rest) =
    events_of (report_in hash scope m inst) ++ (executed inst ∷ expected hash scope m rest)

abbrev pub is_report : Option Report → Bool
is_report none = false
is_report (some report) = true

unfoldable pub reports_any : (Bytes → ℕ) → Scope → Machine → List Instruction → Bool
unfolding accessed report_of is_selected
reports_any hash scope m [] = false
reports_any hash scope m (inst ∷ rest) =
    is_report (report_in hash scope m inst) || reports_any hash scope m rest
