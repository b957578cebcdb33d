-- ===== src/Passes/Addresses.antt =====
-- AMDGCNSubmitAddressMessage (src/instrumentation/AMDGCNSubmitAddressMessages.cpp): a call of
-- v_submit_address in front of each load, store and buffer access within the scope. LocationCounter, which
-- serves the printed text alone, is left out.
use omniprobe.Prelude.{
  ℕ, ◌%◌, ◌^◌, Bool, true, false, not, ◌||◌, List, [], ◌∷◌, ◌++◌, Option, none, some, Bytes, codes,
  starts_with, if◌then◌else◌,
}
use omniprobe.Scope.{Scope, matches}
use omniprobe.Passes.{
  Location, Operand, Instruction, Opcode, load, store, call, Value, existing, buffer_argument,
  null_pointer, int8, int16, int32, int64, ptr_to_int, sign_extend, int_to_ptr, pointer_cast,
  sum_of, Item, kept, inserted_call, get_full_path, file_of, line_of, column_of, pointer,
  other_type, Toolchain, IrModule,
}
use omniprobe.Passes.Clones.{Callee, Instrument, run_on_module}

unfoldable pub is_amdgcn_buffer_load : Option Bytes → Bool
is_amdgcn_buffer_load none = false
is_amdgcn_buffer_load (some name) =
    starts_with (codes "llvm.amdgcn.raw.ptr.buffer.load") name
    || starts_with (codes "llvm.amdgcn.struct.ptr.buffer.load") name

unfoldable pub is_amdgcn_buffer_store : Option Bytes → Bool
is_amdgcn_buffer_store none = false
is_amdgcn_buffer_store (some name) =
    starts_with (codes "llvm.amdgcn.raw.ptr.buffer.store") name
    || starts_with (codes "llvm.amdgcn.struct.ptr.buffer.store") name

-- The call, with the arguments in the order and the widths of the code.
unfoldable pub submit_address :
    (Bytes → ℕ) → Value → Option Location → (access_type address_space size : ℕ) → Item
submit_address hash address loc access_type address_space size =
    inserted_call (codes "v_submit_address") (
      buffer_argument
      ∷ address
      ∷ int64 (hash (file_of loc) % 2 ^ 64)
      ∷ int32 (line_of loc % 2 ^ 32)
      ∷ int32 (column_of loc % 2 ^ 32)
      ∷ int8 access_type
      ∷ int8 (address_space % 2 ^ 8)
      ∷ int16 (size % 2 ^ 16)
      ∷ [])

-- `OrigPtr`: the pointer that the buffer descriptor was made of, if that can be seen.
unfoldable pub original_pointer : Operand → Value
original_pointer desc = elim (desc.source) [
  | none ↦ null_pointer
  | some (none, arg) ↦ null_pointer
  | some (some name, arg) ↦
      if starts_with (codes "llvm.amdgcn.make.buffer.rsrc") name then existing arg else null_pointer
]

-- `ActualAddr`. It has the type of the added argument, a pointer to the address space 0, and so it is not
-- cast.
unfoldable pub buffer_address : Operand → Operand → Value
unfolding original_pointer
buffer_address desc offset =
    int_to_ptr (sum_of (ptr_to_int (original_pointer desc)) (sign_extend (existing offset.value)))

-- `InjectBufferInstrumentationFunction`; an argument that is not there fails an assertion.
unfoldable pub inject_buffer : (Bytes → ℕ) → Bool → List Operand → ℕ → Option Location → Option Item
unfolding buffer_address submit_address
inject_buffer hash true (desc ∷ offset ∷ rest) result_size loc =
    some (submit_address hash (buffer_address desc offset) loc 1 1 result_size)
inject_buffer hash false (value ∷ desc ∷ offset ∷ rest) result_size loc =
    some (submit_address hash (buffer_address desc offset) loc 2 1 value.store_size)
inject_buffer hash is_load args result_size loc = none

abbrev pub one_item : Option Item → Option (List Item)
one_item none = none
one_item (some item) = some (item ∷ [])

-- What is inserted in front of an instruction that is in the scope, by what it is.
unfoldable pub inject : (Bytes → ℕ) → Option Location → Opcode → Option (List Item)
unfolding submit_address inject_buffer is_amdgcn_buffer_load is_amdgcn_buffer_store
inject hash loc (load ptr size) =
    some (submit_address hash (pointer_cast (existing ptr.value)) loc 1 ptr.address_space size ∷ [])
inject hash loc (store ptr size) =
    some (submit_address hash (pointer_cast (existing ptr.value)) loc 2 ptr.address_space size ∷ [])
inject hash loc (call callee args size) =
    if is_amdgcn_buffer_load callee
    then one_item (inject_buffer hash true args size loc)
    else if is_amdgcn_buffer_store callee
    then one_item (inject_buffer hash false args size loc)
    else some []
inject hash loc opcode = some []

-- An active scope skips what has no location, and what does not match.
unfoldable pub in_scope : Scope → Option Location → Bool
unfolding matches
in_scope scope none = not scope.active
in_scope scope (some loc) =
    if scope.active then matches scope (get_full_path loc) loc.line else true

abbrev pub is_empty_list : List Item → Bool
is_empty_list [] = true
is_empty_list (i ∷ is) = false

-- The loops over the instructions of a block and over the blocks of the clone.
unfoldable pub instrument_block : (Bytes → ℕ) → Scope → List Instruction → Option (List Item × Bool)
unfolding inject in_scope
instrument_block hash scope [] = some ([], false)
instrument_block hash scope (inst ∷ rest) =
    elim (if in_scope scope inst.debug_loc
      then inject hash inst.debug_loc inst.opcode
      else some []) [
        | none ↦ none
        | some items ↦ elim (instrument_block hash scope rest) [
          | none ↦ none
          | some (later, modified) ↦
              some (items ++ (kept inst ∷ later), not (is_empty_list items) || modified)
        ]
      ]

unfoldable pub instrument_addresses : (Bytes → ℕ) → Scope → Instrument
unfolding instrument_block
instrument_addresses hash scope [] = some ([], false)
instrument_addresses hash scope (block ∷ rest) = elim (instrument_block hash scope block) [
  | none ↦ none
  | some (items, modified) ↦ elim (instrument_addresses hash scope rest) [
    | none ↦ none
    | some (blocks, later) ↦ some (items ∷ blocks, modified || later)
  ]
]

-- The type of v_submit_address.
unfoldable pub v_submit_address : Callee
v_submit_address = record {
  name = codes "v_submit_address";
  parameter_types =
      pointer 0
      ∷ pointer 0
      ∷ other_type 64
      ∷ other_type 32
      ∷ other_type 32
      ∷ other_type 8
      ∷ other_type 8
      ∷ other_type 16
      ∷ [];
  return_type = other_type 0;
}

-- `runOnModule`, with the scope that the environment gives.
unfoldable pub submit_address_messages :
    Toolchain → Scope → IrModule Instruction → Option (IrModule Item × Bool)
unfolding run_on_module instrument_addresses v_submit_address
submit_address_messages tools scope =
    run_on_module tools (instrument_addresses tools.hash scope) (v_submit_address ∷ [])
