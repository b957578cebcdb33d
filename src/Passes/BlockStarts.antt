-- ===== src/Passes/BlockStarts.antt =====
-- AMDGCNSubmitBBStart (src/instrumentation/AMDGCNSubmitBBStart.cpp): a call of s_submit_wave_header at the
-- start of each block, with the number of the block.
use omniprobe.Prelude.{
  ℕ, ◌+◌, ◌%◌, ◌^◌, Bool, true, false, ◌||◌, List, [], ◌∷◌, map, Option, some, Bytes, codes,
  if◌then◌else◌,
}
use omniprobe.Passes.{
  Location, Instruction, Opcode, phi, buffer_argument, int32, int64, Item, kept, inserted_call,
  file_of, line_of, column_of, pointer, other_type, Toolchain, IrModule,
}
use omniprobe.Passes.Clones.{Callee, Instrument, run_on_module}

abbrev pub is_phi : Opcode → Bool
is_phi phi = true
is_phi opcode = false

-- The call that `InjectInstrumentationFunction` inserts; 2 is the type of a message of a block's start.
unfoldable pub submit_wave_header : (Bytes → ℕ) → Option Location → ℕ → Item
submit_wave_header hash loc location_counter = inserted_call (codes "s_submit_wave_header") (
    buffer_argument
    ∷ int64 (hash (file_of loc) % 2 ^ 64)
    ∷ int32 (line_of loc % 2 ^ 32)
    ∷ int32 (column_of loc % 2 ^ 32)
    ∷ int32 2
    ∷ int32 location_counter
    ∷ [])

-- The first instruction that is no phi gets the call in front of it, if there is one.
unfoldable pub mark_block : (Bytes → ℕ) → ℕ → List Instruction → List Item × Bool
unfolding submit_wave_header
mark_block hash location_counter [] = ([], false)
mark_block hash location_counter (inst ∷ rest) =
    let (items, marked) = mark_block hash location_counter rest in
    if is_phi inst.opcode then (kept inst ∷ items, marked) else (
      submit_wave_header hash inst.debug_loc location_counter ∷ (kept inst ∷ map kept rest),
      true,
    )

-- The loop over the blocks, with LocationCounter and ModifiedCodeGen.
unfoldable pub mark_blocks : (Bytes → ℕ) → ℕ → List (List Instruction) → List (List Item) × Bool
unfolding mark_block
mark_blocks hash location_counter [] = ([], false)
mark_blocks hash location_counter (block ∷ rest) =
    let (items, marked) = mark_block hash location_counter block in
    let (blocks, modified) =
      mark_blocks hash (if marked then (location_counter + 1) % 2 ^ 32 else location_counter)
        rest in
    (items ∷ blocks, marked || modified)

unfoldable pub instrument_block_starts : (Bytes → ℕ) → Instrument
unfolding mark_blocks
instrument_block_starts hash blocks = some (mark_blocks hash 0 blocks)

unfoldable pub s_submit_wave_header : Callee
s_submit_wave_header = record {
  name = codes "s_submit_wave_header";
  parameter_types =
      pointer 0
      ∷ other_type 64
      ∷ other_type 32
      ∷ other_type 32
      ∷ other_type 32
      ∷ other_type 32
      ∷ [];
  return_type = other_type 0;
}

-- `runOnModule`.
unfoldable pub submit_bb_start : Toolchain → IrModule Instruction → Option (IrModule Item × Bool)
unfolding run_on_module instrument_block_starts s_submit_wave_header
submit_bb_start tools =
    run_on_module tools (instrument_block_starts tools.hash) (s_submit_wave_header ∷ [])
