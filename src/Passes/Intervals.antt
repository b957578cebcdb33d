-- ===== src/Passes/Intervals.antt =====
-- AMDGCNSubmitBBInterval (src/instrumentation/AMDGCNSubmitBBInterval.cpp): the clock is read at the start and
-- at the end of each block, and the interval is sent with the number of the block.
use omniprobe.Prelude.{
  ℕ, ◌+◌, ◌%◌, ◌^◌, Bool, true, false, List, [], ◌∷◌, ◌++◌, Option, none, some, Bytes, codes,
  if◌then◌else◌,
}
use omniprobe.Passes.{
  Location, Instruction, Opcode, terminator, buffer_argument, clock_result, time_interval, int32,
  int64, pointer_cast, element, Item, kept, inserted_call, inserted_alloca, inserted_store,
  get_full_path, pointer, other_type, Toolchain, IrModule,
}
use omniprobe.Passes.Clones.{Callee, Instrument, run_on_module}
use omniprobe.Passes.BlockStarts.{is_phi}

abbrev pub is_terminator : Opcode → Bool
is_terminator terminator = true
is_terminator opcode = false

-- What is inserted at the start of a block.
unfoldable pub starting : List Item
starting =
    inserted_call (codes "s_clock64") []
    ∷ inserted_alloca 2
    ∷ inserted_store clock_result (element time_interval 0)
    ∷ []

-- The debug information of the first instruction, or the defaults.
unfoldable pub constants_of : (Bytes → ℕ) → Option Location → ℕ × ℕ × ℕ
constants_of hash none = (0, 0xffffff, 0xffffff)
constants_of hash (some loc) =
    (hash (get_full_path loc) % 2 ^ 64, loc.line % 2 ^ 32, loc.column % 2 ^ 32)

-- What is inserted in front of the terminator of a block.
unfoldable pub ending : (Bytes → ℕ) → Option Location → ℕ → List Item
unfolding constants_of
ending hash loc bb_index =
    let (file_hash, line, column) = constants_of hash loc in
    inserted_call (codes "s_clock64") []
    ∷ inserted_store clock_result (element time_interval 1)
    ∷ inserted_call (codes "s_submit_time_interval") (
        buffer_argument
        ∷ pointer_cast time_interval
        ∷ int64 file_hash
        ∷ int32 line
        ∷ int32 column
        ∷ int32 bb_index
        ∷ [])
    ∷ []

abbrev pub before_all : List Item → Option (List Item) → Option (List Item)
before_all items none = none
before_all items (some later) = some (items ++ later)

-- Items in front of the last instruction, which has to be a terminator.
unfoldable pub before_terminator : List Item → List Instruction → Option (List Item)
before_terminator items [] = none
before_terminator items (inst ∷ []) =
    if is_terminator inst.opcode then some (items ++ (kept inst ∷ [])) else none
before_terminator items (inst ∷ next ∷ rest) =
    before_all (kept inst ∷ []) (before_terminator items (next ∷ rest))

-- A block; one with no terminator, also an empty one, is read through a null pointer, which is `none`.
unfoldable pub time_block : (Bytes → ℕ) → ℕ → List Instruction → Option (List Item)
unfolding starting ending before_terminator
time_block hash bb_index [] = none
time_block hash bb_index (inst ∷ rest) =
    let later = time_block hash bb_index rest in
    if is_phi inst.opcode
    then before_all (kept inst ∷ []) later
    else before_all starting (before_terminator (ending hash inst.debug_loc bb_index) (inst ∷ rest))

-- The loop over the blocks.
unfoldable pub time_blocks :
    (Bytes → ℕ) → ℕ → List (List Instruction) → Option (List (List Item) × Bool)
unfolding time_block
time_blocks hash bb_index [] = some ([], false)
time_blocks hash bb_index (block ∷ rest) = elim (time_block hash bb_index block) [
  | none ↦ none
  | some items ↦ elim (time_blocks hash ((bb_index + 1) % 2 ^ 32) rest) [
    | none ↦ none
    | some (blocks, modified) ↦ some (items ∷ blocks, true)
  ]
]

unfoldable pub instrument_intervals : (Bytes → ℕ) → Instrument
unfolding time_blocks
instrument_intervals hash = time_blocks hash 0

unfoldable pub s_clock64 : Callee
s_clock64 = record { name = codes "s_clock64"; parameter_types = []; return_type = other_type 64 }

unfoldable pub s_submit_time_interval : Callee
s_submit_time_interval = record {
  name = codes "s_submit_time_interval";
  parameter_types =
      pointer 0 ∷ pointer 0 ∷ other_type 64 ∷ other_type 32 ∷ other_type 32 ∷ other_type 32 ∷ [];
  return_type = other_type 0;
}

-- `runOnModule`.
unfoldable pub submit_bb_interval : Toolchain → IrModule Instruction → Option (IrModule Item × Bool)
unfolding run_on_module instrument_intervals s_clock64 s_submit_time_interval
submit_bb_interval tools =
    run_on_module tools (instrument_intervals tools.hash) (s_clock64 ∷ s_submit_time_interval ∷ [])
