-- ===== src/Passes/Clones.antt =====
-- collectGPUKernels and cloneKernelWithExtraArg of src/instrumentation/InstrumentationCommon.cpp, and the
-- loop over the kernels that runOnModule of each pass has. What differs between the passes is how the
-- blocks of a clone are instrumented and which functions the inserted calls name.
use omniprobe.Prelude.{
  Bool, false, ◌||◌, List, [], ◌∷◌, ◌++◌, map, Option, none, some, Bytes, text_eq, if◌then◌else◌,
  any,
}
use omniprobe.Interceptor.Names.{augmented_name}
use omniprobe.Passes.{
  Instruction, Item, kept, IrType, pointer, Param, Function, IrModule, Toolchain,
}
use omniprobe.Passes.Linking.{validate_amdgpu_target, load_and_link_bitcode}

unfoldable pub collect_gpu_kernels : List (Function Instruction) → List (Function Instruction)
collect_gpu_kernels [] = []
collect_gpu_kernels (f ∷ rest) =
    let kernels = collect_gpu_kernels rest in
    if f.is_intrinsic then kernels else if f.is_kernel then f ∷ kernels else kernels

abbrev pub with_blocks : {I J : Type 0} → Function I → List (List J) → Function J
with_blocks f blocks = record {
  name = f.name;
  params = f.params;
  return_type = f.return_type;
  is_var_arg = f.is_var_arg;
  linkage = f.linkage;
  address_space = f.address_space;
  is_intrinsic = f.is_intrinsic;
  is_kernel = f.is_kernel;
  target_cpu = f.target_cpu;
  attributes = f.attributes;
  blocks = blocks;
}

-- A function that a pass leaves alone.
abbrev pub keep_function : Function Instruction → Function Item
keep_function f = with_blocks f (map (map kept) f.blocks)

abbrev pub names : {I : Type 0} → List (Function I) → List Bytes
names [] = []
names (f ∷ rest) = f.name ∷ names rest

-- The clone, given the names that the module has.
unfoldable pub clone_kernel_with_extra_arg :
    Toolchain → List Bytes → Function Instruction → Function Instruction
clone_kernel_with_extra_arg tools taken kernel = record kernel {
  name = tools.unique_name taken (augmented_name kernel.name);
  params = kernel.params ++ record { name = []; type = pointer 0 } ∷ [];
  is_intrinsic = false;
  blocks = tools.clone_body kernel.blocks;
}

-- A function of the device library, by its name and its type.
pub record Callee : Type 0 where
  pub name : Bytes
  pub parameter_types : List IrType
  pub return_type : IrType

abbrev unnamed : IrType → Param
unnamed type = record { name = []; type = type }

abbrev declaration : Callee → Function Item
declaration callee = record {
  name = callee.name;
  params = map unnamed callee.parameter_types;
  return_type = callee.return_type;
  is_var_arg = false;
  linkage = 0;
  address_space = 0;
  is_intrinsic = false;
  is_kernel = false;
  target_cpu = none;
  attributes = 0;
  blocks = [];
}

-- `getOrInsertFunction` of each of the callees.
unfoldable pub declare : List Callee → List (Function Item) → List (Function Item)
declare [] functions = functions
declare (callee ∷ rest) functions = declare rest (
    if any (text_eq callee.name) (names functions)
    then functions
    else functions ++ declaration callee ∷ [])

-- How a pass instruments the blocks of a clone, with whether it inserts anything; `none` is a failed
-- assertion.
abbrev pub Instrument : Type 0
Instrument = List (List Instruction) → Option (List (List Item) × Bool)

-- The loop over the collected kernels, with the functions of the module and `ModifiedCodeGen`.
unfoldable pub run_kernels :
    Toolchain
    → Instrument
    → List Callee
    → List (Function Instruction)
    → List (Function Item)
    → Bool
    → Option (List (Function Item) × Bool)
unfolding clone_kernel_with_extra_arg declare
run_kernels tools instrument callees [] functions modified = some (functions, modified)
run_kernels tools instrument callees (kernel ∷ rest) functions modified =
    let clone = clone_kernel_with_extra_arg tools (names functions) kernel in
    elim (instrument clone.blocks) [
      | none ↦ none
      | some (blocks, inserted) ↦
          let added = functions ++ with_blocks clone blocks ∷ [] in
          run_kernels tools instrument callees rest
            (if inserted then declare callees added else added) (modified || inserted)
    ]

abbrev pub with_functions : {I J : Type 0} → IrModule I → List (Function J) → IrModule J
with_functions m functions = record {
  target_triple = m.target_triple;
  target_cpu = m.target_cpu;
  functions = functions;
}

abbrev pub keep_module : IrModule Instruction → IrModule Item
keep_module m = with_functions m (map keep_function m.functions)

abbrev pub finish :
    IrModule Instruction → Option (List (Function Item) × Bool) → Option (IrModule Item × Bool)
finish m none = none
finish m (some (functions, modified)) = some (with_functions m functions, modified)

-- `runOnModule`: the module afterwards, and whether the pass says that it has changed it.
unfoldable pub run_on_module :
    Toolchain → Instrument → List Callee → IrModule Instruction → Option (IrModule Item × Bool)
unfolding run_kernels collect_gpu_kernels
run_on_module tools instrument callees m =
    let (linked, is_linked) = load_and_link_bitcode tools m in
    if validate_amdgpu_target m
    then if is_linked
      then finish linked (
          run_kernels tools instrument callees (collect_gpu_kernels linked.functions)
            (map keep_function linked.functions) false)
      else some (keep_module linked, false)
    else some (keep_module m, false)
