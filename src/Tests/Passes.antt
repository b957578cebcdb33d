-- ===== src/Tests/Passes.antt =====
-- The instrumentation passes on a module with one kernel.
use omniprobe.Prelude.{
  ℕ, ◌+◌, ◌*◌, ◌%◌, ◌^◌, ◌≡◌, refl, List, [], ◌∷◌, ◌++◌, map, Option, none, some, Bytes, codes,
  true, false, arith, length, text_eq, starts_with, Bool, any,
}
use omniprobe.Interceptor.Names.{augmented_name, get_instrumented_name, split_last, rfind}
use omniprobe.Scope.{Scope}
use omniprobe.Passes.{
  Location, Instruction, load, call, phi, terminator, Value, existing, ptr_to_int, sign_extend,
  int_to_ptr, pointer_cast, sum_of, element, Item, Function, IrModule, Toolchain, other_type,
}
use omniprobe.Passes.Linking.{validate_amdgpu_target, load_and_link_bitcode, get_bitcode_path}
use omniprobe.Passes.Clones.{
  collect_gpu_kernels, keep_function, with_functions, run_on_module, names,
}
use omniprobe.Passes.Addresses.{instrument_addresses, v_submit_address}
use omniprobe.Passes.Reported.{Machine, trace, expected, reports_any, is_plain, is_struct, has_base}
use omniprobe.Passes.Messages.{instrument_addresses-expected}
use omniprobe.Passes.Modules.{kernels_of, instrumented_clone, run_on_module-instrumented_clone}
use omniprobe.Passes.Found.{run_on_module-get_instrumented_name}
use omniprobe.Passes.BlockStarts.{mark_blocks}
use omniprobe.Passes.Intervals.{time_blocks}
use omniprobe.Passes.Blocks.{Numbered, IsMarked, IsTimed, mark_blocks-IsMarked, time_blocks-IsTimed}

abbrev site : Option Location
site = some (record { file = some (codes "/src", codes "k.hip"); line = 7; column = 3 })

abbrev merge : Instruction
merge = record { id = 0; opcode = phi; debug_loc = none }

abbrev read : Instruction
read = record {
  id = 1;
  opcode = load (record { value = 4; address_space = 1 }) 8;
  debug_loc = site;
}

-- A buffer store with a descriptor that was made of the pointer 6, and the scalar offset 0.
abbrev write : Instruction
write = record {
  id = 2;
  opcode =
      call (some (codes "llvm.amdgcn.raw.ptr.buffer.store.f32"))
        (record { value = 5; store_size = 4; source = none }
          ∷ record {
            value = 8;
            store_size = 16;
            source = some (some (codes "llvm.amdgcn.make.buffer.rsrc.p8.p1"), 6);
          }
          ∷ record { value = 9; store_size = 4; source = none }
          ∷ record { value = 0; store_size = 4; source = none }
          ∷ [])
        0;
  debug_loc = none;
}

abbrev leave : Instruction
leave = record { id = 3; opcode = terminator; debug_loc = none }

abbrev body : List (List Instruction)
body = (read ∷ write ∷ leave ∷ []) ∷ (merge ∷ read ∷ leave ∷ []) ∷ []

abbrev function : Bytes → Bool → List (List Instruction) → Function Instruction
function name is_kernel blocks = record {
  name = name;
  params = [];
  return_type = other_type 0;
  is_var_arg = false;
  linkage = 0;
  address_space = 0;
  is_intrinsic = false;
  is_kernel = is_kernel;
  target_cpu = some (codes "gfx942");
  attributes = 1;
  blocks = blocks;
}

abbrev module_of : List (Function Instruction) → IrModule Instruction
module_of functions = record {
  target_triple = codes "amdgcn-amd-amdhsa";
  target_cpu = none;
  functions = functions;
}

abbrev kernels : IrModule Instruction
kernels = module_of (function (codes "k") true body ∷ [])

abbrev device : IrModule Instruction
device = module_of (function (codes "v_submit_address") false [] ∷ [])

abbrev both : IrModule Instruction
both =
    module_of (function (codes "k") true body ∷ function (codes "v_submit_address") false [] ∷ [])

abbrev tools : Toolchain
tools = record {
  plugin_path = some (codes "/lib/plugins/pass.so");
  is_directory = λ path. true;
  exists = λ path. true;
  get_file = λ path. some path;
  parse_bitcode_file = λ bytes. some device;
  link_modules = λ m n. (with_functions m (m.functions ++ n.functions), false);
  clone_body = λ blocks. blocks;
  unique_name = λ taken name. name;
  hash = length;
}

path_of_bitcode :
    get_bitcode_path tools kernels ≡ codes "/lib/plugins/../bitcode/dh_comms_dev_cdna3_co6.bc"
unfolding get_bitcode_path split_last rfind starts_with text_eq
path_of_bitcode = refl

abbrev everywhere : Scope
everywhere = record { entries = []; active = false }

abbrev value_of : Value → ℕ
value_of (existing n) = 16 * n
value_of (ptr_to_int v) = value_of v
value_of (sign_extend v) = value_of v
value_of (int_to_ptr v) = value_of v
value_of (pointer_cast v) = value_of v
value_of (sum_of v w) = (value_of v + value_of w) % 2 ^ 64
value_of (element v n) = value_of v + n
value_of v = 0

abbrev machine : Machine
machine = record {
  value = value_of;
  extended = λ n. n;
  null_pointer_lem = refl;
  ptr_to_int_lem = λ v. refl;
  int_to_ptr_lem = λ v. refl;
  sign_extend_lem = λ v. refl;
  sum_of_lem = λ v w. refl;
}

instrument_addresses-expected_example :
    (instrumented : List (List Item)) × (instrument_addresses length everywhere body
      ≡ some (instrumented, true))
    × (map (trace machine) instrumented ≡ map (expected length everywhere machine) body)
unfolding reports_any starts_with is_plain is_struct has_base
instrument_addresses-expected_example =
    instrument_addresses-expected machine length everywhere body
      ((refl, (refl, (refl, tt))), ((refl, (refl, (refl, tt))), tt))

linked_both : load_and_link_bitcode tools kernels ≡ (both, true)
unfolding load_and_link_bitcode
linked_both = refl

run_on_module-instrumented_clone_example :
    run_on_module tools (instrument_addresses length everywhere) (v_submit_address ∷ []) kernels
    ≡ some (
      with_functions both (
          map keep_function both.functions
          ++ map
              (instrumented_clone tools (instrument_addresses length everywhere))
              (kernels_of both.functions)),
      true,
    )
unfolding collect_gpu_kernels instrument_addresses starts_with text_eq validate_amdgpu_target
    v_submit_address augmented_name
run_on_module-instrumented_clone_example =
    run_on_module-instrumented_clone tools (instrument_addresses length everywhere)
      (v_submit_address ∷ []) kernels both (λ taken name free. refl) refl linked_both (refl, tt)
      (refl, tt) (refl, tt) (refl, tt)

run_on_module-get_instrumented_name_example :
    (result : IrModule Item × Bool) × (run_on_module tools
        (instrument_addresses length everywhere)
        (v_submit_address ∷ [])
        kernels
      ≡ some result)
    × (any (text_eq (get_instrumented_name (codes "k"))) (names result.0.functions) ≡ true)
unfolding collect_gpu_kernels instrument_addresses starts_with text_eq validate_amdgpu_target
    v_submit_address augmented_name rfind
run_on_module-get_instrumented_name_example =
    run_on_module-get_instrumented_name tools (instrument_addresses length everywhere)
      (v_submit_address ∷ []) kernels both 0 (function (codes "k") true body)
      (λ taken name free. refl) refl linked_both (refl, tt) (refl, tt) (refl, tt) (refl, tt) refl
      refl refl

mark_blocks-IsMarked_example :
    Numbered (IsMarked length) 0 body (mark_blocks length 0 body).0
    × ((mark_blocks length 0 body).1 ≡ true)
mark_blocks-IsMarked_example = mark_blocks-IsMarked length 0 body (refl, (refl, tt)) (omega arith)

time_blocks-IsTimed_example :
    (instrumented : List (List Item)) × (time_blocks length 0 body ≡ some (instrumented, true))
    × Numbered (IsTimed length) 0 body instrumented
time_blocks-IsTimed_example = time_blocks-IsTimed length 0 body (refl, (refl, tt)) (omega arith)
