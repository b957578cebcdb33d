-- ===== src/Tests/Interception.antt =====
-- The dispatch path at a concrete runtime.
use omniprobe.Prelude.{
  ℕ, suc, Bool, ◌+◌, ◌≡◌, ◌≤◌, refl, true, false, List, [], ◌∷◌, ◌++◌, none, some, Bytes, codes,
  if◌then◌else◌, text_eq, contains, arith, ltb,
}
use omniprobe.Prelude.Maps.{nat_key, text_key, lookup}
use omniprobe.Interceptor.KernArgs.{ArgDescriptor, KernelMetadata, fixup_kern_args}
use omniprobe.Interceptor.Segments.{zeros, fixup_kern_args_layout}
use omniprobe.Interceptor.Dispatches.{
  Environment, Controller, dispatch_controller, dispatch_all, dispatch_all-firsts,
}
use omniprobe.Interceptor.Cache.{Cache, Symbols, lookup_in}
use omniprobe.Interceptor.Packets.{KernelInfo, Packet, AnyPacket, put, State, Runtime}
use omniprobe.Interceptor.Signals.{SignalsAreOwned, GivesFresh}
use omniprobe.Interceptor.Pool.{Event, run, AreOwned, run-AreOwned}
use omniprobe.Interceptor.Lifetime.{
  ApiTable, Replacements, Process, ProcessEvent, construct, ensure_shutdown, loaded_process,
}
use omniprobe.Interceptor.Waits.{IsWaited, ensure_shutdown-IsWaited}
use omniprobe.Interceptor.Discovery.{
  Attribute, SymbolAnswers, hsa_executable_symbol_get_info, AddsKernel, described,
  hsa_executable_symbol_get_info-AddsKernel,
}
use omniprobe.Interceptor.Returns.{GivesBackAfter, run-GivesBack}

abbrev descriptor : ArgDescriptor
descriptor = record {
  explicit_args_length = 12;
  explicit_args_count = 2;
  hidden_args_length = 8;
  kernarg_length = 20;
  private_segment_size = 0;
  group_segment_size = 0;
  clone_hidden_args_length = 2;
}

fixup_kern_args_layout_example :
    fixup_kern_args (1 ∷ 2 ∷ 3 ∷ 4 ∷ 5 ∷ 6 ∷ 7 ∷ []) (codes "pointers") descriptor
    ≡ some (1 ∷ 2 ∷ 3 ∷ 4 ∷ (codes "pointers" ++ (5 ∷ 6 ∷ zeros 6)))
fixup_kern_args_layout_example =
    fixup_kern_args_layout (1 ∷ 2 ∷ 3 ∷ 4 ∷ []) (codes "pointers") (5 ∷ 6 ∷ []) (7 ∷ []) descriptor
      refl refl refl (omega arith)

abbrev metadata : KernelMetadata
metadata = record {
  symbol = codes "f";
  kernarg_segment_size = 24;
  private_segment_fixed_size = 0;
  group_segment_fixed_size = 0;
  args =
      record { size = 4; value_kind = codes "by_value"; offset = 0 }
      ∷ record { size = 8; value_kind = codes "global_buffer"; offset = 8 }
      ∷ record { size = 4; value_kind = codes "hidden_block_count_x"; offset = 16 }
      ∷ [];
}

-- An environment with one variable.
abbrev one_variable : Bytes → Bytes → Environment
one_variable name value asked = if text_eq asked name then some value else none

abbrev storage : Controller
storage = record {
  all_dispatch = false;
  random_dispatch = true;
  one_dispatch = false;
  dispatched_kernels = [];
}

once_set :
    one_variable (codes "LOGDUR_DISPATCHES") (codes "1") (codes "LOGDUR_DISPATCHES")
    ≡ some (codes "1")
unfolding text_eq
once_set = refl

dispatch_all-firsts_example :
    dispatch_all
      (dispatch_controller (one_variable (codes "LOGDUR_DISPATCHES") (codes "1")) storage)
      ((5, false) ∷ (6, true) ∷ (5, true) ∷ [])
    ≡ true ∷ true ∷ false ∷ []
dispatch_all-firsts_example =
    dispatch_all-firsts (one_variable (codes "LOGDUR_DISPATCHES") (codes "1")) storage
      ((5, false) ∷ (6, true) ∷ (5, true) ∷ []) once_set

abbrev symbols : Symbols
symbols = record { kernarg_segment_size = λ symbol. 24; kernel_object = λ symbol. symbol + 1000 }

abbrev empty_cache : Cache
empty_cache = record {
  lookup_map = [];
  arg_map = [];
  alternatives = [];
  kernarg_sizes = [];
  kernel_co_map = [];
  runtime_kernel_objects = [];
}

nothing_known : lookup_in 1 (codes "f") empty_cache.lookup_map ≡ none
unfolding lookup
nothing_known = refl

-- The highest of some signals, and one above it.
abbrev above : List ℕ → ℕ
above [] = 1
above (x ∷ xs) = if ltb x (above xs) then above xs else suc x

above_fresh : (bound : ℕ) (xs : List ℕ) → above xs ≤ bound → contains xs bound ≡ false
above_fresh bound [] h = refl
above_fresh bound (x ∷ xs) h = ground (arith, above_fresh bound xs)

abbrev runtime : Runtime
runtime = record {
  create_signal = above;
  allocate = λ st size agent. 4096;
  symbols = symbols;
  agent_of = λ symbol. 1;
  draw = λ st. true;
  resolve = λ agent cache. (false, cache);
  checkout_comms = λ st agent name id. some 77;
  throws = λ st stage. none;
  dev_rsrc_ptr = λ comms. codes "pointers";
  demangle = λ name. name;
  is_excluded_file = λ object. false;
}

runtime_fresh : GivesFresh runtime
runtime_fresh = λ created. above_fresh (above created) created (omega arith)

-- A state with one signal pending, and one in the pool.
abbrev info : KernelInfo
info = record { signal_ = 50; name_ = codes "f"; agent_ = 1; comms_obj_ = some 77 }

abbrev start : State
start = record {
  sig_pool_ = 1 ∷ [];
  created = 2 ∷ 1 ∷ [];
  pending_signals_ = put 2 (some info) (λ sig. none);
  pending_kernargs_ = put 2 (some 4096) (λ sig. none);
  kernel_objects_ = λ object. none;
  queues_ = λ queue. 1;
  kernel_cache_ = empty_cache;
  run_instrumented_ = false;
  dispatcher_ = storage;
  dispatch_count_ = 0;
  memory = λ address. [];
  effects = [];
  lost = [];
}

start_owned : SignalsAreOwned start
start_owned = λ g. ground arith

abbrev packet : Packet
packet = record {
  kernel_object = 9;
  kernarg_address = 512;
  private_segment_size = 0;
  group_segment_size = 0;
  completion_signal = 0;
  others = [];
}

abbrev events : List Event
events =
    Event.packets 3 (AnyPacket.kernel_dispatch packet ∷ AnyPacket.kernel_dispatch packet ∷ [])
    ∷ Event.completed 1
    ∷ []

run-AreOwned_example : AreOwned (run runtime events start)
run-AreOwned_example = run-AreOwned runtime events start runtime_fresh start_owned

run-GivesBack_example : GivesBackAfter 2 info (some 4096) (run runtime events start)
run-GivesBack_example =
    run-GivesBack runtime events 2 info start runtime_fresh start_owned refl refl

abbrev runtime_table : ApiTable
runtime_table = record {
  queue_create_fn = 1;
  queue_destroy_fn = 2;
  queue_intercept_create_fn = 3;
  queue_intercept_register_fn = 4;
  executable_symbol_get_info_fn = 5;
}

abbrev replacements : Replacements
replacements = record { own_queue_create = 11; own_queue_destroy = 12; own_symbol_get_info = 15 }

-- Signals are pending for the first three waits.
abbrev drained_after : ℕ → Bool
drained_after n = ltb n 3

abbrev process_events : List ProcessEvent
process_events =
    ProcessEvent.table_given true 0 (some (true ∷ []))
    ∷ ProcessEvent.submitted 3 (AnyPacket.kernel_dispatch packet ∷ [])
    ∷ ProcessEvent.at_exit_handler drained_after
    ∷ ProcessEvent.submitted 3 (AnyPacket.kernel_dispatch packet ∷ [])
    ∷ ProcessEvent.process_exit drained_after
    ∷ []

abbrev living : Process
living = record (loaded_process runtime_table) { singleton_ = some (construct runtime start) }

ensure_shutdown-IsWaited_example :
    ((ensure_shutdown drained_after living).1 ≡ record living {
      singleton_ = some (record (construct runtime start) { shutting_down_ = true });
    })
    × IsWaited drained_after 0 (ensure_shutdown drained_after living).0
ensure_shutdown-IsWaited_example =
    ensure_shutdown-IsWaited drained_after (construct runtime start) living refl

-- The symbol of the kernel `f`, with the end of its name in the buffer.
abbrev answers : SymbolAnswers
answers = record {
  object_of = λ symbol. (0, 9);
  other_of = λ symbol n. (0, 0);
  name_length_of = λ symbol. (0, 4);
  name_of = λ symbol. (0, codes "f.kd" ++ (0 ∷ []));
  kernarg_size_of = λ symbol. (0, 24);
  agent_of_symbol = λ symbol. (0, 1);
}

hsa_executable_symbol_get_info-AddsKernel_example :
    (next : State) × (hsa_executable_symbol_get_info runtime
        (λ size. ltb size 64)
        answers
        8
        Attribute.kernel_object
        start
      ≡ some ((0, 9), next))
    × AddsKernel 9 (described runtime answers 8) start next
hsa_executable_symbol_get_info-AddsKernel_example =
    hsa_executable_symbol_get_info-AddsKernel runtime (λ size. ltb size 64) answers 8 start refl
      refl refl refl refl
