-- ===== src/Tests/Runtime.antt =====
-- The threads, the loader and the allocators at concrete inputs.
use omniprobe.Prelude.{
  ℕ, ◌≡◌, refl, Bool, true, false, List, [], ◌∷◌, none, some, Bytes, codes, map, if◌then◌else◌,
  ◌==◌, text_eq, arith, ltb, leb,
}
use omniprobe.Prelude.Maps.{nat_key, text_key, lookup, upsert, text_cmp}
use omniprobe.Prelude.Masks.{pw}
use omniprobe.Interceptor.KernArgs.{ArgDescriptor}
use omniprobe.Interceptor.Cache.{Cache, lookup_in, get_arg_descriptor}
use omniprobe.Interceptor.Dispatches.{Controller}
use omniprobe.Interceptor.Packets.{KernelInfo, put, State}
use omniprobe.Interceptor.Signals.{SignalsAreOwned}
use omniprobe.Interceptor.Runner.{drain, AllAreBack, drain-AllAreBack}
use omniprobe.Interceptor.Exclusion.{Loader, answers, is_from_excluded, answers-is_from_excluded}
use omniprobe.Interceptor.Resolution.{CodeObjects, resolve_runtime_arg_descriptors}
use omniprobe.Interceptor.Described.{is_found, get_arg_descriptor-resolve_runtime_arg_descriptors}
use omniprobe.Interceptor.Loading.{
  Hsa, Files, Loaded, Outcome, add_file, load_all, add_executables, add_symbols, add_symbol, passes,
  enter,
}
use omniprobe.Interceptor.Entries.{Entered, kernels_of_file, add_file-Entered}
use omniprobe.Allocation.{Pools, Action, calloc_device_memory, allocate, round_up}
use omniprobe.LibraryFilter.{Outside, Filter}
use omniprobe.Interceptor.Startup.{Outlook, Started, start_interceptor}
use omniprobe.Interceptor.Allowed.{AreAllowedAfter, start_interceptor-AreAllowed}

abbrev empty_cache : Cache
empty_cache = record {
  lookup_map = [];
  arg_map = [];
  alternatives = [];
  kernarg_sizes = [];
  kernel_co_map = [];
  runtime_kernel_objects = [];
}

abbrev info : KernelInfo
info = record { signal_ = 50; name_ = codes "f"; agent_ = 1; comms_obj_ = none }

abbrev storage : Controller
storage = record {
  all_dispatch = false;
  random_dispatch = false;
  one_dispatch = false;
  dispatched_kernels = [];
}

-- Two signals are pending, and one is in the pool.
abbrev busy : State
busy = record {
  sig_pool_ = 1 ∷ [];
  created = 3 ∷ 2 ∷ 1 ∷ [];
  pending_signals_ = put 2 (some info) (put 3 (some info) (λ sig. none));
  pending_kernargs_ = λ sig. none;
  kernel_objects_ = λ object. none;
  queues_ = λ queue. 1;
  kernel_cache_ = empty_cache;
  run_instrumented_ = false;
  dispatcher_ = storage;
  dispatch_count_ = 0;
  memory = λ address. [];
  effects = [];
  lost = [];
}

busy_owned : SignalsAreOwned busy
busy_owned = λ g. ground arith

-- The signal 3 is ready from the second round on.
abbrev ready : ℕ → ℕ → Bool
ready round sig = if sig == 3 then leb 1 round else true

drain-AllAreBack_example :
    (last : State) × (drain ready 0 3 busy ≡ some last) × AllAreBack busy last
drain-AllAreBack_example = drain-AllAreBack ready 1 0 busy busy_owned (λ m sig le. ground arith)

-- Kernel objects of two executables; the first comes from a file that is excluded.
abbrev loader : Loader
loader = record {
  query_executable =
      λ object. if ltb object 100 then some (if ltb object 10 then 1 else 2) else none;
  loaded_code_objects = λ executable.
      record {
        uri_length = some 9;
        uri = some (if executable == 1 then codes "file:///a#offset=1" else codes "memory://b");
      }
      ∷ [];
}

abbrev outside : Outside Bytes
outside = record {
  compile = λ p. some p;
  regex_match = λ path p. text_eq path p;
  expand_glob = λ p. p ∷ [];
  read_magic = λ p. 127 ∷ codes "ELF";
  exists_file = λ p. true;
  realpath = λ p. none;
  ld_library_path = none;
}

abbrev active_filter : Filter Bytes
active_filter = record {
  include_patterns = [];
  include_with_deps_patterns = [];
  exclude_regexes = codes "/a" ∷ [];
  active = true;
}

-- Before the second executable is loaded.
abbrev early_loader : Loader
early_loader = record loader { query_executable = λ object. if ltb object 10 then some 1 else none }

abbrev questions : List (Loader × ℕ)
questions = (early_loader, 5) ∷ (early_loader, 50) ∷ (loader, 6) ∷ (loader, 50) ∷ []

answers-is_from_excluded_example :
    answers outside active_filter questions []
    ≡ map (is_from_excluded outside active_filter) questions
answers-is_from_excluded_example =
    answers-is_from_excluded outside active_filter loader.loaded_code_objects questions
      (λ e. refl, (λ e. refl, (λ e. refl, (λ e. refl, tt))))

abbrev descriptor : ArgDescriptor
descriptor = record {
  explicit_args_length = 12;
  explicit_args_count = 2;
  hidden_args_length = 8;
  kernarg_length = 20;
  private_segment_size = 0;
  group_segment_size = 0;
  clone_hidden_args_length = 0;
}

abbrev objects : CodeObjects
objects = record {
  query_executable = λ object. some 1;
  code_objects = λ executable. none ∷ some (codes "bits") ∷ [];
  describe = λ bits name. some descriptor;
}

abbrev registered : Cache
registered = record empty_cache {
  lookup_map = (4, (codes "f", 7) ∷ []) ∷ [];
  runtime_kernel_objects = (4, (codes "f", 70) ∷ []) ∷ [];
}

has_object : lookup_in 4 (codes "f") registered.runtime_kernel_objects ≡ some 70
unfolding lookup text_cmp
has_object = refl

has_symbol : lookup_in 4 (codes "f") registered.lookup_map ≡ some 7
unfolding lookup text_cmp
has_symbol = refl

get_arg_descriptor-resolve_runtime_arg_descriptors_example :
    (is_found
        (get_arg_descriptor
          (resolve_runtime_arg_descriptors objects)
          4
          (codes "f")
          false
          registered).0
      ≡ true)
    × ((n : Bytes) (desc : ArgDescriptor)
        → lookup_in 4 n registered.arg_map ≡ some desc
        → lookup_in 4 n
            (get_arg_descriptor
              (resolve_runtime_arg_descriptors objects)
              4
              (codes "f")
              false
              registered).1.arg_map
          ≡ some desc)
get_arg_descriptor-resolve_runtime_arg_descriptors_example =
    get_arg_descriptor-resolve_runtime_arg_descriptors objects 4 (codes "f") false registered 70 1 7
      has_object has_symbol refl refl

-- A file with one code object of two kernels, of which the filter lets the first pass.
abbrev hsa : Hsa
hsa = record {
  extract_code_objects = λ agent name. some (name ∷ []);
  load = λ agent name. Loaded.executable 1;
  symbols_of = λ executable. 7 ∷ 8 ∷ 9 ∷ [];
  is_kernel = λ symbol. ltb symbol 9;
  symbol_name = λ symbol. if symbol == 7 then codes "f" else codes "g";
  demangle_name = λ name. name;
  regex_search = λ filter name. some (text_eq filter name);
  describe_kernel = λ co_file name. some descriptor;
}

abbrev no_files : Files
no_files = record {
  cache = empty_cache;
  kernels_ = [];
  cache_objects_ = [];
  filelist_ = [];
  location_ = [];
}

abbrev files_of : Outcome → Files
files_of Outcome.ended = no_files
files_of Outcome.thrown = no_files
files_of (Outcome.returned result files) = files

it_returns :
    add_file hsa 4 (codes "a.hsaco") (codes "f") no_files
    ≡ Outcome.returned false (files_of (add_file hsa 4 (codes "a.hsaco") (codes "f") no_files))
unfolding add_file load_all add_executables add_symbols add_symbol passes enter text_eq upsert
    lookup
it_returns = refl

add_file-Entered_example :
    (false ≡ false)
    × Entered 4
        (kernels_of_file hsa 4 (codes "a.hsaco") (codes "f"))
        empty_cache
        (files_of (add_file hsa 4 (codes "a.hsaco") (codes "f") no_files)).cache
add_file-Entered_example =
    add_file-Entered hsa 4 (codes "a.hsaco") (codes "f") no_files
      (files_of (add_file hsa 4 (codes "a.hsaco") (codes "f") no_files)) false it_returns

abbrev pools : Pools
pools = record {
  pool_allocate = λ done size. if size == 8192 then some 65536 else none;
  allow_access = λ agent buffer. true;
  memory_copy = λ dst src size. true;
}

it_allocates :
    calloc_device_memory pools (pw 12) 5000 []
    ≡ some (65536, Action.zeroed 65536 8192 ∷ Action.allocated 65536 8192 ∷ [])
unfolding calloc_device_memory round_up
it_allocates = refl

it_gives : (allocate pools 5000 1 []).0 ≡ some 65536
unfolding allocate round_up
it_gives = refl

-- The executable is excluded, a library that it has loaded is not.
abbrev outlook : Outlook Bytes
outlook = record {
  hsa = hsa;
  env = outside;
  read_elf = λ path. none;
  read_file = λ path. none;
  gpus = some (4 ∷ []);
  executable_path = codes "/a";
  loaded_names = [] ∷ codes "/lib" ∷ [];
  is_directory = λ path. false;
  directory_files = λ path. none;
}

abbrev starting : Started Bytes
starting = record {
  run_instrumented_ = false;
  library_filter_ = active_filter;
  files = no_files;
  kdbs_ = [];
  agents = [];
}

abbrev start_config : List (Bytes × Bytes)
start_config = (codes "LOGDUR_INSTRUMENTED", codes "true") ∷ []

start_interceptor-AreAllowed_example :
    AreAllowedAfter outlook (start_interceptor outlook start_config starting)
unfolding lookup text_cmp
start_interceptor-AreAllowed_example =
    start_interceptor-AreAllowed outlook start_config starting refl refl
