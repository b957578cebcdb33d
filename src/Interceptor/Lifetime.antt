-- ===== src/Interceptor/Lifetime.antt =====
-- The life of the interceptor in a process (src/interceptor.cc): getInstance, the API table, the
-- constructor's signals, OnSubmitPackets, the destructor, and the ways to shut down. The interceptor of
-- the process and its table are the fields of a record. The joins of the destructor are not modelled,
-- and what the threads do until then is the concern of the modules on the signal runner.
use omniprobe.Prelude.{
  ℕ, zero, suc, Bool, true, false, List, [], ◌∷◌, ◌++◌, Option, none, some, if◌then◌else◌, ◌&&◌,
  ◌==◌, not, ltb,
}
use omniprobe.Interceptor.Packets.{AnyPacket, State, Runtime, grow, sigpool_increment, do_packets}

-- The entries of the table that are saved and restored.
pub record ApiTable : Type 0 where
  pub queue_create_fn : ℕ
  pub queue_destroy_fn : ℕ
  pub queue_intercept_create_fn : ℕ
  pub queue_intercept_register_fn : ℕ
  pub executable_symbol_get_info_fn : ℕ

-- The addresses of the functions that the interceptor puts in their place.
pub record Replacements : Type 0 where
  pub own_queue_create : ℕ
  pub own_queue_destroy : ℕ
  pub own_symbol_get_info : ℕ

-- hsaInterceptor: the members of the dispatch path and the flag of the threads.
pub record Hook : Type 0 where
  pub shutting_down_ : Bool
  pub members : State

-- `saved` are the global variables of the saved entries, `at_exit` the handlers registered with atexit,
-- `destroyed` the signals that were destroyed, and `passed_on` the packets that no interceptor saw.
pub record Process : Type 0 where
  pub table : ApiTable
  pub saved : ApiTable
  pub singleton_ : Option Hook
  pub registered : Bool
  pub at_exit : ℕ
  pub made : ℕ
  pub deleted : ℕ
  pub destroyed : List ℕ
  pub passed_on : List (List AnyPacket)

unfoldable pub save_hsa_api : Process → Process
save_hsa_api st = record st { saved = st.table }

unfoldable pub restore_hsa_api : Process → Process
restore_hsa_api st = record st {
  table = record {
    queue_create_fn = st.saved.queue_create_fn;
    queue_destroy_fn = st.saved.queue_destroy_fn;
    queue_intercept_create_fn = st.saved.queue_intercept_create_fn;
    queue_intercept_register_fn = st.saved.queue_intercept_register_fn;
    executable_symbol_get_info_fn = st.saved.executable_symbol_get_info_fn;
  };
}

unfoldable pub hooked : Replacements → ApiTable → ApiTable
hooked own table = record table {
  queue_create_fn = own.own_queue_create;
  queue_destroy_fn = own.own_queue_destroy;
  executable_symbol_get_info_fn = own.own_symbol_get_info;
}

unfoldable pub hook_api : Replacements → Process → Process
unfolding hooked
hook_api own st = record st { table = hooked own st.table }

-- The signals that the constructor makes; `start` are the members that the configuration sets.
unfoldable pub construct : Runtime → State → Hook
construct rt start = record { shutting_down_ = false; members = grow rt sigpool_increment start }

-- `given` tells if the table that is passed is not null.
unfoldable pub get_instance : Runtime → Replacements → State → Bool → Process → Process
unfolding save_hsa_api hook_api construct
get_instance rt own start given st = elim (st.singleton_) [
  | some hook ↦ st
  | none ↦
      if given
      then hook_api own
          (save_hsa_api (record st { singleton_ = some (construct rt start); made = suc st.made }))
      else st
]

-- `none` is an abort in fixupPacket.
unfoldable pub submit : Runtime → ℕ → List AnyPacket → Process → Option Process
submit rt queue packets st = elim (st.singleton_) [
  | none ↦ some (record st { passed_on = packets ∷ st.passed_on })
  | some hook ↦ elim (do_packets rt queue packets hook.members) [
    | none ↦ none
    | some next ↦ some (record st { singleton_ = some (record hook { members = next }) })
  ]
]

unfoldable pub on_submit_packets :
    Runtime → Replacements → State → ℕ → List AnyPacket → Process → Option Process
unfolding get_instance submit
on_submit_packets rt own start queue packets st =
    submit rt queue packets (get_instance rt own start false st)

unfoldable pub shutdown : Hook → Hook
shutdown hook = record hook { shutting_down_ = true }

-- The loop that waits for the pending signals; the answers of hasPendingSignals are a parameter, by the
-- number of waits before them. The fuel is the number of waits that are left.
unfoldable pub wait_count : (ℕ → Bool) → ℕ → ℕ → ℕ
wait_count has_pending zero count = count
wait_count has_pending (suc fuel) count =
    let waited = wait_count has_pending fuel (suc count) in
    if has_pending count && ltb count 1000 then waited else count

-- With the milliseconds that were waited.
unfoldable pub ensure_shutdown : (ℕ → Bool) → Process → ℕ × Process
unfolding wait_count shutdown
ensure_shutdown has_pending st = elim (st.singleton_) [
  | none ↦ (0, st)
  | some hook ↦ (wait_count has_pending 1001 0, record st { singleton_ = some (shutdown hook) })
]

-- The destructor: the signals of the pool are destroyed, and the table is restored.
unfoldable pub destroy : Hook → Process → Process
unfolding restore_hsa_api
destroy hook st =
    restore_hsa_api
      (record st { deleted = suc st.deleted; destroyed = st.destroyed ++ hook.members.sig_pool_ })

unfoldable pub cleanup : Process → Process
unfolding destroy
cleanup st = elim (st.singleton_) [
  | none ↦ st
  | some hook ↦ record (destroy hook st) { singleton_ = none }
]

unfoldable pub ensure_cleanup : (ℕ → Bool) → Process → Process
unfolding ensure_shutdown cleanup
ensure_cleanup has_pending st = cleanup (ensure_shutdown has_pending st).1

unfoldable pub register_atexit_handler : Process → Process
register_atexit_handler st =
    if not st.registered then record st { at_exit = suc st.at_exit; registered = true } else st

-- The tables: none is a null pointer, and each of the list tells if it is not null.
unfoldable pub rocp_hsa_table_callback :
    Runtime → Replacements → State → Bool → ℕ → Option (List Bool) → Process → Process
unfolding get_instance register_atexit_handler
rocp_hsa_table_callback rt own start is_hsa lib_instance none st = st
rocp_hsa_table_callback rt own start is_hsa lib_instance (some []) st = st
rocp_hsa_table_callback rt own start is_hsa lib_instance (some (given ∷ more)) st =
    if not is_hsa
    then st
    else if not (lib_instance == 0)
    then st
    else register_atexit_handler (get_instance rt own start given st)

unfoldable pub rocp_tool_fini : (ℕ → Bool) → Process → Process
unfolding ensure_cleanup
rocp_tool_fini has_pending st = ensure_cleanup has_pending st

unfoldable pub process_exit_cleanup : (ℕ → Bool) → Process → Process
unfolding ensure_shutdown
process_exit_cleanup has_pending st = (ensure_shutdown has_pending st).1

-- What the runtimes call: the table callback, rocp_tool_fini, the handler at exit, the
-- destructor function of the library, and the packets of a queue.
pub data ProcessEvent : Type 0 where
  table_given : Bool → ℕ → Option (List Bool) → ProcessEvent
  tool_fini at_exit_handler process_exit : (ℕ → Bool) → ProcessEvent
  submitted : ℕ → List AnyPacket → ProcessEvent

unfoldable pub handle_event :
    Runtime → Replacements → State → ProcessEvent → Process → Option Process
unfolding rocp_hsa_table_callback rocp_tool_fini ensure_cleanup process_exit_cleanup
    on_submit_packets
handle_event rt own start (table_given is_hsa lib_instance tables) st =
    some (rocp_hsa_table_callback rt own start is_hsa lib_instance tables st)
handle_event rt own start (tool_fini has_pending) st = some (rocp_tool_fini has_pending st)
handle_event rt own start (at_exit_handler has_pending) st = some (ensure_cleanup has_pending st)
handle_event rt own start (process_exit has_pending) st = some (process_exit_cleanup has_pending st)
handle_event rt own start (submitted queue packets) st =
    on_submit_packets rt own start queue packets st

unfoldable pub run_process :
    Runtime → Replacements → State → List ProcessEvent → Process → Option Process
unfolding handle_event
run_process rt own start [] st = some st
run_process rt own start (e ∷ es) st = elim (handle_event rt own start e st) [
  | none ↦ none
  | some next ↦ run_process rt own start es next
]

-- A process in which the library was loaded.
abbrev pub loaded_process : ApiTable → Process
loaded_process table = record {
  table = table;
  saved = table;
  singleton_ = none;
  registered = false;
  at_exit = 0;
  made = 0;
  deleted = 0;
  destroyed = [];
  passed_on = [];
}
