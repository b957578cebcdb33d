-- ===== src/CommsManager.antt =====
-- comms_mgr of src/comms_mgr.cc and handlerManager of src/utils.cc: the objects that carry messages
-- from a kernel, with their handlers. An object of dh_comms is what was done to it; the HSA runtime,
-- the plugins and dlopen are parameters.
pub mod Agents
use omniprobe.Prelude.{
  ℕ, ◌≡◌, ◌⊎◌, refl, sym, ap, ◌∙◌, Bool, true, false, not, ◌&&◌, List, [], ◌∷◌, ◌++◌, Option, none,
  some, Bytes, codes, if◌then◌else◌, ◌==◌, Option-cases, Bool-cases, inl, inr, arith,
}
use omniprobe.Prelude.Maps.{nat_key, text_key, lookup, assign, lookup-upsert_self, same_or_kept}
use omniprobe.Fields.{split}

-- What hsa_amd_memory_pool_get_info says of a pool; `none` is a query that fails.
pub record PoolInfo : Type 0 where
  pub pool : ℕ
  pub global_segment : Bool
  pub alloc_allowed : Option Bool
  pub granule : Option ℕ
  pub size : Option ℕ
  pub coarse_grained : Bool

-- pool_specs_t.
pub record PoolSpecs : Type 0 where
  pub agent_ : ℕ
  pub pool_ : ℕ
  pub min_alloc_size_ : ℕ

-- A message handler: one of a plugin, with the kernel name of its context if it is one that uses
-- kernelDB, or one of the two that are there by default.
pub data Handler : Type 0 where
  from_plugin : ℕ → Option Bytes → Handler
  memory_heatmap time_interval : Bytes → ℕ → Handler

-- A dh_comms object: the pool of its memory manager, its handlers, and the kernel it was started for.
pub record DhComms : Type 0 where
  pub mem_mgr : PoolSpecs
  pub handlers : List Handler
  pub started : Option Bytes

-- A plugin gives handlers for a dispatch: a number, and whether it is a kdb_message_handler_base.
abbrev pub Plugin : Type 0
Plugin = Bytes → ℕ → List (ℕ × Bool)

-- The members of comms_mgr and of its handlerManager that the operations use; plugins are kept by
-- library handle.
pub record Manager : Type 0 where
  pub mem_mgrs_ : List (ℕ × PoolSpecs)
  pub plugins_ : List (ℕ × Plugin)

-- The pools of a list that the callback keeps; `none` is std::bad_alloc.
unfoldable pub collect_pools : ℕ → List PoolInfo → Option (List PoolSpecs)
collect_pools agent [] = some []
collect_pools agent (info ∷ infos) =
    let later = collect_pools agent infos in
    let allowed : Bool = elim (info.alloc_allowed) [ none ↦ false | some allowed ↦ allowed ] in
    if not info.global_segment then later else if not allowed then later else elim (info.granule) [
      | none ↦ none
      | some granularity ↦ elim (info.size) [
        | none ↦ none
        | some size ↦ elim later [
          | none ↦ none
          | some rest ↦ some (
              if info.coarse_grained
              then record { agent_ = agent; pool_ = info.pool; min_alloc_size_ = granularity }
                ∷ rest
              else rest)
        ]
      ]
    ]

-- The loop over the pools: each one's manager takes the place of the one before.
unfoldable pub add_managers : List PoolSpecs → List (ℕ × PoolSpecs) → List (ℕ × PoolSpecs)
add_managers [] mem_mgrs = mem_mgrs
add_managers (item ∷ items) mem_mgrs = add_managers items (assign item.agent_ item mem_mgrs)

-- addAgent, which returns false also when it adds one.
unfoldable pub add_agent : (ℕ → List PoolInfo) → ℕ → Manager → Option (Bool × Manager)
unfolding collect_pools add_managers
add_agent pools_of agent m = elim (collect_pools agent (pools_of agent)) [
  | none ↦ none
  | some pools ↦ some (false, record m { mem_mgrs_ = add_managers pools m.mem_mgrs_ })
]

-- handlerManager::getMessageHandlers: what all plugins give, in the order of the map.
unfoldable pub get_message_handlers : List (ℕ × Plugin) → Bytes → ℕ → List (ℕ × Bool)
get_message_handlers [] kernel dispatch_id = []
get_message_handlers ((handle, plugin) ∷ plugins) kernel dispatch_id =
    plugin kernel dispatch_id ++ get_message_handlers plugins kernel dispatch_id

-- A library: it does not open, it has no getMessageHandlers, or it has one.
pub data Library : Type 0 where
  not_opened without_plugin : Library
  with_plugin : ℕ → Plugin → Library

-- handlerManager::setHandlers; `none` is the exit when a library does not open.
unfoldable pub set_handlers : (Bytes → Library) → List Bytes → Manager → Option Manager
set_handlers dlopen [] m = some m
set_handlers dlopen (lib ∷ libs) m = elim (dlopen lib) [
  | not_opened ↦ none
  | without_plugin ↦ set_handlers dlopen libs m
  | with_plugin handle func ↦
      set_handlers dlopen libs (record m { plugins_ = assign handle func m.plugins_ })
]

-- setConfig.
unfoldable pub set_config : (Bytes → Library) → List (Bytes × Bytes) → Manager → Option Manager
unfolding set_handlers
set_config dlopen config m = elim (lookup (codes "LOGDUR_HANDLERS") config) [
  | none ↦ some m
  | some [] ↦ some m
  | some (c ∷ text) ↦ set_handlers dlopen (split (c ∷ text) [] b',' false).0 m
]

-- The loop over the handlers of plugins, which are told the kernel if they use kernelDB.
unfoldable pub appended : Bytes → List (ℕ × Bool) → List Handler
appended kernel [] = []
appended kernel ((handler, uses_kdb) ∷ rest) =
    from_plugin handler (if uses_kdb then some kernel else none) ∷ appended kernel rest

-- checkoutCommsObject; a null pointer is `none`.
unfoldable pub checkout_comms_object : ℕ → Bytes → ℕ → Manager → Option DhComms
unfolding get_message_handlers appended
checkout_comms_object agent kernel dispatch_id m = elim (lookup agent m.mem_mgrs_) [
  | none ↦ none
  | some mem_mgr ↦ some (record {
    mem_mgr = mem_mgr;
    handlers = elim (get_message_handlers m.plugins_ kernel dispatch_id) [
      | [] ↦ memory_heatmap kernel dispatch_id ∷ time_interval kernel dispatch_id ∷ []
      | h ∷ rest ↦ appended kernel (h ∷ rest)
    ];
    started = some kernel;
  })
]

-- The steps of checkinCommsObject, up to the first that throws; the object is deleted at the end.
pub data Checkin : Type 0 where
  stop report delete_handlers deleted : Checkin

unfoldable pub until_thrown : (Checkin → Bool) → List Checkin → List Checkin
until_thrown throws [] = []
until_thrown throws (step ∷ steps) =
    let later = until_thrown throws steps in if throws step then step ∷ [] else step ∷ later

-- checkinCommsObject: its result, and the steps that were begun.
unfoldable pub checkin_comms_object : (Checkin → Bool) → Bool × List Checkin
unfolding until_thrown
checkin_comms_object throws =
    (true, until_thrown throws (stop ∷ report ∷ delete_handlers ∷ deleted ∷ []))
