-- ===== src/Interceptor/Dispatches.antt =====
-- getLogDurConfig and dispatchController of src/utils.cc: the configuration from the environment, and
-- which dispatches run the instrumented kernel. The random generator is a stream of draws.
use omniprobe.Prelude.{
  ℕ, ◌+◌, ◌≡◌, refl, Bool, true, false, not, ◌&&◌, List, [], ◌∷◌, Option, none, some, Bytes, codes,
  text_eq, if◌then◌else◌, leb, contains, map, arith, Option-cases, inl, inr,
}
use omniprobe.Prelude.Maps.{
  text_key, nat_key, text_cmp, upsert, assign, lookup, same_or_kept, lookup-upsert_at,
}

-- std::getenv.
abbrev pub Environment : Type 0
Environment = Bytes → Option Bytes

abbrev pub Config : Type 0
Config = List (Bytes × Bytes)

abbrev pub or_default : Option Bytes → Bytes → Bytes
or_default none d = d
or_default (some v) d = v

-- std::tolower in the C locale.
abbrev pub to_lower : ℕ → ℕ
to_lower c = if leb b'A' c && leb c b'Z' then c + 32 else c

unfoldable pub instrumented_value : Option Bytes → Bytes
unfolding text_eq
instrumented_value none = codes "false"
instrumented_value (some v) =
    let tmp = map to_lower v in
    if not (text_eq tmp (codes "true")) && not (text_eq tmp (codes "false"))
    then codes "false"
    else tmp

unfoldable pub get_log_dur_config : Environment → Config → Config
unfolding instrumented_value
get_log_dur_config getenv config =
    let a =
      assign (codes "LOGDUR_LOG_LOCATION")
        (or_default (getenv (codes "LOGDUR_LOG_LOCATION")) (codes "console")) config in
    let b =
      assign (codes "LOGDUR_KERNEL_CACHE") (or_default (getenv (codes "LOGDUR_KERNEL_CACHE")) [])
        a in
    let c =
      assign (codes "LOGDUR_INSTRUMENTED")
        (instrumented_value (getenv (codes "LOGDUR_INSTRUMENTED"))) b in
    let d = assign (codes "LOGDUR_HANDLERS") (or_default (getenv (codes "LOGDUR_HANDLERS")) []) c in
    let e = assign (codes "LOGDUR_FILTER") (or_default (getenv (codes "LOGDUR_FILTER")) []) d in
    let f =
      assign (codes "LOGDUR_DISPATCHES") (or_default (getenv (codes "LOGDUR_DISPATCHES")) []) e in
    assign (codes "LOGDUR_LIBRARY_FILTER") (or_default (getenv (codes "LOGDUR_LIBRARY_FILTER")) [])
      f

-- dispatchController. A constructor that assigns no flag leaves the values that the storage had.
pub record Controller : Type 0 where
  pub all_dispatch : Bool
  pub random_dispatch : Bool
  pub one_dispatch : Bool
  pub dispatched_kernels : List (ℕ × Bool)

-- The constructor, for the flags that the storage holds before.
unfoldable pub dispatch_controller : Environment → Controller → Controller
unfolding text_eq
dispatch_controller getenv storage =
    let fresh : Controller = record storage { dispatched_kernels = [] } in
    elim (lookup (codes "LOGDUR_DISPATCHES") (get_log_dur_config getenv [])) [
      | none ↦ record fresh { all_dispatch = true }
      | some value ↦
          if text_eq value (codes "random")
          then record fresh { random_dispatch = true; all_dispatch = false; one_dispatch = false }
          else if text_eq value (codes "all")
          then record fresh { all_dispatch = true; random_dispatch = false; one_dispatch = false }
          else if text_eq value (codes "1")
          then record fresh { one_dispatch = true; all_dispatch = false; random_dispatch = false }
          else fresh
    ]

-- `canDispatch`, given whether the generator would draw 1.
unfoldable pub can_dispatch : Bool → ℕ → Controller → Bool × Controller
can_dispatch draw kernel_object controller =
    if controller.random_dispatch
    then (draw, controller)
    else if controller.one_dispatch
    then elim (lookup kernel_object controller.dispatched_kernels) [
      | none ↦ (
        true,
        record controller {
          dispatched_kernels = assign kernel_object true controller.dispatched_kernels;
        },
      )
      | some seen ↦ (false, controller)
    ]
    else (true, controller)

-- The answers for a sequence of dispatches, each with the draw it would see.
unfoldable pub dispatch_all : Controller → List (ℕ × Bool) → List Bool
unfolding can_dispatch
dispatch_all controller [] = []
dispatch_all controller ((kernel_object, draw) ∷ rest) =
    let step = can_dispatch draw kernel_object controller in step.0 ∷ dispatch_all step.1 rest

-- The answers that let the first dispatch of each kernel through, and no other.
abbrev pub firsts : List ℕ → List (ℕ × Bool) → List Bool
firsts seen [] = []
firsts seen ((kernel_object, draw) ∷ rest) =
    not (contains seen kernel_object) ∷ firsts (kernel_object ∷ seen) rest

-- The flags of the setting "1".
abbrev pub IsOneDispatch : Controller → Type 0
IsOneDispatch controller = (controller.random_dispatch ≡ false) × (controller.one_dispatch ≡ true)

abbrev is_some : Option Bool → Bool
is_some none = false
is_some (some b) = true

-- The table holds the kernels seen.
abbrev Agrees : List (ℕ × Bool) → List ℕ → Type 0
Agrees table seen = (k : ℕ) → is_some (lookup k table) ≡ contains seen k

assign-Agrees :
    (k : ℕ) (table : List (ℕ × Bool)) (seen : List ℕ)
    → Agrees table seen
    → Agrees (assign k true table) (k ∷ seen)
assign-Agrees k table seen h i = elim (same_or_kept k (λ old. true) table i) [
  | inl e ↦ ground (arith, e, lookup-upsert_at k (λ old. true) table i e)
  | inr e ↦ ground (arith, e, h i, lookup-upsert_at k (λ old. true) table i)
]

firsts_from :
    (controller : Controller) (seen : List ℕ) (dispatches : List (ℕ × Bool))
    → IsOneDispatch controller
    → Agrees controller.dispatched_kernels seen
    → dispatch_all controller dispatches ≡ firsts seen dispatches
unfolding dispatch_all can_dispatch
firsts_from controller seen [] h a = refl
firsts_from controller seen ((k, draw) ∷ rest) h a =
    elim (Option-cases (lookup k controller.dispatched_kernels)) [
      | inl e ↦
          let found : contains seen k ≡ false = ground (arith, a k) in
          let next : Controller = record controller {
            dispatched_kernels = assign k true controller.dispatched_kernels;
          } in
          let ih =
            firsts_from next (k ∷ seen) rest h
              (assign-Agrees k controller.dispatched_kernels seen a) in
          ground (arith, ih)
      | inr found ↦
          let again : contains seen k ≡ true = ground (arith, a k) in
          let b : Agrees controller.dispatched_kernels (k ∷ seen) =
            λ i. ground (arith, a i, again) in
          let ih = firsts_from controller (k ∷ seen) rest h b in ground (arith, ih)
    ]

config_dispatches :
    (getenv : Environment)
    → lookup (codes "LOGDUR_DISPATCHES") (get_log_dur_config getenv [])
      ≡ some (or_default (getenv (codes "LOGDUR_DISPATCHES")) [])
unfolding get_log_dur_config lookup upsert text_cmp
config_dispatches getenv = refl

-- With LOGDUR_DISPATCHES set to "1", whatever the storage held, a sequence of dispatches runs the
-- instrumented kernel at the first dispatch of each kernel and at no other.
pub dispatch_all-firsts :
    (getenv : Environment) (storage : Controller) (dispatches : List (ℕ × Bool))
    → getenv (codes "LOGDUR_DISPATCHES") ≡ some (codes "1")
    → dispatch_all (dispatch_controller getenv storage) dispatches ≡ firsts [] dispatches
unfolding dispatch_controller
dispatch_all-firsts getenv storage dispatches h =
    let one : Controller = record {
      all_dispatch = false;
      random_dispatch = false;
      one_dispatch = true;
      dispatched_kernels = [];
    } in
    let built : dispatch_controller getenv storage ≡ one =
      rw (dispatch_controller, config_dispatches getenv, h) refl in
    rw built (firsts_from one [] dispatches (refl, refl) (unfold lookup in λ k. refl))

-- With LOGDUR_DISPATCHES not set, the constructor assigns none of the three flags.
dispatch_controller_unset :
    (getenv : Environment) (storage : Controller)
    → getenv (codes "LOGDUR_DISPATCHES") ≡ none
    → dispatch_controller getenv storage ≡ record storage { dispatched_kernels = [] }
unfolding dispatch_controller
dispatch_controller_unset getenv storage h =
    rw (dispatch_controller, config_dispatches getenv, h) refl
