-- ===== src/CommsManager/Agents.antt =====
-- The memory managers of agents (src/comms_mgr.cc): which pool an agent has after addAgent.
use omniprobe.Prelude.{
  ℕ, ◌≡◌, ◌⊎◌, refl, sym, ap, ◌∙◌, Bool, true, false, ◌&&◌, List, [], ◌∷◌, Option, none, some,
  Bytes, if◌then◌else◌, ◌==◌, Option-cases, Bool-cases, inl, inr, arith,
}
use omniprobe.Prelude.Maps.{nat_key, text_key, lookup, assign, lookup-upsert_self, same_or_kept}
use omniprobe.CommsManager.{
  Handler, PoolInfo, PoolSpecs, DhComms, Manager, collect_pools, add_managers, add_agent,
  get_message_handlers, appended, checkout_comms_object,
}

-- The last pool of an agent that the callback keeps.
abbrev pub is_kept : PoolInfo → Bool
is_kept info =
    info.global_segment
    && ((elim (info.alloc_allowed) [ none ↦ false | some allowed ↦ allowed ])
        && info.coarse_grained)

abbrev pub last_kept : ℕ → List PoolInfo → Option PoolSpecs → Option PoolSpecs
last_kept agent [] old = old
last_kept agent (info ∷ infos) old = last_kept agent infos (
    if is_kept info
    then some (record {
      agent_ = agent;
      pool_ = info.pool;
      min_alloc_size_ = elim (info.granule) [ none ↦ 0 | some granularity ↦ granularity ];
    })
    else old)

abbrev pub manager_of : Option DhComms → Option PoolSpecs
manager_of none = none
manager_of (some object) = some object.mem_mgr

manager_of-checkout_comms_object :
    (agent : ℕ) (kernel : Bytes) (id : ℕ) (m : Manager)
    → manager_of (checkout_comms_object agent kernel id m) ≡ lookup agent m.mem_mgrs_
unfolding checkout_comms_object
manager_of-checkout_comms_object agent kernel id m = go (lookup agent m.mem_mgrs_)
  where
    go :
        (found : Option PoolSpecs)
        → manager_of (elim found as (λ o. Option DhComms) [
          | none ↦ none
          | some mem_mgr ↦ some (record {
            mem_mgr = mem_mgr;
            handlers = elim (get_message_handlers m.plugins_ kernel id) [
              | [] ↦ Handler.memory_heatmap kernel id ∷ Handler.time_interval kernel id ∷ []
              | h ∷ rest ↦ appended kernel (h ∷ rest)
            ];
            started = some kernel;
          })
        ])
          ≡ found
    go none = refl
    go (some mem_mgr) = refl

assigned :
    (other agent : ℕ) (item : PoolSpecs) (mgrs : List (ℕ × PoolSpecs))
    → lookup other (assign agent item mgrs)
      ≡ (if other == agent then some item else lookup other mgrs)
assigned other agent item mgrs = elim (same_or_kept agent (λ old. item) mgrs other) [
  | inl e ↦ ground (arith, e, lookup-upsert_self agent (λ old. item) mgrs)
  | inr k ↦ elim (Bool-cases (other == agent)) [
    | inr e ↦ ground (arith, e, k)
    | inl e ↦
        let same : other ≡ agent = ground (arith, e) in
        ground (arith, e, same, lookup-upsert_self agent (λ old. item) mgrs)
  ]
]

abbrev spec_of : ℕ → PoolInfo → PoolSpecs
spec_of agent info = record {
  agent_ = agent;
  pool_ = info.pool;
  min_alloc_size_ = elim (info.granule) [ none ↦ 0 | some granularity ↦ granularity ];
}

-- A pool that is left out, or kept in front of the others.
collect_one :
    (agent : ℕ) (info : PoolInfo) (infos : List PoolInfo) (pools : List PoolSpecs)
    → collect_pools agent (info ∷ infos) ≡ some pools
    → ((is_kept info ≡ false) × (collect_pools agent infos ≡ some pools))
      ⊎ ((is_kept info ≡ true)
          × ((rest : List PoolSpecs) × (collect_pools agent infos ≡ some rest)
              × (pools ≡ spec_of agent info ∷ rest)))
unfolding collect_pools
collect_one agent info infos pools h = elim (Bool-cases (is_kept info)) [
  | inr e ↦ inl (e, ground (arith, h, e))
  | inl e ↦ elim (Option-cases (collect_pools agent infos)) [
    | inl c ↦ absurd (ground (arith, h, e, c))
    | inr (rest, c) ↦ inr (e, (rest, c, ground (arith, h, e, c)))
  ]
]

collected :
    (agent other : ℕ) (infos : List PoolInfo) (mgrs : List (ℕ × PoolSpecs)) (pools : List PoolSpecs)
    → collect_pools agent infos ≡ some pools
    → lookup other (add_managers pools mgrs)
      ≡ (if other == agent then last_kept agent infos (lookup agent mgrs) else lookup other mgrs)
unfolding collect_pools add_managers
collected agent other [] mgrs pools h =
    let none_kept : pools ≡ [] = ground (arith, h) in
    elim (Bool-cases (other == agent)) [
      | inl e ↦
          let same : other ≡ agent = ground (arith, e) in
          ap (λ l. lookup other (add_managers l mgrs)) none_kept ∙ ground (arith, e, same)
      | inr e ↦ ap (λ l. lookup other (add_managers l mgrs)) none_kept ∙ ground (arith, e)
    ]
collected agent other (info ∷ infos) mgrs pools h = elim (collect_one agent info infos pools h) [
  | inl (e, c) ↦ rw e (collected agent other infos mgrs pools c)
  | inr (e, (rest, c, p)) ↦
      let item = spec_of agent info in
      let next = assign agent item mgrs in
      let ih = collected agent other infos next rest c in
      let mine = lookup-upsert_self agent (λ old. item) mgrs in
      ap (λ l. lookup other (add_managers l mgrs)) p
      ∙ (ih ∙ ground (arith, e, mine, assigned other agent item mgrs))
]

-- When addAgent returns, it returns false; and from then on the objects of the agent get the manager of
-- the last pool that is global, that the runtime may allocate from, and that is coarse-grained, or as
-- before where the agent has no such pool. Objects of other agents are as before.
pub checkout_comms_object-add_agent :
    (pools_of : ℕ → List PoolInfo) (agent : ℕ) (m next : Manager) (result : Bool)
    → add_agent pools_of agent m ≡ some (result, next)
    → (result ≡ false)
      × ((other : ℕ) (kernel : Bytes) (id : ℕ)
          → manager_of (checkout_comms_object other kernel id next) ≡ (
              if other == agent
              then last_kept agent
                  (pools_of agent)
                  (manager_of (checkout_comms_object agent kernel id m))
              else manager_of (checkout_comms_object other kernel id m)))
unfolding add_agent
checkout_comms_object-add_agent pools_of agent m next result h =
    elim (Option-cases (collect_pools agent (pools_of agent))) [
      | inl e ↦ absurd (ground (arith, h, e))
      | inr (pools, e) ↦
          let after : add_managers pools m.mem_mgrs_ ≡ next.mem_mgrs_ = ground (arith, h, e) in
          (
            ground (arith, h, e),
            λ other kernel id.
                manager_of-checkout_comms_object other kernel id next
                ∙ (ap (lookup other) (sym after)
                    ∙ (collected agent other (pools_of agent) m.mem_mgrs_ pools e
                        ∙ (ap
                              (λ o.
                                if other == agent
                                then last_kept agent (pools_of agent) o
                                else lookup other m.mem_mgrs_)
                              (sym (manager_of-checkout_comms_object agent kernel id m))
                            ∙ ap
                                (λ o.
                                  if other == agent
                                  then last_kept agent (pools_of agent)
                                      (manager_of (checkout_comms_object agent kernel id m))
                                  else o)
                                (sym (manager_of-checkout_comms_object other kernel id m))))),
          )
    ]
