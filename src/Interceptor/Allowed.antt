-- ===== src/Interceptor/Allowed.antt =====
-- What the constructor of hsaInterceptor (src/interceptor.cc) enters into the code object cache.
use omniprobe.Prelude.{
  ℕ, ◌≡◌, Bool, true, false, List, [], ◌∷◌, ◌++◌, Option, none, some, Bytes, codes, if◌then◌else◌,
  text_eq, All, Bool-cases, Option-cases, inl, inr,
}
use omniprobe.Prelude.Maps.{text_key, nat_key, upsert, assign, upsert-All}
use omniprobe.LibraryFilter.{Filter, is_excluded}
use omniprobe.Interceptor.Cache.{CodeObjectRef, Cache, assign_in, or_empty}
use omniprobe.Interceptor.Loading.{
  Hsa, Files, Outcome, load_all, enter, passes, add_symbol, add_symbols, add_executables, add_file,
}
use omniprobe.Interceptor.Startup.{
  Outlook, Started, setting, load_listed, set_files, start_agents, listed_files, start_interceptor,
  or_none,
}

-- The kernels in the cache whose source files have a property.
abbrev pub AreFrom : (Bytes → Type 0) → List (ℕ × List (Bytes × CodeObjectRef)) → Type 0
AreFrom Allowed = All (λ (entry : ℕ × List (Bytes × CodeObjectRef)).
    All (λ (kernel : Bytes × CodeObjectRef). Allowed kernel.1.source_file) entry.1)

assign_in-AreFrom :
    (Allowed : Bytes → Type 0) (agent : ℕ) (name : Bytes) (ref : CodeObjectRef)
    (m : List (ℕ × List (Bytes × CodeObjectRef)))
    → Allowed ref.source_file
    → AreFrom Allowed m
    → AreFrom Allowed (assign_in agent name ref m)
unfolding upsert
assign_in-AreFrom Allowed agent name ref m new old =
    upsert-All (All (λ (kernel : Bytes × CodeObjectRef). Allowed kernel.1.source_file)) agent
      (λ inner. assign name ref (or_empty inner)) m (new, tt)
      (λ inner held.
        upsert-All (λ (r : CodeObjectRef). Allowed r.source_file) name (λ o. ref) inner new
          (λ r kept. new) held)
      old

-- After a step that can end the program.
abbrev pub AreFromAfter : (Bytes → Type 0) → Option Files → Type 0
AreFromAfter Allowed none = Unit {0}
AreFromAfter Allowed (some files) = AreFrom Allowed files.cache.kernel_co_map

-- After addFile: nothing, or an exception, or the files.
abbrev AreFromThen : (Bytes → Type 0) → Outcome → Type 0
AreFromThen Allowed Outcome.ended = Unit {0}
AreFromThen Allowed Outcome.thrown = Unit {0}
AreFromThen Allowed (Outcome.returned result files) = AreFrom Allowed files.cache.kernel_co_map

module _ (Allowed : Bytes → Type 0) (hsa : Hsa) (agent : ℕ) (name filter : Bytes)
    (allowed : Allowed name) where
  enter-AreFrom :
      (co_file : Bytes) (symbol : ℕ) (cache : Cache)
      → AreFrom Allowed cache.kernel_co_map
      → AreFrom Allowed (enter hsa agent name co_file symbol cache).kernel_co_map
  unfolding enter
  enter-AreFrom co_file symbol cache h =
      assign_in-AreFrom Allowed agent _ _ cache.kernel_co_map allowed h

  add_symbol-AreFrom :
      (co_file : Bytes) (symbol : ℕ) (files : Files)
      → AreFrom Allowed files.cache.kernel_co_map
      → AreFromAfter Allowed (add_symbol hsa agent name filter co_file symbol files)
  unfolding add_symbol
  add_symbol-AreFrom co_file symbol files h = elim (Bool-cases (hsa.is_kernel symbol)) [
    | inr e ↦ rw (add_symbol, e) h
    | inl e ↦ elim (Option-cases (passes hsa filter (hsa.demangle_name (hsa.symbol_name symbol)))) [
      | inl n ↦ rw (add_symbol, e, n) tt
      | inr (true, n) ↦ rw (add_symbol, e, n) (enter-AreFrom co_file symbol files.cache h)
      | inr (false, n) ↦ rw (add_symbol, e, n) h
    ]
  ]

  after_symbol :
      (o : Option Files) (more : Files → Option Files)
      → AreFromAfter Allowed o
      → ((next : Files)
          → AreFrom Allowed next.cache.kernel_co_map
          → AreFromAfter Allowed (more next))
      → AreFromAfter Allowed (elim o [ none ↦ none | some next ↦ more next ])
  after_symbol none more h k = tt
  after_symbol (some next) more h k = k next h

  add_symbols-AreFrom :
      (co_file : Bytes) (symbols : List ℕ) (files : Files)
      → AreFrom Allowed files.cache.kernel_co_map
      → AreFromAfter Allowed (add_symbols hsa agent name filter co_file symbols files)
  unfolding add_symbols
  add_symbols-AreFrom co_file [] files h = h
  add_symbols-AreFrom co_file (symbol ∷ symbols) files h =
      after_symbol (add_symbol hsa agent name filter co_file symbol files)
        (add_symbols hsa agent name filter co_file symbols)
        (add_symbol-AreFrom co_file symbol files h) (add_symbols-AreFrom co_file symbols)

  add_executables-AreFrom :
      (executables : List (ℕ × Bytes)) (files : Files)
      → AreFrom Allowed files.cache.kernel_co_map
      → AreFromAfter Allowed (add_executables hsa agent name filter executables files)
  unfolding add_executables
  add_executables-AreFrom [] files h = h
  add_executables-AreFrom ((exe, co_file) ∷ executables) files h =
      after_symbol (add_symbols hsa agent name filter co_file (hsa.symbols_of exe) files)
        (λ next.
          add_executables hsa agent name filter executables
            (record next { cache_objects_ = assign agent (exe, name) next.cache_objects_ }))
        (add_symbols-AreFrom co_file (hsa.symbols_of exe) files h)
        (λ next held.
          add_executables-AreFrom executables
            (record next { cache_objects_ = assign agent (exe, name) next.cache_objects_ }) held)

  returned_from :
      (o : Option Files)
      → AreFromAfter Allowed o
      → AreFromThen Allowed
          (elim o [ none ↦ Outcome.ended | some next ↦ Outcome.returned false next ])
  returned_from none h = tt
  returned_from (some next) h = h

  add_file-AreFrom :
      (files : Files)
      → AreFrom Allowed files.cache.kernel_co_map
      → AreFromThen Allowed (add_file hsa agent name filter files)
  unfolding add_file
  add_file-AreFrom files h = elim (Option-cases (hsa.extract_code_objects agent name)) [
    | inl e ↦ rw (add_file, e) tt
    | inr ([], e) ↦ rw (add_file, e) h
    | inr (co_file ∷ co_files, e) ↦ elim (Option-cases (load_all hsa agent (co_file ∷ co_files))) [
      | inl n ↦ rw (add_file, e, n) tt
      | inr (executables, n) ↦
          rw (add_file, e, n)
            (returned_from (add_executables hsa agent name filter executables files)
              (add_executables-AreFrom executables files h))
    ]
  ]

module _ {R : Type 0} (out : Outlook R) where
  -- A file that the filter does not exclude.
  abbrev pub IsAllowed : Filter R → Bytes → Type 0
  IsAllowed filter file = is_excluded out.env filter file ≡ false

  after_file :
      (Allowed : Bytes → Type 0) (later : Files → Option Files) (files : Files) (o : Outcome)
      → AreFromThen Allowed o
      → AreFrom Allowed files.cache.kernel_co_map
      → ((next : Files)
          → AreFrom Allowed next.cache.kernel_co_map
          → AreFromAfter Allowed (later next))
      → AreFromAfter Allowed (elim o [
        | Outcome.ended ↦ none
        | Outcome.thrown ↦ later files
        | Outcome.returned result next ↦ later next
      ])
  after_file Allowed later files Outcome.ended got h k = tt
  after_file Allowed later files Outcome.thrown got h k = k files h
  after_file Allowed later files (Outcome.returned result next) got h k = k next got

  load_listed-AreFrom :
      (filter : Filter R) (agent : ℕ) (str_filter : Bytes) (listed : List Bytes) (files : Files)
      → AreFrom (IsAllowed filter) files.cache.kernel_co_map
      → AreFromAfter (IsAllowed filter) (load_listed out filter agent str_filter listed files)
  unfolding load_listed
  load_listed-AreFrom filter agent str_filter [] files h = h
  load_listed-AreFrom filter agent str_filter (file ∷ rest) files h =
      elim (Bool-cases (is_excluded out.env filter file)) [
        | inl e ↦ rw e (load_listed-AreFrom filter agent str_filter rest files h)
        | inr e ↦ rw e (
            after_file (IsAllowed filter) (load_listed out filter agent str_filter rest) files
              (add_file out.hsa agent file str_filter files)
              (add_file-AreFrom (IsAllowed filter) out.hsa agent file str_filter e files h) h
              (load_listed-AreFrom filter agent str_filter rest))
      ]

  abbrev pub AreAllowedAfter : Option (Started R) → Type 0
  AreAllowedAfter none = Unit {0}
  AreAllowedAfter (some st) = AreFrom (IsAllowed st.library_filter_) st.files.cache.kernel_co_map

  after_agent :
      (filter : Filter R) (more : Files → Option (Started R)) (o : Option Files)
      → AreFromAfter (IsAllowed filter) o
      → ((next : Files)
          → AreFrom (IsAllowed filter) next.cache.kernel_co_map
          → AreAllowedAfter (more next))
      → AreAllowedAfter (elim o [ none ↦ none | some next ↦ more next ])
  after_agent filter more none h k = tt
  after_agent filter more (some next) h k = k next h

  start_agents-AreAllowed :
      (str_filter : Bytes) (agents : List ℕ) (st : Started R)
      → AreFrom (IsAllowed st.library_filter_) st.files.cache.kernel_co_map
      → AreAllowedAfter (start_agents out [] str_filter agents st)
  unfolding start_agents set_files text_eq
  start_agents-AreAllowed str_filter [] st h = h
  start_agents-AreAllowed str_filter (agent ∷ agents) st h =
      after_agent st.library_filter_
        (λ next.
          start_agents out [] str_filter agents (record st {
            files = next;
            kdbs_ = agent ∷ st.kdbs_;
            agents = st.agents ++ agent ∷ [];
          }))
        (load_listed out st.library_filter_ agent str_filter (listed_files out st.library_filter_)
          st.files)
        (load_listed-AreFrom st.library_filter_ agent str_filter
          (listed_files out st.library_filter_) st.files h)
        (λ next held. start_agents-AreAllowed str_filter agents _ held)

  chosen :
      (b : Bool) (location str_filter : Bytes) (agents : List ℕ) (ready : Started R)
      → location ≡ []
      → AreFrom (IsAllowed ready.library_filter_) ready.files.cache.kernel_co_map
      → AreAllowedAfter
          (if b then start_agents out location str_filter agents ready else some ready)
  chosen false location str_filter agents ready no_cache h = h
  chosen true location str_filter agents ready no_cache h =
      rw no_cache (start_agents-AreAllowed str_filter agents ready h)

  none_from :
      (Allowed : Bytes → Type 0) (m : List (ℕ × List (Bytes × CodeObjectRef)))
      → m ≡ []
      → AreFrom Allowed m
  none_from Allowed m blank = rw blank tt

  -- Without a cache directory, and from an empty code object cache: unless it is ended, the start of an
  -- interceptor enters kernels only of files that its library filter does not exclude, whichever GPUs,
  -- shared libraries and included files there are.
  pub start_interceptor-AreAllowed :
      (config : List (Bytes × Bytes)) (st : Started R)
      → setting (codes "LOGDUR_KERNEL_CACHE") config ≡ []
      → st.files.cache.kernel_co_map ≡ []
      → AreAllowedAfter (start_interceptor out config st)
  unfolding start_interceptor
  start_interceptor-AreAllowed config st no_cache blank =
      chosen (text_eq (setting (codes "LOGDUR_INSTRUMENTED") config) (codes "true"))
        (setting (codes "LOGDUR_KERNEL_CACHE") config) (setting (codes "LOGDUR_FILTER") config)
        (or_none out out.gpus) _ no_cache (none_from _ st.files.cache.kernel_co_map blank)
