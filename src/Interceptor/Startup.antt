-- ===== src/Interceptor/Startup.antt =====
-- The constructor of hsaInterceptor (src/interceptor.cc): the library filter, and the files that each
-- GPU is given when the process starts; and getSharedLibraries of src/utils.cc. The configuration has been
-- read; the agents of the HSA runtime, the path of the executable and the names that dl_iterate_phdr
-- gives are parameters. The log, the signals
-- (Interceptor/Lifetime) and the threads are not in this file. A failed CHECK_STATUS is `none`.
use omniprobe.Prelude.{
  ℕ, Bool, List, [], ◌∷◌, ◌++◌, Option, none, some, Bytes, codes, if◌then◌else◌, text_eq,
}
use omniprobe.Prelude.Maps.{text_key, nat_key, lookup}
use omniprobe.LibraryFilter.{Filter, Outside, load_config, is_excluded, get_included_files}
use omniprobe.LibraryFilter.Dependencies.{ElfReader, get_included_files_with_deps}
use omniprobe.Interceptor.Loading.{Hsa, Files, Outcome, add_file, set_location}

-- The code outside; the agents are none if their iteration fails.
pub record Outlook (R : Type 0) : Type 0 where
  pub hsa : Hsa
  pub env : Outside R
  pub read_elf : ElfReader
  pub read_file : Bytes → Option Bytes
  pub gpus : Option (List ℕ)
  pub executable_path : Bytes
  pub loaded_names : List Bytes
  pub is_directory : Bytes → Bool
  pub directory_files : Bytes → Option (List Bytes)

-- The members that the constructor fills: `kdbs_` has the agents with a kernelDB, and `agents` are
-- those that comms_mgr was given.
pub record Started (R : Type 0) : Type 0 where
  pub run_instrumented_ : Bool
  pub library_filter_ : Filter R
  pub files : Files
  pub kdbs_ : List ℕ
  pub agents : List ℕ

abbrev pub or_blank : Option Bytes → Bytes
or_blank none = []
or_blank (some value) = value

abbrev pub setting : Bytes → List (Bytes × Bytes) → Bytes
setting name config = or_blank (lookup name config)

-- The names that are not empty, behind those of the list.
unfoldable pub get_shared_libraries : List Bytes → List Bytes → List Bytes
get_shared_libraries [] libraries = libraries
get_shared_libraries ([] ∷ names) libraries = get_shared_libraries names libraries
get_shared_libraries ((c ∷ name) ∷ names) libraries =
    get_shared_libraries names (libraries ++ (c ∷ name) ∷ [])

module _ {R : Type 0} (out : Outlook R) where
  -- A configuration that cannot be loaded leaves the filter as it is by then.
  unfoldable pub start_filter : List (Bytes × Bytes) → Filter R → Filter R
  start_filter config filter =
      let path = setting (codes "LOGDUR_LIBRARY_FILTER") config in
      if text_eq path [] then filter else (load_config out.env (out.read_file path) filter).1

  unfoldable pub listed_files : Filter R → List Bytes
  unfolding get_shared_libraries
  listed_files filter =
      get_shared_libraries out.loaded_names (out.executable_path ∷ [])
      ++ (if filter.active
          then get_included_files out.env filter
            ++ get_included_files_with_deps out.env out.read_elf filter
          else [])

  -- The loop over the files; an exception of addFile is caught, and the next file follows.
  unfoldable pub load_listed : Filter R → ℕ → Bytes → List Bytes → Files → Option Files
  load_listed filter agent str_filter [] files = some files
  load_listed filter agent str_filter (file ∷ rest) files =
      let later = load_listed filter agent str_filter rest in
      if is_excluded out.env filter file
      then later files
      else elim (add_file out.hsa agent file str_filter files) [
        | Outcome.ended ↦ none
        | Outcome.thrown ↦ later files
        | Outcome.returned result next ↦ later next
      ]

  unfoldable pub set_files : Filter R → ℕ → Bytes → Bytes → Files → Option Files
  unfolding load_listed listed_files
  set_files filter agent location str_filter files =
      if text_eq location []
      then load_listed filter agent str_filter (listed_files filter) files
      else elim (set_location out.hsa out.is_directory out.directory_files agent location str_filter
          files) [
            | Outcome.ended ↦ none
            | Outcome.thrown ↦ none
            | Outcome.returned result next ↦ some next
          ]

  -- The loop over the GPUs.
  unfoldable pub start_agents : Bytes → Bytes → List ℕ → Started R → Option (Started R)
  unfolding set_files
  start_agents location str_filter [] st = some st
  start_agents location str_filter (agent ∷ agents) st =
      elim (set_files st.library_filter_ agent location str_filter st.files) [
        | none ↦ none
        | some next ↦ start_agents location str_filter agents (record st {
          files = next;
          kdbs_ = if text_eq location [] then agent ∷ st.kdbs_ else st.kdbs_;
          agents = st.agents ++ agent ∷ [];
        })
      ]

  abbrev pub or_none : Option (List ℕ) → List ℕ
  or_none none = []
  or_none (some agents) = agents

  -- The constructor, on the members as they are declared.
  unfoldable pub start_interceptor : List (Bytes × Bytes) → Started R → Option (Started R)
  unfolding start_agents start_filter
  start_interceptor config st =
      let instrumented = text_eq (setting (codes "LOGDUR_INSTRUMENTED") config) (codes "true") in
      let ready : Started R = record st {
        run_instrumented_ = instrumented;
        library_filter_ = start_filter config st.library_filter_;
      } in
      if instrumented
      then start_agents (setting (codes "LOGDUR_KERNEL_CACHE") config)
          (setting (codes "LOGDUR_FILTER") config) (or_none out.gpus) ready
      else some ready
