-- ===== src/Interceptor/Loading.antt =====
-- addFile and setLocation of coCache (src/utils.cc): the kernels of code object files, entered into the
-- maps of the cache. The HSA runtime, kernelDB, std::regex and the files are parameters, and malloc is taken to succeed. A failed
-- CHECK_STATUS ends the program, and so does a kernel filter that is no regular expression.
use omniprobe.Prelude.{
  ℕ, Bool, true, false, not, List, [], ◌∷◌, ◌++◌, Option, none, some, Bytes, codes, if◌then◌else◌,
  text_eq,
}
use omniprobe.Prelude.Maps.{text_key, nat_key, upsert, assign}
use omniprobe.Interceptor.KernArgs.{ArgDescriptor}
use omniprobe.Interceptor.Cache.{Cache, CodeObjectRef, assign_in, or_empty}
use omniprobe.Scope.{ends_with}

-- Whether a code object file becomes an executable: it may not open, have no reader, or be for
-- another ISA, and is then left out; other failures end the program.
pub data Loaded : Type 0 where
  left_out failed : Loaded
  executable : ℕ → Loaded

-- The code outside; `none` is an exception of extractCodeObjects, or a filter that is no expression.
pub record Hsa : Type 0 where
  pub extract_code_objects : ℕ → Bytes → Option (List Bytes)
  pub load : ℕ → Bytes → Loaded
  pub symbols_of : ℕ → List ℕ
  pub is_kernel : ℕ → Bool
  pub symbol_name : ℕ → Bytes
  pub demangle_name : Bytes → Bytes
  pub regex_search : Bytes → Bytes → Option Bool
  pub describe_kernel : Bytes → Bytes → Option ArgDescriptor

-- The members of coCache that the two functions change.
pub record Files : Type 0 where
  pub cache : Cache
  pub kernels_ : List (ℕ × List ℕ)
  pub cache_objects_ : List (ℕ × (ℕ × Bytes))
  pub filelist_ : List Bytes
  pub location_ : Bytes

-- The end of a call: the program is ended, an exception, or a value.
pub data Outcome : Type 0 where
  ended thrown : Outcome
  returned : Bool → Files → Outcome

-- The executables of the code objects that load, with their files.
unfoldable pub load_all : Hsa → ℕ → List Bytes → Option (List (ℕ × Bytes))
load_all hsa agent [] = some []
load_all hsa agent (co_file ∷ co_files) =
    let later = load_all hsa agent co_files in
    elim (hsa.load agent co_file) [
      | left_out ↦ later
      | failed ↦ none
      | executable exe ↦ elim later [ none ↦ none | some rest ↦ some ((exe, co_file) ∷ rest) ]
    ]

-- Does the name pass the filter?
unfoldable pub passes : Hsa → Bytes → Bytes → Option Bool
passes hsa filter name = if text_eq filter [] then some true else hsa.regex_search filter name

-- The maps after a kernel symbol that passes.
unfoldable pub enter : Hsa → ℕ → Bytes → Bytes → ℕ → Cache → Cache
enter hsa agent name co_file symbol cache =
    let mangled = hsa.symbol_name symbol in
    let kernel_name = hsa.demangle_name mangled in
    let described : Cache = elim (hsa.describe_kernel co_file kernel_name) [
      | none ↦ cache
      | some desc ↦ record cache { arg_map = assign_in agent kernel_name desc cache.arg_map }
    ] in
    let ref : CodeObjectRef = record {
      source_file = name;
      co_file = co_file;
      mangled_name = mangled;
    } in
    record described {
      lookup_map = assign_in agent kernel_name symbol cache.lookup_map;
      kernel_co_map = assign_in agent kernel_name ref cache.kernel_co_map;
    }

unfoldable pub add_symbol : Hsa → ℕ → Bytes → Bytes → Bytes → ℕ → Files → Option Files
unfolding enter
add_symbol hsa agent name filter co_file symbol files =
    let known : Files = record files {
      kernels_ = upsert agent (λ old. or_empty old ++ symbol ∷ []) files.kernels_;
    } in
    if not (hsa.is_kernel symbol)
    then some files
    else elim (passes hsa filter (hsa.demangle_name (hsa.symbol_name symbol))) [
      | none ↦ none
      | some passed ↦
          if passed
          then some (record known { cache = enter hsa agent name co_file symbol files.cache })
          else some known
    ]

unfoldable pub add_symbols : Hsa → ℕ → Bytes → Bytes → Bytes → List ℕ → Files → Option Files
add_symbols hsa agent name filter co_file [] files = some files
add_symbols hsa agent name filter co_file (symbol ∷ symbols) files =
    elim (add_symbol hsa agent name filter co_file symbol files) [
      | none ↦ none
      | some next ↦ add_symbols hsa agent name filter co_file symbols next
    ]

-- The second loop of addFile; the entry of an agent in `cache_objects_` is the last executable.
unfoldable pub add_executables : Hsa → ℕ → Bytes → Bytes → List (ℕ × Bytes) → Files → Option Files
add_executables hsa agent name filter [] files = some files
add_executables hsa agent name filter ((exe, co_file) ∷ executables) files =
    elim (add_symbols hsa agent name filter co_file (hsa.symbols_of exe) files) [
      | none ↦ none
      | some next ↦
          add_executables hsa agent name filter executables
            (record next { cache_objects_ = assign agent (exe, name) next.cache_objects_ })
    ]

-- addFile, whose result is never set to true.
unfoldable pub add_file : Hsa → ℕ → Bytes → Bytes → Files → Outcome
add_file hsa agent name filter files = elim (hsa.extract_code_objects agent name) [
  | none ↦ thrown
  | some [] ↦ returned false files
  | some (co_file ∷ co_files) ↦ elim (load_all hsa agent (co_file ∷ co_files)) [
    | none ↦ ended
    | some executables ↦ elim (add_executables hsa agent name filter executables files) [
      | none ↦ ended
      | some next ↦ returned false next
    ]
  ]
]

-- The files of the directory with the suffix of a code object.
unfoldable pub hsaco_files : List Bytes → List Bytes
hsaco_files [] = []
hsaco_files (file ∷ files) =
    let rest = hsaco_files files in if ends_with file (codes ".hsaco") then file ∷ rest else rest

-- The loop of setLocation; an exception ends it and is caught.
unfoldable pub add_files : Hsa → ℕ → Bytes → List Bytes → Files → Option Files
add_files hsa agent filter [] files = some files
add_files hsa agent filter (file ∷ rest) files = elim (add_file hsa agent file filter files) [
  | ended ↦ none
  | thrown ↦ some files
  | returned result next ↦ add_files hsa agent filter rest next
]

abbrev pub has_files : List Bytes → Bool
has_files [] = false
has_files (file ∷ files) = true

-- setLocation, with the test for a directory, and the files of one or an exception.
unfoldable pub set_location :
    Hsa → (Bytes → Bool) → (Bytes → Option (List Bytes)) → ℕ → Bytes → Bytes → Files → Outcome
unfolding hsaco_files
set_location hsa is_directory directory_files agent directory filter files =
    let cleared : Files = record files { filelist_ = [] } in
    let located : Files = record cleared { location_ = directory } in
    if text_eq directory []
    then returned false cleared
    else if not (is_directory directory)
    then returned false located
    else elim (directory_files directory) [
      | none ↦ returned false located
      | some found ↦
          let listed : Files = record located { filelist_ = hsaco_files found } in
          elim (add_files hsa agent filter (hsaco_files found) listed) [
            | none ↦ ended
            | some next ↦ returned (has_files next.filelist_) next
          ]
    ]
