-- ===== src/MemoryAnalysis/JsonReport.antt =====
-- getCodeContext and report_json of memory_analysis_handler_t (src/memory_analysis_handler.cc). The files,
-- the time, the environment and the device are parameters.
use omniprobe.Prelude.{
  ℕ, ◌-◌, Bool, true, false, not, ◌&&◌, ◌||◌, List, [], ◌∷◌, ◌++◌, Option, none, some, Bytes, codes,
  if◌then◌else◌, ◌==◌, ltb, length, get_or, text_eq,
}
use omniprobe.Prelude.Digits.{decimal}
use omniprobe.Comms.{MemoryAccess}
use omniprobe.Scope.Parse.{trim_whitespace, is_empty}
use omniprobe.Interceptor.Names.{split_first}
use omniprobe.MemoryAnalysis.Accesses.{LdsAccess, GlobalAccess, Located}
use omniprobe.MemoryAnalysis.SourceLines.{Sources, Shown, shown_line}
use omniprobe.MemoryAnalysis.Reports.{Placed, placed, rw2str}

-- A text without the spaces in front of it and behind it.
unfoldable pub skip_spaces : Bytes → Bytes
skip_spaces [] = []
skip_spaces (c ∷ s) = if c == b' ' then skip_spaces s else c ∷ s

unfoldable pub cut_spaces : Bytes → Bytes
cut_spaces [] = []
cut_spaces (c ∷ s) = elim (cut_spaces s) [
  | [] ↦ if c == b' ' then [] else c ∷ []
  | d ∷ rest ↦ c ∷ (d ∷ rest)
]

-- The line of a file, if it has that many.
unfoldable pub context_line : List Bytes → ℕ → Bytes
unfolding skip_spaces cut_spaces
context_line lines line =
    if line == 0 || ltb (length lines) line
    then []
    else cut_spaces (skip_spaces (shown_line (get_or lines (line - 1) [])))

-- getCodeContext, with its static variables.
unfoldable pub get_code_context : Sources → Bytes → ℕ → Shown → Shown × Bytes
unfolding context_line
get_code_context sources fname line shown =
    if text_eq fname shown.cached_fname
    then (shown, context_line shown.cached_lines line)
    else elim (sources fname) [
      | none ↦ (record { cached_fname = fname; cached_lines = [] }, [])
      | some lines ↦
          (record { cached_fname = fname; cached_lines = lines }, context_line lines line)
    ]

abbrev pub texts : List Bytes → Bytes
texts [] = []
texts (t ∷ rest) = t ++ texts rest

abbrev location_text : {T : Type 0} → Placed T → Bytes → (kind : Option MemoryAccess) → Bytes
location_text p context kind = texts (
    codes "        {\n          \"source_location\": {\n            \"file\": \""
    ∷ p.fname
    ∷ codes "\",\n            \"line\": "
    ∷ decimal p.line
    ∷ codes ",\n            \"column\": "
    ∷ decimal p.column
    ∷ codes "\n          },\n          \"code_context\": \""
    ∷ context
    ∷ codes "\",\n          \"access_info\": {\n            \"type\": \""
    ∷ rw2str kind
    ∷ [])

-- The object of a global access.
unfoldable pub global_object : (ℕ → Option MemoryAccess) → Placed GlobalAccess → Bytes → Bytes
global_object kinds p context =
    let a = p.access in
    texts (
      location_text p context (kinds a.access.rw_kind)
      ∷ codes "\",\n            \"execution_count\": "
      ∷ decimal a.access.no_accesses
      ∷ codes ",\n            \"ir_bytes\": "
      ∷ decimal a.access.ir_access_size
      ∷ codes ",\n            \"isa_bytes\": "
      ∷ decimal a.access.isa_access_size
      ∷ codes ",\n            \"isa_instruction\": \""
      ∷ a.access.isa_instruction
      ∷ codes "\",\n            \"cache_lines\": {\n              \"needed\": "
      ∷ decimal a.min_cache_lines_needed
      ∷ codes ",\n              \"used\": "
      ∷ decimal a.no_cache_lines_used
      ∷ codes "\n            }\n          }\n        }"
      ∷ [])

-- The object of an LDS access.
unfoldable pub lds_object : (ℕ → Option MemoryAccess) → Placed LdsAccess → Bytes → Bytes
lds_object kinds p context =
    let a = p.access in
    texts (
      location_text p context (kinds a.access.rw_kind)
      ∷ codes "\",\n            \"execution_count\": "
      ∷ decimal a.access.no_accesses
      ∷ codes ",\n            \"ir_bytes\": "
      ∷ decimal a.access.ir_access_size
      ∷ codes ",\n            \"total_conflicts\": "
      ∷ decimal a.no_bank_conflicts
      ∷ codes "\n          }\n        }"
      ∷ [])

-- The body of the nested loops: whether this is the first access, and the static variables.
unfoldable pub objects :
    {T : Type 0}
    → Sources
    → (Placed T → Bytes → Bytes)
    → List (Placed T)
    → Bool
    → Shown
    → Shown × Bytes
unfolding get_code_context
objects sources object [] first shown = (shown, [])
objects sources object (p ∷ ps) first shown =
    let next = get_code_context sources p.fname p.line shown in
    let later = objects sources object ps false next.0 in
    (later.0, (if first then [] else codes ",\n") ++ (object p next.1 ++ later.1))

-- What report_json reads beside the accesses: the first line of the file VERSION if that can be read,
-- the time, whether LOGDUR_FILTER is set and not empty, the name of the device's architecture if HIP gives
-- it, and the tables of the architectures.
pub record Surroundings : Type 0 where
  pub version_line : Option Bytes
  pub timestamp : Bytes
  pub has_kernel_filter : Bool
  pub gcn_arch_name : Option Bytes
  pub arch_string_to_enum : Bytes → ℕ
  pub get_l2_cache_line_size : ℕ → ℕ

unfoldable pub version_of : Option Bytes → Bytes
unfolding trim_whitespace
version_of none = codes "null"
version_of (some line) =
    let version = trim_whitespace line in if is_empty version then codes "null" else version

abbrev before_colon : Bytes → Option (Bytes × Bytes) → Bytes
before_colon name none = name
before_colon name (some (arch, features)) = arch

abbrev or_default : ℕ → ℕ
or_default size = if size == 0 then 128 else size

-- The architecture and the size of a cache line.
unfoldable pub gpu_info : Surroundings → Bytes × ℕ
unfolding split_first
gpu_info env = if env.has_kernel_filter then (codes "unknown", 128) else elim (env.gcn_arch_name) [
  | none ↦ (codes "unknown", 128)
  | some name ↦
      let arch = before_colon name (split_first b':' name) in
      (arch, or_default (env.get_l2_cache_line_size (env.arch_string_to_enum arch)))
]

abbrev pub is_empty_map : {T : Type 0} → Located T → Bool
is_empty_map [] = true
is_empty_map (entry ∷ rest) = false

-- What stands in front of the object of a dispatch.
unfoldable pub opening : (is_console : Bool) (dispatch_id : ℕ) (has_data : Bool) → Bytes
opening is_console dispatch_id has_data =
    if not is_console && (dispatch_id == 1 || (dispatch_id == 0 && has_data))
    then codes "[\n"
    else if not (dispatch_id == 1) && ltb 0 dispatch_id
    then codes ",\n"
    else []

-- The parts of the report around the two lists.
abbrev pub report_head : Bytes → ℕ → Bytes
report_head kernel dispatch_id = texts (
    codes "{\n  \"kernel_analysis\": {\n    \"kernel_info\": {\n      \"name\": \""
    ∷ kernel
    ∷ codes "\",\n      \"dispatch_id\": "
    ∷ decimal dispatch_id
    ∷ codes "\n    },\n    \"cache_analysis\": {\n      \"accesses\": [\n"
    ∷ [])

abbrev pub report_middle : Bytes
report_middle = codes "\n      ]\n    },\n    \"bank_conflicts\": {\n      \"accesses\": [\n"

abbrev pub report_tail : Surroundings → Bytes
report_tail env = texts (
    codes "\n      ]\n    }\n  },\n  \"metadata\": {\n    \"version\": \""
    ∷ version_of env.version_line
    ∷ codes "\",\n    \"timestamp\": \""
    ∷ env.timestamp
    ∷ codes "\",\n    \"gpu_info\": {\n      \"architecture\": \""
    ∷ (gpu_info env).0
    ∷ codes "\",\n      \"cache_line_size\": "
    ∷ decimal (gpu_info env).1
    ∷ codes "\n    }\n  }\n}"
    ∷ [])

-- report_json: the static variables afterwards, and what is written to the log file.
unfoldable pub report_json :
    Sources
    → (ℕ → Option MemoryAccess)
    → Surroundings
    → (is_console : Bool) (kernel : Bytes) (dispatch_id : ℕ) → Located GlobalAccess
    → Located LdsAccess
    → Shown
    → Shown × Bytes
unfolding objects placed opening version_of gpu_info global_object lds_object
report_json sources kinds env is_console kernel dispatch_id global_accesses lds_accesses shown =
    let has_data = not (is_empty_map global_accesses) || not (is_empty_map lds_accesses) in
    let cache = objects sources (global_object kinds) (placed global_accesses) true shown in
    let conflicts = objects sources (lds_object kinds) (placed lds_accesses) true cache.0 in
    (
      conflicts.0,
      texts (
          opening is_console dispatch_id has_data
          ∷ report_head kernel dispatch_id
          ∷ cache.1
          ∷ report_middle
          ∷ conflicts.1
          ∷ report_tail env
          ∷ (if is_console then codes "\n" else [])
          ∷ []),
    )
