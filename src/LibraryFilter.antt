-- ===== src/LibraryFilter.antt =====
-- LibraryFilter of src/library_filter.cc: the configuration file, which libraries are included, and
-- which files are excluded. The file system, glob(3), the ELF reader and std::regex are parameters.
pub mod Arrays
pub mod Dependencies
use omniprobe.Prelude.{
  ℕ, zero, suc, ◌+◌, ◌≡◌, refl, Bool, true, false, not, ◌&&◌, ◌||◌, List, [], ◌∷◌, ◌++◌, Option,
  none, some, Bytes, codes, text_eq, starts_with, if◌then◌else◌, ◌==◌, any, contains, drop, length,
  arith,
}
use omniprobe.Prelude.Maps.{text_key, assign, lookup}
use omniprobe.LibraryFilter.Arrays.{parse_string_array}

-- The text behind the first occurrence of a pattern.
unfoldable pub find : Bytes → Bytes → Option Bytes
find p [] = if starts_with p [] then some [] else none
find p (c ∷ s) =
    let later = find p s in if starts_with p (c ∷ s) then some (drop (length p) (c ∷ s)) else later

unfoldable pub skip_to_colon : Bytes → Option Bytes
skip_to_colon [] = none
skip_to_colon (c ∷ s) = let later = skip_to_colon s in if c == b':' then some s else later

-- A key that is not there is no failure.
unfoldable pub find_and_parse_array : Bytes → Bytes → List Bytes → Bool × List Bytes
find_and_parse_array json key result = elim (find (b'"' ∷ (key ++ codes "\"")) json) [
  | none ↦ (true, result)
  | some behind ↦ elim (skip_to_colon behind) [
    | none ↦ (false, result)
    | some array ↦ parse_string_array array result
  ]
]

-- The expression for a character that is no star.
abbrev one_character : ℕ → Bytes
one_character c =
    if c == b'?'
    then codes "[^/]"
    else if contains (codes ".+^$()[]{}|\\") c
    then b'\\' ∷ c ∷ []
    else c ∷ []

-- The loop, with whether a star has been read and the next character is not known yet.
unfoldable pub glob_from : Bool → Bytes → Bytes
glob_from false [] = []
glob_from true [] = codes "[^/]*"
glob_from false (c ∷ s) =
    let rest = glob_from false s in
    let star = glob_from true s in if c == b'*' then star else one_character c ++ rest
glob_from true (c ∷ s) =
    let rest = glob_from false s in
    if c == b'*' then codes ".*" ++ rest else codes "[^/]*" ++ (one_character c ++ rest)

unfoldable pub glob_to_regex : Bytes → Bytes
glob_to_regex = glob_from false

-- The members, over the type of compiled patterns.
pub record Filter (R : Type 0) : Type 0 where
  pub include_patterns : List Bytes
  pub include_with_deps_patterns : List Bytes
  pub exclude_regexes : List R
  pub active : Bool

-- The code outside: std::regex (`none` is std::regex_error), glob(3), the first four bytes that can
-- be read of a file, stat(2), realpath(3) and LD_LIBRARY_PATH.
pub record Outside (R : Type 0) : Type 0 where
  pub compile : Bytes → Option R
  pub regex_match : Bytes → R → Bool
  pub expand_glob : Bytes → List Bytes
  pub read_magic : Bytes → Bytes
  pub exists_file : Bytes → Bool
  pub realpath : Bytes → Option Bytes
  pub ld_library_path : Option Bytes

-- The loop over the exclude patterns: the expressions compiled, and whether all of them could be.
unfoldable pub compile_all : {R : Type 0} → Outside R → List R → List Bytes → Bool × List R
compile_all env regexes [] = (true, regexes)
compile_all env regexes (p ∷ ps) = elim (env.compile (glob_to_regex p)) [
  | none ↦ (false, regexes)
  | some r ↦ compile_all env (regexes ++ r ∷ []) ps
]

-- `loadConfig`, given the text of the file, or nothing if it cannot be opened.
unfoldable pub load_config : {R : Type 0} → Outside R → Option Bytes → Filter R → Bool × Filter R
load_config env none filter = (false, filter)
load_config {R} env (some json) filter =
    let included = find_and_parse_array json (codes "include") filter.include_patterns in
    let with_include : Filter R = record filter { include_patterns = included.1 } in
    let deps =
      find_and_parse_array json (codes "include_with_deps") filter.include_with_deps_patterns in
    let with_deps : Filter R = record with_include { include_with_deps_patterns = deps.1 } in
    let excluded = find_and_parse_array json (codes "exclude") [] in
    let compiled = compile_all env filter.exclude_regexes excluded.1 in
    let with_exclude : Filter R = record with_deps { exclude_regexes = compiled.1 } in
    if not included.0
    then (false, with_include)
    else if not deps.0
    then (false, with_deps)
    else if not excluded.0
    then (false, with_deps)
    else if not compiled.0
    then (false, with_exclude)
    else (true, record with_exclude { active = true })

unfoldable pub is_excluded : {R : Type 0} → Outside R → Filter R → Bytes → Bool
is_excluded env filter path =
    if not filter.active then false else any (env.regex_match path) filter.exclude_regexes

unfoldable pub is_valid_elf : {R : Type 0} → Outside R → Bytes → Bool
is_valid_elf env path = text_eq (env.read_magic path) (127 ∷ codes "ELF")

abbrev pub filter_list : (Bytes → Bool) → List Bytes → List Bytes
filter_list p [] = []
filter_list p (x ∷ xs) = if p x then x ∷ filter_list p xs else filter_list p xs

unfoldable pub included_files : {R : Type 0} → Outside R → List Bytes → List Bytes
included_files env [] = []
included_files env (p ∷ ps) =
    filter_list (is_valid_elf env) (env.expand_glob p) ++ included_files env ps

unfoldable pub get_included_files : {R : Type 0} → Outside R → Filter R → List Bytes
get_included_files env filter = included_files env filter.include_patterns

-- The fields of LD_LIBRARY_PATH that are not empty.
unfoldable pub ld_paths : Bytes → Bytes → List Bytes
ld_paths [] [] = []
ld_paths (a ∷ acc) [] = (a ∷ acc) ∷ []
ld_paths [] (c ∷ s) =
    let longer = ld_paths (c ∷ []) s in
    let fresh = ld_paths [] s in if c == b':' then fresh else longer
ld_paths (a ∷ acc) (c ∷ s) =
    let longer = ld_paths (a ∷ (acc ++ c ∷ [])) s in
    let fresh = ld_paths [] s in if c == b':' then (a ∷ acc) ∷ fresh else longer

abbrev standard_paths : List Bytes
standard_paths =
    codes "/lib64"
    ∷ codes "/usr/lib64"
    ∷ codes "/lib"
    ∷ codes "/usr/lib"
    ∷ codes "/usr/local/lib64"
    ∷ codes "/usr/local/lib"
    ∷ []

-- The first directory that has the library.
unfoldable pub search : {R : Type 0} → Outside R → Bytes → List Bytes → Bytes
search env lib_name [] = []
search env lib_name (dir ∷ dirs) =
    let full_path = dir ++ (b'/' ∷ lib_name) in
    let later = search env lib_name dirs in
    if env.exists_file full_path
    then elim (env.realpath full_path) [ none ↦ full_path | some real ↦ real ]
    else later

unfoldable pub resolve_library_path : {R : Type 0} → Outside R → Bytes → Bytes → Bytes
resolve_library_path env lib_name parent_dir =
    let ld : List Bytes = elim (env.ld_library_path) [ none ↦ [] | some path ↦ ld_paths [] path ] in
    let found = search env lib_name (parent_dir ∷ (standard_paths ++ ld)) in
    if starts_with (codes "/") lib_name
    then if env.exists_file lib_name then lib_name else []
    else found

-- The loop over the DT_NEEDED entries of `getElfDependencies`.
unfoldable pub dependencies : {R : Type 0} → Outside R → Bytes → List Bytes → List Bytes
dependencies env parent_dir [] = []
dependencies env parent_dir (name ∷ names) =
    let resolved = resolve_library_path env name parent_dir in
    let others = dependencies env parent_dir names in
    if not (text_eq name []) && (not (text_eq resolved []) && is_valid_elf env resolved)
    then resolved ∷ others
    else others

-- A filter whose configuration could not be loaded, and that no other one was loaded into before,
-- excludes no file.
load_config_failed :
    {R : Type 0} (env : Outside R) (text : Option Bytes) (filter : Filter R) (path : Bytes)
    → filter.active ≡ false
    → (load_config env text filter).0 ≡ false
    → is_excluded env (load_config env text filter).1 path ≡ false
unfolding load_config is_excluded
load_config_failed env none filter path inactive failed = ground (arith, inactive)
load_config_failed env (some json) filter path inactive failed = ground (arith, inactive, failed)
