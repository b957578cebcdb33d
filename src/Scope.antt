-- ===== src/Scope.antt =====
-- InstrumentationScope of src/instrumentation/InstrumentationCommon.cpp (and its header): which source
-- locations an instrumentation pass instruments. The environment variables and the scope file are
-- arguments; the messages to the error stream are not modelled.
pub mod Numbers
pub mod Parse
pub mod Plain
pub mod Lines
use omniprobe.Prelude.{
  ℕ, zero, suc, ◌+◌, ◌-◌, ◌%◌, ◌^◌, Bool, true, false, not, ◌&&◌, ◌||◌, List, [], ◌∷◌, ◌++◌, Option,
  none, some, Bytes, text_eq, if◌then◌else◌, ◌==◌, ltb, leb, length, drop,
}
use omniprobe.Scope.Parse.{ScopeEntry, parse_definitions, trim_whitespace, is_empty}

-- The members of InstrumentationScope.
pub record Scope : Type 0 where
  pub entries : List ScopeEntry
  pub active : Bool

abbrev no_entries : List ScopeEntry → Bool
no_entries [] = true
no_entries (e ∷ es) = false

-- A blank line, or a comment, of a scope file.
abbrev is_skipped : Bytes → Bool
is_skipped [] = true
is_skipped (c ∷ s) = c == b'#'

-- The other lines of a scope file, joined by semicolons.
unfoldable pub combine : List Bytes → Bytes → Bytes
unfolding trim_whitespace
combine [] combined = combined
combine (line ∷ lines) combined =
    let text = trim_whitespace line in
    let joined = if is_empty combined then text else combined ++ (b';' ∷ text) in
    combine lines (if is_skipped text then combined else joined)

-- `parseFile`, given the lines of the file, or nothing if it cannot be opened.
unfoldable pub parse_file : List ScopeEntry → Option (List Bytes) → List ScopeEntry × Bool
unfolding combine parse_definitions
parse_file entries none = (entries, false)
parse_file entries (some lines) =
    let combined = combine lines [] in
    if is_empty combined then (entries, true) else parse_definitions entries combined

-- INSTRUMENTATION_SCOPE, read if it is set and not empty.
unfoldable pub read_scope : Option Bytes → List ScopeEntry × Bool
unfolding parse_definitions
read_scope none = ([], true)
read_scope (some text) = if is_empty text then ([], true) else parse_definitions [] text

-- INSTRUMENTATION_SCOPE_FILE, read after it if that went well.
unfoldable pub read_scope_file :
    (Bytes → Option (List Bytes)) → Option Bytes → List ScopeEntry × Bool → List ScopeEntry × Bool
unfolding parse_file
read_scope_file open_file none (entries, ok) = (entries, ok)
read_scope_file open_file (some path) (entries, ok) =
    if ok && not (is_empty path) then parse_file entries (open_file path) else (entries, ok)

-- The constructor.
unfoldable pub instrumentation_scope :
    (Bytes → Option (List Bytes)) → Option Bytes → Option Bytes → Scope
unfolding read_scope read_scope_file
instrumentation_scope open_file none none = record { entries = []; active = false }
instrumentation_scope open_file scope_env scope_file_env =
    let result = read_scope_file open_file scope_file_env (read_scope scope_env) in
    if not result.1
    then record { entries = []; active = false }
    else record { entries = result.0; active = not (no_entries result.0) }

-- `file.compare(file.size() - pattern.size(), pattern.size(), pattern) == 0`.
unfoldable pub ends_with : Bytes → Bytes → Bool
unfolding text_eq
ends_with file pattern_text =
    if leb (length pattern_text) (length file)
    then text_eq (drop (length file - length pattern_text) file) pattern_text
    else false

unfoldable pub file_matches : ScopeEntry → Bytes → Bool
unfolding ends_with text_eq
file_matches entry file =
    if is_empty entry.file_pattern
    then true
    else if entry.is_full_path
    then text_eq file entry.file_pattern
    else ends_with file entry.file_pattern

unfoldable pub in_ranges : List (ℕ × ℕ) → ℕ → Bool
in_ranges [] line = false
in_ranges ((first, second) ∷ rest) line = (leb first line && ltb line second) || in_ranges rest line

abbrev no_ranges : List (ℕ × ℕ) → Bool
no_ranges [] = true
no_ranges (r ∷ rs) = false

-- The loop over the entries.
unfoldable pub matches_any : List ScopeEntry → Bytes → ℕ → Bool
unfolding file_matches in_ranges
matches_any [] file line = false
matches_any (entry ∷ rest) file line =
    let others = matches_any rest file line in
    if not (file_matches entry file)
    then others
    else if no_ranges entry.ranges
    then true
    else if in_ranges entry.ranges line
    then true
    else others

unfoldable pub matches : Scope → Bytes → ℕ → Bool
unfolding matches_any
matches scope file line = if not scope.active then true else matches_any scope.entries file line
