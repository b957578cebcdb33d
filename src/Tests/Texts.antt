-- ===== src/Tests/Texts.antt =====
-- The parsers and the kernel names at concrete texts.
use omniprobe.Prelude.{
  ◌≡◌, refl, true, false, ◌&&◌, List, [], ◌∷◌, Option, none, some, Bytes, codes, leb, ltb, arith,
  text_eq, starts_with,
}
use omniprobe.Scope.{instrumentation_scope, matches}
use omniprobe.Scope.Lines.{pattern_matches, range_selects}
use omniprobe.Interceptor.Names.{rfind}
use omniprobe.LibraryFilter.{
  Filter, Outside, load_config, find_and_parse_array, find, skip_to_colon, compile_all,
  glob_to_regex,
}
use omniprobe.LibraryFilter.Arrays.{
  parse_string_array, scan, render_array, parse_string_array-render_array,
}

abbrev no_file : Bytes → Option (List Bytes)
no_file path = none

range_selects_example :
    matches (instrumentation_scope no_file (some (codes "a.cc:10:20")) none) (codes "a.cc") 15
    ≡ (pattern_matches (codes "a.cc") (codes "a.cc") && (leb 10 15 && ltb 15 20))
range_selects_example =
    range_selects no_file (codes "a.cc") b'1' (codes "0") (codes "20") (codes "a.cc") 15
      (refl, (refl, (refl, (refl, tt)))) (refl, (refl, tt)) (refl, (refl, tt)) (λ e. cc)
      (omega arith) (omega arith)

abbrev mangled : Bytes
mangled = codes "_Z3foov"

no_suffix : rfind (codes ".kd") mangled ≡ none
unfolding rfind starts_with
no_suffix = refl

abbrev quoted : List Bytes
quoted = codes "a/b" ∷ codes "say \"x\\\"" ∷ []

parse_string_array-render_array_example :
    parse_string_array (render_array quoted (codes "}")) [] ≡ (true, quoted)
parse_string_array-render_array_example =
    parse_string_array-render_array quoted (codes "}") [] (refl, (refl, tt))

-- A matcher that takes the expression as the text itself.
abbrev outside : Outside Bytes
outside = record {
  compile = λ p. some p;
  regex_match = λ path p. text_eq path p;
  expand_glob = λ p. p ∷ [];
  read_magic = λ p. codes "ELF";
  exists_file = λ p. true;
  realpath = λ p. none;
  ld_library_path = none;
}

abbrev fresh_filter : Filter Bytes
fresh_filter = record {
  include_patterns = [];
  include_with_deps_patterns = [];
  exclude_regexes = [];
  active = false;
}

abbrev broken : Bytes
broken = codes "{\"exclude\": [\"a\" 1]}"

broken_fails : (load_config outside (some broken) fresh_filter).0 ≡ false
unfolding load_config find_and_parse_array find skip_to_colon starts_with parse_string_array scan
    compile_all glob_to_regex
broken_fails = refl
