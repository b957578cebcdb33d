-- ===== src/LibraryFilter/Arrays.antt =====
-- parseStringArray of src/library_filter.cc, and the arrays of strings that it reads back.
use omniprobe.Prelude.{
  ℕ, ◌≡◌, sym, ap, ◌∙◌, Bool, true, false, ◌&&◌, ◌||◌, List, [], ◌∷◌, ◌++◌, Bytes, if◌then◌else◌,
  ◌==◌, leb, arith, All,
}
use mathlib.Core.List.{append-nil, append_assoc}

-- std::isspace in the C locale.
abbrev is_space : ℕ → Bool
is_space c = c == 32 || (leb 9 c && leb c 13)

-- Where the reader is: between the strings, in one, or behind a backslash of one.
pub data Place : Type 0 where
  between : Place
  inside escaped : Bytes → Place

-- The loops of `parseStringArray` behind the bracket: whether the closing bracket was found, and the
-- strings read up to the end or to the error.
unfoldable pub scan : Place → List Bytes → Bytes → Bool × List Bytes
scan at result [] = (false, result)
scan between result (c ∷ s) =
    let go_on = scan between result s in
    let open_quote = scan (inside []) result s in
    if is_space c
    then go_on
    else if c == b']'
    then (true, result)
    else if c == b','
    then go_on
    else if c == b'"'
    then open_quote
    else (false, result)
scan (inside value) result (c ∷ s) =
    let close_quote = scan between (result ++ value ∷ []) s in
    let escape = scan (escaped value) result s in
    let go_on = scan (inside (value ++ c ∷ [])) result s in
    if c == b'"' then close_quote else if c == b'\\' then escape else go_on
scan (escaped value) result (c ∷ s) = scan (inside (value ++ c ∷ [])) result s

unfoldable pub parse_string_array : Bytes → List Bytes → Bool × List Bytes
parse_string_array [] result = (false, result)
parse_string_array (c ∷ s) result =
    let later = parse_string_array s result in
    if is_space c then later else if c == b'[' then scan between result s else (false, result)

-- The JSON text of a string, without its opening quote, and of an array of strings.
abbrev pub render_value : Bytes → Bytes → Bytes
render_value [] behind = b'"' ∷ behind
render_value (c ∷ v) behind =
    if c == b'"' || c == b'\\' then b'\\' ∷ c ∷ render_value v behind else c ∷ render_value v behind

-- The strings behind the first one, each with a comma in front of it, and the bracket.
abbrev pub render_more : List Bytes → Bytes → Bytes
render_more [] behind = b']' ∷ behind
render_more (v ∷ vs) behind = b',' ∷ b' ' ∷ b'"' ∷ render_value v (render_more vs behind)

abbrev pub render_array : List Bytes → Bytes → Bytes
render_array [] behind = b'[' ∷ b']' ∷ behind
render_array (v ∷ vs) behind = b'[' ∷ b'"' ∷ render_value v (render_more vs behind)

-- No byte is a control character, which JSON has to escape in another way.
abbrev pub is_printable : Bytes → Bool
is_printable [] = true
is_printable (c ∷ v) = leb 32 c && is_printable v

scan_value :
    (value v behind : Bytes) (result : List Bytes)
    → scan (inside value) result (render_value v behind)
      ≡ scan between (result ++ (value ++ v) ∷ []) behind
unfolding scan
scan_value value [] behind result =
    ap (λ t. scan between (result ++ t ∷ []) behind) (sym (append-nil value))
scan_value value (c ∷ v) behind result =
    let ih = scan_value (value ++ c ∷ []) v behind result in
    let joined = append_assoc value (c ∷ []) v in ground (arith, ih, joined)

scan_more :
    (items : List Bytes) (behind : Bytes) (result : List Bytes)
    → scan between result (render_more items behind) ≡ (true, result ++ items)
unfolding scan
scan_more [] behind result = ap (λ t. (true, t)) (sym (append-nil result))
scan_more (v ∷ vs) behind result =
    scan_value [] v (render_more vs behind) result
    ∙ scan_more vs behind (result ++ v ∷ [])
    ∙ ap (λ t. (true, t)) (append_assoc result (v ∷ []) vs)

-- Every list of strings without control characters is read back from its JSON text, in which a quote and
-- a backslash are escaped by a backslash and nothing else is escaped, behind the strings that were there
-- before; what follows the array does not matter. Texts with other escapes are not covered.
pub parse_string_array-render_array :
    (items : List Bytes) (behind : Bytes) (result : List Bytes)
    → All (λ item. is_printable item ≡ true) items
    → parse_string_array (render_array items behind) result ≡ (true, result ++ items)
unfolding parse_string_array scan
parse_string_array-render_array [] behind result printable =
    ap (λ t. (true, t)) (sym (append-nil result))
parse_string_array-render_array (v ∷ vs) behind result printable =
    scan_value [] v (render_more vs behind) result
    ∙ scan_more vs behind (result ++ v ∷ [])
    ∙ ap (λ t. (true, t)) (append_assoc result (v ∷ []) vs)
