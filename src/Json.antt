-- ===== src/Json.antt =====
-- JSONHelper of src/json_helpers.cc: the text of a JSON object, built field by field. The stream is the
-- text written so far, and a value is the text that operator<< prints of it.
pub mod Members
use mathlib.Core.List.{append_assoc}
use omniprobe.Prelude.{
  ◌≡◌, refl, sym, ap, ◌∙◌, Bool, false, List, [], ◌∷◌, ◌++◌, Option, none, some, Bytes, codes,
  if◌then◌else◌, ◌==◌,
}

-- The constructor; `restart` writes the same text.
abbrev pub opened : Bytes
opened = codes "{"

abbrev quote_if : Bool → Bytes
quote_if quotes = if quotes then codes "\"" else []

abbrev hex_if : Bool → Bytes
hex_if hex = if hex then codes "0x" else []

-- One item of `addVector`, without its comma.
unfoldable pub item_text : Bool → Bool → Bytes → Bytes
item_text quotes hex item = quote_if quotes ++ (hex_if hex ++ (item ++ quote_if quotes))

unfoldable pub items_text : Bool → Bool → List Bytes → Bytes
unfolding item_text
items_text quotes hex [] = []
items_text quotes hex (item ∷ items) =
    item_text quotes hex item ++ (codes "," ++ items_text quotes hex items)

-- `pop_back`; on an empty string it is undefined.
unfoldable pub pop_back : Bytes → Option Bytes
pop_back [] = none
pop_back (c ∷ []) = some []
pop_back (c ∷ d ∷ s) = elim (pop_back (d ∷ s)) [ none ↦ none | some rest ↦ some (c ∷ rest) ]

unfoldable pub add_vector : Bytes → List Bytes → Bool → Bool → Bytes → Option Bytes
unfolding pop_back items_text
add_vector name items quotes hex ss = elim (pop_back (items_text quotes hex items)) [
  | none ↦ none
  | some result ↦ some (ss ++ (codes "\"" ++ (name ++ (codes "\": [" ++ (result ++ codes "],")))))
]

-- A field, without its comma: the name in quotes, the value with a quote, 0x, or both in front.
unfoldable pub field_text : Bytes → Bytes → Bool → Bool → Bytes
field_text name value quotes hex =
    codes "\""
    ++ (name ++ (codes "\": " ++ (quote_if quotes ++ (hex_if hex ++ (value ++ quote_if quotes)))))

unfoldable pub add_field : Bytes → Bytes → Bool → Bool → Bytes → Bytes
unfolding field_text
add_field name value quotes hex ss = ss ++ (field_text name value quotes hex ++ codes ",")

-- `addFields`, which passes neither flag on: the defaults are quotes off and hex off.
unfoldable pub add_fields : List (Bytes × Bytes) → Bytes → Bytes
unfolding add_field
add_fields [] ss = ss
add_fields ((name, value) ∷ fields) ss = add_fields fields (add_field name value false false ss)

unfoldable pub append_string : Bytes → Bytes → Bytes
append_string str ss = ss ++ str

-- The text without a comma at its end.
unfoldable pub without_comma : Bytes → Bytes
without_comma [] = []
without_comma (c ∷ []) = if c == b',' then [] else c ∷ []
without_comma (c ∷ d ∷ s) = c ∷ without_comma (d ∷ s)

unfoldable pub get_json : Bytes → Bytes
unfolding without_comma
get_json ss = without_comma ss ++ codes "}"

-- Texts with a comma between each two.
abbrev pub join : List Bytes → Bytes
join [] = []
join (t ∷ []) = t
join (t ∷ u ∷ ts) = t ++ (codes "," ++ join (u ∷ ts))

pub without_comma_end : (a : Bytes) → without_comma (a ++ codes ",") ≡ a
unfolding without_comma
without_comma_end [] = refl
without_comma_end (c ∷ []) = refl
without_comma_end (c ∷ d ∷ s) = ap (λ t. c ∷ t) (without_comma_end (d ∷ s))

pop_back_end : (a : Bytes) → pop_back (a ++ codes ",") ≡ some a
unfolding pop_back
pop_back_end [] = refl
pop_back_end (c ∷ []) = refl
pop_back_end (c ∷ d ∷ s) = rw (pop_back_end (d ∷ s)) refl

abbrev pub texts : List (Bytes × Bytes) → List Bytes
texts [] = []
texts ((name, value) ∷ fields) = field_text name value false false ∷ texts fields

abbrev pub item_texts : Bool → Bool → List Bytes → List Bytes
item_texts quotes hex [] = []
item_texts quotes hex (item ∷ items) = item_text quotes hex item ∷ item_texts quotes hex items

add_fields_text :
    (name value : Bytes) (fields : List (Bytes × Bytes)) (ss : Bytes)
    → add_fields ((name, value) ∷ fields) ss
      ≡ (ss ++ join (texts ((name, value) ∷ fields))) ++ codes ","
unfolding add_fields
add_fields_text name value [] ss =
    sym (append_assoc ss (field_text name value false false) (codes ","))
add_fields_text name value ((n, v) ∷ fields) ss =
    let first = field_text name value false false in
    let later = join (texts ((n, v) ∷ fields)) in
    let ih = add_fields_text n v fields (ss ++ (first ++ codes ",")) in
    let inner = append_assoc first (codes ",") later in
    let outer = append_assoc ss (first ++ codes ",") later in
    ih ∙ ap (λ t. t ++ codes ",") (outer ∙ ap (λ t. ss ++ t) inner)

-- An object of any number of fields is their texts between braces, with a comma between each two and
-- none at the end.
get_json-add_fields :
    (fields : List (Bytes × Bytes))
    → get_json (add_fields fields opened) ≡ codes "{" ++ (join (texts fields) ++ codes "}")
unfolding get_json without_comma add_fields
get_json-add_fields [] = refl
get_json-add_fields ((name, value) ∷ fields) =
    ap get_json (add_fields_text name value fields opened)
    ∙ ap (λ t. t ++ codes "}") (without_comma_end (opened ++ join (texts ((name, value) ∷ fields))))

items_text-join :
    (quotes hex : Bool) (item : Bytes) (items : List Bytes)
    → items_text quotes hex (item ∷ items)
      ≡ join (item_texts quotes hex (item ∷ items)) ++ codes ","
unfolding items_text
items_text-join quotes hex item [] = refl
items_text-join quotes hex item (next ∷ items) =
    let first = item_text quotes hex item in
    let later = join (item_texts quotes hex (next ∷ items)) in
    ap (λ t. first ++ (codes "," ++ t)) (items_text-join quotes hex next items)
    ∙ sym (append_assoc first (codes "," ++ later) (codes ","))

-- A vector with an item is written as its items between brackets, with a comma between each two; for
-- one with no item the code takes the last character off an empty string.
add_vector-join :
    (name item : Bytes) (items : List Bytes) (quotes hex : Bool) (ss : Bytes)
    → (add_vector name (item ∷ items) quotes hex ss
        ≡ some (
            ss
            ++ (codes "\""
                ++ (name
                    ++ (codes "\": ["
                        ++ (join (item_texts quotes hex (item ∷ items)) ++ codes "],"))))))
      × (add_vector name [] quotes hex ss ≡ none)
unfolding add_vector pop_back items_text
add_vector-join name item items quotes hex ss =
    let whole = items_text-join quotes hex item items in
    let popped = pop_back_end (join (item_texts quotes hex (item ∷ items))) in
    (rw (add_vector, whole, popped) refl, refl)
