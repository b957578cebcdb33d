-- ===== src/Json/Members.antt =====
-- An object of JSONHelper as its members: what each call of src/json_helpers.cc adds.
use mathlib.Core.List.{append_assoc, append-nil}
use omniprobe.Prelude.{
  ◌≡◌, refl, sym, ap, ◌∙◌, Bool, false, List, [], ◌∷◌, ◌++◌, some, Bytes, codes,
}
use omniprobe.Json.{
  opened, add_vector, add_field, add_fields, field_text, get_json, without_comma, join, texts,
  item_texts, add_vector-join, without_comma_end,
}

-- Every member with a comma behind it.
abbrev pub commas : List Bytes → Bytes
commas [] = []
commas (m ∷ ms) = m ++ (codes "," ++ commas ms)

commas-append : (xs ys : List Bytes) → commas (xs ++ ys) ≡ commas xs ++ commas ys
commas-append [] ys = refl
commas-append (m ∷ ms) ys =
    ap (λ t. m ++ (codes "," ++ t)) (commas-append ms ys)
    ∙ sym (append_assoc m (codes "," ++ commas ms) (commas ys))

commas-join : (m : Bytes) (ms : List Bytes) → commas (m ∷ ms) ≡ join (m ∷ ms) ++ codes ","
commas-join m [] = refl
commas-join m (n ∷ ms) =
    ap (λ t. m ++ (codes "," ++ t)) (commas-join n ms)
    ∙ sym (append_assoc m (codes "," ++ join (n ∷ ms)) (codes ","))

-- A member whose value is a list.
abbrev pub vector_text : Bytes → List Bytes → Bool → Bool → Bytes
vector_text name items quotes hex =
    codes "\"" ++ (name ++ (codes "\": [" ++ (join (item_texts quotes hex items) ++ codes "]")))

-- An object with these members so far.
abbrev pub HasMembers : Bytes → List Bytes → Type 0
HasMembers ss members = ss ≡ opened ++ commas members

pub add_field-HasMembers :
    (name value : Bytes) (quotes hex : Bool) (ss : Bytes) (members : List Bytes)
    → HasMembers ss members
    → HasMembers
        (add_field name value quotes hex ss)
        (members ++ field_text name value quotes hex ∷ [])
unfolding add_field
add_field-HasMembers name value quotes hex ss members h =
    let field = field_text name value quotes hex in
    ap (λ t. t ++ (field ++ codes ",")) h
    ∙ (append_assoc opened (commas members) (field ++ codes ",")
        ∙ sym (ap (λ t. opened ++ t) (commas-append members (field ∷ []))))

pub add_fields-HasMembers :
    (fields : List (Bytes × Bytes)) (ss : Bytes) (members : List Bytes)
    → HasMembers ss members
    → HasMembers (add_fields fields ss) (members ++ texts fields)
unfolding add_fields
add_fields-HasMembers [] ss members h = h ∙ ap (λ l. opened ++ commas l) (sym (append-nil members))
add_fields-HasMembers ((name, value) ∷ fields) ss members h =
    let field = field_text name value false false in
    add_fields-HasMembers fields (add_field name value false false ss) (members ++ field ∷ [])
      (add_field-HasMembers name value false false ss members h)
    ∙ ap (λ l. opened ++ commas l) (append_assoc members (field ∷ []) (texts fields))

pub add_vector-HasMembers :
    (name item : Bytes) (items : List Bytes) (quotes hex : Bool) (ss : Bytes) (members : List Bytes)
    → HasMembers ss members
    → (next : Bytes) × (add_vector name (item ∷ items) quotes hex ss ≡ some next)
      × HasMembers next (members ++ vector_text name (item ∷ items) quotes hex ∷ [])
add_vector-HasMembers name item items quotes hex ss members h =
    let joined = join (item_texts quotes hex (item ∷ items)) in
    let value = codes "\": [" ++ (joined ++ codes "]") in
    let vector = vector_text name (item ∷ items) quotes hex in
    let added = codes "\"" ++ (name ++ (codes "\": [" ++ (joined ++ codes "],"))) in
    let same : vector ++ codes "," ≡ added =
      ap (λ t. codes "\"" ++ t)
        (append_assoc name value (codes ",")
          ∙ ap (λ t. name ++ (codes "\": [" ++ t)) (append_assoc joined (codes "]") (codes ","))) in
    (
      ss ++ added,
      (add_vector-join name item items quotes hex ss).0,
      ap (λ t. t ++ added) h
          ∙ (append_assoc opened (commas members) added
              ∙ (ap (λ t. opened ++ (commas members ++ t)) (sym same)
                  ∙ sym (ap (λ t. opened ++ t) (commas-append members (vector ∷ []))))),
    )

-- The text of an object with a member.
pub get_json-HasMembers :
    (m : Bytes) (ms : List Bytes) (ss : Bytes)
    → HasMembers ss (m ∷ ms)
    → get_json ss ≡ codes "{" ++ (join (m ∷ ms) ++ codes "}")
unfolding get_json without_comma
get_json-HasMembers m ms ss h =
    let ended = h ∙ ap (λ t. opened ++ t) (commas-join m ms) in
    ap get_json ended ∙ ap (λ t. t ++ codes "}") (without_comma_end (opened ++ join (m ∷ ms)))
