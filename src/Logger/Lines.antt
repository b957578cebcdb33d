-- ===== src/Logger/Lines.antt =====
-- What message_logger_t (src/message_logger.cc) adds to its log.
use omniprobe.Prelude.{
  ℕ, ◌≡◌, refl, sym, ap, ◌∙◌, true, false, List, [], ◌∷◌, ◌++◌, Option, none, some, Bytes, codes,
  map, if◌then◌else◌, Bool-cases, List-cases, inl, inr,
}
use mathlib.Core.List.{append-nil}
use omniprobe.Prelude.Digits.{decimal}
use omniprobe.Comms.{MessageType, Message, Platform}
use omniprobe.Json.{opened, add_field, field_text, join, texts}
use omniprobe.Json.Members.{
  vector_text, HasMembers, add_field-HasMembers, add_fields-HasMembers, add_vector-HasMembers,
  get_json-HasMembers,
}
use omniprobe.Logger.{
  Logger, header_fields, handle_header, csv_row, handle_address_message, log_line, handle_type,
  handle,
}

-- The members of the object of a message.
abbrev pub header_members : Platform → (MessageType → ℕ) → Logger → Message → List Bytes
header_members platform type_code logger message =
    field_text (codes "kernel_name") logger.str_kernel true false
    ∷ texts (header_fields platform type_code message.header logger.dispatch_id_)

abbrev pub address_members : List ℕ → List Bytes
address_members [] = []
address_members (a ∷ rest) =
    vector_text (codes "addresses") (map decimal (a ∷ rest)) false false ∷ []

-- The line of an object.
abbrev pub object_line : List Bytes → Bytes
object_line members = (codes "{" ++ (join members ++ codes "}")) ++ codes "\n"

-- What a message adds to the log.
abbrev pub logged : Platform → (MessageType → ℕ) → Logger → Message → MessageType → Bytes → Bytes
logged platform type_code logger message MessageType.address text =
    if logger.format_csv_
    then (text ++ csv_row logger message)
      ++ object_line (header_members platform type_code logger message)
    else text
      ++ object_line
          (header_members platform type_code logger message ++ address_members message.addresses)
logged platform type_code logger message MessageType.time_interval text = text
logged platform type_code logger message (MessageType.other n) text =
    text ++ object_line (header_members platform type_code logger message)

handle_header-HasMembers :
    (platform : Platform) (type_code : MessageType → ℕ) (logger : Logger) (message : Message)
    → HasMembers
        (handle_header platform type_code logger message opened)
        (header_members platform type_code logger message)
unfolding handle_header
handle_header-HasMembers platform type_code logger message =
    add_fields-HasMembers (header_fields platform type_code message.header logger.dispatch_id_)
      (add_field (codes "kernel_name") logger.str_kernel true false opened)
      (field_text (codes "kernel_name") logger.str_kernel true false ∷ [])
      (add_field-HasMembers (codes "kernel_name") logger.str_kernel true false opened [] refl)

abbrev pub log_of : Option Logger → Option Bytes
log_of none = none
log_of (some logger) = some logger.log_file_

lined :
    (logger : Logger) (json m : Bytes) (ms : List Bytes)
    → HasMembers json (m ∷ ms)
    → (log_line logger json).log_file_ ≡ logger.log_file_ ++ object_line (m ∷ ms)
unfolding log_line
lined logger json m ms h =
    ap (λ t. logger.log_file_ ++ (t ++ codes "\n")) (get_json-HasMembers m ms json h)

address_logged :
    (platform : Platform) (type_code : MessageType → ℕ) (logger : Logger) (message : Message)
    → log_of (handle_type platform type_code MessageType.address logger message)
      ≡ some (logged platform type_code logger message MessageType.address logger.log_file_)
unfolding handle_type handle_address_message
address_logged platform type_code logger message =
    let json = handle_header platform type_code logger message opened in
    let first = field_text (codes "kernel_name") logger.str_kernel true false in
    let others = texts (header_fields platform type_code message.header logger.dispatch_id_) in
    let headed = handle_header-HasMembers platform type_code logger message in
    elim (Bool-cases logger.format_csv_) [
      | inl e ↦
          let next : Logger = record logger {
            log_file_ = logger.log_file_ ++ csv_row logger message;
          } in
          rw (handle_type, handle_address_message, e)
            (ap some (lined next json first others headed))
      | inr e ↦ elim (List-cases message.addresses) [
        | inl n ↦
            let same : header_members platform type_code logger message ++ []
                ≡ header_members platform type_code logger message =
              append-nil (header_members platform type_code logger message) in
            rw (handle_type, handle_address_message, e, n)
              (ap some (
                lined logger json first others headed
                ∙ ap (λ l. logger.log_file_ ++ object_line l) (sym same)))
        | inr (a, (rest, n)) ↦
            let (whole, added, members) =
              add_vector-HasMembers (codes "addresses") (decimal a) (map decimal rest) false false
                json (header_members platform type_code logger message) headed in
            let vector = vector_text (codes "addresses") (map decimal (a ∷ rest)) false false in
            rw (handle_type, handle_address_message, e, n, added)
              (ap some (lined logger whole first (others ++ vector ∷ []) members))
      ]
    ]

-- A time interval message adds nothing to the log; an address message adds, in the JSON format, one
-- line with an object of the header's fields and, if there are any, of the addresses, and in the CSV
-- format its row and then the object of the header's fields; another message adds that object.
pub handle-object_line :
    (platform : Platform) (type_code : MessageType → ℕ) (logger : Logger) (message : Message)
    → log_of (handle platform type_code logger message)
      ≡ some (logged platform type_code logger message message.header.user_type logger.log_file_)
unfolding handle handle_type
handle-object_line platform type_code logger message = go message.header.user_type
  where
    go :
        (kind : MessageType)
        → log_of (handle_type platform type_code kind logger message)
          ≡ some (logged platform type_code logger message kind logger.log_file_)
    go MessageType.address = address_logged platform type_code logger message
    go MessageType.time_interval = refl
    go (MessageType.other n) = ap some (
        lined logger (handle_header platform type_code logger message opened)
          (field_text (codes "kernel_name") logger.str_kernel true false)
          (texts (header_fields platform type_code message.header logger.dispatch_id_))
          (handle_header-HasMembers platform type_code logger message))
