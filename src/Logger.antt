-- ===== src/Logger.antt =====
-- message_logger_t of src/message_logger.cc: what is written to the log of each message. The log is the
-- text written so far. The fields of a header print as numbers; the number of a message type is a
-- parameter. What the verbose mode prints on the console is not modelled.
pub mod Lines
use omniprobe.Prelude.{
  ℕ, ◌%◌, ◌≡◌, refl, sym, ap, ◌∙◌, Bool, true, false, List, [], ◌∷◌, ◌++◌, Option, none, some,
  Bytes, codes, map, if◌then◌else◌, text_eq, Bool-cases, List-cases, inl, inr,
}
use mathlib.Core.List.{append-nil}
use omniprobe.Prelude.Digits.{decimal, hex_16}
use omniprobe.Comms.{MessageType, MemoryAccess, Header, Message, Platform}
use omniprobe.Json.{opened, add_vector, add_field, add_fields, get_json, field_text, join, texts}
use omniprobe.Json.Members.{
  vector_text, HasMembers, add_field-HasMembers, add_fields-HasMembers, add_vector-HasMembers,
  get_json-HasMembers,
}

pub record Logger : Type 0 where
  pub str_kernel : Bytes
  pub dispatch_id_ : ℕ
  pub format_csv_ : Bool
  pub log_file_ : Bytes

-- The line that the constructor writes in the CSV format.
abbrev pub csv_head : Bytes
csv_head =
    codes
      "ADDRESS_MESSAGE,timestamp,kernel,src_line,dispatch,exec_mask,xcc_id,se_id,cu_id,kind,address\n"

-- The constructor, with the value of LOGDUR_LOG_FORMAT and what the file holds.
unfoldable pub message_logger : Bytes → ℕ → Option Bytes → Bytes → Logger
message_logger str_kernel dispatch_id format text =
    let csv : Bool = elim format [
      | none ↦ true
      | some name ↦ if text_eq name (codes "json") then false else true
    ] in
    record {
      str_kernel = str_kernel;
      dispatch_id_ = dispatch_id;
      format_csv_ = csv;
      log_file_ = if csv then text ++ csv_head else text;
    }

-- The value of a field that is narrowed to uint16_t.
abbrev pub narrowed : ℕ → Bytes
narrowed n = decimal (n % 65536)

unfoldable pub op_type : MemoryAccess → Bytes
op_type MemoryAccess.undefined = codes "\"undefined\""
op_type MemoryAccess.read = codes "\"read\""
op_type MemoryAccess.write = codes "\"write\""
op_type MemoryAccess.read_write = codes "\"readwrite\""

-- The last field of the header: the kind of access of an address message, or the user data.
unfoldable pub last_field : Platform → Header → Bytes × Bytes
unfolding op_type
last_field platform hdr = elim (hdr.user_type) [
  | MessageType.address ↦ (codes "op_type", op_type (platform.access_of (hdr.user_data % 4)))
  | _ ↦ (codes "user_data", narrowed hdr.user_data)
]

unfoldable pub header_fields : Platform → (MessageType → ℕ) → Header → ℕ → List (Bytes × Bytes)
unfolding last_field
header_fields platform type_code hdr dispatch_id =
    (codes "dispatch_id", decimal dispatch_id)
    ∷ (codes "exec", decimal hdr.exec)
    ∷ (codes "timestamp", decimal hdr.timestamp)
    ∷ (codes "dwarf_line", decimal hdr.dwarf_line)
    ∷ (codes "dwarf_column", decimal hdr.dwarf_column)
    ∷ (codes "block_idx_x", decimal hdr.block_idx_x)
    ∷ (codes "block_idx_y", decimal hdr.block_idx_y)
    ∷ (codes "block_idx_z", decimal hdr.block_idx_z)
    ∷ (codes "wave_num", narrowed hdr.wave_num)
    ∷ (codes "xcc_id", narrowed hdr.xcc_id)
    ∷ (codes "se_id", narrowed hdr.se_id)
    ∷ (codes "cu_id", narrowed hdr.cu_id)
    ∷ (codes "active_lane_count", narrowed hdr.active_lane_count)
    ∷ (codes "user_type", narrowed (type_code hdr.user_type))
    ∷ last_field platform hdr
    ∷ []

module _ (platform : Platform) (type_code : MessageType → ℕ) where
  unfoldable pub handle_header : Logger → Message → Bytes → Bytes
  unfolding header_fields
  handle_header logger message json =
      add_fields (header_fields platform type_code message.header logger.dispatch_id_)
        (add_field (codes "kernel_name") logger.str_kernel true false json)

-- The addresses of a row, and its end; a row with no address has no end.
unfoldable pub csv_addresses : List ℕ → Bytes
csv_addresses [] = []
csv_addresses (a ∷ []) = codes "0x" ++ (hex_16 a ++ codes "\n")
csv_addresses (a ∷ b ∷ rest) = codes "0x" ++ (hex_16 a ++ (codes "," ++ csv_addresses (b ∷ rest)))

unfoldable pub csv_row : Logger → Message → Bytes
unfolding csv_addresses
csv_row logger message =
    let hdr = message.header in
    let first =
      codes "ADDRESS_MESSAGE,"
      ++ (decimal hdr.timestamp
          ++ (codes ",\"" ++ (logger.str_kernel ++ (codes "\"," ++ decimal hdr.dwarf_line)))) in
    let second =
      codes ","
      ++ (decimal logger.dispatch_id_ ++ (codes ",0x" ++ (hex_16 hdr.exec ++ codes ","))) in
    let third =
      decimal hdr.xcc_id
      ++ (codes "," ++ (decimal hdr.se_id ++ (codes "," ++ (decimal hdr.cu_id ++ codes ",")))) in
    first
    ++ (second
        ++ (third
            ++ (decimal (hdr.user_data % 4) ++ (codes "," ++ csv_addresses message.addresses))))

-- handle_address_message, for an address message: the log and the object; `none` is undefined.
unfoldable pub handle_address_message : Logger → Message → Bytes → Option (Logger × Bytes)
unfolding csv_row
handle_address_message logger message json =
    if logger.format_csv_
    then some (record logger { log_file_ = logger.log_file_ ++ csv_row logger message }, json)
    else elim (message.addresses) [
      | [] ↦ some (logger, json)
      | a ∷ rest ↦ elim (add_vector (codes "addresses") (map decimal (a ∷ rest)) false false json) [
        | none ↦ none
        | some next ↦ some (logger, next)
      ]
    ]

unfoldable pub log_line : Logger → Bytes → Logger
log_line logger json = record logger {
  log_file_ = logger.log_file_ ++ (get_json json ++ codes "\n");
}

unfoldable pub handle_type :
    Platform → (MessageType → ℕ) → MessageType → Logger → Message → Option Logger
unfolding handle_header handle_address_message log_line
handle_type platform type_code MessageType.address logger message =
    let json = handle_header platform type_code logger message opened in
    elim (handle_address_message logger message json) [
      | none ↦ none
      | some (next, whole) ↦ some (log_line next whole)
    ]
handle_type platform type_code MessageType.time_interval logger message = some logger
handle_type platform type_code (MessageType.other n) logger message =
    some (log_line logger (handle_header platform type_code logger message opened))

-- handle, which returns true.
unfoldable pub handle : Platform → (MessageType → ℕ) → Logger → Message → Option Logger
unfolding handle_type
handle platform type_code logger message =
    handle_type platform type_code message.header.user_type logger message
