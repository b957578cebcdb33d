-- ===== src/Tests/Messages.antt =====
-- The message logger, the comms manager and the configuration receiver at concrete inputs.
use omniprobe.Prelude.{
  ℕ, ◌≡◌, refl, Bool, true, false, List, [], ◌∷◌, some, Bytes, codes, if◌then◌else◌, ◌==◌, text_eq,
}
use omniprobe.Prelude.Maps.{nat_key, upsert}
use omniprobe.Comms.{MessageType, MemoryAccess, AddressSpace, Message, Platform}
use omniprobe.Logger.{Logger, handle}
use omniprobe.Logger.Lines.{log_of, logged, handle-object_line}
use omniprobe.CommsManager.{
  PoolInfo, Manager, collect_pools, add_managers, add_agent, checkout_comms_object,
}
use omniprobe.CommsManager.Agents.{last_kept, manager_of, checkout_comms_object-add_agent}
use omniprobe.Config.{Libraries, Result, receive_config, verify_signature, decode, read_all}
use omniprobe.Config.Signed.{IsSigned, receive_config-IsSigned}

abbrev platform : Platform
platform = record {
  l2_cache_line_size = λ arch. 128;
  space_of = λ n. AddressSpace.global;
  access_of = λ n. MemoryAccess.write;
  active_lanes = λ exec. [];
  hash = λ s. 0;
}

abbrev message : Message
message = record {
  header = record {
    user_type = MessageType.address;
    user_data = 2;
    arch = 1;
    exec = 255;
    timestamp = 1234;
    dwarf_fname_hash = 0;
    dwarf_line = 7;
    dwarf_column = 2;
    block_idx_x = 1;
    block_idx_y = 0;
    block_idx_z = 0;
    wave_num = 2;
    xcc_id = 0;
    se_id = 0;
    cu_id = 3;
    active_lane_count = 8;
  };
  addresses = 4096 ∷ 4100 ∷ [];
  intervals = [];
}

abbrev logger : Logger
logger = record { str_kernel = codes "f"; dispatch_id_ = 3; format_csv_ = false; log_file_ = [] }

abbrev type_code : MessageType → ℕ
type_code kind = 1

handle-object_line_example :
    log_of (handle platform type_code logger message)
    ≡ some (logged platform type_code logger message MessageType.address [])
handle-object_line_example = handle-object_line platform type_code logger message

abbrev manager : Manager
manager = record { mem_mgrs_ = []; plugins_ = [] }

-- Two pools that are kept, and between them one for which memory is fine-grained.
abbrev pool_info : ℕ → Bool → PoolInfo
pool_info pool coarse = record {
  pool = pool;
  global_segment = true;
  alloc_allowed = some true;
  granule = some 4096;
  size = some 65536;
  coarse_grained = coarse;
}

abbrev pools_of : ℕ → List PoolInfo
pools_of agent = pool_info 1 true ∷ pool_info 2 false ∷ pool_info 3 true ∷ []

abbrev after : Manager
after = record {
  mem_mgrs_ = (5, record { agent_ = 5; pool_ = 3; min_alloc_size_ = 4096 }) ∷ [];
  plugins_ = [];
}

it_adds : add_agent pools_of 5 manager ≡ some (false, after)
unfolding add_agent collect_pools add_managers upsert
it_adds = refl

checkout_comms_object-add_agent_example :
    (false ≡ false)
    × ((other : ℕ) (kernel : Bytes) (id : ℕ)
        → manager_of (checkout_comms_object other kernel id after) ≡ (
            if other == 5
            then last_kept 5 (pools_of 5) (manager_of (checkout_comms_object 5 kernel id manager))
            else manager_of (checkout_comms_object other kernel id manager)))
checkout_comms_object-add_agent_example =
    checkout_comms_object-add_agent pools_of 5 manager after false it_adds

-- Values are texts, and a signature is right if it is the text.
abbrev libraries : Libraries Bytes Unit
libraries = record {
  parse = λ text. some text;
  string_member = λ value name. some value;
  erase_member = λ value name. value;
  dump = λ value. value;
  bio_read = λ text. text ∷ [];
  new_context = true;
  verify_init = λ key. true;
  verify_update = λ text. true;
  verify_final = λ key text signature. if text_eq text signature then 1 else 0;
}

it_receives :
    receive_config libraries tt (some (codes "a" ∷ codes "b" ∷ [])) ≡ Result.returned (codes "ab")
unfolding receive_config verify_signature decode read_all text_eq
it_receives = refl

receive_config-IsSigned_example :
    IsSigned libraries tt (some (codes "a" ∷ codes "b" ∷ [])) (codes "ab")
receive_config-IsSigned_example =
    receive_config-IsSigned libraries tt (some (codes "a" ∷ codes "b" ∷ [])) (codes "ab")
      it_receives
