-- ===== src/Proto.antt =====
-- include/keemash_mesh_proto.h and include/keemash_mesh_core.h: the constants that the modelled code
-- reads, and the error codes of ESP-IDF that it returns.
use keemash_core.Base.{ℕ, ◌*◌, Bool, true, false}

-- `esp_err_t`. `other` is any code that a transport callback may return.
pub data Esp : Type 0 where
  ok invalid_arg no_mem invalid_size timeout invalid_state : Esp
  not_supported not_found invalid_crc : Esp
  other : ℕ → Esp

abbrev pub is_ok : Esp → Bool
is_ok ok = true
is_ok _ = false

abbrev pub priority_log : ℕ
priority_log = 0

abbrev pub priority_normal : ℕ
priority_normal = 1

abbrev pub priority_high : ℕ
priority_high = 2

abbrev pub priority_ota : ℕ
priority_ota = 3

abbrev pub priority_control : ℕ
priority_control = 4

-- Header constants.
abbrev pub pkt_magic : ℕ
pkt_magic = 0xA5

abbrev pub pkt_version_v2 : ℕ
pkt_version_v2 = 2

abbrev pub type_hello : ℕ
type_hello = 56

abbrev pub type_hello_ack : ℕ
type_hello_ack = 57

abbrev pub type_data : ℕ
type_data = 58

abbrev pub type_ack : ℕ
type_ack = 59

abbrev pub type_nack : ℕ
type_nack = 60

abbrev pub type_lost : ℕ
type_lost = 61

abbrev pub packet_max : ℕ
packet_max = 224

abbrev pub payload_max : ℕ
payload_max = 192

-- Sizes of the packed structures.
abbrev pub hdr_size : ℕ
hdr_size = 26

abbrev pub reliable_hdr_size : ℕ
reliable_hdr_size = 40

abbrev pub ack_size : ℕ
ack_size = 40

abbrev pub lost_size : ℕ
lost_size = 32

abbrev pub hello_size : ℕ
hello_size = 40

abbrev pub hello_ack_size : ℕ
hello_ack_size = 20

abbrev pub profile_version : ℕ
profile_version = 1

abbrev pub window : ℕ
window = 32

abbrev pub max_fragments : ℕ
max_fragments = 16

abbrev pub inner_max : ℕ
inner_max = 152

-- `KM_CHANNEL_COUNT`, `KM_MESSAGE_MAX` and `KM_PENDING_LOST_RANGES`
abbrev pub channel_count : ℕ
channel_count = 10

abbrev pub message_max : ℕ
message_max = 152 * 16

abbrev pub pending_lost_ranges : ℕ
pending_lost_ranges = 8

abbrev pub channel_time : ℕ
channel_time = 8

-- Flags of a DATA frame.
abbrev pub flag_replay : ℕ
flag_replay = 1

abbrev pub flag_fragment : ℕ
flag_fragment = 2

abbrev pub flag_urgent : ℕ
flag_urgent = 4

abbrev pub flag_latest : ℕ
flag_latest = 8

-- Reasons of a LOST frame, and its flag.
abbrev pub reason_overflow : ℕ
reason_overflow = 1

abbrev pub reason_session_reset : ℕ
reason_session_reset = 2

abbrev pub reason_retry_exhausted : ℕ
reason_retry_exhausted = 3

abbrev pub reason_fragment_timeout : ℕ
reason_fragment_timeout = 4

abbrev pub reason_route_timeout : ℕ
reason_route_timeout = 5

abbrev pub flag_receiver_drop : ℕ
flag_receiver_drop = 1

-- `MESH_V2_CAP_RELIABLE_E2E | MESH_V2_CAP_SACK | MESH_V2_CAP_FRAGMENT`, and what a root offers:
-- these with TYPED_CONTROL, TYPED_MEMORY, OTA and TYPED_TIME.
abbrev pub cap_required : ℕ
cap_required = 0x38

abbrev pub cap_root : ℕ
cap_root = 0x3F8
