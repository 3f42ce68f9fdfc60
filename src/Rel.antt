-- ===== src/Rel.antt =====
-- keemash_mesh_core.c: the state of the reliable layer, `struct keemash_rel_ctx`.
-- The children hold its functions, in the source's order, and what is proved of them. `peer_state_t *`
-- and slot pointers are indices into the tables. The callbacks of the configuration do not call
-- back into the layer; what they are called with is recorded in `trace`. `now` is what `now_ms`
-- returns during one call of the layer.
pub mod Tables
pub mod Peers
pub mod Radio
pub mod Loss
pub mod Deliver
pub mod Consume
pub mod Sender
pub mod Submit
pub mod Handshake
pub mod Receive
pub mod Dispatch
pub mod Poll
pub mod Api
pub mod Status
pub mod Rto
pub mod Limits
pub mod Acks
pub mod Clearing
pub mod Air
pub mod Queueing
pub mod Accept
pub mod Chunks
pub mod Link
pub mod Frames
pub mod Binding
pub mod Rebinding
pub mod Desk
pub mod Tidy
pub mod Settle
pub mod Fit
pub mod Filing
pub mod Reading
mod Samples
mod Tests
mod PacketTests
mod StatusTests
use keemash_core.Base.{
  ℕ, ◌+◌, ◌*◌, Bool, true, false, Option, none, some, List, [], ◌∷◌, get_or, replicate,
}
use keemash_core.Proto.{Esp, message_max}
use keemash_core.Wire.{Hdr, RelHdr}

-- What the callbacks of the configuration are called with.
pub data Action : Type 0 where
  sent : ℕ → List ℕ → Action
  delivered : ℕ → ℕ → List ℕ → ℕ → Action
  event : ℕ → ℕ → ℕ → ℕ → ℕ → Action

-- `keemash_rel_config_t`. `send` answers by the calls so far, the destination and the packet, and
-- is `none` for NULL; `has_deliver` and `has_event` say that those callbacks are set.
pub record Config : Type 0 where
  pub root_role : Bool
  pub local_mac : ℕ
  pub max_peers : ℕ
  pub tx_slots : ℕ
  pub rx_slots : ℕ
  pub reassembly_slots : ℕ
  pub reserved_control_slots : ℕ
  pub per_peer_tx_slots : ℕ
  pub per_peer_rx_slots : ℕ
  pub per_peer_reassembly_slots : ℕ
  pub per_peer_control_reserve : ℕ
  pub route_grace_ms : ℕ
  pub stale_peer_ms : ℕ
  pub initial_rto_ms : ℕ
  pub min_rto_ms : ℕ
  pub max_rto_ms : ℕ
  pub fragment_timeout_ms : ℕ
  pub max_retries : ℕ
  pub fault_drop_data_every : ℕ
  pub fault_drop_ack_every : ℕ
  pub fault_drop_nack_every : ℕ
  pub fault_duplicate_every : ℕ
  pub fault_delay_every : ℕ
  pub fault_delay_ms : ℕ
  pub fault_reorder_every : ℕ
  pub fault_overflow_every : ℕ
  pub send : Option (List Action → ℕ → List ℕ → Esp)
  pub has_deliver : Bool
  pub has_event : Bool

-- A DATA packet in a slot's `bytes`: the two overlaid headers and the payload behind them.
pub record Frame : Type 0 where
  pub h : Hdr
  pub rh : RelHdr
  pub chunk : List ℕ

-- `tx_slot_t`
pub record TxSlot : Type 0 where
  pub used : Bool
  pub peer : ℕ
  pub channel : ℕ
  pub priority : ℕ
  pub seq : ℕ
  pub stream_id : ℕ
  pub first_sent_ms : ℕ
  pub last_sent_ms : ℕ
  pub retries : ℕ
  pub frame : Frame

-- `rx_slot_t`; `payload` are the first `payload_len` bytes.
pub record RxSlot : Type 0 where
  pub used : Bool
  pub peer : ℕ
  pub channel : ℕ
  pub seq : ℕ
  pub hdr : RelHdr
  pub payload : List ℕ

-- `reassembly_slot_t`; bit i of `received_mask` says that fragment i has come.
pub record ReSlot : Type 0 where
  pub used : Bool
  pub peer : ℕ
  pub channel : ℕ
  pub stream_id : ℕ
  pub first_seq : ℕ
  pub last_ms : ℕ
  pub fragment_len : List ℕ
  pub received_mask : ℕ
  pub fragment_count : ℕ
  pub data_bytes : List ℕ

-- `pending_lost_range_t`
pub record Range : Type 0 where
  pub used : Bool
  pub channel : ℕ
  pub first : ℕ
  pub last : ℕ

-- `peer_state_t`
pub record Peer : Type 0 where
  pub used : Bool
  pub mac : ℕ
  pub remote_mac : ℕ
  pub ready : Bool
  pub route_up : Bool
  pub route_down_since_ms : ℕ
  pub last_route_change_ms : ℕ
  pub capabilities : ℕ
  pub root_session_id : ℕ
  pub node_session_id : ℕ
  pub next_seq : List ℕ
  pub expected_seq : List ℕ
  pub pending_lost : List Range
  pub last_ack_ms : ℕ
  pub last_rx_ms : ℕ
  pub rto_ms : ℕ
  pub srtt_ms : ℕ
  pub rttvar_ms : ℕ
  pub retry_count : ℕ
  pub overflow_count : ℕ
  pub replay_count : ℕ
  pub lost_count : ℕ
  pub lost_reason : ℕ

-- A packet set aside by fault injection.
pub record Kept : Type 0 where
  pub dst : ℕ
  pub due_ms : ℕ
  pub packet : List ℕ

-- `struct keemash_rel_ctx`; `held` and `delayed` are `none` where the source's flag is false.
pub record Ctx : Type 0 where
  pub cfg : Config
  pub local_session : ℕ
  pub next_stream_id : ℕ
  pub peers : List Peer
  pub tx : List TxSlot
  pub rx : List RxSlot
  pub reassembly : List ReSlot
  pub data_counter : ℕ
  pub ack_counter : ℕ
  pub nack_counter : ℕ
  pub duplicate_counter : ℕ
  pub delay_counter : ℕ
  pub reorder_counter : ℕ
  pub overflow_counter : ℕ
  pub poll_peer_cursor : ℕ
  pub held : Option Kept
  pub delayed : Option Kept
  pub now : ℕ
  pub trace : List Action

-- What `memset` and `calloc` leave.
abbrev pub zero_hdr : Hdr
zero_hdr = record {
  magic = 0;
  version = 0;
  type = 0;
  flags = 0;
  session_id = 0;
  seq = 0;
  ack_seq = 0;
  payload_len = 0;
  src_mac = 0;
  crc16 = 0;
}

abbrev pub zero_rel_hdr : RelHdr
zero_rel_hdr = record {
  channel_id = 0;
  flags = 0;
  priority = 0;
  fragment_count = 0;
  payload_len = 0;
  fragment_index = 0;
  stream_id = 0;
  seq = 0;
  tx_ms = 0;
  root_session_id = 0;
  node_session_id = 0;
  origin_mac = 0;
  target_mac = 0;
}

abbrev pub zero_tx : TxSlot
zero_tx = record {
  used = false;
  peer = 0;
  channel = 0;
  priority = 0;
  seq = 0;
  stream_id = 0;
  first_sent_ms = 0;
  last_sent_ms = 0;
  retries = 0;
  frame = record { h = zero_hdr; rh = zero_rel_hdr; chunk = [] };
}

abbrev pub zero_rx : RxSlot
zero_rx = record { used = false; peer = 0; channel = 0; seq = 0; hdr = zero_rel_hdr; payload = [] }

-- The zeroed `data` of a reassembly slot.
unfoldable pub zero_data : List ℕ
zero_data = replicate message_max 0

abbrev pub zero_reassembly : ReSlot
zero_reassembly = record {
  used = false;
  peer = 0;
  channel = 0;
  stream_id = 0;
  first_seq = 0;
  last_ms = 0;
  fragment_len = replicate 16 0;
  received_mask = 0;
  fragment_count = 0;
  data_bytes = zero_data;
}

abbrev pub zero_range : Range
zero_range = record { used = false; channel = 0; first = 0; last = 0 }

abbrev pub zero_peer : Peer
zero_peer = record {
  used = false;
  mac = 0;
  remote_mac = 0;
  ready = false;
  route_up = false;
  route_down_since_ms = 0;
  last_route_change_ms = 0;
  capabilities = 0;
  root_session_id = 0;
  node_session_id = 0;
  next_seq = replicate 10 0;
  expected_seq = replicate 10 0;
  pending_lost = replicate 8 zero_range;
  last_ack_ms = 0;
  last_rx_ms = 0;
  rto_ms = 0;
  srtt_ms = 0;
  rttvar_ms = 0;
  retry_count = 0;
  overflow_count = 0;
  replay_count = 0;
  lost_count = 0;
  lost_reason = 0;
}

abbrev pub peer_at : Ctx → ℕ → Peer
peer_at ctx pi = get_or ctx.peers pi zero_peer
