-- ===== src/Rel/Samples.antt =====
-- A root and a node with small tables, for the tests.
use keemash_core.Base.{ℕ, true, false, some, List, [], ◌∷◌}
use keemash_core.Proto.{ok}
use keemash_core.Rel.{Config, Peer, Ctx, zero_peer}
use keemash_core.Rel.Peers.{first_seqs}
use keemash_core.Rel.Api.{fresh}

-- The root has address 1 and session 5, the node address 2 and session 9.
abbrev pub small : Config
small = record {
  root_role = true;
  local_mac = 1;
  max_peers = 2;
  tx_slots = 4;
  rx_slots = 3;
  reassembly_slots = 2;
  reserved_control_slots = 1;
  per_peer_tx_slots = 4;
  per_peer_rx_slots = 3;
  per_peer_reassembly_slots = 2;
  per_peer_control_reserve = 1;
  route_grace_ms = 90000;
  stale_peer_ms = 300000;
  initial_rto_ms = 400;
  min_rto_ms = 100;
  max_rto_ms = 4000;
  fragment_timeout_ms = 5000;
  max_retries = 8;
  fault_drop_data_every = 0;
  fault_drop_ack_every = 0;
  fault_drop_nack_every = 0;
  fault_duplicate_every = 0;
  fault_delay_every = 0;
  fault_delay_ms = 0;
  fault_reorder_every = 0;
  fault_overflow_every = 0;
  send = some (λ calls dst packet. ok);
  has_deliver = true;
  has_event = true;
}

abbrev pub peer_of : ℕ → ℕ → Peer
peer_of key mac = record zero_peer {
  used = true;
  mac = key;
  remote_mac = mac;
  ready = true;
  route_up = true;
  root_session_id = 5;
  node_session_id = 9;
  next_seq = first_seqs;
  expected_seq = first_seqs;
  rto_ms = 400;
  srtt_ms = 200;
  rttvar_ms = 50;
}

abbrev pub root_side : Ctx
root_side = record (fresh small 5 100 1000) { peers = peer_of 2 2 ∷ zero_peer ∷ [] }

abbrev pub node_config : Config
node_config = record small { root_role = false; local_mac = 2; max_peers = 1 }

abbrev pub node_side : Ctx
node_side = record (fresh node_config 9 300 1000) { peers = peer_of 0 1 ∷ [] }

abbrev pub bytes_of : List ℕ
bytes_of = 7 ∷ 8 ∷ 9 ∷ []
