-- ===== src/Rel/Tests.antt =====
-- keemash_mesh_core.c on small inputs: the theorems at states that meet their hypotheses.
use keemash_core.Base.{
  All, set, replicate, ℕ, ◌+◌, ◌*◌, ◌/◌, ◌-◌, ◌≤◌, ◌<◌, ◌≡◌, refl, true, false, ◌&&◌, some, [], ◌∷◌,
  arith, length, clear_if, ltb, leb, ◌||◌, if◌then◌else◌,
}
use keemash_core.Proto.{
  cap_root, priority_control, ok, no_mem, invalid_size, inner_max, max_fragments,
}
use keemash_core.Wire.{RelHdr}
use keemash_core.Wire.Frames.{HelloAck}
use keemash_core.Rel.{
  Config, zero_range, Range, TxSlot, Peer, Ctx, peer_at, zero_tx, zero_rx, zero_rel_hdr,
}
use keemash_core.Rel.Peers.{found_peer, find_or_add, add_peer, peer_find}
use keemash_core.Rel.Tables.{
  sack_bitmap, sack_from, rx_find, tx_available, on_channel_tx, tx_unacked, rx_depth,
  reassembly_depth,
}
use keemash_core.Rel.Loss.{clear_peer_buffers}
use keemash_core.Rel.Consume.{ack_for}
use keemash_core.Rel.Sender.{ack_from, update_rto, clamp, ack_slots}
use keemash_core.Rel.Submit.{fragments_of, submit_to}
use keemash_core.Rel.Handshake.{
  same_binding, bind, hello_of_node, hello_reply, hello_resets, handle_hello, handle_hello_ack,
}
use keemash_core.Rel.Api.{fresh, completed, init}
use keemash_core.Rel.Receive.{handle_data}
use keemash_core.Rel.Filing.{handle_data-IsDesk}
use keemash_core.Rel.Limits.{IsLimited, IsSized, init-IsLimited}
use keemash_core.Rel.Rto.{IsEstimate, update_rto_bounds, update_rto_exact}
use keemash_core.Rel.Acks.{has_got, ack_slots-ack_for}
use keemash_core.Rel.Queueing.{IsAddressed, Queued}
use keemash_core.Rel.Accept.{message_of, wrong_count, is_full, submit_to_lem, submit_to-Queued}
use keemash_core.Rel.Chunks.{chunks, chunks-fragments_of}
use keemash_core.Rel.Clearing.{
  tables, untouched, own_tx, own_rx, own_reassembly, clear_peer_buffers_lem,
  clear_peer_buffers_others,
}
use keemash_core.Rel.Rebinding.{progress, repeated_hello_ack}
use keemash_core.Rel.Binding.{handshake_lem}
use keemash_core.Rel.Consume.{consume_contiguous}
use keemash_core.Rel.Desk.{IsFiled, desk, load, IsDesk}
use keemash_core.Rel.Settle.{IsSettled, consume_contiguous_ends}
use keemash_core.Rel.Samples.{small, peer_of, root_side, node_config, node_side, bytes_of}

-- The root waits for the acknowledgement of packets 1 and 3 of channel 3; the node has buffered 3.
abbrev waiting : ℕ → TxSlot
waiting seq = record zero_tx {
  used = true;
  peer = 2;
  channel = 3;
  priority = 1;
  seq = seq;
  first_sent_ms = 900;
  last_sent_ms = 900;
}

abbrev busy_root : Ctx
busy_root = record root_side { tx = waiting 1 ∷ waiting 3 ∷ zero_tx ∷ zero_tx ∷ [] }

abbrev third : RelHdr
third = record zero_rel_hdr { channel_id = 3; seq = 3; origin_mac = 1; target_mac = 2 }

abbrev gap_node : Ctx
gap_node = record node_side {
  rx =
      (record zero_rx { used = true; peer = 0; channel = 3; seq = 3; hdr = third })
      ∷ zero_rx
      ∷ zero_rx
      ∷ [];
}

-- The same node once packets 1 and 2 are known to be lost.
abbrev late_node : Ctx
late_node = record gap_node {
  peers =
      (record (peer_of 0 1) {
        pending_lost =
            set (replicate 8 zero_range) 0
              (record { used = true; channel = 3; first = 1; last = 2 });
      })
      ∷ [];
}

-- The node's acknowledgement frees the slot of packet 3, and not that of packet 1.
gap_freed :
    (ack_slots busy_root 0 (ack_for gap_node 0 third false)).tx
    ≡ waiting 1 ∷ zero_tx ∷ zero_tx ∷ zero_tx ∷ []
unfolding ack_slots ack_from update_rto sack_bitmap sack_from rx_find
gap_freed = refl

ack_slots-ack_for_example :
    (ack_slots busy_root 0 (ack_for gap_node 0 third false)).tx
    ≡ clear_if
        (λ s. on_channel_tx (peer_at busy_root 0) 3 s && has_got gap_node 0 3 s.seq)
        zero_tx
        busy_root.tx
ack_slots-ack_for_example =
    ack_slots-ack_for busy_root gap_node 0 0 third false
      (omega arith, (omega arith, (omega arith, (omega arith, tt))))

root_side-IsAddressed : IsAddressed (message_of root_side 0 3 bytes_of 1) root_side
root_side-IsAddressed = record {
  peer_lt = omega arith;
  channel_lt = omega arith;
  next_lt = omega arith;
}

submit_to_example : (submit_to root_side 0 3 bytes_of 1).1 ≡ (
    if wrong_count (fragments_of (length bytes_of))
    then invalid_size
    else if is_full root_side 0 1 (fragments_of (length bytes_of))
    then no_mem
    else ok)
submit_to_example = submit_to_lem root_side 0 3 bytes_of 1 root_side-IsAddressed

room_left : is_full root_side 0 1 (fragments_of (length bytes_of)) ≡ false
unfolding tx_available tx_unacked
room_left = refl

submit_to-Queued_example :
    Queued
      (message_of root_side 0 3 bytes_of 1)
      (fragments_of (length bytes_of))
      root_side
      (submit_to root_side 0 3 bytes_of 1).0
submit_to-Queued_example =
    submit_to-Queued root_side 0 3 bytes_of 1 root_side-IsAddressed refl room_left

chunks_example :
    (chunks bytes_of 0 (fragments_of (length bytes_of)) ≡ bytes_of)
    × (fragments_of (length bytes_of) ≤ max_fragments)
    × (fragments_of (length bytes_of) * inner_max < length bytes_of + inner_max)
chunks_example = chunks-fragments_of bytes_of (omega arith)

clear_example :
    let d = clear_peer_buffers busy_root 0 1 in
    (tx_unacked d (peer_at d 0) ≡ 0)
    × (rx_depth d (peer_at d 0) ≡ 0)
    × (reassembly_depth d (peer_at d 0) ≡ 0)
    × ((peer_at d 0).ready ≡ false)
    × ((peer_at d 0).next_seq ≡ 0 ∷ replicate 9 1)
    × ((peer_at d 0).expected_seq ≡ 0 ∷ replicate 9 1)
    × All (λ (r : Range). r.used ≡ false) (peer_at d 0).pending_lost
    × (untouched (peer_at d 0) ≡ untouched (peer_at busy_root 0))
clear_example = clear_peer_buffers_lem busy_root 0 1 (omega arith)

abbrev third_peer : Peer
third_peer = peer_of 4 4

clear_others_example :
    let d = clear_peer_buffers busy_root 0 1 in
    (peer_at d 1 ≡ peer_at busy_root 1)
    × (own_tx third_peer d ≡ own_tx third_peer busy_root)
    × (own_rx third_peer d ≡ own_rx third_peer busy_root)
    × (own_reassembly third_peer d ≡ own_reassembly third_peer busy_root)
clear_others_example =
    clear_peer_buffers_others busy_root 0 1 1 third_peer (λ e. omega arith) (λ e. omega arith)

known_times : IsEstimate (peer_of 2 2)
known_times = record { srtt = omega arith; rttvar = omega arith }

update_rto_bounds_example :
    let p = update_rto root_side (peer_of 2 2) 300 in
    IsEstimate p × (100 ≤ p.rto_ms) × (p.rto_ms ≤ 4000)
update_rto_bounds_example =
    update_rto_bounds root_side (peer_of 2 2) 300 (omega arith) known_times
      (omega arith, omega arith)

update_rto_exact_example :
    let p = update_rto root_side (peer_of 2 2) 300 in
    (p.srtt_ms ≡ (7 * 200 + 300) / 8)
    × (p.rttvar_ms ≡ (3 * 50 + ((200 - 300) + (300 - 200))) / 4)
    × (p.rto_ms ≡ clamp 100 4000 (p.srtt_ms + 4 * p.rttvar_ms))
update_rto_exact_example =
    update_rto_exact root_side (peer_of 2 2) 300 known_times (omega arith) (omega arith)
      (omega arith)

-- Before the handshake the sides have no record of each other.
abbrev new_root : Ctx
new_root = fresh small 5 100 1000

abbrev new_node : Ctx
new_node = fresh node_config 9 300 1000

root_adds : peer_find new_root 2 true ≡ ((peer_find new_root 2 true).0, some 0)
unfolding peer_find find_or_add add_peer
root_adds = refl

node_adds : peer_find new_node 1 true ≡ ((peer_find new_node 1 true).0, some 0)
unfolding peer_find find_or_add add_peer
node_adds = refl

root_has : 0 < length (peer_find new_root 2 true).0.peers
unfolding peer_find find_or_add add_peer
root_has = omega arith

node_has : 0 < length (peer_find new_node 1 true).0.peers
unfolding peer_find find_or_add add_peer
node_has = omega arith

handshake_example :
    let hello = hello_of_node new_node 0 [] 60 0 in
    let root' = (peer_find new_root 2 true).0 in
    let ack = hello_reply root' hello (hello_resets root' (peer_at root' 0) hello) in
    let r = peer_at (handle_hello new_root 2 hello).0 0 in
    let n = peer_at (handle_hello_ack new_node 1 ack).0 0 in
    (r.ready ≡ true)
    × (n.ready ≡ true)
    × (r.root_session_id ≡ 5)
    × (n.root_session_id ≡ 5)
    × (r.node_session_id ≡ 9)
    × (n.node_session_id ≡ 9)
handshake_example =
    handshake_lem new_root (peer_find new_root 2 true).0 new_node (peer_find new_node 1 true).0
      new_node 2 1 0 0 0 [] 60 0 refl refl refl root_adds root_has node_adds node_has

-- The answer to a HELLO that was sent twice, and asks for a reset again.
abbrev repeated : HelloAck
repeated = record {
  profile_version = 1;
  mtu = 224;
  capabilities = cap_root;
  root_session_id = 5;
  node_session_id = 9;
  reset_link = 1;
}

node_knows : peer_find node_side 1 true ≡ ((peer_find node_side 1 true).0, some 0)
unfolding peer_find find_or_add found_peer
node_knows = refl

node_bound : same_binding (peer_at (peer_find node_side 1 true).0 0) repeated ≡ true
unfolding peer_find find_or_add found_peer
node_bound = refl

repeated_accepted : (handle_hello_ack node_side 1 repeated).1 ≡ ok
unfolding handle_hello_ack bind peer_find find_or_add found_peer
repeated_accepted = refl

repeated_hello_ack_example :
    let c = (peer_find node_side 1 true).0 in
    let d = (handle_hello_ack node_side 1 repeated).0 in
    (tables d ≡ tables c) × (progress (peer_at d 0) ≡ progress (peer_at c 0)) × (d.trace ≡ c.trace)
repeated_hello_ack_example =
    repeated_hello_ack node_side (peer_find node_side 1 true).0 1 0 repeated node_knows node_bound
      repeated_accepted

late_node-IsDesk : IsDesk 0 3 (desk 0 late_node)
late_node-IsDesk = record {
  filed = ((refl, refl), ((refl, refl), ((refl, refl), tt)));
  peer_lt = omega arith;
  channel_lt = omega arith;
  seq_lt = omega arith;
}

consume_contiguous_ends_example :
    let d = consume_contiguous late_node 0 3 in
    IsSettled d 0 3 × IsDesk 0 3 (desk 0 d) × (load (desk 0 d) ≤ load (desk 0 late_node))
consume_contiguous_ends_example = consume_contiguous_ends late_node 0 3 late_node-IsDesk

-- Limits that do not fit are replaced: the reserve is larger than the table.
abbrev greedy : Config
greedy = record small { per_peer_tx_slots = 0; per_peer_control_reserve = 9 }

abbrev started : Ctx
started = fresh (completed greedy) 5 0 1000

starts : init greedy true 5 0 1000 ≡ (ok, some started)
unfolding init
starts = refl

init_example :
    IsLimited started.cfg
    × IsSized started
    × All IsFiled started.rx
    × (0 < started.local_session)
    × (0 < started.next_stream_id)
    × (ltb 0 (tx_available started third_peer 1)
        ≡ (leb priority_control 1 || ltb started.cfg.reserved_control_slots started.cfg.tx_slots))
init_example = init-IsLimited greedy true 5 0 1000 started third_peer 1 starts

-- Packet 2 of the channel, ahead of packet 1.
abbrev second : RelHdr
second = record third { seq = 2; fragment_count = 1; root_session_id = 5; node_session_id = 9 }

late_node_knows : peer_find late_node 1 false ≡ ((peer_find late_node 1 false).0, some 0)
unfolding peer_find find_or_add found_peer
late_node_knows = refl

handle_data_example : IsDesk 0 3 (desk 0 (handle_data late_node 1 second []).0)
handle_data_example =
    handle_data-IsDesk late_node (peer_find late_node 1 false).0 1 0 second [] late_node_knows
      (omega arith) late_node-IsDesk
