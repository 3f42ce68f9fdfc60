-- ===== src/Rel/Dispatch.antt =====
-- keemash_mesh_core.c: `handle_ack_packet`, `handle_lost_packet` and `keemash_rel_handle_rx`.
use keemash_core.Base.{
  ℕ, Bool, true, false, not, ◌&&◌, ◌||◌, Option, none, some, List, ltb, leb, ◌==◌, if◌then◌else◌,
  inc32, sub32, clear_if, drop,
}
use keemash_core.Proto.{
  Esp, ok, invalid_arg, invalid_state, invalid_size, no_mem, not_supported, invalid_crc,
  channel_count, reason_overflow, flag_receiver_drop, type_hello, type_hello_ack, type_data,
  type_ack, type_nack, type_lost, hello_size, hello_ack_size, reliable_hdr_size, ack_size,
  lost_size,
}
use keemash_core.Wire.{Hdr, rel_hdr_of, packet_valid}
use keemash_core.Wire.Frames.{Ack, ack_of, Lost, lost_of, hello_of, hello_ack_of}
use keemash_core.Rel.{TxSlot, Range, Peer, Ctx, peer_at, zero_tx}
use keemash_core.Rel.Peers.{peer_find, set_peer}
use keemash_core.Rel.Tables.{seq_before, seq_in_range, has_flag, on_channel_tx, tx_find}
use keemash_core.Rel.Loss.{record_lost, clear_peer_buffers, pending_lost_add}
use keemash_core.Rel.Deliver.{expected_at, set_expected, send_lost}
use keemash_core.Rel.Consume.{consume_contiguous}
use keemash_core.Rel.Sender.{ack_slots, retransmit_slot}
use keemash_core.Rel.Handshake.{handle_hello, handle_hello_ack}
use keemash_core.Rel.Receive.{in_session, handle_data}

-- The route to a peer is up since something of its session came from it.
abbrev pub route_heard : Ctx → ℕ → Ctx
route_heard ctx pi =
    set_peer ctx pi (record (peer_at ctx pi) { route_up = true; route_down_since_ms = 0 })

-- A NACK names a packet to send again, if it is still there.
unfoldable pub answer_nack : Ctx → ℕ → Ack → Ctx × Esp
answer_nack ctx pi ack = elim (tx_find ctx (peer_at ctx pi) ack.channel_id ack.nack_seq) [
  | some i ↦ retransmit_slot ctx pi i
  | none ↦ send_lost ctx pi ack.channel_id reason_overflow ack.nack_seq ack.nack_seq
]

session_ack : ℕ → Ack → Bool → Ctx × Option ℕ → Ctx × Esp
unfolding answer_nack
session_ack from ack nack (ctx, none) = (ctx, invalid_state)
session_ack from ack nack (ctx, some pi) =
    let acked = ack_slots (route_heard ctx pi) pi ack in
    if not (in_session (peer_at ctx pi) ack.root_session_id ack.node_session_id)
      || (ack.channel_id == 0)
      || leb channel_count ack.channel_id
      || not (ack.origin_mac == ctx.cfg.local_mac)
      || not (ack.target_mac == from)
    then (ctx, invalid_state)
    else if nack && not (ack.nack_seq == 0)
    then answer_nack acked pi ack
    else (acked, ok)

-- `handle_ack_packet`
unfoldable pub handle_ack_packet : Ctx → ℕ → Ack → Bool → Ctx × Esp
unfolding session_ack
handle_ack_packet ctx from ack nack = session_ack from ack nack (peer_find ctx from false)

-- A slot whose packet the receiver has given up.
abbrev pub given_up : Peer → Lost → TxSlot → Bool
given_up p lost s =
    on_channel_tx p lost.channel_id s && seq_in_range s.seq lost.seq_first lost.seq_last

abbrev pub lost_count_of : Lost → ℕ
lost_count_of lost = inc32 (sub32 lost.seq_last lost.seq_first)

abbrev pub report_lost : Ctx → ℕ → Lost → Ctx
report_lost ctx pi lost =
    record_lost ctx pi lost.channel_id lost.reason lost.seq_first lost.seq_last (lost_count_of lost)

-- A LOST range that lies ahead is kept for later.
lost_ahead : Ctx → ℕ → Lost → List Range × Bool → Ctx × Esp
lost_ahead ctx pi lost (ranges, true) =
    (report_lost (set_peer ctx pi (record (peer_at ctx pi) { pending_lost = ranges })) pi lost, ok)
lost_ahead ctx pi lost (ranges, false) = (
  clear_peer_buffers (set_peer ctx pi (record (peer_at ctx pi) { pending_lost = ranges })) pi
      reason_overflow,
  no_mem,
)

-- `handle_lost_packet` after its tests.
unfoldable pub take_lost : Ctx → ℕ → Lost → Ctx × Esp
unfolding lost_ahead
take_lost ctx pi lost =
    let p = peer_at ctx pi in
    let expected = expected_at ctx pi lost.channel_id in
    let freed : Ctx = record ctx { tx = clear_if (given_up p lost) zero_tx ctx.tx } in
    let skipped =
      consume_contiguous (set_expected ctx pi lost.channel_id (inc32 lost.seq_last)) pi
        lost.channel_id in
    let ahead =
      lost_ahead ctx pi lost
        (pending_lost_add p.pending_lost lost.channel_id lost.seq_first lost.seq_last) in
    if has_flag lost.flags flag_receiver_drop
    then (report_lost freed pi lost, ok)
    else if seq_in_range expected lost.seq_first lost.seq_last
    then (report_lost skipped pi lost, ok)
    else if seq_before expected lost.seq_first
    then ahead
    else (report_lost ctx pi lost, ok)

session_lost : ℕ → Lost → Ctx × Option ℕ → Ctx × Esp
unfolding take_lost
session_lost from lost (ctx, none) = (ctx, invalid_state)
session_lost from lost (ctx, some pi) =
    if not (in_session (peer_at ctx pi) lost.root_session_id lost.node_session_id)
      || (lost.channel_id == 0)
      || leb channel_count lost.channel_id
      || not (lost.origin_mac == from)
      || not (lost.target_mac == ctx.cfg.local_mac)
    then (ctx, invalid_state)
    else take_lost ctx pi lost

-- `handle_lost_packet`
unfoldable pub handle_lost_packet : Ctx → ℕ → Lost → Ctx × Esp
unfolding session_lost
handle_lost_packet ctx from lost = session_lost from lost (peer_find ctx from false)

-- The `switch` of `keemash_rel_handle_rx`, over the header and the payload.
unfoldable pub dispatch : Ctx → ℕ → Hdr → List ℕ → Ctx × Esp
dispatch ctx from h payload =
    if h.type == type_hello
    then (if ltb h.payload_len hello_size
        then (ctx, invalid_size)
        else handle_hello ctx from (hello_of payload))
    else if h.type == type_hello_ack
    then (if ltb h.payload_len hello_ack_size
        then (ctx, invalid_size)
        else handle_hello_ack ctx from (hello_ack_of payload))
    else if h.type == type_data
    then (if ltb h.payload_len reliable_hdr_size
        then (ctx, invalid_size)
        else handle_data ctx from (rel_hdr_of payload) (drop reliable_hdr_size payload))
    else if (h.type == type_ack) || (h.type == type_nack)
    then (if ltb h.payload_len ack_size
        then (ctx, invalid_size)
        else handle_ack_packet ctx from (ack_of payload) (h.type == type_nack))
    else if h.type == type_lost
    then (if ltb h.payload_len lost_size
        then (ctx, invalid_size)
        else handle_lost_packet ctx from (lost_of payload))
    else (ctx, not_supported)

unfoldable pub from_sender : Ctx → ℕ → Option (Hdr × List ℕ) → Ctx × Esp
unfolding dispatch
from_sender ctx from none = (ctx, invalid_crc)
from_sender ctx from (some (h, payload)) =
    if h.src_mac == from then dispatch ctx from h payload else (ctx, invalid_arg)

-- `keemash_rel_handle_rx`
unfoldable pub handle_rx : Ctx → ℕ → List ℕ → Ctx × Esp
unfolding from_sender
handle_rx ctx from packet = from_sender ctx from (packet_valid packet)
