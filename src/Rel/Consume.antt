-- ===== src/Rel/Consume.antt =====
-- keemash_mesh_core.c: `consume_contiguous`, `send_ack`, and the functions of `Rel.Deliver` closed over it.
use keemash_core.Base.{
  ℕ, zero, suc, ◌+◌, Bool, ◌&&◌, Option, none, some, if◌then◌else◌, inc32, sub32, get_or, set,
  find_index, length,
}
use keemash_core.Proto.{Esp, type_ack, type_nack}
use keemash_core.Wire.{RelHdr}
use keemash_core.Wire.Frames.{Ack, ack_bytes}
use keemash_core.Rel.{Range, Ctx, peer_at, zero_rx, zero_range}
use keemash_core.Rel.Peers.{peer_send_mac, set_peer}
use keemash_core.Rel.Radio.{send_packet}
use keemash_core.Rel.Tables.{seq_in_range, rx_find, sack_bitmap}
use keemash_core.Rel.Loss.{of_channel}
use keemash_core.Rel.Deliver.{deliver_fragment, expected_at, set_expected}

-- The pending range that the next expected sequence number lies in.
abbrev pub blocks : Ctx → ℕ → ℕ → Range → Bool
blocks ctx pi channel r =
    of_channel channel r && seq_in_range (expected_at ctx pi channel) r.first r.last

unfoldable pub range_at : Ctx → ℕ → ℕ → Option ℕ
range_at ctx pi channel = find_index (blocks ctx pi channel) (peer_at ctx pi).pending_lost

-- The receiver skips a range that is known to be lost.
unfoldable pub skip_range : Ctx → ℕ → ℕ → ℕ → Ctx
skip_range ctx pi channel i =
    let p = peer_at ctx pi in
    let r = get_or p.pending_lost i zero_range in
    set_peer ctx pi (record p {
      expected_seq = set p.expected_seq channel (inc32 r.last);
      pending_lost = set p.pending_lost i zero_range;
    })

-- The buffered message leaves its slot, and the next number is expected.
unfoldable pub unload : Ctx → ℕ → ℕ → ℕ → Ctx
unload ctx pi channel j =
    set_expected (record ctx { rx = set ctx.rx j zero_rx }) pi channel
      (inc32 (expected_at ctx pi channel))

-- `consume_contiguous`
unfoldable pub consume : ℕ → Ctx → ℕ → ℕ → Ctx
consume zero ctx pi channel = ctx
consume (suc fuel) ctx pi channel = elim (range_at ctx pi channel) [
  | some i ↦ consume fuel (skip_range ctx pi channel i) pi channel
  | none ↦ elim (rx_find ctx (peer_at ctx pi) channel (expected_at ctx pi channel)) [
    | none ↦ ctx
    | some j ↦
        let s = get_or ctx.rx j zero_rx in
        consume fuel (deliver_fragment (consume fuel) (unload ctx pi channel j) pi s.hdr s.payload)
          pi channel
  ]
]

-- Every round of the loop clears a reorder slot or a pending range.
abbrev pub consume_fuel : Ctx → ℕ → ℕ
consume_fuel ctx pi = suc (length ctx.rx + length (peer_at ctx pi).pending_lost)

abbrev pub consume_contiguous : Ctx → ℕ → ℕ → Ctx
consume_contiguous ctx pi channel = consume (consume_fuel ctx pi) ctx pi channel

-- The acknowledgement that `send_ack` writes; a NACK asks for the number that is expected.
abbrev pub ack_for : Ctx → ℕ → RelHdr → Bool → Ack
ack_for ctx pi rh nack =
    let p = peer_at ctx pi in
    let expected = expected_at ctx pi rh.channel_id in
    record {
      channel_id = rh.channel_id;
      root_session_id = p.root_session_id;
      node_session_id = p.node_session_id;
      ack_seq = sub32 expected 1;
      sack_bitmap = sack_bitmap ctx p rh.channel_id;
      nack_seq = if nack then expected else 0;
      echo_tx_ms = rh.tx_ms;
      origin_mac = rh.origin_mac;
      target_mac = rh.target_mac;
    }

-- `send_ack`
unfoldable pub send_ack : Ctx → ℕ → RelHdr → Bool → Ctx × Esp
send_ack ctx pi rh nack =
    send_packet ctx (peer_send_mac ctx (peer_at ctx pi)) (if nack then type_nack else type_ack)
      ctx.local_session (ack_bytes (ack_for ctx pi rh nack))
