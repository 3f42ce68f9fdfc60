-- ===== src/Rel/Deliver.antt =====
-- keemash_mesh_core.c: reassembly, in-order delivery, and the acknowledgements and LOST packets.
-- `deliver_fragment`, `receiver_drop_range` and `consume_contiguous` call one another. The first two
-- take the call of the third as an argument, and the third takes fuel: one unit for each message or
-- range that it consumes.
use Prim.Native.Nat.{bit_or}
use keemash_core.Base.{
  ℕ, ◌+◌, ◌-◌, ◌*◌, ◌^◌, Bool, true, false, ◌&&◌, ◌||◌, Option, none, some, List, [], ◌∷◌, ◌++◌,
  ltb, leb, ◌==◌, if◌then◌else◌, u16, u32, inc32, sub32, get_or, set, clear_if, take, drop, length,
}
use keemash_core.Proto.{
  Esp, max_fragments, inner_max, reason_overflow, flag_receiver_drop, type_lost,
}
use keemash_core.Wire.{RelHdr}
use keemash_core.Wire.Frames.{Lost, lost_bytes}
use keemash_core.Rel.{
  delivered, RxSlot, ReSlot, Range, Peer, Ctx, peer_at, zero_rx, zero_reassembly,
}
use keemash_core.Rel.Peers.{peer_send_mac, set_peer}
use keemash_core.Rel.Radio.{send_packet}
use keemash_core.Rel.Tables.{seq_before, seq_in_range, reassembly_find, on_channel_rx}
use keemash_core.Rel.Loss.{record_lost, clear_peer_buffers, pending_lost_add}

-- A call of `cfg.deliver`.
abbrev pub deliver_to : Ctx → Peer → ℕ → List ℕ → ℕ → Ctx
deliver_to ctx p channel payload stream_id =
    if ctx.cfg.has_deliver
    then record ctx {
      trace = delivered (peer_send_mac ctx p) channel payload stream_id ∷ ctx.trace;
    }
    else ctx

abbrev pub bump_overflow : Ctx → ℕ → Ctx
bump_overflow ctx pi =
    set_peer ctx pi
      (record (peer_at ctx pi) { overflow_count = inc32 (peer_at ctx pi).overflow_count })

-- `memcpy` into a buffer at an offset.
abbrev pub write_bytes : List ℕ → ℕ → List ℕ → List ℕ
write_bytes buf offset bytes = take offset buf ++ (bytes ++ drop (offset + length bytes) buf)

unfoldable pub sum : List ℕ → ℕ
sum [] = 0
sum (x ∷ xs) = x + sum xs

-- A slot after a fragment was copied into it.
abbrev pub with_fragment : Ctx → RelHdr → List ℕ → ReSlot → ReSlot
with_fragment ctx rh payload s = record s {
  data_bytes =
      write_bytes s.data_bytes (rh.fragment_index * inner_max) (take rh.payload_len payload);
  fragment_len = set s.fragment_len rh.fragment_index rh.payload_len;
  received_mask = bit_or s.received_mask (u16 (2 ^ rh.fragment_index));
  last_ms = ctx.now;
}

-- The end of `deliver_fragment`: the message is delivered, and the slot cleared, once every fragment
-- has come.
unfoldable pub collect : Ctx → ℕ → RelHdr → List ℕ → ℕ → Ctx
unfolding sum
collect ctx pi rh payload i =
    let s = with_fragment ctx rh payload (get_or ctx.reassembly i zero_reassembly) in
    let total = sum (take s.fragment_count s.fragment_len) in
    let done = deliver_to ctx (peer_at ctx pi) s.channel (take total s.data_bytes) s.stream_id in
    if s.received_mask == u16 (2 ^ rh.fragment_count - 1)
    then record done { reassembly = set ctx.reassembly i zero_reassembly }
    else record ctx { reassembly = set ctx.reassembly i s }

-- `send_lost_packet`
unfoldable pub send_lost_packet : Ctx → ℕ → ℕ → ℕ → ℕ → ℕ → ℕ → Ctx × Esp
send_lost_packet ctx pi channel reason flags first last =
    let p = peer_at ctx pi in
    let lost : Lost = record {
      channel_id = channel;
      reason = reason;
      flags = flags;
      root_session_id = p.root_session_id;
      node_session_id = p.node_session_id;
      seq_first = first;
      seq_last = last;
      origin_mac = ctx.cfg.local_mac;
      target_mac = peer_send_mac ctx p;
    } in
    send_packet ctx (peer_send_mac ctx p) type_lost ctx.local_session (lost_bytes lost)

-- `send_lost`
unfoldable pub send_lost : Ctx → ℕ → ℕ → ℕ → ℕ → ℕ → Ctx × Esp
send_lost ctx pi channel reason first last =
    send_lost_packet (record_lost ctx pi channel reason first last (inc32 (sub32 last first))) pi
      channel reason 0 first last

-- The reassembly slots that a dropped range touches.
abbrev pub dropped_reassembly : Peer → ℕ → ℕ → ℕ → ReSlot → Bool
dropped_reassembly p channel first last s =
    let slot_last = sub32 (u32 (s.first_seq + s.fragment_count)) 1 in
    s.used
    && (s.channel == channel)
    && (s.peer == p.mac)
    && (seq_in_range s.first_seq first last
        || seq_in_range slot_last first last
        || seq_in_range first s.first_seq slot_last)

abbrev pub dropped_rx : Peer → ℕ → ℕ → ℕ → RxSlot → Bool
dropped_rx p channel first last s = on_channel_rx p channel s && seq_in_range s.seq first last

abbrev pub set_expected : Ctx → ℕ → ℕ → ℕ → Ctx
set_expected ctx pi channel seq =
    set_peer ctx pi
      (record (peer_at ctx pi) { expected_seq = set (peer_at ctx pi).expected_seq channel seq })

abbrev pub expected_at : Ctx → ℕ → ℕ → ℕ
expected_at ctx pi channel = get_or (peer_at ctx pi).expected_seq channel 0

module _ (consume : Ctx → ℕ → ℕ → Ctx) where
  -- `receiver_drop_range` after the LOST range was kept for later, or did not fit.
  unfoldable pub kept_range : Ctx → ℕ → ℕ → ℕ → ℕ → ℕ → List Range × Bool → Ctx
  kept_range ctx pi channel reason first last (ranges, true) =
      (send_lost_packet (set_peer ctx pi (record (peer_at ctx pi) { pending_lost = ranges })) pi
        channel reason flag_receiver_drop first last).0
  kept_range ctx pi channel reason first last (ranges, false) =
      clear_peer_buffers (set_peer ctx pi (record (peer_at ctx pi) { pending_lost = ranges })) pi
        reason_overflow

  -- `receiver_drop_range`
  unfoldable pub receiver_drop_range : Ctx → ℕ → ℕ → ℕ → ℕ → ℕ → Ctx
  unfolding kept_range
  receiver_drop_range ctx pi channel reason first last =
      let p = peer_at ctx pi in
      let emptied : Ctx = record ctx {
        rx = clear_if (dropped_rx p channel first last) zero_rx ctx.rx;
        reassembly =
            clear_if (dropped_reassembly p channel first last) zero_reassembly ctx.reassembly;
      } in
      let told = record_lost emptied pi channel reason first last (inc32 (sub32 last first)) in
      let expected = expected_at told pi channel in
      let skipped = consume (set_expected told pi channel (inc32 last)) pi channel in
      let kept =
        kept_range told pi channel reason first last
          (pending_lost_add (peer_at told pi).pending_lost channel first last) in
      if seq_in_range expected first last
      then (send_lost_packet skipped pi channel reason flag_receiver_drop first last).0
      else if seq_before expected first
      then kept
      else (send_lost_packet told pi channel reason flag_receiver_drop first last).0

  -- The fragment of a longer message, after `reassembly_find`.
  unfoldable pub place_fragment : ℕ → RelHdr → List ℕ → Ctx × Option ℕ → Ctx
  unfolding receiver_drop_range collect
  place_fragment pi rh payload (ctx, some i) = collect ctx pi rh payload i
  place_fragment pi rh payload (ctx, none) =
      let first = sub32 rh.seq rh.fragment_index in
      let last = sub32 (u32 (first + rh.fragment_count)) 1 in
      receiver_drop_range (bump_overflow ctx pi) pi rh.channel_id reason_overflow first last

  -- `deliver_fragment`
  unfoldable pub deliver_fragment : Ctx → ℕ → RelHdr → List ℕ → Ctx
  unfolding place_fragment reassembly_find
  deliver_fragment ctx pi rh payload =
      if leb rh.fragment_count 1
      then deliver_to ctx (peer_at ctx pi) rh.channel_id (take rh.payload_len payload) rh.stream_id
      else if ltb max_fragments rh.fragment_count || leb rh.fragment_count rh.fragment_index
      then ctx
      else place_fragment pi rh payload (reassembly_find ctx (peer_at ctx pi) rh)
