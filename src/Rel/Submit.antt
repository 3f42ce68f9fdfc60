-- ===== src/Rel/Submit.antt =====
-- keemash_mesh_core.c: `keemash_rel_submit`.
use Prim.Native.Nat.{bit_or}
use keemash_core.Base.{
  ℕ, zero, suc, ◌+◌, ◌-◌, ◌*◌, ◌/◌, Bool, true, false, not, ◌||◌, Option, none, some, List, [], ◌∷◌,
  ◌++◌, ltb, leb, ◌==◌, if◌then◌else◌, u8, u16, u32, inc32, sub32, get_or, set, take, drop, length,
}
use mathlib.Core.List.{reverse}
use keemash_core.Proto.{
  Esp, ok, invalid_arg, invalid_state, invalid_size, no_mem, is_ok, pkt_magic, pkt_version_v2,
  type_data, reason_overflow, flag_fragment, flag_urgent, flag_latest, priority_control,
  channel_time, channel_count, message_max, inner_max, max_fragments, reliable_hdr_size,
}
use keemash_core.Wire.{Hdr, RelHdr, packet_crc, rel_hdr_bytes}
use keemash_core.Rel.{Frame, TxSlot, Ctx, peer_at, zero_tx}
use keemash_core.Rel.Peers.{peer_find, peer_send_mac, set_peer}
use keemash_core.Rel.Radio.{raw_send, strikes}
use keemash_core.Rel.Tables.{tx_alloc, tx_available}
use keemash_core.Rel.Deliver.{send_lost}
use keemash_core.Rel.Sender.{frame_bytes}

-- `keemash_rel_submit_info_t`: `queued` is KEEMASH_REL_SUBMIT_ACCEPTED_QUEUED.
pub record Info : Type 0 where
  pub queued : Bool
  pub initial_transport_err : Esp
  pub stream_id : ℕ

abbrev pub rejected : Info
rejected = record { queued = false; initial_transport_err = ok; stream_id = 0 }

-- What the fragments of one message share.
pub record Message : Type 0 where
  pub pi : ℕ
  pub channel : ℕ
  pub priority : ℕ
  pub payload : List ℕ
  pub fragments : ℕ
  pub stream_id : ℕ

-- The bytes of fragment `i`.
abbrev pub chunk_of : List ℕ → ℕ → List ℕ
chunk_of payload i = take inner_max (drop (i * inner_max) payload)

abbrev pub frame_flags : Message → ℕ
frame_flags m =
    bit_or
      (bit_or (if ltb 1 m.fragments then flag_fragment else 0)
        (if m.priority == priority_control then flag_urgent else 0))
      (if m.channel == channel_time then flag_latest else 0)

-- Fragment `i` of the message, under sequence number `seq`.
unfoldable pub frame_of : Ctx → Message → ℕ → ℕ → Frame
frame_of ctx m i seq =
    let p = peer_at ctx m.pi in
    let chunk = chunk_of m.payload i in
    let rh : RelHdr = record {
      channel_id = m.channel;
      flags = frame_flags m;
      priority = m.priority;
      fragment_count = m.fragments;
      payload_len = u16 (length chunk);
      fragment_index = i;
      stream_id = m.stream_id;
      seq = seq;
      tx_ms = ctx.now;
      root_session_id = p.root_session_id;
      node_session_id = p.node_session_id;
      origin_mac = ctx.cfg.local_mac;
      target_mac = peer_send_mac ctx p;
    } in
    let h : Hdr = record {
      magic = pkt_magic;
      version = pkt_version_v2;
      type = type_data;
      flags = 0;
      session_id = ctx.local_session;
      seq = 0;
      ack_seq = 0;
      payload_len = u16 (reliable_hdr_size + length chunk);
      src_mac = ctx.cfg.local_mac;
      crc16 = 0;
    } in
    record {
      h = record h { crc16 = packet_crc h (rel_hdr_bytes rh ++ chunk) };
      rh = rh;
      chunk = chunk;
    }

abbrev pub next_at : Ctx → ℕ → ℕ → ℕ
next_at ctx pi channel = get_or (peer_at ctx pi).next_seq channel 0

abbrev pub set_next : Ctx → ℕ → ℕ → ℕ → Ctx
set_next ctx pi channel seq =
    set_peer ctx pi
      (record (peer_at ctx pi) { next_seq = set (peer_at ctx pi).next_seq channel seq })

-- The slot that fragment `i` takes.
abbrev pub tx_slot_of : Ctx → Message → ℕ → ℕ → TxSlot
tx_slot_of ctx m i seq = record {
  used = true;
  peer = (peer_at ctx m.pi).mac;
  channel = m.channel;
  priority = m.priority;
  seq = seq;
  stream_id = m.stream_id;
  first_sent_ms = ctx.now;
  last_sent_ms = ctx.now;
  retries = 0;
  frame = frame_of ctx m i seq;
}

-- Fragment `i` is put into slot `k`.
unfoldable pub queue_one : Ctx → Message → ℕ → ℕ → Ctx
queue_one ctx m i k =
    let seq = next_at ctx m.pi m.channel in
    set_next (record ctx { tx = set ctx.tx k (tx_slot_of ctx m i seq) }) m.pi m.channel (inc32 seq)

-- The loop that queues the fragments from `i` on, `left` of them to go; the slots taken, newest
-- first, and whether there was one for each.
unfoldable pub queue_from : ℕ → ℕ → Ctx → Message → List ℕ → Ctx × List ℕ × Bool
queue_from zero i ctx m slots = (ctx, slots, true)
queue_from (suc left) i ctx m slots = elim (tx_alloc ctx (peer_at ctx m.pi) m.priority) [
  | none ↦ (ctx, slots, false)
  | some k ↦ queue_from left (i + 1) (queue_one ctx m i k) m (k ∷ slots)
]

abbrev pub clear_slots : List ℕ → List TxSlot → List TxSlot
clear_slots [] tx = tx
clear_slots (k ∷ ks) tx = clear_slots ks (set tx k zero_tx)

-- The whole message is given up: its numbers are skipped, and the peer is told.
unfoldable pub overflow : Ctx → Message → ℕ → Ctx × Esp × Info
overflow ctx m first =
    let last = sub32 (u32 (first + m.fragments)) 1 in
    let skipped = set_next ctx m.pi m.channel (inc32 last) in
    let p = peer_at skipped m.pi in
    let counted = set_peer skipped m.pi (record p { overflow_count = inc32 p.overflow_count }) in
    ((send_lost counted m.pi m.channel reason_overflow first last).0, no_mem, rejected)

-- The frames go out in order; the first error is remembered.
unfoldable pub send_slots : Ctx → ℕ → List ℕ → Esp → Ctx × Esp
send_slots ctx pi [] err = (ctx, err)
send_slots ctx pi (k ∷ ks) err =
    let (ctx', err') =
      raw_send ctx (peer_send_mac ctx (peer_at ctx pi))
        (frame_bytes (get_or ctx.tx k zero_tx).frame) type_data in
    send_slots ctx' pi ks (if is_ok err then err' else err)

-- After the loop: the frames are sent if the route is up.
unfoldable pub finish_submit : Message → ℕ → Ctx × List ℕ × Bool → Ctx × Esp × Info
unfolding overflow send_slots
finish_submit m first (ctx, slots, false) =
    overflow (record ctx { tx = clear_slots slots ctx.tx }) m first
finish_submit m first (ctx, slots, true) =
    let (ctx', err) =
      if (peer_at ctx m.pi).route_up
      then send_slots ctx m.pi (reverse slots) ok
      else (ctx, invalid_state) in
    (ctx', ok, record { queued = true; initial_transport_err = err; stream_id = m.stream_id })

-- `stream_id = ctx->next_stream_id++`, taken again at zero, and the counter after it.
abbrev pub take_stream : ℕ → ℕ × ℕ
take_stream next = if next == 0 then (inc32 next, inc32 (inc32 next)) else (next, inc32 next)

abbrev pub fragments_of : ℕ → ℕ
fragments_of len = u8 ((len + inner_max - 1) / inner_max)

-- `submit` for a peer that is ready.
unfoldable pub submit_to : Ctx → ℕ → ℕ → List ℕ → ℕ → Ctx × Esp × Info
unfolding finish_submit queue_from
submit_to ctx pi channel payload priority =
    let fragments = fragments_of (length payload) in
    let (stream, next) = take_stream ctx.next_stream_id in
    let m : Message = record {
      pi = pi;
      channel = channel;
      priority = priority;
      payload = payload;
      fragments = fragments;
      stream_id = stream;
    } in
    let faulty = not (ctx.cfg.fault_overflow_every == 0) in
    let counter = if faulty then inc32 ctx.overflow_counter else ctx.overflow_counter in
    let named : Ctx = record ctx { next_stream_id = next; overflow_counter = counter } in
    let first = next_at ctx pi channel in
    if (fragments == 0) || ltb max_fragments fragments
    then (ctx, invalid_size, rejected)
    else if strikes ctx.cfg.fault_overflow_every counter
        || ltb (tx_available named (peer_at named pi) priority) fragments
    then overflow named m first
    else finish_submit m first (queue_from fragments 0 named m [])

ready_submit : ℕ → List ℕ → ℕ → Ctx × Option ℕ → Ctx × Esp × Info
unfolding submit_to
ready_submit channel payload priority (ctx, none) = (ctx, invalid_state, rejected)
ready_submit channel payload priority (ctx, some pi) =
    if (peer_at ctx pi).ready
    then submit_to ctx pi channel payload priority
    else (ctx, invalid_state, rejected)

-- `keemash_rel_submit`
unfoldable pub submit : Ctx → ℕ → ℕ → List ℕ → ℕ → Ctx × Esp × Info
unfolding ready_submit peer_find
submit ctx peer_mac channel payload priority =
    if (length payload == 0)
      || (channel == 0)
      || leb channel_count channel
      || ltb message_max (length payload)
    then (ctx, invalid_arg, rejected)
    else ready_submit channel payload priority (peer_find ctx peer_mac false)
