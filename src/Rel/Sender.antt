-- ===== src/Rel/Sender.antt =====
-- keemash_mesh_core.c: acknowledgement of sent packets, the retransmission timeout, retransmission
-- and `keemash_rel_submit`.
use Prim.Native.Nat.{bit_or}
use keemash_core.Base.{
  ℕ, ◌+◌, ◌-◌, ◌*◌, ◌/◌, ◌^◌, Bool, not, ◌&&◌, ◌||◌, List, [], ◌∷◌, ◌++◌, ltb, ◌==◌, if◌then◌else◌,
  u8, u32, inc32, sub32, get_or, set,
}
use keemash_core.Proto.{Esp, type_data, flag_replay}
use keemash_core.Wire.{hdr_bytes, RelHdr, rel_hdr_bytes, packet_crc}
use keemash_core.Wire.Frames.{Ack}
use keemash_core.Rel.{Frame, TxSlot, Peer, Ctx, peer_at, zero_tx}
use keemash_core.Rel.Peers.{peer_send_mac, set_peer}
use keemash_core.Rel.Radio.{raw_send}
use keemash_core.Rel.Tables.{seq_after, on_channel_tx, has_flag}

-- The payload of a DATA packet, and its bytes.
abbrev pub frame_payload : Frame → List ℕ
frame_payload f = rel_hdr_bytes f.rh ++ f.chunk

abbrev pub frame_bytes : Frame → List ℕ
frame_bytes f = hdr_bytes f.h ++ frame_payload f

-- The assignments to `srtt_ms` and `rttvar_ms` in `update_rto`, in 32-bit arithmetic.
abbrev pub smoothed : Peer → ℕ → ℕ
smoothed p sample = if p.srtt_ms == 0 then sample else u32 (u32 (7 * p.srtt_ms) + sample) / 8

abbrev pub deviation : Peer → ℕ → ℕ
deviation p sample =
    let diff = if ltb sample p.srtt_ms then p.srtt_ms - sample else sample - p.srtt_ms in
    if p.srtt_ms == 0 then sample / 2 else u32 (u32 (3 * p.rttvar_ms) + diff) / 4

-- The two bounds on the timeout, in the order of the source.
abbrev pub clamp : ℕ → ℕ → ℕ → ℕ
clamp low high x = let y = if ltb x low then low else x in if ltb high y then high else y

-- `update_rto`
unfoldable pub update_rto : Ctx → Peer → ℕ → Peer
update_rto ctx p sample = if (sample == 0) || ltb 60000 sample then p else record p {
  srtt_ms = smoothed p sample;
  rttvar_ms = deviation p sample;
  rto_ms =
      clamp ctx.cfg.min_rto_ms ctx.cfg.max_rto_ms
        (u32 (smoothed p sample + u32 (4 * deviation p sample)));
}

-- An ACK covers a sequence number up to `ack_seq`, or by its bit of the bitmap.
abbrev pub covered : Ack → ℕ → Bool
covered ack seq =
    let delta = sub32 (sub32 seq ack.ack_seq) 1 in
    not (seq_after seq ack.ack_seq) || (ltb delta 32 && has_flag ack.sack_bitmap (2 ^ delta))

abbrev pub acked : Peer → Ack → TxSlot → Bool
acked p ack s = on_channel_tx p ack.channel_id s && covered ack s.seq

-- A round trip is measured on packets that were sent once.
abbrev pub measured : Ctx → Peer → TxSlot → Peer
measured ctx p s =
    if (s.retries == 0) && not (s.first_sent_ms == 0)
    then update_rto ctx p (sub32 ctx.now s.first_sent_ms)
    else p

-- The loop of `ack_slots`.
unfoldable pub ack_from : Ctx → Ack → Peer → List TxSlot → Peer × List TxSlot
unfolding update_rto
ack_from ctx ack p [] = (p, [])
ack_from ctx ack p (s ∷ rest) =
    let (p', rest') = ack_from ctx ack (if acked p ack s then measured ctx p s else p) rest in
    (p', (if acked p ack s then zero_tx else s) ∷ rest')

-- `ack_slots`
unfoldable pub ack_slots : Ctx → ℕ → Ack → Ctx
unfolding ack_from
ack_slots ctx pi ack =
    let (p', tx') = ack_from ctx ack (peer_at ctx pi) ctx.tx in
    record (set_peer ctx pi (record p' { last_ack_ms = ctx.now })) { tx = tx' }

-- The frame with the REPLAY flag, a new time and a new checksum.
abbrev pub replayed : ℕ → Frame → Frame
replayed now f =
    let rh' : RelHdr = record (f.rh) { flags = bit_or f.rh.flags flag_replay; tx_ms = now } in
    record {
      h = record (f.h) { crc16 = packet_crc f.h (rel_hdr_bytes rh' ++ f.chunk) };
      rh = rh';
      chunk = f.chunk;
    }

-- `retransmit_slot` of the slot at index `i`.
unfoldable pub retransmit_slot : Ctx → ℕ → ℕ → Ctx × Esp
retransmit_slot ctx pi i =
    let s = get_or ctx.tx i zero_tx in
    let p = peer_at ctx pi in
    let s' : TxSlot = record s {
      frame = replayed ctx.now s.frame;
      last_sent_ms = ctx.now;
      retries = u8 (s.retries + 1);
    } in
    let p' : Peer = record p {
      retry_count = inc32 p.retry_count;
      replay_count = inc32 p.replay_count;
    } in
    raw_send (record (set_peer ctx pi p') { tx = set ctx.tx i s' }) (peer_send_mac ctx p)
      (frame_bytes s'.frame) type_data
