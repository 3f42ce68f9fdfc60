-- ===== src/Rel/Receive.antt =====
-- keemash_mesh_core.c: `handle_data`, `handle_ack_packet`, `handle_lost_packet` and
-- `keemash_rel_handle_rx`.
use keemash_core.Base.{
  ℕ, Bool, true, false, not, ◌&&◌, ◌||◌, Option, none, some, List, ltb, leb, ◌==◌, if◌then◌else◌,
  inc32, sub32, set, clear_if, take, length,
}
use keemash_core.Proto.{
  Esp, invalid_arg, invalid_state, no_mem, channel_count, inner_max, max_fragments, window,
  channel_time, flag_replay, flag_fragment, flag_latest, reason_overflow,
}
use keemash_core.Wire.{RelHdr}
use keemash_core.Rel.{Peer, Ctx, peer_at, zero_rx, zero_range}
use keemash_core.Rel.Peers.{peer_find, set_peer}
use keemash_core.Rel.Tables.{seq_before, has_flag, on_channel_rx, rx_find, rx_alloc}
use keemash_core.Rel.Loss.{of_channel}
use keemash_core.Rel.Deliver.{
  deliver_fragment, receiver_drop_range, bump_overflow, expected_at, set_expected,
}
use keemash_core.Rel.Consume.{consume, consume_fuel, consume_contiguous, send_ack}

-- The first test of `handle_data`.
abbrev pub malformed : Ctx → ℕ → RelHdr → ℕ → Bool
malformed ctx from rh payload_space =
    (rh.channel_id == 0)
    || leb channel_count rh.channel_id
    || ltb payload_space rh.payload_len
    || ltb inner_max rh.payload_len
    || (rh.fragment_count == 0)
    || ltb max_fragments rh.fragment_count
    || leb rh.fragment_count rh.fragment_index
    || (ltb 1 rh.fragment_count && not (has_flag rh.flags flag_fragment))
    || not (rh.origin_mac == from)
    || not (rh.target_mac == ctx.cfg.local_mac)

-- The peer is bound to the sessions that a packet names.
abbrev pub in_session : Peer → ℕ → ℕ → Bool
in_session p root_session node_session =
    p.ready && (p.root_session_id == root_session) && (p.node_session_id == node_session)

-- What a DATA packet of the session tells of its peer.
abbrev pub heard : Ctx → ℕ → RelHdr → Ctx
heard ctx pi rh =
    let p = peer_at ctx pi in
    set_peer ctx pi (record p {
      route_up = true;
      route_down_since_ms = 0;
      last_rx_ms = ctx.now;
      replay_count = if has_flag rh.flags flag_replay then inc32 p.replay_count else p.replay_count;
    })

-- A newer packet of a latest-wins channel drops what the channel still waits for.
abbrev pub forget_older : Ctx → ℕ → RelHdr → Ctx
forget_older ctx pi rh =
    let p = peer_at ctx pi in
    set_peer (record ctx { rx = clear_if (on_channel_rx p rh.channel_id) zero_rx ctx.rx }) pi
      (record p {
        pending_lost = clear_if (of_channel rh.channel_id) zero_range p.pending_lost;
        expected_seq = set p.expected_seq rh.channel_id rh.seq;
      })

-- A packet that cannot be delivered yet, buffered in slot `k`.
abbrev pub buffered : Ctx → ℕ → RelHdr → List ℕ → ℕ → Ctx
buffered ctx pi rh payload k = record ctx {
  rx = set ctx.rx k (record {
    used = true;
    peer = (peer_at ctx pi).mac;
    channel = rh.channel_id;
    seq = rh.seq;
    hdr = rh;
    payload = take rh.payload_len payload;
  });
}

-- A packet inside the window, ahead of the expected one.
unfoldable pub early : Ctx → ℕ → RelHdr → List ℕ → Ctx × Esp
early ctx pi rh payload =
    let p = peer_at ctx pi in
    let full = bump_overflow ctx pi in
    elim (rx_find ctx p rh.channel_id rh.seq) [
      | some _ ↦ send_ack ctx pi rh true
      | none ↦ elim (rx_alloc ctx p) [
        | some k ↦ send_ack (buffered ctx pi rh payload k) pi rh true
        | none ↦ (
          receiver_drop_range (consume (consume_fuel full pi)) full pi rh.channel_id reason_overflow
              rh.seq rh.seq,
          no_mem,
        )
      ]
    ]

-- The expected packet: it is delivered, and then what it was waited for.
unfoldable pub on_time : Ctx → ℕ → RelHdr → List ℕ → Ctx × Esp
unfolding deliver_fragment
on_time ctx pi rh payload =
    let moved = set_expected ctx pi rh.channel_id (inc32 (expected_at ctx pi rh.channel_id)) in
    let done = deliver_fragment (consume (consume_fuel moved pi)) moved pi rh payload in
    send_ack (consume_contiguous done pi rh.channel_id) pi rh false

-- The last part of `handle_data`, by the place of the packet relative to the expected one.
unfoldable pub place_data : Ctx → ℕ → RelHdr → List ℕ → Ctx × Esp
place_data ctx pi rh payload =
    let expected = expected_at ctx pi rh.channel_id in
    if seq_before rh.seq expected
    then send_ack ctx pi rh false
    else if rh.seq == expected
    then on_time ctx pi rh payload
    else if leb window (sub32 rh.seq expected)
    then send_ack ctx pi rh true
    else early ctx pi rh payload

-- The test for the latest-wins flag.
unfoldable pub latest_data : Ctx → ℕ → RelHdr → List ℕ → Ctx × Esp
latest_data ctx pi rh payload =
    let newer = seq_before (expected_at ctx pi rh.channel_id) rh.seq in
    if not (has_flag rh.flags flag_latest)
    then place_data ctx pi rh payload
    else if not (rh.channel_id == channel_time) || not (rh.fragment_count == 1)
    then (ctx, invalid_arg)
    else place_data (if newer then forget_older ctx pi rh else ctx) pi rh payload

unfoldable pub session_data : RelHdr → List ℕ → Ctx × Option ℕ → Ctx × Esp
session_data rh payload (ctx, none) = (ctx, invalid_state)
session_data rh payload (ctx, some pi) =
    if in_session (peer_at ctx pi) rh.root_session_id rh.node_session_id
    then latest_data (heard ctx pi rh) pi rh payload
    else (ctx, invalid_state)

-- `handle_data`; `payload` are the bytes behind the reliable header.
unfoldable pub handle_data : Ctx → ℕ → RelHdr → List ℕ → Ctx × Esp
unfolding session_data
handle_data ctx from rh payload =
    if malformed ctx from rh (length payload)
    then (ctx, invalid_arg)
    else session_data rh payload (peer_find ctx from false)
