-- ===== src/Rel/Poll.antt =====
-- keemash_mesh_core.c: `keemash_rel_poll`.
use keemash_core.Base.{
  ℕ, zero, suc, ◌+◌, ◌%◌, Bool, true, false, not, ◌&&◌, ◌||◌, Option, none, some, leb, ◌==◌,
  if◌then◌else◌, u16, u32, sub32, get_or, set, find_index,
}
use keemash_core.Proto.{
  priority_control, reason_route_timeout, reason_retry_exhausted, reason_fragment_timeout,
  flag_receiver_drop,
}
use keemash_core.Rel.{TxSlot, ReSlot, Peer, Ctx, peer_at, zero_tx, zero_reassembly}
use keemash_core.Rel.Peers.{peer_find, set_peer}
use keemash_core.Rel.Radio.{flush_delayed_packet}
use keemash_core.Rel.Loss.{record_lost, clear_peer_buffers}
use keemash_core.Rel.Deliver.{send_lost_packet}
use keemash_core.Rel.Sender.{retransmit_slot}

-- A peer whose route has been down for the whole grace period.
abbrev pub route_expired : Ctx → Peer → Bool
route_expired ctx p =
    p.used
    && p.ready
    && not p.route_up
    && not (p.route_down_since_ms == 0)
    && leb ctx.cfg.route_grace_ms (sub32 ctx.now p.route_down_since_ms)

-- The first loop, over the peers from `pi` on, `left` of them to go.
unfoldable pub expire_routes : ℕ → ℕ → Ctx → Ctx
expire_routes zero pi ctx = ctx
expire_routes (suc left) pi ctx = expire_routes left (pi + 1) (
    if route_expired ctx (peer_at ctx pi)
    then clear_peer_buffers ctx pi reason_route_timeout
    else ctx)

-- A packet of this priority for this peer whose timeout has passed.
abbrev pub is_due : Ctx → Peer → ℕ → TxSlot → Bool
is_due ctx p priority s =
    s.used
    && (s.priority == priority)
    && (s.peer == p.mac)
    && leb p.rto_ms (sub32 ctx.now s.last_sent_ms)

-- The peer forgets the session of the other side.
abbrev pub forget_session : Ctx → ℕ → Ctx
forget_session ctx pi =
    let p = peer_at ctx pi in
    set_peer ctx pi (
      if ctx.cfg.root_role
      then record p { node_session_id = 0 }
      else record p { root_session_id = 0 })

-- The packet in slot `i` was sent as often as allowed: the peer is told and its buffers cleared.
unfoldable pub exhaust : Ctx → ℕ → ℕ → Ctx
exhaust ctx pi i =
    let s = get_or ctx.tx i zero_tx in
    forget_session
      (clear_peer_buffers (send_lost_packet ctx pi s.channel reason_retry_exhausted 0 s.seq s.seq).0
        pi reason_retry_exhausted)
      pi

-- One turn of the inner loop; the Boolean says that the loops are left (`goto tx_poll_done`).
unfoldable pub serve_slot : Ctx → ℕ → Option ℕ → Ctx × Bool
unfolding exhaust
serve_slot ctx pi none = (ctx, false)
serve_slot ctx pi (some i) =
    if leb ctx.cfg.max_retries (get_or ctx.tx i zero_tx).retries
    then (exhaust ctx pi i, true)
    else ((retransmit_slot ctx pi i).0, false)

unfoldable pub serve_peer : Ctx → ℕ → ℕ → Ctx × Bool
unfolding serve_slot
serve_peer ctx priority pi =
    let p = peer_at ctx pi in
    if not p.used || not p.ready || not p.route_up
    then (ctx, false)
    else serve_slot ctx pi (find_index (is_due ctx p priority) ctx.tx)

abbrev pub unless_done : (Ctx → Ctx × Bool) → Ctx × Bool → Ctx × Bool
unless_done next (ctx, true) = (ctx, true)
unless_done next (ctx, false) = next ctx

-- The loop over the peers, starting at the cursor; turn `p`, `left` of them to go.
unfoldable pub serve_peers : ℕ → ℕ → ℕ → Ctx → Ctx × Bool
unfolding serve_peer
serve_peers zero p priority ctx = (ctx, false)
serve_peers (suc left) p priority ctx =
    unless_done (serve_peers left (p + 1) priority)
      (serve_peer ctx priority (u16 ((ctx.poll_peer_cursor + p) % ctx.cfg.max_peers)))

-- The loop over the priorities, from `left - 1` down to LOG.
unfoldable pub serve_priorities : ℕ → Ctx → Ctx × Bool
unfolding serve_peers
serve_priorities zero ctx = (ctx, false)
serve_priorities (suc priority) ctx =
    unless_done (serve_priorities priority) (serve_peers ctx.cfg.max_peers 0 priority ctx)

-- A message of which no fragment has come for too long.
abbrev pub timed_out : Ctx → ReSlot → Bool
timed_out ctx s = s.used && leb ctx.cfg.fragment_timeout_ms (sub32 ctx.now s.last_ms)

-- Its peer, if still known, is told.
report_timeout : ReSlot → Ctx × Option ℕ → Ctx
report_timeout s (ctx, none) = ctx
report_timeout s (ctx, some pi) =
    let last = sub32 (u32 (s.first_seq + s.fragment_count)) 1 in
    (send_lost_packet
      (record_lost ctx pi s.channel reason_fragment_timeout s.first_seq last s.fragment_count) pi
      s.channel reason_fragment_timeout flag_receiver_drop s.first_seq last).0

-- The last loop, over the reassembly slots from `i` on, `left` of them to go.
unfoldable pub expire_fragments : ℕ → ℕ → Ctx → Ctx
unfolding report_timeout
expire_fragments zero i ctx = ctx
expire_fragments (suc left) i ctx =
    let s = get_or ctx.reassembly i zero_reassembly in
    let told = report_timeout s (peer_find ctx s.peer false) in
    expire_fragments left (i + 1) (
      if timed_out ctx s
      then record told { reassembly = set told.reassembly i zero_reassembly }
      else ctx)

-- `keemash_rel_poll`
unfoldable pub poll : Ctx → Ctx
unfolding expire_routes serve_priorities expire_fragments
poll ctx =
    let expired = expire_routes ctx.cfg.max_peers 0 (flush_delayed_packet ctx ctx.now) in
    let served = (serve_priorities (suc priority_control) expired).0 in
    let turned : Ctx = record served {
      poll_peer_cursor = u16 ((served.poll_peer_cursor + 1) % served.cfg.max_peers);
    } in
    expire_fragments turned.cfg.reassembly_slots 0 turned
