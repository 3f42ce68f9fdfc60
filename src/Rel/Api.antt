-- ===== src/Rel/Api.antt =====
-- keemash_mesh_core.c: `keemash_rel_init`, and the calls of the layer's users besides `submit`.
use keemash_core.Base.{
  ℕ, Bool, true, false, not, ◌&&◌, ◌||◌, Option, none, some, [], ltb, leb, ◌==◌, if◌then◌else◌,
  count_if, clear_if, map, replicate,
}
use keemash_core.Proto.{Esp, ok, invalid_arg, invalid_state, no_mem, not_found, channel_count}
use keemash_core.Rel.{
  Config, TxSlot, Peer, Ctx, peer_at, zero_tx, zero_rx, zero_reassembly, zero_peer,
}
use keemash_core.Rel.Peers.{peer_find, set_peer}
use keemash_core.Rel.Tables.{tx_unacked, rx_depth, reassembly_depth, owns_tx, on_channel_tx}
use keemash_core.Rel.Loss.{clear_peer_buffers}

-- A per-peer limit that is zero or above the table's size is the table's size.
abbrev pub limit : ℕ → ℕ → ℕ
limit per_peer total = if (per_peer == 0) || ltb total per_peer then total else per_peer

-- The configuration that `init` keeps.
unfoldable pub completed : Config → Config
completed c =
    let tx = limit c.per_peer_tx_slots c.tx_slots in
    record c {
      per_peer_tx_slots = tx;
      per_peer_rx_slots = limit c.per_peer_rx_slots c.rx_slots;
      per_peer_reassembly_slots = limit c.per_peer_reassembly_slots c.reassembly_slots;
      per_peer_control_reserve =
          if leb tx c.per_peer_control_reserve
          then (if ltb 1 tx then 1 else 0)
          else c.per_peer_control_reserve;
      route_grace_ms = if c.route_grace_ms == 0 then 90000 else c.route_grace_ms;
      stale_peer_ms = if c.stale_peer_ms == 0 then 300000 else c.stale_peer_ms;
    }

-- `new_session_id`, of a random number.
abbrev pub session_of : ℕ → ℕ
session_of random = if random == 0 then 1 else random

abbrev pub fresh : Config → ℕ → ℕ → ℕ → Ctx
fresh c random random' now = record {
  cfg = c;
  local_session = session_of random;
  next_stream_id = session_of random';
  peers = replicate c.max_peers zero_peer;
  tx = replicate c.tx_slots zero_tx;
  rx = replicate c.rx_slots zero_rx;
  reassembly = replicate c.reassembly_slots zero_reassembly;
  data_counter = 0;
  ack_counter = 0;
  nack_counter = 0;
  duplicate_counter = 0;
  delay_counter = 0;
  reorder_counter = 0;
  overflow_counter = 0;
  poll_peer_cursor = 0;
  held = none;
  delayed = none;
  now = now;
  trace = [];
}

abbrev pub has_send : Config → Bool
has_send c = elim c.send [ none ↦ false | some _ ↦ true ]

-- `keemash_rel_init`; `allocated` says that `calloc` gave all its blocks, and the two numbers are
-- those of `esp_random`.
unfoldable pub init : Config → Bool → ℕ → ℕ → ℕ → Esp × Option Ctx
unfolding completed
init c allocated random random' now =
    if not (has_send c)
      || (c.max_peers == 0)
      || (c.tx_slots == 0)
      || (c.rx_slots == 0)
      || (c.reassembly_slots == 0)
    then (invalid_arg, none)
    else if not allocated
    then (no_mem, none)
    else (ok, some (fresh (completed c) random random' now))

reset_found : ℕ → Ctx × Option ℕ → Ctx
reset_found reason (ctx, none) = ctx
reset_found reason (ctx, some pi) = clear_peer_buffers ctx pi reason

-- `keemash_rel_reset_peer`
unfoldable pub reset_peer : Ctx → ℕ → ℕ → Ctx
unfolding reset_found
reset_peer ctx peer_mac reason = reset_found reason (peer_find ctx peer_mac false)

supersede_found : ℕ → Ctx × Option ℕ → Ctx × ℕ
supersede_found channel (ctx, none) = (ctx, 0)
supersede_found channel (ctx, some pi) =
    let mine = on_channel_tx (peer_at ctx pi) channel in
    (record ctx { tx = clear_if mine zero_tx ctx.tx }, count_if mine ctx.tx)

-- `keemash_rel_supersede_channel`: the packets of a channel that are not yet acknowledged are
-- forgotten, and counted.
unfoldable pub supersede_channel : Ctx → ℕ → ℕ → Ctx × ℕ
unfolding supersede_found
supersede_channel ctx peer_mac channel =
    if (channel == 0) || leb channel_count channel
    then (ctx, 0)
    else supersede_found channel (peer_find ctx peer_mac false)

-- The packets of the peer are due at once.
abbrev pub rush : Peer → TxSlot → TxSlot
rush p s = if owns_tx p s then record s { last_sent_ms = 0 } else s

route_found : Bool → Ctx × Option ℕ → Ctx × Esp
route_found up (ctx, none) = (ctx, if up then no_mem else not_found)
route_found up (ctx, some pi) =
    let p = peer_at ctx pi in
    let changed = set_peer ctx pi (record p {
      route_up = up;
      last_route_change_ms = ctx.now;
      route_down_since_ms = if up then 0 else ctx.now;
    }) in
    if (p.route_up && up) || (not p.route_up && not up)
    then (ctx, ok)
    else if up
    then (record changed { tx = map (rush p) ctx.tx }, ok)
    else (changed, ok)

-- `keemash_rel_peer_route`
unfoldable pub peer_route : Ctx → ℕ → Bool → Ctx × Esp
unfolding route_found
peer_route ctx peer_mac up = route_found up (peer_find ctx peer_mac up)

remove_found : Ctx × Option ℕ → Ctx × Esp
remove_found (ctx, none) = (ctx, not_found)
remove_found (ctx, some pi) =
    let p = peer_at ctx pi in
    if not (tx_unacked ctx p == 0) || not (rx_depth ctx p == 0) || not (reassembly_depth ctx p == 0)
    then (ctx, invalid_state)
    else (set_peer ctx pi zero_peer, ok)

-- `keemash_rel_remove_peer`
unfoldable pub remove_peer : Ctx → ℕ → Ctx × Esp
unfolding remove_found
remove_peer ctx peer_mac = remove_found (peer_find ctx peer_mac false)
