-- ===== src/Rel/Handshake.antt =====
-- keemash_mesh_core.c: `keemash_rel_send_hello`, `handle_hello` and `handle_hello_ack`.
use Prim.Native.Nat.{bit_and, bit_or}
use keemash_core.Base.{
  ℕ, ◌+◌, Bool, true, not, ◌&&◌, ◌||◌, Option, none, some, List, ltb, ◌==◌, if◌then◌else◌,
}
use keemash_core.Proto.{
  Esp, ok, invalid_state, no_mem, not_supported, type_hello, type_hello_ack, packet_max,
  profile_version, window, cap_required, cap_root, hdr_size, reliable_hdr_size,
  reason_session_reset,
}
use keemash_core.Wire.Frames.{Hello, hello_bytes, tag_field, HelloAck, hello_ack_bytes}
use keemash_core.Rel.{Peer, Ctx, peer_at}
use keemash_core.Rel.Peers.{peer_find, peer_send_mac, set_peer}
use keemash_core.Rel.Radio.{send_packet}
use keemash_core.Rel.Loss.{clear_peer_buffers}

-- The HELLO of a node.
unfoldable pub hello_of_node : Ctx → ℕ → List ℕ → ℕ → ℕ → Hello
hello_of_node ctx pi tag uptime_s capabilities = record {
  tag = tag_field tag;
  uptime_s = uptime_s;
  profile_version = profile_version;
  mtu = packet_max;
  tx_slots = ctx.cfg.tx_slots;
  reorder_window = window;
  capabilities = bit_or capabilities cap_required;
  node_session_id = ctx.local_session;
  root_session_seen = (peer_at ctx pi).root_session_id;
}

hello_to : List ℕ → ℕ → ℕ → Ctx × Option ℕ → Ctx × Esp
unfolding hello_of_node
hello_to tag uptime_s capabilities (ctx, none) = (ctx, no_mem)
hello_to tag uptime_s capabilities (ctx, some pi) =
    send_packet ctx (peer_send_mac ctx (peer_at ctx pi)) type_hello ctx.local_session
      (hello_bytes (hello_of_node ctx pi tag uptime_s capabilities))

-- `keemash_rel_send_hello`; a NULL tag is the empty one.
unfoldable pub send_hello : Ctx → ℕ → List ℕ → ℕ → ℕ → Ctx × Esp
unfolding hello_to
send_hello ctx peer_mac tag uptime_s capabilities =
    if ctx.cfg.root_role
    then (ctx, invalid_state)
    else hello_to tag uptime_s capabilities (peer_find ctx peer_mac true)

-- All the capabilities that the layer needs.
abbrev pub capable : ℕ → Bool
capable capabilities = bit_and capabilities cap_required == cap_required

-- The peer as a handshake leaves it.
abbrev pub bound : Ctx → Peer → ℕ → ℕ → ℕ → Peer
bound ctx p root_session node_session capabilities = record p {
  root_session_id = root_session;
  node_session_id = node_session;
  capabilities = capabilities;
  route_up = true;
  route_down_since_ms = 0;
  last_route_change_ms = ctx.now;
  ready = true;
}

-- `reset` of `handle_hello`.
abbrev pub hello_resets : Ctx → Peer → Hello → Bool
hello_resets ctx p hello =
    not (p.node_session_id == hello.node_session_id)
    || not (hello.root_session_seen == ctx.local_session)

-- The root's peer after a HELLO, and the answer to it.
abbrev pub welcomed : Ctx → ℕ → Hello → Ctx
welcomed ctx pi hello =
    set_peer ctx pi
      (bound ctx (peer_at ctx pi) ctx.local_session hello.node_session_id hello.capabilities)

abbrev pub hello_reply : Ctx → Hello → Bool → HelloAck
hello_reply ctx hello reset = record {
  profile_version = profile_version;
  mtu = packet_max;
  capabilities = cap_root;
  root_session_id = ctx.local_session;
  node_session_id = hello.node_session_id;
  reset_link = if reset then 1 else 0;
}

unfoldable pub welcome : ℕ → Hello → Ctx × Option ℕ → Ctx × Esp
welcome from hello (ctx, none) = (ctx, no_mem)
welcome from hello (ctx, some pi) =
    let reset = hello_resets ctx (peer_at ctx pi) hello in
    let fresh = if reset then clear_peer_buffers ctx pi reason_session_reset else ctx in
    send_packet (welcomed fresh pi hello) from type_hello_ack ctx.local_session
      (hello_ack_bytes (hello_reply ctx hello reset))

-- `handle_hello`
unfoldable pub handle_hello : Ctx → ℕ → Hello → Ctx × Esp
unfolding welcome
handle_hello ctx from hello =
    if not ctx.cfg.root_role || not (hello.profile_version == profile_version)
    then (ctx, not_supported)
    else if not (capable hello.capabilities)
        || ltb hello.mtu (hdr_size + reliable_hdr_size + 1)
        || ltb hello.reorder_window window
    then (ctx, not_supported)
    else welcome from hello (peer_find ctx from true)

-- `same_binding` and `session_changed` of `handle_hello_ack`.
abbrev pub same_binding : Peer → HelloAck → Bool
same_binding p ack =
    p.ready
    && (p.root_session_id == ack.root_session_id)
    && (p.node_session_id == ack.node_session_id)

abbrev pub session_changed : Peer → HelloAck → Bool
session_changed p ack =
    (not (p.root_session_id == 0) && not (p.root_session_id == ack.root_session_id))
    || (not (p.node_session_id == 0) && not (p.node_session_id == ack.node_session_id))

-- The node drops what it has queued for another binding.
abbrev pub ack_resets : Peer → HelloAck → Bool
ack_resets p ack = session_changed p ack || (not (ack.reset_link == 0) && not (same_binding p ack))

unfoldable pub bind : HelloAck → Ctx × Option ℕ → Ctx × Esp
bind ack (ctx, none) = (ctx, no_mem)
bind ack (ctx, some pi) =
    let fresh =
      if ack_resets (peer_at ctx pi) ack
      then clear_peer_buffers ctx pi reason_session_reset
      else ctx in
    let p = bound ctx (peer_at fresh pi) ack.root_session_id ctx.local_session ack.capabilities in
    (set_peer fresh pi (record p { last_ack_ms = ctx.now }), ok)

-- `handle_hello_ack`
unfoldable pub handle_hello_ack : Ctx → ℕ → HelloAck → Ctx × Esp
unfolding bind
handle_hello_ack ctx from ack =
    if ctx.cfg.root_role
      || not (ack.profile_version == profile_version)
      || not (ack.node_session_id == ctx.local_session)
      || not (capable ack.capabilities)
    then (ctx, invalid_state)
    else bind ack (peer_find ctx from true)
