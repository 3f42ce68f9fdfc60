-- ===== src/Rel/Peers.antt =====
-- keemash_mesh_core.c: `peer_find`, and where a peer's packets are sent.
use keemash_core.Base.{
  ℕ, Bool, true, not, ◌&&◌, Option, none, some, List, ◌∷◌, ◌==◌, if◌then◌else◌, set, find_index,
  replicate,
}
use keemash_core.Rel.{Config, Peer, Ctx, zero_peer, peer_at}

-- Channel 0 is not used: its entry stays zero.
abbrev pub first_seqs : List ℕ
first_seqs = 0 ∷ replicate 9 1

abbrev pub peer_key : Config → ℕ → ℕ
peer_key c mac = if c.root_role then mac else 0

abbrev pub is_peer : ℕ → Peer → Bool
is_peer key p = p.used && (p.mac == key)

abbrev pub unused_peer : Peer → Bool
unused_peer p = not p.used

-- The record of a peer seen for the first time.
abbrev pub new_peer : Ctx → ℕ → Peer
new_peer ctx mac = record zero_peer {
  used = true;
  mac = peer_key ctx.cfg mac;
  remote_mac = mac;
  rto_ms = ctx.cfg.initial_rto_ms;
  last_route_change_ms = ctx.now;
  next_seq = first_seqs;
  expected_seq = first_seqs;
}

abbrev pub set_peer : Ctx → ℕ → Peer → Ctx
set_peer ctx pi p = record ctx { peers = set ctx.peers pi p }

unfoldable pub found_peer : Ctx → ℕ → ℕ → Ctx × Option ℕ
found_peer ctx mac i =
    if not ctx.cfg.root_role && not (mac == 0)
    then (set_peer ctx i (record (peer_at ctx i) { remote_mac = mac }), some i)
    else (ctx, some i)

unfoldable pub add_peer : Ctx → ℕ → Option ℕ → Ctx × Option ℕ
add_peer ctx mac none = (ctx, none)
add_peer ctx mac (some i) = (set_peer ctx i (new_peer ctx mac), some i)

unfoldable pub find_or_add : Ctx → ℕ → Bool → Option ℕ → Ctx × Option ℕ
unfolding found_peer add_peer
find_or_add ctx mac create (some i) = found_peer ctx mac i
find_or_add ctx mac create none =
    if create then add_peer ctx mac (find_index unused_peer ctx.peers) else (ctx, none)

-- `peer_find`: the index of the peer. A node has one peer, the root, under the zero key, and learns
-- the root's address from what it receives.
unfoldable pub peer_find : Ctx → ℕ → Bool → Ctx × Option ℕ
unfolding find_or_add
peer_find ctx mac create =
    find_or_add ctx mac create (find_index (is_peer (peer_key ctx.cfg mac)) ctx.peers)

abbrev pub peer_send_mac : Ctx → Peer → ℕ
peer_send_mac ctx p = if ctx.cfg.root_role then p.mac else p.remote_mac
