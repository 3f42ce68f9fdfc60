-- ===== src/Rel/Binding.antt =====
-- keemash_mesh_core.c: the handshake binds both sides to the same pair of sessions.
use Prim.Native.Nat.{bit_or}
use keemash_core.Base.{
  ℕ, ◌+◌, ◌<◌, Bool, true, false, not, ◌&&◌, ◌||◌, Option, none, some, List, ltb, ◌==◌, ==-refl,
  if◌then◌else◌, if_false, if_keeps, find_index, length, length-set, get_or-set_self, ◌≡◌, refl, ap,
  ◌∙◌, sym, arith,
}
use keemash_core.Base.Bits.{and_or_self}
use keemash_core.Proto.{
  Esp, profile_version, cap_required, window, hdr_size, reliable_hdr_size, type_hello_ack,
  reason_session_reset,
}
use keemash_core.Wire.Frames.{Hello, HelloAck, hello_ack_bytes}
use keemash_core.Rel.{Peer, Ctx, peer_at, zero_peer}
use keemash_core.Rel.Peers.{
  found_peer, add_peer, find_or_add, unused_peer, is_peer, peer_key, peer_find,
}
use keemash_core.Rel.Air.{send_packet-quiet}
use keemash_core.Rel.Loss.{clear_peer_buffers, restarted}
use keemash_core.Rel.Clearing.{clear-keeps, record_lost-length, record_lost-session}
use keemash_core.Rel.Handshake.{
  hello_of_node, capable, bound, hello_resets, welcomed, hello_reply, welcome, handle_hello,
  ack_resets, bind, handle_hello_ack,
}

pub clear-length :
    (c : Ctx) (pi reason : ℕ) → length (clear_peer_buffers c pi reason).peers ≡ length c.peers
clear-length c pi reason =
    clear-keeps (λ d. length d.peers) pi (record_lost-length pi) c reason
      (λ d. length-set d.peers pi (restarted (peer_at d pi)))

clear-session :
    (c : Ctx) (pi reason : ℕ) → (clear_peer_buffers c pi reason).local_session ≡ c.local_session
clear-session c pi reason =
    clear-keeps (λ d. d.local_session) pi (record_lost-session pi) c reason (λ d. refl)

add_peer-session :
    (c : Ctx) (mac : ℕ) (o : Option ℕ) → (add_peer c mac o).0.local_session ≡ c.local_session
unfolding add_peer
add_peer-session c mac none = refl
add_peer-session c mac (some i) = refl

-- Looking for a peer keeps the side's own session.
find_or_add-session :
    (c : Ctx) (mac : ℕ) (create : Bool) (o : Option ℕ)
    → (find_or_add c mac create o).0.local_session ≡ c.local_session
unfolding find_or_add found_peer
find_or_add-session c mac create (some i) =
    if_keeps (λ (r : Ctx × Option ℕ). r.0.local_session) (not c.cfg.root_role && not (mac == 0))
      refl refl
find_or_add-session c mac create none =
    if_keeps (λ (r : Ctx × Option ℕ). r.0.local_session) create
      (add_peer-session c mac (find_index unused_peer c.peers)) refl

found_session :
    (c : Ctx) (mac : ℕ) (c' : Ctx) (i : ℕ)
    → peer_find c mac true ≡ (c', some i)
    → c'.local_session ≡ c.local_session
unfolding peer_find
found_session c mac c' i e =
    sym (ap (λ (r : Ctx × Option ℕ). r.0.local_session) e)
    ∙ find_or_add-session c mac true (find_index (is_peer (peer_key c.cfg mac)) c.peers)

-- A node offers what the root asks for.
capable_or : (capabilities : ℕ) → capable (bit_or capabilities cap_required) ≡ true
capable_or capabilities =
    ap (λ t. t == cap_required) (and_or_self capabilities cap_required) ∙ ==-refl cap_required

-- The state in which a handshake binds: the buffers are cleared if the binding is another one.
abbrev pub cleared_if : Bool → Ctx → ℕ → Ctx
cleared_if reset c pi = if reset then clear_peer_buffers c pi reason_session_reset else c

cleared_if-length :
    (reset : Bool) (c : Ctx) (pi : ℕ) → length (cleared_if reset c pi).peers ≡ length c.peers
cleared_if-length reset c pi =
    if_keeps (λ (d : Ctx). length d.peers) reset (clear-length c pi reason_session_reset) refl

cleared_if-session :
    (reset : Bool) (c : Ctx) (pi : ℕ) → (cleared_if reset c pi).local_session ≡ c.local_session
cleared_if-session reset c pi =
    if_keeps (λ (d : Ctx). d.local_session) reset (clear-session c pi reason_session_reset) refl

-- The root's peer after a HELLO for which it has a record.
welcome-peer :
    (c : Ctx) (from : ℕ) (hello : Hello) (pi : ℕ)
    → pi < length c.peers
    → let p = peer_at (welcome from hello (c, some pi)).0 pi in
      (p.ready ≡ true)
      × (p.root_session_id ≡ c.local_session)
      × (p.node_session_id ≡ hello.node_session_id)
unfolding welcome
welcome-peer c from hello pi h =
    let reset = hello_resets c (peer_at c pi) hello in
    let d = cleared_if reset c pi in
    let q = bound d (peer_at d pi) d.local_session hello.node_session_id hello.capabilities in
    let e : peer_at (welcome from hello (c, some pi)).0 pi ≡ q =
      ap (λ (x : Ctx). peer_at x pi)
        (send_packet-quiet (welcomed d pi hello) from type_hello_ack c.local_session
          (hello_ack_bytes (hello_reply c hello reset)))
      ∙ get_or-set_self d.peers pi q zero_peer (omega (arith, cleared_if-length reset c pi)) in
    (
      ap (λ (p : Peer). p.ready) e,
      ap (λ (p : Peer). p.root_session_id) e ∙ cleared_if-session reset c pi,
      ap (λ (p : Peer). p.node_session_id) e,
    )

-- The node's peer after a HELLO_ACK that it accepts.
bind-peer :
    (c : Ctx) (ack : HelloAck) (pi : ℕ)
    → pi < length c.peers
    → let p = peer_at (bind ack (c, some pi)).0 pi in
      (p.ready ≡ true)
      × (p.root_session_id ≡ ack.root_session_id)
      × (p.node_session_id ≡ c.local_session)
unfolding bind
bind-peer c ack pi h =
    let reset = ack_resets (peer_at c pi) ack in
    let d = cleared_if reset c pi in
    let b = bound c (peer_at d pi) ack.root_session_id c.local_session ack.capabilities in
    let q : Peer = record b { last_ack_ms = c.now } in
    let e : peer_at (bind ack (c, some pi)).0 pi ≡ q =
      get_or-set_self d.peers pi q zero_peer (omega (arith, cleared_if-length reset c pi)) in
    (
      ap (λ (p : Peer). p.ready) e,
      ap (λ (p : Peer). p.root_session_id) e,
      ap (λ (p : Peer). p.node_session_id) e,
    )

handle_hello-welcome :
    (root root' : Ctx) (from ri : ℕ) (node : Ctx) (ni : ℕ) (tag : List ℕ)
    (uptime_s capabilities : ℕ)
    → root.cfg.root_role ≡ true
    → peer_find root from true ≡ (root', some ri)
    → let hello = hello_of_node node ni tag uptime_s capabilities in
      handle_hello root from hello ≡ welcome from hello (root', some ri)
unfolding handle_hello hello_of_node
handle_hello-welcome root root' from ri node ni tag uptime_s capabilities r e =
    let hello = hello_of_node node ni tag uptime_s capabilities in
    if_false {b = not root.cfg.root_role || not (hello.profile_version == profile_version)} _ _
      (ap (λ b. not b || false) r)
    ∙ if_false
        {b = not (capable hello.capabilities)
          || ltb hello.mtu (hdr_size + reliable_hdr_size + 1)
          || ltb hello.reorder_window window}
        _ _ (ap (λ b. not b || false || false) (capable_or capabilities))
    ∙ ap (welcome from hello) e

both_tests :
    (root_role : Bool) (a b : ℕ)
    → root_role ≡ false
    → a ≡ b
    → (root_role || false || not (a == b) || false) ≡ false
both_tests root_role a b r e = ground arith

handle_hello_ack-bind :
    (node node' : Ctx) (from ni : ℕ) (root : Ctx) (hello : Hello) (reset : Bool)
    → node.cfg.root_role ≡ false
    → hello.node_session_id ≡ node.local_session
    → peer_find node from true ≡ (node', some ni)
    → let ack = hello_reply root hello reset in
      handle_hello_ack node from ack ≡ bind ack (node', some ni)
unfolding handle_hello_ack
handle_hello_ack-bind node node' from ni root hello reset r s e =
    let ack = hello_reply root hello reset in
    if_false
      {b = node.cfg.root_role
        || not (ack.profile_version == profile_version)
        || not (ack.node_session_id == node.local_session)
        || not (capable ack.capabilities)}
      _ _ (both_tests node.cfg.root_role hello.node_session_id node.local_session r s)
    ∙ ap (bind ack) e

-- The handshake works: the HELLO of a node is one that the root accepts, whatever capabilities the
-- node adds, and the root's HELLO_ACK is one that the node accepts; afterwards both sides are ready,
-- and their records of each other hold the same pair of sessions, the root's own and the node's own.
-- The conditions are that one side is the root and the other is not, and that each has, or has room
-- for, a record of the other; the node's HELLO was made in a state of the same session.
pub handshake_lem :
    (root root' node node' asking : Ctx) (from_node from_root ri ni ai : ℕ) (tag : List ℕ)
    (uptime_s capabilities : ℕ)
    → root.cfg.root_role ≡ true
    → node.cfg.root_role ≡ false
    → asking.local_session ≡ node.local_session
    → peer_find root from_node true ≡ (root', some ri)
    → ri < length root'.peers
    → peer_find node from_root true ≡ (node', some ni)
    → ni < length node'.peers
    → let hello = hello_of_node asking ai tag uptime_s capabilities in
      let ack = hello_reply root' hello (hello_resets root' (peer_at root' ri) hello) in
      let r = peer_at (handle_hello root from_node hello).0 ri in
      let n = peer_at (handle_hello_ack node from_root ack).0 ni in
      (r.ready ≡ true)
      × (n.ready ≡ true)
      × (r.root_session_id ≡ root.local_session)
      × (n.root_session_id ≡ root.local_session)
      × (r.node_session_id ≡ node.local_session)
      × (n.node_session_id ≡ node.local_session)
unfolding hello_of_node
handshake_lem root root' node node' asking from_node from_root ri ni ai tag uptime_s capabilities rr
      nr s re rl ne nl =
    let hello = hello_of_node asking ai tag uptime_s capabilities in
    let reset = hello_resets root' (peer_at root' ri) hello in
    let ack = hello_reply root' hello reset in
    let h =
      handle_hello-welcome root root' from_node ri asking ai tag uptime_s capabilities rr re in
    let b = handle_hello_ack-bind node node' from_root ni root' hello reset nr s ne in
    let (r1, r2, r3) = welcome-peer root' from_node hello ri rl in
    let (n1, n2, n3) = bind-peer node' ack ni nl in
    let root_same : root'.local_session ≡ root.local_session =
      found_session root from_node root' ri re in
    let node_same : node'.local_session ≡ node.local_session =
      found_session node from_root node' ni ne in
    (
      ap (λ (x : Ctx × Esp). (peer_at x.0 ri).ready) h ∙ r1,
      ap (λ (x : Ctx × Esp). (peer_at x.0 ni).ready) b ∙ n1,
      ap (λ (x : Ctx × Esp). (peer_at x.0 ri).root_session_id) h ∙ r2 ∙ root_same,
      ap (λ (x : Ctx × Esp). (peer_at x.0 ni).root_session_id) b ∙ n2 ∙ root_same,
      ap (λ (x : Ctx × Esp). (peer_at x.0 ri).node_session_id) h ∙ r3 ∙ s,
      ap (λ (x : Ctx × Esp). (peer_at x.0 ni).node_session_id) b ∙ n3 ∙ node_same,
    )
