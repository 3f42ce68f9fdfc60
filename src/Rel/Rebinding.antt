-- ===== src/Rel/Rebinding.antt =====
-- keemash_mesh_core.c: a HELLO_ACK that comes twice. The transport may duplicate it, and a HELLO that is
-- sent again is answered again; frames may have been queued in between.
use keemash_core.Base.{
  ℕ, true, false, not, ◌||◌, some, List, ◌==◌, if_true, if_false, Bool-cases, get_or-set_view, inl,
  inr, ◌≡◌, refl, ap, ◌∙◌, arith,
}
use keemash_core.Proto.{Esp, ok, invalid_state, profile_version}
use keemash_core.Wire.Frames.{HelloAck}
use keemash_core.Rel.{Range, Peer, Ctx, peer_at, zero_peer}
use keemash_core.Rel.Peers.{peer_find, set_peer}
use keemash_core.Rel.Clearing.{tables}
use keemash_core.Rel.Handshake.{capable, bound, same_binding, ack_resets, bind, handle_hello_ack}
use keemash_core.Rel.Binding.{cleared_if}

same_binding-keeps :
    (p : Peer) (ack : HelloAck) → same_binding p ack ≡ true → ack_resets p ack ≡ false
same_binding-keeps p ack h = ground arith

-- Where a peer stands in its sequences.
abbrev pub progress : Peer → List ℕ × List ℕ × List Range
progress p = (p.next_seq, p.expected_seq, p.pending_lost)

bind-progress :
    (c : Ctx) (pi : ℕ) (ack : HelloAck)
    → same_binding (peer_at c pi) ack ≡ true
    → let d = (bind ack (c, some pi)).0 in
      (tables d ≡ tables c)
      × (progress (peer_at d pi) ≡ progress (peer_at c pi))
      × (d.trace ≡ c.trace)
unfolding bind
bind-progress c pi ack h =
    let after = λ (e : Ctx).
      record (bound c (peer_at e pi) ack.root_session_id c.local_session ack.capabilities) {
        last_ack_ms = c.now;
      } in
    let same : cleared_if (ack_resets (peer_at c pi) ack) c pi ≡ c =
      if_false _ c (same_binding-keeps (peer_at c pi) ack h) in
    (
      ap tables same,
      ap (λ (e : Ctx). progress (peer_at (set_peer e pi (after e)) pi)) same
          ∙ get_or-set_view progress c.peers pi (after c) zero_peer refl,
      ap (λ (e : Ctx). e.trace) same,
    )

-- An accepted HELLO_ACK for the binding that is already installed is idempotent: whatever its
-- `reset_link` says, the slots for retransmission, reordering and reassembly stay as they are, the
-- channels stand where they stood, and nothing is reported as lost.
pub repeated_hello_ack :
    (c c' : Ctx) (from pi : ℕ) (ack : HelloAck)
    → peer_find c from true ≡ (c', some pi)
    → same_binding (peer_at c' pi) ack ≡ true
    → (handle_hello_ack c from ack).1 ≡ ok
    → let d = (handle_hello_ack c from ack).0 in
      (tables d ≡ tables c')
      × (progress (peer_at d pi) ≡ progress (peer_at c' pi))
      × (d.trace ≡ c'.trace)
unfolding handle_hello_ack
repeated_hello_ack c c' from pi ack e h accepted =
    let refused =
      c.cfg.root_role
      || not (ack.profile_version == profile_version)
      || not (ack.node_session_id == c.local_session)
      || not (capable ack.capabilities) in
    let accept = bind ack (peer_find c from true) in
    elim (Bool-cases refused) [
      | inl r ↦
          let v : (handle_hello_ack c from ack).1 ≡ invalid_state =
            ap (λ (x : Ctx × Esp). x.1) (if_true (c, invalid_state) accept r) in
          absurd (ground (arith, v, accepted))
      | inr r ↦
          let v : handle_hello_ack c from ack ≡ bind ack (c', some pi) =
            if_false (c, invalid_state) accept r ∙ ap (bind ack) e in
          let (t, q, n) = bind-progress c' pi ack h in
          (
            ap (λ (x : Ctx × Esp). tables x.0) v ∙ t,
            ap (λ (x : Ctx × Esp). progress (peer_at x.0 pi)) v ∙ q,
            ap (λ (x : Ctx × Esp). x.0.trace) v ∙ n,
          )
    ]
