-- ===== src/Rel/Reading.antt =====
-- keemash_mesh_core.c: what the calls that read a peer's state do and answer.
use keemash_core.Base.{
  ℕ, ◌≤◌, ◌≡◌, refl, Bool, false, not, ◌&&◌, ◌||◌, Option, none, some, List, [], ◌∷◌, arith, ◌==◌,
  leb, if_either, find_index, count_if,
}
use keemash_core.Proto.{channel_count}
use keemash_core.Rel.{Ctx, Peer, TxSlot, peer_at}
use keemash_core.Rel.Tables.{owns_tx, on_channel_tx, tx_unacked, channel_unacked}
use keemash_core.Rel.Peers.{peer_find, found_peer, find_or_add, is_peer, peer_key, set_peer}
use keemash_core.Rel.Status.{
  PeerStats, zero_stats, stats_of, read_found, stats, peer_ready, peer_capabilities, unacked_on,
}

-- Nothing changes or, on a node, the address that was asked for becomes the one of the peer.
pub data Reads (ctx : Ctx) (mac : ℕ) : Ctx → Type 0 where
  unchanged : Reads ctx mac ctx
  redirected :
      (i : ℕ)
      → ctx.cfg.root_role ≡ false
      → (mac == 0) ≡ false
      → Reads ctx mac (set_peer ctx i (record (peer_at ctx i) { remote_mac = mac }))

find_or_add-Reads :
    (ctx : Ctx) (mac : ℕ) (found : Option ℕ) → Reads ctx mac (find_or_add ctx mac false found).0
unfolding find_or_add found_peer
find_or_add-Reads ctx mac none = unchanged
find_or_add-Reads ctx mac (some i) =
    if_either (λ (r : Ctx × Option ℕ). Reads ctx mac r.0) (not ctx.cfg.root_role && not (mac == 0))
      (λ e. redirected i (ground (arith, e)) (ground (arith, e))) (λ _. unchanged)

channel_unacked_le :
    (p : Peer) (channel : ℕ) (slots : List TxSlot)
    → count_if (on_channel_tx p channel) slots ≤ count_if (owns_tx p) slots
channel_unacked_le p channel [] = omega arith
channel_unacked_le p channel (s ∷ slots) = ground (arith, channel_unacked_le p channel slots)

-- The readings of one peer agree.
abbrev pub Agree : PeerStats → Bool → ℕ → ℕ → Type 0
Agree all ready capabilities unacked =
    (ready ≡ all.ready) × ((capabilities ≡ all.capabilities) × (unacked ≤ all.tx_unacked))

found-Agree :
    (channel : ℕ) (r : Ctx × Option ℕ)
    → Agree
        (read_found zero_stats stats_of r).1
        (read_found false (λ (found : Ctx) (p : Peer). p.ready) r).1
        (read_found 0 (λ (found : Ctx) (p : Peer). p.capabilities) r).1
        (read_found 0 (λ (found : Ctx) (p : Peer). channel_unacked found p channel) r).1
unfolding tx_unacked channel_unacked
found-Agree channel (ctx, none) = (refl, (refl, omega arith))
found-Agree channel (ctx, some i) =
    (refl, (refl, channel_unacked_le (peer_at ctx i) channel ctx.tx))

read_found-Reads :
    (ctx : Ctx) (mac : ℕ) {A : Type 0} (absent : A) (read : Ctx → Peer → A) (r : Ctx × Option ℕ)
    → Reads ctx mac r.0
    → Reads ctx mac (read_found absent read r).0
read_found-Reads ctx mac absent read (found, none) h = h
read_found-Reads ctx mac absent read (found, some i) h = h

-- The calls that read a peer change nothing on the root, nor for the zero address; on a node they make
-- at most the address that was asked for the one its packets are sent to. What they answer agrees:
-- ready and capabilities are those of `stats`, and no channel has more packets waiting than the peer.
pub reading-Agree :
    (ctx : Ctx) (mac channel : ℕ)
    → (Reads ctx mac (stats ctx mac).0
        × (Reads ctx mac (peer_ready ctx mac).0
            × (Reads ctx mac (peer_capabilities ctx mac).0
                × Reads ctx mac (unacked_on ctx mac channel).0)))
      × Agree
          (stats ctx mac).1
          (peer_ready ctx mac).1
          (peer_capabilities ctx mac).1
          (unacked_on ctx mac channel).1
unfolding stats peer_ready peer_capabilities unacked_on peer_find
reading-Agree ctx mac channel =
    let r = peer_find ctx mac false in
    let h : Reads ctx mac r.0 =
      find_or_add-Reads ctx mac (find_index (is_peer (peer_key ctx.cfg mac)) ctx.peers) in
    let a = found-Agree channel r in
    let read : Ctx → Peer → ℕ = λ (found : Ctx) (p : Peer). channel_unacked found p channel in
    let unacked : Reads ctx mac (unacked_on ctx mac channel).0
        × ((unacked_on ctx mac channel).1 ≤ (stats ctx mac).1.tx_unacked) =
      if_either (λ (u : Ctx × ℕ). Reads ctx mac u.0 × (u.1 ≤ (stats ctx mac).1.tx_unacked))
        ((channel == 0) || leb channel_count channel) (λ _. (unchanged, omega arith))
        (λ _. (read_found-Reads ctx mac 0 read r h, a.1.1)) in
    (
      (
        read_found-Reads ctx mac zero_stats stats_of r h,
        (
          read_found-Reads ctx mac false (λ (found : Ctx) (p : Peer). p.ready) r h,
          (read_found-Reads ctx mac 0 (λ (found : Ctx) (p : Peer). p.capabilities) r h, unacked.0),
        ),
      ),
      (a.0, (a.1.0, unacked.1)),
    )
