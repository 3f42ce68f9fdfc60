-- ===== src/Rel/Clearing.antt =====
-- keemash_mesh_core.c: what `clear_peer_buffers` leaves of a peer, and of the other peers.
pub mod Reports
pub use Reports.*
use keemash_core.Base.{
  ℕ, zero, suc, ◌+◌, ◌<◌, Bool, true, false, ◌&&◌, List, [], ◌∷◌, ◌==◌, if◌then◌else◌, if_keeps,
  u32, sub32, length, clear_if, count_if, count_if-clear_if, get_or-set_self, get_or-set_ne,
  clear_if-clear_other, sym, subst, not, All, All-replicate, replicate, get_or-set_view, length-set,
  ◌≡◌, ◌≢◌, refl, ap, ◌∙◌, arith,
}
use keemash_core.Rel.{
  Action, event, TxSlot, RxSlot, ReSlot, Peer, Ctx, peer_at, zero_tx, zero_rx, zero_reassembly,
  zero_peer, Range, zero_range,
}
use keemash_core.Rel.Peers.{set_peer, peer_send_mac}
use keemash_core.Rel.Radio.{notify_event}
use keemash_core.Rel.Tables.{
  owns_tx, owns_rx, owns_reassembly, tx_unacked, rx_depth, reassembly_depth,
}
use keemash_core.Rel.Loss.{
  record_lost, span_of, lose_rx, lose_reassembly, lose_tx, restarted, unless_to, clear_peer_buffers,
}

-- What `clear_peer_buffers` leaves of a peer's record.
abbrev pub untouched : Peer → Peer
untouched p = record p {
  ready = false;
  next_seq = [];
  expected_seq = [];
  pending_lost = [];
  lost_reason = 0;
  lost_count = 0;
}

-- After `clear_peer_buffers` of a peer in the table, the peer owns no slot for retransmission, no
-- reorder slot and no reassembly slot; it is not ready, each of the channels 1 to 9 starts again with
-- sequence number 1 in both directions, no lost range is pending, and nothing else of its record
-- has changed, except for the count of losses and their last reason.
pub clear_peer_buffers_lem :
    (c : Ctx) (pi reason : ℕ)
    → pi < length c.peers
    → let d = clear_peer_buffers c pi reason in
      (tx_unacked d (peer_at d pi) ≡ 0)
      × (rx_depth d (peer_at d pi) ≡ 0)
      × (reassembly_depth d (peer_at d pi) ≡ 0)
      × ((peer_at d pi).ready ≡ false)
      × ((peer_at d pi).next_seq ≡ 0 ∷ replicate 9 1)
      × ((peer_at d pi).expected_seq ≡ 0 ∷ replicate 9 1)
      × All (λ (r : Range). r.used ≡ false) (peer_at d pi).pending_lost
      × (untouched (peer_at d pi) ≡ untouched (peer_at c pi))
unfolding tx_unacked rx_depth reassembly_depth
clear_peer_buffers_lem c pi reason h =
    let p = peer_at c pi in
    let d = clear_peer_buffers c pi reason in
    let e = clear-peer c pi reason h in
    let m : (peer_at d pi).mac ≡ p.mac = ap (λ (q : Peer). q.mac) e in
    let t = clear-tables c pi reason in
    (
      ap (λ n. count_if (λ (s : TxSlot). s.used && (s.peer == n)) d.tx) m
          ∙ ap (λ (v : List TxSlot × List RxSlot × List ReSlot). count_if (owns_tx p) v.0) t
          ∙ count_if-clear_if (owns_tx p) zero_tx c.tx refl,
      ap (λ n. count_if (λ (s : RxSlot). s.used && (s.peer == n)) d.rx) m
          ∙ ap (λ (v : List TxSlot × List RxSlot × List ReSlot). count_if (owns_rx p) v.1) t
          ∙ count_if-clear_if (owns_rx p) zero_rx c.rx refl,
      ap (λ n. count_if (λ (s : ReSlot). s.used && (s.peer == n)) d.reassembly) m
          ∙ ap (λ (v : List TxSlot × List RxSlot × List ReSlot). count_if (owns_reassembly p) v.2) t
          ∙ count_if-clear_if (owns_reassembly p) zero_reassembly c.reassembly refl,
      ap (λ (q : Peer). q.ready) e,
      ap (λ (q : Peer). q.next_seq) e,
      ap (λ (q : Peer). q.expected_seq) e,
      subst (All (λ (r : Range). r.used ≡ false)) (sym (ap (λ (q : Peer). q.pending_lost) e))
          (All-replicate (λ (r : Range). r.used ≡ false) 8 zero_range refl),
      ap untouched e,
    )

other_owner :
    (used : Bool) (owner m n : ℕ)
    → m ≢ n
    → (used && (owner == m)) ≡ true
    → (used && (owner == n)) ≡ false
other_owner used owner m n h e = ground arith

record_lost-others :
    (pi j : ℕ)
    → pi ≢ j
    → (c : Ctx) (channel reason first last count : ℕ)
    → peer_at (record_lost c pi channel reason first last count) j ≡ peer_at c j
unfolding record_lost
record_lost-others pi j h c channel reason first last count =
    notify-keeps (λ d. peer_at d j) (set_peer c pi (lost_peer c pi reason count))
      (lost_peer c pi reason count) channel reason first last (λ t. refl)
    ∙ get_or-set_ne c.peers (lost_peer c pi reason count) zero_peer h

-- The tables as a peer sees them: the slots of others are blank, each slot stays at its index.
abbrev pub own_tx : Peer → Ctx → List TxSlot
own_tx q c = clear_if (λ (s : TxSlot). not (owns_tx q s)) zero_tx c.tx

abbrev pub own_rx : Peer → Ctx → List RxSlot
own_rx q c = clear_if (λ (s : RxSlot). not (owns_rx q s)) zero_rx c.rx

abbrev pub own_reassembly : Peer → Ctx → List ReSlot
own_reassembly q c =
    clear_if (λ (s : ReSlot). not (owns_reassembly q s)) zero_reassembly c.reassembly

-- `clear_peer_buffers` of one peer leaves every other peer alone: the record of the peer at another
-- index is the same, and a peer with another key owns the same slots of each table as before, at the
-- same places and with the same contents.
pub clear_peer_buffers_others :
    (c : Ctx) (pi reason j : ℕ) (q : Peer)
    → pi ≢ j
    → (peer_at c pi).mac ≢ q.mac
    → let d = clear_peer_buffers c pi reason in
      (peer_at d j ≡ peer_at c j)
      × (own_tx q d ≡ own_tx q c)
      × (own_rx q d ≡ own_rx q c)
      × (own_reassembly q d ≡ own_reassembly q c)
clear_peer_buffers_others c pi reason j q h g =
    let p = peer_at c pi in
    let t = clear-tables c pi reason in
    (
      clear-keeps (λ d. peer_at d j) pi (record_lost-others pi j h) c reason
          (λ d. get_or-set_ne d.peers (restarted (peer_at d pi)) zero_peer h),
      ap
            (λ (v : List TxSlot × List RxSlot × List ReSlot).
              clear_if (λ (s : TxSlot). not (owns_tx q s)) zero_tx v.0)
            t
          ∙ clear_if-clear_other (owns_tx p) (owns_tx q) zero_tx c.tx
              (λ s. other_owner s.used s.peer p.mac q.mac g),
      ap
            (λ (v : List TxSlot × List RxSlot × List ReSlot).
              clear_if (λ (s : RxSlot). not (owns_rx q s)) zero_rx v.1)
            t
          ∙ clear_if-clear_other (owns_rx p) (owns_rx q) zero_rx c.rx
              (λ s. other_owner s.used s.peer p.mac q.mac g),
      ap
            (λ (v : List TxSlot × List RxSlot × List ReSlot).
              clear_if (λ (s : ReSlot). not (owns_reassembly q s)) zero_reassembly v.2)
            t
          ∙ clear_if-clear_other (owns_reassembly p) (owns_reassembly q) zero_reassembly
              c.reassembly (λ s. other_owner s.used s.peer p.mac q.mac g),
    )
