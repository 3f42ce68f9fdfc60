-- ===== src/Rel/Loss.antt =====
-- keemash_mesh_core.c: recording losses, the ranges known to be lost, and `clear_peer_buffers`.
use keemash_core.Base.{
  ℕ, zero, suc, ◌+◌, Bool, true, false, not, ◌&&◌, ◌||◌, Option, none, some, List, [], ◌∷◌, ◌==◌,
  if◌then◌else◌, u32, inc32, sub32, get_or, set, find_index, clear_if, count_if, replicate,
}
use keemash_core.Proto.{pending_lost_ranges}
use keemash_core.Rel.{
  TxSlot, RxSlot, ReSlot, Range, Peer, Kept, Ctx, peer_at, zero_tx, zero_rx, zero_reassembly,
  zero_range,
}
use keemash_core.Rel.Peers.{peer_send_mac, set_peer, first_seqs}
use keemash_core.Rel.Radio.{notify_event}
use keemash_core.Rel.Tables.{
  seq_before, seq_after, seq_in_range, owns_tx, owns_rx, owns_reassembly, on_channel_tx,
}

-- `record_lost`
unfoldable pub record_lost : Ctx → ℕ → ℕ → ℕ → ℕ → ℕ → ℕ → Ctx
unfolding notify_event
record_lost ctx pi channel reason first last count =
    let p = peer_at ctx pi in
    let p' : Peer = record p {
      lost_reason = reason;
      lost_count = u32 (p.lost_count + (if count == 0 then 1 else count));
    } in
    notify_event (set_peer ctx pi p') p' channel reason first last

-- What `clear_peer_buffers` gathers of one channel's unacknowledged packets: `first`, `last` and
-- `count` of the source at that channel.
pub record Span : Type 0 where
  pub first : ℕ
  pub last : ℕ
  pub count : ℕ

abbrev pub widen : Span → TxSlot → Span
widen s slot = record {
  first = if (s.count == 0) || seq_before slot.seq s.first then slot.seq else s.first;
  last = if (s.count == 0) || seq_after slot.seq s.last then slot.seq else s.last;
  count = inc32 s.count;
}

unfoldable pub span_of : Peer → ℕ → Span → List TxSlot → Span
span_of p channel s [] = s
span_of p channel s (slot ∷ rest) =
    span_of p channel (if on_channel_tx p channel slot then widen s slot else s) rest

-- A packet that fault injection holds for this address is dropped.
abbrev pub unless_to : ℕ → Option Kept → Option Kept
unless_to dst none = none
unless_to dst (some k) = if k.dst == dst then none else some k

-- The loops over the reorder and the reassembly slots report each slot of the peer.
unfoldable pub lose_rx : Ctx → ℕ → ℕ → List RxSlot → Ctx
lose_rx ctx pi reason [] = ctx
lose_rx ctx pi reason (s ∷ rest) =
    lose_rx
      (if owns_rx (peer_at ctx pi) s
        then record_lost ctx pi s.channel reason s.seq s.seq 1
        else ctx)
      pi reason rest

unfoldable pub lose_reassembly : Ctx → ℕ → ℕ → List ReSlot → Ctx
lose_reassembly ctx pi reason [] = ctx
lose_reassembly ctx pi reason (s ∷ rest) =
    let last = sub32 (s.first_seq + s.fragment_count) 1 in
    lose_reassembly
      (if owns_reassembly (peer_at ctx pi) s
        then record_lost ctx pi s.channel reason s.first_seq last s.fragment_count
        else ctx)
      pi reason rest

-- The last loop, over the channels from `channel` on, `left` of them to go.
unfoldable pub lose_tx : Ctx → ℕ → ℕ → List TxSlot → ℕ → ℕ → Ctx
unfolding span_of
lose_tx ctx pi reason tx channel zero = ctx
lose_tx ctx pi reason tx channel (suc left) =
    let s = span_of (peer_at ctx pi) channel (record { first = 0; last = 0; count = 0 }) tx in
    lose_tx (if s.count == 0 then ctx else record_lost ctx pi channel reason s.first s.last s.count)
      pi reason tx (channel + 1) left

-- The peer with its sequence spaces started again.
abbrev pub restarted : Peer → Peer
restarted p = record p {
  next_seq = first_seqs;
  expected_seq = first_seqs;
  pending_lost = replicate 8 zero_range;
  ready = false;
}

-- `clear_peer_buffers`
unfoldable pub clear_peer_buffers : Ctx → ℕ → ℕ → Ctx
unfolding lose_rx lose_reassembly lose_tx
clear_peer_buffers ctx pi reason =
    let p = peer_at ctx pi in
    let dst = peer_send_mac ctx p in
    let emptied : Ctx = record ctx {
      held = unless_to dst ctx.held;
      delayed = unless_to dst ctx.delayed;
      tx = clear_if (owns_tx p) zero_tx ctx.tx;
      rx = clear_if (owns_rx p) zero_rx ctx.rx;
      reassembly = clear_if (owns_reassembly p) zero_reassembly ctx.reassembly;
    } in
    let reported = lose_reassembly (lose_rx emptied pi reason ctx.rx) pi reason ctx.reassembly in
    lose_tx (set_peer reported pi (restarted (peer_at reported pi))) pi reason ctx.tx 1 9

-- Two ranges of a channel overlap or touch.
abbrev pub touches : ℕ → ℕ → Range → Bool
touches first last r =
    seq_in_range first r.first r.last
    || seq_in_range last r.first r.last
    || seq_in_range r.first first last
    || seq_in_range r.last first last
    || (inc32 r.last == first)
    || (inc32 last == r.first)

abbrev pub stretch : Range → ℕ → ℕ → Range
stretch r first last = record r {
  first = if seq_before first r.first then first else r.first;
  last = if seq_after last r.last then last else r.last;
}

abbrev pub of_channel : ℕ → Range → Bool
of_channel channel r = r.used && (r.channel == channel)

-- The inner loop of `pending_lost_add`: the range at index `i` takes in every other range that it
-- touches. `j` is the index of the head of the list.
unfoldable pub absorb : ℕ → ℕ → ℕ → Range → List Range → Range × List Range
absorb i channel j range [] = (range, [])
absorb i channel j range (other ∷ rest) =
    let join = not (i == j) && of_channel channel other && touches other.first other.last range in
    let (range', rest') =
      absorb i channel (j + 1) (if join then stretch range other.first other.last else range)
        rest in
    (range', (if join then zero_range else other) ∷ rest')

pub record Merge : Type 0 where
  pub ranges : List Range
  pub first : ℕ
  pub last : ℕ

merge_at : ℕ → Merge → ℕ → Merge
unfolding absorb
merge_at channel m i =
    let range = stretch (get_or m.ranges i zero_range) m.first m.last in
    let (range', ranges') = absorb i channel 0 range m.ranges in
    record { ranges = set ranges' i range'; first = range'.first; last = range'.last }

-- The outer loop of `pending_lost_add`, with `left` passes to go.
unfoldable pub merge_passes : ℕ → ℕ → Merge → Merge
unfolding merge_at
merge_passes zero channel m = m
merge_passes (suc left) channel m =
    elim (find_index (λ r. of_channel channel r && touches m.first m.last r) m.ranges) [
      | none ↦ m
      | some i ↦ merge_passes left channel (merge_at channel m i)
    ]

-- The end of `pending_lost_add`: the range is covered, or takes a free entry, or does not fit.
store_range : ℕ → Merge → List Range × Bool
store_range channel m =
    let covered = λ (r : Range).
      of_channel channel r
      && seq_in_range m.first r.first r.last
      && seq_in_range m.last r.first r.last in
    if not (count_if covered m.ranges == 0)
    then (m.ranges, true)
    else elim (find_index (λ (r : Range). not r.used) m.ranges) [
      | none ↦ (m.ranges, false)
      | some i ↦ (
        set m.ranges i (record { used = true; channel = channel; first = m.first; last = m.last }),
        true,
      )
    ]

-- `pending_lost_add`, over the peer's table.
unfoldable pub pending_lost_add : List Range → ℕ → ℕ → ℕ → List Range × Bool
unfolding store_range merge_passes
pending_lost_add ranges channel first last = store_range channel (
    merge_passes pending_lost_ranges channel
      (record { ranges = ranges; first = first; last = last }))
