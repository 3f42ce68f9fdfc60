-- ===== src/Rel/Desk.antt =====
-- keemash_mesh_core.c: what `consume_contiguous` reads, and that the functions it calls leave it alone.
use keemash_core.Base.{
  ℕ, ◌+◌, ◌-◌, ◌^◌, ◌<◌, Bool, not, ◌||◌, Option, none, some, List, leb, ◌==◌, if_keeps, u16, take,
  inc32, sub32, length, length-set, get_or, set, count_if, find_index, All, get_or-set_self,
  get_or-set_view, ◌≡◌, refl, ap, ◌∙◌,
}
use keemash_core.Wire.{RelHdr}
use keemash_core.Rel.{
  RxSlot, Range, Peer, Ctx, peer_at, zero_rx, zero_range, zero_peer, zero_reassembly,
}
use keemash_core.Rel.Peers.{set_peer}
use keemash_core.Rel.Air.{send_packet-quiet}
use keemash_core.Rel.Tables.{free_reassembly, reassembly_depth, find_or_open, open_slot}
use keemash_core.Rel.Clearing.{notify-keeps, lost_peer}
use keemash_core.Rel.Loss.{record_lost}
use keemash_core.Rel.Deliver.{
  with_fragment, sum, deliver_to, collect, send_lost_packet, set_expected, expected_at,
}
use keemash_core.Rel.Consume.{skip_range, unload}

abbrev pub used_rx : RxSlot → Bool
used_rx s = s.used

abbrev pub used_range : Range → Bool
used_range r = r.used

-- What `consume_contiguous` works on: the reorder slots, and the peer's numbers and pending ranges.
pub record Desk : Type 0 where
  pub rx : List RxSlot
  pub expected : List ℕ
  pub pending : List Range
  pub peers : ℕ

module _ (pi : ℕ) where
  abbrev pub desk : Ctx → Desk
  desk c = record {
    rx = c.rx;
    expected = (peer_at c pi).expected_seq;
    pending = (peer_at c pi).pending_lost;
    peers = length c.peers;
  }

-- How much there is to consume.
abbrev pub load : Desk → ℕ
load d = count_if used_rx d.rx + count_if used_range d.pending

-- A reorder slot holds the packet that it is filed under.
abbrev pub IsFiled : RxSlot → Type 0
IsFiled s = (s.hdr.seq ≡ s.seq) × (s.hdr.channel_id ≡ s.channel)

pub record IsDesk (pi channel : ℕ) (d : Desk) : Type 0 where
  pub filed : All IsFiled d.rx
  pub peer_lt : pi < d.peers
  pub channel_lt : channel < length d.expected
  pub seq_lt : get_or d.expected channel 0 < 2 ^ 32

-- The steps of the loop, on the desk.
abbrev pub skipped : ℕ → ℕ → Desk → Desk
skipped channel i d = record d {
  expected = set d.expected channel (inc32 (get_or d.pending i zero_range).last);
  pending = set d.pending i zero_range;
}

abbrev pub unloaded : ℕ → ℕ → Desk → Desk
unloaded channel j d = record d {
  rx = set d.rx j zero_rx;
  expected = set d.expected channel (inc32 (get_or d.expected channel 0));
}

pub desk-set :
    (c : Ctx) (pi : ℕ) (p : Peer)
    → pi < length c.peers
    → desk pi (set_peer c pi p) ≡ (record {
      rx = c.rx;
      expected = p.expected_seq;
      pending = p.pending_lost;
      peers = length c.peers;
    })
desk-set c pi p h = λ i. record {
  rx = c.rx;
  expected = (get_or-set_self c.peers pi p zero_peer h i).expected_seq;
  pending = (get_or-set_self c.peers pi p zero_peer h i).pending_lost;
  peers = length-set c.peers pi p i;
}

-- A write to the peer that leaves its numbers and ranges alone.
pub desk-set_other :
    (c : Ctx) (pi : ℕ) (p : Peer)
    → p.expected_seq ≡ (peer_at c pi).expected_seq
    → p.pending_lost ≡ (peer_at c pi).pending_lost
    → desk pi (set_peer c pi p) ≡ desk pi c
desk-set_other c pi p e l = λ i. record {
  rx = c.rx;
  expected = get_or-set_view (λ (q : Peer). q.expected_seq) c.peers pi p zero_peer e i;
  pending = get_or-set_view (λ (q : Peer). q.pending_lost) c.peers pi p zero_peer l i;
  peers = length-set c.peers pi p i;
}

pub desk-skip_range :
    (c : Ctx) (pi channel i : ℕ)
    → pi < length c.peers
    → desk pi (skip_range c pi channel i) ≡ skipped channel i (desk pi c)
unfolding skip_range
desk-skip_range c pi channel i h =
    let p = peer_at c pi in
    desk-set c pi
      (record p {
        expected_seq = set p.expected_seq channel (inc32 (get_or p.pending_lost i zero_range).last);
        pending_lost = set p.pending_lost i zero_range;
      })
      h

pub desk-set_expected :
    (c : Ctx) (pi channel seq : ℕ)
    → pi < length c.peers
    → desk pi (set_expected c pi channel seq)
      ≡ (record (desk pi c) { expected = set (peer_at c pi).expected_seq channel seq })
desk-set_expected c pi channel seq h =
    desk-set c pi
      (record (peer_at c pi) { expected_seq = set (peer_at c pi).expected_seq channel seq }) h

pub desk-unload :
    (c : Ctx) (pi channel j : ℕ)
    → pi < length c.peers
    → desk pi (unload c pi channel j) ≡ unloaded channel j (desk pi c)
unfolding unload
desk-unload c pi channel j h =
    desk-set_expected (record c { rx = set c.rx j zero_rx }) pi channel
      (inc32 (expected_at c pi channel)) h

pub desk-deliver_to :
    (c : Ctx) (pi : ℕ) (p : Peer) (channel : ℕ) (payload : List ℕ) (stream : ℕ)
    → desk pi (deliver_to c p channel payload stream) ≡ desk pi c
desk-deliver_to c pi p channel payload stream = if_keeps (desk pi) c.cfg.has_deliver refl refl

pub desk-collect :
    (c : Ctx) (pi : ℕ) (rh : RelHdr) (payload : List ℕ) (i : ℕ)
    → desk pi (collect c pi rh payload i) ≡ desk pi c
unfolding collect
desk-collect c pi rh payload i =
    let s = with_fragment c rh payload (get_or c.reassembly i zero_reassembly) in
    if_keeps (desk pi) (s.received_mask == u16 (2 ^ rh.fragment_count - 1))
      (desk-deliver_to c pi (peer_at c pi) s.channel
        (take (sum (take s.fragment_count s.fragment_len)) s.data_bytes) s.stream_id)
      refl

pub desk-open_slot :
    (c : Ctx) (pi : ℕ) (p : Peer) (rh : RelHdr) (o : Option ℕ)
    → desk pi (open_slot c p rh o).0 ≡ desk pi c
unfolding open_slot
desk-open_slot c pi p rh none = refl
desk-open_slot c pi p rh (some i) = refl

pub desk-find_or_open :
    (c : Ctx) (pi : ℕ) (p : Peer) (rh : RelHdr) (o : Option ℕ)
    → desk pi (find_or_open c p rh o).0 ≡ desk pi c
unfolding find_or_open
desk-find_or_open c pi p rh (some i) =
    let s = get_or c.reassembly i zero_reassembly in
    if_keeps (λ (r : Ctx × Option ℕ). desk pi r.0)
      (not (s.fragment_count == rh.fragment_count)
        || not (s.first_seq == sub32 rh.seq rh.fragment_index))
      refl refl
desk-find_or_open c pi p rh none =
    if_keeps (λ (r : Ctx × Option ℕ). desk pi r.0)
      (leb c.cfg.per_peer_reassembly_slots (reassembly_depth c p)) refl
      (desk-open_slot c pi p rh (find_index free_reassembly c.reassembly))

pub desk-record_lost :
    (c : Ctx) (pi channel reason first last count : ℕ)
    → desk pi (record_lost c pi channel reason first last count) ≡ desk pi c
unfolding record_lost
desk-record_lost c pi channel reason first last count =
    let p = lost_peer c pi reason count in
    notify-keeps (desk pi) (set_peer c pi p) p channel reason first last (λ t. refl)
    ∙ desk-set_other c pi p refl refl

pub desk-send_lost_packet :
    (c : Ctx) (pi channel reason flags first last : ℕ)
    → desk pi (send_lost_packet c pi channel reason flags first last).0 ≡ desk pi c
unfolding send_lost_packet
desk-send_lost_packet c pi channel reason flags first last =
    ap (desk pi) (send_packet-quiet c _ _ _ _)
