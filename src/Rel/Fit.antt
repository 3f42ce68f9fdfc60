-- ===== src/Rel/Fit.antt =====
-- keemash_mesh_core.c: what the receiver's parts keep of the state that `consume_contiguous` works on.
use keemash_core.Base.{
  ℕ, zero, suc, ◌^◌, ◌<◌, Bool, true, false, List, [], ◌∷◌, if◌then◌else◌, inc32, sub32, length,
  get_or, clear_if, All, All-replicate, All-clear_if, subst, ◌≡◌, refl, ap, sym, arith,
}
use keemash_core.Proto.{reason_overflow, flag_receiver_drop, channel_count}
use keemash_core.Wire.{RelHdr}
use keemash_core.Rel.{RxSlot, Range, Peer, Ctx, peer_at, zero_rx, zero_reassembly}
use keemash_core.Rel.Peers.{set_peer, first_seqs}
use keemash_core.Rel.Air.{send_packet-quiet}
use keemash_core.Rel.Tables.{owns_rx, seq_in_range, seq_before}
use keemash_core.Rel.Loss.{record_lost, pending_lost_add, clear_peer_buffers}
use keemash_core.Rel.Clearing.{clear-tables, clear-peer}
use keemash_core.Rel.Binding.{clear-length}
use keemash_core.Rel.Deliver.{
  send_lost_packet, dropped_rx, dropped_reassembly, set_expected, expected_at, receiver_drop_range,
  kept_range,
}
use keemash_core.Rel.Consume.{consume, send_ack}
use keemash_core.Rel.Desk.{
  desk, IsFiled, IsDesk, desk-set, desk-set_expected, desk-record_lost, desk-send_lost_packet,
}
use keemash_core.Rel.Tidy.{by_cases, IsDesk-cleared, IsDesk-moved}
use keemash_core.Rel.Settle.{consume-Run}

get_or-All : (xs : List ℕ) (n : ℕ) → All (λ x. x < 2 ^ 32) xs → get_or xs n 0 < 2 ^ 32
get_or-All [] n h = omega arith
get_or-All (x ∷ xs) zero h = h.0
get_or-All (x ∷ xs) (suc n) h = get_or-All xs n h.1

module _ (pi channel : ℕ) (small : channel < channel_count) where
  abbrev pub Fit : Ctx → Type 0
  Fit c = IsDesk pi channel (desk pi c)

  pub Fit-same : (c d : Ctx) → desk pi d ≡ desk pi c → Fit c → Fit d
  Fit-same c d e v = subst (IsDesk pi channel) (sym e) v

  first_seqs-lt : get_or first_seqs channel 0 < 2 ^ 32
  first_seqs-lt =
      get_or-All first_seqs channel
        (omega arith, All-replicate (λ (x : ℕ). x < 2 ^ 32) 9 1 (omega arith))

  pub Fit-clear : (c : Ctx) (reason : ℕ) → Fit c → Fit (clear_peer_buffers c pi reason)
  Fit-clear c reason v =
      let d = clear_peer_buffers c pi reason in
      let p = clear-peer c pi reason v.peer_lt in
      let e : (peer_at d pi).expected_seq ≡ first_seqs = ap (λ (q : Peer). q.expected_seq) p in
      record {
        filed =
            subst (All IsFiled)
              (sym (ap (λ (t : List _ × List RxSlot × List _). t.1) (clear-tables c pi reason)))
              (All-clear_if IsFiled (owns_rx (peer_at c pi)) zero_rx c.rx (refl, refl) v.filed);
        peer_lt = omega (arith, v.peer_lt, clear-length c pi reason);
        channel_lt = omega (arith, ap length e, small);
        seq_lt = omega (arith, ap (λ s. get_or s channel 0) e, first_seqs-lt);
      }

  pub Fit-ack : (c : Ctx) (rh : RelHdr) (nack : Bool) → Fit c → Fit (send_ack c pi rh nack).0
  unfolding send_ack
  Fit-ack c rh nack v =
      Fit-same c (send_ack c pi rh nack).0 (ap (desk pi) (send_packet-quiet c _ _ _ _)) v

  Fit-pending :
      (c : Ctx) (ranges : List Range)
      → Fit c
      → Fit (set_peer c pi (record (peer_at c pi) { pending_lost = ranges }))
  Fit-pending c ranges v =
      subst (IsDesk pi channel)
        (sym (desk-set c pi (record (peer_at c pi) { pending_lost = ranges }) v.peer_lt))
        (record {
          filed = v.filed;
          peer_lt = v.peer_lt;
          channel_lt = v.channel_lt;
          seq_lt = v.seq_lt;
        })

  Fit-kept :
      (f : Ctx → ℕ → ℕ → Ctx) (c : Ctx) (reason first last : ℕ) (r : List Range × Bool)
      → Fit c
      → Fit (kept_range f c pi channel reason first last r)
  unfolding kept_range
  Fit-kept f c reason first last (ranges, true) v =
      let d = set_peer c pi (record (peer_at c pi) { pending_lost = ranges }) in
      Fit-same d (send_lost_packet d pi channel reason flag_receiver_drop first last).0
        (desk-send_lost_packet d pi channel reason flag_receiver_drop first last)
        (Fit-pending c ranges v)
  Fit-kept f c reason first last (ranges, false) v =
      Fit-clear (set_peer c pi (record (peer_at c pi) { pending_lost = ranges })) reason_overflow
        (Fit-pending c ranges v)

  pub Fit-consume : (fuel : ℕ) (c : Ctx) → Fit c → Fit (consume fuel c pi channel)
  Fit-consume fuel c v = (consume-Run fuel c pi channel v).good.0

  -- A packet for which there is no room is given up.
  pub Fit-drop :
      (fuel : ℕ) (c : Ctx) (first last : ℕ)
      → Fit c
      → Fit (receiver_drop_range (consume fuel) c pi channel reason_overflow first last)
  unfolding receiver_drop_range
  Fit-drop fuel c first last v =
      let p = peer_at c pi in
      let emptied : Ctx = record c {
        rx = clear_if (dropped_rx p channel first last) zero_rx c.rx;
        reassembly =
            clear_if (dropped_reassembly p channel first last) zero_reassembly c.reassembly;
      } in
      let many = inc32 (sub32 last first) in
      let told = record_lost emptied pi channel reason_overflow first last many in
      let w : Fit told =
        Fit-same emptied told (desk-record_lost emptied pi channel reason_overflow first last many)
          (IsDesk-cleared pi channel (dropped_rx p channel first last) (desk pi c) v).0 in
      let moved = set_expected told pi channel (inc32 last) in
      let m : Fit moved =
        subst (IsDesk pi channel) (sym (desk-set_expected told pi channel (inc32 last) w.peer_lt))
          (IsDesk-moved pi channel (inc32 last) (desk pi told) (omega arith) w) in
      let skipped = consume fuel moved pi channel in
      let kept =
        kept_range (consume fuel) told pi channel reason_overflow first last
          (pending_lost_add (peer_at told pi).pending_lost channel first last) in
      let over =
        (send_lost_packet told pi channel reason_overflow flag_receiver_drop first last).0 in
      by_cases Fit (seq_in_range (expected_at told pi channel) first last)
        (send_lost_packet skipped pi channel reason_overflow flag_receiver_drop first last).0
        (if seq_before (expected_at told pi channel) first then kept else over)
        (λ _.
          Fit-same skipped
            (send_lost_packet skipped pi channel reason_overflow flag_receiver_drop first last).0
            (desk-send_lost_packet skipped pi channel reason_overflow flag_receiver_drop first last)
            (Fit-consume fuel moved m))
        (λ _.
          by_cases Fit (seq_before (expected_at told pi channel) first) kept over
            (λ _.
              Fit-kept (consume fuel) told reason_overflow first last
                (pending_lost_add (peer_at told pi).pending_lost channel first last) w)
            (λ _.
              Fit-same told over
                (desk-send_lost_packet told pi channel reason_overflow flag_receiver_drop first
                  last)
                w))
