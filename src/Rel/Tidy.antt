-- ===== src/Rel/Tidy.antt =====
-- keemash_mesh_core.c: what one round of `consume_contiguous` takes away, delivers and drops.
use keemash_core.Base.{
  ℕ, ◌+◌, ◌^◌, ◌≤◌, ◌<◌, Bool, true, false, ◌||◌, Option, none, some, List, ltb, leb, if◌then◌else◌,
  u32, inc32, sub32, take, length-set, get_or, set, count_if-set, find_index, find_index-some,
  clear_if, All-get, All-set, get_or-eq, get_or-set_self, subst, ◌≡◌, refl, ap, ◌∙◌, sym, arith,
  count_if-clear_le, All-clear_if,
}
use keemash_core.Proto.{reason_overflow, flag_receiver_drop, max_fragments}
use keemash_core.Wire.{RelHdr}
use keemash_core.Rel.{RxSlot, Ctx, peer_at, zero_rx, zero_range, zero_reassembly}
use keemash_core.Rel.Tables.{rx_find, is_rx, reassembly_find, collects, seq_in_range, seq_before}
use keemash_core.Rel.Loss.{record_lost, pending_lost_add}
use keemash_core.Rel.Deliver.{
  deliver_to, bump_overflow, send_lost_packet, dropped_rx, dropped_reassembly, set_expected,
  expected_at, receiver_drop_range, place_fragment, deliver_fragment, kept_range,
}
use keemash_core.Rel.Consume.{blocks, range_at}
use keemash_core.Rel.Desk.{
  Desk, desk, load, IsFiled, IsDesk, skipped, unloaded, used_rx, used_range, desk-set_expected,
  desk-deliver_to, desk-collect, desk-find_or_open, desk-record_lost, desk-send_lost_packet,
  desk-set_other,
}

pub load-skipped :
    (c : Ctx) (pi channel i : ℕ)
    → range_at c pi channel ≡ some i
    → load (skipped channel i (desk pi c)) + 1 ≡ load (desk pi c)
unfolding range_at
load-skipped c pi channel i e =
    let pending = (peer_at c pi).pending_lost in
    let (r, g, b) = find_index-some (blocks c pi channel) pending i e in
    ground (arith, count_if-set used_range pending i {x = r} zero_range g)

pub IsDesk-skipped :
    (pi channel i : ℕ) (d : Desk) → IsDesk pi channel d → IsDesk pi channel (skipped channel i d)
IsDesk-skipped pi channel i d v =
    let seq = inc32 (get_or d.pending i zero_range).last in
    record {
      filed = v.filed;
      peer_lt = v.peer_lt;
      channel_lt = omega (arith, v.channel_lt, length-set d.expected channel seq);
      seq_lt = omega (arith, get_or-set_self d.expected channel seq 0 v.channel_lt);
    }

-- The slot that is unloaded, and what is known of it.
pub unloads :
    (c : Ctx) (pi channel j : ℕ)
    → IsDesk pi channel (desk pi c)
    → rx_find c (peer_at c pi) channel (expected_at c pi channel) ≡ some j
    → let s = get_or c.rx j zero_rx in
      (s.hdr.seq ≡ expected_at c pi channel)
      × (s.hdr.channel_id ≡ channel)
      × (load (unloaded channel j (desk pi c)) + 1 ≡ load (desk pi c))
unfolding rx_find
unloads c pi channel j v e =
    let (x, g, t) =
      find_index-some (is_rx (peer_at c pi) channel (expected_at c pi channel)) c.rx j e in
    let (q, h) = All-get IsFiled c.rx j v.filed g in
    let same : get_or c.rx j zero_rx ≡ x = get_or-eq c.rx j zero_rx g in
    (
      ap (λ (s : RxSlot). s.hdr.seq) same ∙ ground (arith, q),
      ap (λ (s : RxSlot). s.hdr.channel_id) same ∙ ground (arith, h),
      ground (arith, count_if-set used_rx c.rx j {x = x} zero_rx g),
    )

pub IsDesk-unloaded :
    (pi channel j : ℕ) (d : Desk) → IsDesk pi channel d → IsDesk pi channel (unloaded channel j d)
IsDesk-unloaded pi channel j d v =
    let seq = inc32 (get_or d.expected channel 0) in
    record {
      filed = All-set IsFiled d.rx j zero_rx v.filed (refl, refl);
      peer_lt = v.peer_lt;
      channel_lt = omega (arith, v.channel_lt, length-set d.expected channel seq);
      seq_lt = omega (arith, get_or-set_self d.expected channel seq 0 v.channel_lt);
    }

-- What every function here does to the desk: it stays in order, and no more is on it.
abbrev pub Good : ℕ → ℕ → Desk → Desk → Type 0
Good pi channel d d' = IsDesk pi channel d' × (load d' ≤ load d)

-- Both branches of a conditional, under what the test says.
pub by_cases :
    (P : Ctx → Type 0) (b : Bool) (x y : Ctx)
    → (b ≡ true → P x)
    → (b ≡ false → P y)
    → P (if b then x else y)
by_cases P true x y f g = f refl
by_cases P false x y f g = g refl

two_values : {b : Bool} → b ≡ true → b ≡ false → ⊥
two_values h g = ground (arith, h, g)

not_before :
    (seq index count : ℕ)
    → seq < 2 ^ 32
    → (ltb max_fragments count || leb count index) ≡ false
    → seq_before (inc32 seq) (sub32 seq index) ≡ false
not_before seq index count h g = ground arith

pub IsDesk-cleared :
    (pi channel : ℕ) (drop : RxSlot → Bool) (d : Desk)
    → IsDesk pi channel d
    → Good pi channel d (record d { rx = clear_if drop zero_rx d.rx })
IsDesk-cleared pi channel drop d v = (
  record {
    filed = All-clear_if IsFiled drop zero_rx d.rx (refl, refl) v.filed;
    peer_lt = v.peer_lt;
    channel_lt = v.channel_lt;
    seq_lt = v.seq_lt;
  },
  omega (arith, count_if-clear_le used_rx drop zero_rx d.rx refl),
)

pub IsDesk-moved :
    (pi channel seq : ℕ) (d : Desk)
    → seq < 2 ^ 32
    → IsDesk pi channel d
    → IsDesk pi channel (record d { expected = set d.expected channel seq })
IsDesk-moved pi channel seq d h v = record {
  filed = v.filed;
  peer_lt = v.peer_lt;
  channel_lt = omega (arith, v.channel_lt, length-set d.expected channel seq);
  seq_lt = omega (arith, get_or-set_self d.expected channel seq 0 v.channel_lt);
}

pub Good-trans :
    (pi channel : ℕ) (a b c : Desk) → load b ≤ load a → Good pi channel b c → Good pi channel a c
Good-trans pi channel a b c h (v, l) = (v, omega (arith, h, l))

module _ (pi channel : ℕ) (f : Ctx → ℕ → ℕ → Ctx)
    (good : (c : Ctx)
      → IsDesk pi channel (desk pi c)
      → Good pi channel (desk pi c) (desk pi (f c pi channel))) where
  -- Dropping the range of a message whose last packet so far is the one before the expected.
  drop-Good :
      (c : Ctx) (seq index count : ℕ)
      → IsDesk pi channel (desk pi c)
      → seq < 2 ^ 32
      → inc32 seq ≡ expected_at c pi channel
      → (ltb max_fragments count || leb count index) ≡ false
      → let first = sub32 seq index in
        let last = sub32 (u32 (first + count)) 1 in
        Good pi channel
          (desk pi c)
          (desk pi (receiver_drop_range f c pi channel reason_overflow first last))
  unfolding receiver_drop_range
  drop-Good c seq index count v l e g =
      let first = sub32 seq index in
      let last = sub32 (u32 (first + count)) 1 in
      let p = peer_at c pi in
      let emptied : Ctx = record c {
        rx = clear_if (dropped_rx p channel first last) zero_rx c.rx;
        reassembly =
            clear_if (dropped_reassembly p channel first last) zero_reassembly c.reassembly;
      } in
      let many = inc32 (sub32 last first) in
      let told = record_lost emptied pi channel reason_overflow first last many in
      let same = desk-record_lost emptied pi channel reason_overflow first last many in
      let cleared = IsDesk-cleared pi channel (dropped_rx p channel first last) (desk pi c) v in
      let told_good : Good pi channel (desk pi c) (desk pi told) =
        subst (Good pi channel (desk pi c)) (sym same) cleared in
      let moved = set_expected told pi channel (inc32 last) in
      let to_moved = desk-set_expected told pi channel (inc32 last) told_good.0.peer_lt in
      let moved_good : Good pi channel (desk pi c) (desk pi moved) =
        subst (Good pi channel (desk pi c)) (sym to_moved) (
          IsDesk-moved pi channel (inc32 last) (desk pi told) (omega arith) told_good.0,
          told_good.1,
        ) in
      let skipped_good =
        Good-trans pi channel (desk pi c) (desk pi moved) (desk pi (f moved pi channel))
          moved_good.1 (good moved moved_good.0) in
      let expected : expected_at told pi channel ≡ inc32 seq =
        ap (λ (d : Desk). get_or d.expected channel 0) same ∙ sym e in
      let kept =
        kept_range f told pi channel reason_overflow first last
          (pending_lost_add (peer_at told pi).pending_lost channel first last) in
      let result = λ (x : Ctx). Good pi channel (desk pi c) (desk pi x) in
      let over =
        (send_lost_packet told pi channel reason_overflow flag_receiver_drop first last).0 in
      by_cases result (seq_in_range (expected_at told pi channel) first last)
        (send_lost_packet (f moved pi channel) pi channel reason_overflow flag_receiver_drop first
          last).0
        (if seq_before (expected_at told pi channel) first then kept else over)
        (λ _.
          subst (Good pi channel (desk pi c))
            (sym (
              desk-send_lost_packet (f moved pi channel) pi channel reason_overflow
                flag_receiver_drop first last))
            skipped_good)
        (λ _.
          by_cases result (seq_before (expected_at told pi channel) first) kept over
            (λ b.
              let no : seq_before (expected_at told pi channel) first ≡ false =
                ap (λ t. seq_before t first) expected ∙ not_before seq index count l g in
              absurd (two_values b no))
            (λ _.
              subst (Good pi channel (desk pi c))
                (sym (
                  desk-send_lost_packet told pi channel reason_overflow flag_receiver_drop first
                    last))
                told_good))

  place-Good :
      (c : Ctx) (rh : RelHdr) (payload : List ℕ) (r : Ctx × Option ℕ)
      → IsDesk pi channel (desk pi c)
      → rh.channel_id ≡ channel
      → rh.seq < 2 ^ 32
      → inc32 rh.seq ≡ expected_at c pi channel
      → (ltb max_fragments rh.fragment_count || leb rh.fragment_count rh.fragment_index) ≡ false
      → desk pi r.0 ≡ desk pi c
      → Good pi channel (desk pi c) (desk pi (place_fragment f pi rh payload r))
  unfolding place_fragment
  place-Good c rh payload (d, some i) v h l e g same =
      subst (Good pi channel (desk pi c)) (sym (desk-collect d pi rh payload i ∙ same))
        (v, omega arith)
  place-Good c rh payload (d, none) v h l e g same =
      let bumped = bump_overflow d pi in
      let b : desk pi bumped ≡ desk pi c =
        desk-set_other d pi
          (record (peer_at d pi) { overflow_count = inc32 (peer_at d pi).overflow_count }) refl refl
        ∙ same in
      let first = sub32 rh.seq rh.fragment_index in
      let last = sub32 (u32 (first + rh.fragment_count)) 1 in
      let dropped =
        drop-Good bumped rh.seq rh.fragment_index rh.fragment_count
          (subst (IsDesk pi channel) (sym b) v) l
          (e ∙ sym (ap (λ (x : Desk). get_or x.expected channel 0) b)) g in
      Good-trans pi channel (desk pi c) (desk pi bumped)
        (desk pi (receiver_drop_range f bumped pi rh.channel_id reason_overflow first last))
        (omega (arith, ap load b))
        (subst
          (λ ch.
            Good pi channel (desk pi bumped)
              (desk pi (receiver_drop_range f bumped pi ch reason_overflow first last)))
          (sym h) dropped)

  pub deliver-Good :
      (c : Ctx) (rh : RelHdr) (payload : List ℕ)
      → IsDesk pi channel (desk pi c)
      → rh.channel_id ≡ channel
      → rh.seq < 2 ^ 32
      → inc32 rh.seq ≡ expected_at c pi channel
      → Good pi channel (desk pi c) (desk pi (deliver_fragment f c pi rh payload))
  unfolding deliver_fragment reassembly_find
  deliver-Good c rh payload v h l e =
      let result = λ (x : Ctx). Good pi channel (desk pi c) (desk pi x) in
      let wrong = ltb max_fragments rh.fragment_count || leb rh.fragment_count rh.fragment_index in
      let found = reassembly_find c (peer_at c pi) rh in
      let whole =
        deliver_to c (peer_at c pi) rh.channel_id (take rh.payload_len payload) rh.stream_id in
      let placed = place_fragment f pi rh payload found in
      by_cases result (leb rh.fragment_count 1) whole (if wrong then c else placed)
        (λ _.
          subst (Good pi channel (desk pi c))
            (sym (
              desk-deliver_to c pi (peer_at c pi) rh.channel_id (take rh.payload_len payload)
                rh.stream_id))
            (v, omega arith))
        (λ _.
          by_cases result wrong c placed (λ _. (v, omega arith))
            (λ g. place-Good c rh payload found v h l e g (
              desk-find_or_open c pi (peer_at c pi) rh
                (find_index (collects (peer_at c pi) rh) c.reassembly))))
