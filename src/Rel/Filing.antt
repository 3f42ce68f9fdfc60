-- ===== src/Rel/Filing.antt =====
-- keemash_mesh_core.c: `handle_data` keeps what `consume_contiguous` needs in order to end.
use keemash_core.Base.{
  ℕ, ◌^◌, ◌<◌, Bool, true, false, not, ◌&&◌, ◌||◌, Option, none, some, List, leb, ◌==◌, ==_iff,
  if◌then◌else◌, if_keeps, inc32, sub32, take, length, get_or, set, find_index, clear_if, All-set,
  get_or-set_self, subst, ◌≡◌, refl, ap, ◌∙◌, sym, arith,
}
use mathlib.Core.Option
use keemash_core.Proto.{
  Esp, reason_overflow, channel_count, no_mem, window, flag_latest, invalid_arg, invalid_state,
  flag_replay, channel_time,
}
use keemash_core.Wire.{RelHdr}
use keemash_core.Rel.{Ctx, peer_at, zero_rx, zero_range}
use keemash_core.Rel.Peers.{peer_find, find_or_add, found_peer, is_peer, peer_key}
use keemash_core.Rel.Tables.{has_flag, rx_find, rx_alloc, seq_before, on_channel_rx}
use keemash_core.Rel.Loss.{of_channel}
use keemash_core.Rel.Deliver.{
  bump_overflow, set_expected, expected_at, receiver_drop_range, deliver_fragment,
}
use keemash_core.Rel.Consume.{consume, consume_fuel, consume_contiguous, send_ack}
use keemash_core.Rel.Receive.{
  malformed, in_session, heard, forget_older, buffered, early, on_time, place_data, latest_data,
  session_data, handle_data,
}
use keemash_core.Rel.Desk.{Desk, desk, IsFiled, IsDesk, desk-set, desk-set_expected, desk-set_other}
use keemash_core.Rel.Tidy.{by_cases, IsDesk-cleared, IsDesk-moved, deliver-Good}
use keemash_core.Rel.Settle.{consume-Run, consume_contiguous_ends}
use keemash_core.Rel.Fit.{Fit-same, Fit-ack, Fit-drop}

by_result :
    (P : Ctx → Type 0) (b : Bool) (x y : Ctx × Esp)
    → (b ≡ true → P x.0)
    → (b ≡ false → P y.0)
    → P (if b then x else y).0
by_result P true x y f g = f refl
by_result P false x y f g = g refl

module _ (pi : ℕ) (rh : RelHdr) (payload : List ℕ) (small : rh.channel_id < channel_count)
    (seq_lt : rh.seq < 2 ^ 32) where
  abbrev FitHere : Ctx → Type 0
  FitHere c = IsDesk pi rh.channel_id (desk pi c)

  Fit-buffered : (c : Ctx) (k : ℕ) → FitHere c → FitHere (buffered c pi rh payload k)
  Fit-buffered c k v = record {
    filed =
        All-set IsFiled c.rx k
          (record {
            used = true;
            peer = (peer_at c pi).mac;
            channel = rh.channel_id;
            seq = rh.seq;
            hdr = rh;
            payload = take rh.payload_len payload;
          })
          v.filed (refl, refl);
    peer_lt = v.peer_lt;
    channel_lt = v.channel_lt;
    seq_lt = v.seq_lt;
  }

  Fit-bumped : (c : Ctx) → FitHere c → FitHere (bump_overflow c pi)
  Fit-bumped c v =
      Fit-same pi rh.channel_id small c (bump_overflow c pi)
        (desk-set_other c pi
          (record (peer_at c pi) { overflow_count = inc32 (peer_at c pi).overflow_count }) refl
          refl)
        v

  Fit-early : (c : Ctx) → FitHere c → FitHere (early c pi rh payload).0
  unfolding early
  Fit-early c v =
      let full = bump_overflow c pi in
      let dropped : Ctx × Esp = (
        receiver_drop_range (consume (consume_fuel full pi)) full pi rh.channel_id reason_overflow
            rh.seq rh.seq,
        no_mem,
      ) in
      elim (rx_find c (peer_at c pi) rh.channel_id rh.seq)
        as (λ o.
          FitHere
            (elim o as (λ _. Ctx × Esp) [
              | some _ ↦ send_ack c pi rh true
              | none ↦ elim (rx_alloc c (peer_at c pi)) as (λ _. Ctx × Esp) [
                | some k ↦ send_ack (buffered c pi rh payload k) pi rh true
                | none ↦ dropped
              ]
            ]).0) [
              | some _ ↦ Fit-ack pi rh.channel_id small c rh true v
              | none ↦
                  elim (rx_alloc c (peer_at c pi))
                    as (λ o.
                      FitHere
                        (elim o as (λ _. Ctx × Esp) [
                          | some k ↦ send_ack (buffered c pi rh payload k) pi rh true
                          | none ↦ dropped
                        ]).0) [
                          | some k ↦
                              Fit-ack pi rh.channel_id small (buffered c pi rh payload k) rh true
                                (Fit-buffered c k v)
                          | none ↦
                              Fit-drop pi rh.channel_id small (consume_fuel full pi) full rh.seq
                                rh.seq (Fit-bumped c v)
                        ]
            ]

  Fit-on_time :
      (c : Ctx)
      → FitHere c
      → rh.seq ≡ expected_at c pi rh.channel_id
      → FitHere (on_time c pi rh payload).0
  unfolding on_time
  Fit-on_time c v e =
      let next = inc32 (expected_at c pi rh.channel_id) in
      let moved = set_expected c pi rh.channel_id next in
      let same = desk-set_expected c pi rh.channel_id next v.peer_lt in
      let m : FitHere moved =
        subst (IsDesk pi rh.channel_id) (sym same)
          (IsDesk-moved pi rh.channel_id next (desk pi c) (omega arith) v) in
      let fuel = consume_fuel moved pi in
      let done = deliver_fragment (consume fuel) moved pi rh payload in
      let expects : inc32 rh.seq ≡ expected_at moved pi rh.channel_id =
        ap inc32 e
        ∙ sym (
            ap (λ (d : Desk). get_or d.expected rh.channel_id 0) same
            ∙ get_or-set_self (peer_at c pi).expected_seq rh.channel_id next 0 v.channel_lt) in
      let g =
        deliver-Good pi rh.channel_id (consume fuel)
          (λ x y. (consume-Run fuel x pi rh.channel_id y).good) moved rh payload m refl seq_lt
          expects in
      let ends = consume_contiguous_ends done pi rh.channel_id g.0 in
      Fit-ack pi rh.channel_id small (consume_contiguous done pi rh.channel_id) rh false ends.1

  Fit-place_data : (c : Ctx) → FitHere c → FitHere (place_data c pi rh payload).0
  unfolding place_data
  Fit-place_data c v =
      let expected = expected_at c pi rh.channel_id in
      let far = leb window (sub32 rh.seq expected) in
      let ack = Fit-ack pi rh.channel_id small c rh in
      by_result FitHere (seq_before rh.seq expected) (send_ack c pi rh false)
        (if rh.seq == expected
          then on_time c pi rh payload
          else if far
          then send_ack c pi rh true
          else early c pi rh payload)
        (λ _. ack false v)
        (λ _.
          by_result FitHere (rh.seq == expected) (on_time c pi rh payload)
            (if far then send_ack c pi rh true else early c pi rh payload)
            (λ b. Fit-on_time c v ((==_iff rh.seq expected).0 b))
            (λ _.
              by_result FitHere far (send_ack c pi rh true) (early c pi rh payload)
                (λ _. ack true v) (λ _. Fit-early c v)))

  Fit-heard : (c : Ctx) → FitHere c → FitHere (heard c pi rh)
  Fit-heard c v =
      let p = peer_at c pi in
      Fit-same pi rh.channel_id small c (heard c pi rh)
        (desk-set_other c pi
          (record p {
            route_up = true;
            route_down_since_ms = 0;
            last_rx_ms = c.now;
            replay_count =
                if has_flag rh.flags flag_replay then inc32 p.replay_count else p.replay_count;
          })
          refl refl)
        v

  Fit-forget_older : (c : Ctx) → FitHere c → FitHere (forget_older c pi rh)
  Fit-forget_older c v =
      let p = peer_at c pi in
      let drop = on_channel_rx p rh.channel_id in
      let emptied : Ctx = record c { rx = clear_if drop zero_rx c.rx } in
      let moved =
        IsDesk-moved pi rh.channel_id rh.seq (desk pi emptied) seq_lt
          (IsDesk-cleared pi rh.channel_id drop (desk pi c) v).0 in
      subst (IsDesk pi rh.channel_id)
        (sym (
          desk-set emptied pi
            (record p {
              pending_lost = clear_if (of_channel rh.channel_id) zero_range p.pending_lost;
              expected_seq = set p.expected_seq rh.channel_id rh.seq;
            })
            v.peer_lt))
        (record {
          filed = moved.filed;
          peer_lt = moved.peer_lt;
          channel_lt = moved.channel_lt;
          seq_lt = moved.seq_lt;
        })

  Fit-latest_data : (c : Ctx) → FitHere c → FitHere (latest_data c pi rh payload).0
  unfolding latest_data
  Fit-latest_data c v =
      let newer = seq_before (expected_at c pi rh.channel_id) rh.seq in
      let wrong = not (rh.channel_id == channel_time) || not (rh.fragment_count == 1) in
      let after = if newer then forget_older c pi rh else c in
      by_result FitHere (not (has_flag rh.flags flag_latest)) (place_data c pi rh payload)
        (if wrong then (c, invalid_arg) else place_data after pi rh payload)
        (λ _. Fit-place_data c v)
        (λ _.
          by_result FitHere wrong (c, invalid_arg) (place_data after pi rh payload) (λ _. v)
            (λ _. Fit-place_data after (
              by_cases FitHere newer (forget_older c pi rh) c (λ _. Fit-forget_older c v)
                (λ _. v))))

  Fit-session_data : (c : Ctx) → FitHere c → FitHere (session_data rh payload (c, some pi)).0
  unfolding session_data
  Fit-session_data c v =
      by_result FitHere (in_session (peer_at c pi) rh.root_session_id rh.node_session_id)
        (latest_data (heard c pi rh) pi rh payload) (c, invalid_state)
        (λ _. Fit-latest_data (heard c pi rh) (Fit-heard c v)) (λ _. v)

-- Finding a peer by an address, as a node does, may record that address.
found-desk :
    (c : Ctx) (mac i : ℕ) → let r = found_peer c mac i in (desk i r.0 ≡ desk i c) × (r.1 ≡ some i)
unfolding found_peer
found-desk c mac i =
    let t = not c.cfg.root_role && not (mac == 0) in
    (
      if_keeps (λ (r : Ctx × Option ℕ). desk i r.0) t
          (desk-set_other c i (record (peer_at c i) { remote_mac = mac }) refl refl) refl,
      if_keeps (λ (r : Ctx × Option ℕ). r.1) t refl refl,
    )

find-desk :
    (c c' : Ctx) (mac pi : ℕ) (o : Option ℕ)
    → find_or_add c mac false o ≡ (c', some pi)
    → desk pi c' ≡ desk pi c
unfolding find_or_add
find-desk c c' mac pi none q = absurd (ground (arith, ap (λ (r : Ctx × Option ℕ). r.1) q))
find-desk c c' mac pi (some i) q =
    let (same, it) = found-desk c mac i in
    let index : i ≡ pi =
      ap (λ (o : Option ℕ). Option.get_or o 0) (sym it ∙ ap (λ (r : Ctx × Option ℕ). r.1) q) in
    ap (λ (r : Ctx × Option ℕ). desk pi r.0) (sym q)
    ∙ subst (λ n. desk n (found_peer c mac i).0 ≡ desk n c) index same

known_channel :
    (c : Ctx) (from : ℕ) (rh : RelHdr) (space : ℕ)
    → malformed c from rh space ≡ false
    → rh.channel_id < channel_count
known_channel c from rh space h = ground arith

-- `handle_data` keeps what `consume_contiguous` needs in order to end: whatever packet of a peer
-- arrives, if the peer and the channel are in the tables, the channel's next expected number is a
-- 32-bit word and each reorder slot holds the packet it is filed under, then all of this holds
-- afterwards, whether the packet is refused, delivered, buffered or given up. The packet's own
-- sequence number is a 32-bit word, as every received one is.
pub handle_data-IsDesk :
    (c c' : Ctx) (from pi : ℕ) (rh : RelHdr) (payload : List ℕ)
    → peer_find c from false ≡ (c', some pi)
    → rh.seq < 2 ^ 32
    → IsDesk pi rh.channel_id (desk pi c)
    → IsDesk pi rh.channel_id (desk pi (handle_data c from rh payload).0)
unfolding handle_data peer_find
handle_data-IsDesk c c' from pi rh payload e l v =
    let found : Ctx × Option ℕ = (c', some pi) in
    let same = find-desk c c' from pi (find_index (is_peer (peer_key c.cfg from)) c.peers) e in
    by_result (λ (x : Ctx). IsDesk pi rh.channel_id (desk pi x))
      (malformed c from rh (length payload)) (c, invalid_arg)
      (session_data rh payload (peer_find c from false)) (λ _. v)
      (λ m.
        let small = known_channel c from rh (length payload) m in
        let w : IsDesk pi rh.channel_id (desk pi c') =
          subst (IsDesk pi rh.channel_id) (sym same) v in
        subst
          (λ (r : Ctx × Option ℕ). IsDesk pi rh.channel_id (desk pi (session_data rh payload r).0))
          (sym e) (Fit-session_data pi rh payload small l c' w))
