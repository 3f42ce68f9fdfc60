-- ===== src/Rel/Settle.antt =====
-- keemash_mesh_core.c: `consume_contiguous` ends, with nothing left that it could consume.
use keemash_core.Base.{
  ℕ, zero, suc, ◌+◌, ◌≤◌, ◌<◌, Option, none, some, inc32, get_or, get_or-set_self, Option-cases,
  inl, inr, subst, ◌≡◌, refl, ap, ◌∙◌, sym, arith, count_if-le,
}
use keemash_core.Rel.{Ctx, peer_at, zero_rx}
use keemash_core.Rel.Tables.{rx_find}
use keemash_core.Rel.Deliver.{expected_at, deliver_fragment}
use keemash_core.Rel.Consume.{
  range_at, skip_range, unload, consume, consume_fuel, consume_contiguous,
}
use keemash_core.Rel.Desk.{
  Desk, desk, load, IsDesk, used_rx, used_range, desk-skip_range, desk-unload,
}
use keemash_core.Rel.Tidy.{
  Good, load-skipped, IsDesk-skipped, unloads, IsDesk-unloaded, Good-trans, deliver-Good,
}

-- Nothing that the loop looks for is left.
abbrev pub IsSettled : Ctx → ℕ → ℕ → Type 0
IsSettled c pi channel =
    (range_at c pi channel ≡ none)
    × (rx_find c (peer_at c pi) channel (expected_at c pi channel) ≡ none)

-- The round that delivers a buffered packet.
abbrev delivered_from : ℕ → Ctx → ℕ → ℕ → ℕ → Ctx
delivered_from fuel c pi channel j =
    let s = get_or c.rx j zero_rx in
    deliver_fragment (consume fuel) (unload c pi channel j) pi s.hdr s.payload

-- One round, by what the two searches found.
abbrev next_round : ℕ → Ctx → ℕ → ℕ → Option ℕ → Option ℕ → Ctx
next_round fuel c pi channel (some i) o = consume fuel (skip_range c pi channel i) pi channel
next_round fuel c pi channel none (some j) =
    consume fuel (delivered_from fuel c pi channel j) pi channel
next_round fuel c pi channel none none = c

round_split :
    (fuel : ℕ) (c : Ctx) (pi channel : ℕ) (r o : Option ℕ)
    → elim r as (λ _. Ctx) [
      | some i ↦ consume fuel (skip_range c pi channel i) pi channel
      | none ↦ elim o as (λ _. Ctx) [
        | none ↦ c
        | some j ↦ consume fuel (delivered_from fuel c pi channel j) pi channel
      ]
    ]
      ≡ next_round fuel c pi channel r o
round_split fuel c pi channel (some i) o = refl
round_split fuel c pi channel none (some j) = refl
round_split fuel c pi channel none none = refl

consume-round :
    (fuel : ℕ) (c : Ctx) (pi channel : ℕ) (r o : Option ℕ)
    → range_at c pi channel ≡ r
    → rx_find c (peer_at c pi) channel (expected_at c pi channel) ≡ o
    → consume (suc fuel) c pi channel ≡ next_round fuel c pi channel r o
unfolding consume
consume-round fuel c pi channel r o e h =
    round_split fuel c pi channel (range_at c pi channel)
      (rx_find c (peer_at c pi) channel (expected_at c pi channel))
    ∙ (λ i. next_round fuel c pi channel (e i) (h i))

-- A run of the loop: what it leaves on the desk, and that nothing is left to consume if the fuel is
-- more than the desk holds.
pub record Run (fuel : ℕ) (pi channel : ℕ) (c d : Ctx) : Type 0 where
  pub good : Good pi channel (desk pi c) (desk pi d)
  pub settled : load (desk pi c) < fuel → IsSettled d pi channel

Run-later :
    (fuel pi channel : ℕ) (c c' d : Ctx)
    → load (desk pi c') + 1 ≤ load (desk pi c)
    → Run fuel pi channel c' d
    → Run (suc fuel) pi channel c d
Run-later fuel pi channel c c' d l r = record {
  good = Good-trans pi channel (desk pi c) (desk pi c') (desk pi d) (omega arith) r.good;
  settled = λ h. r.settled (omega arith);
}

pub consume-Run :
    (fuel : ℕ) (c : Ctx) (pi channel : ℕ)
    → IsDesk pi channel (desk pi c)
    → Run fuel pi channel c (consume fuel c pi channel)
unfolding consume
consume-Run zero c pi channel v = record {
  good = (v, omega arith);
  settled = λ h. absurd (omega arith);
}
consume-Run (suc fuel) c pi channel v =
    let found = rx_find c (peer_at c pi) channel (expected_at c pi channel) in
    elim (Option-cases (range_at c pi channel)) [
      | inr (i, e) ↦
          let d = skip_range c pi channel i in
          let same = desk-skip_range c pi channel i v.peer_lt in
          let w : IsDesk pi channel (desk pi d) =
            subst (IsDesk pi channel) (sym same) (IsDesk-skipped pi channel i (desk pi c) v) in
          subst (Run (suc fuel) pi channel c)
            (sym (consume-round fuel c pi channel (some i) found e refl))
            (Run-later fuel pi channel c d (consume fuel d pi channel)
              (omega (arith, ap load same, load-skipped c pi channel i e))
              (consume-Run fuel d pi channel w))
      | inl e ↦ elim (Option-cases found) [
        | inl h ↦
            subst (Run (suc fuel) pi channel c)
              (sym (consume-round fuel c pi channel none none e h))
              (record { good = (v, omega arith); settled = λ _. (e, h) })
        | inr (j, h) ↦
            let u = unload c pi channel j in
            let s = get_or c.rx j zero_rx in
            let d = delivered_from fuel c pi channel j in
            let same = desk-unload c pi channel j v.peer_lt in
            let (q, ch, l) = unloads c pi channel j v h in
            let w : IsDesk pi channel (desk pi u) =
              subst (IsDesk pi channel) (sym same) (IsDesk-unloaded pi channel j (desk pi c) v) in
            let moved : inc32 s.hdr.seq ≡ expected_at u pi channel =
              ap inc32 q
              ∙ sym (
                  ap (λ (x : Desk). get_or x.expected channel 0) same
                  ∙ get_or-set_self (peer_at c pi).expected_seq channel
                      (inc32 (expected_at c pi channel)) 0 v.channel_lt) in
            let g =
              deliver-Good pi channel (consume fuel) (λ x y. (consume-Run fuel x pi channel y).good)
                u s.hdr s.payload w ch (omega (arith, q, v.seq_lt)) moved in
            subst (Run (suc fuel) pi channel c)
              (sym (consume-round fuel c pi channel none (some j) e h))
              (Run-later fuel pi channel c d (consume fuel d pi channel)
                (omega (arith, ap load same, l, g.1)) (consume-Run fuel d pi channel g.0))
      ]
    ]

-- `consume_contiguous` ends: of a peer in the table, a channel of it whose next expected number is a
-- 32-bit word, and reorder slots that each hold the packet they are filed under, it stops only when
-- the expected number lies in no range that is known to be lost and no reorder slot holds it; the
-- slots still hold what they are filed under, and it has added neither a slot nor a range: as many
-- rounds are enough as there are entries, and one.
pub consume_contiguous_ends :
    (c : Ctx) (pi channel : ℕ)
    → IsDesk pi channel (desk pi c)
    → let d = consume_contiguous c pi channel in
      IsSettled d pi channel × IsDesk pi channel (desk pi d) × (load (desk pi d) ≤ load (desk pi c))
consume_contiguous_ends c pi channel v =
    let r = consume-Run (consume_fuel c pi) c pi channel v in
    (
      r.settled (
          omega
            (arith, count_if-le used_rx c.rx, count_if-le used_range (peer_at c pi).pending_lost)),
      r.good.0,
      r.good.1,
    )
