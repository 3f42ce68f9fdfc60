-- ===== src/Broker/Drain.antt =====
-- The inner loop of `broker_task`: what a wake-up of the worker sends, with no caller in between.
use keemash_core.Base.{
  ℕ, zero, suc, ◌+◌, ◌<◌, ◌≡◌, refl, ◌∙◌, Bool, true, false, Option, none, some, List, [], ◌∷◌,
  arith, get_elem?, set, count_if, count_if-set, get_or-eq, if◌then◌else◌, inl, inr, All,
}
use keemash_core.Proto.{Esp}
use keemash_core.Broker.{Slot, Broker, empty_slot, slot_at, take_work, finish, eligible}
use keemash_core.Broker.Order.{take_work-cases}
use keemash_core.Broker.Steps.{Packet, packet}
use keemash_core.Broker.Steps.Conserve.{holds}
use keemash_core.Broker.Steps.Invariant.{
  BrokerInv, Held, is_used, is_sending, take-BrokerInv, finish-BrokerInv, finish-Held,
}

none_used :
    (xs : List Slot)
    → All (λ t. eligible t ≡ false) xs
    → count_if is_sending xs ≡ 0
    → count_if is_used xs ≡ 0
none_used [] a h = refl
none_used (x ∷ xs) a h = ground (arith, none_used xs a.1)

none_held :
    (p : Packet → Bool) (xs : List Slot) → count_if is_used xs ≡ 0 → 0 ≡ count_if (holds p) xs
none_held p [] h = refl
none_held p (x ∷ xs) h = ground (arith, none_held p xs)

-- A round takes one slot out of use, and its packet is the one that was sent.
round_lem :
    (b : Broker) (i : ℕ) (err : Esp) (p : Packet → Bool)
    → Held b (some i)
    → (count_if is_used (finish b i err).slots + 1 ≡ count_if is_used b.slots)
      × (count_if (holds p) (finish b i err).slots + (if p (packet (slot_at b i)) then 1 else 0)
          ≡ count_if (holds p) b.slots)
unfolding finish
round_lem b i err p (t, g, u, r, n) = (
  ground (arith, count_if-set is_used b.slots i {x = t} empty_slot g),
  ground (
    arith,
    count_if-set (holds p) b.slots i {x = t} empty_slot g,
    get_or-eq b.slots i empty_slot g,
  ),
)

picked_counts :
    (b : Broker) (i : ℕ) (s : Slot) (p : Packet → Bool)
    → get_elem? b.slots i ≡ some s
    → let xs = set b.slots i (record s { sending = true }) in
      (count_if is_used xs ≡ count_if is_used b.slots)
      × (count_if (holds p) xs ≡ count_if (holds p) b.slots)
picked_counts b i s p g = (
  ground (arith, count_if-set is_used b.slots i {x = s} (record s { sending = true }) g),
  ground (arith, count_if-set (holds p) b.slots i {x = s} (record s { sending = true }) g),
)

stopping-finish : (b : Broker) (i : ℕ) (err : Esp) → (finish b i err).stopping ≡ b.stopping
unfolding finish
stopping-finish b i err = refl

-- `raw_send` answers by what it is given. The fuel counts the rounds of the loop.
module _ (raw_send : Packet → Esp) where
  -- One round, whose first critical section answered this; `again` is the rest of the loop.
  abbrev round : (Broker → Broker × List Packet) → Broker × Option ℕ → Broker × List Packet
  round again (b, none) = (b, [])
  round again (b, some i) =
      let p = packet (slot_at b i) in
      let (b', rest) = again (finish b i (raw_send p)) in (b', p ∷ rest)

  unfoldable pub drain : ℕ → Broker → Broker × List Packet
  drain zero b = (b, [])
  drain (suc fuel) b = round (drain fuel) (take_work b)

  -- A wake-up of a worker that is not told to stop, of a broker whose slots and counters agree and
  -- of which no slot is being sent, ends with no slot in use, if the loop may run once more often
  -- than slots are in use; by then it has sent every packet that was in a slot, each exactly once
  -- (for every test `p` of packets, as many pass).
  pub drain_lem :
      (fuel : ℕ) (b : Broker) (p : Packet → Bool)
      → BrokerInv b
      → Held b none
      → b.stopping ≡ false
      → count_if is_used b.slots < fuel
      → (count_if is_used (drain fuel b).0.slots ≡ 0)
        × (count_if p (drain fuel b).1 ≡ count_if (holds p) b.slots)
  unfolding drain
  drain_lem zero b p v h go m = absurd (omega arith)
  drain_lem (suc fuel) b p v h go m = elim (take_work-cases b) [
    | inl (e, stop) ↦ absurd (ground (arith, go, stop))
    | inr (inl (e, _, all)) ↦
        let unused = none_used b.slots all h in rw e (unused, none_held p b.slots unused)
    | inr (inr (i, s, g, el, e)) ↦
        let b' : Broker = record b { slots = set b.slots i (record s { sending = true }) } in
        let inv : BrokerInv b' × Held b' (some i) = rw e at (take-BrokerInv b v h) in
        let err : Esp = raw_send (packet (slot_at b' i)) in
        let b'' : Broker = finish b' i err in
        let ih =
          drain_lem fuel b'' p (finish-BrokerInv b' i err inv.1 inv.0) (finish-Held b' i err inv.1)
            (stopping-finish b' i err ∙ go)
            (omega (
              arith,
              (round_lem b' i err (λ _. true) inv.1).0,
              (picked_counts b i s (λ _. true) g).0,
            )) in
        rw e
          (ih.0, omega (arith, ih.1, (round_lem b' i err p inv.1).1, (picked_counts b i s p g).1))
  ]
