-- ===== src/Outbox/Drain.antt =====
-- The inner loop of `event_worker`: what a wake-up of the worker delivers, with no caller in between.
use keemash_core.Base.{
  ℕ, zero, suc, ◌<◌, ◌≡◌, refl, ap, sym, subst, ◌∙◌, true, false, Option, none, some, List, [], ◌∷◌,
  arith, length, All, inl, inr, if◌then◌else◌, if_true, if_false, if_keeps, if_either, set,
  get_or-eq,
}
use keemash_core.Proto.{Esp, is_ok}
use keemash_core.Outbox.{EventSlot, EventOutbox, waits, event_at, take_event, settle_event, no_slot}
use keemash_core.Outbox.Oldest.{take_event-cases}
use keemash_core.Outbox.View.{Event, event, events, view, queue}
use keemash_core.Outbox.Inv.{EventInv, HeldEvent, Issued-Ranked}
use keemash_core.Outbox.Sends.{
  TakeKeeps, take_event-TakeKeeps, settle_event-SettleKeeps, none_sending, clear-queue,
}

held-head :
    (base : ℕ) (o : EventOutbox) (i : ℕ)
    → EventInv base o
    → HeldEvent base o (some i)
    → (rest : List Event) × (queue base o ≡ event (event_at o i) ∷ rest)
held-head base o i inv (s, g, u, r, n, oldest) =
    let at : event_at o i ≡ s = get_or-eq o.slots i no_slot g in
    let rest = events (view base (set o.slots i no_slot)) in
    (rest, clear-queue base o i no_slot g u refl inv oldest ∙ ap (λ t. event t ∷ rest) (sym at))

stopping-settle_event :
    (o : EventOutbox) (i : ℕ) (err : Esp) → (settle_event o i err).stopping ≡ o.stopping
unfolding settle_event
stopping-settle_event o i err = if_keeps (λ (p : EventOutbox). p.stopping) (is_ok err) refl refl

-- `send` answers by the text that it is given. The fuel counts the rounds of the loop.
module _ (send : List ℕ → Esp) where
  -- One round, whose first critical section answered this; `again` is the rest of the loop. The
  -- events are those for which `send` answered ESP_OK, in the order of the calls.
  abbrev work_round :
      (EventOutbox → EventOutbox × List Event) → EventOutbox × Option ℕ → EventOutbox × List Event
  work_round again (o, none) = (o, [])
  work_round again (o, some i) =
      let e = event (event_at o i) in
      let o' = settle_event o i (send e.text) in
      let rest = again o' in if is_ok (send e.text) then (rest.0, e ∷ rest.1) else (o', [])

  unfoldable pub work : ℕ → EventOutbox → EventOutbox × List Event
  work zero o = (o, [])
  work (suc fuel) o = work_round (work fuel) (take_event o)

  -- The events at the front that `send` takes, and those from the first that it refuses.
  abbrev pub taken : List Event → List Event
  taken [] = []
  taken (e ∷ q) = if is_ok (send e.text) then e ∷ taken q else []

  abbrev pub left : List Event → List Event
  left [] = []
  left (e ∷ q) = if is_ok (send e.text) then left q else e ∷ q

  unused_queue :
      (base : ℕ) (xs : List EventSlot)
      → All (λ t. waits t ≡ false) xs
      → All (λ (t : EventSlot). t.sending ≡ false) xs
      → view base xs ≡ []
  unused_queue base [] w s = refl
  unused_queue base (x ∷ xs) w s =
      if_false {b = x.used} _ _ (ground (arith, w.0, s.0)) ∙ unused_queue base xs w.1 s.1

  abbrev Works : ℕ → List Event → EventOutbox × List Event → Type 0
  Works base q r = (r.1 ≡ taken q) × (queue base r.0 ≡ left q) × EventInv base r.0

  delivered-Works :
      (base : ℕ) (q rest : List Event) (e : Event) (r : EventOutbox × List Event)
      → q ≡ e ∷ rest
      → is_ok (send e.text) ≡ true
      → Works base rest r
      → Works base q (r.0, e ∷ r.1)
  delivered-Works base q rest e r h o (sent, later, inv) = (
    ap (◌∷◌ e) sent ∙ sym (ap taken h ∙ if_true _ _ o),
    later ∙ sym (ap left h ∙ if_true _ _ o),
    inv,
  )

  failed-Works :
      (base : ℕ) (q rest : List Event) (e : Event) (o : EventOutbox)
      → q ≡ e ∷ rest
      → is_ok (send e.text) ≡ false
      → queue base o ≡ q
      → EventInv base o
      → Works base q (o, [])
  failed-Works base q rest e o h f same inv =
      (sym (ap taken h ∙ if_false _ _ f), same ∙ sym (ap left h ∙ if_false _ _ f ∙ sym h), inv)

  worked :
      (base fuel i : ℕ) (o : EventOutbox)
      → EventInv base o
      → HeldEvent base o (some i)
      → o.stopping ≡ false
      → length (queue base o) < suc fuel
      → ((o' : EventOutbox)
          → EventInv base o'
          → HeldEvent base o' none
          → o'.stopping ≡ false
          → length (queue base o') < fuel
          → Works base (queue base o') (work fuel o'))
      → Works base (queue base o) (work_round (work fuel) (o, some i))
  worked base fuel i o inv h go few ih =
      let e = event (event_at o i) in
      let o' = settle_event o i (send e.text) in
      let (inv', idle, yes', no') = settle_event-SettleKeeps base o i (send e.text) inv h in
      let (rest, head) = held-head base o i inv h in
      if_either (Works base (queue base o)) (is_ok (send e.text))
        (λ good.
          delivered-Works base (queue base o) (queue base o') e (work fuel o') (yes' good) good (
            ih o' inv' idle (stopping-settle_event o i (send e.text) ∙ go)
              (omega (arith, ap length (yes' good)))))
        (λ bad. failed-Works base (queue base o) rest e o' head bad (no' bad) inv')

  -- A wake-up of a worker that is not told to stop, of an outbox whose slots, tickets and counters
  -- agree and of which no slot is being sent, ends if the loop may run once more often than events
  -- are queued. By then it has delivered the events at the front of the queue, in its order, up to
  -- the first that `send` refuses, and the queue is the rest, that event included: if `send` takes
  -- every text, everything that was queued is delivered.
  pub work_lem :
      (base fuel : ℕ) (o : EventOutbox)
      → EventInv base o
      → HeldEvent base o none
      → o.stopping ≡ false
      → length (queue base o) < fuel
      → ((work fuel o).1 ≡ taken (queue base o))
        × (queue base (work fuel o).0 ≡ left (queue base o))
        × EventInv base (work fuel o).0
  unfolding work
  work_lem base zero o inv h go few = absurd (omega arith)
  work_lem base (suc fuel) o inv h go few =
      let keeps = take_event-TakeKeeps base o inv h in
      let again = λ (p : EventOutbox). work_lem base fuel p in
      elim (take_event-cases base o (Issued-Ranked base o inv)) [
        | inl (e, stop) ↦ absurd (ground (arith, go, stop))
        | inr (_, inl (e, all)) ↦
            let nothing : queue base o ≡ [] =
              ap events (unused_queue base o.slots all (none_sending o.slots h)) in
            subst (λ r. Works base (queue base o) (work_round (work fuel) r)) (sym e)
              (sym (ap taken nothing), nothing ∙ sym (ap left nothing), inv)
        | inr (_, inr (i, s, g, w, first, e)) ↦
            let o' : EventOutbox = record o {
              slots = set o.slots i (record s { sending = true });
            } in
            let (inv', held, same) = subst (TakeKeeps base o) e keeps in
            subst (λ r. Works base (queue base o) (work_round (work fuel) r)) (sym e)
              (subst (λ q. Works base q (work_round (work fuel) (o', some i))) same
                (worked base fuel i o' inv' held go (omega (arith, ap length same)) again))
      ]
