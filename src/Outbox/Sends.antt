-- ===== src/Outbox/Sends.antt =====
-- What the worker of keemash_mesh_event_outbox.c does to the queue.
use keemash_core.Base.{
  ℕ, ◌≤◌, ◌<◌, ◌≡◌, refl, ap, sym, subst, ◌∙◌, true, false, Option, none, some, List, [], ◌∷◌,
  arith, get_elem?, get_or-eq, set, All, All-set, get_elem?-lt, inl, inr, Bool-cases, if_true,
  if_false, count_if, count_if-set, set-set_self, get_elem?-set_self,
}
use keemash_core.Proto.{Esp, is_ok}
use keemash_core.Outbox.{
  EventSlot, EventOutbox, no_slot, cleared, waits, event_at, take_event, settle_event,
  delivered_event, failed_event,
}
use keemash_core.Outbox.Oldest.{rank, take_event-cases}
use keemash_core.Outbox.View.{
  Event, Entry, event, entry, events, view, queue, insert-first, view-All, view-clear, view-same,
  Other,
}
use keemash_core.Outbox.Inv.{EventInv, HeldEvent, Issued-Ranked, slot_sending}
use keemash_core.Outbox.Keeps.{
  mark-EventInv, EventInv-quiet, delivered_event-EventInv, failed_event-EventInv,
}

-- Clearing the oldest slot takes the head off.
pub clear-queue :
    (base : ℕ) (o : EventOutbox) (i : ℕ) {s : EventSlot} (c : EventSlot)
    → get_elem? o.slots i ≡ some s
    → s.used ≡ true
    → c.used ≡ false
    → EventInv base o
    → All (λ t. t.used ≡ true → rank base s ≤ rank base t) o.slots
    → queue base o ≡ event s ∷ events (view base (set o.slots i c))
clear-queue base o i {s} c g u f inv oldest =
    let rest = set o.slots i c in
    let apart : All (Other base (rank base s)) rest =
      subst (All (Other base (rank base s))) (set-set_self o.slots i no_slot c) (
        All-set (Other base (rank base s)) (set o.slots i no_slot) i c (inv.apart i s g u)
          (λ w. absurd (ground (arith, w, f)))) in
    let first : All (λ t. t.used ≡ true → rank base s ≤ rank base t) rest =
      All-set (λ t. t.used ≡ true → rank base s ≤ rank base t) o.slots i c oldest
        (λ w. absurd (ground (arith, w, f))) in
    ap events (
      view-clear base o.slots i c g u f apart
      ∙ insert-first (entry base s) (view base rest) (
          view-All (λ (e : Entry). rank base s < e.0) base rest
            (strictly base (rank base s) rest first apart)))
  where
    strictly :
        (base r : ℕ) (xs : List EventSlot)
        → All (λ t. t.used ≡ true → r ≤ rank base t) xs
        → All (Other base r) xs
        → All (λ t. t.used ≡ true → r < rank base t) xs
    strictly base r [] a b = tt
    strictly base r (x ∷ xs) a b = ((λ u. omega (arith, a.0 u, b.0 u)), strictly base r xs a.1 b.1)

pub none_sending :
    (xs : List EventSlot)
    → count_if slot_sending xs ≡ 0
    → All (λ (t : EventSlot). t.sending ≡ false) xs
none_sending [] h = tt
none_sending (x ∷ xs) h = (ground arith, none_sending xs (ground arith))

waiting_used :
    (base r : ℕ) (xs : List EventSlot)
    → All (λ (t : EventSlot). t.sending ≡ false) xs
    → All (λ t. waits t ≡ true → r ≤ rank base t) xs
    → All (λ t. t.used ≡ true → r ≤ rank base t) xs
waiting_used base r [] a b = tt
waiting_used base r (x ∷ xs) a b =
    ((λ u. b.0 (ground (arith, u, a.0))), waiting_used base r xs a.1 b.1)

-- What the first critical section leaves, for what it answered.
abbrev pub TakeKeeps : ℕ → EventOutbox → EventOutbox × Option ℕ → Type 0
TakeKeeps base o r = EventInv base r.0 × HeldEvent base r.0 r.1 × (queue base r.0 ≡ queue base o)

marked-TakeKeeps :
    (base : ℕ) (o : EventOutbox) (i : ℕ) (s : EventSlot)
    → EventInv base o
    → HeldEvent base o none
    → get_elem? o.slots i ≡ some s
    → waits s ≡ true
    → All (λ t. waits t ≡ true → rank base s ≤ rank base t) o.slots
    → TakeKeeps base o (record o { slots = set o.slots i (record s { sending = true }) }, some i)
marked-TakeKeeps base o i s inv h g w first =
    let u : s.used ≡ true = ground (arith, w) in
    let new : EventSlot = record s { sending = true } in
    let oldest = waiting_used base (rank base s) o.slots (none_sending o.slots h) first in
    (
      mark-EventInv base o i true {s = s} g u inv,
      (
        new,
        get_elem?-set_self o.slots i new (get_elem?-lt o.slots i g),
        u,
        refl,
        ground (arith, count_if-set slot_sending o.slots i {x = s} new g),
        All-set (λ t. t.used ≡ true → rank base s ≤ rank base t) o.slots i new oldest
            (λ e. omega arith),
      ),
      ap events (view-same base o.slots i {x = s} new g refl refl),
    )

-- The worker's first critical section keeps the queue, and what it is given is the oldest.
pub take_event-TakeKeeps :
    (base : ℕ) (o : EventOutbox)
    → EventInv base o
    → HeldEvent base o none
    → TakeKeeps base o (take_event o)
take_event-TakeKeeps base o inv h = elim (take_event-cases base o (Issued-Ranked base o inv)) [
  | inl (e, _) ↦ subst (TakeKeeps base o) (sym e) (EventInv-quiet base o _ _ _ _ inv, h, refl)
  | inr (_, inl (e, _)) ↦ subst (TakeKeeps base o) (sym e) (inv, h, refl)
  | inr (_, inr (i, s, g, w, first, e)) ↦
      subst (TakeKeeps base o) (sym e) (marked-TakeKeeps base o i s inv h g w first)
]

-- What the second critical section leaves, for what `send` answered.
abbrev pub SettleKeeps : ℕ → EventOutbox → ℕ → Esp → EventOutbox → Type 0
SettleKeeps base o i err o' =
    EventInv base o'
    × HeldEvent base o' none
    × (is_ok err ≡ true → queue base o ≡ event (event_at o i) ∷ queue base o')
    × (is_ok err ≡ false → queue base o' ≡ queue base o)

delivered_event-SettleKeeps :
    (base : ℕ) (o : EventOutbox) (i : ℕ) (err : Esp)
    → is_ok err ≡ true
    → EventInv base o
    → HeldEvent base o (some i)
    → SettleKeeps base o i err (delivered_event o i)
delivered_event-SettleKeeps base o i err e inv (s, g, u, r, n, oldest) =
    let at : event_at o i ≡ s = get_or-eq o.slots i no_slot g in
    let c = cleared (event_at o i) in
    (
      delivered_event-EventInv base o i g u inv,
      ground (arith, count_if-set slot_sending o.slots i {x = s} c g),
      (λ _.
          clear-queue base o i c g u refl inv oldest
          ∙ ap (λ t. event t ∷ events (view base (set o.slots i c))) (sym at)),
      (λ f. absurd (ground (arith, e, f))),
    )

failed_event-SettleKeeps :
    (base : ℕ) (o : EventOutbox) (i : ℕ) (err : Esp)
    → is_ok err ≡ false
    → EventInv base o
    → HeldEvent base o (some i)
    → SettleKeeps base o i err (failed_event o i err)
failed_event-SettleKeeps base o i err e inv (s, g, u, r, n, oldest) =
    let at : event_at o i ≡ s = get_or-eq o.slots i no_slot g in
    let c : EventSlot = record (event_at o i) { sending = false } in
    (
      failed_event-EventInv base o i err g u inv,
      ground (arith, count_if-set slot_sending o.slots i {x = s} c g),
      (λ t. absurd (ground (arith, e, t))),
      (λ _. ap events (
          view-same base o.slots i {x = s} c g (ap (λ (t : EventSlot). t.used) at)
            (ap (entry base) at))),
    )

-- If slot `i` is being sent: a success takes its event, the head, off the queue, a failure
-- leaves the queue as it was; after both no slot is being sent.
pub settle_event-SettleKeeps :
    (base : ℕ) (o : EventOutbox) (i : ℕ) (err : Esp)
    → EventInv base o
    → HeldEvent base o (some i)
    → SettleKeeps base o i err (settle_event o i err)
unfolding settle_event
settle_event-SettleKeeps base o i err inv h = elim (Bool-cases (is_ok err)) [
  | inl e ↦
      subst (SettleKeeps base o i err) (sym (if_true _ _ e))
        (delivered_event-SettleKeeps base o i err e inv h)
  | inr e ↦
      subst (SettleKeeps base o i err) (sym (if_false _ _ e))
        (failed_event-SettleKeeps base o i err e inv h)
]

-- The event of the slot that is being sent is the head.
pub held_head :
    (base : ℕ) (o : EventOutbox) (i : ℕ)
    → EventInv base o
    → HeldEvent base o (some i)
    → (rest : List Event) × (queue base o ≡ event (event_at o i) ∷ rest)
held_head base o i inv (s, g, u, r, n, oldest) =
    let at : event_at o i ≡ s = get_or-eq o.slots i no_slot g in
    let c = cleared (event_at o i) in
    let rest = events (view base (set o.slots i c)) in
    (rest, clear-queue base o i c g u refl inv oldest ∙ ap (λ t. event t ∷ rest) (sym at))
