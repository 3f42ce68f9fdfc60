-- ===== src/Outbox/Held.antt =====
-- Calls of keemash_mesh_event_outbox.c leave the slot alone that the worker is sending.
use keemash_core.Base.{
  ℕ, ◌+◌, ◌^◌, ◌≤◌, ◌<◌, ◌≡◌, ◌≢◌, refl, ap, ◌∙◌, Bool, true, false, Option, none, some, List,
  arith, get_elem?, get_elem?-set_ne, get_or-eq, get_or, get_or-set_ne, set, All-set, All-get,
  count_if-set, inc32,
}
use keemash_core.Outbox.{EventSlot, EventOutbox, no_slot, event_at}
use keemash_core.Outbox.Enqueue.{fill_slot, coalesce, new_event, with_text}
use keemash_core.Outbox.Oldest.{rank}
use keemash_core.Outbox.Inv.{
  EventInv, HeldEvent, AtRest, Issued, last_rank, later_rank, slot_sending,
}

-- The slot that the worker holds is as it was.
abbrev pub SameHeld : Option ℕ → EventOutbox → EventOutbox → Type 0
SameHeld none o o' = Unit {0}
SameHeld (some i) o o' = event_at o' i ≡ event_at o i

pub SameHeld-refl : (w : Option ℕ) (o o' : EventOutbox) → o'.slots ≡ o.slots → SameHeld w o o'
SameHeld-refl none o o' e = tt
SameHeld-refl (some i) o o' e = ap (λ xs. get_or xs i no_slot) e

pub SameHeld-trans :
    (w : Option ℕ) (o p r : EventOutbox) → SameHeld w o p → SameHeld w p r → SameHeld w o r
SameHeld-trans none o p r a b = tt
SameHeld-trans (some i) o p r a b = b ∙ a

-- The worker holds what it held.
abbrev pub KeepsHeld : ℕ → EventOutbox → EventOutbox → Type 0
KeepsHeld base o o' = (w : Option ℕ) → HeldEvent base o w → HeldEvent base o' w × SameHeld w o o'

pub unmoved-KeepsHeld : (base : ℕ) (o : EventOutbox) → KeepsHeld base o o
unmoved-KeepsHeld base o w h = (h, SameHeld-refl w o o refl)

-- What the worker does not read may change as well.
pub quiet-KeepsHeld :
    (base : ℕ) (o p : EventOutbox) (overflow high_watermark : ℕ) (stopping task : Bool)
    → KeepsHeld base o p
    → KeepsHeld base o (record p {
      stopping = stopping;
      task = task;
      stats = record p.stats { overflow = overflow; high_watermark = high_watermark };
    })
quiet-KeepsHeld base o p overflow high_watermark stopping task k none h = k none h
quiet-KeepsHeld base o p overflow high_watermark stopping task k (some i) h = k (some i) h

-- A write with the next ticket to a slot that is not being sent.
next-KeepsHeld :
    (base : ℕ) (o : EventOutbox) (k : ℕ) (s v : EventSlot)
    → get_elem? o.slots k ≡ some s
    → s.sending ≡ false
    → v.sending ≡ false
    → v.ticket ≡ inc32 o.next_ticket
    → EventInv base o
    → last_rank base o + 1 < 2 ^ 31
    → KeepsHeld base o (record o { slots = set o.slots k v })
next-KeepsHeld base o k s v g f f' e inv room none h =
    (ground (arith, count_if-set slot_sending o.slots k {x = s} v g), tt)
next-KeepsHeld base o k s v g f f' e inv room (some i) (t, gt, u, r, n, oldest) =
    let apart : k ≢ i = λ same. ground (arith, same) in
    (
      (
        t,
        get_elem?-set_ne o.slots v apart ∙ gt,
        u,
        r,
        ground (arith, count_if-set slot_sending o.slots k {x = s} v g),
        All-set (λ x. x.used ≡ true → rank base t ≤ rank base x) o.slots k v oldest
            λ w.
              let issued = All-get (Issued base (last_rank base o)) o.slots i inv.issued gt u in
              omega (arith, issued, later_rank base o v inv room e),
      ),
      get_or-set_ne o.slots v no_slot apart,
    )

pub fill_slot-KeepsHeld :
    (base : ℕ) (o : EventOutbox) (k : ℕ) (key text : List ℕ) {s : EventSlot}
    → get_elem? o.slots k ≡ some s
    → s.used ≡ false
    → EventInv base o
    → last_rank base o + 1 < 2 ^ 31
    → KeepsHeld base o (fill_slot o k key text)
unfolding fill_slot
fill_slot-KeepsHeld base o k key text {s} g u inv room none h =
    next-KeepsHeld base o k s (new_event o key text) g (All-get AtRest o.slots k inv.at_rest g u)
      refl refl inv room none h
fill_slot-KeepsHeld base o k key text {s} g u inv room (some i) h =
    next-KeepsHeld base o k s (new_event o key text) g (All-get AtRest o.slots k inv.at_rest g u)
      refl refl inv room (some i) h

pub coalesce-KeepsHeld :
    (base : ℕ) (o : EventOutbox) (k : ℕ) (text : List ℕ) {s : EventSlot}
    → get_elem? o.slots k ≡ some s
    → s.sending ≡ false
    → EventInv base o
    → last_rank base o + 1 < 2 ^ 31
    → KeepsHeld base o (coalesce o k text)
unfolding coalesce
coalesce-KeepsHeld base o k text {s} g f inv room none h =
    let same : (event_at o k).sending ≡ false =
      ap (λ (t : EventSlot). t.sending) (get_or-eq o.slots k no_slot g) ∙ f in
    next-KeepsHeld base o k s (with_text o (event_at o k) text) g f same refl inv room none h
coalesce-KeepsHeld base o k text {s} g f inv room (some i) h =
    let same : (event_at o k).sending ≡ false =
      ap (λ (t : EventSlot). t.sending) (get_or-eq o.slots k no_slot g) ∙ f in
    next-KeepsHeld base o k s (with_text o (event_at o k) text) g f same refl inv room (some i) h
