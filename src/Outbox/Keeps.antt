-- ===== src/Outbox/Keeps.antt =====
-- The operations of keemash_mesh_event_outbox.c keep its slots, tickets and counters in agreement.
use keemash_core.Base.{
  ℕ, ◌+◌, ◌^◌, ◌<◌, ◌≡◌, refl, ap, sym, subst, Bool, true, false, some, List, arith, get_elem?,
  get_or-eq, set, count_if-set, count_if-le, All-set, All-get, length-set, inl, inr, Bool-cases,
  if_true, if_false,
}
use keemash_core.Proto.{Esp, is_ok}
use keemash_core.Outbox.{
  EventSlot, EventOutbox, no_slot, cleared, event_at, settle_event, delivered_event, failed_event,
}
use keemash_core.Outbox.Enqueue.{fill_slot, coalesce, new_event, with_text}
use keemash_core.Outbox.Inv.{
  slot_used, Issued, last_rank, AtRest, EventInv, Apart-set, next_rank, next-Issued, next-Apart,
}

pub fill_slot-EventInv :
    (base : ℕ) (o : EventOutbox) (i : ℕ) (key text : List ℕ) {s : EventSlot}
    → get_elem? o.slots i ≡ some s
    → s.used ≡ false
    → EventInv base o
    → last_rank base o + 1 < 2 ^ 31
    → EventInv base (fill_slot o i key text)
unfolding fill_slot
fill_slot-EventInv base o i key text {s} g f v room =
    let new = new_event o key text in
    let more = count_if-set slot_used o.slots i {x = s} new g in
    let bound = count_if-le slot_used (set o.slots i new) in
    let size = length-set o.slots i new in
    record {
      table = omega (arith, v.table, size);
      small = v.small;
      pending = ground (arith, more, bound, size, v.pending, v.table, v.small);
      balance = ground (arith, more, bound, size, v.pending, v.table, v.small, v.balance);
      tickets = (v.tickets.0, omega arith, omega (arith, next_rank base o v room, room));
      issued = next-Issued base o i new v room refl;
      apart = next-Apart base o i new v room refl;
      at_rest = All-set AtRest o.slots i new v.at_rest (λ e. refl);
    }

pub coalesce-EventInv :
    (base : ℕ) (o : EventOutbox) (i : ℕ) (text : List ℕ) {s : EventSlot}
    → get_elem? o.slots i ≡ some s
    → s.used ≡ true
    → EventInv base o
    → last_rank base o + 1 < 2 ^ 31
    → EventInv base (coalesce o i text)
unfolding coalesce
coalesce-EventInv base o i text {s} g u v room =
    let new = with_text o (event_at o i) text in
    let at : event_at o i ≡ s = get_or-eq o.slots i no_slot g in
    let same = count_if-set slot_used o.slots i {x = s} new g in
    record {
      table = omega (arith, v.table, length-set o.slots i new);
      small = v.small;
      pending = ground (arith, same, v.pending, at);
      balance = v.balance;
      tickets = (v.tickets.0, omega arith, omega (arith, next_rank base o v room, room));
      issued = next-Issued base o i new v room refl;
      apart = next-Apart base o i new v room refl;
      at_rest = All-set AtRest o.slots i new v.at_rest (λ e. absurd (ground (arith, e, at)));
    }

pub mark-EventInv :
    (base : ℕ) (o : EventOutbox) (i : ℕ) (sending : Bool) {s : EventSlot}
    → get_elem? o.slots i ≡ some s
    → s.used ≡ true
    → EventInv base o
    → EventInv base (record o { slots = set o.slots i (record s { sending = sending }) })
mark-EventInv base o i sending {s} g u v =
    let new : EventSlot = record s { sending = sending } in
    let same = count_if-set slot_used o.slots i {x = s} new g in
    record {
      table = omega (arith, v.table, length-set o.slots i new);
      small = v.small;
      pending = ground (arith, same, v.pending);
      balance = v.balance;
      tickets = v.tickets;
      issued =
          All-set (Issued base (last_rank base o)) o.slots i new v.issued
            (All-get (Issued base (last_rank base o)) o.slots i v.issued g);
      apart = Apart-set base o.slots i new v.apart (λ w. v.apart i s g u);
      at_rest = All-set AtRest o.slots i new v.at_rest (λ e. absurd (ground (arith, u, e)));
    }

-- What is not read by the invariant may change.
pub EventInv-quiet :
    (base : ℕ) (o : EventOutbox) (overflow high_watermark : ℕ) (stopping task : Bool)
    → EventInv base o
    → EventInv base (record o {
      stopping = stopping;
      task = task;
      stats = record o.stats { overflow = overflow; high_watermark = high_watermark };
    })
EventInv-quiet base o overflow high_watermark stopping task v = record {
  table = v.table;
  small = v.small;
  pending = v.pending;
  balance = v.balance;
  tickets = v.tickets;
  issued = v.issued;
  apart = v.apart;
  at_rest = v.at_rest;
}

pub delivered_event-EventInv :
    (base : ℕ) (o : EventOutbox) (i : ℕ) {s : EventSlot}
    → get_elem? o.slots i ≡ some s
    → s.used ≡ true
    → EventInv base o
    → EventInv base (delivered_event o i)
delivered_event-EventInv base o i {s} g u v =
    let new = cleared (event_at o i) in
    let less = count_if-set slot_used o.slots i {x = s} new g in
    let bound = count_if-le slot_used o.slots in
    record {
      table = omega (arith, v.table, length-set o.slots i new);
      small = v.small;
      pending = ground (arith, less, bound, v.pending, v.table, v.small);
      balance = ground (arith, less, bound, v.pending, v.table, v.small, v.balance);
      tickets = v.tickets;
      issued =
          All-set (Issued base (last_rank base o)) o.slots i new v.issued
            (λ e. absurd (ground (arith, e)));
      apart = Apart-set base o.slots i new v.apart (λ e. absurd (ground (arith, e)));
      at_rest = All-set AtRest o.slots i new v.at_rest (λ e. refl);
    }

pub failed_event-EventInv :
    (base : ℕ) (o : EventOutbox) (i : ℕ) (err : Esp) {s : EventSlot}
    → get_elem? o.slots i ≡ some s
    → s.used ≡ true
    → EventInv base o
    → EventInv base (failed_event o i err)
failed_event-EventInv base o i err {s} g u v =
    let at : event_at o i ≡ s = get_or-eq o.slots i no_slot g in
    let marked = mark-EventInv base o i false {s = s} g u v in
    let slots : set o.slots i (record s { sending = false })
        ≡ set o.slots i (record (event_at o i) { sending = false }) =
      ap (λ (t : EventSlot). set o.slots i (record t { sending = false })) (sym at) in
    subst (λ xs. EventInv base (record (failed_event o i err) { slots = xs })) slots
      (record {
        table = marked.table;
        small = marked.small;
        pending = marked.pending;
        balance = marked.balance;
        tickets = marked.tickets;
        issued = marked.issued;
        apart = marked.apart;
        at_rest = marked.at_rest;
      })

pub settle_event-EventInv :
    (base : ℕ) (o : EventOutbox) (i : ℕ) (err : Esp) {s : EventSlot}
    → get_elem? o.slots i ≡ some s
    → s.used ≡ true
    → EventInv base o
    → EventInv base (settle_event o i err)
unfolding settle_event
settle_event-EventInv base o i err g u v = elim (Bool-cases (is_ok err)) [
  | inl e ↦ subst (EventInv base) (sym (if_true _ _ e)) (delivered_event-EventInv base o i g u v)
  | inr e ↦ subst (EventInv base) (sym (if_false _ _ e)) (failed_event-EventInv base o i err g u v)
]
