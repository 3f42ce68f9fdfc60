-- ===== src/Outbox/Grouped.antt =====
-- What `enqueue_group` of keemash_mesh_event_outbox.c does to the queue: all events, or none.
use mathlib.Core.Option
use keemash_core.Base.{
  ℕ, ◌+◌, ◌-◌, ◌^◌, ◌≤◌, ◌<◌, ◌≡◌, refl, ap, sym, subst, ◌∙◌, Bool, true, false, not, ◌||◌, Option,
  none, some, List, [], ◌∷◌, ◌++◌, map, append-nil, append_assoc, arith, length, get_elem?, inl,
  inr, Option-cases, find_index-some, find_index-none, count_if-set, ltb, ◌==◌, if_either, take_all,
  take, ◌≢◌,
}
use keemash_core.Proto.{Esp, ok, no_mem, invalid_arg, invalid_size, timeout}
use keemash_core.Outbox.{EventSlot, EventOutbox}
use keemash_core.Outbox.Enqueue.{
  fill_slot, update_high_watermark_locked, new_event, free_locked, slot_free, fill_all, fill_next,
  enqueue_group, all_fit, free_count, overflowed,
}
use keemash_core.Outbox.View.{Event, queue}
use keemash_core.Outbox.Inv.{EventInv, last_rank, next_rank}
use keemash_core.Outbox.Keeps.{fill_slot-EventInv, EventInv-quiet}
use keemash_core.Outbox.Fifo.{fill_slot-queue}
use keemash_core.Outbox.Adds.{offered_event, Unchanged, overflowed-Unchanged}
use keemash_core.Outbox.Held.{
  KeepsHeld, fill_slot-KeepsHeld, unmoved-KeepsHeld, SameHeld-trans, quiet-KeepsHeld,
}

-- The events of a group, in the order of the call, and without a key.
abbrev pub group_events : List (Option (List ℕ)) → List Event
group_events = map (λ t. offered_event [] (Option.get_or t []))

-- What a group that was accepted leaves.
abbrev pub GroupAccepted : ℕ → EventOutbox → List (Option (List ℕ)) → EventOutbox → Type 0
GroupAccepted base o texts o' =
    EventInv base o' × KeepsHeld base o o' × (queue base o' ≡ queue base o ++ group_events texts)

fill_slot-free_count :
    (o : EventOutbox) (i : ℕ) (key text : List ℕ) {s : EventSlot}
    → get_elem? o.slots i ≡ some s
    → slot_free s ≡ true
    → free_count (fill_slot o i key text) + 1 ≡ free_count o
unfolding fill_slot
fill_slot-free_count o i key text {s} g f =
    ground (arith, count_if-set slot_free o.slots i {x = s} (new_event o key text) g)

last_rank-fill_slot :
    (base : ℕ) (o : EventOutbox) (i : ℕ) (key text : List ℕ)
    → EventInv base o
    → last_rank base o + 1 < 2 ^ 31
    → last_rank base (fill_slot o i key text) ≡ last_rank base o + 1
unfolding fill_slot
last_rank-fill_slot base o i key text inv room = next_rank base o inv room

size :
    (o : EventOutbox) (i : ℕ) (key text : List ℕ)
    → (fill_slot o i key text).cfg.text_size ≡ o.cfg.text_size
unfolding fill_slot
size o i key text = refl

-- One round of the loop finds a free slot.
fill_next_lem :
    (o : EventOutbox) (text : List ℕ)
    → 0 < free_count o
    → (i : ℕ) × (s : EventSlot) × (get_elem? o.slots i ≡ some s)
      × (slot_free s ≡ true)
      × (fill_next o text (free_locked o) ≡ fill_slot o i [] text)
fill_next_lem o text h = elim (Option-cases (free_locked o)) [
  | inl e ↦ absurd (omega (arith, find_index-none slot_free o.slots e))
  | inr (i, e) ↦
      let (s, g, f) = find_index-some slot_free o.slots i e in (i, s, g, f, ap (fill_next o text) e)
]

all_fit-cons :
    (size : ℕ) (t : Option (List ℕ)) (texts : List (Option (List ℕ)))
    → all_fit size (t ∷ texts) ≡ true
    → (length (Option.get_or t []) < size) × (all_fit size texts ≡ true)
all_fit-cons size none texts h = absurd (ground arith)
all_fit-cons size (some text) texts h = ground arith

-- The first event of a group, and what the rest of the loop does.
group_step :
    (base : ℕ) (o next : EventOutbox) (t : Option (List ℕ)) (texts : List (Option (List ℕ))) (i : ℕ)
    (s : EventSlot)
    → get_elem? o.slots i ≡ some s
    → s.used ≡ false
    → EventInv base o
    → last_rank base o + 1 < 2 ^ 31
    → length (Option.get_or t []) < o.cfg.text_size
    → next ≡ fill_slot o i [] (Option.get_or t [])
    → GroupAccepted base
        (fill_slot o i [] (Option.get_or t []))
        texts
        (fill_all (fill_slot o i [] (Option.get_or t [])) texts)
    → GroupAccepted base o (t ∷ texts) (fill_all next texts)
group_step base o next t texts i s g u inv room fits e (inv', held, q) =
    let text = Option.get_or t [] in
    let whole : take (o.cfg.text_size - 1) text ≡ text =
      take_all (o.cfg.text_size - 1) text (omega arith) in
    subst (λ p. GroupAccepted base o (t ∷ texts) (fill_all p texts)) (sym e)
      (
        inv',
        (λ w h.
            let first = fill_slot-KeepsHeld base o i [] text g u inv room w h in
            let rest = held w first.0 in (rest.0, SameHeld-trans w o _ _ first.1 rest.1)),
        q
            ∙ ap (λ x. x ++ group_events texts)
                (fill_slot-queue base o i [] text g u inv room
                  ∙ ap (λ (b : List ℕ). queue base o ++ offered_event [] b ∷ []) whole)
            ∙ append_assoc (queue base o) (offered_event [] text ∷ []) (group_events texts),
      )

fill_all-GroupAccepted :
    (base : ℕ) (o : EventOutbox) (texts : List (Option (List ℕ)))
    → EventInv base o
    → last_rank base o + length texts < 2 ^ 31
    → length texts ≤ free_count o
    → all_fit o.cfg.text_size texts ≡ true
    → GroupAccepted base o texts (fill_all o texts)
unfolding fill_all
fill_all-GroupAccepted base o [] inv room enough fits =
    (inv, unmoved-KeepsHeld base o, sym (append-nil (queue base o)))
fill_all-GroupAccepted base o (t ∷ texts) inv room enough fits =
    let text = Option.get_or t [] in
    let (i, s, g, f, e) = fill_next_lem o text (omega arith) in
    let u : s.used ≡ false = ground (arith, f) in
    let split = all_fit-cons o.cfg.text_size t texts fits in
    group_step base o (fill_next o text (free_locked o)) t texts i s g u inv (omega arith) split.0 e
      (fill_all-GroupAccepted base (fill_slot o i [] text) texts
        (fill_slot-EventInv base o i [] text g u inv (omega arith))
        (omega (arith, last_rank-fill_slot base o i [] text inv (omega arith)))
        (omega (arith, fill_slot-free_count o i [] text g f))
        (ap (λ (c : ℕ). all_fit c texts) (size o i [] text) ∙ split.1))

abbrev pub EnqueuesGroup : ℕ → EventOutbox → List (Option (List ℕ)) → EventOutbox × Esp → Type 0
EnqueuesGroup base o texts r =
    (r.1 ≡ ok → GroupAccepted base o texts r.0) × (r.1 ≢ ok → Unchanged base o r.0)

refused-EnqueuesGroup :
    (base : ℕ) (o o' : EventOutbox) (texts : List (Option (List ℕ))) (err : Esp)
    → err ≢ ok
    → Unchanged base o o'
    → EnqueuesGroup base o texts (o', err)
refused-EnqueuesGroup base o o' texts err n h = ((λ e. absurd (n e)), (λ _. h))

fulfilled-EnqueuesGroup :
    (base : ℕ) (o o' : EventOutbox) (texts : List (Option (List ℕ)))
    → GroupAccepted base o texts o'
    → EnqueuesGroup base o texts (update_high_watermark_locked o', ok)
unfolding update_high_watermark_locked
fulfilled-EnqueuesGroup base o o' texts (inv, held, q) = (
  (λ _. (EventInv-quiet base o' _ _ _ _ inv, quiet-KeepsHeld base o o' _ _ _ _ held, q)),
  (λ n. absurd (n refl)),
)

-- If the slots, the tickets and the counters of an outbox agree, and its tickets with those of the
-- group span less than half of the 32-bit range, they agree after a call of `enqueue_group` as
-- well, and the worker holds what it held. After ESP_OK the queue is the one before with all events
-- of the group behind it, in the order of the call, with their whole texts; after another code it
-- is the one before.
pub enqueue_group-EnqueuesGroup :
    (base : ℕ) (o : EventOutbox) (locked : Bool) (texts : List (Option (List ℕ)))
    → EventInv base o
    → last_rank base o + length texts < 2 ^ 31
    → EnqueuesGroup base o texts (enqueue_group o locked (some texts))
unfolding enqueue_group
enqueue_group-EnqueuesGroup base o locked texts inv room =
    let P = EnqueuesGroup base o texts in
    let same : Unchanged base o o = (inv, unmoved-KeepsHeld base o, refl) in
    let refused = λ (err : Esp) (n : err ≢ ok). refused-EnqueuesGroup base o o texts err n same in
    if_either P ((length texts == 0) || ltb o.cfg.slots (length texts))
      (λ _. refused invalid_arg (λ h. cc))
      λ _.
        if_either P (not (all_fit o.cfg.text_size texts)) (λ _. refused invalid_size (λ h. cc))
          λ fits.
            if_either P (not locked) (λ _. refused timeout (λ h. cc))
              λ _.
                if_either P (ltb (free_count o) (length texts))
                  (λ _.
                    refused-EnqueuesGroup base o (overflowed o) texts no_mem (λ h. cc)
                      (overflowed-Unchanged base o inv))
                  λ enough.
                    fulfilled-EnqueuesGroup base o (fill_all o texts) texts
                      (fill_all-GroupAccepted base o texts inv room (ground arith) (ground arith))
