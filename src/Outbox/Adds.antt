-- ===== src/Outbox/Adds.antt =====
-- What the calls of keemash_mesh_event_outbox.c do to the queue: `enqueue` and `enqueue_group`.
use mathlib.Core.Option
use keemash_core.Base.{
  ℕ, ◌+◌, ◌-◌, ◌^◌, ◌<◌, ◌≡◌, ◌≢◌, ◌⊎◌, refl, ap, subst, ◌∙◌, Bool, true, false, Option, none, some,
  List, [], ◌∷◌, ◌++◌, arith, length, take_all, take, get_elem?, inl, inr, find_index-some, leb,
  if_either, ◌==◌, not,
}
use keemash_core.Proto.{Esp, ok, no_mem, invalid_arg, invalid_size, timeout}
use keemash_core.Outbox.{EventSlot, EventOutbox}
use keemash_core.Outbox.Enqueue.{
  fill_slot, coalesce, update_high_watermark_locked, enqueue, find_mate, is_mate, free_locked,
  place_event, add_event, strncmp_eq, slot_free, overflowed,
}
use keemash_core.Outbox.View.{Event, event, queue}
use keemash_core.Outbox.Inv.{EventInv, last_rank}
use keemash_core.Outbox.Keeps.{fill_slot-EventInv, coalesce-EventInv, EventInv-quiet}
use keemash_core.Outbox.Held.{
  KeepsHeld, unmoved-KeepsHeld, quiet-KeepsHeld, fill_slot-KeepsHeld, coalesce-KeepsHeld,
}
use keemash_core.Outbox.Fifo.{fill_slot-queue, coalesce-queue, Replaces}

-- The event that a caller hands over, as it is stored.
abbrev pub offered_event : List ℕ → List ℕ → Event
offered_event key text = record { key = take 15 key; text = text }

-- What a call that was accepted does to the queue: the event comes last, or replaces one with the key.
abbrev pub AddsTo : List ℕ → List ℕ → List Event → List Event → Type 0
AddsTo key text q q' =
    (q' ≡ q ++ offered_event key text ∷ [])
    ⊎ ((e : Event) × (strncmp_eq 16 e.key key ≡ true) × Replaces q q' e (record e { text = text }))

find_mate-some :
    (key : Option (List ℕ)) (xs : List EventSlot) (i : ℕ)
    → find_mate key xs ≡ some i
    → (s : EventSlot) × (get_elem? xs i ≡ some s) × (is_mate (Option.get_or key []) s ≡ true)
find_mate-some none xs i e = absurd (ground arith)
find_mate-some (some []) xs i e = absurd (ground arith)
find_mate-some (some (c ∷ key)) xs i e = find_index-some (is_mate (c ∷ key)) xs i e

-- What an accepted call leaves.
abbrev pub Accepted : ℕ → EventOutbox → List ℕ → List ℕ → EventOutbox → Type 0
Accepted base o key text o' =
    EventInv base o' × KeepsHeld base o o' × AddsTo key text (queue base o) (queue base o')

-- A call that was refused leaves the slots and the tickets alone.
abbrev pub Unchanged : ℕ → EventOutbox → EventOutbox → Type 0
Unchanged base o o' = EventInv base o' × KeepsHeld base o o' × (queue base o' ≡ queue base o)

abbrev pub Enqueues : ℕ → EventOutbox → List ℕ → List ℕ → EventOutbox × Esp → Type 0
Enqueues base o key text r =
    (r.1 ≡ ok → Accepted base o key text r.0) × (r.1 ≢ ok → Unchanged base o r.0)

pub overflowed-Unchanged :
    (base : ℕ) (o : EventOutbox) → EventInv base o → Unchanged base o (overflowed o)
overflowed-Unchanged base o inv = (
  EventInv-quiet base o _ _ _ _ inv,
  quiet-KeepsHeld base o o _ _ _ _ (unmoved-KeepsHeld base o),
  refl,
)

refused-Enqueues :
    (base : ℕ) (o o' : EventOutbox) (key text : List ℕ) (err : Esp)
    → err ≢ ok
    → Unchanged base o o'
    → Enqueues base o key text (o', err)
refused-Enqueues base o o' key text err n h = ((λ e. absurd (n e)), (λ _. h))

filled_Accepted :
    (base : ℕ) (o : EventOutbox) (i : ℕ) (key text : List ℕ) (s : EventSlot)
    → get_elem? o.slots i ≡ some s
    → slot_free s ≡ true
    → EventInv base o
    → last_rank base o + 1 < 2 ^ 31
    → length text < o.cfg.text_size
    → Accepted base o key text (update_high_watermark_locked (fill_slot o i key text))
unfolding update_high_watermark_locked fill_slot
filled_Accepted base o i key text s g f inv room fits =
    let u : s.used ≡ false = ground arith in
    (
      EventInv-quiet base (fill_slot o i key text) _ _ _ _
          (fill_slot-EventInv base o i key text g u inv room),
      quiet-KeepsHeld base o (fill_slot o i key text) _ _ _ _
          (fill_slot-KeepsHeld base o i key text g u inv room),
      inl (
          fill_slot-queue base o i key text g u inv room
          ∙ ap (λ (t : List ℕ). queue base o ++ offered_event key t ∷ [])
              (take_all (o.cfg.text_size - 1) text (omega arith))),
    )

replaced_Accepted :
    (base : ℕ) (o : EventOutbox) (i : ℕ) (key text : List ℕ) (s : EventSlot)
    → get_elem? o.slots i ≡ some s
    → is_mate key s ≡ true
    → EventInv base o
    → last_rank base o + 1 < 2 ^ 31
    → length text < o.cfg.text_size
    → Accepted base o key text (coalesce o i text)
replaced_Accepted base o i key text s g m inv room fits =
    let u : s.used ≡ true = ground (arith, m) in
    let whole : take (o.cfg.text_size - 1) text ≡ text =
      take_all (o.cfg.text_size - 1) text (omega arith) in
    (
      coalesce-EventInv base o i text g u inv room,
      coalesce-KeepsHeld base o i text g (ground (arith, m)) inv room,
      inr (
        event s,
        ground (arith, m),
        subst
            (λ t.
              Replaces (queue base o) (queue base (coalesce o i text)) (event s)
                (record { key = s.key; text = t }))
            whole (coalesce-queue base o i text g u inv room),
      ),
    )

fulfilled-Enqueues :
    (base : ℕ) (o o' : EventOutbox) (key text : List ℕ)
    → Accepted base o key text o'
    → Enqueues base o key text (o', ok)
fulfilled-Enqueues base o o' key text h = ((λ _. h), (λ n. absurd (n refl)))

add_event-Enqueues :
    (base : ℕ) (o : EventOutbox) (key text : List ℕ) (r : Option ℕ)
    → free_locked o ≡ r
    → EventInv base o
    → last_rank base o + 1 < 2 ^ 31
    → length text < o.cfg.text_size
    → Enqueues base o key text (add_event o key text r)
unfolding add_event
add_event-Enqueues base o key text none e inv room fits =
    refused-Enqueues base o (overflowed o) key text no_mem (λ h. cc)
      (overflowed-Unchanged base o inv)
add_event-Enqueues base o key text (some i) e inv room fits =
    let (s, g, f) = find_index-some slot_free o.slots i e in
    fulfilled-Enqueues base o _ key text (filled_Accepted base o i key text s g f inv room fits)

place_event-Enqueues :
    (base : ℕ) (o : EventOutbox) (key : Option (List ℕ)) (text : List ℕ) (r : Option ℕ)
    → find_mate key o.slots ≡ r
    → EventInv base o
    → last_rank base o + 1 < 2 ^ 31
    → length text < o.cfg.text_size
    → Enqueues base o (Option.get_or key []) text (place_event o key text r)
unfolding place_event
place_event-Enqueues base o key text none e inv room fits =
    add_event-Enqueues base o (Option.get_or key []) text (free_locked o) refl inv room fits
place_event-Enqueues base o key text (some i) e inv room fits =
    let (s, g, m) = find_mate-some key o.slots i e in
    fulfilled-Enqueues base o _ (Option.get_or key []) text
      (replaced_Accepted base o i (Option.get_or key []) text s g m inv room fits)

-- If the slots, the tickets and the counters of an outbox agree, and its tickets span less than half
-- of the 32-bit range, they agree after a call of `enqueue` as well, and the worker holds what it
-- held. After ESP_OK the event with its whole text is the last of the queue: all others are as
-- before, and its key is cut to 15 characters; or one of the others, whose key is equal by `strncmp`
-- over 16 characters, is gone, and the new event has that one's key. After another code the
-- queue is the one before.
pub enqueue-Enqueues :
    (base : ℕ) (o : EventOutbox) (locked : Bool) (key : Option (List ℕ)) (text : List ℕ)
    → EventInv base o
    → last_rank base o + 1 < 2 ^ 31
    → Enqueues base o (Option.get_or key []) text (enqueue o locked key (some text))
unfolding enqueue
enqueue-Enqueues base o locked key text inv room =
    let k = Option.get_or key [] in
    let same : Unchanged base o o = (inv, unmoved-KeepsHeld base o, refl) in
    let refused = λ (err : Esp) (n : err ≢ ok). refused-Enqueues base o o k text err n same in
    if_either (Enqueues base o k text) (length text == 0) (λ _. refused invalid_arg (λ h. cc))
      λ _.
        if_either (Enqueues base o k text) (leb o.cfg.text_size (length text))
          (λ _. refused invalid_size (λ h. cc))
          λ fits.
            if_either (Enqueues base o k text) (not locked) (λ _. refused timeout (λ h. cc))
              λ _.
                place_event-Enqueues base o key text (find_mate key o.slots) refl inv room
                  (ground arith)
