-- ===== src/Outbox/Enqueue.antt =====
-- keemash_mesh_event_outbox.c: adding one event, or a group of events.
use mathlib.Core.Option
use keemash_core.Base.{
  ℕ, zero, suc, ◌-◌, Bool, true, false, not, ◌&&◌, ◌||◌, Option, none, some, List, [], ◌∷◌, ltb,
  leb, ◌==◌, if◌then◌else◌, inc32, length, take, set, count_if, find_index,
}
use keemash_core.Proto.{Esp, ok, invalid_arg, no_mem, invalid_size, timeout}
use keemash_core.Outbox.{EventSlot, EventOutbox, event_at}

-- `EVENT_KEY_MAX`
abbrev pub event_key_max : ℕ
event_key_max = 16

-- `snprintf(to, size, "%s", text)` leaves this in `to`.
abbrev pub printed : ℕ → List ℕ → List ℕ
printed size text = take (size - 1) text

-- `strncmp(a, b, n) == 0`
abbrev pub strncmp_eq : ℕ → List ℕ → List ℕ → Bool
strncmp_eq zero a b = true
strncmp_eq (suc n) [] [] = true
strncmp_eq (suc n) [] (y ∷ b) = false
strncmp_eq (suc n) (x ∷ a) [] = false
strncmp_eq (suc n) (x ∷ a) (y ∷ b) = (x == y) && strncmp_eq n a b

-- An event with this key that may still be replaced.
abbrev pub is_mate : List ℕ → EventSlot → Bool
is_mate key s = s.used && not s.sending && strncmp_eq event_key_max s.key key

-- The first loop of `enqueue`, with its guard.
abbrev pub find_mate : Option (List ℕ) → List EventSlot → Option ℕ
find_mate none slots = none
find_mate (some []) slots = none
find_mate (some (c ∷ key)) slots = find_index (is_mate (c ∷ key)) slots

-- An event whose text is replaced.
abbrev pub with_text : EventOutbox → EventSlot → List ℕ → EventSlot
with_text o s text = record s { ticket = inc32 o.next_ticket; text = printed o.cfg.text_size text }

unfoldable pub coalesce : EventOutbox → ℕ → List ℕ → EventOutbox
coalesce o i text = record o {
  slots = set o.slots i (with_text o (event_at o i) text);
  next_ticket = inc32 o.next_ticket;
  stats = record t { coalesced = inc32 t.coalesced };
}
  where
    open o use {stats as t}

abbrev pub slot_free : EventSlot → Bool
slot_free s = not s.used

-- `free_locked`
abbrev pub free_locked : EventOutbox → Option ℕ
free_locked o = find_index slot_free o.slots

-- `free_count` of `enqueue_group`
abbrev pub free_count : EventOutbox → ℕ
free_count o = count_if slot_free o.slots

abbrev pub overflowed : EventOutbox → EventOutbox
overflowed o = record o { stats = record t { overflow = inc32 t.overflow } }
  where
    open o use {stats as t}

abbrev pub new_event : EventOutbox → List ℕ → List ℕ → EventSlot
new_event o key text = record {
  used = true;
  sending = false;
  ticket = inc32 o.next_ticket;
  key = printed event_key_max key;
  text = printed o.cfg.text_size text;
}

-- What `enqueue` and each round of `enqueue_group` do with the free slot; without a key the zeroes of
-- `memset` are left.
unfoldable pub fill_slot : EventOutbox → ℕ → List ℕ → List ℕ → EventOutbox
fill_slot o i key text = record o {
  slots = set o.slots i (new_event o key text);
  next_ticket = inc32 o.next_ticket;
  stats = record t { accepted = inc32 t.accepted; pending = inc32 t.pending };
}
  where
    open o use {stats as t}

unfoldable pub update_high_watermark_locked : EventOutbox → EventOutbox
update_high_watermark_locked o = record o {
  stats = record t {
    high_watermark = if ltb t.high_watermark t.pending then t.pending else t.high_watermark;
  };
}
  where
    open o use {stats as t}

unfoldable pub add_event : EventOutbox → List ℕ → List ℕ → Option ℕ → EventOutbox × Esp
unfolding fill_slot update_high_watermark_locked
add_event o key text none = (overflowed o, no_mem)
add_event o key text (some i) = (update_high_watermark_locked (fill_slot o i key text), ok)

unfoldable pub place_event : EventOutbox → Option (List ℕ) → List ℕ → Option ℕ → EventOutbox × Esp
unfolding coalesce add_event
place_event o key text none = add_event o (Option.get_or key []) text (free_locked o)
place_event o key text (some i) = (coalesce o i text, ok)

-- `keemash_mesh_event_outbox_enqueue`. `locked` says that the mutex was obtained within its 100 ms,
-- and a NULL string is `none`.
unfoldable pub enqueue : EventOutbox → Bool → Option (List ℕ) → Option (List ℕ) → EventOutbox × Esp
unfolding place_event
enqueue o locked key none = (o, invalid_arg)
enqueue o locked key (some text) =
    if length text == 0
    then (o, invalid_arg)
    else if leb o.cfg.text_size (length text)
    then (o, invalid_size)
    else if not locked
    then (o, timeout)
    else place_event o key text (find_mate key o.slots)

-- The test of the first loop of `enqueue_group` for one text.
abbrev pub text_fits : ℕ → Option (List ℕ) → Bool
text_fits size none = false
text_fits size (some text) = not (length text == 0) && ltb (length text) size

abbrev pub all_fit : ℕ → List (Option (List ℕ)) → Bool
all_fit size [] = true
all_fit size (t ∷ texts) = text_fits size t && all_fit size texts

-- One round of the last loop of `enqueue_group`; with no free slot the source would follow a NULL
-- pointer, which the guard before the loop rules out.
abbrev pub fill_next : EventOutbox → List ℕ → Option ℕ → EventOutbox
fill_next o text none = o
fill_next o text (some i) = fill_slot o i [] text

unfoldable pub fill_all : EventOutbox → List (Option (List ℕ)) → EventOutbox
unfolding fill_slot
fill_all o [] = o
fill_all o (t ∷ texts) = fill_all (fill_next o (Option.get_or t []) (free_locked o)) texts

-- `keemash_mesh_event_outbox_enqueue_group`; `none` is the NULL pointer, `count` the length.
unfoldable pub enqueue_group :
    EventOutbox → Bool → Option (List (Option (List ℕ))) → EventOutbox × Esp
unfolding fill_all update_high_watermark_locked
enqueue_group o locked none = (o, invalid_arg)
enqueue_group o locked (some texts) =
    if (length texts == 0) || ltb o.cfg.slots (length texts)
    then (o, invalid_arg)
    else if not (all_fit o.cfg.text_size texts)
    then (o, invalid_size)
    else if not locked
    then (o, timeout)
    else if ltb (free_count o) (length texts)
    then (overflowed o, no_mem)
    else (update_high_watermark_locked (fill_all o texts), ok)
