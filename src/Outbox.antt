-- ===== src/Outbox.antt =====
-- keemash_mesh_event_outbox.c: the events that wait until the application has taken them.
-- A function that holds the mutex for one critical section is one function here. A C string is the
-- list of its characters before the NUL.
pub mod Enqueue
pub mod Oldest
pub mod View
pub mod Inv
pub mod Keeps
pub mod Fifo
pub mod Sends
pub mod Held
pub mod Tickets
pub mod Adds
pub mod Grouped
pub mod Steps
pub mod Keys
pub mod Drain
mod Tests
use keemash_core.Base.{
  ℕ, zero, suc, ◌+◌, ◌-◌, Bool, true, false, not, ◌&&◌, ◌||◌, Option, none, some, List, [], ◌∷◌,
  ltb, ◌==◌, if◌then◌else◌, inc32, sub32, before32, get_or, set, replicate,
}
use keemash_core.Proto.{Esp, ok, invalid_arg, no_mem, is_ok}

-- `keemash_mesh_event_outbox_config_t`; `has_send` says that the callback is not NULL. What the task
-- is created with (name, stack, priority) is not read again.
pub record OutboxConfig : Type 0 where
  pub slots : ℕ
  pub text_size : ℕ
  pub retry_ms : ℕ
  pub has_send : Bool

-- `event_slot_t`; `text` is what the slot's part of the storage holds.
pub record EventSlot : Type 0 where
  pub used : Bool
  pub sending : Bool
  pub ticket : ℕ
  pub key : List ℕ
  pub text : List ℕ

-- A slot after `memset`, which leaves the storage as it is.
abbrev pub cleared : EventSlot → EventSlot
cleared s = record { used = false; sending = false; ticket = 0; key = []; text = s.text }

-- `keemash_mesh_event_outbox_stats_t`
pub record EventStats : Type 0 where
  pub accepted : ℕ
  pub delivered : ℕ
  pub coalesced : ℕ
  pub overflow : ℕ
  pub send_errors : ℕ
  pub pending : ℕ
  pub high_watermark : ℕ
  pub last_send_err : Esp

-- `struct keemash_mesh_event_outbox`; `task` says that the worker's handle is not NULL.
pub record EventOutbox : Type 0 where
  pub cfg : OutboxConfig
  pub slots : List EventSlot
  pub next_ticket : ℕ
  pub stopping : Bool
  pub task : Bool
  pub stats : EventStats

-- What `oldest_locked` does not skip.
abbrev pub waits : EventSlot → Bool
waits s = s.used && not s.sending

-- One round of the loop of `oldest_locked`.
abbrev pub older : ℕ → EventSlot → Option (ℕ × EventSlot) → Option (ℕ × EventSlot)
older i s none = if waits s then some (i, s) else none
older i s (some (j, best)) =
    if waits s && before32 s.ticket best.ticket then some (i, s) else some (j, best)

unfoldable pub oldest_from : ℕ → Option (ℕ × EventSlot) → List EventSlot → Option (ℕ × EventSlot)
oldest_from i best [] = best
oldest_from i best (s ∷ rest) = oldest_from (i + 1) (older i s best) rest

abbrev pub mark_sending : EventOutbox → Option (ℕ × EventSlot) → EventOutbox × Option ℕ
mark_sending o none = (o, none)
mark_sending o (some (i, s)) =
    (record o { slots = set o.slots i (record s { sending = true }) }, some i)

-- `oldest_locked`: the chosen slot is marked as sending, and its index returned.
unfoldable pub oldest_locked : EventOutbox → EventOutbox × Option ℕ
unfolding oldest_from
oldest_locked o = mark_sending o (oldest_from 0 none o.slots)

-- The first critical section of the worker's loop: `none` also where the task ends.
unfoldable pub take_event : EventOutbox → EventOutbox × Option ℕ
take_event o = if o.stopping then (record o { task = false }, none) else oldest_locked o

abbrev pub no_slot : EventSlot
no_slot = record { used = false; sending = false; ticket = 0; key = []; text = [] }

abbrev pub event_at : EventOutbox → ℕ → EventSlot
event_at o i = get_or o.slots i no_slot

abbrev pub delivered_event : EventOutbox → ℕ → EventOutbox
delivered_event o i = record o {
  slots = set o.slots i (cleared (event_at o i));
  stats = record t {
    delivered = inc32 t.delivered;
    pending = sub32 t.pending 1;
    last_send_err = ok;
  };
}
  where
    open o use {stats as t}

abbrev pub failed_event : EventOutbox → ℕ → Esp → EventOutbox
failed_event o i err = record o {
  slots = set o.slots i (record (event_at o i) { sending = false });
  stats = record t { send_errors = inc32 t.send_errors; last_send_err = err };
}
  where
    open o use {stats as t}

-- The second critical section, after `send` returned `err` for slot `i`.
unfoldable pub settle_event : EventOutbox → ℕ → Esp → EventOutbox
settle_event o i err = if is_ok err then delivered_event o i else failed_event o i err

abbrev pub no_events : EventStats
no_events = record {
  accepted = 0;
  delivered = 0;
  coalesced = 0;
  overflow = 0;
  send_errors = 0;
  pending = 0;
  high_watermark = 0;
  last_send_err = ok;
}

-- The outbox as `calloc` and the assignments of `init` leave it.
abbrev pub new_outbox : OutboxConfig → EventOutbox
new_outbox c = record {
  cfg = record c { retry_ms = if c.retry_ms == 0 then 250 else c.retry_ms };
  slots = replicate c.slots no_slot;
  next_ticket = 0;
  stopping = false;
  task = true;
  stats = no_events;
}

-- `keemash_mesh_event_outbox_init`. The last three arguments say that the outbox, then its mutex and
-- its two tables, were allocated, and that the worker task was created.
unfoldable pub init : OutboxConfig → Bool → Bool → Bool → Esp × Option EventOutbox
init c allocated tables task_created =
    if not c.has_send || (c.slots == 0) || ltb c.text_size 2
    then (invalid_arg, none)
    else if not (allocated && tables && task_created)
    then (no_mem, none)
    else (ok, some (new_outbox c))

-- The critical section of `keemash_mesh_event_outbox_deinit`, entered if `locked`.
unfoldable pub stop_outbox : EventOutbox → Bool → EventOutbox
stop_outbox o locked = if locked then record o { stopping = true } else o

-- `keemash_mesh_event_outbox_stats`; a NULL outbox is `none`.
unfoldable pub outbox_stats : Option EventOutbox → Bool → EventStats
outbox_stats none locked = no_events
outbox_stats (some o) locked = if locked then o.stats else no_events
