-- ===== src/Broker.antt =====
-- keemash_mesh_tx_broker.c: the priority queue in front of the radio.
-- A function that holds the mutex for one critical section is one function here; `Broker.Steps` puts
-- the critical sections of the callers and of the worker task in any order.
pub mod Submit
pub mod Order
pub mod Reserve
pub mod Steps
pub mod Drain
pub mod Auto
mod Tests
use keemash_core.Base.{
  ℕ, zero, suc, ◌+◌, ◌-◌, ◌≤◌, Bool, true, false, not, ◌&&◌, ◌||◌, Option, none, some, List, [],
  ◌∷◌, ltb, leb, ◌==◌, if◌then◌else◌, inc32, sub32, before32, get_or, set,
}
use keemash_core.Proto.{
  Esp, ok, invalid_arg, no_mem, invalid_size, timeout, is_ok, priority_normal, priority_high,
  priority_control,
}

-- `keemash_mesh_tx_broker_config_t`; `has_raw_send` says that the callback is not NULL. What the
-- task is created with (name, stack, priority) is not read again.
pub record Config : Type 0 where
  pub slots : ℕ
  pub control_reserved_slots : ℕ
  pub max_packet_size : ℕ
  pub has_raw_send : Bool

-- `broker_slot_t`; `bytes` are the first `len` bytes behind the slot's pointer, `dst` the six bytes
-- of the address as one number.
pub record Slot : Type 0 where
  pub used : Bool
  pub sending : Bool
  pub priority : ℕ
  pub dst : ℕ
  pub ticket : ℕ
  pub bytes : List ℕ

-- A slot after `memset`, its storage pointer kept.
abbrev pub empty_slot : Slot
empty_slot = record { used = false; sending = false; priority = 0; dst = 0; ticket = 0; bytes = [] }

-- `keemash_mesh_tx_broker_stats_t`
pub record Stats : Type 0 where
  pub accepted : ℕ
  pub completed : ℕ
  pub rejected_full : ℕ
  pub rejected_reserved : ℕ
  pub rejected_size : ℕ
  pub transport_errors : ℕ
  pub pending : ℕ
  pub high_watermark : ℕ
  pub accepted_by_priority : List ℕ
  pub rejected_by_priority : List ℕ
  pub last_transport_err : Esp

-- `struct keemash_mesh_tx_broker`; `task` says that the worker's handle is not NULL.
pub record Broker : Type 0 where
  pub cfg : Config
  pub slots : List Slot
  pub next_ticket : ℕ
  pub stopping : Bool
  pub task : Bool
  pub stats : Stats

unfoldable pub stats_priority_index : ℕ → ℕ
stats_priority_index priority =
    if leb priority_control priority
    then 3
    else if leb priority_high priority
    then 2
    else if leb priority_normal priority
    then 1
    else 0

-- What `pick_next_locked` skips is not eligible.
abbrev pub eligible : Slot → Bool
eligible s = s.used && not s.sending

-- `slot` goes before `best`: a higher priority, or the same and an older ticket.
abbrev pub precedes : Slot → Slot → Bool
precedes s best =
    ltb best.priority s.priority || ((s.priority == best.priority) && before32 s.ticket best.ticket)

-- One round of the loop of `pick_next_locked`: `best` is the slot chosen so far, with its index.
abbrev pub better : ℕ → Slot → Option (ℕ × Slot) → Option (ℕ × Slot)
better i s none = if eligible s then some (i, s) else none
better i s (some (j, best)) = if eligible s && precedes s best then some (i, s) else some (j, best)

unfoldable pub pick_from : ℕ → Option (ℕ × Slot) → List Slot → Option (ℕ × Slot)
pick_from i best [] = best
pick_from i best (s ∷ rest) = pick_from (i + 1) (better i s best) rest

mark : Broker → Option (ℕ × Slot) → Broker × Option ℕ
mark b none = (b, none)
mark b (some (i, s)) = (record b { slots = set b.slots i (record s { sending = true }) }, some i)

-- `pick_next_locked`: the chosen slot is marked as sending, and its index returned.
unfoldable pub pick_next_locked : Broker → Broker × Option ℕ
unfolding mark pick_from
pick_next_locked b = mark b (pick_from 0 none b.slots)

-- The first critical section of the worker's loop: `none` also where the task ends.
unfoldable pub take_work : Broker → Broker × Option ℕ
take_work b = if b.stopping then (record b { task = false }, none) else pick_next_locked b

-- `raw_send` is given this slot.
abbrev pub slot_at : Broker → ℕ → Slot
slot_at b i = get_or b.slots i empty_slot

-- The second critical section, after `raw_send` returned `err` for slot `i`.
unfoldable pub finish : Broker → ℕ → Esp → Broker
finish b i err = record b {
  slots = set b.slots i empty_slot;
  stats = record t {
    completed = inc32 t.completed;
    pending = sub32 t.pending 1;
    last_transport_err = err;
    transport_errors = if is_ok err then t.transport_errors else inc32 t.transport_errors;
  };
}
  where
    open b use {stats as t}

abbrev pub zero_stats : Stats
zero_stats = record {
  accepted = 0;
  completed = 0;
  rejected_full = 0;
  rejected_reserved = 0;
  rejected_size = 0;
  transport_errors = 0;
  pending = 0;
  high_watermark = 0;
  accepted_by_priority = 0 ∷ 0 ∷ 0 ∷ 0 ∷ [];
  rejected_by_priority = 0 ∷ 0 ∷ 0 ∷ 0 ∷ [];
  last_transport_err = ok;
}
