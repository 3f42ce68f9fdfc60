-- ===== src/Broker/Submit.antt =====
-- keemash_mesh_tx_broker.c: creating the broker, stopping it, and submitting a packet to it.
use mathlib.Core.Option
use keemash_core.Base.{
  ℕ, Bool, true, false, not, ◌&&◌, ◌||◌, Option, none, some, List, ltb, leb, ◌==◌, if◌then◌else◌,
  inc32, length, get_or, set, replicate, count_if, find_index,
}
use keemash_core.Proto.{Esp, ok, invalid_arg, no_mem, invalid_size, timeout, priority_control}
use keemash_core.Broker.{Config, Slot, Broker, empty_slot, zero_stats, stats_priority_index}

-- One counter of an array of four.
abbrev pub bump : List ℕ → ℕ → List ℕ
bump counters i = set counters i (inc32 (get_or counters i 0))

-- The broker as `calloc` and the assignments of `init` leave it.
abbrev pub fresh : Config → Broker
fresh c = record {
  cfg = c;
  slots = replicate c.slots empty_slot;
  next_ticket = 0;
  stopping = false;
  task = true;
  stats = zero_stats;
}

-- `keemash_mesh_tx_broker_init`. The last three arguments say that the broker, then its mutex and
-- its two tables, were allocated, and that the worker task was created.
unfoldable pub init : Config → Bool → Bool → Bool → Esp × Option Broker
init c allocated tables task_created =
    if not c.has_raw_send
      || (c.slots == 0)
      || (c.max_packet_size == 0)
      || leb c.slots c.control_reserved_slots
    then (invalid_arg, none)
    else if not (allocated && tables && task_created)
    then (no_mem, none)
    else (ok, some (fresh c))

-- The critical section of `keemash_mesh_tx_broker_deinit`, entered if `locked`.
unfoldable pub request_stop : Broker → Bool → Broker
request_stop b locked = if locked then record b { stopping = true } else b

abbrev pub is_free : Slot → Bool
is_free s = not s.used

-- `free_slots` of the loop in `submit`.
abbrev pub free_slots : Broker → ℕ
free_slots b = count_if is_free b.slots

reject_size : Broker → Broker
reject_size b = record b { stats = record t { rejected_size = inc32 t.rejected_size } }
  where
    open b use {stats as t}

reject_full : Broker → ℕ → Broker
unfolding stats_priority_index
reject_full b priority = record b {
  stats = record t {
    rejected_full = inc32 t.rejected_full;
    rejected_by_priority = bump t.rejected_by_priority (stats_priority_index priority);
  };
}
  where
    open b use {stats as t}

reject_reserved : Broker → ℕ → Broker
unfolding stats_priority_index
reject_reserved b priority = record b {
  stats = record t {
    rejected_reserved = inc32 t.rejected_reserved;
    rejected_by_priority = bump t.rejected_by_priority (stats_priority_index priority);
  };
}
  where
    open b use {stats as t}

-- The slot that `submit` fills; a NULL destination leaves the zeroes of `memset`.
abbrev pub filled : Broker → Option ℕ → List ℕ → ℕ → Slot
filled b dst bytes priority = record {
  used = true;
  sending = false;
  priority = priority;
  dst = Option.get_or dst 0;
  ticket = inc32 b.next_ticket;
  bytes = bytes;
}

-- The part of `submit` that takes slot `i`.
unfoldable pub occupy : Broker → ℕ → Option ℕ → List ℕ → ℕ → Broker
unfolding stats_priority_index
occupy b i dst bytes priority =
    let pending = inc32 t.pending in
    record b {
      slots = set b.slots i (filled b dst bytes priority);
      next_ticket = inc32 b.next_ticket;
      stats = record t {
        accepted = inc32 t.accepted;
        accepted_by_priority = bump t.accepted_by_priority (stats_priority_index priority);
        pending = pending;
        high_watermark = if ltb t.high_watermark pending then pending else t.high_watermark;
      };
    }
  where
    open b use {stats as t}

place : Broker → Option ℕ → List ℕ → ℕ → Option ℕ → Broker × Esp
unfolding reject_full reject_reserved
place b dst bytes priority none = (reject_full b priority, no_mem)
place b dst bytes priority (some i) =
    if ltb priority priority_control && leb (free_slots b) b.cfg.control_reserved_slots
    then (reject_reserved b priority, no_mem)
    else (occupy b i dst bytes priority, ok)

-- `keemash_mesh_tx_broker_submit`. `locked` says that the mutex was obtained within its 100 ms, and a
-- NULL packet is `none`.
unfoldable pub submit : Broker → Bool → Option ℕ → Option (List ℕ) → ℕ → Broker × Esp
unfolding place reject_size
submit b locked dst none priority = (b, invalid_arg)
submit b locked dst (some bytes) priority =
    if length bytes == 0
    then (b, invalid_arg)
    else if ltb b.cfg.max_packet_size (length bytes)
    then (if locked then reject_size b else b, invalid_size)
    else if not locked
    then (b, timeout)
    else place b dst bytes priority (find_index is_free b.slots)
