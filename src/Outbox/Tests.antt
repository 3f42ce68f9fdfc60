-- ===== src/Outbox/Tests.antt =====
-- keemash_mesh_event_outbox.c on small inputs: the theorems at states that meet their hypotheses.
use keemash_core.Base.{
  ◌+◌, ◌≡◌, refl, true, false, none, some, List, ℕ, [], ◌∷◌, arith, count_if, if◌then◌else◌, ◌==◌,
  get_or, zero, suc, subst, All,
}
use keemash_core.Proto.{Esp, ok, no_mem}
use keemash_core.Outbox.{
  OutboxConfig, EventSlot, EventOutbox, no_events, new_outbox, init, oldest_locked, take_event,
  settle_event, event_at,
}
use keemash_core.Outbox.Enqueue.{enqueue, enqueue_group}
use keemash_core.Outbox.View.{Event, event, queue, Other}
use keemash_core.Outbox.Inv.{EventInv, Apart, slot_used}
use keemash_core.Outbox.Oldest.{rank}
use keemash_core.Outbox.Adds.{Enqueues, enqueue-Enqueues}
use keemash_core.Outbox.Grouped.{EnqueuesGroup, enqueue_group-EnqueuesGroup}
use keemash_core.Outbox.Keys.{mates, enqueue-mates, enqueue-long_key}
use keemash_core.Outbox.Drain.{work, taken, left, work_lem}
use keemash_core.Outbox.Steps.{
  EventSystem, started, here, next, enqueues, takes, sends, settles, after_event, holding, answered,
  awake, asked, tried,
}
use keemash_core.Outbox.Steps.Refines.{Refines}
use keemash_core.Outbox.Steps.Worker.{EventReach-Refines}

abbrev three_events : OutboxConfig
three_events = record { slots = 3; text_size = 8; retry_ms = 100; has_send = true }

-- An event with the key "k", and one without a key that was enqueued before it.
abbrev keyed : EventSlot
keyed = record { used = true; sending = false; ticket = 2; key = 107 ∷ []; text = 50 ∷ [] }

abbrev plain : EventSlot
plain = record { used = true; sending = false; ticket = 1; key = []; text = 49 ∷ [] }

abbrev unused : EventSlot
unused = record { used = false; sending = false; ticket = 0; key = []; text = [] }

abbrev two_events : EventOutbox
two_events = record {
  cfg = three_events;
  slots = keyed ∷ plain ∷ unused ∷ [];
  next_ticket = 2;
  stopping = false;
  task = true;
  stats = record no_events { accepted = 2; pending = 2; high_watermark = 2 };
}

two_events-Apart : Apart 0 two_events.slots
two_events-Apart zero s e u =
    let same : keyed ≡ s = ground (arith, e) in
    subst (λ (t : EventSlot). All (Other 0 (rank 0 t)) (unused ∷ plain ∷ unused ∷ [])) same
      ((λ v. cc), ((λ v h. omega (arith, h)), ((λ v. cc), tt)))
two_events-Apart (suc zero) s e u =
    let same : plain ≡ s = ground (arith, e) in
    subst (λ (t : EventSlot). All (Other 0 (rank 0 t)) (keyed ∷ unused ∷ unused ∷ [])) same
      ((λ v h. omega (arith, h)), ((λ v. cc), ((λ v. cc), tt)))
two_events-Apart (suc (suc zero)) s e u = absurd (ground (arith, e, u))
two_events-Apart (suc (suc (suc i))) s e u = absurd (ground (arith, e))

two_events-EventInv : EventInv 0 two_events
two_events-EventInv = record {
  table = refl;
  small = omega arith;
  pending = refl;
  balance = refl;
  tickets = omega arith;
  issued = ((λ u. omega arith), ((λ u. omega arith), ((λ u. cc), tt)));
  apart = two_events-Apart;
  at_rest = ((λ u. refl), ((λ u. refl), ((λ u. refl), tt)));
}

abbrev event_of : List ℕ → List ℕ → Event
event_of key text = record { key = key; text = text }

-- The older event comes first, although it stands in a later slot.
queue_order : queue 0 two_events ≡ event_of [] (49 ∷ []) ∷ event_of (107 ∷ []) (50 ∷ []) ∷ []
queue_order = refl

-- The keyed event is replaced in its slot.
replaced_queue :
    queue 0 (enqueue two_events true (some (107 ∷ [])) (some (51 ∷ []))).0
    ≡ event_of [] (49 ∷ []) ∷ event_of (107 ∷ []) (51 ∷ []) ∷ []
unfolding enqueue
replaced_queue = refl

enqueue-Enqueues_example :
    Enqueues 0 two_events
      (107 ∷ [])
      (51 ∷ [])
      (enqueue two_events true (some (107 ∷ [])) (some (51 ∷ [])))
enqueue-Enqueues_example =
    enqueue-Enqueues 0 two_events true (some (107 ∷ [])) (51 ∷ []) two_events-EventInv (omega arith)

-- Two texts do not fit into one slot.
enqueue_group-EnqueuesGroup_example :
    EnqueuesGroup 0 two_events
      (some (51 ∷ []) ∷ some (52 ∷ []) ∷ [])
      (enqueue_group two_events true (some (some (51 ∷ []) ∷ some (52 ∷ []) ∷ [])))
enqueue_group-EnqueuesGroup_example =
    enqueue_group-EnqueuesGroup 0 two_events true (some (51 ∷ []) ∷ some (52 ∷ []) ∷ [])
      two_events-EventInv (omega arith)

group_of_one :
    queue 0 (enqueue_group two_events true (some (some (51 ∷ []) ∷ []))).0
    ≡ event_of [] (49 ∷ []) ∷ event_of (107 ∷ []) (50 ∷ []) ∷ event_of [] (51 ∷ []) ∷ []
unfolding enqueue_group
group_of_one = refl

replaced_ok : (enqueue two_events true (some (107 ∷ [])) (some (51 ∷ []))).1 ≡ ok
unfolding enqueue
replaced_ok = refl

enqueue-mates_example :
    mates (107 ∷ []) (enqueue two_events true (some (107 ∷ [])) (some (51 ∷ []))).0
    ≡ (if mates (107 ∷ []) two_events == 0 then 1 else mates (107 ∷ []) two_events)
enqueue-mates_example =
    enqueue-mates two_events true (107 ∷ []) (some (51 ∷ [])) (omega arith) (omega arith)
      replaced_ok

-- A key of 16 characters.
abbrev long_key : List ℕ
long_key =
    107 ∷ 107 ∷ 107 ∷ 107 ∷ 107 ∷ 107 ∷ 107 ∷ 107 ∷ 107 ∷ 107 ∷ 107 ∷ 107 ∷ 107 ∷ 107 ∷ 107 ∷ 107
    ∷ []

-- The outbox after one call with it.
abbrev long_once : EventOutbox
long_once = (enqueue (new_outbox three_events) true (some long_key) (some (51 ∷ []))).0

long_twice_ok : (enqueue long_once true (some long_key) (some (52 ∷ []))).1 ≡ ok
unfolding enqueue
long_twice_ok = refl

-- The second call adds a second event.
enqueue-long_key_example :
    let o' = (enqueue long_once true (some long_key) (some (52 ∷ []))).0 in
    (o'.stats.coalesced ≡ long_once.stats.coalesced)
    × (count_if slot_used o'.slots ≡ count_if slot_used long_once.slots + 1)
unfolding enqueue
enqueue-long_key_example =
    enqueue-long_key long_once true long_key (some (52 ∷ [])) (omega arith)
      (omega arith, (omega arith, (omega arith, tt))) long_twice_ok

-- A callback that refuses the text "2".
abbrev refuses_two : List ℕ → Esp
refuses_two text = if get_or text 0 0 == 50 then no_mem else ok

work_lem_example :
    ((work refuses_two 3 two_events).1 ≡ taken refuses_two (queue 0 two_events))
    × (queue 0 (work refuses_two 3 two_events).0 ≡ left refuses_two (queue 0 two_events))
    × EventInv 0 (work refuses_two 3 two_events).0
work_lem_example = work_lem refuses_two 0 3 two_events two_events-EventInv refl refl (omega arith)

three_events_ok : init three_events true true true ≡ (ok, some (new_outbox three_events))
unfolding init
three_events_ok = refl

-- One event is enqueued, taken, and delivered.
abbrev after_enqueue : EventSystem
after_enqueue = record (started (new_outbox three_events)) {
  outbox = (enqueue (new_outbox three_events) true none (some (49 ∷ []))).0;
  handed = 1;
  calls =
      asked none (some (49 ∷ [])) (enqueue (new_outbox three_events) true none (some (49 ∷ []))).1
      ∷ [];
}

abbrev after_take : EventSystem
after_take = record after_enqueue {
  outbox = (take_event after_enqueue.outbox).0;
  worker = after_event after_enqueue.outbox (take_event after_enqueue.outbox).1;
}

took_first : after_take.worker ≡ holding 0
unfolding enqueue take_event oldest_locked
took_first = refl

abbrev after_send : EventSystem
after_send = record after_take { worker = answered 0 ok (event (event_at after_take.outbox 0)) }

abbrev after_settle : EventSystem
after_settle = record after_send {
  outbox = settle_event after_send.outbox 0 ok;
  worker = awake;
  calls = tried (event (event_at after_take.outbox 0)) ok ∷ after_send.calls;
  done = event (event_at after_take.outbox 0) ∷ [];
}

EventReach-Refines_example : Refines after_settle
EventReach-Refines_example =
    EventReach-Refines three_events true true true (new_outbox three_events) after_settle
      (omega arith) three_events_ok
      (next
        (next (next (next here (enqueues true none (some (49 ∷ [])))) (takes refl))
          (sends 0 ok took_first))
        (settles 0 ok (event (event_at after_take.outbox 0)) refl))
      (omega arith)

-- The calls, the last first, by which the refinement explains the queue.
calls_of_one :
    after_settle.calls ≡ tried (event_of [] (49 ∷ [])) ok ∷ asked none (some (49 ∷ [])) ok ∷ []
unfolding enqueue take_event oldest_locked
calls_of_one = refl

delivered_one : after_settle.done ≡ event_of [] (49 ∷ []) ∷ []
unfolding enqueue take_event oldest_locked
delivered_one = refl
