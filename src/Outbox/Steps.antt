-- ===== src/Outbox/Steps.antt =====
-- The callers of keemash_mesh_event_outbox.c and its worker task, in any order of their critical
-- sections, as an abstract queue: the refinement.
pub mod Refines
pub mod Worker
use mathlib.Core.Option
use keemash_core.Base.{
  ℕ, ◌+◌, ◌≡◌, ◌≢◌, Bool, true, false, Option, none, some, List, [], ◌∷◌, ◌++◌, length,
  if◌then◌else◌,
}
use keemash_core.Proto.{Esp, ok, is_ok}
use keemash_core.Outbox.{EventOutbox, event_at, take_event, settle_event, stop_outbox}
use keemash_core.Outbox.Enqueue.{enqueue, enqueue_group}
use keemash_core.Outbox.View.{Event, event}
use keemash_core.Outbox.Adds.{AddsTo}
use keemash_core.Outbox.Grouped.{group_events}

-- Where the worker task stands: before its first critical section, between it and `send`, between
-- `send` and the second critical section, or at its end. `event` is what `send` was given.
pub data EventWorker : Type 0 where
  awake gone : EventWorker
  holding : ℕ → EventWorker
  answered : ℕ → Esp → Event → EventWorker

-- What was asked of the outbox, with its answer: a call of `enqueue` or of `enqueue_group`, and what the
-- worker's `send` was given.
pub data EventCall : Type 0 where
  asked : Option (List ℕ) → Option (List ℕ) → Esp → EventCall
  asked_group : Option (List (Option (List ℕ))) → Esp → EventCall
  tried : Event → Esp → EventCall

-- `handed` counts the texts that callers handed over; `calls` are the calls and their answers, and
-- `done` the events for which `send` answered ESP_OK and whose second critical section is over, both
-- the newest first.
pub record EventSystem : Type 0 where
  pub outbox : EventOutbox
  pub worker : EventWorker
  pub handed : ℕ
  pub calls : List EventCall
  pub done : List Event

-- The worker after `take_event` on this outbox answered this.
abbrev pub after_event : EventOutbox → Option ℕ → EventWorker
after_event o none = elim o.stopping [ true ↦ gone | false ↦ awake ]
after_event o (some i) = holding i

-- The number of texts of a group.
abbrev pub group_size : Option (List (Option (List ℕ))) → ℕ
group_size none = 0
group_size (some texts) = length texts

pub data EventStep (s : EventSystem) : EventSystem → Type 0 where
  enqueues :
      (locked : Bool) (key text : Option (List ℕ))
      → EventStep s (record s {
        outbox = (enqueue s.outbox locked key text).0;
        handed = s.handed + 1;
        calls = asked key text (enqueue s.outbox locked key text).1 ∷ s.calls;
      })
  enqueues_group :
      (locked : Bool) (texts : Option (List (Option (List ℕ))))
      → EventStep s (record s {
        outbox = (enqueue_group s.outbox locked texts).0;
        handed = s.handed + group_size texts;
        calls = asked_group texts (enqueue_group s.outbox locked texts).1 ∷ s.calls;
      })
  stops : (locked : Bool) → EventStep s (record s { outbox = stop_outbox s.outbox locked })
  takes :
      s.worker ≡ awake
      → EventStep s (record s {
        outbox = (take_event s.outbox).0;
        worker = after_event s.outbox (take_event s.outbox).1;
      })
  sends :
      (i : ℕ) (err : Esp)
      → s.worker ≡ holding i
      → EventStep s (record s { worker = answered i err (event (event_at s.outbox i)) })
  settles :
      (i : ℕ) (err : Esp) (given : Event)
      → s.worker ≡ answered i err given
      → EventStep s (record s {
        outbox = settle_event s.outbox i err;
        worker = awake;
        calls = tried given err ∷ s.calls;
        done = if is_ok err then given ∷ s.done else s.done;
      })

abbrev pub started : EventOutbox → EventSystem
started o = record { outbox = o; worker = awake; handed = 0; calls = []; done = [] }

pub data EventReach (o : EventOutbox) : EventSystem → Type 0 where
  here : EventReach o (started o)
  next : {s t : EventSystem} → EventReach o s → EventStep s t → EventReach o t

-- The specification: what each call and its answer make of a queue and of what was taken off it. The
-- event of an `enqueue` that answered ESP_OK comes last, and may remove one with its key; the
-- group of an `enqueue_group` that answered ESP_OK comes last as a whole; a call with another
-- answer changes nothing. `send` is only ever given the head, which is taken off if it answered ESP_OK.
pub data QueueStep (q d : List Event) : EventCall → List Event → List Event → Type 0 where
  adds :
      (key : Option (List ℕ)) (text : List ℕ) (err : Esp) (q' : List Event)
      → err ≡ ok
      → AddsTo (Option.get_or key []) text q q'
      → QueueStep q d (asked key (some text) err) q' d
  refuses :
      (key text : Option (List ℕ)) (err : Esp) → err ≢ ok → QueueStep q d (asked key text err) q d
  adds_group :
      (texts : List (Option (List ℕ))) (err : Esp)
      → err ≡ ok
      → QueueStep q d (asked_group (some texts) err) (q ++ group_events texts) d
  refuses_group :
      (texts : Option (List (Option (List ℕ)))) (err : Esp)
      → err ≢ ok
      → QueueStep q d (asked_group texts err) q d
  delivers :
      (e : Event) (rest : List Event) (err : Esp)
      → err ≡ ok
      → q ≡ e ∷ rest
      → QueueStep q d (tried e err) rest (e ∷ d)
  retries :
      (e : Event) (rest : List Event) (err : Esp)
      → err ≢ ok
      → q ≡ e ∷ rest
      → QueueStep q d (tried e err) q d

-- The queue and what was taken off it, after these calls, the newest first.
pub data QueueReach : List EventCall → List Event → List Event → Type 0 where
  empty : QueueReach [] [] []
  more :
      {calls : List EventCall} {q d q' d' : List Event} {call : EventCall}
      → QueueReach calls q d
      → QueueStep q d call q' d'
      → QueueReach (call ∷ calls) q' d'
