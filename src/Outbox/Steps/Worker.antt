-- ===== src/Outbox/Steps/Worker.antt =====
-- The worker of keemash_mesh_event_outbox.c in the refinement, and the refinement itself.
use keemash_core.Base.{
  ℕ, ◌^◌, ◌≤◌, ◌<◌, ◌≡◌, ◌≢◌, refl, ap, sym, subst, ◌∙◌, Bool, true, false, Option, none, some,
  List, [], ◌∷◌, arith, if_keeps, if_true, if_false, inl, inr, if◌then◌else◌, All-get, zero, suc,
  replicate, count_if-replicate, All-replicate, length-replicate,
}
use keemash_core.Proto.{
  Esp, ok, is_ok, invalid_arg, no_mem, invalid_size, timeout, invalid_state, not_supported,
  not_found, invalid_crc, other,
}
use keemash_core.Outbox.{
  EventOutbox, OutboxConfig, event_at, take_event, settle_event, stop_outbox, init, new_outbox,
  no_slot, EventSlot, mark_sending, oldest_locked, oldest_from,
}
use keemash_core.Outbox.View.{Event, event, view, events, queue}
use keemash_core.Outbox.Inv.{HeldEvent, Issued, AtRest, slot_used, slot_sending}
use keemash_core.Outbox.Keeps.{EventInv-quiet}
use keemash_core.Outbox.Held.{SameHeld, unmoved-KeepsHeld, quiet-KeepsHeld}
use keemash_core.Outbox.Sends.{take_event-TakeKeeps, settle_event-SettleKeeps, held_head}
use keemash_core.Outbox.Steps.Refines.{
  Refines, held_slot, Given, Given-same, ok-cases, enqueue-Refines, group-Refines,
}
use keemash_core.Outbox.Steps.{
  awake, gone, holding, answered, EventSystem, after_event, EventStep, enqueues, enqueues_group,
  stops, takes, sends, settles, started, EventReach, here, next, QueueStep, delivers, retries,
  tried, QueueReach, empty, more,
}

stop-Refines :
    (s : EventSystem) (locked : Bool)
    → Refines s
    → Refines (record s { outbox = stop_outbox s.outbox locked })
unfolding stop_outbox
stop-Refines s false v = v
stop-Refines s true v = record {
  inv = EventInv-quiet 0 s.outbox _ _ _ _ v.inv;
  held = kept.0;
  given = Given-same s.outbox (record s.outbox { stopping = true }) s.worker kept.1 v.given;
  issued = v.issued;
  queued = v.queued;
}
  where
    kept :
        HeldEvent 0 (record s.outbox { stopping = true }) (held_slot s.worker)
        × SameHeld (held_slot s.worker) s.outbox (record s.outbox { stopping = true })
    kept =
        quiet-KeepsHeld 0 s.outbox s.outbox _ _ _ _ (unmoved-KeepsHeld 0 s.outbox)
          (held_slot s.worker) v.held

held_slot-after_event : (o : EventOutbox) (r : Option ℕ) → held_slot (after_event o r) ≡ r
held_slot-after_event o none = ground arith
held_slot-after_event o (some i) = refl

Given-after_event : (o o' : EventOutbox) (r : Option ℕ) → Given o' (after_event o r)
Given-after_event o o' none =
    elim o.stopping as (λ b. Given o' (elim b [ true ↦ gone | false ↦ awake ])) [
      | true ↦ tt
      | false ↦ tt
    ]
Given-after_event o o' (some i) = tt

next_ticket-mark_sending :
    (o : EventOutbox) (r : Option (ℕ × EventSlot))
    → (mark_sending o r).0.next_ticket ≡ o.next_ticket
next_ticket-mark_sending o none = refl
next_ticket-mark_sending o (some (i, s)) = refl

next_ticket-take_event : (o : EventOutbox) → (take_event o).0.next_ticket ≡ o.next_ticket
unfolding take_event oldest_locked
next_ticket-take_event o =
    if_keeps (λ (r : EventOutbox × Option ℕ). r.0.next_ticket) o.stopping refl
      (next_ticket-mark_sending o (oldest_from 0 none o.slots))

take-Refines :
    (s : EventSystem)
    → s.worker ≡ awake
    → Refines s
    → Refines (record s {
      outbox = (take_event s.outbox).0;
      worker = after_event s.outbox (take_event s.outbox).1;
    })
take-Refines s w v =
    let r = take_event s.outbox in
    let held : HeldEvent 0 s.outbox none =
      subst (λ x. HeldEvent 0 s.outbox (held_slot x)) w v.held in
    let (inv, now, same) = take_event-TakeKeeps 0 s.outbox v.inv held in
    record {
      inv = inv;
      held = subst (HeldEvent 0 r.0) (sym (held_slot-after_event s.outbox r.1)) now;
      given = Given-after_event s.outbox r.0 r.1;
      issued = omega (arith, next_ticket-take_event s.outbox, v.issued);
      queued = subst (λ q. QueueReach s.calls q s.done) (sym same) v.queued;
    }

send-Refines :
    (s : EventSystem) (i : ℕ) (err : Esp)
    → s.worker ≡ holding i
    → Refines s
    → Refines (record s { worker = answered i err (event (event_at s.outbox i)) })
send-Refines s i err w v = record {
  inv = v.inv;
  held = subst (λ x. HeldEvent 0 s.outbox (held_slot x)) w v.held;
  given = refl;
  issued = v.issued;
  queued = v.queued;
}

is_ok-other : (err : Esp) → err ≢ ok → is_ok err ≡ false
is_ok-other ok n = absurd (n refl)
is_ok-other invalid_arg n = refl
is_ok-other no_mem n = refl
is_ok-other invalid_size n = refl
is_ok-other timeout n = refl
is_ok-other invalid_state n = refl
is_ok-other not_supported n = refl
is_ok-other not_found n = refl
is_ok-other invalid_crc n = refl
is_ok-other (other k) n = refl

settled-queue :
    (q d q' rest : List Event) (given : Event) (err : Esp)
    → q ≡ given ∷ rest
    → (is_ok err ≡ true → q ≡ given ∷ q')
    → (is_ok err ≡ false → q' ≡ q)
    → QueueStep q d (tried given err) q' (if is_ok err then given ∷ d else d)
settled-queue q d q' rest given err head taken kept = elim (ok-cases err) [
  | inl e ↦
      let t : is_ok err ≡ true = ap is_ok e in
      subst (QueueStep q d (tried given err) q') (sym (if_true (given ∷ d) d t))
        (delivers given q' err e (taken t))
  | inr n ↦
      let f : is_ok err ≡ false = is_ok-other err n in
      subst (QueueStep q d (tried given err) q') (sym (if_false (given ∷ d) d f)) (
        subst (λ x. QueueStep q d (tried given err) x d) (sym (kept f))
          (retries given rest err n head))
]

next_ticket-settle_event :
    (o : EventOutbox) (i : ℕ) (err : Esp) → (settle_event o i err).next_ticket ≡ o.next_ticket
unfolding settle_event
next_ticket-settle_event o i err =
    if_keeps (λ (p : EventOutbox). p.next_ticket) (is_ok err) refl refl

settle-Refines :
    (s : EventSystem) (i : ℕ) (err : Esp) (given : Event)
    → s.worker ≡ answered i err given
    → Refines s
    → Refines (record s {
      outbox = settle_event s.outbox i err;
      worker = awake;
      calls = tried given err ∷ s.calls;
      done = if is_ok err then given ∷ s.done else s.done;
    })
settle-Refines s i err given w v =
    let held : HeldEvent 0 s.outbox (some i) =
      subst (λ x. HeldEvent 0 s.outbox (held_slot x)) w v.held in
    let now : event (event_at s.outbox i) ≡ given = subst (Given s.outbox) w v.given in
    let (inv, free, taken, kept) = settle_event-SettleKeeps 0 s.outbox i err v.inv held in
    let q' = queue 0 (settle_event s.outbox i err) in
    let (rest, head) = held_head 0 s.outbox i v.inv held in
    record {
      inv = inv;
      held = free;
      given = tt;
      issued = omega (arith, next_ticket-settle_event s.outbox i err, v.issued);
      queued = more v.queued (
          settled-queue (queue 0 s.outbox) s.done q' rest given err (head ∙ ap (λ e. e ∷ rest) now)
            (λ e. taken e ∙ ap (λ x. x ∷ q') now) kept);
    }

view-unused : (n : ℕ) → view 0 (replicate n no_slot) ≡ []
view-unused zero = refl
view-unused (suc n) = view-unused n

fresh-Refines : (c : OutboxConfig) → c.slots < 2 ^ 16 → Refines (started (new_outbox c))
fresh-Refines c small = record {
  inv = record {
    table = length-replicate c.slots no_slot;
    small = small;
    pending = sym (count_if-replicate slot_used c.slots no_slot refl);
    balance = omega arith;
    tickets = omega arith;
    issued = All-replicate (Issued 0 0) c.slots no_slot (λ e. cc);
    apart = λ i s g u. absurd (
        ground (
          arith,
          u,
          All-get (λ (t : EventSlot). t.used ≡ false) (replicate c.slots no_slot) i {x = s}
              (All-replicate (λ (t : EventSlot). t.used ≡ false) c.slots no_slot refl) g,
        ));
    at_rest = All-replicate AtRest c.slots no_slot (λ e. refl);
  };
  held = count_if-replicate slot_sending c.slots no_slot refl;
  given = tt;
  issued = omega arith;
  queued = subst (λ q. QueueReach [] (events q) []) (sym (view-unused c.slots)) empty;
}

init-new_outbox :
    (c : OutboxConfig) (allocated tables task_created : Bool) (o : EventOutbox)
    → init c allocated tables task_created ≡ (ok, some o)
    → new_outbox c ≡ o
unfolding init
init-new_outbox c allocated tables task_created o e = ground arith

handed-grows : {s t : EventSystem} → EventStep s t → s.handed ≤ t.handed
handed-grows (enqueues locked key text) = omega arith
handed-grows (enqueues_group locked texts) = omega arith
handed-grows (stops locked) = omega arith
handed-grows (takes w) = omega arith
handed-grows (sends i err w) = omega arith
handed-grows (settles i err given w) = omega arith

EventStep-Refines : {s t : EventSystem} → EventStep s t → t.handed < 2 ^ 31 → Refines s → Refines t
EventStep-Refines {s} (enqueues locked key text) small v = enqueue-Refines s locked key text small v
EventStep-Refines {s} (enqueues_group locked texts) small v = group-Refines s locked texts small v
EventStep-Refines {s} (stops locked) small v = stop-Refines s locked v
EventStep-Refines {s} (takes w) small v = take-Refines s w v
EventStep-Refines {s} (sends i err w) small v = send-Refines s i err w v
EventStep-Refines {s} (settles i err given w) small v = settle-Refines s i err given w v

-- The outbox refines a queue. From an outbox that `init` returned, whatever the order of the critical
-- sections, while fewer than 2^31 texts have been handed over: the slots in use, in the order of
-- their tickets, and the events that `send` took, are what `QueueStep` makes of the calls and their
-- answers. The event of an `enqueue` that answered ESP_OK comes last, and may remove one with its
-- key; a group comes last as a whole if `enqueue_group` answered ESP_OK; a call with another
-- answer changes nothing; `send` is only given the head, which leaves the queue exactly when it
-- answered ESP_OK. The slots, the tickets and the counters agree.
pub EventReach-Refines :
    (c : OutboxConfig) (allocated tables task_created : Bool) (o : EventOutbox) (s : EventSystem)
    → c.slots < 2 ^ 16
    → init c allocated tables task_created ≡ (ok, some o)
    → EventReach o s
    → s.handed < 2 ^ 31
    → Refines s
EventReach-Refines c allocated tables task_created o s small e here few =
    subst (λ x. Refines (started x)) (init-new_outbox c allocated tables task_created o e)
      (fresh-Refines c small)
EventReach-Refines c allocated tables task_created o s small e (next {s = t} r st) few =
    EventStep-Refines st few (
      EventReach-Refines c allocated tables task_created o t small e r
        (omega (arith, handed-grows st)))
