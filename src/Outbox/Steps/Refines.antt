-- ===== src/Outbox/Steps/Refines.antt =====
-- keemash_mesh_event_outbox.c does what its specification allows, whatever the interleaving.
use keemash_core.Base.{
  ℕ, ◌+◌, ◌^◌, ◌≤◌, ◌<◌, ◌≡◌, ◌≢◌, refl, ap, sym, subst, ◌∙◌, Bool, Option, none, some, List, ◌∷◌,
  arith, length, inl, inr, ◌⊎◌,
}
use keemash_core.Proto.{
  Esp, ok, invalid_arg, no_mem, invalid_size, timeout, invalid_state, not_supported, not_found,
  invalid_crc, other,
}
use keemash_core.Outbox.{EventOutbox, event_at}
use keemash_core.Outbox.Enqueue.{enqueue, enqueue_group}
use keemash_core.Outbox.View.{event, queue}
use keemash_core.Outbox.Inv.{EventInv, HeldEvent, last_rank}
use keemash_core.Outbox.Tickets.{enqueue-Gives, enqueue_group-Gives}
use keemash_core.Outbox.Held.{KeepsHeld, SameHeld, unmoved-KeepsHeld}
use keemash_core.Outbox.Adds.{enqueue-Enqueues}
use keemash_core.Outbox.Grouped.{enqueue_group-EnqueuesGroup}
use keemash_core.Outbox.Steps.{
  EventWorker, awake, gone, holding, answered, EventSystem, group_size, QueueStep, adds, adds_group,
  refuses, refuses_group, QueueReach, more, EventCall, asked, asked_group,
}

abbrev pub held_slot : EventWorker → Option ℕ
held_slot awake = none
held_slot gone = none
held_slot (holding i) = some i
held_slot (answered i err given) = some i

-- What `send` was given is still in the slot.
abbrev pub Given : EventOutbox → EventWorker → Type 0
Given o (answered i err given) = event (event_at o i) ≡ given
Given o w = Unit {0}

-- The slots, tickets and counters agree, the worker holds the oldest slot or none, and the queue that
-- the outbox stands for and the delivered events are what the specification makes of the calls and
-- their answers.
pub record Refines (s : EventSystem) : Type 0 where
  pub inv : EventInv 0 s.outbox
  pub held : HeldEvent 0 s.outbox (held_slot s.worker)
  pub given : Given s.outbox s.worker
  pub issued : s.outbox.next_ticket ≤ s.handed
  pub queued : QueueReach s.calls (queue 0 s.outbox) s.done

pub Given-same :
    (o o' : EventOutbox) (w : EventWorker) → SameHeld (held_slot w) o o' → Given o w → Given o' w
Given-same o o' awake e g = tt
Given-same o o' gone e g = tt
Given-same o o' (holding i) e g = tt
Given-same o o' (answered i err given) e g = ap event e ∙ g

-- A call, for what it makes of the queue.
pub call-Refines :
    (s : EventSystem) (o' : EventOutbox) (n : ℕ) (call : EventCall)
    → Refines s
    → EventInv 0 o'
    → KeepsHeld 0 s.outbox o'
    → o'.next_ticket ≤ s.outbox.next_ticket + n
    → QueueStep (queue 0 s.outbox) s.done call (queue 0 o') s.done
    → Refines (record s { outbox = o'; handed = s.handed + n; calls = call ∷ s.calls })
call-Refines s o' n call v inv keeps le step =
    let kept = keeps (held_slot s.worker) v.held in
    record {
      inv = inv;
      held = kept.0;
      given = Given-same s.outbox o' s.worker kept.1 v.given;
      issued = omega (arith, v.issued);
      queued = more v.queued step;
    }

pub ok-cases : (e : Esp) → (e ≡ ok) ⊎ (e ≢ ok)
ok-cases ok = inl refl
ok-cases invalid_arg = inr (λ h. cc)
ok-cases no_mem = inr (λ h. cc)
ok-cases invalid_size = inr (λ h. cc)
ok-cases timeout = inr (λ h. cc)
ok-cases invalid_state = inr (λ h. cc)
ok-cases not_supported = inr (λ h. cc)
ok-cases not_found = inr (λ h. cc)
ok-cases invalid_crc = inr (λ h. cc)
ok-cases (other n) = inr (λ h. cc)

-- The tickets counted from 0 have room, while fewer texts than half of their range were handed over.
room_lem :
    (s : EventSystem) (n : ℕ)
    → Refines s
    → s.handed + n < 2 ^ 31
    → last_rank 0 s.outbox + n < 2 ^ 31
room_lem s n v h = omega (arith, v.issued, v.inv.tickets)

pub enqueue-Refines :
    (s : EventSystem) (locked : Bool) (key text : Option (List ℕ))
    → s.handed + 1 < 2 ^ 31
    → Refines s
    → Refines (record s {
      outbox = (enqueue s.outbox locked key text).0;
      handed = s.handed + 1;
      calls = asked key text (enqueue s.outbox locked key text).1 ∷ s.calls;
    })
unfolding enqueue
enqueue-Refines s locked key none room v =
    call-Refines s s.outbox 1 (asked key none invalid_arg) v v.inv (unmoved-KeepsHeld 0 s.outbox)
      (omega arith) (refuses key none invalid_arg (λ h. cc))
enqueue-Refines s locked key (some text) room v =
    let r = enqueue s.outbox locked key (some text) in
    let call = asked key (some text) r.1 in
    let both = enqueue-Enqueues 0 s.outbox locked key text v.inv (room_lem s 1 v room) in
    let le = enqueue-Gives s.outbox locked key (some text) in
    elim (ok-cases r.1) [
      | inl e ↦
          let (inv, keeps, added) = both.0 e in
          call-Refines s r.0 1 call v inv keeps le (adds key text r.1 (queue 0 r.0) e added)
      | inr n ↦
          let (inv, keeps, same) = both.1 n in
          call-Refines s r.0 1 call v inv keeps le (
            subst (λ q. QueueStep (queue 0 s.outbox) s.done call q s.done) (sym same)
              (refuses key (some text) r.1 n))
    ]

pub group-Refines :
    (s : EventSystem) (locked : Bool) (texts : Option (List (Option (List ℕ))))
    → s.handed + group_size texts < 2 ^ 31
    → Refines s
    → Refines (record s {
      outbox = (enqueue_group s.outbox locked texts).0;
      handed = s.handed + group_size texts;
      calls = asked_group texts (enqueue_group s.outbox locked texts).1 ∷ s.calls;
    })
unfolding enqueue_group
group-Refines s locked none room v =
    call-Refines s s.outbox 0 (asked_group none invalid_arg) v v.inv (unmoved-KeepsHeld 0 s.outbox)
      (omega arith) (refuses_group none invalid_arg (λ h. cc))
group-Refines s locked (some texts) room v =
    let r = enqueue_group s.outbox locked (some texts) in
    let call = asked_group (some texts) r.1 in
    let n = length texts in
    let both = enqueue_group-EnqueuesGroup 0 s.outbox locked texts v.inv (room_lem s n v room) in
    let le = enqueue_group-Gives s.outbox locked texts in
    elim (ok-cases r.1) [
      | inl e ↦
          let (inv, keeps, added) = both.0 e in
          call-Refines s r.0 n call v inv keeps le (
            subst (λ q. QueueStep (queue 0 s.outbox) s.done call q s.done) (sym added)
              (adds_group texts r.1 e))
      | inr no' ↦
          let (inv, keeps, same) = both.1 no' in
          call-Refines s r.0 n call v inv keeps le (
            subst (λ q. QueueStep (queue 0 s.outbox) s.done call q s.done) (sym same)
              (refuses_group (some texts) r.1 no'))
    ]
