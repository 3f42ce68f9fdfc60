-- ===== src/Broker/Reserve.antt =====
-- Which packets keemash_mesh_tx_broker_submit accepts, and the slots that it keeps for CONTROL.
use keemash_core.Base.{
  if◌then◌else◌, ltb, ℕ, ◌+◌, ◌≤◌, ◌<◌, ◌≡◌, refl, ◌≢◌, ◌↔◌, Bool, true, false, Option, none, some,
  List, arith, length, get_elem?, count_if-set, find_index, find_index-some, find_index-none,
  find_index-pos, Option-cases, inl, inr,
}
use keemash_core.Proto.{ok, priority_control}
use keemash_core.Broker.{Slot, Broker}
use keemash_core.Broker.Submit.{is_free, free_slots, filled, occupy, submit}

-- What a packet needs in order to be accepted.
abbrev pub Admits : Broker → Bool → List ℕ → ℕ → Type 0
Admits b locked bytes priority =
    (locked ≡ true)
    × (0 < length bytes)
    × (length bytes ≤ b.cfg.max_packet_size)
    × ((if ltb priority priority_control then b.cfg.control_reserved_slots else 0) < free_slots b)

-- `submit` accepts a packet exactly when the mutex was obtained, the packet is not empty and no
-- longer than a slot, and a slot is free: for a priority below CONTROL, one more than are reserved.
pub submit-ok_iff :
    (b : Broker) (locked : Bool) (dst : Option ℕ) (bytes : List ℕ) (priority : ℕ)
    → ((submit b locked dst (some bytes) priority).1 ≡ ok) ↔ Admits b locked bytes priority
unfolding submit
submit-ok_iff b locked dst bytes priority = elim (Option-cases (find_index is_free b.slots)) [
  | inl e ↦ (λ h. ground (arith, e), λ h. ground (arith, e, find_index-none is_free b.slots e))
  | inr (i, e) ↦
      (λ h. ground (arith, e, find_index-pos is_free b.slots i e), λ h. ground (arith, e))
]

-- A packet that is not accepted changes neither the slots nor the tickets, nor what is counted as
-- accepted or pending.
pub submit_refused :
    (b : Broker) (locked : Bool) (dst : Option ℕ) (packet : Option (List ℕ)) (priority : ℕ)
    → (submit b locked dst packet priority).1 ≢ ok
    → let b' = (submit b locked dst packet priority).0 in
      (b'.slots ≡ b.slots)
      × (b'.next_ticket ≡ b.next_ticket)
      × (b'.stats.accepted ≡ b.stats.accepted)
      × (b'.stats.pending ≡ b.stats.pending)
unfolding submit
submit_refused b locked dst none priority h = (refl, refl, refl, refl)
submit_refused b locked dst (some bytes) priority h = ground arith

-- What `submit` does when it accepts: the first free slot is filled.
pub submit_occupies :
    (b : Broker) (locked : Bool) (dst : Option ℕ) (bytes : List ℕ) (priority : ℕ)
    → (submit b locked dst (some bytes) priority).1 ≡ ok
    → (i : ℕ) × (s : Slot) × (get_elem? b.slots i ≡ some s)
      × (s.used ≡ false)
      × ((submit b locked dst (some bytes) priority).0 ≡ occupy b i dst bytes priority)
unfolding submit
submit_occupies b locked dst bytes priority h = elim (Option-cases (find_index is_free b.slots)) [
  | inl e ↦ absurd (ground (arith, e))
  | inr (i, e) ↦
      let (s, g, f) = find_index-some is_free b.slots i e in
      (i, s, g, ground arith, ground (arith, e))
]

free_slots-occupy :
    (b : Broker) (i : ℕ) (dst : Option ℕ) (bytes : List ℕ) (priority : ℕ) (s : Slot)
    → get_elem? b.slots i ≡ some s
    → s.used ≡ false
    → free_slots (occupy b i dst bytes priority) + 1 ≡ free_slots b
unfolding occupy
free_slots-occupy b i dst bytes priority s g f =
    ground (arith, count_if-set is_free b.slots i {x = s} (filled b dst bytes priority) g)

-- A packet below CONTROL leaves at least the reserved slots free.
pub submit_keeps_reserve :
    (b : Broker) (locked : Bool) (dst : Option ℕ) (bytes : List ℕ) (priority : ℕ)
    → priority < priority_control
    → (submit b locked dst (some bytes) priority).1 ≡ ok
    → b.cfg.control_reserved_slots ≤ free_slots (submit b locked dst (some bytes) priority).0
submit_keeps_reserve b locked dst bytes priority low h =
    let (i, s, g, f, e) = submit_occupies b locked dst bytes priority h in
    let room = (submit-ok_iff b locked dst bytes priority).0 h in
    rw e (ground (arith, room.3, free_slots-occupy b i dst bytes priority s g f))
