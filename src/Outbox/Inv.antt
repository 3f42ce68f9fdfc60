-- ===== src/Outbox/Inv.antt =====
-- What keemash_mesh_event_outbox.c keeps true of its slots and counters.
use keemash_core.Base.{
  ℕ, ◌+◌, ◌^◌, ◌≤◌, ◌<◌, ◌≡◌, ap, sym, subst, ◌∙◌, Bool, true, false, Option, none, some, List,
  arith, u32, inc32, sub32, length, get_elem?, set, count_if, All, All-set, All-get, All-map,
  length-set, get_elem?-lt, get_elem?-set_self, get_elem?-set_ne, inl, inr, ℕ-cases, set-set_self,
  set_comm,
}
use keemash_core.Outbox.{EventSlot, EventOutbox, no_slot}
use keemash_core.Outbox.Oldest.{rank, Ranked}
use keemash_core.Outbox.View.{Other}

abbrev pub slot_used : EventSlot → Bool
slot_used s = s.used

abbrev pub slot_sending : EventSlot → Bool
slot_sending s = s.sending

-- No two slots in use have tickets of one rank.
abbrev pub Apart : ℕ → List EventSlot → Type 0
Apart base xs =
    (i : ℕ) (s : EventSlot)
    → get_elem? xs i ≡ some s
    → s.used ≡ true
    → All (Other base (rank base s)) (set xs i no_slot)

-- The ticket of a slot in use was given after `base`, and is not later than the rank `last`.
abbrev pub Issued : ℕ → ℕ → EventSlot → Type 0
Issued base last t = t.used ≡ true → (t.ticket < 2 ^ 32) × (rank base t ≤ last)

abbrev pub last_rank : ℕ → EventOutbox → ℕ
last_rank base o = sub32 o.next_ticket base

-- A slot that is not in use is not being sent.
abbrev pub AtRest : EventSlot → Type 0
AtRest t = t.used ≡ false → t.sending ≡ false

-- The slots, the tickets and the counters agree.
pub record EventInv (base : ℕ) (o : EventOutbox) : Type 0 where
  pub table : length o.slots ≡ o.cfg.slots
  pub small : o.cfg.slots < 2 ^ 16
  pub pending : o.stats.pending ≡ count_if slot_used o.slots
  pub balance : o.stats.accepted ≡ u32 (o.stats.delivered + o.stats.pending)
  pub tickets : (base < 2 ^ 32) × (o.next_ticket < 2 ^ 32) × (last_rank base o < 2 ^ 31)
  pub issued : All (Issued base (last_rank base o)) o.slots
  pub apart : Apart base o.slots
  pub at_rest : All AtRest o.slots

-- One slot is being sent, by the worker that holds it, and it is the oldest in use; with no such
-- worker, none is.
abbrev pub HeldEvent : ℕ → EventOutbox → Option ℕ → Type 0
HeldEvent base o none = count_if slot_sending o.slots ≡ 0
HeldEvent base o (some i) =
    (s : EventSlot) × (get_elem? o.slots i ≡ some s)
    × (s.used ≡ true)
    × (s.sending ≡ true)
    × (count_if slot_sending o.slots ≡ 1)
    × All (λ t. t.used ≡ true → rank base s ≤ rank base t) o.slots

pub Issued-Ranked : (base : ℕ) (o : EventOutbox) → EventInv base o → All (Ranked base) o.slots
Issued-Ranked base o v =
    All-map (Issued base (last_rank base o)) (Ranked base) o.slots
      (λ t h u. ((h u).0, v.tickets.0, omega (arith, (h u).1, v.tickets.2))) v.issued

-- A write keeps the tickets apart if that of the new slot is unlike the others'.
pub Apart-set :
    (base : ℕ) (xs : List EventSlot) (k : ℕ) (v : EventSlot)
    → Apart base xs
    → (v.used ≡ true → All (Other base (rank base v)) (set xs k no_slot))
    → Apart base (set xs k v)
Apart-set base xs k v h n i s g u = elim (ℕ-cases k i) [
  | inl e ↦
      let g' : get_elem? (set xs k v) k ≡ some s = ap (get_elem? (set xs k v)) e ∙ g in
      let at : k < length xs = omega (arith, get_elem?-lt (set xs k v) k g', length-set xs k v) in
      let same : s ≡ v = ground (arith, g', get_elem?-set_self xs k v at) in
      let there = n (ap (λ (t : EventSlot). t.used) (sym same) ∙ u) in
      subst (λ (j : ℕ). All (Other base (rank base s)) (set (set xs k v) j no_slot)) e
        (subst (All (Other base (rank base s))) (sym (set-set_self xs k v no_slot))
          (subst (λ t. All (Other base (rank base t)) (set xs k no_slot)) (sym same) there))
  | inr ne ↦
      let g' : get_elem? xs i ≡ some s = sym (get_elem?-set_ne xs v ne) ∙ g in
      let there = λ (w : v.used ≡ true).
        All-get (Other base (rank base v)) (set xs k no_slot) i (n w)
          (get_elem?-set_ne xs no_slot ne ∙ g') u in
      subst (All (Other base (rank base s))) (sym (set_comm xs k i v no_slot ne)) (
        All-set (Other base (rank base s)) (set xs i no_slot) k v (h i s g' u)
          (λ w e. there w (sym e)))
]

-- A new ticket is later than all others.
pub next_rank :
    (base : ℕ) (o : EventOutbox)
    → EventInv base o
    → last_rank base o + 1 < 2 ^ 31
    → sub32 (inc32 o.next_ticket) base ≡ last_rank base o + 1
next_rank base o v room = omega (arith, v.tickets, room)

pub later_rank :
    (base : ℕ) (o : EventOutbox) (v : EventSlot)
    → EventInv base o
    → last_rank base o + 1 < 2 ^ 31
    → v.ticket ≡ inc32 o.next_ticket
    → rank base v ≡ last_rank base o + 1
later_rank base o v inv room e = omega (arith, e, next_rank base o inv room)

pub next-Other :
    (base : ℕ) (o : EventOutbox) (v : EventSlot)
    → EventInv base o
    → last_rank base o + 1 < 2 ^ 31
    → v.ticket ≡ inc32 o.next_ticket
    → All (Other base (rank base v)) o.slots
next-Other base o v inv room e =
    All-map (Issued base (last_rank base o)) (Other base (rank base v)) o.slots
      (λ t h u same. omega (arith, (h u).1, same, later_rank base o v inv room e)) inv.issued

-- The slots after a write of a slot with the next ticket.
pub next-Issued :
    (base : ℕ) (o : EventOutbox) (i : ℕ) (v : EventSlot)
    → EventInv base o
    → last_rank base o + 1 < 2 ^ 31
    → v.ticket ≡ inc32 o.next_ticket
    → All (Issued base (sub32 (inc32 o.next_ticket) base)) (set o.slots i v)
next-Issued base o i v inv room e =
    let last = sub32 (inc32 o.next_ticket) base in
    All-set (Issued base last) o.slots i v
      (All-map (Issued base (last_rank base o)) (Issued base last) o.slots
        (λ t h u. ((h u).0, omega (arith, (h u).1, next_rank base o inv room))) inv.issued)
      (λ u. (omega (arith, e), omega (arith, e)))

pub next-Apart :
    (base : ℕ) (o : EventOutbox) (i : ℕ) (v : EventSlot)
    → EventInv base o
    → last_rank base o + 1 < 2 ^ 31
    → v.ticket ≡ inc32 o.next_ticket
    → Apart base (set o.slots i v)
next-Apart base o i v inv room e = Apart-set base o.slots i v inv.apart λ u.
    All-set (Other base (rank base v)) o.slots i no_slot (next-Other base o v inv room e)
      (λ w. absurd (ground arith))
