-- ===== src/Outbox/Oldest.antt =====
-- Which event the worker of keemash_mesh_event_outbox.c sends next.
use keemash_core.Base.{
  ℕ, suc, ◌+◌, ◌^◌, ◌≤◌, ◌<◌, ◌≡◌, refl, ◌∙◌, ◌⊎◌, inl, inr, true, false, Option, none, some, List,
  [], ◌∷◌, Bool-cases, if_true, if_false, subst, sym, arith, sub32, get_elem?, set, All,
}
use keemash_core.Outbox.{
  EventSlot, EventOutbox, waits, older, oldest_from, oldest_locked, take_event,
}

-- How many tickets after `base` a slot was filled.
abbrev pub rank : ℕ → EventSlot → ℕ
rank base s = sub32 s.ticket base

-- The ticket of a slot in use lies within half of the 32-bit range, from `base` on.
abbrev pub Ranked : ℕ → EventSlot → Type 0
Ranked base t = t.used ≡ true → (t.ticket < 2 ^ 32) × (base < 2 ^ 32) × (rank base t < 2 ^ 31)

-- Nothing that waits in `xs` is older than the choice `r`.
abbrev Ahead : ℕ → Option (ℕ × EventSlot) → EventSlot → Type 0
Ahead base none t = waits t ≡ false
Ahead base (some (_, s)) t = waits t ≡ true → rank base s ≤ rank base t

abbrev Chosen : ℕ → Option (ℕ × EventSlot) → Type 0
Chosen base none = Unit {0}
Chosen base (some (_, s)) = (waits s ≡ true) × Ranked base s

abbrev AheadOf : ℕ → Option (ℕ × EventSlot) → Option (ℕ × EventSlot) → Type 0
AheadOf base r none = Unit {0}
AheadOf base r (some (_, s)) = Ahead base r s

older_lem :
    (base i : ℕ) (x : EventSlot) (best : Option (ℕ × EventSlot))
    → Chosen base best
    → Ranked base x
    → Chosen base (older i x best)
      × Ahead base (older i x best) x
      × AheadOf base (older i x best) best
older_lem base i x none h w = ground arith
older_lem base i x (some (j, b)) h w = ground arith

Ahead-trans :
    (base : ℕ) (r m : Option (ℕ × EventSlot)) (t : EventSlot)
    → AheadOf base r m
    → Chosen base m
    → Ahead base m t
    → Ahead base r t
Ahead-trans base none none t c h d = d
Ahead-trans base none (some (k, m)) t c h d = ground arith
Ahead-trans base (some (j, s)) none t c h d = λ e. ground arith
Ahead-trans base (some (j, s)) (some (k, m)) t c h d = λ e. ground arith

AheadOf-trans :
    (base : ℕ) (r m best : Option (ℕ × EventSlot))
    → AheadOf base r m
    → Chosen base m
    → AheadOf base m best
    → AheadOf base r best
AheadOf-trans base r m none c h d = tt
AheadOf-trans base r m (some (j, s)) c h d = Ahead-trans base r m s c h d

AheadOf-self :
    (base : ℕ) (best : Option (ℕ × EventSlot)) → Chosen base best → AheadOf base best best
AheadOf-self base none h = tt
AheadOf-self base (some (j, s)) h = λ e. ground arith

oldest_from-Ahead :
    (base i : ℕ) (best : Option (ℕ × EventSlot)) (xs : List EventSlot)
    → Chosen base best
    → All (Ranked base) xs
    → All (Ahead base (oldest_from i best xs)) xs × AheadOf base (oldest_from i best xs) best
unfolding oldest_from
oldest_from-Ahead base i best [] h w = (tt, AheadOf-self base best h)
oldest_from-Ahead base i best (x ∷ xs) h w =
    let step = older_lem base i x best h w.0 in
    let rest = oldest_from-Ahead base (i + 1) (older i x best) xs step.0 w.1 in
    let r = oldest_from (i + 1) (older i x best) xs in
    (
      (Ahead-trans base r (older i x best) x rest.1 step.0 step.1, rest.0),
      AheadOf-trans base r (older i x best) best rest.1 step.0 step.2,
    )

abbrev Found : ℕ → Option (ℕ × EventSlot) → List EventSlot → Option (ℕ × EventSlot) → Type 0
Found i best xs r =
    (r ≡ best)
    ⊎ ((k : ℕ) × (s : EventSlot) × (r ≡ some (i + k, s))
        × (get_elem? xs k ≡ some s)
        × (waits s ≡ true))

older-cases :
    (i : ℕ) (x : EventSlot) (best : Option (ℕ × EventSlot))
    → (older i x best ≡ best) ⊎ ((older i x best ≡ some (i, x)) × (waits x ≡ true))
older-cases i x none = ground arith
older-cases i x (some (j, b)) = ground arith

Found-cons :
    (i : ℕ) (best : Option (ℕ × EventSlot)) (x : EventSlot) (xs : List EventSlot)
    (r : Option (ℕ × EventSlot))
    → Found (i + 1) (older i x best) xs r
    → Found i best (x ∷ xs) r
Found-cons i best x xs r (inl e) = elim (older-cases i x best) [
  | inl kept ↦ inl (e ∙ kept)
  | inr (new, w) ↦ inr (0, x, ground (arith, e, new), refl, w)
]
Found-cons i best x xs r (inr (k, s, e, g, w)) = inr (suc k, s, ground arith, g, w)

oldest_from-Found :
    (i : ℕ) (best : Option (ℕ × EventSlot)) (xs : List EventSlot)
    → Found i best xs (oldest_from i best xs)
unfolding oldest_from
oldest_from-Found i best [] = inl refl
oldest_from-Found i best (x ∷ xs) =
    Found-cons i best x xs (oldest_from (i + 1) (older i x best) xs)
      (oldest_from-Found (i + 1) (older i x best) xs)

-- No slot waits, and the outbox stays as it was; or slot `i` is the oldest that waits.
abbrev pub TakesOldest : ℕ → EventOutbox → EventOutbox × Option ℕ → Type 0
TakesOldest base o r =
    ((r ≡ (o, none)) × All (λ t. waits t ≡ false) o.slots)
    ⊎ ((i : ℕ) × (s : EventSlot) × (get_elem? o.slots i ≡ some s)
        × (waits s ≡ true)
        × All (λ t. waits t ≡ true → rank base s ≤ rank base t) o.slots
        × (r ≡ (record o { slots = set o.slots i (record s { sending = true }) }, some i)))

marked :
    (base : ℕ) (o : EventOutbox) (r : Option (ℕ × EventSlot))
    → oldest_from 0 none o.slots ≡ r
    → All (Ahead base r) o.slots
    → Found 0 none o.slots r
    → TakesOldest base o (oldest_locked o)
unfolding oldest_locked
marked base o none e c f = inl (rw e refl, c)
marked base o (some (i, s)) e c (inl h) = absurd (ground arith)
marked base o (some (i, s)) e c (inr (k, t, h, g, w)) =
    inr (i, s, ground (arith, h, g), ground (arith, h, w), c, rw e refl)

pub oldest_locked_lem :
    (base : ℕ) (o : EventOutbox) → All (Ranked base) o.slots → TakesOldest base o (oldest_locked o)
oldest_locked_lem base o w =
    marked base o (oldest_from 0 none o.slots) refl (oldest_from-Ahead base 0 none o.slots tt w).0
      (oldest_from-Found 0 none o.slots)

-- What the worker can find in its first critical section.
pub take_event-cases :
    (base : ℕ) (o : EventOutbox)
    → All (Ranked base) o.slots
    → ((take_event o ≡ (record o { task = false }, none)) × (o.stopping ≡ true))
      ⊎ ((o.stopping ≡ false) × TakesOldest base o (take_event o))
unfolding take_event
take_event-cases base o w = elim (Bool-cases o.stopping) [
  | inl yes' ↦ inl (if_true _ _ yes', yes')
  | inr no' ↦
      inr (no', subst (TakesOldest base o) (sym (if_false _ _ no')) (oldest_locked_lem base o w))
]
