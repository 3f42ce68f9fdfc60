-- ===== src/Broker/Order.antt =====
-- Which slot the worker of keemash_mesh_tx_broker.c sends next.
use keemash_core.Base.{
  ℕ, suc, ◌+◌, ◌^◌, ◌≤◌, ◌<◌, ◌≡◌, refl, ◌∙◌, ◌⊎◌, inl, inr, true, false, Option, none, some, List,
  [], ◌∷◌, Bool-cases, if_true, if_false, arith, sub32, get_elem?, set, All,
}
use keemash_core.Broker.{
  Slot, Broker, eligible, better, pick_from, pick_next_locked, mark, take_work,
}

-- The tickets of the packets that wait span less than half of the 32-bit range, from `base` on.
abbrev pub InWindow : ℕ → Slot → Type 0
InWindow base t =
    eligible t ≡ true → (t.ticket < 2 ^ 32) × (base < 2 ^ 32) × (sub32 t.ticket base < 2 ^ 31)

-- If `t` waits, then `s` has a higher priority, or the same and no later ticket.
abbrev pub GoesFirst : ℕ → Slot → Slot → Type 0
GoesFirst base s t =
    eligible t ≡ true
    → (t.priority < s.priority)
      ⊎ ((t.priority ≡ s.priority) × (sub32 s.ticket base ≤ sub32 t.ticket base))

abbrev Holds : ℕ → Option (ℕ × Slot) → Type 0
Holds base none = Unit {0}
Holds base (some (_, s)) = (eligible s ≡ true) × InWindow base s

abbrev Covers : ℕ → Option (ℕ × Slot) → Slot → Type 0
Covers base none t = eligible t ≡ false
Covers base (some (_, s)) t = GoesFirst base s t

abbrev CoversBest : ℕ → Option (ℕ × Slot) → Option (ℕ × Slot) → Type 0
CoversBest base r none = Unit {0}
CoversBest base r (some (_, s)) = Covers base r s

better_lem :
    (base i : ℕ) (x : Slot) (best : Option (ℕ × Slot))
    → Holds base best
    → InWindow base x
    → Holds base (better i x best)
      × Covers base (better i x best) x
      × CoversBest base (better i x best) best
better_lem base i x none h w = ground arith
better_lem base i x (some (j, b)) h w = ground arith

Covers-trans :
    (base : ℕ) (r m : Option (ℕ × Slot)) (t : Slot)
    → CoversBest base r m
    → Holds base m
    → Covers base m t
    → Covers base r t
Covers-trans base none none t c h d = d
Covers-trans base none (some (k, m)) t c h d = ground arith
Covers-trans base (some (j, s)) none t c h d = λ e. ground arith
Covers-trans base (some (j, s)) (some (k, m)) t c h d = λ e. ground arith

CoversBest-trans :
    (base : ℕ) (r m best : Option (ℕ × Slot))
    → CoversBest base r m
    → Holds base m
    → CoversBest base m best
    → CoversBest base r best
CoversBest-trans base r m none c h d = tt
CoversBest-trans base r m (some (j, s)) c h d = Covers-trans base r m s c h d

CoversBest-self :
    (base : ℕ) (best : Option (ℕ × Slot)) → Holds base best → CoversBest base best best
CoversBest-self base none h = tt
CoversBest-self base (some (j, s)) h = λ e. ground arith

pick_from-Covers :
    (base i : ℕ) (best : Option (ℕ × Slot)) (xs : List Slot)
    → Holds base best
    → All (InWindow base) xs
    → All (Covers base (pick_from i best xs)) xs × CoversBest base (pick_from i best xs) best
unfolding pick_from
pick_from-Covers base i best [] h w = (tt, CoversBest-self base best h)
pick_from-Covers base i best (x ∷ xs) h w =
    let step = better_lem base i x best h w.0 in
    let rest = pick_from-Covers base (i + 1) (better i x best) xs step.0 w.1 in
    (
      (
        Covers-trans base (pick_from (i + 1) (better i x best) xs) (better i x best) x rest.1 step.0
            step.1,
        rest.0,
      ),
      CoversBest-trans base (pick_from (i + 1) (better i x best) xs) (better i x best) best rest.1
          step.0 step.2,
    )

-- The chosen slot is the earlier choice, or stands in the rest of the table.
abbrev Found : ℕ → Option (ℕ × Slot) → List Slot → Option (ℕ × Slot) → Type 0
Found i best xs r =
    (r ≡ best)
    ⊎ ((k : ℕ) × (s : Slot) × (r ≡ some (i + k, s))
        × (get_elem? xs k ≡ some s)
        × (eligible s ≡ true))

better-cases :
    (i : ℕ) (x : Slot) (best : Option (ℕ × Slot))
    → (better i x best ≡ best) ⊎ ((better i x best ≡ some (i, x)) × (eligible x ≡ true))
better-cases i x none = ground arith
better-cases i x (some (j, b)) = ground arith

Found-cons :
    (i : ℕ) (best : Option (ℕ × Slot)) (x : Slot) (xs : List Slot) (r : Option (ℕ × Slot))
    → Found (i + 1) (better i x best) xs r
    → Found i best (x ∷ xs) r
Found-cons i best x xs r (inl e) = elim (better-cases i x best) [
  | inl kept ↦ inl (e ∙ kept)
  | inr (new, el) ↦ inr (0, x, ground (arith, e, new), refl, el)
]
Found-cons i best x xs r (inr (k, s, e, g, el)) = inr (suc k, s, ground arith, g, el)

pick_from-Found :
    (i : ℕ) (best : Option (ℕ × Slot)) (xs : List Slot) → Found i best xs (pick_from i best xs)
unfolding pick_from
pick_from-Found i best [] = inl refl
pick_from-Found i best (x ∷ xs) =
    Found-cons i best x xs (pick_from (i + 1) (better i x best) xs)
      (pick_from-Found (i + 1) (better i x best) xs)

pick_from-Holds :
    (base i : ℕ) (best : Option (ℕ × Slot)) (xs : List Slot)
    → Holds base best
    → All (InWindow base) xs
    → Holds base (pick_from i best xs)
unfolding pick_from
pick_from-Holds base i best [] h w = h
pick_from-Holds base i best (x ∷ xs) h w =
    pick_from-Holds base (i + 1) (better i x best) xs (better_lem base i x best h w.0).0 w.1

-- What `pick_next_locked` answers, over the table before the call.
abbrev pub Picked : ℕ → Broker → Broker × Option ℕ → Type 0
Picked base b (b', none) = (b' ≡ b) × All (λ t. eligible t ≡ false) b.slots
Picked base b (b', some i) =
    (s : Slot) × (get_elem? b.slots i ≡ some s)
    × (eligible s ≡ true)
    × All (GoesFirst base s) b.slots
    × (b' ≡ record b { slots = set b.slots i (record s { sending = true }) })

All-map {ℓ} :
    {A : Type ℓ} {P Q : A → Type 0} (xs : List A) → ((x : A) → P x → Q x) → All P xs → All Q xs
All-map [] f h = tt
All-map (x ∷ xs) f h = (f x h.0, All-map xs f h.1)

mark_lem :
    (base : ℕ) (b : Broker) (r : Option (ℕ × Slot))
    → Holds base r
    → All (Covers base r) b.slots
    → Found 0 none b.slots r
    → Picked base b (mark b r)
unfolding mark
mark_lem base b none h c f = (refl, c)
mark_lem base b (some (i, s)) h c (inl e) = absurd (ground arith)
mark_lem base b (some (i, s)) h c (inr (k, t, e, g, el)) = (s, ground (arith, e, g), h.0, c, refl)

-- If the tickets that wait lie within half of the ticket range, the worker is given a waiting slot
-- that no other waiting slot outranks: of the highest priority, and of those the oldest; exactly
-- this slot is marked as sending. It is given none, and the broker stays as it was, exactly when no slot waits.
pub pick_next_locked-Picked :
    (base : ℕ) (b : Broker) → All (InWindow base) b.slots → Picked base b (pick_next_locked b)
unfolding pick_next_locked
pick_next_locked-Picked base b w =
    mark_lem base b (pick_from 0 none b.slots) (pick_from-Holds base 0 none b.slots tt w)
      (pick_from-Covers base 0 none b.slots tt w).0 (pick_from-Found 0 none b.slots)

better-none :
    (i : ℕ) (x : Slot) (best : Option (ℕ × Slot))
    → better i x best ≡ none
    → (best ≡ none) × (eligible x ≡ false)
better-none i x none e = ground arith
better-none i x (some (j, b)) e = absurd (ground arith)

pick_from-none :
    (i : ℕ) (best : Option (ℕ × Slot)) (xs : List Slot)
    → pick_from i best xs ≡ none
    → (best ≡ none) × All (λ t. eligible t ≡ false) xs
unfolding pick_from
pick_from-none i best [] e = (e, tt)
pick_from-none i best (x ∷ xs) e =
    let rest = pick_from-none (i + 1) (better i x best) xs e in
    let here = better-none i x best rest.0 in (here.0, (here.1, rest.1))

mark-cases :
    (b : Broker) (r : Option (ℕ × Slot))
    → Found 0 none b.slots r
    → (r ≡ none → All (λ t. eligible t ≡ false) b.slots)
    → ((mark b r ≡ (b, none)) × All (λ t. eligible t ≡ false) b.slots)
      ⊎ ((i : ℕ) × (s : Slot) × (get_elem? b.slots i ≡ some s)
          × (eligible s ≡ true)
          × (mark b r ≡ (record b { slots = set b.slots i (record s { sending = true }) }, some i)))
unfolding mark
mark-cases b none f n = inl (refl, n refl)
mark-cases b (some (i, s)) (inl e) n = absurd (ground arith)
mark-cases b (some (i, s)) (inr (k, t, e, g, el)) n =
    inr (i, s, ground (arith, e, g), ground (arith, e, el), refl)

-- With no assumption on the tickets: a waiting slot is marked, or nothing is done.
pub pick_next_locked-cases :
    (b : Broker)
    → ((pick_next_locked b ≡ (b, none)) × All (λ t. eligible t ≡ false) b.slots)
      ⊎ ((i : ℕ) × (s : Slot) × (get_elem? b.slots i ≡ some s)
          × (eligible s ≡ true)
          × (pick_next_locked b
              ≡ (record b { slots = set b.slots i (record s { sending = true }) }, some i)))
unfolding pick_next_locked
pick_next_locked-cases b =
    mark-cases b (pick_from 0 none b.slots) (pick_from-Found 0 none b.slots)
      (λ e. (pick_from-none 0 none b.slots e).1)

-- What the worker can find in its first critical section.
pub take_work-cases :
    (b : Broker)
    → ((take_work b ≡ (record b { task = false }, none)) × (b.stopping ≡ true))
      ⊎ ((take_work b ≡ (b, none)) × (b.stopping ≡ false) × All (λ t. eligible t ≡ false) b.slots)
      ⊎ ((i : ℕ) × (s : Slot) × (get_elem? b.slots i ≡ some s)
          × (eligible s ≡ true)
          × (take_work b
              ≡ (record b { slots = set b.slots i (record s { sending = true }) }, some i)))
unfolding take_work
take_work-cases b = elim (Bool-cases b.stopping) [
  | inl yes' ↦ inl (if_true _ _ yes', yes')
  | inr no' ↦ elim (pick_next_locked-cases b) [
    | inl (e, all) ↦ inr (inl (if_false _ _ no' ∙ e, no', all))
    | inr (i, s, g, el, e) ↦ inr (inr (i, s, g, el, if_false _ _ no' ∙ e))
  ]
]
