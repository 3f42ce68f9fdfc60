-- ===== src/Outbox/View.antt =====
-- The slots of keemash_mesh_event_outbox.c as a queue: the abstract view that forgets where an event
-- stands in the table.
use keemash_core.Base.{
  ℕ, zero, suc, ◌<◌, ◌≡◌, ◌≢◌, refl, ap, sym, ◌∙◌, subst, true, false, some, List, [], ◌∷◌, ◌++◌,
  map, Bool-cases, inl, inr, if_true, if_false, ltb, if◌then◌else◌, arith, get_elem?, set, All,
}
use keemash_core.Outbox.{EventSlot, EventOutbox}
use keemash_core.Outbox.Oldest.{rank}

-- What the callback is given, with the key under which it can be replaced.
pub record Event : Type 0 where
  pub key : List ℕ
  pub text : List ℕ

-- An event with the rank of its ticket.
abbrev pub Entry : Type 0
Entry = ℕ × Event

abbrev pub event : EventSlot → Event
event s = record { key = s.key; text = s.text }

abbrev pub entry : ℕ → EventSlot → Entry
entry base s = (rank base s, event s)

abbrev pub insert : Entry → List Entry → List Entry
insert e [] = e ∷ []
insert e (x ∷ q) = if ltb e.0 x.0 then e ∷ x ∷ q else x ∷ insert e q

-- The slots in use, in the order of their tickets.
abbrev pub view : ℕ → List EventSlot → List Entry
view base [] = []
view base (s ∷ xs) = if s.used then insert (entry base s) (view base xs) else view base xs

abbrev pub events : List Entry → List Event
events = map (λ (e : Entry). e.1)

-- The queue that an outbox stands for, when tickets are counted from `base`.
abbrev pub queue : ℕ → EventOutbox → List Event
queue base o = events (view base o.slots)

-- The slot is not used, or its rank differs from this one.
abbrev pub Other : ℕ → ℕ → EventSlot → Type 0
Other base r t = t.used ≡ true → rank base t ≢ r

insert_comm :
    (a b : Entry) (q : List Entry) → a.0 ≢ b.0 → insert a (insert b q) ≡ insert b (insert a q)
insert_comm a b [] h = ground arith
insert_comm a b (x ∷ q) h = ground (arith, insert_comm a b q h)

pub insert-last :
    (k : Entry) (q : List Entry) → All (λ (e : Entry). e.0 < k.0) q → insert k q ≡ q ++ k ∷ []
insert-last k [] h = refl
insert-last k (x ∷ q) h = ground (arith, insert-last k q h.1)

pub insert-first :
    (k : Entry) (q : List Entry) → All (λ (e : Entry). k.0 < e.0) q → insert k q ≡ k ∷ q
insert-first k [] h = refl
insert-first k (x ∷ q) h = ground arith

-- An inserted entry stands somewhere in the list, and the rest is as before.
pub insert-split :
    (k : Entry) (q : List Entry)
    → (before : List Entry) × (after : List Entry) × (q ≡ before ++ after)
      × (insert k q ≡ before ++ k ∷ after)
insert-split k [] = ([], [], refl, refl)
insert-split k (x ∷ q) = elim (Bool-cases (ltb k.0 x.0)) [
  | inl e ↦ ([], x ∷ q, refl, if_true _ _ e)
  | inr e ↦
      let (before, after, old, new) = insert-split k q in
      (x ∷ before, after, ap (◌∷◌ x) old, if_false _ _ e ∙ ap (◌∷◌ x) new)
]

insert-All {ℓ} :
    (P : Entry → Type ℓ) (k : Entry) (q : List Entry) → P k → All P q → All P (insert k q)
insert-All P k [] h a = (h, tt)
insert-All P k (x ∷ q) h a = elim (Bool-cases (ltb k.0 x.0)) [
  | inl e ↦ subst (All P) (sym (if_true _ _ e)) (h, a)
  | inr e ↦ subst (All P) (sym (if_false _ _ e)) (a.0, insert-All P k q h a.1)
]

pub view-All {ℓ} :
    (P : Entry → Type ℓ) (base : ℕ) (xs : List EventSlot)
    → All (λ t. t.used ≡ true → P (entry base t)) xs
    → All P (view base xs)
view-All P base [] h = tt
view-All P base (x ∷ xs) h = elim (Bool-cases x.used) [
  | inl u ↦
      subst (All P) (sym (if_true _ _ u))
        (insert-All P (entry base x) (view base xs) (h.0 u) (view-All P base xs h.1))
  | inr u ↦ subst (All P) (sym (if_false _ _ u)) (view-All P base xs h.1)
]

view-skip :
    (base : ℕ) (x : EventSlot) (xs : List EventSlot)
    → x.used ≡ false
    → view base (x ∷ xs) ≡ view base xs
view-skip base x xs u = if_false _ _ u

view-used :
    (base : ℕ) (x : EventSlot) (xs : List EventSlot)
    → x.used ≡ true
    → view base (x ∷ xs) ≡ insert (entry base x) (view base xs)
view-used base x xs u = if_true _ _ u

-- Filling a free slot inserts its event.
pub view-fill :
    (base : ℕ) (xs : List EventSlot) (i : ℕ) {c : EventSlot} (v : EventSlot)
    → get_elem? xs i ≡ some c
    → c.used ≡ false
    → v.used ≡ true
    → All (Other base (rank base v)) xs
    → view base (set xs i v) ≡ insert (entry base v) (view base xs)
view-fill base [] i v g c u a = absurd (ground arith)
view-fill base (x ∷ xs) zero {c} v g f u a =
    view-used base v xs u
    ∙ ap (insert (entry base v)) (sym (view-skip base x xs (ground (arith, g, f))))
view-fill base (x ∷ xs) (suc i) {c} v g f u a =
    let ih = view-fill base xs i {c = c} v g f u a.1 in
    elim (Bool-cases x.used) [
      | inl e ↦
          view-used base x (set xs i v) e
          ∙ ap (insert (entry base x)) ih
          ∙ insert_comm (entry base x) (entry base v) (view base xs) (a.0 e)
          ∙ ap (insert (entry base v)) (sym (view-used base x xs e))
      | inr e ↦
          view-skip base x (set xs i v) e
          ∙ ih
          ∙ ap (insert (entry base v)) (sym (view-skip base x xs e))
    ]

-- A slot that is cleared had its event inserted among the others.
pub view-clear :
    (base : ℕ) (xs : List EventSlot) (i : ℕ) {s : EventSlot} (c : EventSlot)
    → get_elem? xs i ≡ some s
    → s.used ≡ true
    → c.used ≡ false
    → All (Other base (rank base s)) (set xs i c)
    → view base xs ≡ insert (entry base s) (view base (set xs i c))
view-clear base [] i c g u f a = absurd (ground arith)
view-clear base (x ∷ xs) zero {s} c g u f a =
    let same : x ≡ s = ground (arith, g) in
    view-used base x xs (ap (λ (t : EventSlot). t.used) same ∙ u)
    ∙ ap (λ t. insert (entry base t) (view base xs)) same
    ∙ ap (insert (entry base s)) (sym (view-skip base c xs f))
view-clear base (x ∷ xs) (suc i) {s} c g u f a =
    let ih = view-clear base xs i {s = s} c g u f a.1 in
    elim (Bool-cases x.used) [
      | inl e ↦
          view-used base x xs e
          ∙ ap (insert (entry base x)) ih
          ∙ insert_comm (entry base x) (entry base s) (view base (set xs i c)) (a.0 e)
          ∙ ap (insert (entry base s)) (sym (view-used base x (set xs i c) e))
      | inr e ↦
          view-skip base x xs e
          ∙ ih
          ∙ ap (insert (entry base s)) (sym (view-skip base x (set xs i c) e))
    ]

-- A write that keeps the event and its ticket keeps the queue.
pub view-same :
    (base : ℕ) (xs : List EventSlot) (i : ℕ) {x : EventSlot} (v : EventSlot)
    → get_elem? xs i ≡ some x
    → v.used ≡ x.used
    → entry base v ≡ entry base x
    → view base (set xs i v) ≡ view base xs
view-same base [] i v g u e = absurd (ground arith)
view-same base (y ∷ xs) zero {x} v g u e =
    let same : x ≡ y = ground (arith, g) in
    (λ i. if u i then insert (e i) (view base xs) else view base xs)
    ∙ ap (λ t. view base (t ∷ xs)) same
view-same base (y ∷ xs) (suc i) {x} v g u e =
    ap (λ q. if y.used then insert (entry base y) q else q) (view-same base xs i {x = x} v g u e)
