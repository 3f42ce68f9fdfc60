-- ===== src/Checkpoint/Latest.antt =====
-- The two entries of keemash_ota_v3_checkpoint.c: which record is the latest, and where the next goes.
use keemash_core.Base.{
  ℕ, ◌+◌, ◌-◌, ◌%◌, ◌^◌, ◌<◌, ◌≡◌, refl, ap, sym, ◌∙◌, subst, true, false, Option, none, some,
  arith, inl, inr, ◌⊎◌, Bool-cases, if_true, if_false, if_either, if◌then◌else◌, ◌==◌,
}
use keemash_core.Checkpoint.{Stored, is_v3a, newer, choose, next_generation}

newer_next : (g : ℕ) → g + 1 < 2 ^ 32 → newer (g + 1) g ≡ true
newer_next g h = ground arith

newer_previous : (g : ℕ) → g + 1 < 2 ^ 32 → newer g (g + 1) ≡ false
newer_previous g h = ground arith

-- The generations of the two records, if both entries hold one: neighbours, or the first after 2^32 - 1
-- was overwritten.
abbrev pub Neighbours : ℕ → ℕ → Type 0
Neighbours x y = (y ≡ x + 1) ⊎ ((x ≡ y + 1) ⊎ ((x ≡ 1) × (y ≡ 2 ^ 32 - 2)))

-- The valid records of the entries "v3a" and "v3b".
abbrev pub InJournal : Option Stored → Option Stored → Type 0
InJournal none none = Unit {0}
InJournal (some r) none = (r.generation % 2 ≡ 1) × (r.generation < 2 ^ 32)
InJournal none (some s) = (s.generation % 2 ≡ 0) × (s.generation < 2 ^ 32)
InJournal (some r) (some s) =
    ((r.generation % 2 ≡ 1) × (r.generation < 2 ^ 32))
    × (((s.generation % 2 ≡ 0) × (s.generation < 2 ^ 32)) × Neighbours r.generation s.generation)

-- The entries after one is overwritten.
abbrev pub put : Option Stored → Option Stored → ℕ → Option Stored → Option Stored × Option Stored
put a b generation r = if is_v3a generation then (r, b) else (a, r)

-- Both entries are as they should be, and this is the latest record.
abbrev pub Latest : Option Stored → Option Stored × Option Stored → Type 0
Latest latest p = InJournal p.0 p.1 × (choose p.0 p.1 ≡ latest)

put_v3a : (v a b r : Option Stored) (g : ℕ) → g % 2 ≡ 1 → Latest v (r, b) → Latest v (put a b g r)
put_v3a v a b r g odd h =
    if_either (Latest v) (is_v3a g) (λ _. h) (λ even. absurd (ground (arith, odd, even)))

put_v3b : (v a b r : Option Stored) (g : ℕ) → g % 2 ≡ 0 → Latest v (a, r) → Latest v (put a b g r)
put_v3b v a b r g even h =
    if_either (Latest v) (is_v3a g) (λ odd. absurd (ground (arith, odd, even))) (λ _. h)

second_next :
    (r s : Stored)
    → r.generation % 2 ≡ 1
    → s.generation ≡ r.generation + 1
    → s.generation < 2 ^ 32
    → Latest (some s) (some r, some s)
second_next r s odd e h =
    let new : newer s.generation r.generation ≡ true =
      subst (λ (g : ℕ). newer g r.generation ≡ true) (sym e)
        (newer_next r.generation (omega (arith, e, h))) in
    (
      ((odd, omega (arith, e, h)), ((omega (arith, odd, e), h), inl e)),
      if_true (some s) (some r) new,
    )

first_next :
    (r s : Stored)
    → s.generation % 2 ≡ 0
    → r.generation ≡ s.generation + 1
    → r.generation < 2 ^ 32
    → Latest (some r) (some r, some s)
first_next r s even e h =
    let old : newer s.generation r.generation ≡ false =
      subst (λ (g : ℕ). newer s.generation g ≡ false) (sym e)
        (newer_previous s.generation (omega (arith, e, h))) in
    (
      ((omega (arith, even, e), h), ((even, omega (arith, e, h)), inr (inl e))),
      if_false (some s) (some r) old,
    )

first_again :
    (r s : Stored) → r.generation ≡ 1 → s.generation ≡ 2 ^ 32 - 2 → Latest (some r) (some r, some s)
first_again r s e last =
    let old : newer s.generation r.generation ≡ false =
      subst (λ (g : ℕ). newer g r.generation ≡ false) (sym last)
        (subst (λ (g : ℕ). newer (2 ^ 32 - 2) g ≡ false) (sym e) refl) in
    (
      (
        (omega (arith, e), omega (arith, e)),
        ((omega (arith, last), omega (arith, last)), inr (inr (e, last))),
      ),
      if_false (some s) (some r) old,
    )

next_suc : (r : Stored) → r.generation + 1 < 2 ^ 32 → next_generation (some r) ≡ r.generation + 1
next_suc r h = ground (arith, h)

next_one : (r : Stored) → r.generation ≡ 2 ^ 32 - 1 → next_generation (some r) ≡ 1
next_one r h = ground (arith, h)

-- The latest record is the one of "v3a": the next goes to "v3b", or over it if it is the last.
after_first :
    (q r : Stored) (b : Option Stored)
    → (q.generation % 2 ≡ 1) × (q.generation < 2 ^ 32)
    → r.generation ≡ next_generation (some q)
    → (q.generation ≡ 2 ^ 32 - 1 → r.generation ≡ 1 → Latest (some r) (some r, b))
    → Latest (some r) (put (some q) b r.generation (some r))
after_first q r b (odd, low) e last = elim (Bool-cases (q.generation == 2 ^ 32 - 1)) [
  | inl t ↦
      let top : q.generation ≡ 2 ^ 32 - 1 = ground (arith, t) in
      let one = e ∙ next_one q top in
      put_v3a (some r) (some q) b (some r) r.generation (omega (arith, one)) (last top one)
  | inr f ↦
      let more : q.generation + 1 < 2 ^ 32 = ground (arith, f, low) in
      let next = e ∙ next_suc q more in
      put_v3b (some r) (some q) b (some r) r.generation (omega (arith, odd, next))
        (second_next q r odd next (omega (arith, more, next)))
]

-- The latest record is the one of "v3b": the next goes to "v3a".
after_second :
    (r s : Stored) (a : Option Stored)
    → (s.generation % 2 ≡ 0) × (s.generation < 2 ^ 32)
    → r.generation ≡ next_generation (some s)
    → Latest (some r) (put a (some s) r.generation (some r))
after_second r s a (even, low) e =
    let more : s.generation + 1 < 2 ^ 32 = omega (arith, even, low) in
    let next = e ∙ next_suc s more in
    put_v3a (some r) a (some s) (some r) r.generation (omega (arith, even, next))
      (first_next r s even next (omega (arith, more, next)))

chosen_second :
    (q s : Stored)
    → s.generation ≡ q.generation + 1
    → s.generation < 2 ^ 32
    → choose (some q) (some s) ≡ some s
chosen_second q s next low = if_true (some s) (some q) (
    subst (λ (g : ℕ). newer g q.generation ≡ true) (sym next)
      (newer_next q.generation (omega (arith, next, low))))

-- A record of the next generation makes itself the latest one.
pub written-Latest :
    (a b : Option Stored) (r : Stored)
    → InJournal a b
    → r.generation ≡ next_generation (choose a b)
    → Latest (some r) (put a b r.generation (some r))
written-Latest none none r j e =
    put_v3a (some r) none none (some r) r.generation (omega (arith, e))
      ((omega (arith, e), omega (arith, e)), refl)
written-Latest (some q) none r j e =
    after_first q r none j e λ _ one. ((omega (arith, one), omega (arith, one)), refl)
written-Latest none (some s) r j e = after_second r s none j e
written-Latest (some q) (some s) r (odd, (even, inl next)) e =
    after_second r s (some q) even (e ∙ ap next_generation (chosen_second q s next even.1))
written-Latest (some q) (some s) r (odd, (even, inr (inl next))) e =
    after_first q r (some s) odd (e ∙ ap next_generation (first_next q s even.0 next odd.1).1)
      λ top one. first_again r s one (omega (arith, top, next))
written-Latest (some q) (some s) r (odd, (even, inr (inr (one, last)))) e =
    after_first q r (some s) odd (e ∙ ap next_generation (first_again q s one last).1)
      λ top _. absurd (omega (arith, top, one))

kept_first :
    (q : Stored) (b : Option Stored)
    → (q.generation % 2 ≡ 1) × (q.generation < 2 ^ 32)
    → q.generation + 1 < 2 ^ 32
    → Latest (some q) (put (some q) b (next_generation (some q)) none)
kept_first q b (odd, low) more =
    put_v3b (some q) (some q) b none (next_generation (some q))
      (omega (arith, odd, next_suc q more)) ((odd, low), refl)

kept_second :
    (s : Stored) (a : Option Stored)
    → (s.generation % 2 ≡ 0) × (s.generation < 2 ^ 32)
    → Latest (some s) (put a (some s) (next_generation (some s)) none)
kept_second s a (even, low) =
    put_v3a (some s) a (some s) none (next_generation (some s))
      (omega (arith, even, next_suc s (omega (arith, even, low)))) ((even, low), refl)

-- The generation of the latest record, 0 without one.
abbrev pub generation_of : Option Stored → ℕ
generation_of none = 0
generation_of (some r) = r.generation

-- The entry that the next record goes to is not the one of the latest record.
pub torn-Latest :
    (a b : Option Stored)
    → InJournal a b
    → generation_of (choose a b) + 1 < 2 ^ 32
    → Latest (choose a b) (put a b (next_generation (choose a b)) none)
torn-Latest none none j more = (tt, refl)
torn-Latest (some q) none j more = kept_first q none j more
torn-Latest none (some s) j more = kept_second s none j
torn-Latest (some q) (some s) (odd, (even, inl next)) more =
    let eq = chosen_second q s next even.1 in
    subst (λ (v : Option Stored). Latest v (put (some q) (some s) (next_generation v) none))
      (sym eq) (kept_second s (some q) even)
torn-Latest (some q) (some s) (odd, (even, inr (inl next))) more =
    let eq = (first_next q s even.0 next odd.1).1 in
    subst (λ (v : Option Stored). Latest v (put (some q) (some s) (next_generation v) none))
      (sym eq)
      (kept_first q (some s) odd
        (subst (λ (v : Option Stored). generation_of v + 1 < 2 ^ 32) eq more))
torn-Latest (some q) (some s) (odd, (even, inr (inr (one, last)))) more =
    let eq = (first_again q s one last).1 in
    subst (λ (v : Option Stored). Latest v (put (some q) (some s) (next_generation v) none))
      (sym eq)
      (kept_first q (some s) odd
        (subst (λ (v : Option Stored). generation_of v + 1 < 2 ^ 32) eq more))
