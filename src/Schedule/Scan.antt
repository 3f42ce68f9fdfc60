-- ===== src/Schedule/Scan.antt =====
-- The two nested loops of keemash_weekly_schedule.c find the least cost.
use keemash_core.Base.{
  ℕ, zero, suc, ◌+◌, ◌≤◌, ◌<◌, ◌≡◌, refl, ap, sym, subst, ◌∙◌, ◌⊎◌, inl, inr, Option, none, some,
  List, [], ◌∷◌, arith, ltb, get_elem?, All, All-map, Bool-cases, if_true, if_false, ℕ-cases,
}
use keemash_core.Schedule.{Point, consider, scan_points, scan_days}

-- The state costs no more than this candidate.
abbrev pub AtMost : ℕ × ℕ → Option ℕ → Type 0
AtMost st none = Unit {0}
AtMost st (some cost) = st.0 ≤ cost

-- The state is the one before, or that of a point from index `i` on.
abbrev pub FoundIn : (Point → Option ℕ) → ℕ → List Point → ℕ × ℕ → ℕ × ℕ → Type 0
FoundIn cost i points st r =
    (r ≡ st)
    ⊎ ((k : ℕ) × (p : Point) × (get_elem? points k ≡ some p) × (cost p ≡ some r.0) × (r.1 ≡ i + k))

consider_lem :
    (o : Option ℕ) (i : ℕ) (st : ℕ × ℕ) → ((consider o i st).0 ≤ st.0) × AtMost (consider o i st) o
consider_lem none i st = (omega arith, tt)
consider_lem (some c) i st = ground arith

AtMost-mono : (o : Option ℕ) (r st : ℕ × ℕ) → r.0 ≤ st.0 → AtMost st o → AtMost r o
AtMost-mono none r st h a = tt
AtMost-mono (some c) r st h a = omega arith

pub scan_points-AtMost :
    (cost : Point → Option ℕ) (i : ℕ) (points : List Point) (st : ℕ × ℕ)
    → let r = scan_points cost i points st in (r.0 ≤ st.0) × All (λ p. AtMost r (cost p)) points
unfolding scan_points
scan_points-AtMost cost i [] st = (omega arith, tt)
scan_points-AtMost cost i (p ∷ points) st =
    let first = consider_lem (cost p) i st in
    let st' = consider (cost p) i st in
    let rest = scan_points-AtMost cost (i + 1) points st' in
    (
      omega (arith, first.0, rest.0),
      (AtMost-mono (cost p) (scan_points cost (i + 1) points st') st' rest.0 first.1, rest.1),
    )

consider-cases :
    (o : Option ℕ) (i : ℕ) (st : ℕ × ℕ)
    → (consider o i st ≡ st) ⊎ ((c : ℕ) × (o ≡ some c) × (consider o i st ≡ (c, i)))
consider-cases none i st = inl refl
consider-cases (some c) i st = elim (Bool-cases (ltb c st.0)) [
  | inl e ↦ inr (c, refl, if_true _ _ e)
  | inr e ↦ inl (if_false _ _ e)
]

pub scan_points-FoundIn :
    (cost : Point → Option ℕ) (i : ℕ) (points : List Point) (st : ℕ × ℕ)
    → FoundIn cost i points st (scan_points cost i points st)
unfolding scan_points
scan_points-FoundIn cost i [] st = inl refl
scan_points-FoundIn cost i (p ∷ points) st =
    elim (scan_points-FoundIn cost (i + 1) points (consider (cost p) i st)) [
      | inr (k, q, g, c, e) ↦ inr (suc k, q, g, c, omega (arith, e))
      | inl e ↦ elim (consider-cases (cost p) i st) [
        | inl kept ↦ inl (e ∙ kept)
        | inr (c, found, new) ↦
            let both = e ∙ new in
            inr (
              0,
              p,
              refl,
              found ∙ ap (λ (r : ℕ × ℕ). some r.0) (sym both),
              omega (arith, ap (λ (r : ℕ × ℕ). r.1) both),
            )
      ]
    ]

-- The state is that of a point on day `e`.
abbrev pub FoundAt : (ℕ → Point → Option ℕ) → List Point → ℕ → ℕ × ℕ → Type 0
FoundAt cost points e r = (p : Point) × (get_elem? points r.1 ≡ some p) × (cost e p ≡ some r.0)

-- The state is the one before, or that of a point on one of the days.
abbrev pub FoundOn : (ℕ → Point → Option ℕ) → List Point → ℕ → ℕ → ℕ × ℕ → ℕ × ℕ → Type 0
FoundOn cost points rounds d st r =
    (r ≡ st) ⊎ ((e : ℕ) × (d ≤ e) × (e < d + rounds) × FoundAt cost points e r)

pub scan_days-FoundOn :
    (cost : ℕ → Point → Option ℕ) (points : List Point) (rounds d : ℕ) (st : ℕ × ℕ)
    → FoundOn cost points rounds d st (scan_days cost points rounds d st)
unfolding scan_days
scan_days-FoundOn cost points zero d st = inl refl
scan_days-FoundOn cost points (suc rounds) d st =
    let st' = scan_points (cost d) 0 points st in
    let r = scan_days cost points rounds (d + 1) st' in
    elim (scan_days-FoundOn cost points rounds (d + 1) st') [
      | inr (e, lo, hi, at) ↦ inr (e, omega arith, omega arith, at)
      | inl e ↦ elim (scan_points-FoundIn (cost d) 0 points st) [
        | inl kept ↦ inl (e ∙ kept)
        | inr (k, p, g, c, i) ↦ inr (
          d,
          omega arith,
          omega arith,
          subst (FoundAt cost points d) (sym e) (
            p,
            (let at : k ≡ st'.1 = omega (arith, i) in
                subst (λ j. get_elem? points j ≡ some p) at g),
            c,
          ),
        )
      ]
    ]

-- The state found costs no more than any point on any of the days.
pub scan_days-AtMost :
    (cost : ℕ → Point → Option ℕ) (points : List Point) (rounds d : ℕ) (st : ℕ × ℕ)
    → let r = scan_days cost points rounds d st in
      (r.0 ≤ st.0) × ((e : ℕ) → d ≤ e → e < d + rounds → All (λ p. AtMost r (cost e p)) points)
unfolding scan_days
scan_days-AtMost cost points zero d st = (omega arith, λ e lo hi. absurd (omega arith))
scan_days-AtMost cost points (suc rounds) d st =
    let st' = scan_points (cost d) 0 points st in
    let r = scan_days cost points rounds (d + 1) st' in
    let now = scan_points-AtMost (cost d) 0 points st in
    let rest = scan_days-AtMost cost points rounds (d + 1) st' in
    (
      omega (arith, now.0, rest.0),
      λ e lo hi. elim (ℕ-cases d e) [
        | inl same ↦
            subst (λ (e : ℕ). All (λ p. AtMost r (cost e p)) points) same
              (All-map (λ p. AtMost st' (cost d p)) (λ p. AtMost r (cost d p)) points
                (λ p a. AtMost-mono (cost d p) r st' rest.0 a) now.1)
        | inr other' ↦ rest.1 e (omega arith) (omega arith)
      ],
    )
