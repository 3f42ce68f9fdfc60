-- ===== src/Schedule/Run/Once.antt =====
-- A point of keemash_weekly_schedule.c is applied once in its minute, however often the task looks.
use keemash_core.Base.{
  ℕ, ◌+◌, ◌≤◌, ◌<◌, ◌≡◌, ◌⊎◌, refl, ap, sym, subst, ◌∙◌, Bool, true, false, not, ◌&&◌, List, [],
  ◌∷◌, ◌++◌, arith, ◌==◌, ==_iff, inl, inr, Bool-cases, if_true, if_false, if◌then◌else◌, length,
  length-set, get_or, get_or-set_self, get_or-set_ne, set,
}
use keemash_core.Proto.{Esp, ok}
use keemash_core.Schedule.{
  Point, ScheduleConfig, Tm, points_of, point_applies_on, weekday_index, minute_index,
  local_day_key,
}
use keemash_core.Schedule.Blob.{zero_point}
use keemash_core.Schedule.Stage.{Schedule}
use keemash_core.Schedule.Run.{
  Applied, record_success, record_apply_result, executes, apply_point, run_scheduled_point,
  run_points_from, run_points_for_minute,
}

-- The point is due in this minute.
abbrev pub is_due : Tm → Point → Bool
is_due local p = point_applies_on p (weekday_index local) && (p.minute_of_day == minute_index local)

-- The call of `apply` for point `i`.
abbrev pub scheduled : ScheduleConfig → ℕ → Applied
scheduled c i = record { point = get_or c.points i zero_point; index = i; catch_up = false }

-- The due points that have not run on this day, from index `i` on.
abbrev pub due_from : ScheduleConfig → Tm → List ℕ → ℕ → List Point → List Applied
due_from c local days i [] = []
due_from c local days i (p ∷ points) =
    let rest = due_from c local days (i + 1) points in
    if is_due local p && not (get_or days i 0 == local_day_key local)
    then scheduled c i ∷ rest
    else rest

-- The schedule has the configuration, no retry waits, and the array of days is complete.
abbrev pub Settled : Schedule → ScheduleConfig → Type 0
Settled s c =
    (s.config.generation ≡ c.generation) × (s.retry_pending ≡ false) × (length s.last_run_day ≡ 8)

recorded :
    (s : Schedule) (c : ScheduleConfig) (i day now : ℕ)
    → s.config.generation ≡ c.generation
    → record_apply_result s c i false day ok now ≡ record_success s i false day now
unfolding record_apply_result
recorded s c i day now g = if_false s (record_success s i false day now) (ground (arith, g))

due_from-set :
    (c : ScheduleConfig) (local : Tm) (days : List ℕ) (k day i : ℕ) (points : List Point)
    → k < i
    → due_from c local (set days k day) i points ≡ due_from c local days i points
due_from-set c local days k day i [] h = refl
due_from-set c local days k day i (p ∷ points) h =
    let same : get_or (set days k day) i 0 ≡ get_or days i 0 =
      get_or-set_ne days day 0 (λ (e : k ≡ i). omega (arith, e)) in
    λ j.
      if is_due local p && not (same j == local_day_key local)
      then scheduled c i ∷ due_from-set c local days k day (i + 1) points (omega arith) j
      else due_from-set c local days k day (i + 1) points (omega arith) j

-- Every due point from index `i` on has run on this day.
abbrev AllRun : Tm → List ℕ → ℕ → List Point → Type 0
AllRun local days i [] = Unit {0}
AllRun local days i (p ∷ points) =
    (is_due local p ≡ true → get_or days i 0 ≡ local_day_key local)
    × AllRun local days (i + 1) points

-- What a run leaves: the calls, and a schedule that has them in its days and the other days as before.
abbrev Runs : ScheduleConfig → Tm → List ℕ → ℕ → List Point → Schedule × List Applied → Type 0
Runs c local days i points r =
    (r.1 ≡ due_from c local days i points)
    × Settled r.0 c
    × ((k : ℕ) → k < i → get_or r.0.last_run_day k 0 ≡ get_or days k 0)
    × AllRun local r.0.last_run_day i points

Runs-cons :
    (c : ScheduleConfig) (local : Tm) (days days' : List ℕ) (i : ℕ) (p : Point)
    (points : List Point) (calls : List Applied) (r : Schedule × List Applied)
    → calls ++ due_from c local days' (i + 1) points ≡ due_from c local days i (p ∷ points)
    → ((k : ℕ) → k < i → get_or days' k 0 ≡ get_or days k 0)
    → (is_due local p ≡ true → get_or days' i 0 ≡ local_day_key local)
    → Runs c local days' (i + 1) points r
    → Runs c local days i (p ∷ points) (r.0, calls ++ r.1)
Runs-cons c local days days' i p points calls r e before here (made, settled, kept, all) = (
  ap (λ x. calls ++ x) made ∙ e,
  settled,
  (λ k h. kept k (omega arith) ∙ before k h),
  ((λ d. kept i (omega arith) ∙ here d), all),
)

module _ (apply : Point → ℕ → Bool → Esp)
    (succeeds : (p : Point) (i : ℕ) (b : Bool) → apply p i b ≡ ok) where
  applied_ok :
      (s : Schedule) (c : ScheduleConfig) (i day now : ℕ)
      → s.config.generation ≡ c.generation
      → apply_point apply s c i false day now
        ≡ (record_success s i false day now, scheduled c i ∷ [])
  unfolding apply_point
  applied_ok s c i day now g =
      ap (λ (err : Esp). (record_apply_result s c i false day err now, scheduled c i ∷ []))
        (succeeds (get_or c.points i zero_point) i false)
      ∙ ap (λ (t : Schedule). (t, scheduled c i ∷ [])) (recorded s c i day now g)

  ran_before :
      (s : Schedule) (c : ScheduleConfig) (i day now : ℕ)
      → (get_or s.last_run_day i 0 == day) ≡ true
      → run_scheduled_point apply s c i day now ≡ (s, [])
  unfolding run_scheduled_point
  ran_before s c i day now e = if_false {b = executes s c i day now} _ _ (ground (arith, e))

  runs_now :
      (s : Schedule) (c : ScheduleConfig) (i day now : ℕ)
      → Settled s c
      → (get_or s.last_run_day i 0 == day) ≡ false
      → run_scheduled_point apply s c i day now
        ≡ (record_success s i false day now, scheduled c i ∷ [])
  unfolding run_scheduled_point
  runs_now s c i day now h e =
      if_true {b = executes s c i day now} _ _ (ground (arith, e, h.0, h.1))
      ∙ applied_ok s c i day now h.0

  -- One round of the loop, for whether the point is due and has run.
  first : Schedule → ScheduleConfig → Tm → ℕ → ℕ → Point → Schedule × List Applied
  first s c local now i p =
      if is_due local p then run_scheduled_point apply s c i (local_day_key local) now else (s, [])

  first-cases :
      (s : Schedule) (c : ScheduleConfig) (local : Tm) (now i : ℕ) (p : Point)
      → Settled s c
      → ((first s c local now i p ≡ (s, []))
          × ((is_due local p && not (get_or s.last_run_day i 0 == local_day_key local)) ≡ false)
          × (is_due local p ≡ true → get_or s.last_run_day i 0 ≡ local_day_key local))
        ⊎ ((first s c local now i p
              ≡ (record_success s i false (local_day_key local) now, scheduled c i ∷ []))
            × ((is_due local p && not (get_or s.last_run_day i 0 == local_day_key local)) ≡ true))
  unfolding first
  first-cases s c local now i p h = elim (Bool-cases (is_due local p)) [
    | inr no' ↦ inl (if_false _ _ no', ground (arith, no'), (λ d. absurd (ground (arith, d, no'))))
    | inl yes' ↦ elim (Bool-cases (get_or s.last_run_day i 0 == local_day_key local)) [
      | inl e ↦ inl (
        if_true _ _ yes' ∙ ran_before s c i (local_day_key local) now e,
        ground (arith, e),
        (λ d. (==_iff (get_or s.last_run_day i 0) (local_day_key local)).0 e),
      )
      | inr e ↦
          inr (
            if_true _ _ yes' ∙ runs_now s c i (local_day_key local) now h e,
            ground (arith, yes', e),
          )
    ]
  ]

  idle_first :
      (s : Schedule) (c : ScheduleConfig) (local : Tm) (now i : ℕ) (p : Point)
      → (is_due local p ≡ true → get_or s.last_run_day i 0 ≡ local_day_key local)
      → first s c local now i p ≡ (s, [])
  unfolding first
  idle_first s c local now i p h = elim (Bool-cases (is_due local p)) [
    | inr no' ↦ if_false _ _ no'
    | inl yes' ↦
        if_true _ _ yes'
        ∙ ran_before s c i (local_day_key local) now
            ((==_iff (get_or s.last_run_day i 0) (local_day_key local)).1 (h yes'))
  ]

  run_points_from-Runs :
      (s : Schedule) (c : ScheduleConfig) (local : Tm) (now i : ℕ) (points : List Point)
      → Settled s c
      → i + length points ≤ 8
      → Runs c local s.last_run_day i points (run_points_from apply s c local now i points)
  unfolding run_points_from first
  run_points_from-Runs s c local now i [] h le = (refl, h, (λ k lt. refl), tt)
  run_points_from-Runs s c local now i (p ∷ points) h le =
      let key = local_day_key local in
      let step : Schedule × List Applied → Schedule × List Applied = λ f.
        let rest = run_points_from apply f.0 c local now (i + 1) points in
        (rest.0, f.1 ++ rest.1) in
      let P = Runs c local s.last_run_day i (p ∷ points) in
      elim (first-cases s c local now i p h) [
        | inl (e, skip, ran) ↦
            subst (λ f. P (step f)) (sym e)
              (Runs-cons c local s.last_run_day s.last_run_day i p points []
                (run_points_from apply s c local now (i + 1) points) (sym (if_false _ _ skip))
                (λ k lt. refl) ran
                (run_points_from-Runs s c local now (i + 1) points h (omega arith)))
        | inr (e, due) ↦
            let s' = record_success s i false key now in
            let days = set s.last_run_day i key in
            let settled : Settled s' c =
              (h.0, refl, omega (arith, h.2, length-set s.last_run_day i key)) in
            subst (λ f. P (step f)) (sym e)
              (Runs-cons c local s.last_run_day days i p points (scheduled c i ∷ [])
                (run_points_from apply s' c local now (i + 1) points)
                (ap (◌∷◌ (scheduled c i))
                    (due_from-set c local s.last_run_day i key (i + 1) points (omega arith))
                  ∙ sym (if_true _ _ due))
                (λ k lt. get_or-set_ne s.last_run_day key 0 (λ (e : i ≡ k). omega (arith, e)))
                (λ d. get_or-set_self s.last_run_day i key 0 (omega (arith, h.2)))
                (run_points_from-Runs s' c local now (i + 1) points settled (omega arith)))
      ]

  idle_run :
      (s : Schedule) (c : ScheduleConfig) (local : Tm) (now i : ℕ) (points : List Point)
      → AllRun local s.last_run_day i points
      → run_points_from apply s c local now i points ≡ (s, [])
  unfolding run_points_from first
  idle_run s c local now i [] a = refl
  idle_run s c local now i (p ∷ points) a =
      let step : Schedule × List Applied → Schedule × List Applied = λ f.
        let rest = run_points_from apply f.0 c local now (i + 1) points in
        (rest.0, f.1 ++ rest.1) in
      let skipped : first s c local now i p ≡ (s, []) = idle_first s c local now i p a.0 in
      ap step skipped ∙ idle_run s c local now (i + 1) points a.1

  -- If the schedule still has the configuration, no retry waits, and `apply` succeeds for every
  -- point: a run for a minute calls `apply` for the points that are due in it and have not run on
  -- this day, each once and in their order, and a second run for the same minute, at any time and
  -- with nothing in between, calls it for none.
  pub run_points_for_minute_once :
      (s : Schedule) (c : ScheduleConfig) (local : Tm) (now later : ℕ)
      → Settled s c
      → length (points_of c) ≤ 8
      → let r = run_points_for_minute apply s c local now in
        (r.1 ≡ due_from c local s.last_run_day 0 (points_of c))
        × (run_points_for_minute apply r.0 c local later ≡ (r.0, []))
  unfolding run_points_for_minute
  run_points_for_minute_once s c local now later h le =
      let runs = run_points_from-Runs s c local now 0 (points_of c) h (omega arith) in
      let r = run_points_from apply s c local now 0 (points_of c) in
      (runs.0, idle_run r.0 c local later 0 (points_of c) runs.3)
