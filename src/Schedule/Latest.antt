-- ===== src/Schedule/Latest.antt =====
-- Which point of keemash_weekly_schedule.c is in force: the one that was due last.
use keemash_core.Base.{
  ℕ, ◌+◌, ◌-◌, ◌*◌, ◌/◌, ◌%◌, ◌≤◌, ◌<◌, ◌≡◌, ap, sym, subst, ◌∙◌, ◌⊎◌, inl, inr, true, some, List,
  [], ◌∷◌, arith, get_elem?, All, All-get,
}
use keemash_core.Schedule.{
  Point, ScheduleConfig, points_of, config_valid, point_applies_on, latest_age, scan_days, no_best,
  no_index, latest_point_index,
}
use keemash_core.Schedule.Scan.{AtMost, FoundAt, scan_days-FoundOn, scan_days-AtMost}
use keemash_core.Schedule.Week.{Fires, now, InDay, config_valid-InDay, found_day}

-- How far `latest_point_index` looks back: to the start of the day six days ago.
abbrev pub look_back : ℕ → ℕ
look_back minute = 6 * 1440 + minute

latest_age-cases :
    (weekday minute d a : ℕ) (p : Point)
    → minute < 1440
    → d < 7
    → InDay p
    → latest_age weekday minute d p ≡ some a
    → (point_applies_on p ((weekday + 7 - d) % 7) ≡ true)
      × (a + p.minute_of_day ≡ d * 1440 + minute)
latest_age-cases weekday minute d a p s u t e = ground arith

day_before :
    (weekday minute d m a : ℕ)
    → minute < 1440
    → m < 1440
    → d < 7
    → a + m ≡ d * 1440 + minute
    → (((weekday * 1440 + minute + 10080 - a) / 1440) % 7 ≡ (weekday + 7 - d) % 7)
      × ((weekday * 1440 + minute + 10080 - a) % 1440 ≡ m)
      × (a ≤ 6 * 1440 + minute)
day_before weekday minute d m a s t u e = omega arith

latest_age-Fires :
    (weekday minute d a : ℕ) (p : Point)
    → minute < 1440
    → d < 7
    → InDay p
    → latest_age weekday minute d p ≡ some a
    → (a ≤ look_back minute) × Fires p (now weekday minute + 10080 - a)
latest_age-Fires weekday minute d a p s u t e =
    let (applies, sum) = latest_age-cases weekday minute d a p s u t e in
    let (day, rest, back) = day_before weekday minute d p.minute_of_day a s t u sum in
    (back, (ap (point_applies_on p) day ∙ applies, rest))

latest_found :
    (weekday minute d a : ℕ) (p : Point)
    → minute < 1440
    → d < 7
    → point_applies_on p ((weekday + 7 - d) % 7) ≡ true
    → a + p.minute_of_day ≡ d * 1440 + minute
    → latest_age weekday minute d p ≡ some a
latest_found weekday minute d a p s u e h = ground arith

-- An earlier minute, as a day back and the minute of that day.
split_latest :
    (weekday minute a m : ℕ)
    → minute < 1440
    → a ≤ 6 * 1440 + minute
    → (weekday * 1440 + minute + 10080 - a) % 1440 ≡ m
    → (d : ℕ) × (d < 7)
      × (((weekday * 1440 + minute + 10080 - a) / 1440) % 7 ≡ (weekday + 7 - d) % 7)
      × (a + m ≡ d * 1440 + minute)
split_latest weekday minute a m s le e =
    (7 - (minute + 10080 - a) / 1440, omega arith, omega arith, omega arith)

Fires-latest_age :
    (weekday minute a : ℕ) (p : Point)
    → minute < 1440
    → a ≤ look_back minute
    → Fires p (now weekday minute + 10080 - a)
    → (d : ℕ) × (d < 7) × (latest_age weekday minute d p ≡ some a)
Fires-latest_age weekday minute a p s le (applies, m) =
    let (d, u, day, sum) = split_latest weekday minute a p.minute_of_day s le m in
    (d, u, latest_found weekday minute d a p s u (ap (point_applies_on p) (sym day) ∙ applies) sum)

-- No point was due fewer than so many minutes before, one week after `start` being now.
abbrev pub NoneSince : List Point → ℕ → ℕ → Type 0
NoneSince points start stop = All (λ p. (a : ℕ) → a < stop → ¬ Fires p (start + 10080 - a)) points

-- The answer of `latest_point_index`.
abbrev pub IsLatest : List Point → ℕ → ℕ → ℕ → Type 0
IsLatest points start minute i =
    ((i ≡ no_index) × NoneSince points start (look_back minute + 1))
    ⊎ ((p : Point) × (a : ℕ) × (get_elem? points i ≡ some p)
        × (a ≤ look_back minute)
        × Fires p (start + 10080 - a)
        × NoneSince points start a)

none_younger :
    (weekday minute : ℕ) (points : List Point) (r : ℕ × ℕ) (stop : ℕ)
    → minute < 1440
    → stop ≤ r.0
    → stop ≤ look_back minute + 1
    → ((e : ℕ) → e < 7 → All (λ p. AtMost r (latest_age weekday minute e p)) points)
    → NoneSince points (now weekday minute) stop
none_younger weekday minute [] r stop s le few h = tt
none_younger weekday minute (p ∷ points) r stop s le few h = (
  (λ a hi fires.
      let (d, u, e) = Fires-latest_age weekday minute a p s (omega arith) fires in
      let most : r.0 ≤ a = subst (AtMost r) e (h d u).0 in omega arith),
  none_younger weekday minute points r stop s le few (λ e u. (h e u).1),
)

chosen-IsLatest :
    (weekday minute : ℕ) (points : List Point) (r : ℕ × ℕ)
    → minute < 1440
    → All InDay points
    → (r ≡ no_best) ⊎ ((e : ℕ) × (e < 7) × FoundAt (latest_age weekday minute) points e r)
    → ((e : ℕ) → e < 7 → All (λ p. AtMost r (latest_age weekday minute e p)) points)
    → IsLatest points (now weekday minute) minute r.1
chosen-IsLatest weekday minute points r s days (inl e) h = inl (
  ap (λ (x : ℕ × ℕ). x.1) e,
  none_younger weekday minute points r (look_back minute + 1) s
      (omega (arith, ap (λ (x : ℕ × ℕ). x.0) e)) (omega arith) h,
)
chosen-IsLatest weekday minute points r s days (inr (d, u, (p, g, e))) h =
    let (back, fires) =
      latest_age-Fires weekday minute d r.0 p s u (All-get InDay points r.1 days g) e in
    inr (
      p,
      r.0,
      g,
      back,
      fires,
      none_younger weekday minute points r r.0 s (omega arith) (omega arith) h,
    )

-- For a valid configuration and a minute of the day, `latest_point_index` answers the index of a
-- point that was due so many minutes ago, and since then none was. It looks back to the start of the
-- day six days ago, not a whole week: if no point was due since then, it answers NO_INDEX.
pub latest_point_index-IsLatest :
    (max_action : ℕ) (c : ScheduleConfig) (weekday minute : ℕ)
    → config_valid max_action c ≡ true
    → minute < 1440
    → IsLatest (points_of c) (now weekday minute) minute (latest_point_index c weekday minute)
unfolding latest_point_index
latest_point_index-IsLatest max_action c weekday minute v s =
    let cost = latest_age weekday minute in
    let most = scan_days-AtMost cost (points_of c) 7 0 no_best in
    chosen-IsLatest weekday minute (points_of c) (scan_days cost (points_of c) 7 0 no_best) s
      (config_valid-InDay max_action c v)
      (found_day cost (points_of c) _ (scan_days-FoundOn cost (points_of c) 7 0 no_best))
      (λ e u. most.1 e (omega arith) (omega arith))
