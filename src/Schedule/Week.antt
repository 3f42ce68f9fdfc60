-- ===== src/Schedule/Week.antt =====
-- Which point of keemash_weekly_schedule.c is in force and which comes next, against the minutes of
-- the week: a minute is a number, minute 0 is the start of a first day, and the weeks repeat.
use keemash_core.Base.{
  ℕ, ◌+◌, ◌*◌, ◌/◌, ◌%◌, ◌≤◌, ◌<◌, ◌≡◌, ap, sym, subst, ◌∙◌, ◌⊎◌, inl, inr, true, Option, some,
  List, [], ◌∷◌, arith, leb, if◌then◌else◌, get_elem?, All, All-get, sub32, min,
}
use keemash_core.Schedule.{
  Point, ScheduleConfig, points_of, point_valid, points_valid, config_valid, point_applies_on,
  next_distance, scan_days, no_best, no_index, next_point_index,
}
use keemash_core.Schedule.Scan.{AtMost, FoundAt, FoundOn, scan_days-FoundOn, scan_days-AtMost}

-- The point is due in minute `t`.
abbrev pub Fires : Point → ℕ → Type 0
Fires p t = (point_applies_on p ((t / 1440) % 7) ≡ true) × (t % 1440 ≡ p.minute_of_day)

-- The minute of a weekday and a minute of the day.
abbrev pub now : ℕ → ℕ → ℕ
now weekday minute = weekday * 1440 + minute

abbrev pub InDay : Point → Type 0
InDay p = p.minute_of_day < 1440

next_distance-cases :
    (weekday minute d c : ℕ) (p : Point)
    → next_distance weekday minute d p ≡ some c
    → (point_applies_on p ((weekday + d) % 7) ≡ true)
      × (c
          ≡ sub32
              (if leb (d * 1440 + p.minute_of_day) minute
                then d * 1440 + p.minute_of_day + 7 * 1440
                else d * 1440 + p.minute_of_day)
              minute)
next_distance-cases weekday minute d c p e = ground arith

next_value :
    (minute d m c : ℕ)
    → minute < 1440
    → m < 1440
    → d < 7
    → c ≡ sub32 (if leb (d * 1440 + m) minute then d * 1440 + m + 7 * 1440 else d * 1440 + m) minute
    → (1 ≤ c) × (c ≤ 10080) × ((minute + c ≡ d * 1440 + m) ⊎ (minute + c ≡ (d + 7) * 1440 + m))
next_value minute d m c s t u e = ground arith

same_day :
    (weekday minute d m c : ℕ)
    → m < 1440
    → (minute + c ≡ d * 1440 + m) ⊎ (minute + c ≡ (d + 7) * 1440 + m)
    → (((weekday * 1440 + minute + c) / 1440) % 7 ≡ (weekday + d) % 7)
      × ((weekday * 1440 + minute + c) % 1440 ≡ m)
same_day weekday minute d m c t (inl e) = omega arith
same_day weekday minute d m c t (inr e) = omega arith

next_distance-Fires :
    (weekday minute d c : ℕ) (p : Point)
    → minute < 1440
    → d < 7
    → InDay p
    → next_distance weekday minute d p ≡ some c
    → (1 ≤ c) × (c ≤ 10080) × Fires p (now weekday minute + c)
next_distance-Fires weekday minute d c p s u t e =
    let (applies, value) = next_distance-cases weekday minute d c p e in
    let (lo, hi, sum) = next_value minute d p.minute_of_day c s t u value in
    let (day, rest) = same_day weekday minute d p.minute_of_day c t sum in
    (lo, hi, (ap (point_applies_on p) day ∙ applies, rest))

next_found :
    (weekday minute d c : ℕ) (p : Point)
    → point_applies_on p ((weekday + d) % 7) ≡ true
    → c
      ≡ sub32
          (if leb (d * 1440 + p.minute_of_day) minute
            then d * 1440 + p.minute_of_day + 7 * 1440
            else d * 1440 + p.minute_of_day)
          minute
    → next_distance weekday minute d p ≡ some c
next_found weekday minute d c p a e = ground arith

-- A later minute, as a day ahead and the minute of that day.
split_next :
    (weekday minute c m : ℕ)
    → minute < 1440
    → 1 ≤ c
    → c ≤ 10080
    → (weekday * 1440 + minute + c) % 1440 ≡ m
    → (d : ℕ) × (d < 7)
      × (((weekday * 1440 + minute + c) / 1440) % 7 ≡ (weekday + d) % 7)
      × (c
          ≡ sub32
              (if leb (d * 1440 + m) minute then d * 1440 + m + 7 * 1440 else d * 1440 + m)
              minute)
split_next weekday minute c m s lo hi e =
    (((minute + c) / 1440) % 7, omega arith, omega arith, ground arith)

Fires-next_distance :
    (weekday minute c : ℕ) (p : Point)
    → minute < 1440
    → 1 ≤ c
    → c ≤ 10080
    → Fires p (now weekday minute + c)
    → (d : ℕ) × (d < 7) × (next_distance weekday minute d p ≡ some c)
Fires-next_distance weekday minute c p s lo hi (a, m) =
    let (d, u, day, value) = split_next weekday minute c p.minute_of_day s lo hi m in
    (d, u, next_found weekday minute d c p (ap (point_applies_on p) (sym day) ∙ a) value)

pub points_valid-InDay :
    (max_action : ℕ) (earlier points : List Point)
    → points_valid max_action earlier points ≡ true
    → All InDay points
unfolding points_valid point_valid
points_valid-InDay max_action earlier [] h = tt
points_valid-InDay max_action earlier (p ∷ points) h =
    (ground (arith, h), points_valid-InDay max_action (p ∷ earlier) points (ground (arith, h)))

pub config_valid-InDay :
    (max_action : ℕ) (c : ScheduleConfig)
    → config_valid max_action c ≡ true
    → All InDay (points_of c)
unfolding config_valid
config_valid-InDay max_action c h =
    points_valid-InDay max_action [] (points_of c) (ground (arith, h))

-- No point is due so many minutes after `start`, from 1 on and before `stop`.
abbrev pub NoneWithin : List Point → ℕ → ℕ → Type 0
NoneWithin points start stop = All (λ p. (t : ℕ) → 1 ≤ t → t < stop → ¬ Fires p (start + t)) points

-- The answer of `next_point_index`.
abbrev pub IsNext : List Point → ℕ → ℕ × ℕ → Type 0
IsNext points start r =
    ((r ≡ (no_index, 0xffff)) × NoneWithin points start 10081)
    ⊎ ((p : Point) × (get_elem? points r.0 ≡ some p)
        × (1 ≤ r.1)
        × (r.1 ≤ 10080)
        × Fires p (start + r.1)
        × NoneWithin points start r.1)

none_cheaper :
    (weekday minute : ℕ) (points : List Point) (r : ℕ × ℕ) (stop : ℕ)
    → minute < 1440
    → stop ≤ r.0
    → stop ≤ 10081
    → ((e : ℕ) → e < 7 → All (λ p. AtMost r (next_distance weekday minute e p)) points)
    → NoneWithin points (now weekday minute) stop
none_cheaper weekday minute [] r stop s le few h = tt
none_cheaper weekday minute (p ∷ points) r stop s le few h = (
  (λ t lo hi fires.
      let (d, u, e) = Fires-next_distance weekday minute t p s lo (omega arith) fires in
      let most : r.0 ≤ t = subst (AtMost r) e (h d u).0 in omega arith),
  none_cheaper weekday minute points r stop s le few (λ e u. (h e u).1),
)

chosen-IsNext :
    (weekday minute : ℕ) (points : List Point) (r : ℕ × ℕ)
    → minute < 1440
    → All InDay points
    → (r ≡ no_best) ⊎ ((e : ℕ) × (e < 7) × FoundAt (next_distance weekday minute) points e r)
    → ((e : ℕ) → e < 7 → All (λ p. AtMost r (next_distance weekday minute e p)) points)
    → IsNext points (now weekday minute) (r.1, min r.0 0xffff)
chosen-IsNext weekday minute points r s days (inl e) h = inl (
  ap (λ (x : ℕ × ℕ). (x.1, min x.0 0xffff)) e,
  none_cheaper weekday minute points r 10081 s (omega (arith, ap (λ (x : ℕ × ℕ). x.0) e))
      (omega arith) h,
)
chosen-IsNext weekday minute points r s days (inr (d, u, (p, g, e))) h =
    let (lo, hi, fires) =
      next_distance-Fires weekday minute d r.0 p s u (All-get InDay points r.1 days g) e in
    let same : r.0 ≡ min r.0 0xffff = omega arith in
    inr (
      p,
      g,
      omega arith,
      omega arith,
      subst (λ (t : ℕ). Fires p (now weekday minute + t)) same fires,
      none_cheaper weekday minute points r (min r.0 0xffff) s (omega arith) (omega arith) h,
    )

pub found_day :
    (cost : ℕ → Point → Option ℕ) (points : List Point) (r : ℕ × ℕ)
    → FoundOn cost points 7 0 no_best r
    → (r ≡ no_best) ⊎ ((e : ℕ) × (e < 7) × FoundAt cost points e r)
found_day cost points r (inl e) = inl e
found_day cost points r (inr (e, lo, hi, at)) = inr (e, omega arith, at)

-- For a valid configuration and a minute of the day, `next_point_index` answers the index of a point
-- and the distance to the next minute in which any point is due, 1 to 10080 minutes ahead: the
-- point is due then, and none is due before. It answers NO_INDEX and 0xffff if no point is due in
-- the whole week ahead.
pub next_point_index-IsNext :
    (max_action : ℕ) (c : ScheduleConfig) (weekday minute : ℕ)
    → config_valid max_action c ≡ true
    → minute < 1440
    → IsNext (points_of c) (now weekday minute) (next_point_index c weekday minute)
unfolding next_point_index
next_point_index-IsNext max_action c weekday minute v s =
    let cost = next_distance weekday minute in
    let most = scan_days-AtMost cost (points_of c) 7 0 no_best in
    chosen-IsNext weekday minute (points_of c) (scan_days cost (points_of c) 7 0 no_best) s
      (config_valid-InDay max_action c v)
      (found_day cost (points_of c) _ (scan_days-FoundOn cost (points_of c) 7 0 no_best))
      (λ e u. most.1 e (omega arith) (omega arith))
