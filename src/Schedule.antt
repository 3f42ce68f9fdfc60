-- ===== src/Schedule.antt =====
-- keemash_weekly_schedule.c: the points of a week, and which of them is in force and comes next.
-- The C array of 8 points is a list; `tm` fields are natural numbers.
pub mod Scan
pub mod Week
pub mod Latest
pub mod Blob
pub mod Stored
pub mod Stage
pub mod Run
mod Tests
use Prim.Native.Nat.{bit_and, bit_or}
use keemash_core.Base.{
  ℕ, zero, suc, ◌+◌, ◌-◌, ◌*◌, ◌%◌, ◌^◌, Bool, true, false, not, ◌&&◌, ◌||◌, Option, none, some,
  List, [], ◌∷◌, ltb, leb, ◌==◌, if◌then◌else◌, u8, u16, u32, sub32, take, min,
}

-- `KEEMASH_WEEKLY_SCHEDULE_MAX_POINTS`
abbrev pub max_points : ℕ
max_points = 8

-- `KEEMASH_WEEKLY_SCHEDULE_NO_INDEX`
abbrev pub no_index : ℕ
no_index = 0xff

-- `keemash_weekly_schedule_point_t`
pub record Point : Type 0 where
  pub enabled : Bool
  pub minute_of_day : ℕ
  pub action : ℕ
  pub days_mask : ℕ

-- `keemash_weekly_schedule_config_t`
pub record ScheduleConfig : Type 0 where
  pub generation : ℕ
  pub enabled : Bool
  pub persistence_enabled : Bool
  pub count : ℕ
  pub points : List Point

-- The fields of `struct tm` that are read.
pub record Tm : Type 0 where
  pub tm_year : ℕ
  pub tm_yday : ℕ
  pub tm_wday : ℕ
  pub tm_hour : ℕ
  pub tm_min : ℕ

-- The points that the loops over `config->count` visit.
abbrev pub points_of : ScheduleConfig → List Point
points_of c = take c.count c.points

-- `point_valid`: `~KEEMASH_WEEKLY_SCHEDULE_ALL_DAYS` is 0xffffff80.
unfoldable pub point_valid : ℕ → Point → Bool
point_valid max_action p =
    ltb p.minute_of_day (24 * 60)
    && not (p.days_mask == 0)
    && (bit_and p.days_mask 0xffffff80 == 0)
    && leb p.action max_action

-- The test of the inner loop of `config_valid` for the earlier point `p`.
abbrev pub clashes : Point → Point → Bool
clashes q p =
    p.enabled && (p.minute_of_day == q.minute_of_day) && not (bit_and p.days_mask q.days_mask == 0)

abbrev pub clashes_any : Point → List Point → Bool
clashes_any q [] = false
clashes_any q (p ∷ earlier) = clashes q p || clashes_any q earlier

-- The outer loop of `config_valid`: `earlier` are the points before, the last first.
unfoldable pub points_valid : ℕ → List Point → List Point → Bool
points_valid max_action earlier [] = true
points_valid max_action earlier (q ∷ rest) =
    point_valid max_action q
    && not (q.enabled && clashes_any q earlier)
    && points_valid max_action (q ∷ earlier) rest

-- `config_valid`
unfoldable pub config_valid : ℕ → ScheduleConfig → Bool
unfolding points_valid
config_valid max_action c =
    not (c.generation == 0) && leb c.count max_points && points_valid max_action [] (points_of c)

abbrev pub weekday_index : Tm → ℕ
weekday_index local = u8 ((local.tm_wday + 6) % 7)

-- `local->tm_hour * 60 + local->tm_min` as `uint16_t`.
abbrev pub minute_index : Tm → ℕ
minute_index local = u16 (local.tm_hour * 60 + local.tm_min)

-- `local_day_key`: the year is shifted left by 9 bits.
unfoldable pub local_day_key : Tm → ℕ
local_day_key local = bit_or (u32 (u32 (local.tm_year + 1900) * 2 ^ 9)) (u32 local.tm_yday)

-- `point_applies_on`; the weekday is never negative.
abbrev pub point_applies_on : Point → ℕ → Bool
point_applies_on p weekday =
    p.enabled && ltb weekday 7 && not (bit_and p.days_mask (2 ^ weekday) == 0)

-- The age that `latest_point_index` computes for a point on the day so many days back, or none where
-- the loop skips it.
abbrev pub latest_age : ℕ → ℕ → ℕ → Point → Option ℕ
latest_age weekday minute day_back p =
    if not (point_applies_on p ((weekday + 7 - day_back) % 7))
    then none
    else if (day_back == 0) && ltb minute p.minute_of_day
    then none
    else some (sub32 (day_back * 1440 + minute) p.minute_of_day)

-- The distance that `next_point_index` computes for a point on the day so many days ahead.
abbrev pub next_distance : ℕ → ℕ → ℕ → Point → Option ℕ
next_distance weekday minute day_forward p =
    let ahead = day_forward * 1440 + p.minute_of_day in
    if not (point_applies_on p ((weekday + day_forward) % 7))
    then none
    else some (sub32 (if leb ahead minute then ahead + 7 * 1440 else ahead) minute)

-- The best value so far, and the index of its point: `best_age` or `best_distance`, and `best`.
abbrev pub consider : Option ℕ → ℕ → ℕ × ℕ → ℕ × ℕ
consider none i st = st
consider (some cost) i st = if ltb cost st.0 then (cost, i) else st

-- The inner loop over the points, which both functions share, from index `i` on.
unfoldable pub scan_points : (Point → Option ℕ) → ℕ → List Point → ℕ × ℕ → ℕ × ℕ
scan_points cost i [] st = st
scan_points cost i (p ∷ points) st = scan_points cost (i + 1) points (consider (cost p) i st)

-- The outer loop, from day `d` on for so many rounds.
unfoldable pub scan_days : (ℕ → Point → Option ℕ) → List Point → ℕ → ℕ → ℕ × ℕ → ℕ × ℕ
unfolding scan_points
scan_days cost points zero d st = st
scan_days cost points (suc rounds) d st =
    scan_days cost points rounds (d + 1) (scan_points (cost d) 0 points st)

-- `UINT_MAX` and `KEEMASH_WEEKLY_SCHEDULE_NO_INDEX`
abbrev pub no_best : ℕ × ℕ
no_best = (2 ^ 32 - 1, no_index)

-- `latest_point_index`
unfoldable pub latest_point_index : ScheduleConfig → ℕ → ℕ → ℕ
unfolding scan_days
latest_point_index c weekday minute =
    (scan_days (latest_age weekday minute) (points_of c) 7 0 no_best).1

-- `next_point_index`: the index and `*distance`.
unfoldable pub next_point_index : ScheduleConfig → ℕ → ℕ → ℕ × ℕ
unfolding scan_days
next_point_index c weekday minute =
    let st = scan_days (next_distance weekday minute) (points_of c) 7 0 no_best in
    (st.1, min st.0 0xffff)
