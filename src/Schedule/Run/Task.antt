-- ===== src/Schedule/Run/Task.antt =====
-- keemash_weekly_schedule.c: one round of `schedule_task`, and `get_status`.
use keemash_core.Base.{
  ℕ, zero, suc, ◌+◌, ◌-◌, ◌*◌, ◌/◌, ◌^◌, Bool, true, false, not, ◌&&◌, ◌||◌, Option, none, some,
  List, [], ◌++◌, ltb, leb, ◌==◌, if◌then◌else◌, sub32, set, get_or,
}
use keemash_core.Proto.{Esp, ok, is_ok, timeout, invalid_state}
use keemash_core.Schedule.{
  Point, ScheduleConfig, Tm, weekday_index, minute_index, local_day_key, latest_point_index,
  next_point_index, no_index,
}
use keemash_core.Schedule.Blob.{zero_point}
use keemash_core.Schedule.Stage.{Schedule, expire_stage, zero_config}
use keemash_core.Schedule.Run.{
  Applied, deadline_reached, clock_is_continuous, apply_point, run_points_for_minute,
  run_pending_retry,
}

-- `clock_snapshot`: `localtime_r` is a parameter, which may fail.
abbrev pub clock_snapshot : (ℕ → Option Tm) → ℕ → Option Tm
clock_snapshot localtime epoch = if leb epoch 1577836800 then none else localtime epoch

-- What the first critical section leaves, and the local variables that it sets.
pub record Sample : Type 0 where
  pub schedule : Schedule
  pub continuous : Bool
  pub previous_epoch : ℕ
  pub catch_up : Bool

abbrev pub without_clock : Schedule → Sample
without_clock s = record {
  schedule = record s { last_clock_valid = false };
  continuous = false;
  previous_epoch = 0;
  catch_up = false;
}

abbrev pub catch_up_due : Schedule → ℕ → Bool
catch_up_due s now =
    s.catch_up_pending
    && s.config.enabled
    && ((s.next_retry_ms == 0) || deadline_reached now s.next_retry_ms)

abbrev pub restarted_clock : Schedule → Schedule
restarted_clock s = record s {
  catch_up_pending = s.config.enabled;
  retry_pending = false;
  next_retry_ms = 0;
}

abbrev pub sampled : Schedule → ℕ → ℕ → Bool → Sample
sampled s now epoch continuous =
    let t = record (if not s.last_clock_valid || not continuous then restarted_clock s else s) {
      last_clock_valid = true;
      last_wall_epoch = epoch;
      last_sample_ms = now;
    } in
    let due = catch_up_due t now in
    record {
      schedule =
          if due && not t.catch_up_on_clock_ready then record t { catch_up_pending = false } else t;
      continuous = continuous;
      previous_epoch = s.last_wall_epoch;
      catch_up = due;
    }

-- The first critical section of `schedule_task`, for what `clock_snapshot` answered.
unfoldable pub sample : Schedule → ℕ → ℕ → Option Tm → Sample
unfolding expire_stage clock_is_continuous
sample s now epoch none = without_clock (expire_stage s now)
sample s now epoch (some local) =
    let e = expire_stage s now in
    sampled e now epoch
      (e.last_clock_valid && clock_is_continuous e.last_wall_epoch epoch e.last_sample_ms now)

-- What follows a run, with the calls of both.
abbrev pub and_then :
    Schedule × List Applied → (Schedule → Schedule × List Applied) → Schedule × List Applied
and_then r f = let rest = f r.0 in (rest.0, r.1 ++ rest.1)

abbrev pub same_generation : Schedule → ScheduleConfig → Bool
same_generation s c = s.config.generation == c.generation

abbrev pub mark_run : Schedule → ScheduleConfig → ℕ → ℕ → Schedule
mark_run s c index day_key =
    if same_generation s c then record s { last_run_day = set s.last_run_day index day_key } else s

abbrev pub nothing_to_catch_up : Schedule → ScheduleConfig → Schedule
nothing_to_catch_up s c =
    if same_generation s c then record s { catch_up_pending = false; next_retry_ms = 0 } else s

module _ (apply : Point → ℕ → Bool → Esp) (localtime : ℕ → Option Tm) where
  -- The catch-up of `schedule_task` for the latest point.
  abbrev pub catch_up_point : Schedule → ScheduleConfig → Tm → ℕ → ℕ → Schedule × List Applied
  catch_up_point s c local now latest =
      let p = get_or c.points latest zero_point in
      let r = apply_point apply s c latest true (local_day_key local) now in
      if is_ok (apply p latest true) && (p.minute_of_day == minute_index local)
      then (mark_run r.0 c latest (local_day_key local), r.1)
      else r

  unfoldable pub run_catch_up : Schedule → ScheduleConfig → Tm → ℕ → Bool → Schedule × List Applied
  unfolding apply_point latest_point_index local_day_key
  run_catch_up s c local now catch_up =
      let latest = latest_point_index c (weekday_index local) (minute_index local) in
      if not (catch_up && s.catch_up_on_clock_ready)
      then (s, [])
      else if latest == no_index
      then (nothing_to_catch_up s c, [])
      else catch_up_point s c local now latest

  abbrev pub run_at : Schedule → ScheduleConfig → ℕ → Option Tm → Schedule × List Applied
  run_at s c now none = (s, [])
  run_at s c now (some local) = run_points_for_minute apply s c local now

  -- The loop over the minutes that began since the last sample, from `boundary` on.
  unfoldable pub run_crossed : ScheduleConfig → ℕ → ℕ → ℕ → Schedule → Schedule × List Applied
  unfolding run_points_for_minute
  run_crossed c now zero boundary s = (s, [])
  run_crossed c now (suc rounds) boundary s =
      and_then (run_at s c now (localtime boundary)) (run_crossed c now rounds (boundary + 60))

  -- As many rounds as there are multiples of 60 after `previous` and up to `epoch`.
  abbrev pub crossed : ScheduleConfig → ℕ → Bool → ℕ → ℕ → Schedule → Schedule × List Applied
  crossed c now continuous previous epoch s =
      if continuous && ltb previous epoch
      then run_crossed c now (epoch / 60 - previous / 60) ((previous / 60 + 1) * 60) s
      else (s, [])

  -- `schedule_task` after the first critical section.
  unfoldable pub run_sample : Sample → ScheduleConfig → Tm → ℕ → ℕ → Schedule × List Applied
  unfolding run_catch_up run_crossed run_pending_retry run_points_for_minute
  run_sample m c local now epoch = and_then (run_catch_up m.schedule c local now m.catch_up) λ s.
      and_then (run_pending_retry apply s c now) λ s.
        and_then (crossed c now m.continuous m.previous_epoch epoch s)
          λ s. run_points_for_minute apply s c local now

  abbrev pub run_clock : Sample → ScheduleConfig → Option Tm → ℕ → ℕ → Schedule × List Applied
  run_clock m c none now epoch = (m.schedule, [])
  run_clock m c (some local) now epoch =
      if not c.enabled then (m.schedule, []) else run_sample m c local now epoch

  -- One round of `schedule_task`, with no caller in between: `now` is `monotonic_ms()` and `epoch`
  -- is `time(NULL)`.
  unfoldable pub task_round : Schedule → ℕ → ℕ → Schedule × List Applied
  unfolding sample run_sample
  task_round s now epoch =
      let clock = clock_snapshot localtime epoch in
      let m = sample s now epoch clock in run_clock m m.schedule.config clock now epoch

-- `keemash_weekly_schedule_status_t`
pub record Status : Type 0 where
  pub config : ScheduleConfig
  pub clock_valid : Bool
  pub catch_up_pending : Bool
  pub last_apply_valid : Bool
  pub local_weekday : ℕ
  pub local_minute : ℕ
  pub active_index : ℕ
  pub next_index : ℕ
  pub next_in_minutes : ℕ
  pub last_apply_index : ℕ
  pub last_apply_kind : ℕ
  pub last_apply_age_ms : ℕ
  pub time_sync_age_ms : ℕ
  pub last_error : Esp

abbrev pub no_status : Status
no_status = record {
  config = zero_config;
  clock_valid = false;
  catch_up_pending = false;
  last_apply_valid = false;
  local_weekday = no_index;
  local_minute = 0xffff;
  active_index = no_index;
  next_index = no_index;
  next_in_minutes = 0xffff;
  last_apply_index = no_index;
  last_apply_kind = 0;
  last_apply_age_ms = 2 ^ 32 - 1;
  time_sync_age_ms = 2 ^ 32 - 1;
  last_error = ok;
}

abbrev pub status_of : Schedule → ℕ → ℕ → Status
status_of s now sync_age = record no_status {
  config = s.config;
  catch_up_pending = s.catch_up_pending;
  last_apply_valid = s.last_apply_valid;
  last_apply_index = s.last_apply_index;
  last_apply_kind = s.last_apply_kind;
  last_apply_age_ms = if s.last_apply_valid then sub32 now s.last_apply_ms else 2 ^ 32 - 1;
  time_sync_age_ms = sync_age;
  last_error = s.last_error;
}

abbrev pub with_clock : Status → Option Tm → Status
with_clock status none = status
with_clock status (some local) =
    let weekday = weekday_index local in
    let minute = minute_index local in
    let t = record status { clock_valid = true; local_weekday = weekday; local_minute = minute } in
    if not status.config.enabled
    then t
    else let next = next_point_index status.config weekday minute in
      record t {
        active_index = latest_point_index status.config weekday minute;
        next_index = next.0;
        next_in_minutes = next.1;
      }

-- `keemash_weekly_schedule_get_status`: a NULL schedule is `none`; `sync_age` is what
-- `keemash_mesh_time_get_status` answered, `clock` what `clock_snapshot` did.
unfoldable pub get_status : Option Schedule → Bool → ℕ → ℕ → Option Tm → Status
unfolding latest_point_index next_point_index
get_status none locked now sync_age clock = record no_status { last_error = invalid_state }
get_status (some s) locked now sync_age clock =
    if not locked
    then record no_status { last_error = timeout }
    else with_clock (status_of s now sync_age) clock
