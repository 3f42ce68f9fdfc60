-- ===== src/Schedule/Run.antt =====
-- keemash_weekly_schedule.c: applying points, `schedule_task` and its helpers.
pub mod Once
pub mod Task
use keemash_core.Base.{
  ℕ, zero, suc, ◌+◌, ◌-◌, ◌*◌, ◌/◌, ◌%◌, ◌^◌, Bool, true, false, not, ◌&&◌, ◌||◌, Option, none,
  some, List, [], ◌∷◌, ◌++◌, ltb, leb, ◌==◌, if◌then◌else◌, u32, sub32, before32, set, get_or,
}
use keemash_core.Proto.{Esp, ok, is_ok}
use keemash_core.Schedule.{
  Point, ScheduleConfig, Tm, points_of, point_applies_on, weekday_index, minute_index,
  local_day_key, latest_point_index, no_index,
}
use keemash_core.Schedule.Blob.{zero_point}
use keemash_core.Schedule.Stage.{Schedule, expire_stage}

-- `deadline_reached`
abbrev pub deadline_reached : ℕ → ℕ → Bool
deadline_reached now deadline = not (before32 now deadline)

-- `clock_is_continuous`; wall times are not negative, and a clock that went back is not continuous.
unfoldable pub clock_is_continuous : ℕ → ℕ → ℕ → ℕ → Bool
clock_is_continuous previous_epoch current_epoch previous_ms current_ms =
    let wall_delta = current_epoch - previous_epoch in
    let monotonic_delta = u32 (sub32 current_ms previous_ms + 500) / 1000 in
    let drift =
      if ltb wall_delta monotonic_delta
      then monotonic_delta - wall_delta
      else wall_delta - monotonic_delta in
    leb previous_epoch current_epoch && leb wall_delta 120 && leb drift 5

-- A call of `schedule->apply`.
pub record Applied : Type 0 where
  pub point : Point
  pub index : ℕ
  pub catch_up : Bool

-- The part of `record_apply_result` for ESP_OK.
abbrev pub record_success : Schedule → ℕ → Bool → ℕ → ℕ → Schedule
record_success s index catch_up day_key now = record s {
  last_error = ok;
  last_apply_valid = true;
  last_apply_index = index;
  last_apply_kind = if catch_up then 1 else 2;
  last_apply_ms = now;
  next_retry_ms = 0;
  catch_up_pending = if catch_up then false else s.catch_up_pending;
  last_run_day = if catch_up then s.last_run_day else set s.last_run_day index day_key;
  retry_pending = if catch_up then s.retry_pending else false;
}

abbrev pub record_failure : Schedule → ScheduleConfig → ℕ → Bool → ℕ → Esp → ℕ → Schedule
record_failure s c index catch_up day_key err now = record s {
  last_error = err;
  next_retry_ms = u32 (now + 5000);
  retry_pending = if catch_up then s.retry_pending else true;
  retry_generation = if catch_up then s.retry_generation else c.generation;
  retry_index = if catch_up then s.retry_index else index;
  retry_day_key = if catch_up then s.retry_day_key else day_key;
}

-- `record_apply_result`
unfoldable pub record_apply_result : Schedule → ScheduleConfig → ℕ → Bool → ℕ → Esp → ℕ → Schedule
record_apply_result s c index catch_up day_key err now =
    if not (s.config.generation == c.generation)
    then s
    else if is_ok err
    then record_success s index catch_up day_key now
    else record_failure s c index catch_up day_key err now

-- `retry_wait` of `run_scheduled_point`
abbrev pub retry_wait : Schedule → ScheduleConfig → ℕ → ℕ → ℕ → Bool
retry_wait s c index day_key now =
    s.retry_pending
    && (s.retry_generation == c.generation)
    && (s.retry_index == index)
    && (s.retry_day_key == day_key)
    && not (deadline_reached now s.next_retry_ms)

-- `execute` of `run_scheduled_point`
abbrev pub executes : Schedule → ScheduleConfig → ℕ → ℕ → ℕ → Bool
executes s c index day_key now =
    (s.config.generation == c.generation)
    && not (get_or s.last_run_day index 0 == day_key)
    && not (retry_wait s c index day_key now)

-- `schedule->apply` answers by the point, its index and the kind. A run returns the schedule and the
-- calls of `apply`, in their order.
module _ (apply : Point → ℕ → Bool → Esp) where
  -- `apply_point`
  unfoldable pub apply_point :
      Schedule → ScheduleConfig → ℕ → Bool → ℕ → ℕ → Schedule × List Applied
  unfolding record_apply_result
  apply_point s c index catch_up day_key now =
      let p = get_or c.points index zero_point in
      (
        record_apply_result s c index catch_up day_key (apply p index catch_up) now,
        record { point = p; index = index; catch_up = catch_up } ∷ [],
      )

  -- `run_scheduled_point`
  unfoldable pub run_scheduled_point :
      Schedule → ScheduleConfig → ℕ → ℕ → ℕ → Schedule × List Applied
  unfolding apply_point
  run_scheduled_point s c index day_key now =
      if executes s c index day_key now then apply_point s c index false day_key now else (s, [])

  -- The loop of `run_points_for_minute`, from point `i` on.
  unfoldable pub run_points_from :
      Schedule → ScheduleConfig → Tm → ℕ → ℕ → List Point → Schedule × List Applied
  unfolding run_scheduled_point
  run_points_from s c local now i [] = (s, [])
  run_points_from s c local now i (p ∷ points) =
      let due =
        point_applies_on p (weekday_index local) && (p.minute_of_day == minute_index local) in
      let first = if due then run_scheduled_point s c i (local_day_key local) now else (s, []) in
      let rest = run_points_from first.0 c local now (i + 1) points in (rest.0, first.1 ++ rest.1)

  -- `run_points_for_minute`
  unfoldable pub run_points_for_minute :
      Schedule → ScheduleConfig → Tm → ℕ → Schedule × List Applied
  unfolding run_points_from
  run_points_for_minute s c local now = run_points_from s c local now 0 (points_of c)

  -- `run_pending_retry`
  unfoldable pub run_pending_retry : Schedule → ScheduleConfig → ℕ → Schedule × List Applied
  unfolding apply_point
  run_pending_retry s c now =
      if s.retry_pending
        && (s.retry_generation == c.generation)
        && ltb s.retry_index c.count
        && deadline_reached now s.next_retry_ms
      then apply_point s c s.retry_index false s.retry_day_key now
      else (s, [])
