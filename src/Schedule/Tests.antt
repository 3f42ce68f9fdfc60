-- ===== src/Schedule/Tests.antt =====
-- keemash_weekly_schedule.c on small inputs: the theorems at states that meet their hypotheses.
use keemash_core.Base.{ℕ, ◌≡◌, refl, Bool, true, false, Option, some, [], ◌∷◌, arith, replicate}
use keemash_core.Proto.{Esp, ok, timeout}
use keemash_core.Schedule.{
  Point, ScheduleConfig, Tm, points_of, point_valid, config_valid, scan_days, latest_point_index,
  next_point_index, no_index, local_day_key,
}
use keemash_core.Schedule.Week.{IsNext, now, next_point_index-IsNext}
use keemash_core.Schedule.Latest.{IsLatest, latest_point_index-IsLatest}
use keemash_core.Schedule.Blob.{
  zero_point, blob_bytes, config_to_blob, blob_to_config, load_config, NvsWrite, persist_config,
}
use keemash_core.Schedule.Stored.{IsStorable, load_config-config_to_blob}
use keemash_core.Schedule.Stage.{
  Options, Schedule, new_schedule, start, stage_begin, stage_point, stage_commit, expire_stage,
}
use keemash_core.Schedule.Stage.Complete.{InForce}
use keemash_core.Schedule.Stage.Complete.{with_received}
use keemash_core.Schedule.Stage.Steps.{
  Staging, announced, answered, here, next, begins, stages, Commits, stage_commit-Commits,
}
use keemash_core.Schedule.Run.{
  run_points_for_minute, apply_point, record_apply_result, run_scheduled_point, run_points_from,
  run_pending_retry, clock_is_continuous,
}
use keemash_core.Schedule.Run.Once.{due_from, scheduled, run_points_for_minute_once}
use keemash_core.Schedule.Run.Task.{task_round, sample, run_sample, run_catch_up, run_crossed}

-- The schedule of the source's self-test: 6:00 and 23:00 on every day.
abbrev morning : Point
morning = record { enabled = true; minute_of_day = 360; action = 1; days_mask = 0x7f }

abbrev evening : Point
evening = record { enabled = true; minute_of_day = 1380; action = 0; days_mask = 0x7f }

abbrev daily : ScheduleConfig
daily = record {
  generation = 7;
  enabled = true;
  persistence_enabled = true;
  count = 2;
  points =
      morning ∷ evening ∷ zero_point ∷ zero_point ∷ zero_point ∷ zero_point ∷ zero_point
      ∷ zero_point ∷ [];
}

daily_valid : config_valid 1 daily ≡ true
unfolding config_valid point_valid
daily_valid = refl

next_of_daily : next_point_index daily 0 400 ≡ (1, 980)
unfolding next_point_index scan_days
next_of_daily = refl

next_point_index-IsNext_example :
    IsNext (points_of daily) (now 0 400) (next_point_index daily 0 400)
next_point_index-IsNext_example = next_point_index-IsNext 1 daily 0 400 daily_valid (omega arith)

latest_of_daily : latest_point_index daily 0 100 ≡ 1
unfolding latest_point_index scan_days
latest_of_daily = refl

latest_point_index-IsLatest_example :
    IsLatest (points_of daily) (now 0 100) 100 (latest_point_index daily 0 100)
latest_point_index-IsLatest_example =
    latest_point_index-IsLatest 1 daily 0 100 daily_valid (omega arith)

-- 10:00 on the first day of the week only.
abbrev weekly : ScheduleConfig
weekly = record daily {
  count = 1;
  points =
      record { enabled = true; minute_of_day = 600; action = 1; days_mask = 1 }
      ∷ replicate 7 zero_point;
}

-- At 9:00 on that day the point of the week before is not found, but that of an hour later is.
weekly_not_found : latest_point_index weekly 0 540 ≡ no_index
unfolding latest_point_index scan_days
weekly_not_found = refl

weekly_next : next_point_index weekly 0 540 ≡ (0, 60)
unfolding next_point_index scan_days
weekly_next = refl

daily-IsStorable : IsStorable daily
daily-IsStorable = record {
  generation = omega arith;
  count = refl;
  few = omega arith;
  values = (omega arith, (omega arith, tt));
  tail = refl;
}

load_config-config_to_blob_example :
    load_config 1 0x4b53 true ok (blob_bytes (config_to_blob 0x4b53 daily)) ≡ daily
load_config-config_to_blob_example =
    load_config-config_to_blob 1 0x4b53 daily (omega arith) daily-IsStorable refl daily_valid

-- An action of 128 in a disabled point comes back as action 0 in an enabled one.
abbrev high_action : ScheduleConfig
high_action = record daily {
  count = 1;
  points =
      record { enabled = false; minute_of_day = 600; action = 128; days_mask = 1 }
      ∷ replicate 7 zero_point;
}

high_action_lost :
    (blob_to_config (config_to_blob 0x4b53 high_action)).points
    ≡ record { enabled = true; minute_of_day = 600; action = 0; days_mask = 1 }
      ∷ replicate 7 zero_point
unfolding blob_to_config config_to_blob
high_action_lost = refl

abbrev options : Options
options = record {
  blob_magic = 0x4b53;
  max_action = 1;
  catch_up_on_clock_ready = true;
  stage_timeout_ms = 0;
  has_apply = true;
}

-- Nothing is stored.
abbrev loaded : ScheduleConfig
loaded = load_config 1 0x4b53 false ok []

started_options : start options true true false ok [] ≡ (ok, some (new_schedule options loaded))
unfolding start
started_options = refl

-- A stage of one point, complete.
abbrev staging : Staging
staging = record { schedule = new_schedule options loaded; received = announced 0 false false }

abbrev staging_begun : Staging
staging_begun =
    answered staging.received (announced 1 true false)
      (stage_begin staging.schedule true 1000 8 1 true false)

abbrev staging_full : Staging
staging_full =
    answered staging_begun.received (with_received 0 morning staging_begun.received)
      (stage_point staging_begun.schedule true 1100 8 0 morning)

abbrev writes : NvsWrite → Esp
writes op = ok

commit_ok : (stage_commit staging_full.schedule true 1200 8 ok writes ok).1 ≡ ok
unfolding stage_commit stage_point stage_begin expire_stage config_valid point_valid persist_config
commit_ok = refl

stage_commit-Commits_example :
    InForce staging_full.schedule
    × InForce (stage_commit staging_full.schedule true 1200 8 ok writes ok).0
    × Commits 8 staging_full.received (stage_commit staging_full.schedule true 1200 8 ok writes ok)
stage_commit-Commits_example =
    stage_commit-Commits options true true false ok [] (new_schedule options loaded) staging_full
      true 1200 8 ok writes ok started_options
      (next (next here (begins true 1000 8 1 true false)) (stages true 1100 8 0 morning))

-- 6:00 on a Monday.
abbrev monday : Tm
monday = record { tm_year = 124; tm_yday = 0; tm_wday = 1; tm_hour = 6; tm_min = 0 }

abbrev running : Schedule
running = new_schedule options daily

abbrev applies : Point → ℕ → Bool → Esp
applies p i b = ok

morning_due :
    due_from daily monday running.last_run_day 0 (points_of daily) ≡ scheduled daily 0 ∷ []
unfolding local_day_key
morning_due = refl

run_points_for_minute_once_example :
    let r = run_points_for_minute applies running daily monday 1000 in
    (r.1 ≡ due_from daily monday running.last_run_day 0 (points_of daily))
    × (run_points_for_minute applies r.0 daily monday 2000 ≡ (r.0, []))
run_points_for_minute_once_example =
    run_points_for_minute_once applies (λ p i b. refl) running daily monday 1000 2000
      (refl, refl, refl) (omega arith)

-- The device starts at 6:00 and `apply` fails. Six seconds later it succeeds: the point is applied as
-- catch-up and once more as retry.
abbrev fails : Point → ℕ → Bool → Esp
fails p i b = timeout

abbrev local_monday : ℕ → Option Tm
local_monday epoch = some monday

abbrev failed_round : Schedule
failed_round = (task_round fails local_monday running 1000 1704088800).0

applied_twice :
    (task_round applies local_monday failed_round 7000 1704088806).1
    ≡ record { point = morning; index = 0; catch_up = true } ∷ scheduled daily 0 ∷ []
unfolding task_round sample run_sample run_catch_up run_crossed run_pending_retry
    run_points_for_minute run_points_from run_scheduled_point apply_point record_apply_result
    clock_is_continuous expire_stage latest_point_index scan_days local_day_key
applied_twice = refl
