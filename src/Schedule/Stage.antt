-- ===== src/Schedule/Stage.antt =====
-- keemash_weekly_schedule.c: the state of a schedule, starting it, and replacing its configuration point
-- by point. A function that holds the mutex for one critical section is one function here.
pub mod Complete
pub mod Steps
use Prim.Native.Nat.{bit_or}
use keemash_core.Base.{
  ℕ, zero, suc, ◌+◌, ◌-◌, ◌^◌, Bool, true, false, not, ◌&&◌, ◌||◌, Option, none, some, List, [],
  ◌∷◌, ltb, leb, ◌==◌, if◌then◌else◌, u8, sub32, set, replicate,
}
use keemash_core.Proto.{Esp, ok, is_ok, invalid_arg, invalid_state, timeout, no_mem}
use keemash_core.Schedule.{Point, ScheduleConfig, point_valid, config_valid, max_points, no_index}
use keemash_core.Schedule.Blob.{NvsWrite, persist_config, load_config, zero_point}

-- `schedule_stage_t`
pub record Stage : Type 0 where
  pub active : Bool
  pub started_ms : ℕ
  pub received_mask : ℕ
  pub config : ScheduleConfig

-- `struct keemash_weekly_schedule`, without its names, its task and what the task is created with.
pub record Schedule : Type 0 where
  pub blob_magic : ℕ
  pub max_action : ℕ
  pub catch_up_on_clock_ready : Bool
  pub stage_timeout_ms : ℕ
  pub config : ScheduleConfig
  pub stage : Stage
  pub last_run_day : List ℕ
  pub catch_up_pending : Bool
  pub last_clock_valid : Bool
  pub last_wall_epoch : ℕ
  pub last_sample_ms : ℕ
  pub retry_pending : Bool
  pub retry_generation : ℕ
  pub retry_day_key : ℕ
  pub next_retry_ms : ℕ
  pub retry_index : ℕ
  pub last_apply_valid : Bool
  pub last_apply_index : ℕ
  pub last_apply_kind : ℕ
  pub last_apply_ms : ℕ
  pub last_error : Esp

abbrev pub zero_config : ScheduleConfig
zero_config = record {
  generation = 0;
  enabled = false;
  persistence_enabled = false;
  count = 0;
  points = replicate 8 zero_point;
}

abbrev pub zero_stage : Stage
zero_stage = record { active = false; started_ms = 0; received_mask = 0; config = zero_config }

-- `UINT32_MAX` for each point.
abbrev pub never_run : List ℕ
never_run = replicate 8 (2 ^ 32 - 1)

-- `keemash_weekly_schedule_options_t`: what is read of it.
pub record Options : Type 0 where
  pub blob_magic : ℕ
  pub max_action : ℕ
  pub catch_up_on_clock_ready : Bool
  pub stage_timeout_ms : ℕ
  pub has_apply : Bool

abbrev pub new_schedule : Options → ScheduleConfig → Schedule
new_schedule options config = record {
  blob_magic = options.blob_magic;
  max_action = options.max_action;
  catch_up_on_clock_ready = options.catch_up_on_clock_ready;
  stage_timeout_ms = if options.stage_timeout_ms == 0 then 30000 else options.stage_timeout_ms;
  config = config;
  stage = zero_stage;
  last_run_day = never_run;
  catch_up_pending = config.enabled;
  last_clock_valid = false;
  last_wall_epoch = 0;
  last_sample_ms = 0;
  retry_pending = false;
  retry_generation = 0;
  retry_day_key = 0;
  next_retry_ms = 0;
  retry_index = 0;
  last_apply_valid = false;
  last_apply_index = no_index;
  last_apply_kind = 0;
  last_apply_ms = 0;
  last_error = ok;
}

-- `keemash_weekly_schedule_start` with names that fit. The Booleans say that memory and the mutex were
-- obtained and that the task was created; `opened`, `err` and `bytes` are the answers of NVS.
unfoldable pub start : Options → Bool → Bool → Bool → Esp → List ℕ → Esp × Option Schedule
unfolding load_config
start options allocated task_created opened err bytes =
    if (options.blob_magic == 0) || not options.has_apply
    then (invalid_arg, none)
    else if not (allocated && task_created)
    then (no_mem, none)
    else (
      ok,
      some (
          new_schedule options
            (load_config options.max_action options.blob_magic opened err bytes)),
    )

-- `expire_stage_locked`
unfoldable pub expire_stage : Schedule → ℕ → Schedule
expire_stage s now =
    if s.stage.active && leb s.stage_timeout_ms (sub32 now s.stage.started_ms)
    then record s { stage = zero_stage }
    else s

abbrev pub begun : Schedule → ℕ → ℕ → ℕ → Bool → Bool → Schedule
begun s now generation count enabled persistence_enabled = record s {
  stage = record {
    active = true;
    started_ms = now;
    received_mask = 0;
    config = record {
      generation = generation;
      enabled = enabled;
      persistence_enabled = persistence_enabled;
      count = count;
      points = replicate 8 zero_point;
    };
  };
}

-- `keemash_weekly_schedule_stage_begin`; `locked` says that the mutex was obtained, and `now` is
-- `monotonic_ms()`.
unfoldable pub stage_begin : Schedule → Bool → ℕ → ℕ → ℕ → Bool → Bool → Schedule × Esp
stage_begin s locked now generation count enabled persistence_enabled =
    if (generation == 0) || ltb max_points count
    then (s, invalid_arg)
    else if not locked
    then (s, timeout)
    else (begun s now generation count enabled persistence_enabled, ok)

abbrev pub with_point : Schedule → ℕ → Point → Schedule
with_point s index p = record s {
  stage = record g {
    received_mask = u8 (bit_or g.received_mask (u8 (2 ^ index)));
    config = record c { points = set c.points index p };
  };
}
  where
    open s use {stage as g}
    open g use {config as c}

abbrev pub point_to : Schedule → ℕ → ℕ → Point → Schedule × Esp
point_to s generation index p =
    if not s.stage.active
      || not (s.stage.config.generation == generation)
      || leb s.stage.config.count index
    then (s, invalid_state)
    else (with_point s index p, ok)

-- `keemash_weekly_schedule_stage_point`
unfoldable pub stage_point : Schedule → Bool → ℕ → ℕ → ℕ → Point → Schedule × Esp
unfolding point_valid expire_stage
stage_point s locked now generation index p =
    if not (point_valid s.max_action p)
    then (s, invalid_arg)
    else if not locked
    then (s, timeout)
    else point_to (expire_stage s now) generation index p

-- `expected` of `stage_commit`.
abbrev pub expected_mask : ℕ → ℕ
expected_mask count = if count == 0 then 0 else u8 (2 ^ count - 1)

abbrev pub committed : Schedule → Schedule
committed s = record s {
  config = s.stage.config;
  stage = zero_stage;
  last_run_day = never_run;
  catch_up_pending = s.stage.config.enabled;
  retry_pending = false;
  next_retry_ms = 0;
  last_apply_valid = false;
  last_apply_index = no_index;
  last_apply_kind = 0;
  last_error = ok;
}

-- The part of `stage_commit` after its tests, for what `persist_config` returned.
abbrev pub commit_persisted : Schedule → Esp × Option NvsWrite → Schedule × Esp
commit_persisted s (err, stored) =
    if is_ok err then (committed s, ok) else (record s { last_error = err }, err)

abbrev pub commit_to : Schedule → ℕ → Esp × Option NvsWrite → Schedule × Esp
commit_to s generation persisted =
    if not s.stage.active
      || not (s.stage.config.generation == generation)
      || not (s.stage.received_mask == expected_mask s.stage.config.count)
      || not (config_valid s.max_action s.stage.config)
    then (s, invalid_state)
    else commit_persisted s persisted

-- `keemash_weekly_schedule_stage_commit`; the last three arguments are the answers of NVS.
unfoldable pub stage_commit :
    Schedule → Bool → ℕ → ℕ → Esp → (NvsWrite → Esp) → Esp → Schedule × Esp
unfolding config_valid expire_stage persist_config
stage_commit s locked now generation opened write stored =
    let e = expire_stage s now in
    if not locked
    then (s, timeout)
    else commit_to e generation (persist_config e.blob_magic e.stage.config opened write stored)
