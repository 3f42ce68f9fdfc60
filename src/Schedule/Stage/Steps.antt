-- ===== src/Schedule/Stage/Steps.antt =====
-- The calls that replace the configuration of keemash_weekly_schedule.c, in any order.
use keemash_core.Base.{
  ℕ, ◌<◌, ◌≡◌, refl, subst, ◌∙◌, Bool, true, false, not, ◌||◌, Option, some, List, [], arith, ◌==◌,
  ==_iff, if_either, if◌then◌else◌, get_elem?, leb, ltb, length,
}
use keemash_core.Proto.{Esp, ok, is_ok}
use keemash_core.Schedule.{Point, ScheduleConfig, point_valid, config_valid, max_points}
use keemash_core.Schedule.Blob.{
  NvsWrite, persist_config, default_config, load_config, blob_of, checksum32, summed_bytes,
  blob_to_config,
}
use keemash_core.Schedule.Stage.{
  Schedule, Options, new_schedule, start, expire_stage, stage_begin, point_to, stage_point,
  expected_mask, commit_persisted, commit_to, stage_commit,
}
use keemash_core.Schedule.Stage.Complete.{
  Received, received_at, with_received, Staged, InForce, begun-StageInv, with_point-StageInv,
  expire-Staged, expire-same, all_received,
}

-- The schedule, and what the last accepted `stage_begin` announced with the points accepted since.
pub record Staging : Type 0 where
  pub schedule : Schedule
  pub received : Received

-- After a call, for its answer: what is received if it was accepted, and what was before.
abbrev pub answered : Received → Received → Schedule × Esp → Staging
answered old new r = record { schedule = r.0; received = if is_ok r.1 then new else old }

-- What `stage_begin` announces: no point is received yet.
abbrev pub announced : ℕ → Bool → Bool → Received
announced count enabled persistence_enabled = record {
  count = count;
  enabled = enabled;
  persistence_enabled = persistence_enabled;
  points = [];
}

pub data StagingStep (t : Staging) : Staging → Type 0 where
  begins :
      (locked : Bool) (now generation count : ℕ) (enabled persistence_enabled : Bool)
      → StagingStep t (
          answered t.received
            (announced count enabled persistence_enabled)
            (stage_begin t.schedule locked now generation count enabled persistence_enabled))
  stages :
      (locked : Bool) (now generation index : ℕ) (p : Point)
      → StagingStep t (
          answered t.received
            (with_received index p t.received)
            (stage_point t.schedule locked now generation index p))
  commits :
      (locked : Bool) (now generation : ℕ) (opened : Esp) (write : NvsWrite → Esp) (stored : Esp)
      → StagingStep t (record t {
        schedule = (stage_commit t.schedule locked now generation opened write stored).0;
      })
  expires : (now : ℕ) → StagingStep t (record t { schedule = expire_stage t.schedule now })

pub data StagingReach (s : Schedule) : Staging → Type 0 where
  here : StagingReach s (record { schedule = s; received = announced 0 false false })
  next : {t u : Staging} → StagingReach s t → StagingStep t u → StagingReach s u

-- What every call keeps.
abbrev pub StagingInv : Staging → Type 0
StagingInv t = InForce t.schedule × Staged t.schedule t.received

-- A call, for its answer and the points that it makes received.
abbrev Keeps : Received → Received → Schedule × Esp → Type 0
Keeps old new r = InForce r.0 × Staged r.0 (if is_ok r.1 then new else old)

begin-Keeps :
    (s : Schedule) (received : Received) (locked : Bool) (now generation count : ℕ)
    (enabled persistence_enabled : Bool)
    → InForce s
    → Staged s received
    → Keeps received
        (announced count enabled persistence_enabled)
        (stage_begin s locked now generation count enabled persistence_enabled)
unfolding stage_begin
begin-Keeps s received locked now generation count enabled persistence_enabled f h =
    let P = Keeps received (announced count enabled persistence_enabled) in
    if_either P ((generation == 0) || ltb max_points count) (λ _. (f, h))
      λ few.
        if_either P (not locked) (λ _. (f, h))
          λ _. (
            f,
            λ e.
                begun-StageInv s now generation count enabled persistence_enabled
                  (ground (arith, few)),
          )

expired-InForce : (s : Schedule) (now : ℕ) → InForce s → InForce (expire_stage s now)
expired-InForce s now f =
    let same = expire-same s now in (λ i. config_valid (same.1 i) (same.0 i)) ∙ f

point_to-Keeps :
    (s : Schedule) (received : Received) (generation index : ℕ) (p : Point)
    → InForce s
    → Staged s received
    → Keeps received (with_received index p received) (point_to s generation index p)
point_to-Keeps s received generation index p f h =
    if_either (Keeps received (with_received index p received))
      (not s.stage.active
        || not (s.stage.config.generation == generation)
        || leb s.stage.config.count index)
      (λ _. (f, h))
      (λ good. (
        f,
        λ e.
            with_point-StageInv s index p received (ground (arith, good))
              (h (ground (arith, good))),
      ))

stage-Keeps :
    (s : Schedule) (received : Received) (locked : Bool) (now generation index : ℕ) (p : Point)
    → InForce s
    → Staged s received
    → Keeps received (with_received index p received) (stage_point s locked now generation index p)
unfolding stage_point
stage-Keeps s received locked now generation index p f h =
    let P = Keeps received (with_received index p received) in
    if_either P (not (point_valid s.max_action p)) (λ _. (f, h))
      λ _.
        if_either P (not locked) (λ _. (f, h))
          λ _.
            point_to-Keeps (expire_stage s now) received generation index p
              (expired-InForce s now f) (expire-Staged s now received h)

-- A configuration that was put into force: of this generation, with the number of points and the two
-- flags that were announced, and the point at each index below this number is the last that was
-- accepted for it.
abbrev pub Commits : ℕ → Received → Schedule × Esp → Type 0
Commits generation received r =
    r.1 ≡ ok
    → (r.0.config.generation ≡ generation)
      × (r.0.config.count ≡ received.count)
      × (r.0.config.enabled ≡ received.enabled)
      × (r.0.config.persistence_enabled ≡ received.persistence_enabled)
      × (r.0.stage.active ≡ false)
      × ((i : ℕ)
          → i < received.count
          → (p : Point) × (received_at i received ≡ some p)
            × (get_elem? r.0.config.points i ≡ some p))

abbrev CommitKeeps : ℕ → Received → Schedule × Esp → Type 0
CommitKeeps generation received r =
    InForce r.0 × Staged r.0 received × Commits generation received r

commit_persisted-CommitKeeps :
    (s : Schedule) (received : Received) (generation : ℕ) (r : Esp × Option NvsWrite)
    → InForce s
    → Staged s received
    → s.stage.active ≡ true
    → s.stage.config.generation ≡ generation
    → s.stage.received_mask ≡ expected_mask s.stage.config.count
    → config_valid s.max_action s.stage.config ≡ true
    → CommitKeeps generation received (commit_persisted s r)
commit_persisted-CommitKeeps s received generation (err, stored) f h active g full valid =
    if_either (CommitKeeps generation received) (is_ok err)
      (λ _. (
        valid,
        (λ e. absurd (ground (arith, e))),
        (λ _.
            let v = h active in
            (
              g,
              v.count,
              v.enabled,
              v.persistence_enabled,
              refl,
              λ i low. all_received s.stage received v full i (omega (arith, v.count, low)),
            )),
      ))
      (λ bad. (f, h, (λ e. absurd (ground (arith, e, bad)))))

commit_to-CommitKeeps :
    (s : Schedule) (received : Received) (generation : ℕ) (r : Esp × Option NvsWrite)
    → InForce s
    → Staged s received
    → CommitKeeps generation received (commit_to s generation r)
commit_to-CommitKeeps s received generation r f h =
    if_either (CommitKeeps generation received)
      (not s.stage.active
        || not (s.stage.config.generation == generation)
        || not (s.stage.received_mask == expected_mask s.stage.config.count)
        || not (config_valid s.max_action s.stage.config))
      (λ _. (f, h, (λ e. cc)))
      (λ good.
        commit_persisted-CommitKeeps s received generation r f h (ground (arith, good))
          (ground (arith, good))
          ((==_iff s.stage.received_mask (expected_mask s.stage.config.count)).0
            (ground (arith, good)))
          (ground (arith, good)))

commit-CommitKeeps :
    (s : Schedule) (received : Received) (locked : Bool) (now generation : ℕ) (opened : Esp)
    (write : NvsWrite → Esp) (stored : Esp)
    → InForce s
    → Staged s received
    → CommitKeeps generation received (stage_commit s locked now generation opened write stored)
unfolding stage_commit
commit-CommitKeeps s received locked now generation opened write stored f h =
    if_either (CommitKeeps generation received) (not locked) (λ _. (f, h, (λ e. cc)))
      λ _.
        commit_to-CommitKeeps (expire_stage s now) received generation
          (persist_config (expire_stage s now).blob_magic (expire_stage s now).stage.config opened
            write stored)
          (expired-InForce s now f) (expire-Staged s now received h)

StagingStep-StagingInv : {t u : Staging} → StagingStep t u → StagingInv t → StagingInv u
StagingStep-StagingInv {t} (begins locked now generation count enabled persistence_enabled) v =
    begin-Keeps t.schedule t.received locked now generation count enabled persistence_enabled v.0
      v.1
StagingStep-StagingInv {t} (stages locked now generation index p) v =
    stage-Keeps t.schedule t.received locked now generation index p v.0 v.1
StagingStep-StagingInv {t} (commits locked now generation opened write stored) v =
    let c =
      commit-CommitKeeps t.schedule t.received locked now generation opened write stored v.0 v.1 in
    (c.0, c.1)
StagingStep-StagingInv {t} (expires now) v =
    (expired-InForce t.schedule now v.0, expire-Staged t.schedule now t.received v.1)

both_hold : (a b : Bool) → (not a || not b) ≡ false → b ≡ true
both_hold true true h = refl
both_hold true false h = cc
both_hold false b h = absurd (ground arith)

default_valid : (max_action : ℕ) → config_valid max_action default_config ≡ true
unfolding config_valid
default_valid max_action = refl

loaded_valid :
    (max_action blob_magic : ℕ) (opened : Bool) (err : Esp) (bytes : List ℕ)
    → config_valid max_action (load_config max_action blob_magic opened err bytes) ≡ true
unfolding load_config
loaded_valid max_action blob_magic opened err bytes =
    let P = λ (c : ScheduleConfig). config_valid max_action c ≡ true in
    let none' = default_valid max_action in
    let b = blob_of bytes in
    let c = blob_to_config b in
    if_either P (not opened) (λ _. none')
      λ _.
        if_either P (not (is_ok err) || not (length bytes == 48)) (λ _. none')
          λ _.
            if_either P
              (not (b.magic == blob_magic)
                || not (b.version == 1)
                || not (b.checksum == checksum32 (summed_bytes b)))
              (λ _. none')
              λ _.
                if_either P (not c.persistence_enabled || not (config_valid max_action c))
                  (λ _. none')
                  λ good. both_hold c.persistence_enabled (config_valid max_action c) good

start-StagingInv :
    (options : Options) (allocated task_created opened : Bool) (err : Esp) (bytes : List ℕ)
    (s : Schedule)
    → start options allocated task_created opened err bytes ≡ (ok, some s)
    → StagingInv (record { schedule = s; received = announced 0 false false })
unfolding start
start-StagingInv options allocated task_created opened err bytes s e =
    let loaded = load_config options.max_action options.blob_magic opened err bytes in
    let same : new_schedule options loaded ≡ s = ground (arith, e) in
    subst (λ x. StagingInv (record { schedule = x; received = announced 0 false false })) same
      (
        loaded_valid options.max_action options.blob_magic opened err bytes,
        (λ a. absurd (ground (arith, a))),
      )

StagingReach-StagingInv :
    {s : Schedule} {t : Staging}
    → StagingInv (record { schedule = s; received = announced 0 false false })
    → StagingReach s t
    → StagingInv t
StagingReach-StagingInv v here = v
StagingReach-StagingInv v (next r st) = StagingStep-StagingInv st (StagingReach-StagingInv v r)

-- Whatever NVS held when the schedule was started, and whatever calls of `stage_begin`,
-- `stage_point` and `stage_commit` came before, with stages that expired in between: the
-- configuration in force is valid, and stays valid by the next `stage_commit`. If this one returns
-- ESP_OK, its generation is in force, with the number of points and the two flags of the last accepted
-- `stage_begin`, and no stage is active; at each index below this number stands the last point that
-- `stage_point` accepted for it since then: no point is missing.
pub stage_commit-Commits :
    (options : Options) (allocated task_created opened : Bool) (err : Esp) (bytes : List ℕ)
    (s : Schedule) (t : Staging) (locked : Bool) (now generation : ℕ) (nvs : Esp)
    (write : NvsWrite → Esp) (stored : Esp)
    → start options allocated task_created opened err bytes ≡ (ok, some s)
    → StagingReach s t
    → InForce t.schedule
      × InForce (stage_commit t.schedule locked now generation nvs write stored).0
      × Commits generation t.received
          (stage_commit t.schedule locked now generation nvs write stored)
stage_commit-Commits options allocated task_created opened err bytes s t locked now generation nvs
      write stored e reach =
    let v =
      StagingReach-StagingInv (start-StagingInv options allocated task_created opened err bytes s e)
        reach in
    let c =
      commit-CommitKeeps t.schedule t.received locked now generation nvs write stored v.0 v.1 in
    (v.0, c.0, c.2)
