-- ===== src/Schedule/Blob.antt =====
-- keemash_weekly_schedule.c: the schedule as it is stored, `schedule_blob_t`.
use Prim.Native.Nat.{bit_and, bit_or, bit_xor}
use keemash_core.Base.{
  ℕ, zero, suc, ◌*◌, Bool, false, not, ◌||◌, Option, none, some, List, [], ◌∷◌, ◌++◌, ◌==◌,
  if◌then◌else◌, u8, u32, length, drop, replicate,
}
use keemash_core.Proto.{Esp, ok, is_ok, other}
use keemash_core.Wire.{bytes_le, field}
use keemash_core.Schedule.{Point, ScheduleConfig, points_of, config_valid, max_points}

-- `persisted_point_t`
pub record PersistedPoint : Type 0 where
  pub minute_of_day : ℕ
  pub days_mask : ℕ
  pub action_flags : ℕ

-- `schedule_blob_t`
pub record Blob : Type 0 where
  pub magic : ℕ
  pub version : ℕ
  pub count : ℕ
  pub flags : ℕ
  pub reserved : ℕ
  pub generation : ℕ
  pub points : List PersistedPoint
  pub checksum : ℕ

abbrev pub blob_version : ℕ
blob_version = 1

abbrev pub flag_enabled : ℕ
flag_enabled = 1

abbrev pub flag_persist : ℕ
flag_persist = 2

abbrev pub point_flag_enabled : ℕ
point_flag_enabled = 0x80

-- `sizeof(schedule_blob_t)`
abbrev pub blob_size : ℕ
blob_size = 48

abbrev pub point_bytes : PersistedPoint → List ℕ
point_bytes q = bytes_le 2 q.minute_of_day ++ (bytes_le 1 q.days_mask ++ bytes_le 1 q.action_flags)

abbrev pub points_bytes : List PersistedPoint → List ℕ
points_bytes [] = []
points_bytes (q ∷ points) = point_bytes q ++ points_bytes points

-- The bytes up to `offsetof(schedule_blob_t, checksum)`, then all.
unfoldable pub summed_bytes : Blob → List ℕ
summed_bytes b =
    bytes_le 4 b.magic
    ++ (bytes_le 1 b.version
        ++ (bytes_le 1 b.count
            ++ (bytes_le 1 b.flags
                ++ (bytes_le 1 b.reserved ++ (bytes_le 4 b.generation ++ points_bytes b.points)))))

unfoldable pub blob_bytes : Blob → List ℕ
unfolding summed_bytes
blob_bytes b = summed_bytes b ++ bytes_le 4 b.checksum

-- So many points at the start of some bytes, and what follows them.
abbrev pub read_persisted : ℕ → List ℕ → List PersistedPoint
read_persisted zero bytes = []
read_persisted (suc n) bytes =
    record {
      minute_of_day = field 0 2 bytes;
      days_mask = field 2 1 bytes;
      action_flags = field 3 1 bytes;
    }
    ∷ read_persisted n (drop 4 bytes)

abbrev pub skip_persisted : ℕ → List ℕ → List ℕ
skip_persisted zero bytes = bytes
skip_persisted (suc n) bytes = skip_persisted n (drop 4 bytes)

unfoldable pub blob_of : List ℕ → Blob
blob_of bytes = record {
  magic = field 0 4 bytes;
  version = field 4 1 bytes;
  count = field 5 1 bytes;
  flags = field 6 1 bytes;
  reserved = field 7 1 bytes;
  generation = field 8 4 bytes;
  points = read_persisted 8 (drop 12 bytes);
  checksum = field 0 4 (skip_persisted 8 (drop 12 bytes));
}

-- The loop of `checksum32`.
abbrev pub checksum_from : ℕ → List ℕ → ℕ
checksum_from value [] = value
checksum_from value (b ∷ bytes) = checksum_from (u32 (bit_xor value b * 16777619)) bytes

unfoldable pub checksum32 : List ℕ → ℕ
checksum32 bytes = checksum_from 2166136261 bytes

abbrev pub zero_point : Point
zero_point = record { enabled = false; minute_of_day = 0; action = 0; days_mask = 0 }

abbrev pub zero_persisted : PersistedPoint
zero_persisted = record { minute_of_day = 0; days_mask = 0; action_flags = 0 }

abbrev pub persisted : Point → PersistedPoint
persisted p = record {
  minute_of_day = p.minute_of_day;
  days_mask = p.days_mask;
  action_flags = u8 (bit_or p.action (if p.enabled then point_flag_enabled else 0));
}

-- The loop of `config_to_blob`; the points behind the last are zero.
abbrev pub persisted_points : ℕ → List Point → List PersistedPoint
persisted_points zero points = []
persisted_points (suc n) [] = zero_persisted ∷ persisted_points n []
persisted_points (suc n) (p ∷ points) = persisted p ∷ persisted_points n points

abbrev pub unsummed : ℕ → ScheduleConfig → Blob
unsummed blob_magic c = record {
  magic = blob_magic;
  version = blob_version;
  count = c.count;
  flags =
      bit_or (if c.enabled then flag_enabled else 0)
        (if c.persistence_enabled then flag_persist else 0);
  reserved = 0;
  generation = c.generation;
  points = persisted_points max_points (points_of c);
  checksum = 0;
}

-- `config_to_blob`, for the schedule's `blob_magic`.
unfoldable pub config_to_blob : ℕ → ScheduleConfig → Blob
unfolding checksum32 summed_bytes
config_to_blob blob_magic c = record (unsummed blob_magic c) {
  checksum = checksum32 (summed_bytes (unsummed blob_magic c));
}

-- `~POINT_FLAG_ENABLED` is 0xffffff7f.
abbrev pub restored : PersistedPoint → Point
restored q = record {
  enabled = not (bit_and q.action_flags point_flag_enabled == 0);
  minute_of_day = q.minute_of_day;
  action = u8 (bit_and q.action_flags 0xffffff7f);
  days_mask = q.days_mask;
}

-- The loop of `blob_to_config`, for the array of `n` points and `count` of them.
abbrev pub restored_points : ℕ → ℕ → List PersistedPoint → List Point
restored_points zero count points = []
restored_points (suc n) zero points = zero_point ∷ restored_points n zero points
restored_points (suc n) (suc count) [] = zero_point ∷ restored_points n count []
restored_points (suc n) (suc count) (q ∷ points) = restored q ∷ restored_points n count points

-- `blob_to_config`
unfoldable pub blob_to_config : Blob → ScheduleConfig
blob_to_config b = record {
  generation = b.generation;
  enabled = not (bit_and b.flags flag_enabled == 0);
  persistence_enabled = not (bit_and b.flags flag_persist == 0);
  count = b.count;
  points = restored_points max_points b.count b.points;
}

-- What `load_config` sets first.
abbrev pub default_config : ScheduleConfig
default_config = record {
  generation = 1;
  enabled = false;
  persistence_enabled = false;
  count = 0;
  points = replicate 8 zero_point;
}

-- The tests of `load_config` on what was read.
abbrev pub accepted_config : ℕ → ScheduleConfig → ScheduleConfig
accepted_config max_action candidate =
    if not candidate.persistence_enabled || not (config_valid max_action candidate)
    then default_config
    else candidate

abbrev pub checked_blob : ℕ → ℕ → Blob → ScheduleConfig
checked_blob max_action blob_magic b =
    if not (b.magic == blob_magic)
      || not (b.version == blob_version)
      || not (b.checksum == checksum32 (summed_bytes b))
    then default_config
    else accepted_config max_action (blob_to_config b)

-- `load_config`: whether `nvs_open` succeeded, and what `nvs_get_blob` returned.
unfoldable pub load_config : ℕ → ℕ → Bool → Esp → List ℕ → ScheduleConfig
unfolding checksum32 summed_bytes blob_of blob_to_config config_valid
load_config max_action blob_magic opened err bytes =
    if not opened
    then default_config
    else if not (is_ok err) || not (length bytes == blob_size)
    then default_config
    else checked_blob max_action blob_magic (blob_of bytes)

-- What `persist_config` asks NVS to do with the key.
pub data NvsWrite : Type 0 where
  set_blob : List ℕ → NvsWrite
  erase_key : NvsWrite

-- `ESP_ERR_NVS_NOT_FOUND` counts as success where a key is erased.
abbrev pub erased : Esp → Esp
erased (other n) = if n == 0x1102 then ok else other n
erased err = err

-- `persist_config`: the answers of `nvs_open`, of the write and of `nvs_commit` are arguments; the
-- writes that were asked for and committed are a result.
unfoldable pub persist_config :
    ℕ → ScheduleConfig → Esp → (NvsWrite → Esp) → Esp → Esp × Option NvsWrite
unfolding blob_bytes config_to_blob
persist_config blob_magic c opened write committed =
    let op =
      if c.persistence_enabled
      then set_blob (blob_bytes (config_to_blob blob_magic c))
      else erase_key in
    let err = if c.persistence_enabled then write op else erased (write op) in
    if not (is_ok opened)
    then (opened, none)
    else if not (is_ok err)
    then (err, none)
    else (committed, if is_ok committed then some op else none)
