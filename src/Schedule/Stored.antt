-- ===== src/Schedule/Stored.antt =====
-- What keemash_weekly_schedule.c stores is what it loads.
use Prim.Native.Nat.{bit_and, bit_or, bit_xor}
use keemash_core.Base.{
  ℕ, zero, suc, ◌+◌, ◌*◌, ◌^◌, ◌≤◌, ◌<◌, ◌≡◌, refl, ap, sym, ◌∙◌, Bool, true, false, not, ◌||◌,
  List, [], ◌∷◌, ◌++◌, arith, ◌==◌, if◌then◌else◌, if_false, u8, u32, length, All, length-append,
}
use keemash_core.Base.Bits.{or_new, or_nothing, and_bit, bit_new, bit_high, and_clear_7}
use keemash_core.Proto.{ok}
use keemash_core.Wire.{bytes_le, field}
use keemash_core.Wire.RoundTrip.{value_1, value_2, value_4}
use keemash_core.Schedule.{Point, ScheduleConfig, points_of, config_valid}
use keemash_core.Schedule.Blob.{
  PersistedPoint, Blob, points_bytes, summed_bytes, blob_bytes, read_persisted, skip_persisted,
  blob_of, checksum_from, checksum32, zero_point, persisted, persisted_points, unsummed,
  config_to_blob, restored, restored_points, blob_to_config, default_config, accepted_config,
  checked_blob, load_config,
}

-- Every field fits its width.
abbrev pub IsPersisted : PersistedPoint → Type 0
IsPersisted q = (q.minute_of_day < 2 ^ 16) × (q.days_mask < 2 ^ 8) × (q.action_flags < 2 ^ 8)

read_persisted-points_bytes :
    (points : List PersistedPoint) (rest : List ℕ)
    → All IsPersisted points
    → read_persisted (length points) (points_bytes points ++ rest) ≡ points
read_persisted-points_bytes [] rest h = refl
read_persisted-points_bytes (q ∷ points) rest h = λ i.
    record {
      minute_of_day = value_2 q.minute_of_day h.0.0 i;
      days_mask = value_1 q.days_mask h.0.1 i;
      action_flags = value_1 q.action_flags h.0.2 i;
    }
    ∷ read_persisted-points_bytes points rest h.1 i

skip_persisted-points_bytes :
    (points : List PersistedPoint) (rest : List ℕ)
    → skip_persisted (length points) (points_bytes points ++ rest) ≡ rest
skip_persisted-points_bytes [] rest = refl
skip_persisted-points_bytes (q ∷ points) rest = skip_persisted-points_bytes points rest

pub record IsBlob (b : Blob) : Type 0 where
  pub magic : b.magic < 2 ^ 32
  pub version : b.version < 2 ^ 8
  pub count : b.count < 2 ^ 8
  pub flags : b.flags < 2 ^ 8
  pub reserved : b.reserved < 2 ^ 8
  pub generation : b.generation < 2 ^ 32
  pub points : All IsPersisted b.points
  pub size : length b.points ≡ 8
  pub checksum : b.checksum < 2 ^ 32

blob_of-blob_bytes : (b : Blob) → IsBlob b → blob_of (blob_bytes b) ≡ b
unfolding blob_of blob_bytes summed_bytes
blob_of-blob_bytes b v =
    let tail = bytes_le 4 b.checksum in
    let points : read_persisted 8 (points_bytes b.points ++ tail) ≡ b.points =
      ap (λ (n : ℕ). read_persisted n (points_bytes b.points ++ tail)) (sym v.size)
      ∙ read_persisted-points_bytes b.points tail v.points in
    let rest : skip_persisted 8 (points_bytes b.points ++ tail) ≡ tail =
      ap (λ (n : ℕ). skip_persisted n (points_bytes b.points ++ tail)) (sym v.size)
      ∙ skip_persisted-points_bytes b.points tail in
    let checksum : field 0 4 (skip_persisted 8 (points_bytes b.points ++ tail)) ≡ b.checksum =
      ap (field 0 4) rest ∙ value_4 b.checksum v.checksum in
    λ i. record {
      magic = value_4 b.magic v.magic i;
      version = value_1 b.version v.version i;
      count = value_1 b.count v.count i;
      flags = value_1 b.flags v.flags i;
      reserved = value_1 b.reserved v.reserved i;
      generation = value_4 b.generation v.generation i;
      points = points i;
      checksum = checksum i;
    }

length-points_bytes :
    (points : List PersistedPoint) → length (points_bytes points) ≡ length points * 4
length-points_bytes [] = refl
length-points_bytes (q ∷ points) = omega (arith, length-points_bytes points)

length-blob_bytes : (b : Blob) → length b.points ≡ 8 → length (blob_bytes b) ≡ 48
unfolding blob_bytes summed_bytes
length-blob_bytes b h = omega (
  arith,
  length-append (points_bytes b.points) (bytes_le 4 b.checksum),
  length-points_bytes b.points,
)

-- The values that a point may have: its action leaves the highest bit to the flag.
abbrev pub IsPoint : Point → Type 0
IsPoint p = (p.minute_of_day < 1440) × (p.days_mask < 2 ^ 8) × (p.action < 128)

flagged : (a : ℕ) → a < 128 → u8 (bit_or a 0x80) ≡ a + 128
flagged a h = omega (arith, or_new 7 a h)

unflagged : (a : ℕ) → a < 128 → u8 (bit_or a 0) ≡ a
unflagged a h = omega (arith, or_nothing a)

enabled_flag : (a : ℕ) → a < 128 → bit_and (a + 128) 0x80 ≡ 128
enabled_flag a h = omega (arith, and_bit 7 (a + 128), bit_new 7 a h)

disabled_flag : (a : ℕ) → a < 128 → bit_and a 0x80 ≡ 0
disabled_flag a h = omega (arith, and_bit 7 a, bit_high 7 a h)

-- The action and its flag are read back.
flag_back :
    (e : Bool) (a : ℕ)
    → a < 128
    → let flags = u8 (bit_or a (if e then 0x80 else 0)) in
      (not (bit_and flags 0x80 == 0) ≡ e) × (u8 (bit_and flags 0xffffff7f) ≡ a)
flag_back true a h = (
  ap (λ (x : ℕ). not (bit_and x 0x80 == 0)) (flagged a h)
      ∙ ap (λ (x : ℕ). not (x == 0)) (enabled_flag a h),
  ap (λ (x : ℕ). u8 (bit_and x 0xffffff7f)) (flagged a h)
      ∙ omega (arith, and_clear_7 (a + 128) (omega arith)),
)
flag_back false a h = (
  ap (λ (x : ℕ). not (bit_and x 0x80 == 0)) (unflagged a h)
      ∙ ap (λ (x : ℕ). not (x == 0)) (disabled_flag a h),
  ap (λ (x : ℕ). u8 (bit_and x 0xffffff7f)) (unflagged a h)
      ∙ omega (arith, and_clear_7 a (omega arith)),
)

restored-persisted : (p : Point) → IsPoint p → restored (persisted p) ≡ p
restored-persisted p h =
    let back = flag_back p.enabled p.action h.2 in
    λ i. record {
      enabled = back.0 i;
      minute_of_day = p.minute_of_day;
      action = back.1 i;
      days_mask = p.days_mask;
    }

-- Some points, and zeroes behind them up to the size of the array.
abbrev pub padded : ℕ → List Point → List Point
padded zero points = []
padded (suc n) [] = zero_point ∷ padded n []
padded (suc n) (p ∷ points) = p ∷ padded n points

restored_none : (n : ℕ) (points : List PersistedPoint) → restored_points n 0 points ≡ padded n []
restored_none zero points = refl
restored_none (suc n) points = ap (◌∷◌ zero_point) (restored_none n points)

restored_points-persisted_points :
    (n : ℕ) (points : List Point)
    → length points ≤ n
    → All IsPoint points
    → restored_points n (length points) (persisted_points n points) ≡ padded n points
restored_points-persisted_points zero [] h v = refl
restored_points-persisted_points zero (p ∷ points) h v = absurd (omega arith)
restored_points-persisted_points (suc n) [] h v =
    restored_none (suc n) (persisted_points (suc n) [])
restored_points-persisted_points (suc n) (p ∷ points) h v =
    λ i. restored-persisted p v.0 i ∷ restored_points-persisted_points n points (omega arith) v.1 i

IsPersisted-persisted : (p : Point) → IsPoint p → IsPersisted (persisted p)
IsPersisted-persisted p h = (omega arith, h.1, omega arith)

persisted_points-IsPersisted :
    (n : ℕ) (points : List Point) → All IsPoint points → All IsPersisted (persisted_points n points)
persisted_points-IsPersisted zero points h = tt
persisted_points-IsPersisted (suc n) [] h = (omega arith, persisted_points-IsPersisted n [] tt)
persisted_points-IsPersisted (suc n) (p ∷ points) h =
    (IsPersisted-persisted p h.0, persisted_points-IsPersisted n points h.1)

length-persisted_points : (n : ℕ) (points : List Point) → length (persisted_points n points) ≡ n
length-persisted_points zero points = refl
length-persisted_points (suc n) [] = ap suc (length-persisted_points n [])
length-persisted_points (suc n) (p ∷ points) = ap suc (length-persisted_points n points)

-- A configuration whose values fit the stored structure, with zeroes behind its points.
pub record IsStorable (c : ScheduleConfig) : Type 0 where
  pub generation : c.generation < 2 ^ 32
  pub count : length (points_of c) ≡ c.count
  pub few : c.count ≤ 8
  pub values : All IsPoint (points_of c)
  pub tail : padded 8 (points_of c) ≡ c.points

two_flags :
    (e p : Bool)
    → let flags = bit_or (if e then 1 else 0) (if p then 2 else 0) in
      (not (bit_and flags 1 == 0) ≡ e) × (not (bit_and flags 2 == 0) ≡ p) × (flags < 2 ^ 8)
two_flags true true = (refl, refl, omega arith)
two_flags true false = (refl, refl, omega arith)
two_flags false true = (refl, refl, omega arith)
two_flags false false = (refl, refl, omega arith)

blob_to_config-config_to_blob :
    (blob_magic : ℕ) (c : ScheduleConfig)
    → IsStorable c
    → blob_to_config (config_to_blob blob_magic c) ≡ c
unfolding blob_to_config config_to_blob
blob_to_config-config_to_blob blob_magic c v =
    let flags = two_flags c.enabled c.persistence_enabled in
    let points : restored_points 8 c.count (persisted_points 8 (points_of c)) ≡ c.points =
      ap (λ (n : ℕ). restored_points 8 n (persisted_points 8 (points_of c))) (sym v.count)
      ∙ restored_points-persisted_points 8 (points_of c) (omega (arith, v.count, v.few)) v.values
      ∙ v.tail in
    λ i. record {
      generation = c.generation;
      enabled = flags.0 i;
      persistence_enabled = flags.1 i;
      count = c.count;
      points = points i;
    }

checksum_from-lt :
    (value : ℕ) (bytes : List ℕ) → value < 2 ^ 32 → checksum_from value bytes < 2 ^ 32
checksum_from-lt value [] h = h
checksum_from-lt value (b ∷ bytes) h =
    checksum_from-lt (u32 (bit_xor value b * 16777619)) bytes (omega arith)

config_to_blob-IsBlob :
    (blob_magic : ℕ) (c : ScheduleConfig)
    → blob_magic < 2 ^ 32
    → IsStorable c
    → IsBlob (config_to_blob blob_magic c)
unfolding config_to_blob checksum32
config_to_blob-IsBlob blob_magic c m v = record {
  magic = m;
  version = omega arith;
  count = omega (arith, v.few);
  flags = (two_flags c.enabled c.persistence_enabled).2;
  reserved = omega arith;
  generation = v.generation;
  points = persisted_points-IsPersisted 8 (points_of c) v.values;
  size = length-persisted_points 8 (points_of c);
  checksum = checksum_from-lt 2166136261 (summed_bytes (unsummed blob_magic c)) (omega arith);
}

checksum_lem :
    (blob_magic : ℕ) (c : ScheduleConfig)
    → (config_to_blob blob_magic c).checksum
      ≡ checksum32 (summed_bytes (config_to_blob blob_magic c))
unfolding config_to_blob summed_bytes
checksum_lem blob_magic c = refl

head_lem :
    (blob_magic : ℕ) (c : ScheduleConfig)
    → ((config_to_blob blob_magic c).magic ≡ blob_magic)
      × ((config_to_blob blob_magic c).version ≡ 1)
unfolding config_to_blob
head_lem blob_magic c = (refl, refl)

heads :
    (blob_magic : ℕ) (c : ScheduleConfig) (x : ℕ)
    → (config_to_blob blob_magic c).checksum ≡ x
    → let b = config_to_blob blob_magic c in
      (not (b.magic == blob_magic) || not (b.version == 1) || not (b.checksum == x)) ≡ false
heads blob_magic c x e = ground (arith, e, head_lem blob_magic c)

checked_blob-config_to_blob :
    (max_action blob_magic : ℕ) (c : ScheduleConfig)
    → IsStorable c
    → c.persistence_enabled ≡ true
    → config_valid max_action c ≡ true
    → checked_blob max_action blob_magic (config_to_blob blob_magic c) ≡ c
checked_blob-config_to_blob max_action blob_magic c v p valid =
    let b = config_to_blob blob_magic c in
    let fine : (not (b.magic == blob_magic)
          || not (b.version == 1)
          || not (b.checksum == checksum32 (summed_bytes b)))
        ≡ false =
      heads blob_magic c (checksum32 (summed_bytes b)) (checksum_lem blob_magic c) in
    if_false default_config (accepted_config max_action (blob_to_config b)) fine
    ∙ ap (accepted_config max_action) (blob_to_config-config_to_blob blob_magic c v)
    ∙ if_false default_config c (ground (arith, p, valid))

-- A stored schedule survives a restart: if the values of a configuration fit the stored structure,
-- with actions below 128, and it is valid and persistent, `load_config` reads the bytes that
-- `persist_config` stores for it as that configuration.
pub load_config-config_to_blob :
    (max_action blob_magic : ℕ) (c : ScheduleConfig)
    → blob_magic < 2 ^ 32
    → IsStorable c
    → c.persistence_enabled ≡ true
    → config_valid max_action c ≡ true
    → load_config max_action blob_magic true ok (blob_bytes (config_to_blob blob_magic c)) ≡ c
unfolding load_config
load_config-config_to_blob max_action blob_magic c m v p valid =
    let b = config_to_blob blob_magic c in
    let is = config_to_blob-IsBlob blob_magic c m v in
    if_false default_config (checked_blob max_action blob_magic (blob_of (blob_bytes b)))
      (ap (λ (n : ℕ). not (n == 48)) (length-blob_bytes b is.size))
    ∙ ap (checked_blob max_action blob_magic) (blob_of-blob_bytes b is)
    ∙ checked_blob-config_to_blob max_action blob_magic c v p valid
