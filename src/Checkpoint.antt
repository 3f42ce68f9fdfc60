-- ===== src/Checkpoint.antt =====
-- keemash_ota_v3_checkpoint.c: the checkpoint of an update in two NVS entries that are written in turn.
-- The entry under a key is the structure that NVS returns for it, or none if there is no such entry or
-- it has another size. Byte arrays are lists. `malloc` and `calloc` succeed.
pub mod Latest
pub mod Journal
mod Tests
use keemash_core.Base.{
  ℕ, ◌+◌, ◌*◌, ◌%◌, ◌^◌, Bool, true, false, not, ◌&&◌, ◌||◌, Option, none, some, List, [], ◌∷◌, ltb,
  leb, ◌==◌, if◌then◌else◌, u32, sub32, get_or, replicate, take,
}
use keemash_core.Proto.{Esp, ok, is_ok, invalid_arg, not_found, other}

-- `keemash_ota_v3_resume_point_t`
pub record ResumePoint : Type 0 where
  pub next_block_index : ℕ
  pub raw_offset : ℕ
  pub encoded_offset : ℕ
  pub block_chain : List ℕ
  pub image_prefix_sha256 : List ℕ

-- `keemash_ota_v3_checkpoint_t`
pub record Checkpoint : Type 0 where
  pub phase : ℕ
  pub reserved : List ℕ
  pub operation_id : List ℕ
  pub artifact_id : List ℕ
  pub signature : List ℕ
  pub signed_fields_len : ℕ
  pub signed_fields : List ℕ
  pub partition_label : List ℕ
  pub resume : ResumePoint

-- `stored_checkpoint_t`
pub record Stored : Type 0 where
  pub magic : ℕ
  pub version : ℕ
  pub tombstone : ℕ
  pub reserved : ℕ
  pub generation : ℕ
  pub checkpoint : Checkpoint
  pub crc32 : ℕ

-- The entries "v3a" and "v3b".
pub record Entries : Type 0 where
  pub v3a : Option Stored
  pub v3b : Option Stored

unfoldable pub zero_checkpoint : Checkpoint
zero_checkpoint = record {
  phase = 0;
  reserved = replicate 3 0;
  operation_id = replicate 16 0;
  artifact_id = replicate 32 0;
  signature = replicate 64 0;
  signed_fields_len = 0;
  signed_fields = replicate 1024 0;
  partition_label = replicate 17 0;
  resume = record {
    next_block_index = 0;
    raw_offset = 0;
    encoded_offset = 0;
    block_chain = replicate 32 0;
    image_prefix_sha256 = replicate 32 0;
  };
}

-- `CHECKPOINT_MAGIC`, `CHECKPOINT_VERSION`, and `CHECKPOINT_INTERVAL` by default.
abbrev pub checkpoint_magic : ℕ
checkpoint_magic = 0x334f544b

abbrev pub checkpoint_version : ℕ
checkpoint_version = 2

abbrev pub checkpoint_interval : ℕ
checkpoint_interval = 65536

abbrev pub full_block_size : ℕ
full_block_size = 16384

abbrev pub max_image_size : ℕ
max_image_size = 8 * 1024 * 1024

abbrev pub max_package_size : ℕ
max_package_size = 16 * 1024 * 1024

abbrev pub max_block_count : ℕ
max_block_count = 1024

abbrev pub transferring : ℕ
transferring = 1

abbrev pub boot_pending : ℕ
boot_pending = 3

-- `memchr(label, 0, sizeof(label)) != NULL`
abbrev pub has_nul : List ℕ → Bool
has_nul [] = false
has_nul (b ∷ label) = (b == 0) || has_nul label

-- The tests that `record_valid` and `checkpoint_save` share, without those of the resume point.
abbrev pub head_valid : Checkpoint → Bool
head_valid c =
    leb transferring c.phase
    && leb c.phase boot_pending
    && not (c.signed_fields_len == 0)
    && leb c.signed_fields_len 1024
    && not (get_or c.partition_label 0 0 == 0)
    && has_nul c.partition_label

-- The resume point once everything is transferred, and while it is not.
abbrev pub done_valid : ResumePoint → Bool
done_valid r =
    ltb 0 r.raw_offset
    && leb r.raw_offset max_image_size
    && ltb 0 r.encoded_offset
    && leb r.encoded_offset max_package_size
    && ltb 0 r.next_block_index
    && leb r.next_block_index max_block_count

abbrev pub transfer_valid : ResumePoint → Bool
transfer_valid r =
    ltb 0 r.next_block_index
    && ltb r.next_block_index max_block_count
    && ltb 0 r.raw_offset
    && (r.raw_offset % checkpoint_interval == 0)
    && (r.next_block_index * full_block_size == r.raw_offset)
    && leb r.raw_offset max_image_size
    && ltb 0 r.encoded_offset
    && leb r.encoded_offset max_package_size

abbrev pub resume_valid : Checkpoint → Bool
resume_valid c =
    if not (c.phase == transferring) then done_valid c.resume else transfer_valid c.resume

-- `checkpoint_key`
abbrev pub is_v3a : ℕ → Bool
is_v3a generation = generation % 2 == 1

abbrev pub set_entry : Entries → ℕ → Option Stored → Entries
set_entry e generation r = if is_v3a generation then record e { v3a = r } else record e { v3b = r }

-- `newer`: the difference as `int32_t` is positive.
abbrev pub newer : ℕ → ℕ → Bool
newer a b = ltb 0 (sub32 a b) && ltb (sub32 a b) (2 ^ 31)

-- The choice of `latest_record` between the two records that were read.
abbrev pub choose : Option Stored → Option Stored → Option Stored
choose none second = second
choose (some r) none = some r
choose (some r) (some s) = if newer s.generation r.generation then some s else some r

-- What `checkpoint_load` makes of the latest record.
abbrev pub loaded : Option Stored → Esp × Option Checkpoint
loaded none = (not_found, none)
loaded (some r) = if not (r.tombstone == 0) then (not_found, none) else (ok, some r.checkpoint)

-- `ESP_ERR_NVS_NOT_FOUND` of `nvs_open` is `ESP_ERR_NOT_FOUND`.
abbrev pub open_error : Esp → Esp
open_error (other n) = if n == 0x1102 then not_found else other n
open_error err = err

abbrev pub next_generation : Option Stored → ℕ
next_generation none = 1
next_generation (some r) = if u32 (r.generation + 1) == 0 then 1 else u32 (r.generation + 1)

-- The record that `write_record` fills, without its checksum; a tombstone is `none`.
abbrev pub unsealed : ℕ → Option Checkpoint → Stored
unsealed generation none = record {
  magic = checkpoint_magic;
  version = checkpoint_version;
  tombstone = 1;
  reserved = 0;
  generation = generation;
  checkpoint = zero_checkpoint;
  crc32 = 0;
}
unsealed generation (some c) = record {
  magic = checkpoint_magic;
  version = checkpoint_version;
  tombstone = 0;
  reserved = 0;
  generation = generation;
  checkpoint = c;
  crc32 = 0;
}

-- `esp_rom_crc32_le` of the bytes before the checksum is a parameter.
module _ (crc : Stored → ℕ) where
  -- `record_valid`
  unfoldable pub record_valid : Stored → Bool
  record_valid r =
      (r.magic == checkpoint_magic)
      && (r.version == checkpoint_version)
      && leb r.tombstone 1
      && not (r.generation == 0)
      && (crc r == r.crc32)
      && (not (r.tombstone == 0) || (head_valid r.checkpoint && resume_valid r.checkpoint))

  -- `read_record`
  abbrev pub checked : Option Stored → Option Stored
  checked none = none
  checked (some r) = if record_valid r then some r else none

  -- `latest_record`; `none` where nothing is found.
  unfoldable pub latest_record : Entries → Option Stored
  unfolding record_valid
  latest_record e = choose (checked e.v3a) (checked e.v3b)

  -- `keemash_ota_v3_checkpoint_load`, for what `nvs_open` answered.
  unfoldable pub load : Entries → Esp → Esp × Option Checkpoint
  unfolding latest_record
  load e opened = if not (is_ok opened) then (open_error opened, none) else loaded (latest_record e)

  abbrev pub filled_record : ℕ → Option Checkpoint → Stored
  filled_record generation c = let r = unsealed generation c in record r { crc32 = crc r }

  -- `write_record`: the answers of `nvs_open`, `nvs_set_blob` and `nvs_commit` are arguments.
  unfoldable pub write_record : Entries → Option Checkpoint → Esp → Esp → Esp → Entries × Esp
  unfolding latest_record
  write_record e c opened stored committed =
      let generation = next_generation (latest_record e) in
      if not (is_ok opened)
      then (e, opened)
      else if not (is_ok stored)
      then (e, stored)
      else (set_entry e generation (some (filled_record generation c)), committed)

  -- `keemash_ota_v3_checkpoint_save`
  unfoldable pub save : Entries → Checkpoint → Esp → Esp → Esp → Entries × Esp
  unfolding write_record
  save e c opened stored committed =
      if not (head_valid c && resume_valid c)
      then (e, invalid_arg)
      else write_record e (some c) opened stored committed

  -- `keemash_ota_v3_checkpoint_clear`
  unfoldable pub clear : Entries → Esp → Esp → Esp → Entries × Esp
  unfolding write_record
  clear e opened stored committed = write_record e none opened stored committed
