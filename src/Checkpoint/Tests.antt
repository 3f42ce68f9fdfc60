-- ===== src/Checkpoint/Tests.antt =====
-- The two checkpoint entries on concrete runs.
use keemash_core.Base.{
  ℕ, ◌+◌, ◌*◌, ◌%◌, ◌^◌, ◌-◌, ◌≡◌, refl, arith, true, Option, none, some, ◌∷◌, replicate,
}
use keemash_core.Proto.{ok, invalid_arg, not_found, other}
use keemash_core.Checkpoint.{
  Checkpoint, Stored, Entries, zero_checkpoint, load, filled_record, save, newer, set_entry,
}
use keemash_core.Checkpoint.Journal.{erased, saves, tears, CheckpointReach-load, save-load}

-- A stand-in for the checksum.
abbrev sum32 : Stored → ℕ
sum32 r =
    (r.magic + r.version * 3 + r.tombstone * 5 + r.generation * 7 + r.checkpoint.resume.raw_offset)
    % 2 ^ 32

abbrev point : ℕ → Checkpoint
point n = record zero_checkpoint {
  phase = 1;
  signed_fields_len = 40;
  partition_label = 111 ∷ 116 ∷ 97 ∷ replicate 14 0;
  resume = record zero_checkpoint.resume {
    next_block_index = 4 * n;
    raw_offset = 65536 * n;
    encoded_offset = 30000 * n;
  };
}

abbrev no_entries : Entries
no_entries = record { v3a = none; v3b = none }

abbrev after_one : Entries
after_one = (save sum32 no_entries (point 1) ok ok ok).0

abbrev after_two : Entries
after_two = (save sum32 after_one (point 2) ok ok ok).0

-- A record of the next generation whose checksum is not its own.
abbrev half : Option Stored
half = some (record (filled_record sum32 2 (some (point 2))) { crc32 = 9 })

newer_wraps : newer 1 (2 ^ 32 - 2) ≡ true
newer_wraps = refl

load-no_entries : load sum32 no_entries ok ≡ (not_found, none)
unfolding load
load-no_entries = refl

load-unopened : load sum32 after_one (other 0x1102) ≡ (not_found, none)
unfolding load
load-unopened = refl

save-unaligned :
    (save sum32 no_entries
      (record (point 1) { resume = record (point 1).resume { raw_offset = 1 } })
      ok
      ok
      ok).1
    ≡ invalid_arg
unfolding save zero_checkpoint
save-unaligned = refl

load-after_two : load sum32 after_two ok ≡ (ok, some (point 2))
unfolding save load zero_checkpoint
load-after_two = refl

CheckpointReach-load_example : load sum32 (set_entry after_one 2 half) ok ≡ (ok, some (point 1))
unfolding save load zero_checkpoint
CheckpointReach-load_example =
    CheckpointReach-load sum32 (λ r x. refl)
      (tears (saves erased (point 1) ok ok ok) half refl (omega arith))

save-load_example : load sum32 after_two ok ≡ (ok, some (point 2))
unfolding save load zero_checkpoint
save-load_example =
    save-load sum32 (λ r x. refl) (saves erased (point 1) ok ok ok) (point 2) ok ok ok refl
