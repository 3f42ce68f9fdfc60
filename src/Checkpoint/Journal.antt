-- ===== src/Checkpoint/Journal.antt =====
-- keemash_ota_v3_checkpoint.c as a register: what every sequence of calls, and of writes that end half
-- done, leaves to be loaded.
use keemash_core.Base.{
  ℕ, ◌+◌, ◌^◌, ◌<◌, ◌≡◌, refl, sym, ap, ◌∙◌, subst, Bool, true, false, not, ◌&&◌, Option, none,
  some, arith, Bool-cases, ==_iff, if_true, if_false, if_either, if◌then◌else◌, inl, inr, ◌==◌,
}
use keemash_core.Proto.{Esp, ok, is_ok, not_found}
use keemash_core.Checkpoint.{
  Checkpoint, Stored, Entries, head_valid, resume_valid, set_entry, choose, loaded, next_generation,
  unsealed, record_valid, checked, latest_record, load, filled_record, write_record, save, clear,
  is_v3a,
}
use keemash_core.Checkpoint.Latest.{
  InJournal, put, Latest, written-Latest, torn-Latest, generation_of,
}

-- What a load answers while this is stored.
abbrev pub answer : Option Checkpoint → Esp × Option Checkpoint
answer none = (not_found, none)
answer (some c) = (ok, some c)

-- The register after a write with these answers of `nvs_open` and `nvs_set_blob`.
abbrev pub register : Bool → Option Checkpoint → Option Checkpoint → Esp → Esp → Option Checkpoint
register valid old new opened stored = if valid && (is_ok opened && is_ok stored) then new else old

module _ (crc : Stored → ℕ) where
  -- The entries and the register after any calls, answered in any way. `tears` is a write that ended
  -- with something in its entry that `record_valid` refuses.
  pub data CheckpointReach : Entries → Option Checkpoint → Type 0 where
    erased : CheckpointReach (record { v3a = none; v3b = none }) none
    saves :
        {e : Entries} {v : Option Checkpoint}
        → CheckpointReach e v
        → (c : Checkpoint) (opened stored committed : Esp)
        → CheckpointReach
            (save crc e c opened stored committed).0
            (register (head_valid c && resume_valid c) v (some c) opened stored)
    clears :
        {e : Entries} {v : Option Checkpoint}
        → CheckpointReach e v
        → (opened stored committed : Esp)
        → CheckpointReach
            (clear crc e opened stored committed).0
            (register true v none opened stored)
    tears :
        {e : Entries} {v : Option Checkpoint}
        → CheckpointReach e v
        → (half : Option Stored) → checked crc half ≡ none
        → generation_of (latest_record crc e) + 1 < 2 ^ 32
        → CheckpointReach (set_entry e (next_generation (latest_record crc e)) half) v

  abbrev pub entries : Entries → Option Stored × Option Stored
  entries e = (checked crc e.v3a, checked crc e.v3b)

  entries-set_entry :
      (e : Entries) (g : ℕ) (x : Option Stored)
      → entries (set_entry e g x) ≡ put (checked crc e.v3a) (checked crc e.v3b) g (checked crc x)
  unfolding record_valid
  entries-set_entry e g x = elim (Bool-cases (is_v3a g)) [ inl odd ↦ rw odd | inr even ↦ rw even ]

  -- The entries are in order and hold this register.
  abbrev pub Holds : Entries → Option Checkpoint → Type 0
  Holds e v =
      InJournal (checked crc e.v3a) (checked crc e.v3b)
      × (loaded (choose (checked crc e.v3a) (checked crc e.v3b)) ≡ answer v)

  module _ (own : (r : Stored) (x : ℕ) → crc (record r { crc32 = x }) ≡ crc r) where
    cleared_valid :
        (g : ℕ) → not (g == 0) ≡ true → record_valid crc (filled_record crc g none) ≡ true
    unfolding record_valid
    cleared_valid g h =
        let seal =
          (==_iff (crc (filled_record crc g none)) (crc (unsealed g none))).1
            (own (unsealed g none) (crc (unsealed g none))) in
        λ i. h i && seal i && true

    saved_valid :
        (g : ℕ) (c : Checkpoint)
        → not (g == 0) ≡ true
        → (head_valid c && resume_valid c) ≡ true
        → record_valid crc (filled_record crc g (some c)) ≡ true
    unfolding record_valid
    saved_valid g c h good =
        let seal =
          (==_iff (crc (filled_record crc g (some c))) (crc (unsealed g (some c)))).1
            (own (unsealed g (some c)) (crc (unsealed g (some c)))) in
        λ i. h i && seal i && good i

    generation_lem : (g : ℕ) (c : Option Checkpoint) → (filled_record crc g c).generation ≡ g
    generation_lem g none = refl
    generation_lem g (some c) = refl

    -- The entries after something is put where the next record goes.
    put-Holds :
        (e : Entries) (g : ℕ) (x latest : Option Stored) (v : Option Checkpoint)
        → Latest latest (put (checked crc e.v3a) (checked crc e.v3b) g (checked crc x))
        → loaded latest ≡ answer v
        → Holds (set_entry e g x) v
    put-Holds e g x latest v h same =
        subst
          (λ (p : Option Stored × Option Stored).
            InJournal p.0 p.1 × (loaded (choose p.0 p.1) ≡ answer v))
          (sym (entries-set_entry e g x)) (h.0, ap loaded h.1 ∙ same)

    -- A written record, for what it makes of the register.
    written-Holds :
        (e : Entries) (v new c : Option Checkpoint)
        → Holds e v
        → record_valid crc (filled_record crc (next_generation (latest_record crc e)) c) ≡ true
        → loaded (some (filled_record crc (next_generation (latest_record crc e)) c)) ≡ answer new
        → Holds
            (set_entry e
              (next_generation (latest_record crc e))
              (some (filled_record crc (next_generation (latest_record crc e)) c)))
            new
    unfolding latest_record
    written-Holds e v new c (j, h) good same =
        let a = checked crc e.v3a in
        let b = checked crc e.v3b in
        let g = next_generation (choose a b) in
        let r = filled_record crc g c in
        let w : Latest (some r) (put a b g (some r)) =
          subst (λ (n : ℕ). Latest (some r) (put a b n (some r))) (generation_lem g c)
            (written-Latest a b r j (generation_lem g c)) in
        put-Holds e g (some r) (some r) new
          (subst (λ (x : Option Stored). Latest (some r) (put a b g x))
            (sym (if_true (some r) none good)) w)
          same

    -- A call of `write_record`, for its answers.
    write-Holds :
        (e : Entries) (v new c : Option Checkpoint) (opened stored committed : Esp)
        → Holds e v
        → record_valid crc (filled_record crc (next_generation (latest_record crc e)) c) ≡ true
        → loaded (some (filled_record crc (next_generation (latest_record crc e)) c)) ≡ answer new
        → Holds (write_record crc e c opened stored committed).0 (register true v new opened stored)
    unfolding write_record
    write-Holds e v new c opened stored committed holds good same =
        let P : Entries × Esp → Type 0 =
          λ (p : Entries × Esp). Holds p.0 (register true v new opened stored) in
        let old : is_ok opened && is_ok stored ≡ false
            → Holds e (register true v new opened stored) =
          λ no. subst (Holds e) (sym (if_false new v no)) holds in
        if_either P (not (is_ok opened)) (λ bad. old (ground (arith, bad)))
          λ opens.
            if_either P (not (is_ok stored)) (λ bad. old (ground (arith, opens, bad)))
              λ stores.
                subst
                  (Holds (
                    set_entry e (next_generation (latest_record crc e))
                      (some (filled_record crc (next_generation (latest_record crc e)) c))))
                  (sym (if_true new v (ground (arith, opens, stores))))
                  (written-Holds e v new c holds good same)

    next_generation-positive : (v : Option Stored) → not (next_generation v == 0) ≡ true
    next_generation-positive none = refl
    next_generation-positive (some r) = ground arith

    save-Holds :
        (e : Entries) (v : Option Checkpoint) (c : Checkpoint) (opened stored committed : Esp)
        → Holds e v
        → Holds
            (save crc e c opened stored committed).0
            (register (head_valid c && resume_valid c) v (some c) opened stored)
    unfolding save
    save-Holds e v c opened stored committed holds =
        let P : Entries × Esp → Type 0 = λ (p : Entries × Esp).
          Holds p.0 (register (head_valid c && resume_valid c) v (some c) opened stored) in
        if_either P (not (head_valid c && resume_valid c))
          (λ bad. subst (Holds e) (sym (if_false (some c) v (ground (arith, bad)))) holds)
          λ good.
            let valid : head_valid c && resume_valid c ≡ true = ground (arith, good) in
            subst
              (λ (b : Bool).
                Holds (write_record crc e (some c) opened stored committed).0
                  (register b v (some c) opened stored))
              (sym valid)
              (write-Holds e v (some c) (some c) opened stored committed holds
                (saved_valid (next_generation (latest_record crc e)) c
                  (next_generation-positive (latest_record crc e)) valid)
                refl)

    reach-Holds : {e : Entries} {v : Option Checkpoint} → CheckpointReach e v → Holds e v
    unfolding clear latest_record
    reach-Holds erased = (tt, refl)
    reach-Holds (saves {e} {v} s c opened stored committed) =
        save-Holds e v c opened stored committed (reach-Holds s)
    reach-Holds (clears {e} {v} s opened stored committed) =
        write-Holds e v none none opened stored committed (reach-Holds s)
          (cleared_valid (next_generation (latest_record crc e))
            (next_generation-positive (latest_record crc e)))
          refl
    reach-Holds (tears {e} {v} s half bad more) =
        let a = checked crc e.v3a in
        let b = checked crc e.v3b in
        let holds = reach-Holds s in
        let g = next_generation (choose a b) in
        put-Holds e g half (choose a b) v
          (subst (λ (x : Option Stored). Latest (choose a b) (put a b g x)) (sym bad)
            (torn-Latest a b holds.0 more))
          holds.1

    -- After any calls of `save` and `clear`, answered in any way, and any writes that ended half done,
    -- a load answers what the register holds. A half-done write leaves something that `record_valid`
    -- refuses, and is not the one after generation 2^32 - 1. The checksum does not read itself.
    pub CheckpointReach-load :
        {e : Entries} {v : Option Checkpoint} → CheckpointReach e v → load crc e ok ≡ answer v
    unfolding load latest_record
    CheckpointReach-load s = (reach-Holds s).1

    joined : (a b c : Bool) → not a ≡ false → not b ≡ false → not c ≡ false → a && (b && c) ≡ true
    joined a b c h k l = ground (arith, h, k, l)

    accepted_lem :
        (e : Entries) (v : Option Checkpoint) (c : Checkpoint) (opened stored committed : Esp)
        → (save crc e c opened stored committed).1 ≡ ok
        → register (head_valid c && resume_valid c) v (some c) opened stored ≡ some c
    unfolding save write_record
    accepted_lem e v c opened stored committed =
        let P : Entries × Esp → Type 0 = λ (p : Entries × Esp).
          p.1 ≡ ok → register (head_valid c && resume_valid c) v (some c) opened stored ≡ some c in
        if_either P (not (head_valid c && resume_valid c))
          (λ bad answered. absurd (ground (arith, ap is_ok answered)))
          λ good.
            if_either P (not (is_ok opened))
              (λ bad answered. absurd (ground (arith, bad, ap is_ok answered)))
              λ opens.
                if_either P (not (is_ok stored))
                  (λ bad answered. absurd (ground (arith, bad, ap is_ok answered)))
                  λ stores _. if_true (some c) v (
                    joined (head_valid c && resume_valid c) (is_ok opened) (is_ok stored) good opens
                      stores)

    -- A checkpoint whose save answered ESP_OK is loaded as it was saved.
    pub save-load :
        {e : Entries} {v : Option Checkpoint}
        → CheckpointReach e v
        → (c : Checkpoint) (opened stored committed : Esp)
        → (save crc e c opened stored committed).1 ≡ ok
        → load crc (save crc e c opened stored committed).0 ok ≡ (ok, some c)
    save-load {e} {v} s c opened stored committed answered =
        CheckpointReach-load (saves s c opened stored committed)
        ∙ ap answer (accepted_lem e v c opened stored committed answered)
