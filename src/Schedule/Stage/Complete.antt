-- ===== src/Schedule/Stage/Complete.antt =====
-- What keemash_weekly_schedule.c puts into force was staged completely.
use Prim.Native.Nat.{bit_or}
use native.Mathlib.Nat.{pow-suc}
use keemash_core.Base.{
  ℕ, zero, suc, ◌-◌, ◌^◌, ◌≤◌, ◌<◌, ◌≡◌, ◌≢◌, refl, ap, sym, subst, ◌∙◌, Bool, true, ◌&&◌, Option,
  none, some, List, [], ◌∷◌, arith, ◌==◌, ==_iff, inl, inr, Option-cases, if_false, if_either,
  if◌then◌else◌, length, length-set, get_elem?, get_elem?-set_self, get_elem?-set_ne, ℕ-cases, set,
  u8, leb, sub32,
}
use keemash_core.Base.Bits.{bit, bit-bit_or, bit_or-lt, bit-pow, bit_ones, pow_le}
use keemash_core.Schedule.{Point, config_valid}
use keemash_core.Schedule.Stage.{Stage, Schedule, expire_stage, begun, with_point, expected_mask}

-- What the last accepted `stage_begin` announced, and the points that were accepted since, the last
-- first, each with its index.
pub record Received : Type 0 where
  pub count : ℕ
  pub enabled : Bool
  pub persistence_enabled : Bool
  pub points : List (ℕ × Point)

-- The last point that was accepted for an index.
abbrev last_for : ℕ → List (ℕ × Point) → Option Point
last_for i [] = none
last_for i ((j, p) ∷ points) = if i == j then some p else last_for i points

abbrev pub received_at : ℕ → Received → Option Point
received_at i received = last_for i received.points

abbrev pub with_received : ℕ → Point → Received → Received
with_received index p received = record received { points = (index, p) ∷ received.points }

-- The stage agrees with what was announced and received: a point stands at its index, and a bit of the mask is set
-- only for a point that was received.
pub record StageInv (g : Stage) (received : Received) : Type 0 where
  pub size : length g.config.points ≡ 8
  pub few : g.config.count ≤ 8
  pub count : g.config.count ≡ received.count
  pub enabled : g.config.enabled ≡ received.enabled
  pub persistence_enabled : g.config.persistence_enabled ≡ received.persistence_enabled
  pub mask : g.received_mask < 2 ^ 8
  pub held :
      (i : ℕ) (p : Point) → received_at i received ≡ some p → get_elem? g.config.points i ≡ some p
  pub missing : (i : ℕ) → received_at i received ≡ none → bit g.received_mask i ≡ 0

-- The state of a schedule whose active stage agrees with what was received.
abbrev pub Staged : Schedule → Received → Type 0
Staged s received = s.stage.active ≡ true → StageInv s.stage received

-- The configuration in force is valid.
abbrev pub InForce : Schedule → Type 0
InForce s = config_valid s.max_action s.config ≡ true

bit-zero : (i : ℕ) → bit 0 i ≡ 0
bit-zero zero = refl
bit-zero (suc i) = bit-zero i

pub begun-StageInv :
    (s : Schedule) (now generation count : ℕ) (enabled persistence_enabled : Bool)
    → count ≤ 8
    → StageInv (begun s now generation count enabled persistence_enabled).stage (record {
      count = count;
      enabled = enabled;
      persistence_enabled = persistence_enabled;
      points = [];
    })
begun-StageInv s now generation count enabled persistence_enabled h = record {
  size = refl;
  few = h;
  count = refl;
  enabled = refl;
  persistence_enabled = refl;
  mask = omega arith;
  held = λ i p e. absurd (ground (arith, e));
  missing = λ i e. bit-zero i;
}

-- A byte with one more bit.
mask_lem :
    (mask index : ℕ)
    → mask < 2 ^ 8
    → index < 8
    → (u8 (bit_or mask (u8 (2 ^ index))) < 2 ^ 8)
      × ((i : ℕ) → i ≢ index → bit mask i ≡ 0 → bit (u8 (bit_or mask (u8 (2 ^ index)))) i ≡ 0)
mask_lem mask index m h =
    let small : 2 ^ index < 2 ^ 8 =
      omega (arith, pow_le (suc index) 8 h, pow-suc 2 index, pow_le 0 index (omega arith)) in
    let byte : u8 (2 ^ index) ≡ 2 ^ index = omega (arith, small) in
    let fits = bit_or-lt 8 mask (2 ^ index) m small in
    let whole : u8 (bit_or mask (u8 (2 ^ index))) ≡ bit_or mask (2 ^ index) =
      ap (λ (b : ℕ). u8 (bit_or mask b)) byte ∙ omega (arith, fits) in
    (
      omega arith,
      λ i n z.
          ap (λ (b : ℕ). bit b i) whole
          ∙ omega (arith, bit-bit_or i mask (2 ^ index), bit-pow index i (λ e. n (sym e)), z),
    )

pub with_point-StageInv :
    (s : Schedule) (index : ℕ) (p : Point) (received : Received)
    → index < s.stage.config.count
    → StageInv s.stage received
    → StageInv (with_point s index p).stage (with_received index p received)
with_point-StageInv s index p received h v =
    let bits = mask_lem s.stage.received_mask index v.mask (omega (arith, h, v.few)) in
    record {
      size = omega (arith, v.size, length-set s.stage.config.points index p);
      few = v.few;
      count = v.count;
      enabled = v.enabled;
      persistence_enabled = v.persistence_enabled;
      mask = bits.0;
      held = λ i q e. elim (ℕ-cases i index) [
        | inl same ↦
            let here : p ≡ q = ground (arith, e, ==_iff i index, same) in
            subst (λ j. get_elem? (set s.stage.config.points index p) j ≡ some q) (sym same)
              (get_elem?-set_self s.stage.config.points index p (omega (arith, v.size, v.few, h))
                ∙ ap some here)
        | inr ne ↦
            get_elem?-set_ne s.stage.config.points p (λ x. ne (sym x))
            ∙ v.held i q (ground (arith, e, ==_iff i index, ne))
      ];
      missing = λ i e. elim (ℕ-cases i index) [
        | inl same ↦ absurd (ground (arith, e, ==_iff i index, same))
        | inr ne ↦ bits.1 i ne (v.missing i (ground (arith, e, ==_iff i index, ne)))
      ];
    }

pub expire-Staged :
    (s : Schedule) (now : ℕ) (received : Received)
    → Staged s received
    → Staged (expire_stage s now) received
unfolding expire_stage
expire-Staged s now received h =
    if_either (λ t. Staged t received)
      (s.stage.active && leb s.stage_timeout_ms (sub32 now s.stage.started_ms))
      (λ _ e. absurd (ground (arith, e))) (λ _. h)

pub expire-same :
    (s : Schedule) (now : ℕ)
    → ((expire_stage s now).config ≡ s.config) × ((expire_stage s now).max_action ≡ s.max_action)
unfolding expire_stage
expire-same s now =
    if_either (λ (t : Schedule). (t.config ≡ s.config) × (t.max_action ≡ s.max_action))
      (s.stage.active && leb s.stage_timeout_ms (sub32 now s.stage.started_ms)) (λ _. (refl, refl))
      (λ _. (refl, refl))

bit_expected : (count i : ℕ) → i < count → count ≤ 8 → bit (expected_mask count) i ≡ 1
bit_expected zero i h few = absurd (omega arith)
bit_expected (suc c) i h few =
    let small : 2 ^ suc c ≤ 2 ^ 8 = pow_le (suc c) 8 few in
    let whole : expected_mask (suc c) ≡ 2 ^ suc c - 1 =
      if_false {b = suc c == 0} 0 (u8 (2 ^ suc c - 1)) (ground arith) ∙ omega (arith, small) in
    ap (λ (m : ℕ). bit m i) whole ∙ bit_ones (suc c) i h

-- If every bit of the expected mask is set, then every point was received.
pub all_received :
    (g : Stage) (received : Received)
    → StageInv g received
    → g.received_mask ≡ expected_mask g.config.count
    → (i : ℕ) → i < g.config.count
    → (p : Point) × (received_at i received ≡ some p) × (get_elem? g.config.points i ≡ some p)
all_received g received v e i h = elim (Option-cases (received_at i received)) [
  | inr (p, r) ↦ (p, r, v.held i p r)
  | inl r ↦ absurd (
      omega
        (arith, v.missing i r, ap (λ (m : ℕ). bit m i) e, bit_expected g.config.count i h v.few))
]
