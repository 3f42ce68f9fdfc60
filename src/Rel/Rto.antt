-- ===== src/Rel/Rto.antt =====
-- `update_rto` of keemash_mesh_core.c: the timeout stays within its bounds, and no sum wraps.
use keemash_core.Base.{
  ℕ, ◌+◌, ◌-◌, ◌*◌, ◌/◌, ◌≤◌, ◌<◌, ◌≡◌, arith, u32, ltb, ap, sym, ◌∙◌, if_false, ◌||◌, ◌==◌,
}
use keemash_core.Rel.{Peer, Ctx}
use keemash_core.Rel.Sender.{update_rto, smoothed, deviation, clamp}

-- The estimates never exceed the longest round trip that is taken into account, a minute.
pub record IsEstimate (p : Peer) : Type 0 where
  pub srtt : p.srtt_ms ≤ 60000
  pub rttvar : p.rttvar_ms ≤ 60000

smoothed-le : (p : Peer) (sample : ℕ) → IsEstimate p → sample ≤ 60000 → smoothed p sample ≤ 60000
smoothed-le p sample v h = ground arith

deviation-le : (p : Peer) (sample : ℕ) → IsEstimate p → sample ≤ 60000 → deviation p sample ≤ 60000
deviation-le p sample v h = ground arith

clamp_bounds : (low high x : ℕ) → low ≤ high → (low ≤ clamp low high x) × (clamp low high x ≤ high)
clamp_bounds low high x h = ground arith

-- With a lower bound that is at most the upper, estimates within a minute and a timeout within the
-- bounds, every sample keeps the estimates within a minute and the timeout within the bounds.
pub update_rto_bounds :
    (ctx : Ctx) (p : Peer) (sample : ℕ)
    → ctx.cfg.min_rto_ms ≤ ctx.cfg.max_rto_ms
    → IsEstimate p
    → (ctx.cfg.min_rto_ms ≤ p.rto_ms) × (p.rto_ms ≤ ctx.cfg.max_rto_ms)
    → let p' = update_rto ctx p sample in
      IsEstimate p' × (ctx.cfg.min_rto_ms ≤ p'.rto_ms) × (p'.rto_ms ≤ ctx.cfg.max_rto_ms)
unfolding update_rto
update_rto_bounds ctx p sample b v h = ground (
  arith,
  smoothed-le p sample v,
  deviation-le p sample v,
  clamp_bounds ctx.cfg.min_rto_ms ctx.cfg.max_rto_ms
      (u32 (smoothed p sample + u32 (4 * deviation p sample))),
)

smoothed_exact :
    (p : Peer) (sample : ℕ)
    → IsEstimate p
    → sample ≤ 60000
    → 0 < p.srtt_ms
    → smoothed p sample ≡ (7 * p.srtt_ms + sample) / 8
smoothed_exact p sample v high old = ground arith

deviation_exact :
    (p : Peer) (sample : ℕ)
    → IsEstimate p
    → sample ≤ 60000
    → 0 < p.srtt_ms
    → deviation p sample ≡ (3 * p.rttvar_ms + ((p.srtt_ms - sample) + (sample - p.srtt_ms))) / 4
deviation_exact p sample v high old = ground arith

no_wrap :
    (p : Peer) (sample : ℕ)
    → smoothed p sample ≤ 60000
    → deviation p sample ≤ 60000
    → u32 (smoothed p sample + u32 (4 * deviation p sample))
      ≡ smoothed p sample + 4 * deviation p sample
no_wrap p sample a b = wide (smoothed p sample) (deviation p sample) a b
  where
    wide : (s d : ℕ) → s ≤ 60000 → d ≤ 60000 → u32 (s + u32 (4 * d)) ≡ s + 4 * d
    wide s d a b = omega arith

-- The peer after a sample that is taken into account.
abbrev sampled : Ctx → Peer → ℕ → Peer
sampled ctx p sample = record p {
  srtt_ms = smoothed p sample;
  rttvar_ms = deviation p sample;
  rto_ms =
      clamp ctx.cfg.min_rto_ms ctx.cfg.max_rto_ms
        (u32 (smoothed p sample + u32 (4 * deviation p sample)));
}

updates :
    (ctx : Ctx) (p : Peer) (sample : ℕ)
    → 0 < sample
    → sample ≤ 60000
    → update_rto ctx p sample ≡ sampled ctx p sample
unfolding update_rto
updates ctx p sample low high = if_false {b = (sample == 0) || ltb 60000 sample} p _ (ground arith)

-- With the estimates within a minute no 32-bit operation of `update_rto` wraps: a sample from 1 ms
-- to a minute after the first sets `srtt` and `rttvar` to the weighted means, and the timeout to
-- `srtt + 4 * rttvar`, bounded.
pub update_rto_exact :
    (ctx : Ctx) (p : Peer) (sample : ℕ)
    → IsEstimate p
    → 0 < sample
    → sample ≤ 60000
    → 0 < p.srtt_ms
    → let p' = update_rto ctx p sample in
      (p'.srtt_ms ≡ (7 * p.srtt_ms + sample) / 8)
      × (p'.rttvar_ms ≡ (3 * p.rttvar_ms + ((p.srtt_ms - sample) + (sample - p.srtt_ms))) / 4)
      × (p'.rto_ms ≡ clamp ctx.cfg.min_rto_ms ctx.cfg.max_rto_ms (p'.srtt_ms + 4 * p'.rttvar_ms))
update_rto_exact ctx p sample v low high old =
    let mean = smoothed_exact p sample v high old in
    let spread = deviation_exact p sample v high old in
    let run = updates ctx p sample low high in
    (
      ap (λ q. q.srtt_ms) run ∙ mean,
      ap (λ q. q.rttvar_ms) run ∙ spread,
      ap (λ q. q.rto_ms) run
          ∙ (ap (clamp ctx.cfg.min_rto_ms ctx.cfg.max_rto_ms)
                (no_wrap p sample (smoothed-le p sample v high) (deviation-le p sample v high))
              ∙ sym (
                  ap
                    (λ q. clamp ctx.cfg.min_rto_ms ctx.cfg.max_rto_ms (q.srtt_ms + 4 * q.rttvar_ms))
                    run)),
    )
