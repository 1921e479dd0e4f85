-- ===== src/Resampler/Trace.antt =====
-- Runs of `ow_resampler_compute_ratios` of src/resampler.c from the moment the resampler boots, with
-- whatever else the host and the engine do between two cycles.
use mathlib.Core.Path.{subst, sym}
use overwitch.Prelude.{ℕ, ◌+◌, ◌-◌, ◌^◌, ◌≤◌, ◌<◌, ◌≡◌, refl, Bool, some, Runs-result, arith}
use overwitch.Numeric.{Floats, Doubles}
use overwitch.Engine.Rings.{Rings}
use overwitch.Resampler.State.{ResamplerStatus, boot, tune, run, retune, Resampler}
use overwitch.Resampler.Ratios.{Cycle, elapsed, booting_period_us, tuning_period_us, compute_ratios}
use overwitch.Resampler.Graph.{Observation, Phase, next_of, next, phase, observe}
use overwitch.Resampler.Cycles.{compute_ratios-Follows}

elapsed_lem : (start now : ℕ) → start ≤ now → now < 2 ^ 64 → elapsed now start ≡ now - start
elapsed_lem start now h k = omega arith

-- What holds `t` microseconds into a run whose boot was at `begun`.
TimelyAt : ℕ → ℕ → ℕ → ResamplerStatus → Type 0
TimelyAt begun t start boot = start ≡ begun
TimelyAt begun t start tune = begun + booting_period_us < start
TimelyAt begun t start run = begun + booting_period_us + tuning_period_us < t
TimelyAt begun t start retune = begun + booting_period_us + tuning_period_us < t
TimelyAt begun t start _ = ⊥

abbrev Timely : ℕ → ℕ → Phase → Type 0
Timely begun t p = (p.start ≤ t) × TimelyAt begun t p.start p.status

next-Timely :
    (begun t : ℕ) (o : Observation) (p : Phase)
    → t ≤ o.now
    → o.now < 2 ^ 64
    → Timely begun t p
    → Timely begun o.now (next o p)
unfolding TimelyAt next_of
next-Timely begun t o p h k v =
    let e : elapsed o.now p.start ≡ o.now - p.start =
      elapsed_lem p.start o.now (omega (arith, v.0)) k in
    ground (arith, e)

module _ (N : Doubles) (F : Floats) (R : Rings F.Float) where
  open F use {Float}
  open R use {Ring}

  -- `After begun t r`: `r` is where the resampler can be at `t`, having booted at `begun`.
  pub data After (begun : ℕ) : ℕ → Resampler N Float Ring → Type 0 where
    booted :
        {r : Resampler N Float Ring}
        → r.status ≡ boot
        → r.phase_start_usecs ≡ begun
        → After begun begun r
    cycle :
        {t : ℕ} {r : Resampler N Float Ring} (now : ℕ) (xrun : Bool)
        (c : Cycle (Resampler N Float Ring))
        → After begun t r
        → t ≤ now
        → now < 2 ^ 64
        → 0 < r.o2h_frame_size
        → compute_ratios N F R r now xrun ≡ some c
        → After begun now c.resampler
    -- The callbacks of the two directions and the engine, which keep the phase.
    other :
        {t : ℕ} {r : Resampler N Float Ring} (r' : Resampler N Float Ring)
        → After begun t r
        → phase N F R r' ≡ phase N F R r
        → After begun t r'

  cycle-Timely :
      (begun t : ℕ) (r : Resampler N Float Ring) (now : ℕ) (xrun : Bool)
      (c : Cycle (Resampler N Float Ring))
      → t ≤ now
      → now < 2 ^ 64
      → 0 < r.o2h_frame_size
      → compute_ratios N F R r now xrun ≡ some c
      → Timely begun t (phase N F R r)
      → Timely begun now (phase N F R c.resampler)
  cycle-Timely begun t r now xrun c h k z e v =
      let f =
        Runs-result _ (compute_ratios N F R r now xrun) c
          (compute_ratios-Follows N F R now xrun r z) e in
      subst (λ p. Timely begun now p) (sym f.moves)
        (next-Timely begun t (observe N F R r now xrun) (phase N F R r) h k v)

  After-Timely :
      {begun t : ℕ} {r : Resampler N Float Ring} → After begun t r → Timely begun t (phase N F R r)
  unfolding TimelyAt
  After-Timely {r} (booted h k) = rw (h, k) (omega arith, refl)
  After-Timely (cycle now xrun c a h k z e) = cycle-Timely _ _ _ now xrun c h k z e (After-Timely a)
  After-Timely {begun} {t} (other r' a h) = subst (λ p. Timely begun t p) (sym h) (After-Timely a)

  -- From the boot of the resampler on, with a clock that never goes back and stays below 2 ^ 64,
  -- whatever else changes between two cycles as long as it keeps the phase: the resampler runs
  -- only when more than seven seconds have passed.
  pub After-run :
      {begun t : ℕ} {r : Resampler N Float Ring}
      → After begun t r
      → r.status ≡ run
      → begun + 7_000_000 < t
  unfolding TimelyAt
  After-run {begun} {t} {r} a h =
      subst (λ s. TimelyAt begun t r.phase_start_usecs s → begun + 7_000_000 < t) (sym h)
        (λ v. omega (arith, v)) (After-Timely a).1
