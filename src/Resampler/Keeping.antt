-- ===== src/Resampler/Keeping.antt =====
-- `ow_resampler_compute_ratios` of src/resampler.c keeps the sizes of the buffers.
use overwitch.Prelude.{
  ℕ, ◌≤◌, ◌≡◌, ◌==◌, Bool, Runs, Runs-some, Runs-if, Runs-bind, ltb, leb, arith,
}
use overwitch.Numeric.{Floats, Doubles}
use overwitch.Dll.{is_tuned}
use overwitch.Engine.Rings.{Rings}
use overwitch.Engine.Status
use overwitch.Engine.Status.{EngineStatus}
use overwitch.Resampler.State.{
  is_ready, is_tuning, is_running, ResamplerStatus, Resampler, report_state,
}
use overwitch.Resampler.Buffers.{clear_resampler}
use overwitch.Resampler.Clearing.{clear_resampler-Runs}
use overwitch.Resampler.Ratios.{
  elapsed, tuning_period_us, set_ratios_from_dll, try_tune, try_run, try_retune, log_cycle,
  begin_boot, measure_error, await_engine, follow, compute_ratios,
}
use overwitch.Resampler.Room.{HasRoom}

module _ (N : Doubles) (F : Floats) (R : Rings F.Float) (inputs outputs : ℕ) where
  open N use {lit}
  open F use {Float}
  open R use {Ring}

  -- The buffers keep their sizes, and no more is queued.
  pub record Keeps (r r' : Resampler N Float Ring) : Type 0 where
    pub room : HasRoom N F R inputs outputs r'
    pub same_bufsize : r'.bufsize ≡ r.bufsize
    pub queued : r'.h2o_queue_len ≤ r.h2o_queue_len

  clear_resampler-Keeps :
      (r₀ r : Resampler N Float Ring) → Keeps r₀ r → Runs (clear_resampler N F R r) (Keeps r₀)
  clear_resampler-Keeps r₀ r k =
      clear_resampler-Runs N F R r (Keeps r₀) (omega (arith, k.room)) (λ ring. ground (arith, k))

  try_tune-Keeps :
      (r₀ : Resampler N Float Ring) (s : ResamplerStatus) (now : ℕ) (r : Resampler N Float Ring)
      → Keeps r₀ r
      → Keeps r₀ (try_tune N F R s now r)
  unfolding try_tune
  try_tune-Keeps r₀ s now r k = ground (arith, k)

  log_cycle-Keeps : (r₀ r : Resampler N Float Ring) → Keeps r₀ r → Keeps r₀ (log_cycle N F R r)
  unfolding log_cycle report_state
  log_cycle-Keeps r₀ r k = ground (arith, k)

  try_run-Keeps :
      (r₀ : Resampler N Float Ring) (s : ResamplerStatus) (now : ℕ) (b : Bool)
      (r : Resampler N Float Ring)
      → Keeps r₀ r
      → Runs (try_run N F R s now b r) (λ p. Keeps r₀ p.1)
  unfolding try_run
  try_run-Keeps r₀ s now b r k =
      Runs-if _ (is_tuning s) _ _
        (λ _.
          Runs-if _ b _ _ (λ _. Runs-some _ _ (ground (arith, k)))
            (λ _.
              Runs-if _ (ltb tuning_period_us (elapsed now r.phase_start_usecs)) _ _
                (λ _.
                  Runs-if _ (is_tuned N r.dll (lit 1 100_000)) _ _
                    (λ _.
                      Runs-bind _ (clear_resampler N F R _) _ (Keeps r₀)
                        (clear_resampler-Keeps r₀ _ (ground (arith, k))) (λ c q. Runs-some _ _ q))
                    (λ _. Runs-some _ _ k))
                (λ _. Runs-some _ _ k)))
        (λ _. Runs-some _ _ k)

  try_retune-Keeps :
      (r₀ : Resampler N Float Ring) (s : ResamplerStatus) (now : ℕ) (b : Bool)
      (r : Resampler N Float Ring)
      → Keeps r₀ r
      → Runs (try_retune N F R s now b r) (Keeps r₀)
  unfolding try_retune
  try_retune-Keeps r₀ s now b r k =
      Runs-if _ (is_running s) _ _
        (λ _.
          Runs-if _ b _ _
            (λ _.
              Runs-bind _ (clear_resampler N F R _) _ (Keeps r₀)
                (clear_resampler-Keeps r₀ _ (ground (arith, k)))
                (λ c q. Runs-some _ _ (ground (arith, q))))
            (λ _. Runs-some _ _ k))
        (λ _. Runs-some _ _ k)

  follow-Keeps :
      (r₀ : Resampler N Float Ring) (s : ResamplerStatus) (now : ℕ) (xrun : Bool)
      (r : Resampler N Float Ring)
      → Keeps r₀ r
      → Runs (follow N F R s now xrun r) (λ c. Keeps r₀ c.resampler)
  unfolding follow set_ratios_from_dll
  follow-Keeps r₀ s now xrun r k =
      Runs-bind _ (try_run N F R s now _ _) _ (λ p. Keeps r₀ p.1)
        (try_run-Keeps r₀ s now _ _ (try_tune-Keeps r₀ s now _ (ground (arith, k))))
        (λ p q.
          Runs-bind _ (try_retune N F R s now _ p.1) _ (Keeps r₀)
            (try_retune-Keeps r₀ s now _ p.1 q)
            (λ lost l. Runs-some _ _ (log_cycle-Keeps r₀ lost l)))

  measured-Keeps :
      (now : ℕ) (r : Resampler N Float Ring)
      → HasRoom N F R inputs outputs r
      → Keeps r (measure_error N F R now r)
  unfolding measure_error
  measured-Keeps now r v = ground (arith, v)

  await_engine-Keeps :
      (r : Resampler N Float Ring)
      → HasRoom N F R inputs outputs r
      → Keeps r (await_engine N F R r).resampler
  unfolding await_engine
  await_engine-Keeps r v = ground (arith, v)

  begin_boot-Keeps :
      (r₀ : Resampler N Float Ring) (now : ℕ) (r : Resampler N Float Ring)
      → Keeps r₀ r
      → Keeps r₀ (begin_boot N F R now r)
  unfolding begin_boot report_state
  begin_boot-Keeps r₀ now r k = ground (arith, k)

  -- A cycle of the ratios returns and keeps the sizes of the buffers.
  pub compute_ratios-Keeps :
      (now : ℕ) (xrun : Bool) (r : Resampler N Float Ring)
      → HasRoom N F R inputs outputs r
      → Runs (compute_ratios N F R r now xrun) (λ c. Keeps r c.resampler)
  unfolding compute_ratios
  compute_ratios-Keeps now xrun r v =
      let measured : Keeps r (measure_error N F R now r) = measured-Keeps now r v in
      Runs-if _ (is_ready r.status) _ _
        (λ _.
          Runs-if _ (leb (Status.level r.engine.status) 4) _ _
            (λ _. Runs-some _ _ (await_engine-Keeps r v))
            (λ _.
              Runs-if _ (Status.level r.engine.status == 6) _ _
                (λ _. Runs-some _ _ (begin_boot-Keeps r now _ measured))
                (λ _. follow-Keeps r r.status now xrun _ measured)))
        (λ _. follow-Keeps r r.status now xrun _ measured)
