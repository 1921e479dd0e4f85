-- ===== src/Resampler/Cycles.antt =====
-- `ow_resampler_compute_ratios` of src/resampler.c against the machine of Graph.
use overwitch.Resampler.Graph.Facts.{Tuning_lem, idle_lem, level_lem, ready_lem, wait_lem, wait_is}
use overwitch.Resampler.Clearing.{clear_resampler_lem}
use overwitch.Prelude.{
  ℕ, ◌<◌, ◌≡◌, ◌==◌, ◌&&◌, ◌||◌, refl, Bool, true, false, Runs, Runs-some, Runs-if, Runs-bind, ltb,
  leb, if◌then◌else◌, arith,
}
use overwitch.Numeric.{Floats, Doubles}
use overwitch.Dll.{host_load_dll_overbridge, host_update_error, host_update, is_tuned}
use overwitch.Engine.Rings.{Rings}
use overwitch.Engine.Status.{EngineStatus, clear_buffers, set_status}
use overwitch.Engine.Status
use overwitch.Resampler.State.{
  is_ready, is_boot, is_running, is_tuning, ResamplerStatus, error, stop, ready, boot, tune, run,
  retune, Resampler, report_state,
}
use overwitch.Resampler.Buffers.{clear_resampler}
use overwitch.Resampler.Ratios.{
  elapsed, tuning_period_us, end_tuning, Cycle, measure_error, set_ratios_from_dll, try_tune,
  try_run, try_retune, log_cycle, begin_boot, await_engine, follow, compute_ratios,
}
use overwitch.Resampler.Graph.{
  Observation, next_of, next, is_wait, engine_after, enters_run, result_of, phase, sees, observe,
}

module _ (N : Doubles) (F : Floats) (R : Rings F.Float) where
  open N use {lit}
  open F use {Float}
  open R use {Ring, read_space, skip}

  -- What a cycle does, by the machine.
  pub record Follows (r : Resampler N Float Ring) (o : Observation)
      (c : Cycle (Resampler N Float Ring)) : Type 0 where
    pub moves : phase N F R c.resampler ≡ next o (phase N F R r)
    pub engine :
        c.resampler.engine.status ≡ engine_after r.status c.resampler.status r.engine.status
    pub notifies : c.notified ≡ enters_run r.status c.resampler.status
    pub returns : c.result ≡ result_of (is_ready r.status) (Status.level r.engine.status)

  log_cycle_lem :
      (r : Resampler N Float Ring)
      → (phase N F R (log_cycle N F R r) ≡ phase N F R r) × ((log_cycle N F R r).engine ≡ r.engine)
  unfolding log_cycle report_state
  log_cycle_lem r = (ground arith, ground arith)

  -- What one of the two stages that may fail does to a resampler in status `s`.
  record Staged (s : ResamplerStatus) (o : Observation) (r : Resampler N Float Ring)
      (notified : Bool) (r' : Resampler N Float Ring) : Type 0 where
    pub moves : phase N F R r' ≡ next_of s o (phase N F R r)
    pub engine : r'.engine.status ≡ engine_after s r'.status r.engine.status
    pub notifies : notified ≡ enters_run s r'.status

  try_tune_lem :
      (now : ℕ) (b : Bool) (r : Resampler N Float Ring)
      → r.status ≡ boot
      → Staged boot (sees N F R r now b) r false (try_tune N F R boot now r)
  unfolding try_tune next_of
  try_tune_lem now b r h = ground arith

  end_tuning_lem :
      (s : ResamplerStatus) (b : Bool) (now : ℕ) (r : Resampler N Float Ring)
      → r.status ≡ s
      → is_tuning s ≡ true
      → 0 < r.o2h_frame_size
      → Runs (end_tuning N F R now b r) (λ p. Staged s (sees N F R r now b) r p.0 p.1)
  unfolding end_tuning next_of
  end_tuning_lem s true now r h t k =
      Runs-some _ _
        ((ground (arith, Tuning_lem s (sees N F R r now true) (phase N F R r) r.engine.status t)))
  end_tuning_lem s false now r h t k =
      Runs-if _ (ltb tuning_period_us (elapsed now r.phase_start_usecs)) _ _
        (λ long.
          Runs-if _ (is_tuned N r.dll (lit 1 100_000)) _ _
            (λ tuned.
              Runs-bind _ (clear_resampler N F R _) _ _ (clear_resampler_lem N F R _ k)
                (λ cleared c. Runs-some _ _ (
                  (ground (
                    arith,
                    Tuning_lem s (sees N F R r now false) (phase N F R r) r.engine.status t,
                  )))))
            (λ not_tuned. Runs-some _ _ (
              (ground
                (arith, Tuning_lem s (sees N F R r now false) (phase N F R r) r.engine.status t)))))
        (λ short. Runs-some _ _ (
          (ground
            (arith, Tuning_lem s (sees N F R r now false) (phase N F R r) r.engine.status t))))

  try_retune_lem :
      (b : Bool) (now : ℕ) (r : Resampler N Float Ring)
      → r.status ≡ run
      → 0 < r.o2h_frame_size
      → Runs (try_retune N F R run now b r) (Staged run (sees N F R r now b) r false)
  unfolding try_retune next_of
  try_retune_lem true now r h k =
      Runs-bind _ (clear_resampler N F R _) _ _ (clear_resampler_lem N F R _ k)
        (λ cleared c. Runs-some _ _ (ground (arith, c)))
  try_retune_lem false now r h k = Runs-some _ _ (ground arith)

  -- The resampler once the DLL is updated, and what that update says.
  abbrev updated : Resampler N Float Ring → ℕ → Resampler N Float Ring
  updated r now = set_ratios_from_dll N F R (record r {
    dll = (host_update N (host_update_error N (host_load_dll_overbridge N r.dll) now)).0;
  })

  abbrev retune_required : Resampler N Float Ring → ℕ → Bool → Bool
  retune_required r now xrun =
      if (host_update N (host_update_error N (host_load_dll_overbridge N r.dll) now)).1
      then true
      else xrun

  module _ (now : ℕ) (xrun : Bool) (r : Resampler N Float Ring) where
    abbrev o : Observation
    o = observe N F R r now xrun

    abbrev m : Resampler N Float Ring
    m = updated r now

    -- The log at the end of a cycle changes nothing of this.
    finish :
        (s : ResamplerStatus) (notified : Bool) (r' : Resampler N Float Ring)
        → r.status ≡ s
        → is_ready s && leb (Status.level r.engine.status) 4 ≡ false
        → Staged s o m notified r'
        → Follows r o (record { result = 0; notified = notified; resampler = log_cycle N F R r' })
    unfolding set_ratios_from_dll
    finish s notified r' h l v =
        ground (arith, log_cycle_lem r', v, level_lem (is_ready s) (Status.level r.engine.status) l)

    -- No stage is for these.
    Staged-idle :
        (s : ResamplerStatus)
        → r.status ≡ s
        → is_boot s || is_tuning s || is_running s ≡ false
        → is_ready s && leb (Status.level r.engine.status) 4 ≡ false
        → is_ready s && is_wait r.engine.status ≡ false
        → Staged s o m false m
    unfolding set_ratios_from_dll next_of
    Staged-idle s h i l w = (ground (arith, idle_lem s o (phase N F R r) r.engine.status i l w))

    follow-Follows :
        (s : ResamplerStatus)
        → r.status ≡ s
        → (is_ready s && leb (Status.level r.engine.status) 4 ≡ false)
        → (is_ready s && is_wait r.engine.status ≡ false)
        → 0 < r.o2h_frame_size
        → Runs (follow N F R s now xrun (measure_error N F R now r)) (Follows r o)
    unfolding follow measure_error try_run
    follow-Follows tune h l w k =
        Runs-bind _ (end_tuning N F R now (retune_required r now xrun) m) _ _
          (end_tuning_lem tune _ now m h refl k) (λ p q. Runs-some _ _ (finish tune p.0 p.1 h l q))
    follow-Follows retune h l w k =
        Runs-bind _ (end_tuning N F R now (retune_required r now xrun) m) _ _
          (end_tuning_lem retune _ now m h refl k)
          (λ p q. Runs-some _ _ (finish retune p.0 p.1 h l q))
    follow-Follows run h l w k =
        Runs-bind _ (try_retune N F R run now (retune_required r now xrun) m) _ _
          (try_retune_lem _ now m h k) (λ p q. Runs-some _ _ (finish run false p h l q))
    follow-Follows boot h l w k =
        Runs-some _ _ (finish boot false (try_tune N F R boot now m) h l (try_tune_lem now _ m h))
    follow-Follows ready h l w k =
        Runs-some _ _ (finish ready false m h l (Staged-idle ready h refl l w))
    follow-Follows error h l w k =
        Runs-some _ _ (finish error false m h l (Staged-idle error h refl l w))
    follow-Follows stop h l w k =
        Runs-some _ _ (finish stop false m h l (Staged-idle stop h refl l w))

  await_engine-Follows :
      (now : ℕ) (xrun : Bool) (r : Resampler N Float Ring)
      → r.status ≡ ready
      → leb (Status.level r.engine.status) 4 ≡ true
      → Follows r (observe N F R r now xrun) (await_engine N F R r)
  unfolding await_engine next_of set_status
  await_engine-Follows now xrun r h l = ground arith

  begin_boot-Follows :
      (now : ℕ) (xrun : Bool) (r : Resampler N Float Ring)
      → r.status ≡ ready
      → leb (Status.level r.engine.status) 4 ≡ false
      → (Status.level r.engine.status == 6) ≡ true
      → Follows r (observe N F R r now xrun) (record {
        result = 0;
        notified = false;
        resampler = begin_boot N F R now (measure_error N F R now r);
      })
  unfolding begin_boot measure_error report_state next_of
  begin_boot-Follows now xrun r h l w = ground (arith, wait_is r.engine.status w)

  -- Where the frames of the device have some bytes, a cycle returns, and it moves as the machine
  -- says: the status and the start of the phase are those of the machine at what the cycle sees;
  -- the engine becomes steady if it was ready for a resampler that was, and is told to run and at
  -- once to clear its buffers when the resampler runs; the host is notified exactly then; and the
  -- cycle fails only where the resampler is ready and the engine has stopped or failed.
  pub compute_ratios-Follows :
      (now : ℕ) (xrun : Bool) (r : Resampler N Float Ring)
      → 0 < r.o2h_frame_size
      → Runs (compute_ratios N F R r now xrun) (Follows r (observe N F R r now xrun))
  unfolding compute_ratios
  compute_ratios-Follows now xrun r k =
      Runs-if _ (is_ready r.status) _ _
        (λ is.
          Runs-if _ (leb (Status.level r.engine.status) 4) _ _
            (λ low. Runs-some _ _ (await_engine-Follows now xrun r (ready_lem _ is) low))
            (λ high.
              Runs-if _ (Status.level r.engine.status == 6) _ _
                (λ waits. Runs-some _ _ (begin_boot-Follows now xrun r (ready_lem _ is) high waits))
                (λ other.
                  follow-Follows now xrun r r.status refl (rw is high)
                    (rw is (wait_lem _ high other)) k)))
        (λ is_not. follow-Follows now xrun r r.status refl (rw is_not refl) (rw is_not refl) k)
