-- ===== src/Resampler/Ratios.antt =====
-- `ow_resampler_compute_ratios` of src/resampler.c, the state machine that a host cycle drives,
-- with `ow_resampler_reset` and what starts and reconfigures a resampler.
use overwitch.Prelude.{
  ℕ, ◌+◌, ◌-◌, ◌%◌, ◌^◌, ◌==◌, Bool, true, false, Option, some, ◌>>=◌, leb, ltb, if◌then◌else◌,
}
use overwitch.Prelude.Words.{u32}
use overwitch.Numeric.{Floats, Doubles}
use overwitch.Engine.Rings.{Rings}
use overwitch.Engine.Status.{EngineStatus, set_status}
use overwitch.Engine.Status
use overwitch.Dll.{
  host_init, host_reset, host_load_dll_overbridge, host_update_error, host_update,
  host_set_loop_filter, is_tuned,
}
use overwitch.Resampler.State.{
  ResamplerStatus, is_ready, is_boot, is_tuning, is_running, Resampler, ob_sample_rate,
  report_state,
}
use overwitch.Resampler.Buffers.{clear_resampler, reset_buffers}

-- `a - b` of two `uint64_t`
abbrev pub elapsed : ℕ → ℕ → ℕ
elapsed now start = (now + 2 ^ 64 - start) % 2 ^ 64

abbrev pub booting_period_us : ℕ
booting_period_us = 3_000_000

abbrev pub tuning_period_us : ℕ
tuning_period_us = 4_000_000

-- What a cycle returns, and whether it called `audio_running_cb`.
pub record Cycle (S : Type 0) : Type 0 where
  pub result : ℕ
  pub notified : Bool
  pub resampler : S

module _ (N : Doubles) (F : Floats) (R : Rings F.Float) where
  open N use {Double, lit, mul, div, equal, of_uint, to_int32}
  open F use {Float}
  open R use {Ring}

  -- `ow_resampler_set_ratios_from_dll`
  unfoldable pub set_ratios_from_dll : Resampler N Float Ring → Resampler N Float Ring
  set_ratios_from_dll r =
      let d = r.dll in record r { o2h_ratio = d.ratio; h2o_ratio = div (lit 1 1) d.ratio }

  -- `ow_resampler_reset_dll`
  unfoldable pub reset_dll : Resampler N Float Ring → Resampler N Float Ring
  unfolding set_ratios_from_dll
  reset_dll r =
      let dll =
        host_reset N r.dll r.samplerate (ob_sample_rate N) r.bufsize r.engine.frames_per_transfer in
      set_ratios_from_dll (record r { dll = dll })

  -- An engine that is past booting goes back to it.
  unfoldable pub reboot : EngineStatus → EngineStatus
  reboot s =
      if ltb (Status.level EngineStatus.boot) (Status.level s)
      then set_status EngineStatus.boot s
      else s

  -- `ow_resampler_reset`
  unfoldable pub reset : Resampler N Float Ring → Option (Resampler N Float Ring)
  unfolding reset_dll reboot
  reset r =
      let r' = reset_dll (record r { dll = host_init N r.dll }) in
      let e = r'.engine in
      clear_resampler N F R (record r' {
        engine = record e { status = reboot e.status };
        status = ResamplerStatus.ready;
      })

  -- The engine is still on its way: only readiness is answered.
  unfoldable pub await_engine : Resampler N Float Ring → Cycle (Resampler N Float Ring)
  await_engine r =
      let e = r.engine in
      if leb (Status.level e.status) (Status.level EngineStatus.stop)
      then record { result = 1; notified = false; resampler = r }
      else record {
        result = 0;
        notified = false;
        resampler = record r { engine = record e { status = answer e.status } };
      }
    where
      answer : EngineStatus → EngineStatus
      answer EngineStatus.ready = set_status EngineStatus.steady EngineStatus.ready
      answer s = s

  abbrev pub set_filter : Resampler N Float Ring → Double → Resampler N Float Ring
  set_filter r bw = record r { dll = host_set_loop_filter N r.dll bw r.bufsize r.samplerate }

  -- From `BOOT` to `TUNE`.
  unfoldable pub try_tune : ResamplerStatus → ℕ → Resampler N Float Ring → Resampler N Float Ring
  try_tune status now r =
      if is_boot status
      then if ltb booting_period_us (elapsed now r.phase_start_usecs)
        then if is_tuned N r.dll (lit 1 1000)
          then (let r' = set_filter r (lit 5 10) in
              record r' {
                status = ResamplerStatus.tune;
                log_control_cycles =
                    to_int32 (div (mul (of_uint r.report_period) r.samplerate) (of_uint r.bufsize));
                log_cycles = 0;
                phase_start_usecs = now;
              })
          else r
        else r
      else r

  -- The end of tuning, with whether the host was told.
  unfoldable pub end_tuning :
      ℕ → Bool → Resampler N Float Ring → Option (Bool × Resampler N Float Ring)
  end_tuning now retune_required r =
      if retune_required
      then some (false, record r { phase_start_usecs = now })
      else if ltb tuning_period_us (elapsed now r.phase_start_usecs)
      then if is_tuned N r.dll (lit 1 100_000)
        then (do
          let r' = set_filter r (lit 5 100)
          let e = r'.engine
          cleared ← clear_resampler N F R (record r' {
            engine = record e { status = set_status EngineStatus.run e.status };
            status = ResamplerStatus.run;
          })
          some (true, cleared))
        else some (false, r)
      else some (false, r)

  -- From `TUNE` or `RETUNE` to `RUN`.
  unfoldable pub try_run :
      ResamplerStatus → ℕ → Bool → Resampler N Float Ring → Option (Bool × Resampler N Float Ring)
  unfolding end_tuning
  try_run status now retune_required r =
      if is_tuning status then end_tuning now retune_required r else some (false, r)

  -- From `RUN` to `RETUNE`.
  unfoldable pub try_retune :
      ResamplerStatus → ℕ → Bool → Resampler N Float Ring → Option (Resampler N Float Ring)
  try_retune status now retune_required r =
      if is_running status
      then if retune_required
        then (do
          let r' = set_filter r (lit 5 10)
          cleared ← clear_resampler N F R (record r' { status = ResamplerStatus.retune })
          some (record cleared { phase_start_usecs = now }))
        else some r
      else some r

  unfoldable pub log_cycle : Resampler N Float Ring → Resampler N Float Ring
  log_cycle r =
      let n = u32 (r.log_cycles + 1) in
      if n == r.log_control_cycles
      then (let r' = report_state N (record r { log_cycles = n }) in record r' { log_cycles = 0 })
      else record r { log_cycles = n }

  -- The engine waits for the host: the loop filter starts wide open.
  unfoldable pub begin_boot : ℕ → Resampler N Float Ring → Resampler N Float Ring
  begin_boot now r =
      let r' = set_filter r (lit 1 1) in
      let r'' = report_state N (record r' { status = ResamplerStatus.boot }) in
      record r'' { phase_start_usecs = now }

  -- The DLL takes the instants of the engine and the error at this time.
  unfoldable pub measure_error : ℕ → Resampler N Float Ring → Resampler N Float Ring
  measure_error now r = record r {
    dll = host_update_error N (host_load_dll_overbridge N r.dll) now;
  }

  -- The rest of a cycle once the DLL runs.
  unfoldable pub follow :
      ResamplerStatus → ℕ → Bool → Resampler N Float Ring → Option (Cycle (Resampler N Float Ring))
  unfolding set_ratios_from_dll try_tune try_run try_retune log_cycle
  follow status now xrun r = do
    let (dll, out_of_bounds) = host_update N r.dll
    let retune_required = if out_of_bounds then true else xrun
    let tuned = try_tune status now (set_ratios_from_dll (record r { dll = dll }))
    (notified, ran) ← try_run status now retune_required tuned
    lost ← try_retune status now retune_required ran
    some (record { result = 0; notified = notified; resampler = log_cycle lost })

  -- `ow_resampler_compute_ratios`
  unfoldable pub compute_ratios :
      Resampler N Float Ring → ℕ → Bool → Option (Cycle (Resampler N Float Ring))
  unfolding await_engine begin_boot measure_error follow
  compute_ratios r now xrun =
      let level = Status.level r.engine.status in
      if is_ready r.status
      then if leb level (Status.level EngineStatus.boot)
        then some (await_engine r)
        else if level == Status.level EngineStatus.wait
        then some (record {
          result = 0;
          notified = false;
          resampler = begin_boot now (measure_error now r);
        })
        else follow r.status now xrun (measure_error now r)
      else follow r.status now xrun (measure_error now r)

  -- `ow_resampler_set_buffer_size`
  unfoldable pub set_buffer_size : Resampler N Float Ring → ℕ → Option (Resampler N Float Ring)
  unfolding reset
  set_buffer_size r bufsize =
      if r.bufsize == 0
      then some r
      else if r.bufsize == bufsize
      then some r
      else (do r' ← reset_buffers N F R (record r { bufsize = bufsize }); reset r')

  -- `ow_resampler_set_samplerate`; the sample rate is kept as a double.
  unfoldable pub set_samplerate : Resampler N Float Ring → ℕ → Option (Resampler N Float Ring)
  unfolding reset
  set_samplerate r samplerate =
      if equal r.samplerate (lit 0 1)
      then some r
      else if equal r.samplerate (of_uint samplerate)
      then some r
      else reset (record r { samplerate = of_uint samplerate })

  -- `ow_resampler_reset_latencies`
  unfoldable pub reset_latencies : Resampler N Float Ring → Resampler N Float Ring
  reset_latencies r =
      let e = r.engine in
      record r {
        engine = record e {
          latency_o2h_max = e.latency_o2h_min;
          latency_h2o_max = e.latency_h2o_min;
        };
      }

  -- `ow_resampler_stop`
  unfoldable pub stop : Resampler N Float Ring → Resampler N Float Ring
  stop r =
      let e = r.engine in
      record r { engine = record e { status = set_status EngineStatus.stop e.status } }
