-- ===== src/Resampler/State.antt =====
-- `struct ow_resampler` of src/resampler.h with its `struct ow_resampler_state`, and the report of
-- the state in src/resampler.c. The resampler owns its engine and the DLL that both use.
use overwitch.Prelude.{ℕ, Bool, true, false, List, max, if◌then◌else◌}
use overwitch.Prelude.Words.{u32}
use overwitch.Numeric.{Doubles}
use overwitch.Dll.{Dll}
use overwitch.Engine.Status.{is_run}
use overwitch.Engine.State.{Engine, h2o_audio_option, has_option}

-- `ow_resampler_status_t`
pub data ResamplerStatus : Type 0 where
  error stop ready boot tune run retune : ResamplerStatus

-- The values of the enumeration in their order, shifted by one so that `error` is 0.
abbrev pub level : ResamplerStatus → ℕ
level error = 0
level stop = 1
level ready = 2
level boot = 3
level tune = 4
level run = 5
level retune = 6

abbrev pub is_ready : ResamplerStatus → Bool
is_ready ready = true
is_ready _ = false

abbrev pub is_boot : ResamplerStatus → Bool
is_boot boot = true
is_boot _ = false

abbrev pub is_tuning : ResamplerStatus → Bool
is_tuning tune = true
is_tuning retune = true
is_tuning _ = false

abbrev pub is_running : ResamplerStatus → Bool
is_running run = true
is_running _ = false

module _ (N : Doubles) where
  open N use {Double, lit, mul, div, neg, of_uint}

  -- `struct ow_resampler_state`
  pub record Report : Type 0 where
    pub status : ResamplerStatus
    pub ratio_o2h : Double
    pub ratio_h2o : Double
    pub t_latency_o2h : Double
    pub t_latency_o2h_min : Double
    pub t_latency_o2h_max : Double
    pub t_latency_h2o : Double
    pub t_latency_h2o_min : Double
    pub t_latency_h2o_max : Double
    pub f_latency_o2h : ℕ
    pub f_latency_o2h_min : ℕ
    pub f_latency_o2h_max : ℕ
    pub f_latency_h2o : ℕ
    pub f_latency_h2o_min : ℕ
    pub f_latency_h2o_max : ℕ

  pub record Resampler (Float Ring : Type 0) : Type 0 where
    pub status : ResamplerStatus
    pub engine : Engine Float Ring
    pub dll : Dll N
    pub o2h_ratio : Double
    pub h2o_ratio : Double
    pub h2o_buf_in : List Float
    pub h2o_buf_out : List Float
    pub h2o_aux : List Float
    pub h2o_queue : List Float
    pub o2h_buf_in : List Float
    pub o2h_buf_out : List Float
    pub h2o_queue_len : ℕ
    pub log_control_cycles : ℕ
    pub log_cycles : ℕ
    pub reading_at_o2h_end : Bool
    pub o2h_frame_size : ℕ
    pub h2o_frame_size : ℕ
    pub o2h_bufsize : ℕ
    pub h2o_bufsize : ℕ
    pub bufsize : ℕ
    pub samplerate : Double
    pub report_period : ℕ
    pub state : Report
    pub phase_start_usecs : ℕ
    -- `context && context->o2h_audio`
    pub has_o2h_audio : Bool

  -- `OB_SAMPLE_RATE`
  abbrev pub ob_sample_rate : Double
  ob_sample_rate = lit 48000 1

  -- A latency in frames, times `OB_PERIOD_MS`.
  abbrev pub to_ms : ℕ → Double
  to_ms frames = mul (of_uint frames) (div (lit 1000 1) ob_sample_rate)

  -- `-1.0`, for no latency
  abbrev pub no_latency : Double
  no_latency = neg (lit 1 1)

  -- A latency is known while the engine runs, and the one to the device only while that side
  -- is enabled.
  abbrev pub shown : Bool → ℕ → Double
  shown known frames = if known then to_ms frames else no_latency

  module _ {Float Ring : Type 0} where
    -- `ow_resampler_set_latency`
    unfoldable pub set_latency : Resampler Float Ring → Report
    set_latency r =
        let s = r.state in
        let e = r.engine in
        record s {
          f_latency_h2o = u32 e.latency_h2o;
          f_latency_h2o_min = u32 (max e.latency_h2o_min r.bufsize);
          f_latency_h2o_max = u32 (max e.latency_h2o_max r.bufsize);
          f_latency_o2h = u32 e.latency_o2h;
          f_latency_o2h_min = u32 (max e.latency_o2h_min r.bufsize);
          f_latency_o2h_max = u32 (max e.latency_o2h_max r.bufsize);
        }

    -- `ow_resampler_set_state`
    unfoldable pub set_state : Resampler Float Ring → Report
    unfolding set_latency
    set_state r =
        let s = set_latency r in
        let running = is_run r.engine.status in
        let sending = if running then has_option r.engine.options h2o_audio_option else false in
        record s {
          t_latency_o2h = shown running s.f_latency_o2h;
          t_latency_o2h_max = shown running s.f_latency_o2h_max;
          t_latency_o2h_min = shown running s.f_latency_o2h_min;
          t_latency_h2o = shown sending s.f_latency_h2o;
          t_latency_h2o_max = shown sending s.f_latency_h2o_max;
          t_latency_h2o_min = shown sending s.f_latency_h2o_min;
          ratio_o2h = r.o2h_ratio;
          ratio_h2o = r.h2o_ratio;
          status = r.status;
        }

    -- `ow_resampler_report_state`, without the printing.
    unfoldable pub report_state : Resampler Float Ring → Resampler Float Ring
    unfolding set_state
    report_state r = record r { state = set_state r }
