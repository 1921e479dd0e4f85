-- ===== src/Engine/State.antt =====
-- `struct ow_engine` of src/engine.h, with the parts of its `struct ow_context` that the engine
-- changes, and the option functions of src/engine.c.
use overwitch.Prelude.{ℕ, ◌+◌, ◌-◌, ◌/◌, ◌%◌, Bool, true, false, List, ◌==◌, if◌then◌else◌}
use overwitch.Device.{DeviceDesc}
use overwitch.Engine.Blocks.{UsbBlk}
use overwitch.Engine.Status.{EngineStatus}

pub record Engine (Float Ring : Type 0) : Type 0 where
  pub desc : DeviceDesc
  pub status : EngineStatus
  pub blocks_per_transfer : ℕ
  pub frames_per_transfer : ℕ
  pub latency_o2h : ℕ
  pub latency_o2h_min : ℕ
  pub latency_o2h_max : ℕ
  pub latency_h2o : ℕ
  pub latency_h2o_min : ℕ
  pub latency_h2o_max : ℕ
  pub h2o_transfer_size : ℕ
  pub o2h_transfer_size : ℕ
  pub h2o_transfer_buf : List Float
  pub o2h_transfer_buf : List Float
  pub o2h_frame_size : ℕ
  pub h2o_frame_size : ℕ
  -- `usb`
  pub audio_frames_counter : ℕ
  pub xfr_audio_in_data : List UsbBlk
  pub xfr_audio_out_data : List UsbBlk
  pub audio_in_blk_len : ℕ
  pub audio_out_blk_len : ℕ
  pub xfr_audio_in_data_len : ℕ
  pub xfr_audio_out_data_len : ℕ
  -- The resampler of the host-to-device side; `input_frames` is of `h2o_data`.
  pub h2o_resampler_buf : List Float
  pub input_frames : ℕ
  pub reading_at_h2o_end : Bool
  -- `context`
  pub options : ℕ
  pub has_dll : Bool
  pub o2h_audio : Ring
  pub h2o_audio : Ring

-- `ow_engine_option_t`: single bits.
pub data EngineOption : Type 0 where
  o2h_audio_option h2o_audio_option : EngineOption

abbrev pub bit : EngineOption → ℕ
bit o2h_audio_option = 1
bit h2o_audio_option = 2

-- `(options & option) != 0`
unfoldable pub has_option : ℕ → EngineOption → Bool
has_option options option = options / bit option % 2 == 1

-- The new value of `options` in `ow_engine_set_option`: a bit that differs is added or taken away,
-- which is what `|=` and `&= ~` do then.
unfoldable pub set_option : EngineOption → Bool → ℕ → ℕ
unfolding has_option
set_option option true options = if has_option options option then options else options + bit option
set_option option false options =
    if has_option options option then options - bit option else options
