-- ===== src/Engine/Valid/Defs.antt =====
-- The invariant of `struct ow_engine` between two callbacks: the buffers have the sizes that the
-- device's tracks and the blocks of a transfer need.
use overwitch.Prelude.{◌*◌, ◌^◌, ◌<◌, ◌≡◌, All, length}
use overwitch.Numeric.{Floats}
use overwitch.Device.{inputs, outputs, get_frame_size_from_desc_tracks}
use overwitch.Engine.Blocks.Written.{HasSampleSize, Fits}
use overwitch.Engine.State.{Engine}

module _ (F : Floats) {Ring : Type 0} where
  open F use {Float}

  pub record IsValid (e : Engine Float Ring) : Type 0 where
    pub frames : e.frames_per_transfer ≡ 7 * e.blocks_per_transfer
    pub in_blocks : length e.xfr_audio_in_data ≡ e.blocks_per_transfer
    pub out_blocks : length e.xfr_audio_out_data ≡ e.blocks_per_transfer
    pub in_fits : All (Fits F e.desc.type e.desc.output_tracks) e.xfr_audio_in_data
    pub out_fits : All (Fits F e.desc.type e.desc.input_tracks) e.xfr_audio_out_data
    pub in_sizes : All HasSampleSize e.desc.output_tracks
    pub out_sizes : All HasSampleSize e.desc.input_tracks
    pub o2h_frame : e.o2h_frame_size ≡ get_frame_size_from_desc_tracks e.desc.output_tracks
    pub h2o_frame : e.h2o_frame_size ≡ get_frame_size_from_desc_tracks e.desc.input_tracks
    pub o2h_some : 0 < e.o2h_frame_size
    pub h2o_some : 0 < e.h2o_frame_size
    pub o2h_size : e.o2h_transfer_size ≡ 4 * (e.frames_per_transfer * outputs e.desc)
    pub h2o_size : e.h2o_transfer_size ≡ 4 * (e.frames_per_transfer * inputs e.desc)
    pub o2h_buf : length e.o2h_transfer_buf ≡ e.frames_per_transfer * outputs e.desc
    pub h2o_buf : length e.h2o_transfer_buf ≡ e.frames_per_transfer * inputs e.desc
    pub resampler_buf : length e.h2o_resampler_buf ≡ e.frames_per_transfer * inputs e.desc
    pub counter : e.audio_frames_counter < 2 ^ 16
