-- ===== src/Engine/Tests/Callbacks.antt =====
-- The callbacks of the engine at one engine: a track of four bytes each way, and one block in a
-- transfer.
use overwitch.Prelude.{ℕ, ◌≡◌, refl, inr, true, false, [], ◌∷◌, Runs, arith, replicate}
use overwitch.Prelude.Words.{swap16}
use overwitch.Numeric.Samples.{plain_floats, plain_src}
use overwitch.Device.{Track, DeviceDesc, type_2, get_frame_size_from_desc_tracks, frame_size_from}
use overwitch.Engine.Rings.Plain.{PlainRing, plain_rings}
use overwitch.Engine.Status.{run}
use overwitch.Engine.State.{Engine}
use overwitch.Engine.Memory.{blank_blk, init_mem}
use overwitch.Engine.Input.{set_usb_input_data_blks}
use overwitch.Engine.Output.{set_usb_output_data_blks}
use overwitch.Engine.Valid.Defs.{IsValid}
use overwitch.Engine.Valid.Init.{init_mem-IsValid}
use overwitch.Engine.Valid.Moves.{set_usb_input_data_blks-IsValid}
use overwitch.Engine.Frames.{HasWholeFrames, set_usb_output_data_blks-HasWholeFrames}
use overwitch.Engine.Publish.{Published, input_publishes}

abbrev track : Track
track = record { name = "T"; size = 4 }

abbrev desc : DeviceDesc
desc = record {
  pid = 1;
  name = "Device";
  type = type_2;
  input_tracks = track ∷ [];
  output_tracks = track ∷ [];
}

abbrev ring : PlainRing
ring = record { held = 64; room = 100 }

abbrev closed : Engine ℕ PlainRing
closed = record {
  desc = desc;
  status = run;
  blocks_per_transfer = 0;
  frames_per_transfer = 0;
  latency_o2h = 0;
  latency_o2h_min = 0;
  latency_o2h_max = 0;
  latency_h2o = 0;
  latency_h2o_min = 0;
  latency_h2o_max = 0;
  h2o_transfer_size = 0;
  o2h_transfer_size = 0;
  h2o_transfer_buf = [];
  o2h_transfer_buf = [];
  o2h_frame_size = 0;
  h2o_frame_size = 0;
  audio_frames_counter = 0;
  xfr_audio_in_data = [];
  xfr_audio_out_data = [];
  audio_in_blk_len = 60;
  audio_out_blk_len = 0;
  xfr_audio_in_data_len = 0;
  xfr_audio_out_data_len = 0;
  h2o_resampler_buf = [];
  input_frames = 0;
  reading_at_h2o_end = false;
  options = 3;
  has_dll = true;
  o2h_audio = ring;
  h2o_audio = ring;
}

abbrev pub open_engine : Engine ℕ PlainRing
open_engine = record closed {
  blocks_per_transfer = 1;
  frames_per_transfer = 7;
  latency_o2h_min = 7;
  latency_h2o_min = 7;
  h2o_transfer_size = 28;
  o2h_transfer_size = 28;
  h2o_transfer_buf = replicate 7 0;
  o2h_transfer_buf = replicate 7 0;
  o2h_frame_size = 4;
  h2o_frame_size = 4;
  xfr_audio_in_data = blank_blk 4 ∷ [];
  xfr_audio_out_data = record (blank_blk 4) { header = 0xff07 } ∷ [];
  audio_in_blk_len = 60;
  audio_out_blk_len = 60;
  xfr_audio_in_data_len = 60;
  xfr_audio_out_data_len = 60;
  h2o_resampler_buf = replicate 7 0;
  input_frames = 7;
}

init_mem-IsValid_example : IsValid plain_floats open_engine
unfolding get_frame_size_from_desc_tracks frame_size_from init_mem swap16
init_mem-IsValid_example =
    init_mem-IsValid plain_floats closed 1 (inr refl, tt) (inr refl, tt) (omega arith) (omega arith)
      (omega arith) (omega arith) (omega arith) refl

open_engine-IsValid : IsValid plain_floats open_engine
unfolding get_frame_size_from_desc_tracks frame_size_from
open_engine-IsValid = record {
  frames = refl;
  in_blocks = refl;
  out_blocks = refl;
  in_fits = (refl, tt);
  out_fits = (refl, tt);
  in_sizes = (inr refl, tt);
  out_sizes = (inr refl, tt);
  o2h_frame = refl;
  h2o_frame = refl;
  o2h_some = omega arith;
  h2o_some = omega arith;
  o2h_size = refl;
  h2o_size = refl;
  o2h_buf = refl;
  h2o_buf = refl;
  resampler_buf = refl;
  counter = omega arith;
}

-- `dll_overbridge_update` that keeps the frames of the last call.
abbrev keep : ℕ → ℕ → ℕ → ℕ
keep dll frames time = frames

set_usb_input_data_blks-IsValid_example :
    Runs
      (set_usb_input_data_blks plain_floats plain_rings keep 5 0 9 open_engine)
      (λ r. IsValid plain_floats r.1)
set_usb_input_data_blks-IsValid_example =
    set_usb_input_data_blks-IsValid plain_floats plain_rings keep 5 0 9 open_engine
      open_engine-IsValid

set_usb_output_data_blks-HasWholeFrames_example :
    Runs
      (set_usb_output_data_blks plain_floats plain_rings plain_src open_engine)
      (HasWholeFrames plain_floats plain_rings plain_src)
set_usb_output_data_blks-HasWholeFrames_example =
    set_usb_output_data_blks-HasWholeFrames plain_floats plain_rings plain_src open_engine
      open_engine-IsValid (refl, tt) (16, refl)

input_publishes_example :
    Runs
      (set_usb_input_data_blks plain_floats plain_rings keep 5 0 9 open_engine)
      (λ r. (r.0 ≡ 7) × Published plain_floats plain_rings 0 open_engine r.1)
input_publishes_example =
    input_publishes plain_floats plain_rings keep 5 0 9 open_engine open_engine-IsValid refl
