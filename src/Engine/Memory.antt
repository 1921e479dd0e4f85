-- ===== src/Engine/Memory.antt =====
-- `ow_engine_init_mem` of src/engine.c: the sizes of a transfer and its buffers.
use overwitch.Prelude.{ℕ, ◌+◌, ◌*◌, ◌/◌, Bool, not, ◌&&◌, ◌||◌, ltb, ◌==◌, if◌then◌else◌, replicate}
use overwitch.Prelude.Words.{u32, swap16}
use overwitch.Numeric.{Floats}
use overwitch.Device.{inputs, outputs, get_frame_size_from_desc_tracks}
use overwitch.Engine.Blocks.{UsbBlk, ob_frames_per_block}
use overwitch.Engine.Status.{OwResult, ok, err, unexpected_packet_size}
use overwitch.Engine.State.{Engine}

-- `sizeof (struct ow_engine_usb_blk)`: two `uint16_t` and the padding.
abbrev pub usb_blk_size : ℕ
usb_blk_size = 32

-- `OW_BYTES_PER_SAMPLE`
abbrev pub bytes_per_sample : ℕ
bytes_per_sample = 4

-- A block of cleared memory with room for seven frames.
abbrev pub blank_blk : ℕ → UsbBlk
blank_blk frame_size = record {
  header = 0;
  frames = 0;
  padding = replicate 28 0;
  samples = replicate (ob_frames_per_block * frame_size) 0;
}

-- `blk_len && blk_len != size`
abbrev pub is_unexpected : ℕ → ℕ → Bool
is_unexpected blk_len size = ltb 0 blk_len && not (blk_len == size)

module _ (F : Floats) {Ring : Type 0} where
  open F use {Float, zero_float}

  -- What is set once both block sizes are known.
  unfoldable pub alloc : Engine Float Ring → Engine Float Ring
  alloc e =
      let frames = e.frames_per_transfer in
      let o2h_size : ℕ = u32 (frames * outputs e.desc) * bytes_per_sample in
      let h2o_size : ℕ = u32 (frames * inputs e.desc) * bytes_per_sample in
      record e {
        o2h_transfer_size = o2h_size;
        h2o_transfer_size = h2o_size;
        latency_o2h_min = frames;
        latency_h2o_min = frames;
        audio_frames_counter = 0;
        xfr_audio_in_data_len = e.audio_in_blk_len * e.blocks_per_transfer;
        xfr_audio_out_data_len = e.audio_out_blk_len * e.blocks_per_transfer;
        xfr_audio_in_data = replicate e.blocks_per_transfer (blank_blk e.o2h_frame_size);
        xfr_audio_out_data =
            replicate e.blocks_per_transfer
              (record (blank_blk e.h2o_frame_size) { header = swap16 0x07ff });
        h2o_transfer_buf = replicate (h2o_size / bytes_per_sample) zero_float;
        o2h_transfer_buf = replicate (o2h_size / bytes_per_sample) zero_float;
        h2o_resampler_buf = replicate (h2o_size / bytes_per_sample) zero_float;
        input_frames = frames;
      }

  -- The block size that the tracks of each direction need.
  abbrev pub in_blk_size : Engine Float Ring → ℕ
  in_blk_size e =
      usb_blk_size + ob_frames_per_block * get_frame_size_from_desc_tracks e.desc.output_tracks

  abbrev pub out_blk_size : Engine Float Ring → ℕ
  out_blk_size e =
      usb_blk_size + ob_frames_per_block * get_frame_size_from_desc_tracks e.desc.input_tracks

  -- The sizes that are known before any memory is taken.
  unfoldable pub measure : Engine Float Ring → ℕ → Engine Float Ring
  measure e blocks_per_transfer = record e {
    blocks_per_transfer = blocks_per_transfer;
    frames_per_transfer = u32 (ob_frames_per_block * blocks_per_transfer);
    o2h_frame_size = get_frame_size_from_desc_tracks e.desc.output_tracks;
    h2o_frame_size = get_frame_size_from_desc_tracks e.desc.input_tracks;
    audio_in_blk_len = in_blk_size e;
    audio_out_blk_len = out_blk_size e;
  }

  -- `ow_engine_init_mem`. The block sizes of the engine are 0 or what libusb reports.
  unfoldable pub init_mem : Engine Float Ring → ℕ → OwResult (Engine Float Ring)
  unfolding alloc measure
  init_mem e blocks_per_transfer =
      if is_unexpected e.audio_in_blk_len (in_blk_size e)
        || is_unexpected e.audio_out_blk_len (out_blk_size e)
      then err unexpected_packet_size
      else ok (alloc (measure e blocks_per_transfer))
