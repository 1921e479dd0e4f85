-- ===== src/Engine/Output.antt =====
-- The host-to-device side of src/engine.c: `ow_engine_write_usb_output_blocks` on an engine, and
-- `set_usb_output_data_blks`. `none` is an access out of bounds or a division by zero.
use overwitch.Prelude.{
  ℕ, ◌*◌, true, false, ◌&&◌, Option, some, ◌>>=◌, List, ltb, leb, if◌then◌else◌, length, replicate,
  store,
}
use overwitch.Numeric.{Floats, SimpleSrc}
use overwitch.Device.{inputs}
use overwitch.Engine.Blocks.{write_blocks}
use overwitch.Engine.Rings.{Rings}
use overwitch.Engine.Status.{is_run}
use overwitch.Engine.State.{Engine, h2o_audio_option, has_option}
use overwitch.Engine.Input.{div?, raise}

-- `ow_bytes_to_frame_bytes`, for fewer than `2 ^ 31` bytes: the source counts them in an `int`.
unfoldable pub bytes_to_frame_bytes : ℕ → ℕ → Option ℕ
unfolding div?
bytes_to_frame_bytes bytes bytes_per_frame = do
  frames ← div? bytes bytes_per_frame
  some (frames * bytes_per_frame)

module _ (F : Floats) (R : Rings F.Float) (S : SimpleSrc F.Float) where
  open F use {Float, zero_float}
  open R use {Ring, read_space, read, skip}
  open S use {src_simple}

  -- `ow_engine_write_usb_output_blocks`
  unfoldable pub write_usb_output_blocks : Engine Float Ring → Option (Engine Float Ring)
  write_usb_output_blocks e = do
    (counter, blks) ←
        write_blocks F e.desc.type e.desc.input_tracks e.audio_frames_counter e.h2o_transfer_buf
          e.xfr_audio_out_data
    some (record e { audio_frames_counter = counter; xfr_audio_out_data = blks })

  -- `memset (h2o_transfer_buf, 0, h2o_transfer_size)`
  abbrev pub silence : List Float → List Float
  silence buf = replicate (length buf) zero_float

  -- The ring is not being read yet: it is emptied once a transfer is there and the engine runs.
  unfoldable pub begin_reading : ℕ → Engine Float Ring → Option (Engine Float Ring)
  begin_reading rsh2o e =
      if leb e.h2o_transfer_size rsh2o && is_run e.status
      then (do
        bytes ← bytes_to_frame_bytes rsh2o e.h2o_frame_size
        some (record e { h2o_audio = skip e.h2o_audio bytes; reading_at_h2o_end = true }))
      else some e

  -- The ring holds less than a transfer, but more than a frame: what is there is stretched.
  unfoldable pub stretch : ℕ → Engine Float Ring → Option (Engine Float Ring)
  stretch rsh2o e = do
    frames ← div? rsh2o e.h2o_frame_size
    let (fs, ring) = read e.h2o_audio (frames * e.h2o_frame_size)
    buf ← store e.h2o_resampler_buf fs
    some (record e {
      h2o_audio = ring;
      h2o_resampler_buf = buf;
      input_frames = frames;
      h2o_transfer_buf =
          src_simple buf frames e.frames_per_transfer (e.frames_per_transfer, frames)
            (inputs e.desc) e.h2o_transfer_buf;
      latency_o2h_max = e.latency_o2h_min;
    })

  -- The ring is being read.
  unfoldable pub take_transfer : ℕ → Engine Float Ring → Option (Engine Float Ring)
  unfolding stretch
  take_transfer rsh2o e = do
    latency ← div? rsh2o e.h2o_frame_size
    let e' = record e { latency_h2o = latency; latency_h2o_max = raise e.latency_h2o_max latency }
    if leb e.h2o_transfer_size rsh2o
        then (let (fs, ring) = read e.h2o_audio e.h2o_transfer_size in
            do
              buf ← store e.h2o_transfer_buf fs
              some (record e' { h2o_audio = ring; h2o_transfer_buf = buf }))
        else if ltb e.h2o_frame_size rsh2o
        then stretch rsh2o e'
        else some (record e' { h2o_transfer_buf = silence e.h2o_transfer_buf })

  -- `set_usb_output_data_blks`
  unfoldable pub set_usb_output_data_blks : Engine Float Ring → Option (Engine Float Ring)
  unfolding begin_reading take_transfer
  set_usb_output_data_blks e =
      let rsh2o = read_space e.h2o_audio in
      if has_option e.options h2o_audio_option
      then (do
        e' ← if e.reading_at_h2o_end then take_transfer rsh2o e else begin_reading rsh2o e
        write_usb_output_blocks e')
      else if e.reading_at_h2o_end
      then write_usb_output_blocks (record e {
        h2o_transfer_buf = silence e.h2o_transfer_buf;
        reading_at_h2o_end = false;
        latency_h2o_max = e.latency_h2o_min;
      })
      else some e
