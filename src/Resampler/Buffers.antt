-- ===== src/Resampler/Buffers.antt =====
-- The buffers of src/resampler.c: how they are cleared and sized, and the two callbacks that feed
-- libsamplerate. `none` is an access out of bounds or a division by zero.
use overwitch.Prelude.{
  ℕ, ◌+◌, ◌*◌, ◌/◌, ◌==◌, true, false, Option, none, some, ◌>>=◌, List, leb, ltb, if◌then◌else◌,
  length, take, replicate, store,
}
use overwitch.Prelude.Words.{u32}
use overwitch.Numeric.{Floats, Doubles}
use overwitch.Engine.Rings.{Rings}
use overwitch.Engine.Status.{clear_buffers}
use overwitch.Engine.Input.{div?}
use overwitch.Engine.Output.{bytes_to_frame_bytes}
use overwitch.Resampler.State.{Resampler}

abbrev pub max_read_frames : ℕ
max_read_frames = 5

module _ (N : Doubles) (F : Floats) (R : Rings F.Float) where
  open F use {Float, zero_float}
  open R use {Ring, read_space, read, skip}

  -- `ow_resampler_clear_buffers`
  unfoldable pub clear_resampler : Resampler N Float Ring → Option (Resampler N Float Ring)
  clear_resampler r = do
    let e = r.engine
    ring ←
        if r.has_o2h_audio
        then (do
          bytes ← bytes_to_frame_bytes (read_space e.o2h_audio) r.o2h_frame_size
          some (skip e.o2h_audio bytes))
        else some e.o2h_audio
    some (record r {
      h2o_queue_len = 0;
      reading_at_o2h_end = false;
      engine = record e { o2h_audio = ring; status = clear_buffers e.status };
    })

  -- `memset (buf, 0, bytes)` on an array of floats.
  unfoldable pub memset : List Float → ℕ → Option (List Float)
  memset buf bytes = store buf (replicate (bytes / 4) zero_float)

  -- `ow_resampler_reset_buffers`. Fresh memory is modelled as zeros, which nothing reads before
  -- it is written.
  unfoldable pub reset_buffers : Resampler N Float Ring → Option (Resampler N Float Ring)
  unfolding memset
  reset_buffers r = do
    let o2h_bufsize = r.bufsize * r.o2h_frame_size
    let h2o_bufsize = r.bufsize * r.h2o_frame_size
    aux ← memset (replicate (h2o_bufsize * 8 / 4) zero_float) h2o_bufsize
    buf_in ← memset (replicate (o2h_bufsize / 4) zero_float) h2o_bufsize
    clear_resampler (record r {
      o2h_bufsize = o2h_bufsize;
      h2o_bufsize = h2o_bufsize;
      h2o_buf_in = replicate (h2o_bufsize / 4) zero_float;
      h2o_buf_out = replicate (h2o_bufsize * 8 / 4) zero_float;
      h2o_aux = aux;
      h2o_queue = replicate (h2o_bufsize * 8 / 4) zero_float;
      o2h_buf_in = buf_in;
      o2h_buf_out = replicate (o2h_bufsize / 4) zero_float;
    })

  -- `resampler_h2o_reader`: the frames handed over, from `h2o_aux`.
  unfoldable pub h2o_reader : Resampler N Float Ring → Option (ℕ × Resampler N Float Ring)
  h2o_reader r = if r.h2o_queue_len == 0 then some (r.bufsize, r) else (do
    let n = r.h2o_queue_len * r.h2o_frame_size / 4
    if leb n (length r.h2o_queue)
        then (do
          aux ← store r.h2o_aux (take n r.h2o_queue)
          some (r.h2o_queue_len, record r { h2o_aux = aux; h2o_queue_len = 0 }))
        else none)

  -- The frames that a read of the ring yields while it is being read.
  unfoldable pub o2h_read : Resampler N Float Ring → Option (ℕ × Resampler N Float Ring)
  o2h_read r =
      let e = r.engine in
      let rso2h = read_space e.o2h_audio in
      if leb r.o2h_frame_size rso2h
      then (do
        all ← div? rso2h r.o2h_frame_size
        let frames = if ltb max_read_frames all then max_read_frames else all
        let (fs, ring) = read e.o2h_audio (frames * r.o2h_frame_size)
        buf ← store r.o2h_buf_in fs
        some (frames, record r { o2h_buf_in = buf; engine = record e { o2h_audio = ring } }))
      else some
          (max_read_frames, record r { engine = record e { latency_o2h_max = e.latency_o2h_min } })

  -- The ring is emptied in whole buffers once one is there.
  unfoldable pub o2h_begin : Resampler N Float Ring → Option (ℕ × Resampler N Float Ring)
  o2h_begin r =
      let e = r.engine in
      let rso2h = read_space e.o2h_audio in
      if leb r.o2h_bufsize rso2h
      then (do
        bytes ← bytes_to_frame_bytes rso2h r.o2h_bufsize
        some (
          max_read_frames,
          record r {
            reading_at_o2h_end = true;
            engine = record e { o2h_audio = skip e.o2h_audio bytes };
          },
        ))
      else some (max_read_frames, r)

  -- `resampler_o2h_reader`: the frames handed over, from `o2h_buf_in`. The host side of the DLL
  -- counts them.
  unfoldable pub o2h_reader : Resampler N Float Ring → Option (ℕ × Resampler N Float Ring)
  unfolding o2h_read o2h_begin
  o2h_reader r = do
    (frames, r') ← if r.reading_at_o2h_end then o2h_read r else o2h_begin r
    let d = r'.dll
    some (frames, record r' { dll = record d { frames = u32 (d.frames + frames) } })
