-- ===== src/Resampler/Audio.antt =====
-- `ow_resampler_read_audio` and `ow_resampler_write_audio` of src/resampler.c. The conversion itself
-- is `src_callback_read` of libsamplerate, which calls the readers of Buffers as often as it likes.
use overwitch.Prelude.{
  ℕ, ◌+◌, ◌*◌, ◌/◌, ◌==◌, Bool, true, false, Option, none, some, ◌>>=◌, List, ◌++◌, leb, ltb,
  if◌then◌else◌, length, take, drop, store,
}
use overwitch.Prelude.Words.{u32}
use overwitch.Numeric.{Floats, Doubles}
use overwitch.Engine.Rings.{Rings}
use overwitch.Resampler.State.{ResamplerStatus, level, Resampler}
use overwitch.Resampler.Buffers.{h2o_reader, o2h_reader}

-- A conversion on its way: it has its output, or it asks for more frames and goes on with the
-- buffer and the number of frames that it is given.
pub data Reading (Float Src : Type 0) : Type 0 where
  done : ℕ → List Float → Src → Reading Float Src
  more : (List Float → ℕ → Reading Float Src) → Reading Float Src

-- `src_callback_read`: from the ratio and the wanted frames.
pub record Converter (Float Double : Type 0) : Type 1 where
  pub Src : Type 0
  pub src_callback_read : Src → Double → ℕ → Reading Float Src

-- The end of a conversion: the frames generated, the samples, and the two states.
pub record Converted (Float Src S : Type 0) : Type 0 where
  pub gen_frames : ℕ
  pub out : List Float
  pub src : Src
  pub resampler : S

-- `memcpy` to the sample `at` of an array.
unfoldable pub store_at {ℓ} : {A : Type ℓ} → List A → ℕ → List A → Option (List A)
store_at buf at xs =
    if leb at (length buf)
    then (do rest ← store (drop at buf) xs; some (take at buf ++ rest))
    else none

module _ (N : Doubles) (F : Floats) (R : Rings F.Float) where
  open N use {Double, lit, add, sub, mul, of_uint, of_int32, to_int32}
  open F use {Float}
  open R use {Ring, write_space, write}

  -- The queue is an array of floats, so the index, a number of bytes, counts floats.
  unfoldable pub queue_audio : Resampler N Float Ring → Option (Resampler N Float Ring)
  unfolding store_at
  queue_audio r =
      if leb (r.h2o_bufsize / 4) (length r.h2o_buf_in)
      then (do
        queue ←
            store_at r.h2o_queue (r.h2o_queue_len * r.h2o_frame_size)
              (take (r.h2o_bufsize / 4) r.h2o_buf_in)
        some (record r { h2o_queue = queue; h2o_queue_len = r.h2o_queue_len + r.bufsize }))
      else none

  -- The frames wanted, and the fraction kept for the next call.
  unfoldable pub wanted : Resampler N Float Ring → Double → ℕ × Double
  wanted r acc =
      let acc' : Double = add acc (mul (of_uint r.bufsize) (sub r.h2o_ratio (lit 1 1))) in
      let inc : ℕ = to_int32 acc' in (u32 (r.bufsize + inc), sub acc' (of_int32 inc))

  -- All the frames go to the ring, or none.
  unfoldable pub send : Resampler N Float Ring → ℕ → Option (Resampler N Float Ring)
  send r gen_frames =
      let e = r.engine in
      let bytes = gen_frames * r.h2o_frame_size in
      if leb bytes (write_space e.h2o_audio)
      then if leb (bytes / 4) (length r.h2o_buf_out)
        then some (record r {
          engine = record e {
            h2o_audio = write e.h2o_audio (take (bytes / 4) r.h2o_buf_out) bytes;
          };
        })
        else none
      else some r

module _ (N : Doubles) (F : Floats) (R : Rings F.Float) (C : Converter F.Float N.Double) where
  open N use {Double}
  open F use {Float}
  open R use {Ring}
  open C use {Src, src_callback_read}

  unfoldable pub run_h2o :
      Reading Float Src
      → Resampler N Float Ring
      → Option (Converted Float Src (Resampler N Float Ring))
  run_h2o (done n out s) r = some (record { gen_frames = n; out = out; src = s; resampler = r })
  run_h2o (more k) r = h2o_reader N F R r >>= (λ p. run_h2o (k p.1.h2o_aux p.0) p.1)

  unfoldable pub run_o2h :
      Reading Float Src
      → Resampler N Float Ring
      → Option (Converted Float Src (Resampler N Float Ring))
  run_o2h (done n out s) r = some (record { gen_frames = n; out = out; src = s; resampler = r })
  run_o2h (more k) r = o2h_reader N F R r >>= (λ p. run_o2h (k p.1.o2h_buf_in p.0) p.1)

  -- `ow_resampler_read_audio`: whether it is an error, and the two states.
  unfoldable pub read_audio :
      Resampler N Float Ring → Src → Option (Bool × Src × Resampler N Float Ring)
  read_audio r s = do
    c ← run_o2h (src_callback_read s r.o2h_ratio r.bufsize) r
    buf ← store r.o2h_buf_out c.out
    let r' = c.resampler
    some (if c.gen_frames == r.bufsize then false else true, c.src, record r' { o2h_buf_out = buf })

  -- `ow_resampler_write_audio`. `h2o_acc` is its static variable.
  unfoldable pub write_audio :
      Resampler N Float Ring → Src → Double → Option (Bool × Src × Double × Resampler N Float Ring)
  unfolding queue_audio wanted send
  write_audio r s h2o_acc =
      if ltb (level r.status) (level ResamplerStatus.run) then some (false, s, h2o_acc, r) else (do
        queued ← queue_audio N F R r
        let (frames, acc) = wanted N F R queued h2o_acc
        c ← run_h2o (src_callback_read s queued.h2o_ratio frames) queued
        buf ← store queued.h2o_buf_out c.out
        let r' = c.resampler
        let r'' = record r' { h2o_buf_out = buf }
        if c.gen_frames == frames
            then (do sent ← send N F R r'' c.gen_frames; some (false, c.src, acc, sent))
            else some (true, c.src, acc, r''))
