-- ===== src/Engine/Blocks/Written.antt =====
-- What `ow_engine_write_usb_output_blocks` leaves in the USB blocks.
use overwitch.Prelude.{
  ℕ, zero, suc, ◌+◌, ◌*◌, ◌^◌, ◌≤◌, ◌<◌, ◌≡◌, ap, some, List, [], ◌∷◌, ◌++◌, append_assoc, All,
  arith, length, length-append, append-nil, drop, drop-drop, drop-length, length-drop,
}
use native.Mathlib.Nat.{zero-mul, suc-mul, add_comm}
use overwitch.Prelude.Words.{u16, swap16}
use overwitch.Numeric.{Floats}
use overwitch.Device.{DeviceType, Track, get_frame_size_from_desc_tracks}
use overwitch.Device.Size.{frame_size-cons, frame_size-nil}
use overwitch.Engine.Sample.{IsSampleSize, encode, write_sample_lem, length-encode}
use overwitch.Engine.Blocks.{
  UsbBlk, ob_frames_per_block, quantize, write_tracks, write_frames, write_blocks,
}

abbrev pub HasSampleSize : Track → Type 0
HasSampleSize track = IsSampleSize track.size

pub le-four : {size : ℕ} → IsSampleSize size → size ≤ 4
le-four h = omega arith

module _ (F : Floats) (type : DeviceType) where
  open F use {Float}

  -- The bytes of one frame, and of `j` frames.
  abbrev pub encode_tracks : List Track → List Float → List ℕ
  encode_tracks [] fs = []
  encode_tracks (t ∷ ts) [] = []
  encode_tracks (t ∷ ts) (f ∷ fs) = encode type t.size (quantize F f) ++ encode_tracks ts fs

  abbrev pub encode_frames : List Track → ℕ → List Float → List ℕ
  encode_frames ts zero fs = []
  encode_frames ts (suc j) fs = encode_tracks ts fs ++ encode_frames ts j (drop (length ts) fs)

  pub write_tracks_lem :
      (ts : List Track) (fs : List Float) (s : List ℕ)
      → All HasSampleSize ts
      → length ts ≤ length fs
      → get_frame_size_from_desc_tracks ts ≤ length s
      → write_tracks F type ts fs s
        ≡ some
            (drop (length ts) fs, encode_tracks ts fs, drop (get_frame_size_from_desc_tracks ts) s)
  unfolding write_tracks
  write_tracks_lem [] fs s ok h k = rw frame_size-nil
  write_tracks_lem (t ∷ ts) [] s ok h k = absurd (omega arith)
  write_tracks_lem (t ∷ ts) (f ∷ fs) s ok h k =
      rw
        (write_sample_lem type t.size (quantize F f) s (le-four ok.0)
          (omega (arith, frame_size-cons t ts)))
        (rw (write_tracks_lem ts fs (drop t.size s) ok.1 (omega arith) rest) (
          rw (
            drop-drop,
            frame_size-cons t ts,
            add_comm t.size (get_frame_size_from_desc_tracks ts),
          )))
    where
      rest : get_frame_size_from_desc_tracks ts ≤ length (drop t.size s)
      rest = omega (arith, frame_size-cons t ts, length-drop t.size s)

  pub length-encode_tracks :
      (ts : List Track) (fs : List Float)
      → All HasSampleSize ts
      → length ts ≤ length fs
      → length (encode_tracks ts fs) ≡ get_frame_size_from_desc_tracks ts
  length-encode_tracks [] fs ok h = omega (arith, frame_size-nil)
  length-encode_tracks (t ∷ ts) [] ok h = absurd (omega arith)
  length-encode_tracks (t ∷ ts) (f ∷ fs) ok h = omega (
    arith,
    length-append (encode type t.size (quantize F f)) (encode_tracks ts fs),
    length-encode type t.size (quantize F f) (le-four ok.0),
    length-encode_tracks ts fs ok.1 (omega arith),
    frame_size-cons t ts,
  )

  pub length-encode_frames :
      (ts : List Track) (j : ℕ) (fs : List Float)
      → All HasSampleSize ts
      → j * length ts ≤ length fs
      → length (encode_frames ts j fs) ≡ j * get_frame_size_from_desc_tracks ts
  length-encode_frames ts zero fs ok h = omega arith
  length-encode_frames ts (suc j) fs ok h = omega (
    arith,
    length-append (encode_tracks ts fs) (encode_frames ts j (drop (length ts) fs)),
    length-encode_tracks ts fs ok (omega arith),
    length-encode_frames ts j (drop (length ts) fs) ok (omega (arith, length-drop (length ts) fs)),
  )

  -- Frames that fit are written one after another, and nothing behind them changes.
  pub write_frames_lem :
      (ts : List Track) (j : ℕ) (fs : List Float) (s : List ℕ)
      → All HasSampleSize ts
      → j * length ts ≤ length fs
      → j * get_frame_size_from_desc_tracks ts ≤ length s
      → write_frames F type ts j fs s
        ≡ some (
          drop (j * length ts) fs,
          encode_frames ts j fs ++ drop (j * get_frame_size_from_desc_tracks ts) s,
        )
  unfolding write_frames
  write_frames_lem ts zero fs s ok h k = simp zero-mul
  write_frames_lem ts (suc j) fs s ok h k =
      rw (write_tracks_lem ts fs s ok (omega arith) (omega arith)) (
        rw (write_frames_lem ts j (drop n fs) (drop b s) ok more room)
          (simp (drop-drop, suc-mul, append_assoc)))
    where
      n : ℕ
      n = length ts

      b : ℕ
      b = get_frame_size_from_desc_tracks ts

      more : j * length ts ≤ length (drop n fs)
      more = omega (arith, length-drop n fs)

      room : j * get_frame_size_from_desc_tracks ts ≤ length (drop b s)
      room = omega (arith, length-drop b s)

  -- The blocks after a transfer that starts at the counter value `counter`.
  abbrev pub encode_blocks : List Track → ℕ → List Float → List UsbBlk → List UsbBlk
  encode_blocks ts counter fs [] = []
  encode_blocks ts counter fs (blk ∷ blks) =
      record blk { frames = swap16 counter; samples = encode_frames ts ob_frames_per_block fs }
      ∷ encode_blocks ts (u16 (counter + ob_frames_per_block))
          (drop (ob_frames_per_block * length ts) fs) blks

  -- A block holds seven frames of the tracks.
  abbrev pub Fits : List Track → UsbBlk → Type 0
  Fits ts blk = length blk.samples ≡ ob_frames_per_block * get_frame_size_from_desc_tracks ts

  -- With samples of three or four bytes, blocks of the right size, at least as many floats as the
  -- blocks hold, and a counter of 16 bits: the write returns, with no access out of bounds, and
  -- each block gets the counter and the encoding of its frames; the counter grows by seven for
  -- each block, modulo 2 ^ 16.
  pub write_blocks_lem :
      (ts : List Track) (counter : ℕ) (fs : List Float) (blks : List UsbBlk)
      → All HasSampleSize ts
      → All (Fits ts) blks
      → length blks * (ob_frames_per_block * length ts) ≤ length fs
      → counter < 2 ^ 16
      → write_blocks F type ts counter fs blks
        ≡ some (u16 (counter + ob_frames_per_block * length blks), encode_blocks ts counter fs blks)
  unfolding write_blocks
  write_blocks_lem ts counter fs [] ok fit h c = ap (λ k. some (k, [])) (omega arith)
  write_blocks_lem ts counter fs (blk ∷ blks) ok fit h c =
      rw (write_frames_lem ts ob_frames_per_block fs blk.samples ok (omega arith) (omega arith)) (
        rw
          (write_blocks_lem ts (u16 (counter + 7)) (drop (7 * length ts) fs) blks ok fit.1 more
            (omega arith))
          (rw
            (
              drop-length (7 * get_frame_size_from_desc_tracks ts) blk.samples fit.0,
              append-nil (encode_frames ts 7 fs),
            )
            (ap (λ k. some (k, encode_blocks ts counter fs (blk ∷ blks))) (omega arith))))
    where
      more : length blks * (7 * length ts) ≤ length (drop (7 * length ts) fs)
      more = omega (arith, length-drop (7 * length ts) fs)

  -- A transfer keeps the number of the blocks and the room in each.
  pub encode_blocks-Fits :
      (ts : List Track) (counter : ℕ) (fs : List Float) (blks : List UsbBlk)
      → All HasSampleSize ts
      → length blks * (7 * length ts) ≤ length fs
      → All (Fits ts) (encode_blocks ts counter fs blks)
        × (length (encode_blocks ts counter fs blks) ≡ length blks)
  encode_blocks-Fits ts counter fs [] ok h = (tt, omega arith)
  encode_blocks-Fits ts counter fs (blk ∷ blks) ok h =
      let (fit, len) =
        encode_blocks-Fits ts (u16 (counter + 7)) (drop (7 * length ts) fs) blks ok
          (omega (arith, length-drop (7 * length ts) fs)) in
      ((length-encode_frames ts 7 fs ok (omega arith), fit), omega (arith, len))
