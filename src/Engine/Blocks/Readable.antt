-- ===== src/Engine/Blocks/Readable.antt =====
-- `ow_engine_read_usb_input_blocks` reads inside its blocks, whatever they hold.
use native.Mathlib.Nat.{add_comm}
use overwitch.Prelude.{
  ℕ, zero, suc, ◌*◌, ◌≤◌, ◌≡◌, refl, some, List, [], ◌∷◌, ◌++◌, All, arith, length, length-append,
  drop, drop-drop, length-drop,
}
use overwitch.Numeric.{Floats}
use overwitch.Device.{DeviceType, Track, get_frame_size_from_desc_tracks}
use overwitch.Device.Size.{frame_size-cons, frame_size-nil}
use overwitch.Engine.Sample.{read_sample_total}
use overwitch.Engine.Blocks.{UsbBlk, dequantize, read_tracks, read_frames, read_blocks}
use overwitch.Engine.Blocks.Written.{HasSampleSize, Fits, le-four}

module _ (F : Floats) (type : DeviceType) where
  open F use {Float}

  read_tracks_total :
      (ts : List Track) (hv : ℕ) (s : List ℕ)
      → All HasSampleSize ts
      → get_frame_size_from_desc_tracks ts ≤ length s
      → (hv' : ℕ) × (fs : List Float) × (read_tracks F type ts hv s
          ≡ some (hv', fs, drop (get_frame_size_from_desc_tracks ts) s))
        × (length fs ≡ length ts)
  unfolding read_tracks
  read_tracks_total [] hv s ok h = (hv, [], rw frame_size-nil, refl)
  read_tracks_total (t ∷ ts) hv s ok h =
      let (v, r) =
        read_sample_total type t.size hv s (le-four ok.0) (omega (arith, frame_size-cons t ts)) in
      let (hv', fs, q, l) =
        read_tracks_total ts v (drop t.size s) ok.1
          (omega (arith, frame_size-cons t ts, length-drop t.size s)) in
      (
        hv',
        dequantize F v ∷ fs,
        rw r (
            rw q (
              rw (
                drop-drop,
                frame_size-cons t ts,
                add_comm t.size (get_frame_size_from_desc_tracks ts),
              ))),
        omega (arith, l),
      )

  read_frames_total :
      (ts : List Track) (j hv : ℕ) (s : List ℕ)
      → All HasSampleSize ts
      → j * get_frame_size_from_desc_tracks ts ≤ length s
      → (hv' : ℕ) × (fs : List Float) × (read_frames F type ts j hv s ≡ some (hv', fs))
        × (length fs ≡ j * length ts)
  unfolding read_frames
  read_frames_total ts zero hv s ok h = (hv, [], refl, omega arith)
  read_frames_total ts (suc j) hv s ok h =
      let b : ℕ = get_frame_size_from_desc_tracks ts in
      let (hv₁, fs, r, l) = read_tracks_total ts hv s ok (omega arith) in
      let (hv₂, fs', r', l') =
        read_frames_total ts j hv₁ (drop b s) ok (omega (arith, length-drop b s)) in
      (hv₂, fs ++ fs', rw r (rw r'), omega (arith, l, l', length-append fs fs'))

  -- With samples of three or four bytes and blocks of the right size, the read returns, with no
  -- access out of bounds, and gives as many floats as the frames of the blocks have samples.
  pub read_blocks_total :
      (ts : List Track) (hv : ℕ) (blks : List UsbBlk)
      → All HasSampleSize ts
      → All (Fits F type ts) blks
      → (fs : List Float) × (read_blocks F type ts hv blks ≡ some fs)
        × (length fs ≡ length blks * (7 * length ts))
  unfolding read_blocks
  read_blocks_total ts hv [] ok fit = ([], refl, omega arith)
  read_blocks_total ts hv (blk ∷ blks) ok fit =
      let (hv₁, fs, r, l) = read_frames_total ts 7 hv blk.samples ok (omega arith) in
      let (fs', r', l') = read_blocks_total ts hv₁ blks ok fit.1 in
      (fs ++ fs', rw r (rw r'), omega (arith, l, l', length-append fs fs'))
