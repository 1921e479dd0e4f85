-- ===== src/Engine/Blocks.antt =====
-- `struct ow_engine_usb_blk` of src/engine.h, and the loops of `ow_engine_read_usb_input_blocks`
-- and `ow_engine_write_usb_output_blocks` of src/engine.c. A pointer that walks over an array is
-- the rest of the array; `none` is an access out of bounds.
pub mod Written
pub mod Readable
pub mod RoundTrip
use overwitch.Prelude.{ℕ, zero, suc, ◌+◌, Option, none, some, ◌>>=◌, List, [], ◌∷◌, ◌++◌, drop}
use overwitch.Prelude.Words.{u16, swap16}
use overwitch.Numeric.{Floats}
use overwitch.Device.{DeviceType, Track}
use overwitch.Engine.Sample.{read_sample, write_sample}

-- The fixed part is 32 bytes: two `uint16_t` and `OB_PADDING_LEN` bytes.
pub record UsbBlk : Type 0 where
  pub header : ℕ
  pub frames : ℕ
  pub padding : List ℕ
  pub samples : List ℕ

abbrev pub ob_frames_per_block : ℕ
ob_frames_per_block = 7

module _ (F : Floats) where
  open F use {Float, mul, div, of_int32, to_int32, int32_max}

  -- `(int32_t) (*f * INT32_MAX)`
  abbrev pub quantize : Float → ℕ
  quantize f = to_int32 (mul f int32_max)

  -- `hv / (float) INT32_MAX`
  abbrev pub dequantize : ℕ → Float
  dequantize hv = div (of_int32 hv) int32_max

  -- The loop over the tracks: `hv` after it, the floats stored, and the rest of the block.
  unfoldable pub read_tracks :
      DeviceType → List Track → ℕ → List ℕ → Option (ℕ × List Float × List ℕ)
  read_tracks type [] hv s = some (hv, [], s)
  read_tracks type (track ∷ tracks) hv s = do
    v ← read_sample type track.size hv s
    (hv', fs, s') ← read_tracks type tracks v (drop track.size s)
    some (hv', dequantize v ∷ fs, s')

  -- The loop over the frames of a block, with the frames left.
  unfoldable pub read_frames : DeviceType → List Track → ℕ → ℕ → List ℕ → Option (ℕ × List Float)
  read_frames type tracks zero hv s = some (hv, [])
  read_frames type tracks (suc j) hv s = do
    (hv', fs, s') ← read_tracks type tracks hv s
    (hv'', fs') ← read_frames type tracks j hv' s'
    some (hv'', fs ++ fs')

  -- `ow_engine_read_usb_input_blocks`: what it stores from the start of `o2h_transfer_buf` on.
  -- `hv` is not initialised in the source, so its first value is an argument.
  unfoldable pub read_blocks : DeviceType → List Track → ℕ → List UsbBlk → Option (List Float)
  unfolding read_frames
  read_blocks type tracks hv [] = some []
  read_blocks type tracks hv (blk ∷ blks) = do
    (hv', fs) ← read_frames type tracks ob_frames_per_block hv blk.samples
    fs' ← read_blocks type tracks hv' blks
    some (fs ++ fs')

  -- The loop over the tracks: the floats left, the bytes written, and the rest of the block.
  unfoldable pub write_tracks :
      DeviceType → List Track → List Float → List ℕ → Option (List Float × List ℕ × List ℕ)
  write_tracks type [] fs s = some (fs, [], s)
  write_tracks type (track ∷ tracks) [] s = none
  write_tracks type (track ∷ tracks) (f ∷ fs) s = do
    (w, s') ← write_sample type track.size (quantize f) s
    (fs', w', s'') ← write_tracks type tracks fs s'
    some (fs', w ++ w', s'')

  -- The loop over the frames of a block: the floats left, and the new contents of the block.
  unfoldable pub write_frames :
      DeviceType → List Track → ℕ → List Float → List ℕ → Option (List Float × List ℕ)
  write_frames type tracks zero fs s = some (fs, s)
  write_frames type tracks (suc j) fs s = do
    (fs', w, s') ← write_tracks type tracks fs s
    (fs'', d) ← write_frames type tracks j fs' s'
    some (fs'', w ++ d)

  -- `ow_engine_write_usb_output_blocks`: `audio_frames_counter` after it, and the blocks.
  unfoldable pub write_blocks :
      DeviceType → List Track → ℕ → List Float → List UsbBlk → Option (ℕ × List UsbBlk)
  unfolding write_frames
  write_blocks type tracks counter fs [] = some (counter, [])
  write_blocks type tracks counter fs (blk ∷ blks) = do
    (fs', d) ← write_frames type tracks ob_frames_per_block fs blk.samples
    (counter', blks') ← write_blocks type tracks (u16 (counter + ob_frames_per_block)) fs' blks
    some (counter', record blk { frames = swap16 counter; samples = d } ∷ blks')
