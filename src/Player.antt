-- ===== src/Player.antt =====
-- The static state of src/main-play.c, and `buffer_read_space` and `buffer_read`, which the engine
-- calls. `none` is an access out of bounds or a division by zero.
use overwitch.Prelude.{
  ℕ, zero, suc, ◌+◌, ◌-◌, ◌*◌, ◌/◌, ◌%◌, ◌^◌, ltb, ◌==◌, Bool, true, ◌||◌, if◌then◌else◌, Option,
  none, some, ◌>>=◌, List, [], ◌∷◌,
}
pub mod Played
pub mod Reads
pub mod Tests
use overwitch.Recorder.State.{Comparisons, bytes_per_sample, raise, lower}

-- `sf_readf_float` of libsndfile: how many frames were read, of a number of channels, their samples
-- and the file behind them.
pub record SoundFile (Float : Type 0) : Type 1 where
  pub File : Type 0
  pub readf : ℕ → ℕ → File → ℕ × (List Float × File)

-- `frames`, `sfinfo.frames`, the peaks and the file. `stopped` says whether `ow_engine_stop` was
-- called.
pub record Player (Float File : Type 0) : Type 0 where
  pub frames : ℕ
  pub total : ℕ
  pub maxs : List Float
  pub mins : List Float
  pub file : File
  pub stopped : Bool

module _ {Float File : Type 0} where
  -- `buffer_read_space`, on a device with that many inputs. The difference is one of signed
  -- 64-bit numbers, which the product makes unsigned.
  unfoldable pub buffer_read_space : ℕ → Player Float File → ℕ × Player Float File
  buffer_read_space inputs p =
      let space = (2 ^ 64 + p.total - p.frames) * inputs * bytes_per_sample % 2 ^ 64 in
      (space, if space == 0 then record p { stopped = true } else p)

module _ {Float : Type 0} (O : Comparisons Float) where
  open O use {is_positive}

  -- The two arrays of peaks after a sample of track `j`.
  unfoldable pub take_peak : ℕ → Float → List Float × List Float → Option (List Float × List Float)
  take_peak j x (maxs, mins) =
      if is_positive x
      then (do maxs' ← raise O maxs j x; some (maxs', mins))
      else (do mins' ← lower O mins j x; some (maxs, mins'))

  -- The loop over the last `k` tracks of a frame, from `j` on, with what is left of `buf`.
  unfoldable pub peak_tracks :
      ℕ → ℕ → List Float → List Float × List Float → Option (List Float × (List Float × List Float))
  peak_tracks zero j buf peaks = some (buf, peaks)
  peak_tracks (suc k) j [] peaks = none
  peak_tracks (suc k) j (x ∷ buf) peaks = do
    peaks' ← take_peak j x peaks
    peak_tracks k (j + 1) buf peaks'

  -- The loop over the frames.
  unfoldable pub peak_frames :
      ℕ → ℕ → List Float → List Float × List Float → Option (List Float × List Float)
  peak_frames inputs zero buf peaks = some peaks
  peak_frames inputs (suc n) buf peaks = do
    (buf', peaks') ← peak_tracks inputs 0 buf peaks
    peak_frames inputs n buf' peaks'

  -- `buffer_read`: the bytes that it returns, and the samples that are in `buf` then.
  unfoldable pub buffer_read :
      (S : SoundFile Float)
      → ℕ
      → ℕ
      → Player Float S.File
      → Option (ℕ × (List Float × Player Float S.File))
  buffer_read S inputs size p = if inputs == 0 then none else (do
    let wanted = size / (inputs * bytes_per_sample)
    let (read, (buf, file)) = S.readf inputs wanted p.file
    (maxs, mins) ← peak_frames inputs read buf (p.maxs, p.mins)
    some (
      read * (inputs * bytes_per_sample),
      (
        buf,
        record p {
          frames = p.frames + read;
          maxs = maxs;
          mins = mins;
          file = file;
          stopped = p.stopped || ltb read wanted;
        },
      ),
    ))
