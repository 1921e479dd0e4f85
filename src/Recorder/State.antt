-- ===== src/Recorder/State.antt =====
-- The static state of src/main-record.c and `buffer_write`, which the engine calls with the frames
-- of a transfer, and `dump_buffer`, which runs in a thread of its own.
-- `none` is an access out of bounds or a division by zero. The sizes are those of memory that is
-- allocated, so that no `size_t` wraps.
use overwitch.Prelude.{
  ℕ, zero, suc, ◌+◌, ◌*◌, ◌/◌, ltb, leb, ◌==◌, Bool, true, false, not, ◌&&◌, if◌then◌else◌, Option,
  none, some, ◌>>=◌, List, [], ◌∷◌, ◌++◌, length, get_elem?, take, set_elem, store,
}

-- `buffer_status_t`
pub data BufferStatus : Type 0 where
  end empty ready : BufferStatus

abbrev pub is_ready : BufferStatus → Bool
is_ready ready = true
is_ready _ = false

-- `OW_BYTES_PER_SAMPLE`
abbrev pub bytes_per_sample : ℕ
bytes_per_sample = 4

-- The comparisons of floats that `buffer_write` makes.
pub record Comparisons (Float : Type 0) : Type 0 where
  pub is_positive : Float → Bool
  pub lt : Float → Float → Bool

-- `track_mask`: the characters of the argument, if there is one.
abbrev pub Mask : Type 0
Mask = Option (List ℕ)

abbrev not_zero : Option ℕ → Bool
not_zero none = false
not_zero (some c) = not (c == b'0')

-- `!track_mask || (j < buffer.outputs_mask_len && (track_mask[j] != '0'))`, where
-- `outputs_mask_len` is the length of the mask.
unfoldable pub is_recorded : Mask → ℕ → Bool
is_recorded none j = true
is_recorded (some mask) j = ltb j (length mask) && not_zero (get_elem? mask j)

module _ (Float : Type 0) where
  -- `struct buffer` without its thread, `pos` of `buffer_write`, `sfinfo.frames`, the two arrays
  -- of peaks, and what `sf_write_float` has appended to the file.
  pub record Recorder : Type 0 where
    pub mem : List Float
    pub disk : List Float
    pub len : ℕ
    pub disk_samples : ℕ
    pub disk_frames : ℕ
    pub status : BufferStatus
    pub outputs : ℕ
    pub pos : ℕ
    pub frames : ℕ
    pub maxs : List Float
    pub mins : List Float
    pub file : List Float

module _ {Float : Type 0} (O : Comparisons Float) where
  open O use {is_positive, lt}

  -- The part of the state that the loops change.
  pub record Taken : Type 0 where
    pub mem : List Float
    pub pos : ℕ
    pub maxs : List Float
    pub mins : List Float

  unfoldable pub raise : List Float → ℕ → Float → Option (List Float)
  raise maxs j x = do m ← get_elem? maxs j; if lt m x then set_elem maxs j x else some maxs

  unfoldable pub lower : List Float → ℕ → Float → Option (List Float)
  lower mins j x = do m ← get_elem? mins j; if lt x m then set_elem mins j x else some mins

  -- The peak of track `j` after the sample `x`.
  unfoldable pub take_peak : ℕ → Float → Taken → Option Taken
  unfolding raise lower
  take_peak j x s =
      if is_positive x
      then (do maxs ← raise s.maxs j x; some (record s { maxs = maxs }))
      else (do mins ← lower s.mins j x; some (record s { mins = mins }))

  unfoldable pub take_sample : ℕ → Float → Taken → Option Taken
  unfolding take_peak
  take_sample j x s = do
    mem ← set_elem s.mem (s.pos / bytes_per_sample) x
    take_peak j x (record s { mem = mem; pos = s.pos + bytes_per_sample })

  -- The loop over the last `k` tracks of a frame, from `j` on, and what is left of `buf`.
  unfoldable pub take_tracks : Mask → ℕ → ℕ → List Float → Taken → Option (List Float × Taken)
  unfolding take_sample
  take_tracks mask zero j buf s = some (buf, s)
  take_tracks mask (suc k) j [] s = none
  take_tracks mask (suc k) j (x ∷ buf) s = do
    s' ← if is_recorded mask j then take_sample j x s else some s
    take_tracks mask k (j + 1) buf s'

  -- The loop over the frames, of `tracks` samples each.
  unfoldable pub take_frames : Mask → ℕ → ℕ → List Float → Taken → Option Taken
  unfolding take_tracks
  take_frames mask tracks zero buf s = some s
  take_frames mask tracks (suc n) buf s = do
    (buf', s') ← take_tracks mask tracks 0 buf s
    take_frames mask tracks n buf' s'

module _ {Float : Type 0} where
  -- `new_pos >= buffer.len`
  unfoldable pub is_full : ℕ → Recorder Float → Bool
  is_full frames r = leb r.len (r.pos + frames * r.outputs * bytes_per_sample)

  -- What is in memory is handed over to the thread of the disk.
  unfoldable pub hand_over : Recorder Float → Option (Recorder Float)
  hand_over r = if r.outputs == 0 then none else (do
    let disk_samples = r.pos / bytes_per_sample
    let disk_frames = disk_samples / r.outputs
    let bytes = disk_frames * r.outputs
    disk ← if leb bytes (length r.mem) then store r.disk (take bytes r.mem) else none
    some (record r {
      status = ready;
      disk_samples = disk_samples;
      disk_frames = disk_frames;
      disk = disk;
      frames = r.frames + disk_frames;
      pos = 0;
    }))

  -- A round of `dump_buffer` that found the status to be `READY`.
  unfoldable pub dump : Recorder Float → Option (Recorder Float)
  dump r =
      if leb r.disk_samples (length r.disk)
      then some (record r { file = r.file ++ take r.disk_samples r.disk; status = empty })
      else none

module _ {Float : Type 0} (O : Comparisons Float) where
  -- `buffer_write`, on a device with `tracks` outputs. It returns `size`.
  unfoldable pub buffer_write :
      Mask → ℕ → List Float → ℕ → Recorder Float → Option (ℕ × Recorder Float)
  unfolding is_full hand_over take_frames
  buffer_write mask tracks buf size r = if tracks == 0 then none else (do
    let frames = size / (tracks * bytes_per_sample)
    r' ← if is_full frames r then hand_over r else some r
    t ←
        take_frames O mask tracks frames buf
          (record { mem = r'.mem; pos = r'.pos; maxs = r'.maxs; mins = r'.mins })
    some (size, record r' { mem = t.mem; pos = t.pos; maxs = t.maxs; mins = t.mins }))
