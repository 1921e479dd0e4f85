-- ===== src/Recorder/Write.antt =====
-- `buffer_write` and `dump_buffer` of src/main-record.c keep every sample, in order, between the
-- file, the buffer that waits for the disk and the buffer in memory.
use native.Mathlib.Nat.{zero-add, mul-div_cancel}
use overwitch.Prelude.{
  ℕ, ◌+◌, ◌*◌, ◌/◌, ◌≤◌, ◌<◌, ◌≡◌, refl, sym, ap, ap₂, ◌∙◌, leb, le→leb, ◌==◌, true, false,
  if◌then◌else◌, Bool-cases, Option, some, ◌>>=◌, inl, inr, Runs, Runs-some, Runs-bind, List, [],
  ◌++◌, append-nil, append_assoc, length, length-take, take, store-take, arith,
}
use overwitch.Recorder.State.{
  ready, empty, is_ready, Mask, Comparisons, Recorder, Taken, bytes_per_sample, take_frames,
  is_full, hand_over, dump, buffer_write,
}
use overwitch.Recorder.Outputs.{count_outputs, surplus, count_outputs_lem}
use overwitch.Recorder.Tracks.{kept_frames, channels, length-kept_frames, take_frames-HasTaken}

-- The buffers are as `run_record` allocates them, for at least a kilobyte, with a mask that has no
-- marks behind the last track, and memory holds whole frames. With such marks `run_record` counts
-- more outputs than a frame has samples that are recorded, and this does not hold.
pub record IsValid {Float : Type 0} (mask : Mask) (tracks : ℕ) (r : Recorder Float) : Type 0 where
  pub held_frames : ℕ
  pub some_tracks : 0 < tracks
  pub outputs : r.outputs ≡ count_outputs mask tracks
  pub no_surplus : surplus mask tracks ≡ 0
  pub some_outputs : 0 < r.outputs
  pub len : 1000 * r.outputs ≤ r.len
  pub mem : length r.mem ≡ r.len
  pub disk : length r.disk ≡ r.len
  pub pos : r.pos ≡ held_frames * r.outputs * bytes_per_sample
  pub pos_in : held_frames * r.outputs ≤ r.len
  pub disk_samples : r.disk_samples ≤ r.len
  pub maxs : tracks ≤ length r.maxs
  pub mins : tracks ≤ length r.mins

module _ {Float : Type 0} where
  recorded_tracks :
      (mask : Mask) (tracks : ℕ) (r : Recorder Float)
      → IsValid mask tracks r
      → r.outputs ≡ channels mask tracks 0
  recorded_tracks mask tracks r v =
      omega (arith, v.outputs, v.no_surplus, count_outputs_lem mask tracks)

  -- What waits for the disk.
  abbrev pub pending : Recorder Float → List Float
  pending r = if is_ready r.status then take r.disk_samples r.disk else []

  -- What is in memory.
  abbrev pub held : Recorder Float → List Float
  held r = take (r.pos / bytes_per_sample) r.mem

  -- All the samples that were taken and not lost.
  abbrev pub recorded : Recorder Float → List Float
  recorded r = r.file ++ (pending r ++ held r)

  -- What a hand-over does.
  record IsHanded (r r' : Recorder Float) : Type 0 where
    handed : pending r' ≡ held r
    now_ready : r'.status ≡ ready
    nothing_left : r'.pos ≡ 0
    same_file : r'.file ≡ r.file
    same_mem : r'.mem ≡ r.mem
    same_maxs : r'.maxs ≡ r.maxs
    same_mins : r'.mins ≡ r.mins

  hand_over-IsHanded :
      (mask : Mask) (tracks : ℕ) (r : Recorder Float) (v : IsValid mask tracks r)
      → Runs
          (hand_over r)
          (λ r'. IsValid mask tracks r' × IsHanded r r' × (r'.frames ≡ r.frames + v.held_frames))
  unfolding hand_over
  hand_over-IsHanded mask tracks r v =
      let n = v.held_frames * r.outputs in
      let samples : r.pos / bytes_per_sample ≡ n = omega (arith, v.pos) in
      let whole : n / r.outputs ≡ v.held_frames = mul-div_cancel v.held_frames v.some_outputs in
      let some_outputs : (r.outputs == 0) ≡ false = ground (arith, v.some_outputs) in
      let fits : leb n (length r.mem) ≡ true = le→leb _ _ (omega (arith, v.mem, v.pos_in)) in
      let (disk, e, (same, front)) =
        store-take r.disk (take n r.mem) n (omega (arith, length-take n r.mem, v.mem, v.pos_in))
          (omega (arith, v.disk, v.pos_in)) in
      rw (some_outputs, samples, whole, fits, e)
        (
          record r {
            status = ready;
            disk_samples = n;
            disk_frames = v.held_frames;
            disk = disk;
            frames = r.frames + v.held_frames;
            pos = 0;
          },
          refl,
          (
            record {
              held_frames = 0;
              some_tracks = v.some_tracks;
              outputs = v.outputs;
              no_surplus = v.no_surplus;
              some_outputs = v.some_outputs;
              len = v.len;
              mem = v.mem;
              disk = same ∙ v.disk;
              pos = omega arith;
              pos_in = omega arith;
              disk_samples = v.pos_in;
              maxs = v.maxs;
              mins = v.mins;
            },
            record {
              handed = front ∙ ap (λ k. take k r.mem) (sym samples);
              now_ready = refl;
              nothing_left = refl;
              same_file = refl;
              same_mem = refl;
              same_maxs = refl;
              same_mins = refl;
            },
            refl,
          ),
        )

  pub dump-IsValid :
      (mask : Mask) (tracks : ℕ) (r : Recorder Float)
      → IsValid mask tracks r
      → r.status ≡ ready
      → Runs (dump r) (λ r'. IsValid mask tracks r' × (recorded r' ≡ recorded r) × (r'.pos ≡ r.pos))
  unfolding dump
  dump-IsValid mask tracks r v h =
      let fits : leb r.disk_samples (length r.disk) ≡ true =
        le→leb _ _ (omega (arith, v.disk, v.disk_samples)) in
      rw (fits, h)
        (
          record r { file = r.file ++ take r.disk_samples r.disk; status = empty },
          refl,
          (
            record {
              held_frames = v.held_frames;
              some_tracks = v.some_tracks;
              outputs = v.outputs;
              no_surplus = v.no_surplus;
              some_outputs = v.some_outputs;
              len = v.len;
              mem = v.mem;
              disk = v.disk;
              pos = v.pos;
              pos_in = v.pos_in;
              disk_samples = v.disk_samples;
              maxs = v.maxs;
              mins = v.mins;
            },
            append_assoc r.file _ _,
            refl,
          ),
        )

  -- What the loops add to a recorder.
  abbrev with_taken : (O : Comparisons Float) → Recorder Float → Taken O → Recorder Float
  with_taken O r t = record r { mem = t.mem; pos = t.pos; maxs = t.maxs; mins = t.mins }

  taken-IsValid :
      (O : Comparisons Float) (mask : Mask) (tracks n : ℕ) (buf : List Float) (r : Recorder Float)
      (v : IsValid mask tracks r)
      → n * tracks ≤ length buf
      → v.held_frames * r.outputs + n * r.outputs ≤ r.len
      → Runs
          (take_frames O mask tracks n buf
            (record { mem = r.mem; pos = r.pos; maxs = r.maxs; mins = r.mins }))
          (λ t.
            IsValid mask tracks (with_taken O r t)
            × (held (with_taken O r t) ≡ held r ++ kept_frames mask tracks n buf))
  taken-IsValid O mask tracks n buf r v enough room =
      let p = v.held_frames * r.outputs in
      let new = kept_frames mask tracks n buf in
      let channels_of = recorded_tracks mask tracks r v in
      let count : length new ≡ n * r.outputs =
        length-kept_frames mask tracks n buf enough ∙ ap (λ c. n * c) (sym channels_of) in
      let fits : p + n * channels mask tracks 0 ≤ length r.mem =
        rw (← channels_of) (omega (arith, room, v.mem)) in
      let (t, e, w) =
        take_frames-HasTaken O mask tracks n p buf
          (record { mem = r.mem; pos = r.pos; maxs = r.maxs; mins = r.mins }) v.pos enough fits
          v.maxs v.mins in
      let more : (v.held_frames + n) * r.outputs ≡ p + n * r.outputs = grind arith in
      let at : t.pos / bytes_per_sample ≡ p + length new = omega (arith, w.pos) in
      let before : r.pos / bytes_per_sample ≡ p = omega (arith, v.pos) in
      (
        t,
        e,
        (
          record {
            held_frames = v.held_frames + n;
            some_tracks = v.some_tracks;
            outputs = v.outputs;
            no_surplus = v.no_surplus;
            some_outputs = v.some_outputs;
            len = v.len;
            mem = w.mem_length ∙ v.mem;
            disk = v.disk;
            pos = w.pos ∙ omega (arith, more, count);
            pos_in = omega (arith, more, room);
            disk_samples = v.disk_samples;
            maxs = omega (arith, v.maxs, w.maxs_length);
            mins = omega (arith, v.mins, w.mins_length);
          },
          ap (λ k. take k t.mem) at ∙ w.held ∙ ap (λ k. take k r.mem ++ new) (sym before),
        ),
      )

  -- What a write of `n` frames leaves.
  pub record IsWritten (mask : Mask) (tracks n size : ℕ) (buf : List Float) (r : Recorder Float)
      (w : ℕ × Recorder Float) : Type 0 where
    pub all_written : w.0 ≡ size
    pub valid : IsValid mask tracks w.1
    pub same_file : w.1.file ≡ r.file
    pub still_ready : r.status ≡ ready → w.1.status ≡ ready
    pub in_order :
        pending w.1 ++ held w.1
        ≡ (if is_full n r then [] else pending r) ++ (held r ++ kept_frames mask tracks n buf)

  module _ (O : Comparisons Float) (mask : Mask) (tracks n : ℕ) (buf : List Float) where
    abbrev loop : Recorder Float → Option (Taken O)
    loop r =
        take_frames O mask tracks n buf
          (record { mem = r.mem; pos = r.pos; maxs = r.maxs; mins = r.mins })

    -- Whatever is handed over first, the frames are added to what is left in memory.
    finish-IsWritten :
        (size : ℕ) (r r' : Recorder Float) (v : IsValid mask tracks r')
        → r'.file ≡ r.file
        → (r.status ≡ ready → r'.status ≡ ready)
        → pending r' ++ held r' ≡ (if is_full n r then [] else pending r) ++ held r
        → n * tracks ≤ length buf
        → v.held_frames * r'.outputs + n * r'.outputs ≤ r'.len
        → Runs
            (loop r' >>= λ t. some (size, with_taken O r' t))
            (IsWritten mask tracks n size buf r)
    finish-IsWritten size r r' v file waiting order enough room =
        Runs-bind _ (loop r') _ _ (taken-IsValid O mask tracks n buf r' v enough room) (λ t w.
          Runs-some _ _ (record {
            all_written = refl;
            valid = w.0;
            same_file = file;
            still_ready = waiting;
            in_order =
                ap (λ h. pending r' ++ h) w.1
                ∙ sym (append_assoc (pending r') (held r') _)
                ∙ ap (λ h. h ++ kept_frames mask tracks n buf) order
                ∙ append_assoc (if is_full n r then [] else pending r) (held r) _;
          }))

    full-room : (r : Recorder Float) → n ≤ 1000 → 1000 * r.outputs ≤ r.len → n * r.outputs ≤ r.len
    full-room r h k = grind arith

    empty-room :
        (r : Recorder Float) (v : IsValid mask tracks r)
        → r.pos ≡ 0
        → n ≤ 1000
        → v.held_frames * r.outputs + n * r.outputs ≤ r.len
    empty-room r v e h =
        let nothing : v.held_frames * r.outputs ≡ 0 = omega (arith, e, v.pos) in
        rw nothing (rw zero-add (full-room r h v.len))

    handed-order : (r r' : Recorder Float) → IsHanded r r' → pending r' ++ held r' ≡ held r
    handed-order r r' h =
        ap₂ ◌++◌ h.handed (ap (λ p. take (p / bytes_per_sample) r'.mem) h.nothing_left)
        ∙ append-nil (held r)

    free-room :
        (r : Recorder Float) (p : ℕ)
        → is_full n r ≡ false
        → r.pos ≡ p * r.outputs * bytes_per_sample
        → p * r.outputs + n * r.outputs ≤ r.len
    unfolding is_full
    free-room r p h e = ground arith

    -- With the buffers that `run_record` allocates for at least a kilobyte, with a mask that has no
    -- marks behind the last track of the device, and with the samples of at most 1000 frames, a
    -- write returns and keeps the buffers so; it leaves the file alone, and
    -- what waits for the disk or is in memory is what was there before, in order, and then the
    -- samples of the tracks that are recorded; but if memory is full, what waited is gone.
    pub buffer_write-IsWritten :
        (size : ℕ) (r : Recorder Float)
        → IsValid mask tracks r
        → size ≡ n * (tracks * bytes_per_sample)
        → n ≤ 1000
        → n * tracks ≤ length buf
        → Runs (buffer_write O mask tracks buf size r) (IsWritten mask tracks n size buf r)
    unfolding buffer_write
    buffer_write-IsWritten size r v whole few enough =
        let tracked : (tracks == 0) ≡ false = ground (arith, v.some_tracks) in
        let pos : 0 < tracks * bytes_per_sample = omega (arith, v.some_tracks) in
        let count : size / (tracks * bytes_per_sample) ≡ n =
          ap (λ s. s / (tracks * bytes_per_sample)) whole ∙ mul-div_cancel n pos in
        rw (tracked, count)
          (elim (Bool-cases (is_full n r)) [
            | inl full ↦ rw full (
                Runs-bind _ (hand_over r) _ _ (hand_over-IsHanded mask tracks r v) (λ r' h.
                  finish-IsWritten size r r' h.0 h.1.same_file (λ _. h.1.now_ready)
                    (rw full (handed-order r r' h.1)) enough
                    (empty-room r' h.0 h.1.nothing_left few)))
            | inr free ↦ rw free (
                finish-IsWritten size r r v refl (λ e. e) (rw free refl) enough
                  (free-room r v.held_frames free v.pos))
          ])
