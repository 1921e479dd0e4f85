-- ===== src/Recorder/Threads.antt =====
-- The two threads of src/main-record.c, the one of the engine with `buffer_write` and that of
-- `dump_buffer`, and how `run_record` ends the second. A step is one access under the lock.
use overwitch.Prelude.{
  ℕ, ◌*◌, ◌≤◌, ◌≡◌, ◌≢◌, refl, sym, ap, ap₂, ◌∙◌, Bool, true, false, some, ◌⊎◌, inl, inr,
  if◌then◌else◌, Bool-cases, Runs-result, List, [], ◌++◌, append-nil, append_assoc, length, arith,
}
use overwitch.Recorder.State.{
  BufferStatus, end, empty, ready, Mask, Comparisons, Recorder, bytes_per_sample, is_full, dump,
  buffer_write,
}
use overwitch.Recorder.Tracks.{kept_frames}
use overwitch.Recorder.Write.{
  IsValid, IsWritten, buffer_write-IsWritten, dump-IsValid, pending, held, recorded,
}

-- Where the thread of `dump_buffer` is: before it reads the status, or behind the test that found
-- it to be `READY`, or returned.
pub data Place : Type 0 where
  looking dumping returned : Place

pub record Program (Float : Type 0) : Type 0 where
  pub recorder : Recorder Float
  pub place : Place
  -- `ow_engine_wait` has not returned.
  pub recording : Bool
  -- `run_record` has set the status to `END`.
  pub ended : Bool

-- `dump_buffer`, as far as it looks at the status.
unfoldable pub look : BufferStatus → Place
look end = returned
look empty = looking
look ready = dumping

module _ {Float : Type 0} (O : Comparisons Float) (mask : Mask) (tracks : ℕ) where
  pub data Step (p : Program Float) : List Float → Program Float → Type 0 where
    -- The engine brings `n` frames, and memory is not full while a buffer waits for the disk.
    written :
        (n : ℕ) (buf : List Float) {size : ℕ} {r : Recorder Float} {xs : List Float}
        → p.recording ≡ true
        → n ≤ 1000
        → n * tracks ≤ length buf
        → (is_full n p.recorder ≡ true → pending p.recorder ≡ [])
        → buffer_write O mask tracks buf (n * (tracks * bytes_per_sample)) p.recorder
          ≡ some (size, r)
        → xs ≡ kept_frames mask tracks n buf
        → Step p xs (record p { recorder = r })
    looked :
        {xs : List Float} {q : Place}
        → p.place ≡ looking
        → q ≡ look p.recorder.status
        → xs ≡ []
        → Step p xs (record p { place = q })
    dumped :
        {r : Recorder Float} {xs : List Float}
        → p.place ≡ dumping
        → dump p.recorder ≡ some r
        → xs ≡ []
        → Step p xs (record p { recorder = r; place = looking })
    stopped : {xs : List Float} → xs ≡ [] → Step p xs (record p { recording = false })
    set_end :
        {xs : List Float}
        → p.recording ≡ false
        → p.ended ≡ false
        → xs ≡ []
        → Step p xs (record p { recorder = record p.recorder { status = end }; ended = true })

  -- Steps one after another, with all the samples that came in.
  pub data Reach (p : Program Float) : List Float → Program Float → Type 0 where
    here : {xs : List Float} → xs ≡ [] → Reach p xs p
    next :
        {q s : Program Float} {xs ys zs : List Float}
        → Reach p xs q
        → Step q ys s
        → zs ≡ xs ++ ys
        → Reach p zs s

  -- While the program records: the buffers are valid, and a thread behind the test finds a buffer.
  pub record IsRecording (p : Program Float) : Type 0 where
    pub valid : IsValid mask tracks p.recorder
    pub going : p.ended ≡ false
    pub waits : p.place ≡ dumping → p.recorder.status ≡ ready

  written-recorded :
      (n bytes size : ℕ) (buf : List Float) (r r' : Recorder Float)
      → IsWritten mask tracks n bytes buf r (size, r')
      → (is_full n r ≡ true → pending r ≡ [])
      → recorded r' ≡ recorded r ++ kept_frames mask tracks n buf
  written-recorded n bytes size buf r r' w fits =
      ap₂ ◌++◌ w.same_file (w.in_order ∙ ap (λ q. q ++ (held r ++ new)) waiting)
      ∙ ap (λ h. r.file ++ h) (sym (append_assoc (pending r) (held r) new))
      ∙ sym (append_assoc r.file (pending r ++ held r) new)
    where
      new : List Float
      new = kept_frames mask tracks n buf

      waiting : (if is_full n r then [] else pending r) ≡ pending r
      waiting = elim (Bool-cases (is_full n r)) [ inl e ↦ rw e (sym (fits e)) | inr e ↦ rw e refl ]

  look-dumping : (s : BufferStatus) → look s ≡ dumping → s ≡ ready
  unfolding look
  look-dumping end h = absurd (cc)
  look-dumping empty h = absurd (cc)
  look-dumping ready h = refl

  abbrev IsDumped : Recorder Float → Recorder Float → Type 0
  IsDumped r r' = IsValid mask tracks r' × (recorded r' ≡ recorded r) × (r'.pos ≡ r.pos)

  Step-recorded :
      {p q : Program Float} {xs : List Float}
      → Step p xs q
      → IsRecording p
      → q.ended ≡ false
      → IsRecording q × (recorded q.recorder ≡ recorded p.recorder ++ xs)
  Step-recorded {p} (written n buf {size} {r} e few enough fits w x) i g =
      let bytes = n * (tracks * bytes_per_sample) in
      let out =
        Runs-result (IsWritten mask tracks n bytes buf p.recorder)
          (buffer_write O mask tracks buf bytes p.recorder) (size, r)
          (buffer_write-IsWritten O mask tracks n buf bytes p.recorder i.valid refl few enough) w in
      (
        record { valid = out.valid; going = g; waits = λ d. out.still_ready (i.waits d) },
        written-recorded n bytes size buf p.recorder r out fits
            ∙ ap (λ h. recorded p.recorder ++ h) (sym x),
      )
  Step-recorded (looked e k x) i g = (
    record { valid = i.valid; going = g; waits = λ d. look-dumping _ (sym k ∙ d) },
    rw x (sym (append-nil _)),
  )
  Step-recorded {p} (dumped {r} e d x) i g =
      let out =
        Runs-result (IsDumped p.recorder) (dump p.recorder) r
          (dump-IsValid mask tracks p.recorder i.valid (i.waits e)) d in
      (
        record { valid = out.0; going = g; waits = λ h. absurd (cc) },
        out.1 ∙ rw x (sym (append-nil _)),
      )
  Step-recorded (stopped x) i g =
      (record { valid = i.valid; going = g; waits = i.waits }, rw x (sym (append-nil _)))
  Step-recorded (set_end e f x) i g = absurd (cc)

  going-before :
      {p q : Program Float} {xs : List Float} → Step p xs q → q.ended ≡ false → p.ended ≡ false
  going-before (written n buf e few enough fits w x) h = h
  going-before (looked e k x) h = h
  going-before (dumped e d x) h = h
  going-before (stopped x) h = h
  going-before (set_end e f x) h = f

  -- From a valid recorder on, while the end has not been announced, and where no frames come that
  -- fill the memory while a buffer waits for the disk: the file, the buffer that waits and the
  -- memory hold, in order, what they held and then every recorded sample that came in, however the
  -- two threads take turns.
  pub Reach-recorded :
      {p q : Program Float} {xs : List Float}
      → Reach p xs q
      → IsRecording p
      → q.ended ≡ false
      → IsRecording q × (recorded q.recorder ≡ recorded p.recorder ++ xs)
  Reach-recorded (here x) i h = (i, rw x (sym (append-nil _)))
  Reach-recorded {p} (next {s = s} {xs} {ys} r st z) i h =
      let (j, before) = Reach-recorded r i (going-before st h) in
      let (k, after) = Step-recorded st j h in
      (
        k,
        after
            ∙ ap (λ l. l ++ ys) before
            ∙ append_assoc (recorded p.recorder) xs ys
            ∙ ap (λ l. recorded p.recorder ++ l) (sym z),
      )

  -- The end was announced and is not the status any more, or is about to be overwritten.
  pub record IsLost (p : Program Float) : Type 0 where
    pub over : p.recording ≡ false
    pub announced : p.ended ≡ true
    pub missed : (p.place ≡ dumping) ⊎ ((p.place ≡ looking) × (p.recorder.status ≡ empty))

  look_empty : look empty ≡ looking
  unfolding look
  look_empty = refl

  missed-look :
      (a : Place) (s : BufferStatus)
      → a ≡ looking
      → (a ≡ dumping) ⊎ ((a ≡ looking) × (s ≡ empty))
      → (look s ≡ looking) × (s ≡ empty)
  missed-look a s e (inl d) = absurd (cc)
  missed-look a s e (inr (l, m)) = rw m (look_empty, refl)

  dump-empty : (r r' : Recorder Float) → dump r ≡ some r' → r'.status ≡ empty
  unfolding dump
  dump-empty r r' h = ground arith

  Step-IsLost : {p q : Program Float} {xs : List Float} → Step p xs q → IsLost p → IsLost q
  Step-IsLost (written n buf e few enough fits w x) l = absurd (cc (l.over))
  Step-IsLost {p} (looked e k x) l =
      let (still, same) = missed-look p.place p.recorder.status e l.missed in
      record { over = l.over; announced = l.announced; missed = inr (k ∙ still, same) }
  Step-IsLost {p} (dumped {r} e d x) l = record {
    over = l.over;
    announced = l.announced;
    missed = inr (refl, dump-empty p.recorder r d);
  }
  Step-IsLost (stopped x) l = record { over = refl; announced = l.announced; missed = l.missed }
  Step-IsLost (set_end e f x) l = absurd (cc (l.announced))

  Reach-IsLost : {p q : Program Float} {xs : List Float} → Reach p xs q → IsLost p → IsLost q
  Reach-IsLost (here x) l = l
  Reach-IsLost (next r st z) l = Step-IsLost st (Reach-IsLost r l)

  -- Where the end is announced while the thread of the disk is behind its test, that thread
  -- overwrites it and never returns, so that `run_record` waits for it for good.
  pub lost_end :
      {p q : Program Float} {xs : List Float} → Reach p xs q → IsLost p → q.place ≢ returned
  lost_end r l h = elim ((Reach-IsLost r l).missed) [ inl d ↦ cc | inr (m, s) ↦ cc ]
