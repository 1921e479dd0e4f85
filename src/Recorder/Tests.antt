-- ===== src/Recorder/Tests.antt =====
-- A device of two outputs of which the first is recorded: a write, runs of the two threads, and
-- the theorems at them.
use overwitch.Prelude.{
  ℕ, ◌+◌, ◌≡◌, ◌≢◌, refl, sym, ltb, true, false, inl, Runs, some, [], ◌∷◌, ◌++◌, replicate,
  length-replicate, set_elem, arith,
}
use overwitch.Recorder.State.{
  end, empty, ready, Mask, Comparisons, Recorder, is_recorded, is_full, buffer_write, dump,
}
use overwitch.Recorder.Tracks.{channels, kept_frames, kept}
use overwitch.Recorder.Write.{IsValid, IsWritten, buffer_write-IsWritten, recorded}
use overwitch.Recorder.Threads.{
  looking, dumping, returned, Program, Reach, here, next, written, dumped, IsRecording,
  Reach-recorded, lost_end,
}
use overwitch.Recorder.Outputs.{count_marks, count_outputs, count_outputs_lem, surplus}

abbrev plain : Comparisons ℕ
plain = record { is_positive = λ x. true; lt = ltb }

abbrev mask : Mask
mask = some (b'1' ∷ b'0' ∷ [])

abbrev started : Recorder ℕ
started = record {
  mem = replicate 1000 0;
  disk = replicate 1000 0;
  len = 1000;
  disk_samples = 0;
  disk_frames = 0;
  status = ready;
  outputs = 1;
  pos = 0;
  frames = 0;
  maxs = 0 ∷ 0 ∷ [];
  mins = 0 ∷ 0 ∷ [];
  file = [];
}

first_only : kept_frames {Float = ℕ} mask 2 2 (1 ∷ 2 ∷ 3 ∷ 4 ∷ []) ≡ 1 ∷ 3 ∷ []
unfolding kept_frames kept is_recorded
first_only = refl

started-IsValid : IsValid mask 2 started
unfolding count_outputs count_marks
started-IsValid = record {
  held_frames = 0;
  some_tracks = omega arith;
  outputs = refl;
  no_surplus = refl;
  some_outputs = omega arith;
  len = omega arith;
  mem = length-replicate {A = ℕ} 1000 0;
  disk = length-replicate {A = ℕ} 1000 0;
  pos = refl;
  pos_in = omega arith;
  disk_samples = omega arith;
  maxs = omega arith;
  mins = omega arith;
}

buffer_write-IsWritten_example :
    Runs
      (buffer_write plain mask 2 (1 ∷ 2 ∷ 3 ∷ 4 ∷ []) 16 started)
      (IsWritten mask 2 2 16 (1 ∷ 2 ∷ 3 ∷ 4 ∷ []) started)
buffer_write-IsWritten_example =
    buffer_write-IsWritten plain mask 2 2 (1 ∷ 2 ∷ 3 ∷ 4 ∷ []) 16 started started-IsValid refl
      (omega arith) (omega arith)

count_outputs_lem_example :
    count_outputs (some (b'1' ∷ b'0' ∷ b'1' ∷ [])) 2
    ≡ channels (some (b'1' ∷ b'0' ∷ b'1' ∷ [])) 2 0 + surplus (some (b'1' ∷ b'0' ∷ b'1' ∷ [])) 2
count_outputs_lem_example = count_outputs_lem (some (b'1' ∷ b'0' ∷ b'1' ∷ [])) 2

abbrev program : Program ℕ
program = record { recorder = started; place = looking; recording = true; ended = false }

program-IsRecording : IsRecording plain mask 2 program
program-IsRecording = record {
  valid = started-IsValid;
  going = refl;
  waits = λ h. absurd (ground arith);
}

-- The recorder after a write of two frames.
abbrev after : Recorder ℕ
after = record started { mem = 1 ∷ 3 ∷ replicate 998 0; pos = 8; maxs = 3 ∷ 0 ∷ [] }

after_lem : buffer_write plain mask 2 (1 ∷ 2 ∷ 3 ∷ 4 ∷ []) 16 started ≡ some (16, after)
unfolding buffer_write is_full is_recorded set_elem
after_lem = refl

one_write : Reach plain mask 2 program (1 ∷ 3 ∷ []) (record program { recorder = after })
unfolding is_full
one_write =
    next (here refl)
      (written 2 (1 ∷ 2 ∷ 3 ∷ 4 ∷ []) refl (omega arith) (omega arith) (λ h. absurd (cc)) after_lem
        (sym first_only))
      refl

Reach-recorded_example :
    IsRecording plain mask 2 (record program { recorder = after })
    × (recorded after ≡ recorded started ++ 1 ∷ 3 ∷ [])
Reach-recorded_example = Reach-recorded plain mask 2 one_write program-IsRecording refl

-- The end is announced while the thread is behind its test.
abbrev too_late : Program ℕ
too_late = record {
  recorder = record started { status = end };
  place = dumping;
  recording = false;
  ended = true;
}

abbrev overwritten : Program ℕ
overwritten = record too_late { recorder = record started { status = empty }; place = looking }

one_dump : Reach plain mask 2 too_late [] overwritten
unfolding dump
one_dump = next (here refl) (dumped refl refl refl) refl

lost_end_example : overwritten.place ≢ returned
lost_end_example =
    lost_end plain mask 2 one_dump (record { over = refl; announced = refl; missed = inl refl })
