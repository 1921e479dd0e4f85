-- ===== src/Player/Tests.antt =====
-- A file of three frames of two channels, and the theorems at it.
use overwitch.Prelude.{
  ℕ, ◌/◌, ◌*◌, ◌≡◌, refl, ltb, true, false, ◌||◌, ◌==◌, Runs, some, min, List, [], ◌∷◌, ◌++◌,
  length, take, drop, set_elem, arith,
}
use overwitch.Recorder.State.{Comparisons, bytes_per_sample, raise, lower}
use overwitch.Player.{
  SoundFile, Player, buffer_read_space, take_peak, peak_tracks, peak_frames, buffer_read,
}
use overwitch.Player.Played.{IsSequential, IsPlaying, HasRead, buffer_read-HasRead}
use overwitch.Player.Reads.{reads, reads_played}

abbrev plain : Comparisons ℕ
plain = record { is_positive = λ x. true; lt = ltb }

-- A file is the list of the samples that are left.
abbrev plain_file : SoundFile ℕ
plain_file = record {
  File = List ℕ;
  readf =
      λ k n f. let read = min n (length f / k) in (read, (take (read * k) f, drop (read * k) f));
}

abbrev plain_file-IsSequential : IsSequential plain_file
plain_file-IsSequential = record {
  contents = λ f. f;
  count = λ k n f h. refl;
  samples = λ k n f. refl;
  rest = λ k n f. refl;
}

abbrev player : Player ℕ (List ℕ)
player = record {
  frames = 0;
  total = 3;
  maxs = 0 ∷ 0 ∷ [];
  mins = 0 ∷ 0 ∷ [];
  file = 1 ∷ 5 ∷ 3 ∷ 2 ∷ 2 ∷ 9 ∷ [];
  stopped = false;
}

first_two :
    buffer_read plain plain_file 2 17 player
    ≡ some (
      16,
      (1 ∷ 5 ∷ 3 ∷ 2 ∷ [], record player { frames = 2; maxs = 3 ∷ 5 ∷ []; file = 2 ∷ 9 ∷ [] }),
    )
unfolding buffer_read peak_frames peak_tracks take_peak raise lower set_elem
first_two = refl

player-IsPlaying : IsPlaying plain plain_file plain_file-IsSequential 2 player
player-IsPlaying = record {
  some_inputs = omega arith;
  frames = omega arith;
  left = refl;
  tracks = (refl, refl);
}

buffer_read-HasRead_example :
    Runs
      (buffer_read plain plain_file 2 64 player)
      (HasRead plain plain_file plain_file-IsSequential 2 64 player)
buffer_read-HasRead_example =
    buffer_read-HasRead plain plain_file plain_file-IsSequential 2 64 player player-IsPlaying

reads_played_example : Runs (reads plain plain_file 2 (17 ∷ 64 ∷ []) player) (λ r.
    (r.0 ++ r.1.file ≡ player.file)
    × (((buffer_read_space 2 r.1).0 ≡ length r.1.file * bytes_per_sample)
        × ((buffer_read_space 2 r.1).1.stopped ≡ (r.1.stopped || length r.1.file == 0))))
reads_played_example =
    reads_played plain plain_file plain_file-IsSequential 2 (17 ∷ 64 ∷ []) player player-IsPlaying
      (omega arith)
