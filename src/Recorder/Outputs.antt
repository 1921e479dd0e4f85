-- ===== src/Recorder/Outputs.antt =====
-- The number of channels that `run_record` of src/main-record.c gives the file.
use overwitch.Prelude.{
  ℕ, zero, suc, ◌+◌, ◌≡◌, refl, ap, ◌==◌, if◌then◌else◌, none, some, List, [], ◌∷◌, drop, arith,
}
use overwitch.Recorder.State.{Mask, is_recorded}
use overwitch.Recorder.Tracks.{channels}

-- The loop over the characters of the mask.
unfoldable pub count_marks : List ℕ → ℕ
count_marks [] = 0
count_marks (c ∷ cs) = (if c == b'0' then 0 else 1) + count_marks cs

-- `buffer.outputs`
unfoldable pub count_outputs : Mask → ℕ → ℕ
count_outputs none outputs = outputs
count_outputs (some mask) outputs = count_marks mask

count_marks-drop :
    (mask : List ℕ) (j : ℕ)
    → count_marks (drop j mask)
      ≡ (if is_recorded (some mask) j then 1 else 0) + count_marks (drop (suc j) mask)
unfolding count_marks is_recorded
count_marks-drop [] zero = refl
count_marks-drop [] (suc j) = ground arith
count_marks-drop (c ∷ cs) zero = ground arith
count_marks-drop (c ∷ cs) (suc j) = ground (arith, count_marks-drop cs j)

marks_from :
    (mask : List ℕ) (k j : ℕ)
    → channels (some mask) k j + count_marks (drop (j + k) mask) ≡ count_marks (drop j mask)
unfolding channels
marks_from mask zero j =
    let e : j + 0 ≡ j = omega arith in
    let same = ap (λ i. count_marks (drop i mask)) e in omega (arith, same)
marks_from mask (suc k) j =
    let e : j + suc k ≡ j + 1 + k = omega arith in
    let f : j + 1 ≡ suc j = omega arith in
    let same = ap (λ i. count_marks (drop i mask)) e in
    let this = ap (λ i. count_marks (drop i mask)) f in
    omega (arith, marks_from mask k (j + 1), count_marks-drop mask j, same, this)

every_track : (k j : ℕ) → channels none k j ≡ k
unfolding channels is_recorded
every_track zero j = refl
every_track (suc k) j = omega (arith, every_track k (j + 1))

-- The marks behind the last track, to which nothing is recorded.
abbrev pub surplus : Mask → ℕ → ℕ
surplus none tracks = 0
surplus (some mask) tracks = count_marks (drop tracks mask)

-- The file gets one channel for each track that is recorded, and one for each character other than
-- `0` that the mask has behind the last track of the device.
pub count_outputs_lem :
    (mask : Mask) (tracks : ℕ)
    → count_outputs mask tracks ≡ channels mask tracks 0 + surplus mask tracks
unfolding count_outputs
count_outputs_lem none tracks = omega (arith, every_track tracks 0)
count_outputs_lem (some mask) tracks =
    let e : 0 + tracks ≡ tracks = omega arith in
    let same = ap (λ i. count_marks (drop i mask)) e in
    omega (arith, marks_from mask tracks 0, same)
