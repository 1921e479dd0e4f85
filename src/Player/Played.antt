-- ===== src/Player/Played.antt =====
-- What `buffer_read` and `buffer_read_space` of src/main-play.c hand to the engine.
use overwitch.Prelude.{
  ℕ, zero, suc, ◌+◌, ◌-◌, ◌*◌, ◌/◌, ◌≤◌, ◌<◌, ◌≡◌, refl, ap, ap₂, ◌∙◌, ◌==◌, false, ltb, ◌||◌,
  Bool-cases, inl, inr, Runs, Runs-some, Runs-bind, List, [], ◌∷◌, ◌++◌, length, length-drop,
  length-take, take, drop, min, take-drop, arith,
}
use overwitch.Recorder.State.{Comparisons, bytes_per_sample, raise, lower}
use native.Mathlib.Nat.{div-eq_of_eq-mul_left, mul-le-mul_right, mul-sub}
use overwitch.Recorder.Tracks.{raise-length, lower-length}
use overwitch.Player.{SoundFile, Player, take_peak, peak_tracks, peak_frames, buffer_read}

-- What libsndfile documents: the next frames of the file, as many as are asked for or as are left.
pub record IsSequential {Float : Type 0} (S : SoundFile Float) : Type 0 where
  pub contents : S.File → List Float
  pub count : (k n : ℕ) (f : S.File) → 0 < k → (S.readf k n f).0 ≡ min n (length (contents f) / k)
  pub samples :
      (k n : ℕ) (f : S.File) → (S.readf k n f).1.0 ≡ take ((S.readf k n f).0 * k) (contents f)
  pub rest :
      (k n : ℕ) (f : S.File)
      → contents (S.readf k n f).1.1 ≡ drop ((S.readf k n f).0 * k) (contents f)

remains : (read left k : ℕ) {n : ℕ} → n ≡ left * k → n - read * k ≡ (left - read) * k
remains read left k h = omega (arith, h, mul-sub k left read)

module _ {Float : Type 0} (O : Comparisons Float) where
  open O use {is_positive}

  -- Both arrays have an element for each track.
  abbrev HasTracks : ℕ → List Float × List Float → Type 0
  HasTracks inputs peaks = (length peaks.0 ≡ inputs) × (length peaks.1 ≡ inputs)

  take_peak-HasTracks :
      (inputs j : ℕ) (x : Float) (peaks : List Float × List Float)
      → j < inputs
      → HasTracks inputs peaks
      → Runs (take_peak O j x peaks) (HasTracks inputs)
  unfolding take_peak
  take_peak-HasTracks inputs j x peaks h t = elim (Bool-cases (is_positive x)) [
    | inl up ↦ rw up (
        Runs-bind _ (raise O peaks.0 j x) _ _ (raise-length O peaks.0 j x (omega arith))
          (λ maxs e. Runs-some _ _ (omega (arith, e), t.1)))
    | inr down ↦ rw down (
        Runs-bind _ (lower O peaks.1 j x) _ _ (lower-length O peaks.1 j x (omega arith))
          (λ mins e. Runs-some _ _ (t.0, omega (arith, e))))
  ]

  peak_tracks-HasTracks :
      (inputs k j : ℕ) (buf : List Float) (peaks : List Float × List Float)
      → j + k ≤ inputs
      → k ≤ length buf
      → HasTracks inputs peaks
      → Runs (peak_tracks O k j buf peaks) (λ r. (r.0 ≡ drop k buf) × HasTracks inputs r.1)
  unfolding peak_tracks
  peak_tracks-HasTracks inputs zero j buf peaks h l t = Runs-some _ _ (refl, t)
  peak_tracks-HasTracks inputs (suc k) j [] peaks h l t = absurd (omega arith)
  peak_tracks-HasTracks inputs (suc k) j (x ∷ buf) peaks h l t =
      Runs-bind _ (take_peak O j x peaks) _ _ (take_peak-HasTracks inputs j x peaks (omega arith) t)
        (λ peaks' t'.
          peak_tracks-HasTracks inputs k (j + 1) buf peaks' (omega arith) (omega arith) t')

  peak_frames-HasTracks :
      (inputs n : ℕ) (buf : List Float) (peaks : List Float × List Float)
      → n * inputs ≤ length buf
      → HasTracks inputs peaks
      → Runs (peak_frames O inputs n buf peaks) (HasTracks inputs)
  unfolding peak_frames
  peak_frames-HasTracks inputs zero buf peaks l t = Runs-some _ _ t
  peak_frames-HasTracks inputs (suc n) buf peaks l t =
      let all : inputs + n * inputs ≤ length buf = grind arith in
      Runs-bind _ (peak_tracks O inputs 0 buf peaks) _ _
        (peak_tracks-HasTracks inputs inputs 0 buf peaks (omega arith) (omega (arith, all)) t)
        (λ r t'.
          peak_frames-HasTracks inputs n r.0 r.1
            (omega (arith, all, ap length t'.0, length-drop inputs buf)) t'.1)

  -- The player of a device with that many inputs and what is left of its file.
  pub record IsPlaying (S : SoundFile Float) (Q : IsSequential S) (inputs : ℕ)
      (p : Player Float S.File) : Type 0 where
    pub some_inputs : 0 < inputs
    pub frames : p.frames ≤ p.total
    pub left : length (Q.contents p.file) ≡ (p.total - p.frames) * inputs
    pub tracks : HasTracks inputs (p.maxs, p.mins)

  -- A read of a number of bytes.
  pub record HasRead (S : SoundFile Float) (Q : IsSequential S) (inputs asked : ℕ)
      (p : Player Float S.File) (r : ℕ × (List Float × Player Float S.File)) : Type 0 where
    pub valid : IsPlaying S Q inputs r.1.1
    pub bytes : r.0 ≡ length r.1.0 * bytes_per_sample
    pub size :
        length r.1.0 ≡ min (asked / (inputs * bytes_per_sample)) (p.total - p.frames) * inputs
    pub samples : r.1.0 ++ Q.contents r.1.1.file ≡ Q.contents p.file
    pub total : r.1.1.total ≡ p.total
    pub stopped :
        r.1.1.stopped
        ≡ (p.stopped || ltb (p.total - p.frames) (asked / (inputs * bytes_per_sample)))

  -- On a file that has the frames that its header tells, a read of any size returns: it hands over
  -- the next frames of the file, as many whole ones as fit in the size or as are left, and their
  -- bytes; what was left of the file is what was read and what is left then; and the engine is
  -- stopped exactly if there were fewer frames than were asked for.
  pub buffer_read-HasRead :
      (S : SoundFile Float) (Q : IsSequential S) (inputs size : ℕ) (p : Player Float S.File)
      → IsPlaying S Q inputs p
      → Runs (buffer_read O S inputs size p) (HasRead S Q inputs size p)
  unfolding buffer_read
  buffer_read-HasRead S Q inputs size p v =
      let wanted = size / (inputs * bytes_per_sample) in
      let left = length (Q.contents p.file) in
      let read = (S.readf inputs wanted p.file).0 in
      let buf = (S.readf inputs wanted p.file).1.0 in
      let nonzero : (inputs == 0) ≡ false = ground (arith, v.some_inputs) in
      let whole : left / inputs ≡ p.total - p.frames = div-eq_of_eq-mul_left v.some_inputs v.left in
      let count : read ≡ min wanted (p.total - p.frames) =
        Q.count inputs wanted p.file v.some_inputs ∙ ap (min wanted) whole in
      let enough : read ≤ p.total - p.frames = omega (arith, count) in
      let fits : read * inputs ≤ left = omega (arith, v.left, mul-le-mul_right inputs enough) in
      let filled : length buf ≡ read * inputs =
        ap length (Q.samples inputs wanted p.file)
        ∙ length-take (read * inputs) (Q.contents p.file)
        ∙ omega (arith, fits) in
      rw nonzero (
        Runs-bind _ (peak_frames O inputs read buf (p.maxs, p.mins)) _ _
          (peak_frames-HasTracks inputs read buf (p.maxs, p.mins) (omega (arith, filled)) v.tracks)
          (λ peaks t. Runs-some _ _ (record {
            valid = record {
              some_inputs = v.some_inputs;
              frames = omega (arith, count, v.frames);
              left =
                  ap length (Q.rest inputs wanted p.file)
                  ∙ length-drop (read * inputs) (Q.contents p.file)
                  ∙ remains read (p.total - p.frames) inputs v.left
                  ∙ ap (λ n. n * inputs) (omega arith);
              tracks = t;
            };
            bytes = grind (arith, filled);
            size = filled ∙ ap (λ n. n * inputs) count;
            samples =
                ap₂ (λ a b. a ++ b) (Q.samples inputs wanted p.file) (Q.rest inputs wanted p.file)
                ∙ take-drop (read * inputs) (Q.contents p.file);
            total = refl;
            stopped = ground (arith, count);
          })))
