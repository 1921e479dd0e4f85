-- ===== src/Player/Reads.antt =====
-- Runs of `buffer_read` of src/main-play.c, and what `buffer_read_space` tells after them.
use overwitch.Prelude.{
  ℕ, ◌+◌, ◌-◌, ◌*◌, ◌^◌, ◌≤◌, ◌<◌, ◌≡◌, refl, ap, ◌∙◌, ◌||◌, ◌==◌, Option, some, ◌>>=◌, Runs,
  Runs-some, Runs-bind, List, [], ◌∷◌, ◌++◌, append_assoc, length, arith,
}
use native.Mathlib.Nat.{add-mul, mul-le-mul_right}
use overwitch.Recorder.State.{Comparisons, bytes_per_sample}
use overwitch.Player.{SoundFile, Player, buffer_read_space, buffer_read}
use overwitch.Player.Played.{IsSequential, IsPlaying, buffer_read-HasRead}

module _ {Float : Type 0} (O : Comparisons Float) where
  -- Reads of these numbers of bytes, one after the other, and all the samples that they hand over.
  unfoldable pub reads :
      (S : SoundFile Float)
      → ℕ
      → List ℕ
      → Player Float S.File
      → Option (List Float × Player Float S.File)
  reads S inputs [] p = some ([], p)
  reads S inputs (size ∷ sizes) p = do
    (bytes, (buf, p')) ← buffer_read O S inputs size p
    (rest, p'') ← reads S inputs sizes p'
    some (buf ++ rest, p'')

  -- What is known after some reads.
  pub record HasPlayed (S : SoundFile Float) (Q : IsSequential S) (inputs : ℕ)
      (p : Player Float S.File) (r : List Float × Player Float S.File) : Type 0 where
    pub valid : IsPlaying O S Q inputs r.1
    pub total : r.1.total ≡ p.total
    pub samples : r.0 ++ Q.contents r.1.file ≡ Q.contents p.file

  reads-HasPlayed :
      (S : SoundFile Float) (Q : IsSequential S) (inputs : ℕ) (sizes : List ℕ)
      (p : Player Float S.File)
      → IsPlaying O S Q inputs p
      → Runs (reads S inputs sizes p) (HasPlayed S Q inputs p)
  unfolding reads
  reads-HasPlayed S Q inputs [] p v =
      Runs-some _ _ (record { valid = v; total = refl; samples = refl })
  reads-HasPlayed S Q inputs (size ∷ sizes) p v =
      Runs-bind _ (buffer_read O S inputs size p) _ _ (buffer_read-HasRead O S Q inputs size p v)
        (λ r h.
          Runs-bind _ (reads S inputs sizes r.1.1) _ _
            (reads-HasPlayed S Q inputs sizes r.1.1 h.valid)
            (λ q k. Runs-some _ _ (record {
              valid = k.valid;
              total = k.total ∙ h.total;
              samples =
                  append_assoc r.1.0 q.0 (Q.contents q.1.file)
                  ∙ ap (λ s. r.1.0 ++ s) k.samples
                  ∙ h.samples;
            })))

  -- `buffer_read_space` tells the bytes of the samples that are left.
  space :
      (S : SoundFile Float) (Q : IsSequential S) (inputs : ℕ) (p : Player Float S.File)
      → IsPlaying O S Q inputs p
      → p.total * inputs * bytes_per_sample < 2 ^ 64
      → (buffer_read_space inputs p).0 ≡ length (Q.contents p.file) * bytes_per_sample
  unfolding buffer_read_space
  space S Q inputs p v b =
      let d = p.total - p.frames in
      let small : d * inputs ≤ p.total * inputs = mul-le-mul_right inputs (omega arith) in
      let whole : (2 ^ 64 + p.total - p.frames) * inputs ≡ 2 ^ 64 * inputs + d * inputs =
        ap (λ n. n * inputs) (omega (arith, v.frames)) ∙ add-mul (2 ^ 64) d inputs in
      omega (arith, small, whole, v.left, b)

  -- On a file that has the frames that its header tells, and with less than `2 ^ 64` bytes,
  -- any sequence of reads returns. The samples that they have handed over, and then
  -- those that are left, are the file from where they began; `buffer_read_space` then tells the
  -- bytes of the samples that are left, and stops the engine exactly if there are none.
  pub reads_played :
      (S : SoundFile Float) (Q : IsSequential S) (inputs : ℕ) (sizes : List ℕ)
      (p : Player Float S.File)
      → IsPlaying O S Q inputs p
      → p.total * inputs * bytes_per_sample < 2 ^ 64
      → Runs (reads S inputs sizes p) (λ r.
        (r.0 ++ Q.contents r.1.file ≡ Q.contents p.file)
        × (((buffer_read_space inputs r.1).0 ≡ length (Q.contents r.1.file) * bytes_per_sample)
            × ((buffer_read_space inputs r.1).1.stopped
                ≡ (r.1.stopped || length (Q.contents r.1.file) == 0))))
  unfolding buffer_read_space
  reads_played S Q inputs sizes p v b =
      let (r, e, k) = reads-HasPlayed S Q inputs sizes p v in
      let left = space S Q inputs r.1 k.valid (rw k.total b) in
      (r, e, (k.samples, (left, ground (arith, left))))
