-- ===== src/Resampler/Clearing.antt =====
-- `ow_resampler_clear_buffers` of src/resampler.c: that it returns, and what it leaves.
use overwitch.Prelude.{
  ◌<◌, ◌≡◌, refl, false, some, ◌>>=◌, Runs, Runs-some, Runs-if, Runs-bind, if◌then◌else◌,
}
use overwitch.Numeric.{Floats, Doubles}
use overwitch.Engine.Rings.{Rings}
use overwitch.Engine.Status.{clear_buffers}
use overwitch.Engine.Output.{bytes_to_frame_bytes}
use overwitch.Engine.Valid.Moves.{bytes_to_frame_bytes-Runs}
use overwitch.Resampler.State.{Resampler}
use overwitch.Resampler.Buffers.{clear_resampler}
use overwitch.Resampler.Graph.{phase}

module _ (N : Doubles) (F : Floats) (R : Rings F.Float) where
  open N use {lit}
  open F use {Float}
  open R use {Ring, read_space, skip}

  -- What clearing leaves as it was, and the engine's answer to it.
  pub record Cleared (r r' : Resampler N Float Ring) : Type 0 where
    pub same_phase : phase N F R r' ≡ phase N F R r
    pub same_dll : r'.dll ≡ r.dll
    pub same_ratio : r'.o2h_ratio ≡ r.o2h_ratio
    pub same_inverse : r'.h2o_ratio ≡ r.h2o_ratio
    pub same_frame : r'.o2h_frame_size ≡ r.o2h_frame_size
    pub answered : r'.engine.status ≡ clear_buffers r.engine.status

  -- Whatever the ring is after the read.
  abbrev pub cleared_with : Resampler N Float Ring → Ring → Resampler N Float Ring
  cleared_with r ring =
      let e = r.engine in
      record r {
        h2o_queue_len = 0;
        reading_at_o2h_end = false;
        engine = record e { o2h_audio = ring; status = clear_buffers e.status };
      }

  pub clear_resampler-Runs :
      (r : Resampler N Float Ring) (P : Resampler N Float Ring → Type 0)
      → 0 < r.o2h_frame_size
      → ((ring : Ring) → P (cleared_with r ring))
      → Runs (clear_resampler N F R r) P
  unfolding clear_resampler
  clear_resampler-Runs r P h p =
      Runs-bind _
        (if r.has_o2h_audio
          then bytes_to_frame_bytes (read_space r.engine.o2h_audio) r.o2h_frame_size
            >>= (λ bytes. some (skip r.engine.o2h_audio bytes))
          else some r.engine.o2h_audio)
        _ (λ _. Unit)
        (Runs-if _ r.has_o2h_audio _ _
          (λ _.
            Runs-bind _ (bytes_to_frame_bytes (read_space r.engine.o2h_audio) r.o2h_frame_size) _ _
              (bytes_to_frame_bytes-Runs _ _ h) (λ _ _. Runs-some _ _ tt))
          (λ _. Runs-some _ _ tt))
        (λ ring _. Runs-some _ _ (p ring))

  pub clear_resampler_lem :
      (r : Resampler N Float Ring)
      → 0 < r.o2h_frame_size
      → Runs (clear_resampler N F R r) (Cleared r)
  clear_resampler_lem r h = clear_resampler-Runs r (Cleared r) h (λ ring. record {
    same_phase = refl;
    same_dll = refl;
    same_ratio = refl;
    same_inverse = refl;
    same_frame = refl;
    answered = refl;
  })
