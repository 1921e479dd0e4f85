-- ===== src/Resampler/Sizes.antt =====
-- The sizes that `ow_resampler_reset_buffers` of src/resampler.c gives to the buffers.
use native.Mathlib.Nat.{mul-le-mul_left, mul-lt-mul_of_pos_left, mul_left_comm}
use overwitch.Prelude.{
  ℕ, ◌*◌, ◌/◌, ◌≤◌, ◌<◌, ◌≡◌, refl, ◌∙◌, ap, none, Runs, Runs-bind, Runs-weaken, length, replicate,
  length-store, store-none, length-replicate, arith,
}
use overwitch.Numeric.{Floats, Doubles}
use overwitch.Engine.Rings.{Rings}
use overwitch.Resampler.State.{Resampler}
use overwitch.Resampler.Buffers.{memset, reset_buffers, clear_resampler}
use overwitch.Resampler.Clearing.{clear_resampler-Runs}
use overwitch.Resampler.Room.{HasRoom}

pub quarter : (b k : ℕ) → b * (4 * k) / 4 ≡ b * k
quarter b k = omega (arith, mul_left_comm b 4 k)

eight : (b k : ℕ) → b * (4 * k) * 8 / 4 ≡ 8 * (b * k)
eight b k = omega (arith, mul_left_comm b 4 k)

module _ (N : Doubles) (F : Floats) (R : Rings F.Float) where
  open F use {Float, zero_float}
  open R use {Ring}

  memset-fits :
      (n m : ℕ) → m / 4 ≤ n → Runs (memset N F R (replicate n zero_float) m) (λ buf. length buf ≡ n)
  unfolding memset
  memset-fits n m h =
      let filled : length (replicate n zero_float) ≡ n = length-replicate n zero_float in
      let (buf, e, k) =
        length-store (replicate n zero_float) (replicate (m / 4) zero_float)
          (omega (arith, h, filled, length-replicate (m / 4) zero_float)) in
      (buf, e, k ∙ filled)

  memset-overflows : (n m : ℕ) → n < m / 4 → memset N F R (replicate n zero_float) m ≡ none
  unfolding memset
  memset-overflows n m h =
      store-none _ _
        (omega (arith, length-replicate n zero_float, length-replicate (m / 4) zero_float))

  -- Buffers of the right sizes, with nothing queued, for what the resampler had before.
  abbrev pub Reset : ℕ → ℕ → Resampler N Float Ring → Resampler N Float Ring → Type 0
  Reset inputs outputs r r' =
      HasRoom N F R inputs outputs r'
      × ((r'.bufsize ≡ r.bufsize) × ((r'.samplerate ≡ r.samplerate) × (r'.h2o_queue_len ≡ 0)))

  -- What clearing leaves of the buffers.
  clear_resampler-Reset :
      (inputs outputs : ℕ) (r : Resampler N Float Ring)
      → HasRoom N F R inputs outputs r
      → Runs (clear_resampler N F R r) (Reset inputs outputs r)
  clear_resampler-Reset inputs outputs r v =
      clear_resampler-Runs N F R r (Reset inputs outputs r) (omega (arith, v))
        (λ ring. (ground (arith, v), (refl, (refl, refl))))

  module _ (inputs outputs : ℕ) (r : Resampler N Float Ring) (o2h : r.o2h_frame_size ≡ 4 * outputs)
      (h2o : r.h2o_frame_size ≡ 4 * inputs) where
    at_out : r.bufsize * r.o2h_frame_size / 4 ≡ r.bufsize * outputs
    at_out = rw o2h (quarter r.bufsize outputs)

    at_in : r.bufsize * r.h2o_frame_size / 4 ≡ r.bufsize * inputs
    at_in = rw h2o (quarter r.bufsize inputs)

    at_eight : r.bufsize * r.h2o_frame_size * 8 / 4 ≡ 8 * (r.bufsize * inputs)
    at_eight = rw h2o (eight r.bufsize inputs)

    pub reset_buffers-Reset :
        0 < outputs → inputs ≤ outputs → Runs (reset_buffers N F R r) (Reset inputs outputs r)
    unfolding reset_buffers
    reset_buffers-Reset h k =
        Runs-bind (Reset inputs outputs r)
          (memset N F R (replicate (r.bufsize * r.h2o_frame_size * 8 / 4) zero_float)
            (r.bufsize * r.h2o_frame_size))
          _ _ (memset-fits _ _ (omega arith))
          (λ aux e.
            Runs-bind (Reset inputs outputs r)
              (memset N F R (replicate (r.bufsize * r.o2h_frame_size / 4) zero_float)
                (r.bufsize * r.h2o_frame_size))
              _ _ (memset-fits _ _ (rw (at_in, at_out) (mul-le-mul_left r.bufsize k)))
              (λ buf f. clear_resampler-Reset inputs outputs _ (record {
                some_output = h;
                o2h_frame = o2h;
                h2o_frame = h2o;
                o2h_buf = ap (λ k. r.bufsize * k) o2h;
                h2o_buf = ap (λ k. r.bufsize * k) h2o;
                o2h_in = f ∙ at_out;
                o2h_out = length-replicate _ _ ∙ at_out;
                h2o_in = length-replicate _ _ ∙ at_in;
                h2o_out = length-replicate _ _ ∙ at_eight;
                aux = e ∙ at_eight;
                queue = length-replicate _ _ ∙ at_eight;
              })))

    -- On a device with at least one output track, and with no more input tracks than output
    -- tracks, the buffers are cleared inside their bounds and get the sizes that the readers need.
    reset_buffers-HasRoom :
        0 < outputs → inputs ≤ outputs → Runs (reset_buffers N F R r) (HasRoom N F R inputs outputs)
    reset_buffers-HasRoom h k =
        Runs-weaken _ _ (reset_buffers N F R r) (reset_buffers-Reset h k) (λ r' s. s.0)

    -- On a device with more input tracks than output tracks, and with some frames in a host
    -- buffer, a reset clears memory past the end of a buffer.
    reset_buffers_overflows : outputs < inputs → 0 < r.bufsize → reset_buffers N F R r ≡ none
    unfolding reset_buffers
    reset_buffers_overflows h k =
        let (aux, e, _) =
          memset-fits (r.bufsize * r.h2o_frame_size * 8 / 4) (r.bufsize * r.h2o_frame_size)
            (omega arith) in
        rw
          (
            e,
            memset-overflows (r.bufsize * r.o2h_frame_size / 4) (r.bufsize * r.h2o_frame_size)
                (rw (at_out, at_in) (mul-lt-mul_of_pos_left h k)),
          )
          refl
