-- ===== src/Resampler/Conversions.antt =====
-- Whole conversions of src/resampler.c: whatever libsamplerate asks the readers for, the buffers
-- hold it.
use mathlib.Core.Path.{subst}
use native.Mathlib.Nat.{mul-le-mul_right, mul_assoc, mul_left_comm}
use overwitch.Prelude.{
  ℕ, ◌+◌, ◌*◌, ◌/◌, ◌≤◌, ◌≡◌, ◌==◌, refl, ◌∙◌, ap, true, Runs, Runs-some, Runs-weaken, Runs-if,
  Runs-bind, List, leb, ltb, length, store, length-store, arith,
}
use overwitch.Numeric.{Floats, Doubles}
use overwitch.Engine.Rings.{Rings}
use overwitch.Resampler.State.{Resampler, ResamplerStatus, level}
use overwitch.Resampler.Buffers.{max_read_frames, o2h_reader, h2o_reader}
use overwitch.Resampler.Audio.{
  Reading, done, more, Converter, Converted, run_o2h, run_h2o, read_audio, queue_audio, wanted,
  send, write_audio,
}
use overwitch.Resampler.Room.{HasRoom, o2h_reader-Handed, h2o_reader-Drained}
use overwitch.Resampler.Queue.{queue_audio-Queued}

module _ {Float Src : Type 0} where
  -- A conversion that never stores more than `n` samples, whatever it is given.
  unfoldable pub Bounded : ℕ → Reading Float Src → Type 0
  Bounded n (done gen_frames out s) = length out ≤ n
  Bounded n (more k) = (buf : List Float) (frames : ℕ) → Bounded n (k buf frames)

module _ (N : Doubles) (F : Floats) (R : Rings F.Float) (C : Converter F.Float N.Double)
    (inputs outputs : ℕ) where
  open N use {Double}
  open F use {Float}
  open R use {Ring, write_space}
  open C use {Src, src_callback_read}

  record Read (n bufsize : ℕ) (c : Converted Float Src (Resampler N Float Ring)) : Type 0 where
    pub room : HasRoom N F R inputs outputs c.resampler
    pub same_bufsize : c.resampler.bufsize ≡ bufsize
    pub bounded : length c.out ≤ n

  -- The other direction is as it was.
  record Apart (r r' : Resampler N Float Ring) : Type 0 where
    pub same_ratio : r'.h2o_ratio ≡ r.h2o_ratio
    pub same_queue : r'.h2o_queue_len ≡ r.h2o_queue_len

  run_o2h-Read :
      (n : ℕ) (x : Reading Float Src) (r : Resampler N Float Ring)
      → Bounded n x
      → HasRoom N F R inputs outputs r
      → max_read_frames ≤ r.bufsize
      → Runs (run_o2h N F R C x r) (λ c. Read n r.bufsize c × Apart r c.resampler)
  unfolding run_o2h Bounded
  run_o2h-Read n (done gen_frames out s) r b v h = Runs-some _ _ (
    record { room = v; same_bufsize = refl; bounded = b },
    record { same_ratio = refl; same_queue = refl },
  )
  run_o2h-Read n (more k) r b v h =
      Runs-bind _ (o2h_reader N F R r) _ _ (o2h_reader-Handed N F R inputs outputs r v h) (λ p q.
        Runs-weaken (λ c. Read n p.1.bufsize c × Apart p.1 c.resampler) _
          (run_o2h N F R C (k p.1.o2h_buf_in p.0) p.1)
          (run_o2h-Read n (k p.1.o2h_buf_in p.0) p.1 (b _ _) q.room (omega (arith, q.bufsize, h)))
          (λ c d. (
            subst (λ m. Read n m c) q.bufsize d.0,
            record {
              same_ratio = d.1.same_ratio ∙ q.same_ratio;
              same_queue = d.1.same_queue ∙ q.same_queue;
            },
          )))

  run_h2o-Read :
      (n : ℕ) (x : Reading Float Src) (r : Resampler N Float Ring)
      → Bounded n x
      → HasRoom N F R inputs outputs r
      → r.h2o_queue_len ≤ 8 * r.bufsize
      → Runs
          (run_h2o N F R C x r)
          (λ c. Read n r.bufsize c × (c.resampler.h2o_queue_len ≤ r.h2o_queue_len))
  unfolding run_h2o Bounded
  run_h2o-Read n (done gen_frames out s) r b v h =
      Runs-some _ _ (record { room = v; same_bufsize = refl; bounded = b }, omega arith)
  run_h2o-Read n (more k) r b v h =
      Runs-bind _ (h2o_reader N F R r) _ _ (h2o_reader-Drained N F R inputs outputs r v h) (λ p q.
        Runs-weaken (λ c. Read n p.1.bufsize c × (c.resampler.h2o_queue_len ≤ p.1.h2o_queue_len)) _
          (run_h2o N F R C (k p.1.h2o_aux p.0) p.1)
          (run_h2o-Read n (k p.1.h2o_aux p.0) p.1 (b _ _) q.room (omega (arith, q.emptied)))
          (λ c d. (subst (λ m. Read n m c) q.same_bufsize d.0, omega (arith, d.1, q.emptied))))

  -- With the buffers of a reset, and at least five frames in a host buffer: whatever a conversion
  -- of at most a host buffer of samples asks the reader for, the read returns, the buffers keep
  -- their sizes, and the ratio and the queue of the other direction stay as they are.
  pub read_audio-HasRoom :
      (r : Resampler N Float Ring) (s : Src)
      → HasRoom N F R inputs outputs r
      → max_read_frames ≤ r.bufsize
      → Bounded (r.bufsize * outputs) (src_callback_read s r.o2h_ratio r.bufsize)
      → Runs (read_audio N F R C r s) (λ p.
        HasRoom N F R inputs outputs p.2
        × (p.2.bufsize ≡ r.bufsize)
        × (p.2.h2o_ratio ≡ r.h2o_ratio)
        × (p.2.h2o_queue_len ≡ r.h2o_queue_len))
  unfolding read_audio
  read_audio-HasRoom r s v h b =
      Runs-bind _ (run_o2h N F R C (src_callback_read s r.o2h_ratio r.bufsize) r) _ _
        (run_o2h-Read _ _ r b v h)
        (λ c q.
          Runs-bind _ (store r.o2h_buf_out c.out) _ _
            (length-store r.o2h_buf_out c.out (omega (arith, q.0, v)))
            (λ buf e. Runs-some _ _ (ground (arith, q.0, q.1, e))))

  -- What a write leaves: no more is queued than one buffer more.
  pub record Written (r r' : Resampler N Float Ring) : Type 0 where
    pub room : HasRoom N F R inputs outputs r'
    pub same_bufsize : r'.bufsize ≡ r.bufsize
    pub queued : r'.h2o_queue_len ≤ r.h2o_queue_len + r.bufsize

  send-HasRoom :
      (r : Resampler N Float Ring) (n : ℕ)
      → HasRoom N F R inputs outputs r
      → n ≤ 8 * r.bufsize
      → Runs (send N F R r n) (λ r'.
        HasRoom N F R inputs outputs r'
        × ((r'.bufsize ≡ r.bufsize) × (r'.h2o_queue_len ≡ r.h2o_queue_len)))
  unfolding send
  send-HasRoom r n v h =
      Runs-if _ (leb (n * r.h2o_frame_size) (write_space r.engine.h2o_audio)) _ _
        (λ _.
          Runs-if _ (leb (n * r.h2o_frame_size / 4) (length r.h2o_buf_out)) _ _
            (λ _. Runs-some _ _ (ground (arith, v))) (λ bad. absurd (ground (arith, v, fits))))
        (λ _. Runs-some _ r (v, (refl, refl)))
    where
      fits : n * r.h2o_frame_size / 4 ≤ 8 * (r.bufsize * inputs)
      fits = rw v.h2o_frame (
          omega (
            arith,
            mul_left_comm n 4 inputs,
            mul-le-mul_right inputs h,
            mul_assoc 8 r.bufsize inputs,
          ))

  pub wanted_lem :
      (r r' : Resampler N Float Ring) (acc : Double)
      → r'.bufsize ≡ r.bufsize
      → r'.h2o_ratio ≡ r.h2o_ratio
      → wanted N F R r' acc ≡ wanted N F R r acc
  unfolding wanted
  wanted_lem r r' acc h k = rw (h, k) refl

  exact_lem : (a b : ℕ) → (a == b) ≡ true → a ≡ b
  exact_lem a b h = ground arith

  -- So it asks for as much after the queue has grown.
  asked :
      (r r' : Resampler N Float Ring) (s : Src) (acc : Double)
      → r'.bufsize ≡ r.bufsize
      → r'.h2o_ratio ≡ r.h2o_ratio
      → (wanted N F R r acc).0 ≤ 8 * r.bufsize
      → Bounded (8 * (r.bufsize * inputs)) (src_callback_read s r.h2o_ratio (wanted N F R r acc).0)
      → ((wanted N F R r' acc).0 ≤ 8 * r.bufsize)
        × Bounded
            (8 * (r.bufsize * inputs))
            (src_callback_read s r'.h2o_ratio (wanted N F R r' acc).0)
  asked r r' s acc h k w b = rw (wanted_lem r r' acc h k, k) (w, b)

  -- With the buffers of a reset, while the queue has room for a write, with at most eight host
  -- buffers wanted, and whatever a conversion of at most as many samples asks the reader for: the
  -- write returns, the buffers keep their sizes, and at most one host buffer more is queued.
  pub write_audio-Written :
      (r : Resampler N Float Ring) (s : Src) (h2o_acc : Double)
      → HasRoom N F R inputs outputs r
      → 4 * r.h2o_queue_len + r.bufsize ≤ 8 * r.bufsize
      → (wanted N F R r h2o_acc).0 ≤ 8 * r.bufsize
      → Bounded
          (8 * (r.bufsize * inputs))
          (src_callback_read s r.h2o_ratio (wanted N F R r h2o_acc).0)
      → Runs (write_audio N F R C r s h2o_acc) (λ p. Written r p.3)
  unfolding write_audio
  write_audio-Written r s h2o_acc v h w b =
      Runs-if _ (ltb (level r.status) (level ResamplerStatus.run)) _ _
        (λ _. Runs-some _ _ (record { room = v; same_bufsize = refl; queued = omega arith }))
        (λ _.
          Runs-bind _ (queue_audio N F R r) _ _ (queue_audio-Queued N F R inputs outputs r v h)
            (λ r' k.
              let (small, bounded) = asked r r' s h2o_acc k.same_bufsize k.same_ratio w b in
              Runs-bind _
                (run_h2o N F R C (src_callback_read s r'.h2o_ratio (wanted N F R r' h2o_acc).0) r')
                _ _
                (run_h2o-Read (8 * (r.bufsize * inputs)) _ r' bounded k.room (omega (arith, h, k)))
                (λ c q.
                  Runs-bind _ (store r'.h2o_buf_out c.out) _ _
                    (length-store r'.h2o_buf_out c.out
                      (omega (arith, q.0, v, ap length k.same_out)))
                    (λ buf e.
                      Runs-if _ (c.gen_frames == (wanted N F R r' h2o_acc).0) _ _
                        (λ exact.
                          Runs-bind _ (send N F R _ c.gen_frames) _ _
                            (send-HasRoom _ c.gen_frames (ground (arith, q.0, e))
                              (omega (arith, exact_lem _ _ exact, small, q.0, k)))
                            (λ sent t. Runs-some _ _ (ground (arith, q, k, t))))
                        (λ short. Runs-some _ _ (ground (arith, q, k, e)))))))
