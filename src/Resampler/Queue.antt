-- ===== src/Resampler/Queue.antt =====
-- Where `ow_resampler_write_audio` of src/resampler.c puts the input of the host in the queue.
use mathlib.Core.Path.{subst}
use native.Mathlib.Nat.{
  mul-le-mul_right, mul-lt-mul_of_pos_right, add-mul, mul_assoc, mul_left_comm,
}
use overwitch.Prelude.{
  ℕ, ◌+◌, ◌*◌, ◌/◌, ◌≤◌, ◌<◌, ◌≡◌, refl, sym, ◌∙◌, ap, none, ◌>>=◌, Runs, Runs-some, Runs-weaken,
  Runs-if, Runs-bind, List, leb, length, take, drop, store, store-none, take-take, store-take,
  drop-append, take-length, length-take, length-drop, length-append, take-append, arith, Bool-cases,
  inl, inr, leb→le, le→leb,
}
use overwitch.Numeric.{Floats, Doubles}
use overwitch.Engine.Rings.{Rings}
use overwitch.Resampler.State.{Resampler}
use overwitch.Resampler.Buffers.{h2o_reader}
use overwitch.Resampler.Audio.{store_at, queue_audio}
use overwitch.Resampler.Room.{HasRoom, Drained, h2o_reader-Drained}
use overwitch.Resampler.Sizes.{quarter}

module _ (N : Doubles) (F : Floats) (R : Rings F.Float) where
  open F use {Float}
  open R use {Ring}

  -- A copy into the middle of an array: what comes before stays, and it is there afterwards.
  store_at-Runs :
      (buf : List Float) (at : ℕ) (xs : List Float) (n : ℕ)
      → length xs ≡ n
      → at + n ≤ length buf
      → Runs
          (store_at buf at xs)
          (λ b. (length b ≡ length buf) × ((take at b ≡ take at buf) × (take n (drop at b) ≡ xs)))
  unfolding store_at
  store_at-Runs buf at xs n q h =
      Runs-if _ (leb at (length buf)) _ _
        (λ _.
          Runs-bind _ (store (drop at buf) xs) _ _
            (store-take (drop at buf) xs n q (omega (arith, h, length-drop at buf)))
            (λ rest k. Runs-some _ _ (
              omega (
                arith,
                length-append (take at buf) rest,
                length-take at buf,
                length-drop at buf,
                k.0,
                h,
              ),
              (
                take-append at (take at buf) rest (omega (arith, length-take at buf, h)),
                rw (drop-append at (take at buf) rest (omega (arith, length-take at buf, h))) k.1,
              ),
            )))
        (λ bad. absurd (ground arith))

  store_at-none :
      (buf : List Float) (at : ℕ) (xs : List Float)
      → length buf < at + length xs
      → store_at buf at xs ≡ none
  unfolding store_at
  store_at-none buf at xs h = elim (Bool-cases (leb at (length buf))) [
    | inl e ↦
        rw
          (
            e,
            store-none (drop at buf) xs
                (omega (arith, h, leb→le at (length buf) e, length-drop at buf)),
          )
          refl
    | inr e ↦ rw e refl
  ]

  module _ (inputs outputs : ℕ) (r : Resampler N Float Ring)
      (v : HasRoom N F R inputs outputs r) where
    abbrev n : ℕ
    n = r.bufsize * inputs

    -- The queue after a write.
    pub record Queued (r' : Resampler N Float Ring) : Type 0 where
      pub room : HasRoom N F R inputs outputs r'
      pub same_bufsize : r'.bufsize ≡ r.bufsize
      pub same_out : r'.h2o_buf_out ≡ r.h2o_buf_out
      pub same_ratio : r'.h2o_ratio ≡ r.h2o_ratio
      pub queued : r'.h2o_queue_len ≡ r.h2o_queue_len + r.bufsize
      pub before :
          take (r.h2o_queue_len * (4 * inputs)) r'.h2o_queue
          ≡ take (r.h2o_queue_len * (4 * inputs)) r.h2o_queue
      pub after : take n (drop (r.h2o_queue_len * (4 * inputs)) r'.h2o_queue) ≡ r.h2o_buf_in

    -- All of the input is copied.
    samples : r.h2o_bufsize / 4 ≡ n
    samples = rw v.h2o_buf (quarter r.bufsize inputs)

    all : take (r.h2o_bufsize / 4) r.h2o_buf_in ≡ r.h2o_buf_in
    all = take-length _ r.h2o_buf_in (omega (arith, samples, v))

    ends : r.h2o_queue_len * (4 * inputs) + n ≡ (4 * r.h2o_queue_len + r.bufsize) * inputs
    ends = omega (
      arith,
      add-mul (4 * r.h2o_queue_len) r.bufsize inputs,
      mul_left_comm r.h2o_queue_len 4 inputs,
      mul_assoc 4 r.h2o_queue_len inputs,
    )

    whole : 8 * n ≡ 8 * r.bufsize * inputs
    whole = omega (arith, mul_assoc 8 r.bufsize inputs)

    Stored : List Float → Type 0
    Stored b =
        (length b ≡ length r.h2o_queue)
        × ((take (r.h2o_queue_len * (4 * inputs)) b
              ≡ take (r.h2o_queue_len * (4 * inputs)) r.h2o_queue)
            × (take n (drop (r.h2o_queue_len * (4 * inputs)) b) ≡ r.h2o_buf_in))

    stored :
        4 * r.h2o_queue_len + r.bufsize ≤ 8 * r.bufsize
        → Runs
            (store_at r.h2o_queue
              (r.h2o_queue_len * r.h2o_frame_size)
              (take (r.h2o_bufsize / 4) r.h2o_buf_in))
            Stored
    unfolding Stored
    stored h =
        let room : r.h2o_queue_len * (4 * inputs) + n ≤ length r.h2o_queue =
          omega (arith, v, ends, whole, mul-le-mul_right inputs h) in
        rw (all, v.h2o_frame) (store_at-Runs r.h2o_queue _ r.h2o_buf_in n v.h2o_in room)

    -- With the buffers of a reset, and while the queued frames, four times, and one host buffer
    -- are at most eight host buffers, a write stays inside the queue: it puts the input of the
    -- host at the sample that four times the queued frames give, and keeps all that comes before.
    pub queue_audio-Queued :
        4 * r.h2o_queue_len + r.bufsize ≤ 8 * r.bufsize → Runs (queue_audio N F R r) Queued
    unfolding queue_audio Stored
    queue_audio-Queued h =
        Runs-if _ (leb (r.h2o_bufsize / 4) (length r.h2o_buf_in)) _ _
          (λ _.
            Runs-bind _
              (store_at r.h2o_queue (r.h2o_queue_len * r.h2o_frame_size)
                (take (r.h2o_bufsize / 4) r.h2o_buf_in))
              _ Stored (stored h)
              (λ queue k. Runs-some _ _ (record {
                room = ground (arith, v, k);
                same_bufsize = refl;
                same_out = refl;
                same_ratio = refl;
                queued = refl;
                before = k.1.0;
                after = k.1.1;
              })))
          (λ bad. absurd (ground (arith, v, quarter r.bufsize inputs, samples)))

    -- With some input tracks, a write is out of the bounds of the queue as soon as the queued
    -- frames, four times, and one host buffer are more than eight host buffers.
    queue_audio-none :
        0 < inputs → 8 * r.bufsize < 4 * r.h2o_queue_len + r.bufsize → queue_audio N F R r ≡ none
    unfolding queue_audio
    queue_audio-none k h =
        let over : length r.h2o_queue < r.h2o_queue_len * (4 * inputs) + length r.h2o_buf_in =
          omega (arith, v, ends, whole, mul-lt-mul_of_pos_right h k) in
        rw
          (
            le→leb (r.h2o_bufsize / 4) (length r.h2o_buf_in) (omega (arith, samples, v)),
            all,
            v.h2o_frame,
            store_at-none r.h2o_queue _ r.h2o_buf_in over,
          )
          refl

  prefix : (m n : ℕ) (xs ys : List Float) → m ≤ n → take n xs ≡ take n ys → take m xs ≡ take m ys
  prefix m n xs ys h e = sym (take-take m n xs h) ∙ (ap (take m) e ∙ take-take m n ys h)

  module _ (inputs outputs : ℕ) (r : Resampler N Float Ring)
      (v : HasRoom N F R inputs outputs r) where
    -- What comes first of the queue is older than the write.
    old :
        r.h2o_queue_len ≡ r.bufsize
        → (r' : Resampler N Float Ring) → Queued inputs outputs r v r'
        → take (2 * r.bufsize * inputs) r'.h2o_queue ≡ take (2 * r.bufsize * inputs) r.h2o_queue
    old q r' k =
        prefix _ (r.h2o_queue_len * (4 * inputs)) _ _
          (rw q (omega (arith, mul_left_comm r.bufsize 4 inputs, mul_assoc 2 r.bufsize inputs)))
          k.before

    -- Where one host buffer is queued already when another is, the reader hands over two buffers
    -- of frames, and all of them are samples that the queue had before the second one came.
    pub queue_audio_gap :
        r.h2o_queue_len ≡ r.bufsize
        → Runs (queue_audio N F R r >>= (λ r'. h2o_reader N F R r')) (λ p.
          (p.0 ≡ 2 * r.bufsize)
          × (take (2 * r.bufsize * inputs) p.1.h2o_aux ≡ take (2 * r.bufsize * inputs) r.h2o_queue))
    queue_audio_gap q =
        Runs-bind _ (queue_audio N F R r) _ _
          (queue_audio-Queued inputs outputs r v (omega (arith, q)))
          (λ r' k.
            let b : ℕ = r.bufsize in
            let two : r'.h2o_queue_len ≡ 2 * b = omega (arith, k, q) in
            Runs-weaken (Drained N F R inputs outputs r') _ (h2o_reader N F R r')
              (h2o_reader-Drained N F R inputs outputs r' k.room (omega (arith, k, two)))
              (λ p d. (
                ground (arith, d.frames, k, two),
                subst (λ m. take (m * inputs) p.1.h2o_aux ≡ take (m * inputs) r'.h2o_queue) two
                      d.handed
                    ∙ old q r' k,
              )))
