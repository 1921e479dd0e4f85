-- ===== src/Resampler/Room.antt =====
-- The buffers of src/resampler.c are large enough for what its readers put in them.
use native.Mathlib.Nat.{mul-le-mul_right, mul_assoc, zero-mul, mul_left_comm}
use overwitch.Prelude.{
  ℕ, ◌+◌, ◌*◌, ◌/◌, ◌≤◌, ◌<◌, ◌≡◌, ◌==◌, refl, Runs, Runs-some, Runs-if, Runs-bind, leb, ltb,
  if◌then◌else◌, length, take, store, length-store, store-take, length-take, arith,
}
use overwitch.Prelude.Words.{u32}
use overwitch.Numeric.{Floats, Doubles}
use overwitch.Engine.Rings.{Rings}
use overwitch.Engine.Input.{div?}
use overwitch.Engine.Output.{bytes_to_frame_bytes}
use overwitch.Engine.Valid.Moves.{bytes_to_frame_bytes-Runs, div?-Runs, div-mul-le}
use overwitch.Resampler.State.{Resampler}
use overwitch.Resampler.Buffers.{o2h_read, o2h_begin, o2h_reader, h2o_reader, max_read_frames}

buf_pos : (a b : ℕ) → max_read_frames ≤ a → 0 < b → 0 < a * (4 * b)
buf_pos a b h k = grind arith

some_frame : (n b : ℕ) → 0 < b → b ≤ n → 0 < n / b
some_frame n b h k = grind arith

abbrev few : ℕ → ℕ
few all = if ltb max_read_frames all then max_read_frames else all

few-le : (n b : ℕ) → few (n / b) * b ≤ n
few-le n b =
    let below : few (n / b) * b ≤ n / b * b = mul-le-mul_right b (ground arith) in
    omega (arith, below, div-mul-le n b)

few-samples :
    (all bufsize outputs : ℕ)
    → max_read_frames ≤ bufsize
    → few all * (4 * outputs) / 4 ≤ bufsize * outputs
few-samples all bufsize outputs h =
    let n : ℕ = few all in
    let below : n * outputs ≤ bufsize * outputs = mul-le-mul_right outputs (ground arith) in
    omega (arith, mul_left_comm n 4 outputs)

take_none : (n k : ℕ) → n ≡ 0 → n * k ≡ 0
take_none n k h = rw h (zero-mul k)

module _ (N : Doubles) (F : Floats) (R : Rings F.Float) where
  open F use {Float, zero_float}
  open R use {Ring, read_space, read, skip, length-read}

  -- Buffers for `bufsize` frames of `outputs` samples from the device and `inputs` samples to it.
  pub record HasRoom (inputs outputs : ℕ) (r : Resampler N Float Ring) : Type 0 where
    pub some_output : 0 < outputs
    pub o2h_frame : r.o2h_frame_size ≡ 4 * outputs
    pub h2o_frame : r.h2o_frame_size ≡ 4 * inputs
    pub o2h_buf : r.o2h_bufsize ≡ r.bufsize * (4 * outputs)
    pub h2o_buf : r.h2o_bufsize ≡ r.bufsize * (4 * inputs)
    pub o2h_in : length r.o2h_buf_in ≡ r.bufsize * outputs
    pub o2h_out : length r.o2h_buf_out ≡ r.bufsize * outputs
    pub h2o_in : length r.h2o_buf_in ≡ r.bufsize * inputs
    pub h2o_out : length r.h2o_buf_out ≡ 8 * (r.bufsize * inputs)
    pub aux : length r.h2o_aux ≡ 8 * (r.bufsize * inputs)
    pub queue : length r.h2o_queue ≡ 8 * (r.bufsize * inputs)

  -- The reader of the device's side hands over from one to five frames, which the DLL counts.
  pub record Handed (inputs outputs : ℕ) (r : Resampler N Float Ring)
      (p : ℕ × Resampler N Float Ring) : Type 0 where
    pub room : HasRoom inputs outputs p.1
    pub bufsize : p.1.bufsize ≡ r.bufsize
    pub same_ratio : p.1.h2o_ratio ≡ r.h2o_ratio
    pub same_queue : p.1.h2o_queue_len ≡ r.h2o_queue_len
    pub some_frames : 0 < p.0
    pub few_frames : p.0 ≤ max_read_frames
    pub counted : p.1.dll.frames ≡ u32 (r.dll.frames + p.0)

  module _ (inputs outputs : ℕ) (r : Resampler N Float Ring) (v : HasRoom inputs outputs r)
      (big : max_read_frames ≤ r.bufsize) where
    -- A reader before the count.
    Taken : ℕ × Resampler N Float Ring → Type 0
    Taken p =
        HasRoom inputs outputs p.1
        × (p.1.bufsize ≡ r.bufsize)
        × (0 < p.0)
        × (p.0 ≤ max_read_frames)
        × (p.1.dll ≡ r.dll)
        × (p.1.h2o_ratio ≡ r.h2o_ratio)
        × (p.1.h2o_queue_len ≡ r.h2o_queue_len)

    o2h_begin-Taken : Runs (o2h_begin N F R r) Taken
    unfolding o2h_begin Taken
    o2h_begin-Taken =
        Runs-if _ (leb r.o2h_bufsize (read_space r.engine.o2h_audio)) _ _
          (λ _.
            Runs-bind _ (bytes_to_frame_bytes (read_space r.engine.o2h_audio) r.o2h_bufsize) _ _
              (bytes_to_frame_bytes-Runs _ _
                (rw v.o2h_buf (buf_pos r.bufsize outputs big v.some_output)))
              (λ bytes _. Runs-some _ _ (ground (arith, v))))
          (λ _. Runs-some _ _ (ground (arith, v)))

    o2h_read-Taken : Runs (o2h_read N F R r) Taken
    unfolding o2h_read Taken
    o2h_read-Taken =
        Runs-if _ (leb r.o2h_frame_size (read_space r.engine.o2h_audio)) _ _
          (λ enough.
            Runs-bind _ (div? (read_space r.engine.o2h_audio) r.o2h_frame_size) _ _
              (div?-Runs _ _ (omega (arith, v)))
              (λ all q.
                let frames : ℕ = if ltb max_read_frames all then max_read_frames else all in
                let n : ℕ = frames * r.o2h_frame_size in
                Runs-bind _ (store r.o2h_buf_in (read r.engine.o2h_audio n).0) _
                  (λ buf. length buf ≡ length r.o2h_buf_in)
                  (length-store r.o2h_buf_in (read r.engine.o2h_audio n).0 (
                    let below : n ≤ read_space r.engine.o2h_audio = rw q (few-le _ _) in
                    let small : n / 4 ≤ r.bufsize * outputs =
                      rw v.o2h_frame (few-samples all r.bufsize outputs big) in
                    omega (arith, length-read r.engine.o2h_audio n below, v)))
                  (λ buf e. Runs-some _ _ (
                    ground
                      (arith, v, e, some_frame (read_space r.engine.o2h_audio) r.o2h_frame_size)))))
          (λ _. Runs-some _ _ (ground (arith, v)))

    -- With the buffers of a reset, and at least five frames in a host buffer, the reader of the
    -- device's side returns, keeps the sizes, and hands over from one to five frames, by which the
    -- count of the DLL grows modulo 2 ^ 32.
    pub o2h_reader-Handed : Runs (o2h_reader N F R r) (Handed inputs outputs r)
    unfolding o2h_reader Taken
    o2h_reader-Handed =
        Runs-bind _ (if r.reading_at_o2h_end then o2h_read N F R r else o2h_begin N F R r) _ Taken
          (Runs-if _ r.reading_at_o2h_end _ _ (λ _. o2h_read-Taken) (λ _. o2h_begin-Taken))
          (λ p t. Runs-some _ _ (ground (arith, t)))

  -- The reader of the host's side hands over the queue, which is then empty, or, where that is
  -- empty, a buffer of what it handed over before.
  pub record Drained (inputs outputs : ℕ) (r : Resampler N Float Ring)
      (p : ℕ × Resampler N Float Ring) : Type 0 where
    pub room : HasRoom inputs outputs p.1
    pub same_bufsize : p.1.bufsize ≡ r.bufsize
    pub emptied : p.1.h2o_queue_len ≡ 0
    pub frames : p.0 ≡ (if r.h2o_queue_len == 0 then r.bufsize else r.h2o_queue_len)
    pub handed :
        take (r.h2o_queue_len * inputs) p.1.h2o_aux ≡ take (r.h2o_queue_len * inputs) r.h2o_queue

  nothing : (r : Resampler N Float Ring) (n : ℕ) → n ≡ 0 → take n r.h2o_aux ≡ take n r.h2o_queue
  nothing r n h = rw h refl

  -- With the buffers of a reset, and at most eight host buffers queued, the reader of the host's
  -- side returns, keeps the sizes and empties the queue; it hands over the frames that were
  -- queued, as the queue has them from its start, and the frames of a host buffer where none were.
  pub h2o_reader-Drained :
      (inputs outputs : ℕ) (r : Resampler N Float Ring)
      → HasRoom inputs outputs r
      → r.h2o_queue_len ≤ 8 * r.bufsize
      → Runs (h2o_reader N F R r) (Drained inputs outputs r)
  unfolding h2o_reader
  h2o_reader-Drained inputs outputs r v h =
      let n : ℕ = r.h2o_queue_len * inputs in
      let samples : r.h2o_queue_len * r.h2o_frame_size / 4 ≡ n =
        rw v.h2o_frame (omega (arith, mul_left_comm r.h2o_queue_len 4 inputs)) in
      let below : n ≤ 8 * (r.bufsize * inputs) =
        omega (arith, mul-le-mul_right inputs h, mul_assoc 8 r.bufsize inputs) in
      let taken : length (take n r.h2o_queue) ≡ n =
        omega (arith, length-take n r.h2o_queue, v, below) in
      Runs-if _ (r.h2o_queue_len == 0) _ _
        (λ empty. Runs-some _ _ (record {
          room = v;
          same_bufsize = refl;
          emptied = ground arith;
          frames = ground arith;
          handed = nothing r n (take_none r.h2o_queue_len inputs (ground arith));
        }))
        (λ some_queued.
          Runs-if _ (leb (r.h2o_queue_len * r.h2o_frame_size / 4) (length r.h2o_queue)) _ _
            (λ fits.
              Runs-bind _
                (store r.h2o_aux (take (r.h2o_queue_len * r.h2o_frame_size / 4) r.h2o_queue)) _
                (λ aux. (length aux ≡ length r.h2o_aux) × (take n aux ≡ take n r.h2o_queue))
                (rw samples
                  (store-take r.h2o_aux (take n r.h2o_queue) n taken (omega (arith, v, below))))
                (λ aux e. Runs-some _ _ (record {
                  room = ground (arith, v, e);
                  same_bufsize = refl;
                  emptied = refl;
                  frames = ground arith;
                  handed = e.1;
                })))
            (λ bad. absurd (ground (arith, v, samples, below))))
