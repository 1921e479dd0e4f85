-- ===== src/Jclient/Cycle.antt =====
-- Cycles of the JACK client, `jclient_process_cb` of src/jclient.c, from end to end.
use overwitch.Prelude.{
  ℕ, ◌+◌, ◌*◌, ◌≤◌, ◌≡◌, ◌==◌, ◌⊎◌, inl, inr, refl, ap, ◌∙◌, if◌then◌else◌, Bool, true, false,
  Option, none, some, List, length, Runs, Runs-some, Runs-if, Runs-bind, store, length-store, arith,
}
use overwitch.Numeric.{Floats, Doubles}
use overwitch.Engine.Rings.{Rings}
use overwitch.Engine.Status.{is_alive, set_status}
use overwitch.Resampler.State.{Resampler}
use overwitch.Resampler.Buffers.{max_read_frames}
use overwitch.Resampler.Ratios.{Cycle, compute_ratios, stop}
use overwitch.Resampler.Audio.{Converter, read_audio, write_audio, wanted}
use overwitch.Resampler.Room.{HasRoom}
use overwitch.Resampler.Conversions.{
  Bounded, read_audio-HasRoom, Written, write_audio-Written, wanted_lem,
}
use overwitch.Resampler.Keeping.{compute_ratios-Keeps}
use overwitch.Jclient.Copies.{
  copy_o2j_audio, copy_j2o_audio, HasFrames, copy_j2o_audio-Runs, copy_j2o_audio-copy_o2j_audio,
}
use overwitch.Jclient.Process.{Client, Processed, fail, process_h2o, process_o2h, process_cb}

either : {A : Type 0} (P : A → Type 0) (b : Bool) (x y : A) → P x → P y → P (if b then x else y)
either P true x y h k = h
either P false x y h k = k

module _ (N : Doubles) (F : Floats) (R : Rings F.Float) (C : Converter F.Float N.Double)
    (inputs outputs bufsize : ℕ) where
  open N use {Double}
  open F use {Float}
  open R use {Ring}
  open C use {Src, src_callback_read}

  -- What a cycle leaves: buffers of the same sizes and full ports; an error has stopped the engine.
  pub record IsProcessed (p : Processed N F R C) : Type 0 where
    pub room : HasRoom N F R inputs outputs p.client.resampler
    pub same_bufsize : p.client.resampler.bufsize ≡ bufsize
    pub cleared : p.client.xrun ≡ false
    pub ports : HasFrames bufsize p.output_ports
    pub ends :
        (p.result ≡ 0) ⊎ ((p.result ≡ 1) × (is_alive p.client.resampler.engine.status ≡ false))

  fail-IsProcessed :
      (c : Client N F R C) (ports : List (List Float))
      → HasRoom N F R inputs outputs c.resampler
      → c.resampler.bufsize ≡ bufsize
      → c.xrun ≡ false
      → HasFrames bufsize ports
      → IsProcessed (fail N F R C c ports)
  unfolding fail stop set_status
  fail-IsProcessed c ports v b x f = record {
    room = ground (arith, v);
    same_bufsize = b;
    cleared = x;
    ports = f;
    ends = inr (refl, ground arith);
  }

  module _ (c : Client N F R C) (ins outs : List (List Float))
      (v : HasRoom N F R inputs outputs c.resampler) (same : c.resampler.bufsize ≡ bufsize)
      (x : c.xrun ≡ false) (in_frames : HasFrames bufsize ins) (in_ports : length ins ≡ inputs)
      (out_frames : HasFrames bufsize outs)
      (room : 4 * c.resampler.h2o_queue_len + bufsize ≤ 8 * bufsize)
      (few : (wanted N F R c.resampler c.h2o_acc).0 ≤ 8 * bufsize)
      (to_device : (ratio : Double) (n : ℕ)
        → n ≤ 8 * bufsize
        → Bounded (8 * (bufsize * inputs)) (src_callback_read c.h2o_state ratio n)) where
    samples_in : c.resampler.bufsize * inputs ≡ bufsize * inputs
    samples_in = ap (λ k. k * inputs) same

    -- The resampler with the input of the host.
    abbrev filled : List Float → Resampler N Float Ring
    filled buf = let r = c.resampler in record r { h2o_buf_in = buf }

    few_filled : (buf : List Float) → (wanted N F R (filled buf) c.h2o_acc).0 ≤ 8 * bufsize
    few_filled buf =
        rw (wanted_lem N F R C inputs outputs c.resampler (filled buf) c.h2o_acc refl refl) few

    written :
        (buf : List Float)
        → length buf ≡ length c.resampler.h2o_buf_in
        → Runs
            (write_audio N F R C (filled buf) c.h2o_state c.h2o_acc)
            (λ p. Written N F R C inputs outputs (filled buf) p.3)
    written buf k =
        write_audio-Written N F R C inputs outputs (filled buf) c.h2o_state c.h2o_acc
          (ground (arith, v, k)) (omega (arith, room, same)) (omega (arith, few_filled buf, same))
          (rw samples_in (to_device c.resampler.h2o_ratio _ (few_filled buf)))

    process_h2o-IsProcessed : Runs (process_h2o N F R C bufsize c ins outs) IsProcessed
    unfolding process_h2o
    process_h2o-IsProcessed =
        Runs-bind _ (copy_j2o_audio bufsize 0 ins) _ _
          (copy_j2o_audio-Runs bufsize bufsize 0 ins (omega arith) in_frames)
          (λ samples e.
            Runs-bind _ (store c.resampler.h2o_buf_in samples) _ _
              (length-store c.resampler.h2o_buf_in samples
                (omega (arith, e, ap (λ k. bufsize * k) in_ports, samples_in, v)))
              (λ buf k.
                Runs-bind _ (write_audio N F R C (filled buf) c.h2o_state c.h2o_acc) _ _
                  (written buf k)
                  (λ w q. Runs-some _ _ (
                    either IsProcessed w.0 _ _
                      (fail-IsProcessed _ outs q.room (q.same_bufsize ∙ same) x out_frames)
                      (record {
                        room = q.room;
                        same_bufsize = q.same_bufsize ∙ same;
                        cleared = x;
                        ports = out_frames;
                        ends = inl refl;
                      })))))

  module _ (c : Client N F R C) (ins outs : List (List Float))
      (v : HasRoom N F R inputs outputs c.resampler) (same : c.resampler.bufsize ≡ bufsize)
      (big : max_read_frames ≤ bufsize) (x : c.xrun ≡ false) (in_frames : HasFrames bufsize ins)
      (in_ports : length ins ≡ inputs) (out_frames : HasFrames bufsize outs)
      (out_ports : length outs ≡ outputs)
      (room : 4 * c.resampler.h2o_queue_len + bufsize ≤ 8 * bufsize)
      (few : (wanted N F R c.resampler c.h2o_acc).0 ≤ 8 * bufsize)
      (from_device : (ratio : Double)
        → Bounded (bufsize * outputs) (src_callback_read c.o2h_state ratio bufsize))
      (to_device : (ratio : Double) (n : ℕ)
        → n ≤ 8 * bufsize
        → Bounded (8 * (bufsize * inputs)) (src_callback_read c.h2o_state ratio n)) where
    bounded :
        Bounded
          (c.resampler.bufsize * outputs)
          (src_callback_read c.o2h_state c.resampler.o2h_ratio c.resampler.bufsize)
    bounded = rw same (from_device c.resampler.o2h_ratio)

    process_o2h-IsProcessed : Runs (process_o2h N F R C bufsize c ins outs) IsProcessed
    unfolding process_o2h
    process_o2h-IsProcessed =
        Runs-bind _ (read_audio N F R C c.resampler c.o2h_state) _ _
          (read_audio-HasRoom N F R C inputs outputs c.resampler c.o2h_state v
            (omega (arith, big, same)) bounded)
          (λ a q.
            Runs-if _ a.0 _ _
              (λ _. Runs-some _ _ (fail-IsProcessed _ outs q.0 (q.1 ∙ same) x out_frames))
              (λ _.
                Runs-bind _ (copy_o2j_audio bufsize 0 outs a.2.o2h_buf_out) _ _
                  (copy_j2o_audio-copy_o2j_audio bufsize outs a.2.o2h_buf_out out_frames (
                    omega (
                      arith,
                      q.0.o2h_out,
                      ap (λ k. k * outputs) (q.1 ∙ same),
                      ap (λ k. bufsize * k) out_ports,
                    )))
                  (λ ports k.
                    process_h2o-IsProcessed _ ins ports q.0 (q.1 ∙ same) x in_frames in_ports k.0
                      (omega (arith, room, q.3))
                      (rw (wanted_lem N F R C inputs outputs c.resampler a.2 c.h2o_acc q.1 q.2) few)
                      to_device)))

  module _ (c : Client N F R C) (ins outs : List (List Float))
      (v : HasRoom N F R inputs outputs c.resampler) (same : c.resampler.bufsize ≡ bufsize)
      (big : max_read_frames ≤ bufsize) (in_frames : HasFrames bufsize ins)
      (in_ports : length ins ≡ inputs) (out_frames : HasFrames bufsize outs)
      (out_ports : length outs ≡ outputs)
      (room : 4 * c.resampler.h2o_queue_len + bufsize ≤ 8 * bufsize)
      (from_device : (ratio : Double)
        → Bounded (bufsize * outputs) (src_callback_read c.o2h_state ratio bufsize))
      (to_device : (ratio : Double) (n : ℕ)
        → n ≤ 8 * bufsize
        → Bounded (8 * (bufsize * inputs)) (src_callback_read c.h2o_state ratio n)) where
    -- With the buffers of a reset, at least five frames in a host buffer, a buffer of that many
    -- frames for each port, room in the queue for one host buffer, conversions that give at most
    -- what their buffers hold, and at most eight host buffers wanted at the ratio of this cycle:
    -- the callback returns, the buffers keep their sizes, all ports are whole, the xrun is
    -- forgotten, and it returns 0, or 1 with the engine stopped or failed.
    pub process_cb-IsProcessed :
        (time : Option ℕ)
        → ((now : ℕ) (cy : Cycle (Resampler N Float Ring))
            → time ≡ some now
            → compute_ratios N F R c.resampler now c.xrun ≡ some cy
            → (wanted N F R cy.resampler c.h2o_acc).0 ≤ 8 * bufsize)
        → Runs (process_cb N F R C bufsize time c ins outs) IsProcessed
    unfolding process_cb
    process_cb-IsProcessed none few = Runs-some _ _ (fail-IsProcessed _ outs v same refl out_frames)
    process_cb-IsProcessed (some now) few =
        let (cy, e, k) = compute_ratios-Keeps N F R inputs outputs now c.xrun c.resampler v in
        rw e (
          Runs-if _ (cy.result == 0) _ _
            (λ _.
              process_o2h-IsProcessed _ ins outs k.room (k.same_bufsize ∙ same) big refl in_frames
                in_ports out_frames out_ports (omega (arith, room, k.queued)) (few now cy refl e)
                from_device to_device)
            (λ _.
              Runs-some _ _
                (fail-IsProcessed _ outs k.room (k.same_bufsize ∙ same) refl out_frames)))
