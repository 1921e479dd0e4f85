-- ===== src/Jclient/Process.antt =====
-- `jclient_process_cb` of src/jclient.c, which JACK calls in every cycle.
use overwitch.Prelude.{ℕ, ◌==◌, Bool, false, Option, none, some, ◌>>=◌, List, if◌then◌else◌, store}
use overwitch.Numeric.{Floats, Doubles}
use overwitch.Engine.Rings.{Rings}
use overwitch.Resampler.State.{Resampler}
use overwitch.Resampler.Ratios.{compute_ratios, stop}
use overwitch.Resampler.Audio.{Converter, read_audio, write_audio}
use overwitch.Jclient.Copies.{copy_o2j_audio, copy_j2o_audio}

module _ (N : Doubles) (F : Floats) (R : Rings F.Float) (C : Converter F.Float N.Double) where
  open N use {Double}
  open F use {Float}
  open R use {Ring}
  open C use {Src}

  -- The parts of `struct jclient` that a cycle uses, with the state of the two conversions and the
  -- static variable of `ow_resampler_write_audio`.
  pub record Client : Type 0 where
    pub resampler : Resampler N Float Ring
    pub o2h_state : Src
    pub h2o_state : Src
    pub h2o_acc : Double
    pub xrun : Bool

  -- What the callback returns, and the buffers of the output ports.
  pub record Processed : Type 0 where
    pub result : ℕ
    pub output_ports : List (List Float)
    pub client : Client

  -- `jclient_stop` and the error.
  unfoldable pub fail : Client → List (List Float) → Processed
  fail c output_ports = record {
    result = 1;
    output_ports = output_ports;
    client = record c { resampler = stop N F R c.resampler };
  }

  -- From the host to the device.
  unfoldable pub process_h2o : ℕ → Client → List (List Float) → List (List Float) → Option Processed
  unfolding fail
  process_h2o nframes c input_ports output_ports = do
    samples ← copy_j2o_audio nframes 0 input_ports
    let r = c.resampler
    buf ← store r.h2o_buf_in samples
    w ← write_audio N F R C (record r { h2o_buf_in = buf }) c.h2o_state c.h2o_acc
    let c' = record c { resampler = w.3; h2o_state = w.1; h2o_acc = w.2 }
    some (
        if w.0
        then fail c' output_ports
        else record { result = 0; output_ports = output_ports; client = c' })

  -- From the device to the host, and then the other way.
  unfoldable pub process_o2h : ℕ → Client → List (List Float) → List (List Float) → Option Processed
  unfolding fail process_h2o
  process_o2h nframes c input_ports output_ports = do
    a ← read_audio N F R C c.resampler c.o2h_state
    let c' = record c { resampler = a.2; o2h_state = a.1 }
    if a.0 then some (fail c' output_ports) else (do
      ports ← copy_o2j_audio nframes 0 output_ports a.2.o2h_buf_out
      process_h2o nframes c' input_ports ports)

  -- `jclient_process_cb`. `time` is `none` where JACK does not tell it.
  unfoldable pub process_cb :
      ℕ → Option ℕ → Client → List (List Float) → List (List Float) → Option Processed
  unfolding fail process_o2h
  process_cb nframes none c input_ports output_ports =
      some (fail (record c { xrun = false }) output_ports)
  process_cb nframes (some now) c input_ports output_ports = do
    cycle ← compute_ratios N F R c.resampler now c.xrun
    let c' = record c { resampler = cycle.resampler; xrun = false }
    if cycle.result == 0
        then process_o2h nframes c' input_ports output_ports
        else some (fail c' output_ports)
