-- ===== src/Resampler/Tests.antt =====
-- The resampler at a device with one track each way and a host with buffers of eight frames, and the
-- theorems there.
use overwitch.Prelude.{
  ℕ, ◌+◌, ◌*◌, ◌<◌, ◌≡◌, ◌>>=◌, refl, none, Option, some, true, false, [], Runs, take, replicate,
  arith,
}
use overwitch.Numeric.Samples.{plain_floats, plain_doubles}
use overwitch.Engine.Rings.Plain.{PlainRing, plain_rings}
use overwitch.Engine.Tests.Callbacks.{open_engine}
use overwitch.Engine.Status
use overwitch.Engine.Output.{bytes_to_frame_bytes}
use overwitch.Dll.Tests.{origin, device_side, dll}
use overwitch.Dll.{
  is_tuned, host_update, host_update_error, host_load_dll_overbridge, host_set_loop_filter,
}
use overwitch.Resampler.State.{boot, run, report_state, Report, Resampler}
use overwitch.Resampler.Buffers.{clear_resampler, h2o_reader, o2h_reader}
use overwitch.Resampler.Ratios.{Cycle, compute_ratios}
use overwitch.Resampler.Graph.{observe}
use overwitch.Resampler.Cycles.{Follows, compute_ratios-Follows}
use overwitch.Resampler.Trace.{After, booted, cycle, After-run}
use overwitch.Resampler.Audio.{Converter, done, more, read_audio, write_audio, queue_audio, wanted}
use overwitch.Resampler.Room.{HasRoom, Handed, o2h_reader-Handed, Drained, h2o_reader-Drained}
use overwitch.Resampler.Queue.{queue_audio_gap}
use overwitch.Resampler.Conversions.{Bounded, read_audio-HasRoom, Written, write_audio-Written}

abbrev report : Report plain_doubles
report = record {
  status = boot;
  ratio_o2h = 0;
  ratio_h2o = 0;
  t_latency_o2h = 0;
  t_latency_o2h_min = 0;
  t_latency_o2h_max = 0;
  t_latency_h2o = 0;
  t_latency_h2o_min = 0;
  t_latency_h2o_max = 0;
  f_latency_o2h = 0;
  f_latency_o2h_min = 0;
  f_latency_o2h_max = 0;
  f_latency_h2o = 0;
  f_latency_h2o_min = 0;
  f_latency_h2o_max = 0;
}

-- The engine waits and the resampler boots.
abbrev pub booting : Resampler plain_doubles ℕ PlainRing
booting = record {
  status = boot;
  engine = record open_engine { status = Status.wait };
  dll = dll;
  o2h_ratio = 1_000_000;
  h2o_ratio = 1_000_000;
  h2o_buf_in = replicate 8 1;
  h2o_buf_out = replicate 64 0;
  h2o_aux = replicate 64 0;
  h2o_queue = replicate 64 0;
  o2h_buf_in = replicate 8 0;
  o2h_buf_out = replicate 8 0;
  h2o_queue_len = 0;
  log_control_cycles = 0;
  log_cycles = 0;
  reading_at_o2h_end = true;
  o2h_frame_size = 4;
  h2o_frame_size = 4;
  o2h_bufsize = 32;
  h2o_bufsize = 32;
  bufsize = 8;
  samplerate = 48_000_000_000;
  report_period = 2;
  state = report;
  phase_start_usecs = 0;
  has_o2h_audio = true;
}

abbrev pub running : ℕ → Resampler plain_doubles ℕ PlainRing
running queued = record booting { status = run; h2o_queue_len = queued }

abbrev pub Room : Resampler plain_doubles ℕ PlainRing → Type 0
Room = HasRoom plain_doubles plain_floats plain_rings 1 1

pub running-HasRoom : (queued : ℕ) → Room (running queued)
running-HasRoom queued = record {
  some_output = omega arith;
  o2h_frame = refl;
  h2o_frame = refl;
  o2h_buf = refl;
  h2o_buf = refl;
  o2h_in = refl;
  o2h_out = refl;
  h2o_in = refl;
  h2o_out = refl;
  aux = refl;
  queue = refl;
}

-- It asks for frames once and gives what was wanted.
abbrev pub plain_converter : Converter ℕ ℕ
plain_converter = record {
  Src = ℕ;
  src_callback_read = λ s ratio n. more (λ buf frames. done n [] s);
}

compute_ratios-Follows_example :
    Runs (compute_ratios plain_doubles plain_floats plain_rings (running 0) 5 true) (
      Follows plain_doubles plain_floats plain_rings
        (running 0)
        (observe plain_doubles plain_floats plain_rings (running 0) 5 true))
compute_ratios-Follows_example =
    compute_ratios-Follows plain_doubles plain_floats plain_rings 5 true (running 0) (omega arith)

o2h_reader-Handed_example :
    Runs
      (o2h_reader plain_doubles plain_floats plain_rings (running 0))
      (Handed plain_doubles plain_floats plain_rings 1 1 (running 0))
o2h_reader-Handed_example =
    o2h_reader-Handed plain_doubles plain_floats plain_rings 1 1 (running 0) (running-HasRoom 0)
      (omega arith)

h2o_reader-Drained_example :
    Runs
      (h2o_reader plain_doubles plain_floats plain_rings (running 8))
      (Drained plain_doubles plain_floats plain_rings 1 1 (running 8))
h2o_reader-Drained_example =
    h2o_reader-Drained plain_doubles plain_floats plain_rings 1 1 (running 8) (running-HasRoom 8)
      (omega arith)

queue_audio_gap_example :
    Runs
      (queue_audio plain_doubles plain_floats plain_rings (running 8)
        >>= (λ r'. h2o_reader plain_doubles plain_floats plain_rings r'))
      (λ p. (p.0 ≡ 2 * 8) × (take (2 * 8 * 1) p.1.h2o_aux ≡ take (2 * 8 * 1) (replicate 64 0)))
queue_audio_gap_example =
    queue_audio_gap plain_doubles plain_floats plain_rings 1 1 (running 8) (running-HasRoom 8) refl

read_audio-HasRoom_example :
    Runs
      (read_audio plain_doubles plain_floats plain_rings plain_converter (running 0) 3)
      (λ p. Room p.2 × (p.2.bufsize ≡ 8) × (p.2.h2o_ratio ≡ 1_000_000) × (p.2.h2o_queue_len ≡ 0))
unfolding Bounded
read_audio-HasRoom_example =
    read_audio-HasRoom plain_doubles plain_floats plain_rings plain_converter 1 1 (running 0) 3
      (running-HasRoom 0) (omega arith) (λ buf frames. omega arith)

write_audio-Written_example :
    Runs
      (write_audio plain_doubles plain_floats plain_rings plain_converter (running 0) 3 0)
      (λ p. Written plain_doubles plain_floats plain_rings plain_converter 1 1 (running 0) p.3)
unfolding Bounded wanted
write_audio-Written_example =
    write_audio-Written plain_doubles plain_floats plain_rings plain_converter 1 1 (running 0) 3 0
      (running-HasRoom 0) (omega arith) (omega arith) (λ buf frames. omega arith)

-- The DLL sees no error.
abbrev quiet : Resampler plain_doubles ℕ PlainRing
quiet = record booting {
  dll = record dll { err = 0; dll_overbridge = record device_side { i1 = origin } };
}

cycle_of :
    ℕ → Resampler plain_doubles ℕ PlainRing → Option (Cycle (Resampler plain_doubles ℕ PlainRing))
cycle_of now r = compute_ratios plain_doubles plain_floats plain_rings r now false

-- What a cycle returns.
returned :
    Option (Cycle (Resampler plain_doubles ℕ PlainRing))
    → Cycle (Resampler plain_doubles ℕ PlainRing)
returned (some c) = c
returned none = record { result = 1; notified = false; resampler = quiet }

-- After three seconds it tunes, and after four more it runs.
first : Cycle (Resampler plain_doubles ℕ PlainRing)
first = returned (cycle_of 3_000_001 quiet)

second : Cycle (Resampler plain_doubles ℕ PlainRing)
second = returned (cycle_of 7_000_002 first.resampler)

quiet-After : After plain_doubles plain_floats plain_rings 0 7_000_002 second.resampler
unfolding second first returned cycle_of compute_ratios is_tuned host_update host_update_error
    host_load_dll_overbridge host_set_loop_filter clear_resampler report_state bytes_to_frame_bytes
quiet-After =
    cycle 7_000_002 false second
      (cycle 3_000_001 false first (booted {r = quiet} refl refl) (omega arith) (omega arith)
        (omega arith) refl)
      (omega arith) (omega arith) (omega arith) refl

After-run_example : 0 + 7_000_000 < 7_000_002
unfolding second first returned cycle_of compute_ratios is_tuned host_update host_update_error
    host_load_dll_overbridge host_set_loop_filter clear_resampler report_state bytes_to_frame_bytes
After-run_example = After-run plain_doubles plain_floats plain_rings quiet-After refl
