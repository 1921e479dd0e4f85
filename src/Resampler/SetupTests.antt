-- ===== src/Resampler/SetupTests.antt =====
-- A resampler that is set up with a libusb that accepts every call, and started.
use overwitch.Prelude.{ℕ, ◌≡◌, refl, true, Runs, arith}
use overwitch.Numeric.Samples.{plain_floats, plain_doubles}
use overwitch.Device.{get_frame_size_from_desc_tracks, frame_size_from}
use overwitch.Engine.Rings.Plain.{PlainRing, plain_rings}
use overwitch.Engine.Status.{ok}
use overwitch.Engine.Start.{Context}
use overwitch.Engine.Memory.{alloc, measure, init_mem}
use overwitch.Engine.Tests.Callbacks.{open_engine}
use overwitch.Engine.Usb.{attempt, open_device, prepare, allocate, init, init_named}
use overwitch.Engine.Usb
use overwitch.Engine.Usb.Tests.{accepting}
use overwitch.Resampler.State.{Resampler}
use overwitch.Resampler.Tests.{booting}
use overwitch.Resampler.Setup.{begin, init_from_device, start}
use overwitch.Resampler.Started.{IsStarted, init_start-IsStarted}

abbrev context : Context
context = record {
  write_space = true;
  write = true;
  read_space = true;
  read = true;
  get_time = true;
  h2o_audio = true;
  o2h_audio = true;
  dll = true;
  dll_overbridge_init = true;
  dll_overbridge_update = true;
  set_rt_priority = true;
  priority = 20;
  options = 3;
}

abbrev opened : Resampler plain_doubles ℕ PlainRing
opened =
    begin plain_doubles plain_floats plain_rings open_engine.desc
      (alloc plain_floats
        (measure plain_floats (prepare plain_floats accepting open_engine.desc booting.engine) 1))
      booting

is_set_up :
    (init_from_device plain_doubles plain_floats plain_rings accepting open_engine.desc 1 5 1
      booting).0
    ≡ ok opened
unfolding init_from_device Usb.init_from_device open_device init_named init attempt allocate prepare
    init_mem get_frame_size_from_desc_tracks frame_size_from
is_set_up = refl

init_start-IsStarted_example :
    Runs
      (start plain_doubles plain_floats plain_rings true context open_engine.o2h_audio
        open_engine.h2o_audio 48_000 64 opened)
      (IsStarted plain_doubles plain_floats plain_rings open_engine.desc true context 48_000 64)
init_start-IsStarted_example =
    init_start-IsStarted plain_doubles plain_floats plain_rings accepting open_engine.desc 1 5 1
      booting opened true context open_engine.o2h_audio open_engine.h2o_audio 48_000 64 is_set_up
      (omega arith) (omega arith)
