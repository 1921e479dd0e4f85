-- ===== src/Resampler/Setup.antt =====
-- `ow_resampler_init_from_device` and `ow_resampler_start` of src/resampler.c.
-- The two states of libsamplerate that the first makes are arguments of what uses them.
use overwitch.Prelude.{ℕ, ◌*◌, Bool, true, false, Option, some, ◌>>=◌, List, []}
use overwitch.Numeric.{Floats, Doubles}
use overwitch.Device.{DeviceDesc, inputs, outputs}
use overwitch.Engine.Rings.{Rings}
use overwitch.Engine.Status.{OwResult, ok, err}
use overwitch.Engine.State.{Engine}
use overwitch.Engine.Start.{Context}
use overwitch.Engine.Start
use overwitch.Engine.Usb.{UsbCall, Usb}
use overwitch.Engine.Usb
use overwitch.Dll.{host_init}
use overwitch.Resampler.State.{stop, ready, Resampler}
use overwitch.Resampler.Buffers.{reset_buffers}
use overwitch.Resampler.Ratios.{reset_dll}

-- `DEFAULT_REPORT_PERIOD`
abbrev default_report_period : ℕ
default_report_period = 2

-- The context of the host with the DLL and its two functions.
abbrev pub with_dll : Context → Context
with_dll c = record c { dll = true; dll_overbridge_init = true; dll_overbridge_update = true }

module _ (N : Doubles) (F : Floats) (R : Rings F.Float) where
  open N use {lit, of_uint}
  open F use {Float}
  open R use {Ring}

  -- What is set once the engine is there.
  unfoldable pub begin :
      DeviceDesc → Engine Float Ring → Resampler N Float Ring → Resampler N Float Ring
  begin desc e r = record r {
    engine = e;
    samplerate = lit 0 1;
    bufsize = 0;
    o2h_frame_size = outputs desc * 4;
    h2o_frame_size = inputs desc * 4;
    h2o_aux = [];
    status = stop;
    report_period = default_report_period;
    log_control_cycles = 0;
    dll = host_init N r.dll;
    has_o2h_audio = false;
  }

  -- `ow_resampler_init_from_device`, with the calls on libusb; the resampler that comes in is fresh
  -- memory.
  unfoldable pub init_from_device :
      Usb
      → DeviceDesc
      → ℕ
      → ℕ
      → ℕ
      → Resampler N Float Ring
      → OwResult (Resampler N Float Ring) × List UsbCall
  init_from_device u desc bus address blocks r =
      let (result, calls) = Usb.init_from_device F u desc bus address blocks r.engine in
      elim result [ ok e ↦ (ok (begin desc e r), calls) | err x ↦ (err x, calls) ]

  -- The context of the host with the functions of the DLL, and its two rings, in the engine.
  unfoldable pub attach : Context → Ring → Ring → Resampler N Float Ring → Resampler N Float Ring
  attach c o2h h2o r = record r {
    has_o2h_audio = c.o2h_audio;
    engine = record r.engine {
      options = c.options;
      has_dll = true;
      o2h_audio = o2h;
      h2o_audio = h2o;
    };
  }

  -- `ow_resampler_start`: the resampler, and what `ow_engine_start` returns. Whether
  -- `pthread_create` succeeds is an argument.
  unfoldable pub start :
      Bool
      → Context
      → Ring
      → Ring
      → ℕ
      → ℕ
      → Resampler N Float Ring
      → Option (Resampler N Float Ring × OwResult (Context × ℕ))
  start created c o2h h2o samplerate bufsize r = do
    r' ← reset_buffers N F R (record r { samplerate = of_uint samplerate; bufsize = bufsize })
    let r'' = record (reset_dll N F R r') { status = ready }
    some (attach c o2h h2o r'', Start.start created (with_dll c))
