-- ===== src/Dll/Tests.antt =====
-- The DLL at small inputs, and the theorems at them.
use overwitch.Prelude.{◌≡◌, false, arith}
use overwitch.Numeric.Samples.{plain_doubles}
use overwitch.Dll.{Instant, DllOverbridge, Dll, diff32, overbridge_update, host_load_dll_overbridge}
use overwitch.Dll.Frames.{instants_apart}

abbrev pub origin : Instant plain_doubles
origin = record { time = 0; frames = 0 }

abbrev pub late : Instant plain_doubles
late = record { time = 1; frames = 0xffff_fff0 }

-- It has booted, and its count is about to wrap.
abbrev pub device_side : DllOverbridge plain_doubles
device_side = record { i0 = origin; i1 = late; dt = 0; w1 = 0; w2 = 0; boot = false }

abbrev pub dll : Dll plain_doubles
dll = record {
  ratio = 1_000_000;
  max_ratio = 2_000_000;
  min_ratio = 500_000;
  frames = 0;
  w0 = 0;
  w1 = 0;
  w2 = 0;
  target_delay = 0;
  z1 = 0;
  z2 = 0;
  z3 = 0;
  t_quantum = 0;
  err = 999_999;
  i0 = origin;
  i1 = origin;
  dll_overbridge = device_side;
  boot = false;
}

instants_apart_example :
    let d = host_load_dll_overbridge plain_doubles (overbridge_update plain_doubles dll 168 5) in
    (diff32 plain_doubles d.i1.frames d.i0.frames ≡ 168) × (d.dll_overbridge.boot ≡ false)
instants_apart_example = instants_apart plain_doubles dll 168 5 (omega arith) (omega arith)
