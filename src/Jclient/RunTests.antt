-- ===== src/Jclient/RunTests.antt =====
-- Runs of `jclient_run` with one port each way, and the theorems there.
use overwitch.Prelude.{◌≡◌, refl, true, false, none, [], ◌∷◌}
use overwitch.Device.{DeviceDesc, type_1}
use overwitch.Jclient.Run.{
  Jack, output, input, open_client, close_client, register_port, create_ring, free_ring,
  start_resampler, wait_resampler, activate, deactivate, run_ports, register_ports, run_resampler,
  jclient_run,
}

abbrev desc : DeviceDesc
desc = record {
  pid = 0x000c;
  name = "Digitakt";
  type = type_1;
  input_tracks = record { name = "In"; size = 4 } ∷ [];
  output_tracks = record { name = "Out"; size = 4 } ∷ [];
}

abbrev jack : Jack
jack = record {
  opens = true;
  sets_process = true;
  sets_xrun = true;
  sets_latency = true;
  sets_buffer_size = true;
  sets_sample_rate = true;
  real_time_priority = 10;
  registers = λ dir i. true;
  start = λ priority. none;
  activates = true;
}

whole_run : jclient_run jack desc 4_294_967_295 4 4 ≡ (
  none,
  open_client
      ∷ register_port output 0
      ∷ register_port input 0
      ∷ create_ring output 65536
      ∷ create_ring input 65536
      ∷ start_resampler 10
      ∷ activate
      ∷ wait_resampler
      ∷ deactivate
      ∷ free_ring input 65536
      ∷ free_ring output 65536
      ∷ close_client
      ∷ [],
)
unfolding jclient_run run_ports register_ports run_resampler
whole_run = refl

-- A refused callback is no error.
refused_callback :
    jclient_run (record jack { sets_xrun = false }) desc 5 4 4
    ≡ (none, open_client ∷ close_client ∷ [])
unfolding jclient_run
refused_callback = refl
