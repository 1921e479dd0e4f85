-- ===== src/Programs/Tests.antt =====
-- A world in which everything succeeds, and the theorem there.
use overwitch.Prelude.{◌≡◌, true, false, refl, none, some, [], ◌∷◌}
use overwitch.Device.{DeviceDesc, type_1}
use overwitch.Recorder.Outputs.{count_outputs}
use overwitch.Programs.Calls.{
  World, ow_ok, indeterminate, init_engine, start_engine, wait_engine, destroy_engine, open_file,
  close_file, create_thread, end_thread, run_record, run_jclient,
}

abbrev desc : DeviceDesc
desc = record {
  pid = 0x000c;
  name = "Digitakt";
  type = type_1;
  input_tracks = record { name = "In"; size = 4 } ∷ [];
  output_tracks = record { name = "Out"; size = 4 } ∷ [];
}

abbrev world : World
world = record {
  found = some desc;
  engine_init = none;
  engine_start = none;
  opens = true;
  channels = 1;
  creates_thread = true;
  client_init = true;
  stopped = false;
  stopped_later = false;
}

recorded : run_record world none ≡ (
  ow_ok,
  init_engine ∷ open_file ∷ start_engine ∷ create_thread ∷ wait_engine ∷ end_thread ∷ close_file
      ∷ destroy_engine ∷ [],
)
unfolding run_record count_outputs
recorded = refl

-- overwitch-cli returns a variable that was never set.
never_set : (run_jclient world).0 ≡ indeterminate
unfolding run_jclient
never_set = refl
