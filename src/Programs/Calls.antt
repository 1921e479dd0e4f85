-- ===== src/Programs/Calls.antt =====
-- `run_record` of src/main-record.c, `run_play` of src/main-play.c, and `run_jclient` and
-- `rename_device` of src/main-cli.c: the calls that they make, in order, and what they return. What
-- the calls return, and whether a signal came before the test of `stop`, is a parameter.
use overwitch.Prelude.{ℕ, ◌==◌, Bool, not, if◌then◌else◌, Option, none, some, List, [], ◌∷◌, ◌++◌}
use overwitch.Engine.Status.{OwErr, generic_error}
use overwitch.Device.{DeviceDesc, inputs, outputs}
use overwitch.Recorder.State.{Mask}
use overwitch.Recorder.Outputs.{count_outputs}

-- The calls on the engine, the audio file, the thread of the disk, the JACK client and the device.
pub data Call : Type 0 where
  init_engine start_engine set_name stop_engine wait_engine destroy_engine : Call
  open_file close_file : Call
  create_thread end_thread : Call
  init_client start_client stop_client wait_client destroy_client : Call
  free_device : Call

pub record World : Type 0 where
  -- `ow_get_device_from_device_attrs`
  pub found : Option DeviceDesc
  -- The errors of `ow_engine_init_from_device` and `ow_engine_start`, if any.
  pub engine_init : Option OwErr
  pub engine_start : Option OwErr
  -- `sf_open` for a file that is read, and its channels.
  pub opens : Bool
  pub channels : ℕ
  pub creates_thread : Bool
  -- `jclient_init` and `jclient_start` are called; the first succeeds.
  pub client_init : Bool
  -- `stop` is set at the first and the second test of it.
  pub stopped : Bool
  pub stopped_later : Bool

-- What a program returns: an error code of the library, one of `exit`, or a variable that was never
-- set.
pub data Code : Type 0 where
  ow_ok : Code
  failed : OwErr → Code
  exit_failure : Code
  indeterminate : Code

abbrev pub Outcome : Type 0
Outcome = Code × List Call

abbrev after : List Call → Outcome → Outcome
after calls (code, rest) = (code, calls ++ rest)

-- From `sf_open` on.
unfoldable pub record_file : World → Outcome
record_file w = elim w.engine_start [
  | some e ↦ (failed e, open_file ∷ close_file ∷ destroy_engine ∷ [])
  | none ↦ after (open_file ∷ start_engine ∷ []) (
      if w.creates_thread
      then (ow_ok, create_thread ∷ wait_engine ∷ end_thread ∷ close_file ∷ destroy_engine ∷ [])
      else (ow_ok, close_file ∷ destroy_engine ∷ []))
]

unfoldable pub record_device : World → Mask → DeviceDesc → Outcome
unfolding record_file
record_device w mask desc = elim w.engine_init [
  | some e ↦ (failed e, free_device ∷ [])
  | none ↦ after (init_engine ∷ []) (
      if count_outputs mask (outputs desc) == 0
      then (failed generic_error, destroy_engine ∷ [])
      else record_file w)
]

unfoldable pub run_record : World → Mask → Outcome
unfolding record_device
run_record w mask = elim w.found [
  | none ↦ (failed generic_error, [])
  | some desc ↦ record_device w mask desc
]

-- Behind the test of the channels.
unfoldable pub play_file : World → Outcome
play_file w = elim w.engine_start [
  | some e ↦ (failed e, close_file ∷ destroy_engine ∷ [])
  | none ↦ (ow_ok, start_engine ∷ wait_engine ∷ close_file ∷ destroy_engine ∷ [])
]

unfoldable pub play_device : World → DeviceDesc → Outcome
unfolding play_file
play_device w desc = elim w.engine_init [
  | some e ↦ (failed e, free_device ∷ [])
  | none ↦ after (init_engine ∷ []) (
      if not w.opens
      then (failed generic_error, destroy_engine ∷ [])
      else after (open_file ∷ []) (
          if w.channels == inputs desc
          then play_file w
          else (failed generic_error, close_file ∷ destroy_engine ∷ [])))
]

unfoldable pub run_play : World → Outcome
unfolding play_device
run_play w = elim w.found [ none ↦ (failed generic_error, []) | some desc ↦ play_device w desc ]

-- A client that is already told to stop is stopped.
unfoldable pub run_client : World → Outcome
run_client w = if not w.client_init then (exit_failure, free_device ∷ []) else (
  indeterminate,
  (init_client ∷ start_client ∷ (if w.stopped_later then stop_client ∷ [] else []))
      ++ wait_client ∷ destroy_client ∷ [],
)

unfoldable pub run_jclient : World → Outcome
unfolding run_client
run_jclient w = elim w.found [
  | none ↦ (exit_failure, [])
  | some desc ↦ if w.stopped then (ow_ok, []) else run_client w
]

unfoldable pub rename_engine : World → Outcome
rename_engine w = if w.stopped then (ow_ok, []) else elim w.engine_start [
  | some e ↦ (failed e, [])
  | none ↦ (ow_ok, start_engine ∷ set_name ∷ stop_engine ∷ wait_engine ∷ [])
]

unfoldable pub rename_device : World → Outcome
unfolding rename_engine
rename_device w = elim w.found [
  | none ↦ (exit_failure, [])
  | some desc ↦ elim w.engine_init [
    | some e ↦ (failed e, free_device ∷ [])
    | none ↦ after (init_engine ∷ []) (rename_engine w)
  ]
]
