-- ===== src/Programs/Released.antt =====
-- What the programs give back of what they took.
use overwitch.Prelude.{
  ◌≡◌, Bool, true, false, not, ◌&&◌, ◌||◌, Option, none, some, allow, hold_all, arith,
}
use overwitch.Programs.Calls.{
  Call, init_engine, start_engine, set_name, stop_engine, wait_engine, destroy_engine, open_file,
  close_file, create_thread, end_thread, init_client, start_client, stop_client, wait_client,
  destroy_client, free_device, World, rename_device,
}

-- What is taken and not yet given back; `engine_runs` and `client_runs` until they are waited for.
pub record Held : Type 0 where
  pub device : Bool
  pub engine : Bool
  pub engine_runs : Bool
  pub file : Bool
  pub thread : Bool
  pub client : Bool
  pub client_runs : Bool

abbrev pub nothing : Held
nothing = record {
  device = false;
  engine = false;
  engine_runs = false;
  file = false;
  thread = false;
  client = false;
  client_runs = false;
}

-- A call; `none` where it takes what is held already, gives back what is not held, or uses what is
-- not there. The thread of the disk writes to the file as long as it is not ended. An engine and a
-- client that are destroyed free their device.
unfoldable pub hold : Held → Call → Option Held
hold h init_engine = allow (h.device && not h.engine) (record h { engine = true })
hold h start_engine = allow (h.engine && not h.engine_runs) (record h { engine_runs = true })
hold h set_name = allow h.engine h
hold h stop_engine = allow h.engine h
hold h wait_engine = allow h.engine_runs (record h { engine_runs = false })
hold h destroy_engine = allow (h.device && h.engine) (record h { engine = false; device = false })
hold h open_file = allow (not h.file) (record h { file = true })
hold h close_file = allow (h.file && not h.thread) (record h { file = false })
hold h create_thread = allow (h.file && not h.thread) (record h { thread = true })
hold h end_thread = allow h.thread (record h { thread = false })
hold h init_client = allow (h.device && not h.client) (record h { client = true })
hold h start_client = allow (h.client && not h.client_runs) (record h { client_runs = true })
hold h stop_client = allow h.client h
hold h wait_client = allow h.client_runs (record h { client_runs = false })
hold h destroy_client =
    allow (h.device && (h.client && not h.client_runs))
      (record h { client = false; device = false })
hold h free_device = allow (h.device && not (h.engine || h.client)) (record h { device = false })

abbrev pub is_some {ℓ} : {A : Type ℓ} → Option A → Bool
is_some none = false
is_some (some a) = true

-- The programs begin with the device that they have found.
abbrev pub begun : World → Held
begun w = record nothing { device = is_some w.found }

abbrev pub is_start : Call → Bool
is_start c = elim c [ start_engine ↦ true | _ ↦ false ]

-- A renaming never destroys the engine, and so keeps its device too, exactly if a device was found
-- and the engine could be set up.
rename_device_leaks :
    (w : World)
    → hold_all hold (begun w) (rename_device w).1
      ≡ some (record nothing {
        engine = is_some w.found && not (is_some w.engine_init);
        device = is_some w.found && not (is_some w.engine_init);
      })
unfolding rename_device hold_all hold
rename_device_leaks w = ground arith
