-- ===== src/Engine/Thread.antt =====
-- `run_audio` of src/engine.c, the thread of an engine, one access to the status at a time, and
-- the other threads and callbacks that change the status meanwhile.
pub mod Stopping
use overwitch.Prelude.{Bool, true, false, ltb, leb, if◌then◌else◌, ◌≡◌}
use overwitch.Engine.Status.{
  EngineStatus, error, stop, ready, steady, boot, clear, wait, run, level, is_alive, is_run,
  set_status, clear_buffers,
}

-- Where the thread stands.
pub data Pc : Type 0 where
  starting : Pc  -- before the transfers are submitted
  spin : Pc  -- `while (ow_engine_get_status (engine) != OW_ENGINE_STATUS_STEADY)`
  notify : Pc  -- `ow_engine_set_status (engine, OW_ENGINE_STATUS_STEADY)`
  enter : Pc  -- the lock before the loop
  top : Pc  -- the lock at the head of `while (1)`
  handle : Pc  -- `while (ow_engine_get_status (engine) >= OW_ENGINE_STATUS_WAIT)`
  leave : Pc  -- the test after that loop
  drain : Pc  -- "Clearing buffers..."
  remaining : Pc  -- "Processing remaining events..."
  done : Pc

pub record System : Type 0 where
  pub pc : Pc
  pub status : EngineStatus

-- `prepare_cycle_in_audio` and `prepare_cycle_out_audio`, as far as the status goes: a transfer
-- is submitted, and the status becomes an error if libusb refuses it.
unfoldable pub prepare_cycle : Bool → EngineStatus → EngineStatus
prepare_cycle refused status = if refused then set_status error status else status

abbrev is_steady : EngineStatus → Bool
is_steady steady = true
is_steady _ = false

abbrev is_boot : EngineStatus → Bool
is_boot boot = true
is_boot _ = false

abbrev is_clear : EngineStatus → Bool
is_clear clear = true
is_clear _ = false

-- The changes under the lock at the head of the loop.
unfoldable pub resume : Bool → EngineStatus → EngineStatus
resume has_dll status =
    let s = if is_clear status then run else status in
    if has_dll then (if is_boot s then wait else s) else run

-- One step of the thread once its transfers are submitted.
unfoldable pub dispatch : Bool → Pc → EngineStatus → System
unfolding resume set_status
dispatch has_dll starting s = record { pc = starting; status = s }
dispatch has_dll spin s = record { pc = if is_steady s then enter else spin; status = s }
dispatch has_dll notify s = record { pc = enter; status = set_status steady s }
dispatch has_dll enter s =
    if is_alive s then record { pc = top; status = boot } else record { pc = done; status = s }
dispatch has_dll top s =
    if is_alive s
    then record { pc = handle; status = resume has_dll s }
    else record { pc = done; status = s }
dispatch has_dll handle s = record {
  pc = if leb (level wait) (level s) then handle else leave;
  status = s;
}
dispatch has_dll leave s = record {
  pc = if ltb (level s) (level boot) then remaining else drain;
  status = s;
}
dispatch has_dll drain s = record { pc = top; status = s }
dispatch has_dll remaining s = record { pc = done; status = s }
dispatch has_dll done s = record { pc = done; status = s }

unfoldable pub advance : Bool → System → System
unfolding dispatch
advance has_dll t = dispatch has_dll t.pc t.status

-- The start of the thread: both transfers are submitted, and then the status is ready.
unfoldable pub launch : Bool → Bool → Bool → System → System
unfolding prepare_cycle
launch has_dll in_refused out_refused t =
    let submitted = prepare_cycle out_refused (prepare_cycle in_refused t.status) in
    let announced : EngineStatus = ready in
    record { pc = if has_dll then spin else notify; status = announced }

-- The statuses that the program hands to `ow_engine_set_status`: `error` by the callbacks, `stop`
-- by `ow_engine_stop`, `steady` and `run` by `ow_resampler_compute_ratios`, and `boot` by
-- `ow_resampler_reset`. Their own conditions are left out, so they may come at any time.
pub data Request : EngineStatus → Type 0 where
  fail : Request error
  halt : Request stop
  settle : Request steady
  reboot : Request boot
  start : Request run

pub data Step (has_dll : Bool) : System → System → Type 0 where
  launched :
      {t : System} (in_refused out_refused : Bool)
      → t.pc ≡ starting
      → Step has_dll t (launch has_dll in_refused out_refused t)
  thread : {t : System} → Step has_dll t (advance has_dll t)
  host :
      {t : System} {s : EngineStatus}
      → Request s
      → Step has_dll t (record t { status = set_status s t.status })
  clears : {t : System} → Step has_dll t (record t { status = clear_buffers t.status })

pub data Reach (has_dll : Bool) (s : System) : System → Type 0 where
  here : Reach has_dll s s
  next : {t u : System} → Reach has_dll s t → Step has_dll t u → Reach has_dll s u
