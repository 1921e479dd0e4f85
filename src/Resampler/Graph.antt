-- ===== src/Resampler/Graph.antt =====
-- What `ow_resampler_compute_ratios` of src/resampler.c does to the status of the resampler and
-- to its clock, as a machine of its own that sees only what decides.
pub mod Facts
use overwitch.Prelude.{ℕ, Bool, true, false, ◌&&◌, leb, ltb, if◌then◌else◌}
use overwitch.Numeric.{Floats, Doubles}
use overwitch.Dll.{host_load_dll_overbridge, host_update_error, host_update, is_tuned}
use overwitch.Engine.Rings.{Rings}
use overwitch.Engine.Status.{EngineStatus, clear_buffers, set_status}
use overwitch.Resampler.State.{ResamplerStatus, ready, boot, tune, run, retune, Resampler}
use overwitch.Resampler.Ratios.{elapsed, booting_period_us, tuning_period_us}

abbrev pub is_wait : EngineStatus → Bool
is_wait EngineStatus.wait = true
is_wait _ = false

-- What a cycle sees: the engine, the clock, and what the DLL says.
pub record Observation : Type 0 where
  pub engine : EngineStatus
  pub now : ℕ
  pub retune_required : Bool
  pub is_steady : Bool
  pub is_settled : Bool

-- The status and when it was entered, or when the last disturbance was.
pub record Phase : Type 0 where
  pub status : ResamplerStatus
  pub start : ℕ

abbrev pub settle : Observation → Phase → Phase
settle o p =
    if o.retune_required
    then record p { start = o.now }
    else if ltb tuning_period_us (elapsed o.now p.start)
    then if o.is_settled then record { status = run; start = p.start } else p
    else p

unfoldable pub next_of : ResamplerStatus → Observation → Phase → Phase
next_of ready o p = if is_wait o.engine then record { status = boot; start = o.now } else p
next_of boot o p =
    if ltb booting_period_us (elapsed o.now p.start)
    then if o.is_steady then record { status = tune; start = o.now } else p
    else p
next_of tune o p = settle o p
next_of retune o p = settle o p
next_of run o p = if o.retune_required then record { status = retune; start = o.now } else p
next_of _ o p = p

abbrev pub next : Observation → Phase → Phase
next o p = next_of p.status o p

-- The engine is told to run, and as it then runs it is at once told to clear its buffers.
abbrev pub engine_after : ResamplerStatus → ResamplerStatus → EngineStatus → EngineStatus
engine_after ready ready EngineStatus.ready = EngineStatus.steady
engine_after tune run s = clear_buffers (set_status EngineStatus.run s)
engine_after retune run s = clear_buffers (set_status EngineStatus.run s)
engine_after run retune s = clear_buffers s
engine_after _ _ s = s

abbrev pub enters_run : ResamplerStatus → ResamplerStatus → Bool
enters_run tune run = true
enters_run retune run = true
enters_run _ _ = false

-- A cycle fails only while the resampler is ready for an engine that has stopped or failed.
abbrev pub result_of : Bool → ℕ → ℕ
result_of is_ready engine_level = if is_ready && leb engine_level 1 then 1 else 0

module _ (N : Doubles) (F : Floats) (R : Rings F.Float) where
  open N use {lit}
  open F use {Float}
  open R use {Ring}

  abbrev pub phase : Resampler N Float Ring → Phase
  phase r = record { status = r.status; start = r.phase_start_usecs }

  abbrev pub sees : Resampler N Float Ring → ℕ → Bool → Observation
  sees r now retune_required = record {
    engine = r.engine.status;
    now = now;
    retune_required = retune_required;
    is_steady = is_tuned N r.dll (lit 1 1000);
    is_settled = is_tuned N r.dll (lit 1 100_000);
  }

  -- The DLL with the error of this cycle, and after its update.
  abbrev pub observe : Resampler N Float Ring → ℕ → Bool → Observation
  observe r now xrun =
      let (dll, out_of_bounds) =
        host_update N (host_update_error N (host_load_dll_overbridge N r.dll) now) in
      sees (record r { dll = dll }) now (if out_of_bounds then true else xrun)
