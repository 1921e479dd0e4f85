-- ===== src/Engine/Thread/Stopping.antt =====
-- How an engine stops: `ow_engine_stop`, a failed transfer, and what `run_audio` of src/engine.c
-- does after them.
use overwitch.Prelude.{ℕ, zero, suc, Bool, true, false, ◌≡◌, ◌≢◌, refl, arith}
use overwitch.Engine.Status.{EngineStatus, error, ready, is_alive, set_status, clear_buffers}
use overwitch.Engine.Thread.{
  starting, spin, done, System, prepare_cycle, advance, launch, Step, launched, thread, host,
  clears, Reach, here, next,
}

-- Stopped or failed, and past the start of the thread.
pub record IsStopped (t : System) : Type 0 where
  pub started : t.pc ≢ starting
  pub dead : is_alive t.status ≡ false

advance-IsStopped : (has_dll : Bool) (t : System) → IsStopped t → IsStopped (advance has_dll t)
unfolding advance
advance-IsStopped has_dll t h = ground arith

Step-IsStopped : {has_dll : Bool} {t u : System} → Step has_dll t u → IsStopped t → IsStopped u
unfolding set_status clear_buffers
Step-IsStopped (launched i o p) h = absurd (h.started p)
Step-IsStopped (thread {t = t}) h = advance-IsStopped _ t h
Step-IsStopped (host r) h = ground arith
Step-IsStopped clears h = ground arith

-- A started engine that is stopped or has failed stays so, whatever its thread, the resampler
-- and the callbacks do.
pub Reach-IsStopped :
    {has_dll : Bool} {t u : System} → Reach has_dll t u → IsStopped t → IsStopped u
Reach-IsStopped here h = h
Reach-IsStopped (next r st) h = Step-IsStopped st (Reach-IsStopped r h)

-- The thread's own steps, one after another.
abbrev pub iterate : Bool → ℕ → System → System
iterate has_dll zero t = t
iterate has_dll (suc n) t = iterate has_dll n (advance has_dll t)

-- Where a stopped engine's thread does not spin, it ends within five steps.
pub stopped_ends :
    (has_dll : Bool) (t : System) → IsStopped t → t.pc ≢ spin → (iterate has_dll 5 t).pc ≡ done
unfolding advance
stopped_ends has_dll t h = ground arith

-- Where it spins, it never leaves: a stop or a failure that comes before the resampler has set
-- the status to steady leaves the thread in its loop, and nothing in the program ends it.
record IsStuck (t : System) : Type 0 where
  at_spin : t.pc ≡ spin
  unsteady : is_alive t.status ≡ false

Step-IsStuck : {has_dll : Bool} {t u : System} → Step has_dll t u → IsStuck t → IsStuck u
unfolding set_status clear_buffers advance
Step-IsStuck (launched i o p) h = absurd (ground arith)
Step-IsStuck (thread {t = t}) h = ground arith
Step-IsStuck (host r) h = ground arith
Step-IsStuck clears h = ground arith

Reach-IsStuck : {has_dll : Bool} {t u : System} → Reach has_dll t u → IsStuck t → IsStuck u
Reach-IsStuck here h = h
Reach-IsStuck (next r st) h = Step-IsStuck st (Reach-IsStuck r h)

-- An engine with a DLL that is stopped or has failed while its thread waits for the resampler
-- keeps that thread spinning in every state that the system can reach.
pub stopped_spins :
    {has_dll : Bool} {t u : System}
    → Reach has_dll t u
    → t.pc ≡ spin
    → is_alive t.status ≡ false
    → (u.pc ≡ spin) × (is_alive u.status ≡ false)
stopped_spins r p d =
    let h = Reach-IsStuck r (record { at_spin = p; unsteady = d }) in (h.at_spin, h.unsteady)

-- A transfer that libusb refuses fails an engine that runs, and changes nothing at the start of
-- the thread, where the engine is announced as ready all the same.
launch_ignores_refusal :
    (has_dll in_refused out_refused : Bool) (t : System) (s : EngineStatus)
    → is_alive s ≡ true
    → (prepare_cycle true s ≡ error)
      × (launch has_dll in_refused out_refused t ≡ launch has_dll false false t)
      × ((launch has_dll in_refused out_refused t).status ≡ ready)
unfolding prepare_cycle launch set_status
launch_ignores_refusal has_dll i o t s h = (ground arith, refl, refl)
