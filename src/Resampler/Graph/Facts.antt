-- ===== src/Resampler/Graph/Facts.antt =====
-- What the machine of Graph does, by the kind of status that it is in.
use overwitch.Prelude.{ℕ, ◌≡◌, ◌==◌, ◌&&◌, ◌||◌, refl, Bool, true, false, leb, arith}
use overwitch.Engine.Status.{EngineStatus, clear_buffers, set_status}
use overwitch.Engine.Status
use overwitch.Resampler.State.{
  is_ready, is_boot, is_running, is_tuning, ResamplerStatus, error, stop, ready, boot, tune, run,
  retune,
}
use overwitch.Resampler.Graph.{
  Observation, Phase, next_of, settle, is_wait, engine_after, enters_run, result_of,
}

-- Both ways of tuning end alike.
pub record Tuning (s : ResamplerStatus) (o : Observation) (p : Phase) (e : EngineStatus)
    : Type 0 where
  pub settles : next_of s o p ≡ settle o p
  pub stays : engine_after s s e ≡ e
  pub leaves : engine_after s run e ≡ clear_buffers (set_status EngineStatus.run e)
  pub silent : enters_run s s ≡ false
  pub notifies : enters_run s run ≡ true

pub Tuning_lem :
    (s : ResamplerStatus) (o : Observation) (p : Phase) (e : EngineStatus)
    → is_tuning s ≡ true
    → Tuning s o p e
unfolding next_of
Tuning_lem tune o p e h = record {
  settles = refl;
  stays = refl;
  leaves = refl;
  silent = refl;
  notifies = refl;
}
Tuning_lem retune o p e h = record {
  settles = refl;
  stays = refl;
  leaves = refl;
  silent = refl;
  notifies = refl;
}
Tuning_lem error o p e h = cc
Tuning_lem stop o p e h = cc
Tuning_lem ready o p e h = cc
Tuning_lem boot o p e h = cc
Tuning_lem run o p e h = cc

-- No stage is for the others, unless the engine waits.
idle_engine : (e : EngineStatus) → leb (Status.level e) 4 ≡ false → engine_after ready ready e ≡ e
idle_engine e l = ground arith

pub idle_lem :
    (s : ResamplerStatus) (o : Observation) (p : Phase) (e : EngineStatus)
    → is_boot s || is_tuning s || is_running s ≡ false
    → is_ready s && leb (Status.level e) 4 ≡ false
    → is_ready s && is_wait o.engine ≡ false
    → (next_of s o p ≡ p) × (engine_after s s e ≡ e) × (enters_run s s ≡ false)
unfolding next_of
idle_lem ready o p e i l w = (ground arith, idle_engine e l, refl)
idle_lem error o p e i l w = (refl, refl, refl)
idle_lem stop o p e i l w = (refl, refl, refl)
idle_lem boot o p e i l w = cc
idle_lem tune o p e i l w = cc
idle_lem retune o p e i l w = cc
idle_lem run o p e i l w = cc

pub level_lem : (b : Bool) (n : ℕ) → b && leb n 4 ≡ false → result_of b n ≡ 0
level_lem b n h = ground arith

pub ready_lem : (s : ResamplerStatus) → is_ready s ≡ true → s ≡ ready
ready_lem s h = ground arith

pub await_lem : (e : EngineStatus) → leb (Status.level e) 4 ≡ true → is_wait e ≡ false
await_lem e h = ground arith

pub wait_lem :
    (e : EngineStatus)
    → leb (Status.level e) 4 ≡ false
    → (Status.level e == 6) ≡ false
    → is_wait e ≡ false
wait_lem e h k = ground arith

pub wait_is : (e : EngineStatus) → (Status.level e == 6) ≡ true → e ≡ Status.wait
wait_is e k = ground arith
