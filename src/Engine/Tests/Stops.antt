-- ===== src/Engine/Tests/Stops.antt =====
-- Engines that stop or fail to start, and the theorems at them.
use overwitch.Prelude.{◌≡◌, ◌≢◌, refl, true, false, ◌++◌}
use overwitch.Engine.Status.{stop, ready, is_alive}
use overwitch.Engine.State.{has_option}
use overwitch.Engine.Thread.{Pc, spin, top, done, System, advance, here, next, thread}
use overwitch.Engine.Thread.Stopping.{
  IsStopped, Reach-IsStopped, iterate, stopped_ends, stopped_spins,
}
use overwitch.Engine.Start.{
  Context, check_context, thread_uses, input_uses, output_uses, all_set, is_ok, check_context-uses,
}

-- The engine is told to stop at the head of its loop.
abbrev at_top : System
at_top = record { pc = top; status = stop }

abbrev at_spin : System
at_spin = record { pc = spin; status = ready }

top_not_spin : Pc.top ≢ spin
top_not_spin = λ h. cc

at_top-IsStopped : IsStopped at_top
at_top-IsStopped = record { started = (λ h. cc); dead = refl }

Reach-IsStopped_example : IsStopped (advance true at_top)
Reach-IsStopped_example = Reach-IsStopped (next here thread) at_top-IsStopped

stopped_ends_example : (iterate true 5 at_top).pc ≡ done
stopped_ends_example = stopped_ends true at_top at_top-IsStopped top_not_spin

stopped_spins_example :
    ((advance true (record { pc = spin; status = stop })).pc ≡ spin)
    × (is_alive (advance true (record { pc = spin; status = stop })).status ≡ false)
stopped_spins_example =
    stopped_spins {has_dll = true} {t = record { pc = spin; status = stop }} (next here thread) refl
      refl

-- Audio from the device to the host, with no priority function.
abbrev context : Context
context = record {
  write_space = true;
  write = true;
  read_space = true;
  read = false;
  get_time = true;
  h2o_audio = false;
  o2h_audio = true;
  dll = true;
  dll_overbridge_init = true;
  dll_overbridge_update = true;
  set_rt_priority = false;
  priority = 0;
  options = 1;
}

check_context-uses_example :
    is_ok (check_context context)
    ≡ all_set context (thread_uses context ++ (input_uses context ++ output_uses context))
unfolding has_option
check_context-uses_example = check_context-uses context refl

abbrev with_priority : Context
with_priority = record context { set_rt_priority = true; priority = 20 }
