-- ===== src/Service/Tests.antt =====
-- A pool of three clients: one runs, one has stopped and one is available; the theorems there.
use overwitch.Prelude.{ℕ, ◌≡◌, refl, true, false, none, some, Runs, All, [], ◌∷◌}
use overwitch.Service.Pool.{
  available, running, stopped, live, Luck, Pooled, Service, hotplug_callback, handle_start,
  state_of,
}
use overwitch.Service.View.{IsSound, view, hotplug_callback-view}
use overwitch.Service.Stops.{IsServing, handle_start-IsServing}

abbrev good : Luck
good = record { inits = true; creates = true }

-- `jclient_init` fails.
abbrev refused : Luck
refused = record { inits = false; creates = true }

abbrev first_client : Pooled ℕ
first_client = record { status = running; thread = true; device = some 7; asked = false }

abbrev serving : Service ℕ
serving = record {
  pool =
      first_client
      ∷ record { status = stopped; thread = true; device = some 8; asked = true }
      ∷ record { status = available; thread = false; device = none; asked = false }
      ∷ [];
  hotplug_running = true;
  hotplug_thread = live;
  force_stop = false;
}

serving-IsSound : All IsSound serving.pool
serving-IsSound = (
  record { has_thread = refl; has_device = λ r. refl },
  (
    record { has_thread = refl; has_device = λ r. absurd (cc) },
    (record { has_thread = refl; has_device = λ r. absurd (cc) }, tt),
  ),
)

one_runs : state_of 0 serving.pool ≡ (0, some 7) ∷ []
unfolding state_of
one_runs = refl

hotplug_callback-view_example :
    Runs
      (hotplug_callback good 9 serving)
      (λ s'. All IsSound s'.pool × (view s'.pool ≡ some 7 ∷ some 9 ∷ none ∷ []))
hotplug_callback-view_example = hotplug_callback-view good 9 serving refl serving-IsSound

handle_start-IsServing_example :
    Runs
      (handle_start (some ((good, 4) ∷ (refused, 5) ∷ [])) true serving)
      (λ s'. IsServing s' × (view s'.pool ≡ some 4 ∷ none ∷ none ∷ []))
handle_start-IsServing_example =
    handle_start-IsServing ((good, 4) ∷ (refused, 5) ∷ []) serving serving-IsSound (λ e. cc)
      (refl, (refl, tt))
