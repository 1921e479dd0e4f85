-- ===== src/Service/Stops.antt =====
-- How overwitch-service stops and starts again: `handle_stop` and `handle_start` of
-- src/main-service.c.
use overwitch.Prelude.{
  suc, ◌≡◌, ◌≢◌, refl, ap, ◌∙◌, true, false, if◌then◌else◌, Bool-cases, Option-cases, inl, inr,
  Option, none, some, ◌>>=◌, Runs, All, List, [], ◌∷◌, length, arith,
}
use overwitch.Service.Pool.{
  available, is_available, is_running, is_stopped, Handle, unset, live, joined, Luck, Pooled,
  Service, join, ask, stop_running, wait_each, start_each, join_hotplug, handle_stop, startup,
  handle_start,
}
use overwitch.Service.View.{IsSound, view, seats, IsFree, Creates, start_each-view}

joined_once :
    (t : Handle) → t ≢ joined → Runs (join_hotplug t) (λ u. (u ≢ live) × (t ≢ unset → u ≡ joined))
unfolding join_hotplug
joined_once unset h = (unset, refl, ((λ e. cc), (λ n. absurd (n refl))))
joined_once live h = (joined, refl, ((λ e. cc), (λ n. refl)))
joined_once joined h = absurd (h refl)

module _ {Device : Type 0} where
  abbrev stop_one : Pooled Device → Pooled Device
  stop_one p = if is_running p.status then ask p else p

  abbrev wait_one : Pooled Device → Option (Pooled Device)
  wait_one p =
      if is_available p.status
      then some p
      else (do q ← join p; some (record q { status = available }))

  -- A client that was told to stop, or has stopped, can be waited for.
  stop-wait : (p : Pooled Device) → IsSound p → Runs (wait_one (stop_one p)) IsFree
  unfolding ask join
  stop-wait p h = elim (Bool-cases (is_available p.status)) [
    | inl a ↦
        let r : is_running p.status ≡ false = ground arith in
        rw (r, a) (p, refl, (a, ground (arith, h.has_thread)))
    | inr a ↦
        let t : p.thread ≡ true = ground (arith, h.has_thread) in
        elim (Bool-cases (is_running p.status)) [
          | inl r ↦
              rw (r, a, t)
                (record p { status = available; thread = false; asked = true }, refl, (refl, refl))
          | inr r ↦
              let e : is_stopped p.status ≡ true = ground arith in
              rw (r, a, t, e)
                (record p { status = available; thread = false }, ground arith, (refl, refl))
        ]
  ]

  stop_wait_each :
      (pool : List (Pooled Device))
      → All IsSound pool
      → Runs (wait_each (stop_running pool)) (λ q. All IsFree q × (length q ≡ length pool))
  unfolding wait_each stop_running
  stop_wait_each [] h = ([], refl, (tt, refl))
  stop_wait_each (p ∷ pool) h =
      let (q, e, free) = stop-wait p h.0 in
      let (qs, e', (frees, same)) = stop_wait_each pool h.1 in
      rw e (rw e' (q ∷ qs, refl, ((free, frees), ap suc same)))

  -- What a stop leaves.
  pub record IsIdle (s s' : Service Device) : Type 0 where
    pub all_free : All IsFree s'.pool
    pub same_length : length s'.pool ≡ length s.pool
    pub stopping : s'.force_stop ≡ true
    pub no_hotplug : s'.hotplug_running ≡ false
    pub not_live : s'.hotplug_thread ≢ live
    pub unset_stays : s.hotplug_thread ≢ unset → s'.hotplug_thread ≡ joined

  -- With sound clients, and a hotplug thread that was not waited for yet: a stop returns, every
  -- client is available with no thread left, the hotplug loop is told to end, and its thread, if
  -- there was one, was waited for.
  handle_stop-IsIdle :
      (s : Service Device)
      → All IsSound s.pool
      → s.hotplug_thread ≢ joined
      → Runs (handle_stop s) (IsIdle s)
  unfolding handle_stop
  handle_stop-IsIdle s h j =
      let (q, e, (free, same)) = stop_wait_each s.pool h in
      let (t, d, (dead, kept)) = joined_once s.hotplug_thread j in
      rw (e, d)
        (
          record { pool = q; hotplug_running = false; hotplug_thread = t; force_stop = true },
          refl,
          record {
            all_free = free;
            same_length = same;
            stopping = refl;
            no_hotplug = refl;
            not_live = dead;
            unset_stays = kept;
          },
        )

  -- With a thread that was waited for, a stop goes wrong.
  stop_joined : (s : Service Device) → s.hotplug_thread ≡ joined → handle_stop s ≡ none
  unfolding handle_stop
  stop_joined s e = elim (Option-cases (wait_each (stop_running s.pool))) [
    | inl n ↦ rw n refl
    | inr (q, n) ↦ rw (n, e) refl
  ]

  -- With sound clients and a hotplug loop that runs: after a stop, another one waits for the same
  -- thread of the hotplug loop again.
  handle_stop_twice :
      (s : Service Device)
      → All IsSound s.pool
      → s.hotplug_thread ≡ live
      → Runs (handle_stop s) (λ s'. All IsFree s'.pool × (handle_stop s' ≡ none))
  handle_stop_twice s h e =
      let (s', r, i) = handle_stop-IsIdle s h (λ j. cc) in
      (s', r, (i.all_free, stop_joined s' (i.unset_stays (λ j. cc))))

  -- The state in which the service serves.
  pub record IsServing (s : Service Device) : Type 0 where
    pub sound : All IsSound s.pool
    pub thread : s.hotplug_thread ≡ live
    pub goes_on : s.force_stop ≡ false

  -- With sound clients, a hotplug thread that was not waited for yet, a list of devices, and threads
  -- that can be created: a start returns, having waited for all that ran, and then the service
  -- serves. A device of the list for which `jclient_init` succeeds runs in the seat of its place in
  -- the list, if there is such a seat; every other seat is empty, also that of a device for which
  -- `jclient_init` fails.
  pub handle_start-IsServing :
      (ds : List (Luck × Device)) (s : Service Device)
      → All IsSound s.pool
      → s.hotplug_thread ≢ joined
      → All Creates ds
      → Runs
          (handle_start (some ds) true s)
          (λ s'. IsServing s' × (view s'.pool ≡ seats (length s.pool) ds))
  unfolding handle_start startup
  handle_start-IsServing ds s h j c =
      let (s', r, i) = handle_stop-IsIdle s h j in
      let (sound, seated) = start_each-view s'.pool ds i.all_free c in
      rw r (
        record {
          pool = start_each s'.pool ds;
          hotplug_running = true;
          hotplug_thread = live;
          force_stop = false;
        },
        refl,
        (
          record { sound = sound; thread = refl; goes_on = refl },
          seated ∙ ap (λ n. seats n ds) i.same_length,
        ),
      )
