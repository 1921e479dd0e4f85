-- ===== src/Service/Pool.antt =====
-- The pool of clients of src/main-service.c and the operations on it. `none` is a call of
-- `pthread_join` that does not return or has no thread to wait for, or an access out of the pool.
-- What `jclient_init` and `pthread_create` return, and what libusb finds, are arguments.
use overwitch.Prelude.{
  ℕ, ◌+◌, Bool, true, false, not, ◌&&◌, ◌||◌, if◌then◌else◌, Option, none, some, ◌>>=◌, List, [],
  ◌∷◌, get_elem?, set_elem,
}

-- `pooled_jclient_status_t`
pub data PooledStatus : Type 0 where
  available running stopped : PooledStatus

abbrev pub is_available : PooledStatus → Bool
is_available available = true
is_available _ = false

abbrev pub is_running : PooledStatus → Bool
is_running running = true
is_running _ = false

abbrev pub is_stopped : PooledStatus → Bool
is_stopped stopped = true
is_stopped _ = false

-- What became of a thread handle.
pub data Handle : Type 0 where
  unset live joined : Handle

-- `pthread_join (hotplug_thread)`, if there is one.
unfoldable pub join_hotplug : Handle → Option Handle
join_hotplug unset = some unset
join_hotplug live = some joined
join_hotplug joined = none

-- How a device starts: whether `jclient_init` and `pthread_create` succeed.
pub record Luck : Type 0 where
  pub inits : Bool
  pub creates : Bool

module _ (Device : Type 0) where
  -- `struct pooled_jclient`: `thread` tells whether its thread was created and not yet joined,
  -- and `asked` whether its client was told to stop.
  pub record Pooled : Type 0 where
    pub status : PooledStatus
    pub thread : Bool
    pub device : Option Device
    pub asked : Bool

  -- The static variables.
  pub record Service : Type 0 where
    pub pool : List Pooled
    pub hotplug_running : Bool
    pub hotplug_thread : Handle
    pub force_stop : Bool

module _ {Device : Type 0} where
  -- `pthread_join (pjc->thread)`: the thread sets the status before it returns, and it returns once
  -- its client has stopped.
  unfoldable pub join : Pooled Device → Option (Pooled Device)
  join p =
      if p.thread && (p.asked || is_stopped p.status)
      then some (record p { status = stopped; thread = false })
      else none

  -- `jclient_stop`
  unfoldable pub ask : Pooled Device → Pooled Device
  ask p = record p { asked = true }

  unfoldable pub stop_running : List (Pooled Device) → List (Pooled Device)
  unfolding ask
  stop_running [] = []
  stop_running (p ∷ pool) = (if is_running p.status then ask p else p) ∷ stop_running pool

  unfoldable pub stop_all : Service Device → Service Device
  unfolding stop_running
  stop_all s = record s { force_stop = true; hotplug_running = false; pool = stop_running s.pool }

  -- The end of `jclient_runner`.
  unfoldable pub finish : Pooled Device → Pooled Device
  finish p = record p { status = stopped }

  unfoldable pub start_single : Luck → Device → Pooled Device → Pooled Device
  start_single l device p =
      if not l.inits
      then p
      else if l.creates
      then record { status = running; thread = true; device = some device; asked = false }
      else record p { status = stopped; device = some device; asked = false }

  -- The loop of `start_all`, over the pool and the devices.
  unfoldable pub start_each : List (Pooled Device) → List (Luck × Device) → List (Pooled Device)
  start_each [] ds = []
  start_each (p ∷ pool) [] = p ∷ pool
  start_each (p ∷ pool) ((l, d) ∷ ds) = start_single l d p ∷ start_each pool ds

  -- `start_all`; there may be no list of devices.
  unfoldable pub start_all : Option (List (Luck × Device)) → Service Device → Bool × Service Device
  unfolding start_each
  start_all none s = (true, s)
  start_all (some ds) s =
      (false, if s.force_stop then s else record s { pool = start_each s.pool ds })

  unfoldable pub wait_each : List (Pooled Device) → Option (List (Pooled Device))
  unfolding join
  wait_each [] = some []
  wait_each (p ∷ pool) = do
    p' ←
        if is_available p.status
        then some p
        else (do q ← join p; some (record q { status = available }))
    pool' ← wait_each pool
    some (p' ∷ pool')

  unfoldable pub wait_all : Service Device → Option (Service Device)
  unfolding wait_each
  wait_all s = do pool ← wait_each s.pool; some (record s { pool = pool })

  -- The first loop of `hotplug_callback`.
  unfoldable pub recycle : List (Pooled Device) → Option (List (Pooled Device))
  unfolding join
  recycle [] = some []
  recycle (p ∷ pool) = do
    p' ←
        if is_stopped p.status
        then (do q ← join p; some (record q { status = available }))
        else some p
    pool' ← recycle pool
    some (p' ∷ pool')

  -- The second loop, and the start of the client that it finds.
  unfoldable pub start_first : Luck → Device → List (Pooled Device) → List (Pooled Device)
  unfolding start_single
  start_first l d [] = []
  start_first l d (p ∷ pool) =
      if is_available p.status then start_single l d p ∷ pool else p ∷ start_first l d pool

  unfoldable pub hotplug_callback : Luck → Device → Service Device → Option (Service Device)
  unfolding recycle start_first
  hotplug_callback l d s = do
    pool ← recycle s.pool
    some (record s { pool = if s.force_stop then pool else start_first l d pool })

  unfoldable pub handle_stop : Service Device → Option (Service Device)
  unfolding stop_all wait_all join_hotplug
  handle_stop s = do
    s' ← wait_all (stop_all s)
    h ← join_hotplug s'.hotplug_thread
    some (record s' { hotplug_thread = h })

  -- `startup`; `creates` tells whether the thread of the hotplug loop is created.
  unfoldable pub startup : Option (List (Luck × Device)) → Bool → Service Device → Service Device
  unfolding start_all
  startup ds creates s =
      let (failed, s') = start_all ds (record s { force_stop = false }) in
      if failed
      then s'
      else if creates
      then record s' { hotplug_thread = live; hotplug_running = true }
      else s'

  unfoldable pub handle_start :
      Option (List (Luck × Device)) → Bool → Service Device → Option (Service Device)
  unfolding handle_stop startup
  handle_start ds creates s = do s' ← handle_stop s; some (startup ds creates s')

  -- What `handle_set_device_name` does to a client that runs.
  unfoldable pub restart : Luck → Device → Pooled Device → Option (Pooled Device)
  unfolding join ask start_single
  restart l copy p = do
    q ← join (ask p)
    some (start_single l copy (record q { status = available }))

  -- `handle_set_device_name`: the result, 0 or -1 as a Boolean for an error, and the pool.
  unfoldable pub handle_set_device_name :
      ℕ → Luck → Device → Service Device → Option (Bool × Service Device)
  unfolding restart
  handle_set_device_name id l copy s = do
    p ← get_elem? s.pool id
    if is_running p.status
        then (do
          p' ← restart l copy p
          pool ← set_elem s.pool id p'
          some (false, record s { pool = pool }))
        else some (true, s)

  -- The clients that `handle_get_state` adds to the message, with their indices.
  unfoldable pub state_of : ℕ → List (Pooled Device) → List (ℕ × Option Device)
  state_of i [] = []
  state_of i (p ∷ pool) =
      let rest = state_of (i + 1) pool in if is_running p.status then (i, p.device) ∷ rest else rest
