-- ===== src/Service/View.antt =====
-- The pool of src/main-service.c as a table of the devices that run, and what the operations do to
-- that table.
use overwitch.Prelude.{
  ℕ, zero, suc, ◌≡◌, refl, ap, ap₂, ◌∙◌, Bool, true, false, not, ◌||◌, if◌then◌else◌, Bool-cases,
  inl, inr, Option, none, some, ◌>>=◌, Runs, All, List, [], ◌∷◌, map, length, arith,
}
use overwitch.Service.Pool.{
  available, is_available, is_running, is_stopped, Luck, Pooled, Service, join, start_single,
  start_each, recycle, start_first, hotplug_callback,
}

abbrev pub is_some {ℓ} : {A : Type ℓ} → Option A → Bool
is_some none = false
is_some (some a) = true

module _ {Device : Type 0} where
  -- A client has a thread to wait for exactly if it is not available, and a device if it runs.
  pub record IsSound (p : Pooled Device) : Type 0 where
    pub has_thread : p.thread ≡ not (is_available p.status)
    pub has_device : is_running p.status ≡ true → is_some p.device ≡ true

  -- What runs in a client.
  abbrev pub seat : Pooled Device → Option Device
  seat p = if is_running p.status then p.device else none

  abbrev pub view : List (Pooled Device) → List (Option Device)
  view = map seat

  -- The first free seat is taken.
  abbrev pub occupy : Device → List (Option Device) → List (Option Device)
  occupy d [] = []
  occupy d (none ∷ v) = some d ∷ v
  occupy d (some e ∷ v) = some e ∷ occupy d v

  abbrev IsReady : Pooled Device → Type 0
  IsReady p = IsSound p × (is_stopped p.status ≡ false)

  -- A stopped client becomes available; the others stay as they are.
  recycle_one :
      (p : Pooled Device)
      → IsSound p
      → Runs
          (if is_stopped p.status
            then (do q ← join p; some (record q { status = available }))
            else some p)
          (λ q. IsReady q × (seat q ≡ seat p))
  unfolding join
  recycle_one p h = elim (Bool-cases (is_stopped p.status)) [
    | inl e ↦
        let t : p.thread ≡ true = ground (arith, h.has_thread) in
        rw (e, t)
          (
            record p { status = available; thread = false },
            ground arith,
            ((record { has_thread = refl; has_device = λ f. absurd (cc) }, refl), ground arith),
          )
    | inr e ↦ rw e (p, refl, ((h, e), refl))
  ]

  recycle-IsReady :
      (pool : List (Pooled Device))
      → All IsSound pool
      → Runs (recycle pool) (λ q. All IsReady q × (view q ≡ view pool))
  unfolding recycle
  recycle-IsReady [] h = ([], refl, (tt, refl))
  recycle-IsReady (p ∷ pool) h =
      let (q, e, (r, same)) = recycle_one p h.0 in
      let (qs, e', (rs, sames)) = recycle-IsReady pool h.1 in
      rw e (rw e' (q ∷ qs, refl, ((r, rs), ap₂ ◌∷◌ same sames)))

  ready-IsSound : (pool : List (Pooled Device)) → All IsReady pool → All IsSound pool
  ready-IsSound [] h = tt
  ready-IsSound (p ∷ pool) h = (h.0.0, ready-IsSound pool h.1)

  free_seat : (p : Pooled Device) → is_available p.status ≡ true → seat p ≡ none
  free_seat p e = ground arith

  -- What a start does to a seat that is free.
  abbrev pub taken : Luck → Device → Option Device
  taken l d = if l.inits then some d else none

  pub start_single-IsSound :
      (l : Luck) (d : Device) (p : Pooled Device)
      → l.creates ≡ true
      → IsSound p
      → is_available p.status ≡ true
      → IsSound (start_single l d p) × (seat (start_single l d p) ≡ taken l d)
  unfolding start_single
  start_single-IsSound l d p c h e = elim (Bool-cases l.inits) [
    | inl i ↦ rw (i, c) (record { has_thread = refl; has_device = λ f. refl }, refl)
    | inr i ↦ rw i (h, free_seat p e)
  ]

  some_of : (x : Option Device) → is_some x ≡ true → (d : Device) × (x ≡ some d)
  some_of none h = absurd (cc)
  some_of (some d) h = (d, refl)

  taken_seat :
      (p : Pooled Device)
      → IsReady p
      → is_available p.status ≡ false
      → (d : Device) × (seat p ≡ some d)
  taken_seat p h e =
      let runs : is_running p.status ≡ true = ground arith in
      let (d, q) = some_of p.device (h.0.has_device runs) in (d, rw runs q)

  occupy_free :
      (b : Bool) (d : Device) (x : Option Device) (v : List (Option Device))
      → x ≡ none
      → (if b then some d else none) ∷ v ≡ (if b then occupy d (x ∷ v) else x ∷ v)
  occupy_free true d x v e = rw e refl
  occupy_free false d x v e = rw e refl

  occupy_busy :
      (b : Bool) (d e : Device) (x : Option Device) (v v' : List (Option Device))
      → x ≡ some e
      → v' ≡ (if b then occupy d v else v)
      → x ∷ v' ≡ (if b then occupy d (x ∷ v) else x ∷ v)
  occupy_busy true d e x v v' h k = rw h (ap (λ w. some e ∷ w) k)
  occupy_busy false d e x v v' h k = ap (λ w. x ∷ w) k

  start_first-IsSound :
      (l : Luck) (d : Device) (pool : List (Pooled Device))
      → l.creates ≡ true
      → All IsReady pool
      → All IsSound (start_first l d pool)
        × (view (start_first l d pool) ≡ (if l.inits then occupy d (view pool) else view pool))
  unfolding start_first
  start_first-IsSound l d [] c h = (tt, ground arith)
  start_first-IsSound l d (p ∷ pool) c h = elim (Bool-cases (is_available p.status)) [
    | inl e ↦
        let (sound, new) = start_single-IsSound l d p c h.0.0 e in
        rw e (
          (sound, ready-IsSound pool h.1),
          ap (λ x. x ∷ view pool) new ∙ occupy_free l.inits d (seat p) (view pool) (free_seat p e),
        )
    | inr e ↦
        let (sound, new) = start_first-IsSound l d pool c h.1 in
        let (other, q) = taken_seat p h.0 e in
        rw e ((h.0.0, sound), occupy_busy l.inits d other (seat p) (view pool) _ q new)
  ]

  turned :
      (b : Bool) (d : Device) (v w : List (Option Device))
      → v ≡ w
      → (if b then occupy d v else v) ≡ (if not b then w else occupy d w)
  turned true d v w h = ap (occupy d) h
  turned false d v w h = h

  plugged :
      (b : Bool) (l : Luck) (d : Device) (q : List (Pooled Device)) (v : List (Option Device))
      → l.creates ≡ true
      → All IsReady q
      → view q ≡ v
      → All IsSound (if b then q else start_first l d q)
        × (view (if b then q else start_first l d q) ≡ (if b || not l.inits then v else occupy d v))
  plugged true l d q v c r same = (ready-IsSound q r, same)
  plugged false l d q v c r same =
      let (sound, new) = start_first-IsSound l d q c r in
      (sound, new ∙ turned l.inits d (view q) v same)

  -- With sound clients, and if a thread can be created: the call for a device that was plugged in
  -- returns, the clients are sound, and all devices that ran run in their seats; the new one has
  -- the first free seat, if there is one, its client can be set up and the service goes on.
  pub hotplug_callback-view :
      (l : Luck) (d : Device) (s : Service Device)
      → l.creates ≡ true
      → All IsSound s.pool
      → Runs (hotplug_callback l d s) (λ s'.
        All IsSound s'.pool
        × (view s'.pool
            ≡ (if s.force_stop || not l.inits then view s.pool else occupy d (view s.pool))))
  unfolding hotplug_callback
  hotplug_callback-view l d s c h =
      let (q, e, (r, same)) = recycle-IsReady s.pool h in
      rw e (
        record s { pool = if s.force_stop then q else start_first l d q },
        refl,
        plugged s.force_stop l d q (view s.pool) c r same,
      )

  -- What a list of devices gives the seats of a pool that is free.
  abbrev pub seats : ℕ → List (Luck × Device) → List (Option Device)
  seats zero ds = []
  seats (suc n) [] = none ∷ seats n []
  seats (suc n) ((l, d) ∷ ds) = taken l d ∷ seats n ds

  abbrev pub Creates : Luck × Device → Type 0
  Creates (l, d) = l.creates ≡ true

  -- A client that is available, with no thread.
  abbrev pub IsFree : Pooled Device → Type 0
  IsFree p = (is_available p.status ≡ true) × (p.thread ≡ false)

  free-IsSound : (p : Pooled Device) → IsFree p → IsSound p
  free-IsSound p h = record { has_thread = ground arith; has_device = λ r. absurd (ground arith) }

  nothing_starts :
      (pool : List (Pooled Device))
      → All IsFree pool
      → All IsSound pool × (view pool ≡ seats (length pool) [])
  nothing_starts [] h = (tt, refl)
  nothing_starts (p ∷ pool) h =
      let (sounds, others) = nothing_starts pool h.1 in
      ((free-IsSound p h.0, sounds), ap₂ ◌∷◌ (free_seat p h.0.0) others)

  pub start_each-view :
      (pool : List (Pooled Device)) (ds : List (Luck × Device))
      → All IsFree pool
      → All Creates ds
      → All IsSound (start_each pool ds) × (view (start_each pool ds) ≡ seats (length pool) ds)
  unfolding start_each
  start_each-view [] ds h c = (tt, refl)
  start_each-view (p ∷ pool) [] h c =
      let (sounds, others) = nothing_starts pool h.1 in
      ((free-IsSound p h.0, sounds), ap₂ ◌∷◌ (free_seat p h.0.0) others)
  start_each-view (p ∷ pool) ((l, d) ∷ ds) h c =
      let free = free-IsSound p h.0 in
      let (sound, new) = start_single-IsSound l d p c.0 free h.0.0 in
      let (sounds, others) = start_each-view pool ds h.1 c.1 in
      ((sound, sounds), ap₂ ◌∷◌ new others)
