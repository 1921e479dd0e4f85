-- ===== src/Service/Rename.antt =====
-- A new name for a device in src/main-service.c: its client is stopped and started again.
use mathlib.Core.Path.{subst}
use overwitch.Prelude.{
  ℕ, zero, suc, ◌≡◌, refl, sym, ap, ◌∙◌, true, false, not, if◌then◌else◌, Bool-cases, inl, inr,
  some, Runs, All, List, [], ◌∷◌, get_elem?, set_elem, arith,
}
use overwitch.Service.Pool.{
  available, is_running, Luck, Pooled, Service, join, start_single, restart, handle_set_device_name,
}
use overwitch.Service.View.{IsSound, seat, view, taken, start_single-IsSound}

module _ {Device : Type 0} where
  restart-IsSound :
      (l : Luck) (d : Device) (p : Pooled Device)
      → l.creates ≡ true
      → IsSound p
      → is_running p.status ≡ true
      → Runs (restart l d p) (λ q. IsSound q × (seat q ≡ taken l d))
  unfolding restart join
  restart-IsSound l d p c h e =
      let t : p.thread ≡ true = ground (arith, h.has_thread) in
      let q : Pooled Device = record {
        status = available;
        thread = false;
        device = p.device;
        asked = true;
      } in
      rw t (
        start_single l d q,
        refl,
        start_single-IsSound l d q c (record { has_thread = refl; has_device = λ f. absurd (cc) })
            refl,
      )

  -- A write to the pool keeps it sound, and is a write to the seats.
  set_elem-view :
      (pool : List (Pooled Device)) (i : ℕ) (p q : Pooled Device)
      → All IsSound pool
      → IsSound q
      → get_elem? pool i ≡ some p
      → Runs
          (set_elem pool i q)
          (λ pool'. All IsSound pool' × (set_elem (view pool) i (seat q) ≡ some (view pool')))
  unfolding set_elem
  set_elem-view [] i p q h k e = absurd (cc)
  set_elem-view (x ∷ pool) zero p q h k e = (q ∷ pool, refl, ((k, h.1), refl))
  set_elem-view (x ∷ pool) (suc i) p q h k e =
      let (pool', r, (sound, new)) = set_elem-view pool i p q h.1 k e in
      rw r (x ∷ pool', refl, ((h.0, sound), rw new refl))

  get_elem?-IsSound :
      (pool : List (Pooled Device)) (i : ℕ) (p : Pooled Device)
      → All IsSound pool
      → get_elem? pool i ≡ some p
      → IsSound p
  get_elem?-IsSound [] i p h e = absurd (cc)
  get_elem?-IsSound (x ∷ pool) zero p h e = let same : x ≡ p = cc in subst IsSound same h.0
  get_elem?-IsSound (x ∷ pool) (suc i) p h e = get_elem?-IsSound pool i p h.1 e

  -- With sound clients, and if a thread can be created: giving a name to a client that runs
  -- returns, reports no error, and starts the device in its seat again, if it can be set up; the
  -- clients are sound and the other seats stay as they are. Where the client does not run, it
  -- reports an error and changes nothing.
  handle_set_device_name-view :
      (id : ℕ) (l : Luck) (d : Device) (s : Service Device) (p : Pooled Device)
      → l.creates ≡ true
      → All IsSound s.pool
      → get_elem? s.pool id ≡ some p
      → Runs (handle_set_device_name id l d s) (λ r.
        (r.0 ≡ not (is_running p.status))
        × (All IsSound r.1.pool
            × ((if is_running p.status
                  then set_elem (view s.pool) id (taken l d)
                  else some (view s.pool))
                ≡ some (view r.1.pool))))
  unfolding handle_set_device_name
  handle_set_device_name-view id l d s p c h e = elim (Bool-cases (is_running p.status)) [
    | inl r ↦
        let (q, a, (sound, new)) = restart-IsSound l d p c (get_elem?-IsSound s.pool id p h e) r in
        let (pool, b, (sounds, written)) = set_elem-view s.pool id p q h sound e in
        rw (e, r, a, b)
          (
            (false, record s { pool = pool }),
            refl,
            (refl, (sounds, ap (set_elem (view s.pool) id) (sym new) ∙ written)),
          )
    | inr r ↦ rw (e, r) ((true, s), refl, (refl, (h, refl)))
  ]
