-- ===== src/Engine/Usb/Counts.antt =====
-- The calls of `ow_engine_init_from_device` of src/engine.c, counted by a test.
use overwitch.Prelude.{
  ℕ, ◌+◌, ◌≡◌, Bool, false, ◌&&◌, if◌then◌else◌, List, [], ◌∷◌, ◌++◌, All, count_if,
  count_if-append, arith,
}
use overwitch.Numeric.{Floats}
use overwitch.Device.{DeviceDesc}
use overwitch.Engine.Status.{OwErr, OwResult, ok, err}
use overwitch.Engine.State.{Engine}
use overwitch.Engine.Memory.{init_mem}
use overwitch.Engine.Usb.{
  UsbCall, init_context, open_handle, ref_device, detach_driver, attach_driver, load_name,
  free_engine, UsbDevice, Usb, setup, attempt, destroy, give_up, open_device, prepare, allocate,
  init, init_named, init_from_device,
}

-- A test that accepts none of the calls that `ow_engine_init` makes but on an error.
abbrev pub IsBlind : (UsbCall → Bool) → Type 0
IsBlind is =
    (All (λ s. is s.0 ≡ false) setup × (is init_context ≡ false))
    × (((is (detach_driver 4) ≡ false) × (is (detach_driver 5) ≡ false))
        × (((is (attach_driver 4) ≡ false) × (is (attach_driver 5) ≡ false))
            × (is load_name ≡ false)))

attempt-count :
    (refuses is : UsbCall → Bool) (steps : List (UsbCall × OwErr))
    → All (λ s. is s.0 ≡ false) steps
    → count_if is (attempt refuses steps).0 ≡ 0
unfolding attempt
attempt-count refuses is [] b = omega arith
attempt-count refuses is ((call, e) ∷ rest) b =
    ground (arith, b.0, attempt-count refuses is rest b.1)

-- A handle and a reference are taken exactly if the loop ends with a handle.
pub open_device-count :
    (refuses is : UsbCall → Bool) (bus address i : ℕ) (ds : List UsbDevice)
    → ((n : ℕ) → is (open_handle n) ≡ false)
    → count_if is (open_device refuses bus address i ds).0
      ≡ (if is ref_device && (open_device refuses bus address i ds).1 then 1 else 0)
unfolding open_device
open_device-count refuses is bus address i [] h = ground arith
open_device-count refuses is bus address i (d ∷ ds) h =
    ground (arith, h i, open_device-count refuses is bus address (i + 1) ds h)

-- On an error the calls of a list, and none otherwise.
abbrev on_error : {A : Type 0} → OwResult A → ℕ → ℕ
on_error (ok a) n = 0
on_error (err x) n = n

-- `ow_engine_destroy` on an engine that was set up.
abbrev pub closing : {A : Type 0} → OwResult A → List UsbCall
closing (ok e) = destroy
closing (err x) = []

module _ (F : Floats) {Ring : Type 0} where
  open F use {Float}

  allocate-count :
      (is : UsbCall → Bool) (u : Usb) (desc : DeviceDesc) (blocks : ℕ) (e : Engine Float Ring)
      → IsBlind is
      → count_if is (allocate F u desc blocks e).1
        ≡ on_error (allocate F u desc blocks e).0 (count_if is give_up)
  unfolding allocate
  allocate-count is u desc blocks e b = elim (init_mem F (prepare F u desc e) blocks) [
    | ok e' ↦ ground arith
    | err x ↦ ground arith
  ]

  init-count :
      (is : UsbCall → Bool) (u : Usb) (desc : DeviceDesc) (blocks : ℕ) (e : Engine Float Ring)
      → IsBlind is
      → count_if is (init F u desc blocks e).1
        ≡ on_error (init F u desc blocks e).0 (count_if is give_up)
  unfolding init
  init-count is u desc blocks e b = ground (
    arith,
    attempt-count u.refuses is setup b.0.0,
    allocate-count is u desc blocks e b,
    count_if-append is (attempt u.refuses setup).0 give_up,
    count_if-append is (attempt u.refuses setup).0 (allocate F u desc blocks e).1,
  )

  init_named-count :
      (is : UsbCall → Bool) (u : Usb) (desc : DeviceDesc) (blocks : ℕ) (e : Engine Float Ring)
      → IsBlind is
      → count_if is (init_named F u desc blocks e).1
        ≡ on_error (init_named F u desc blocks e).0 (count_if is give_up)
  unfolding init_named
  init_named-count is u desc blocks e b = ground (
    arith,
    init-count is u desc blocks e b,
    count_if-append is (init F u desc blocks e).1 (load_name ∷ []),
  )

  -- The calls that a test accepts, with a destruction of the engine at the end if there is one:
  -- those of the loop over the devices, and those of a clean-up.
  pub init_from_device-count :
      (u : Usb) (desc : DeviceDesc) (bus address blocks : ℕ) (e : Engine Float Ring)
      (is : UsbCall → Bool)
      → IsBlind is
      → count_if is destroy ≡ count_if is give_up
      → count_if is (
          (init_from_device F u desc bus address blocks e).1
          ++ closing (init_from_device F u desc bus address blocks e).0)
        ≡ (if u.refuses init_context
            then count_if is (free_engine ∷ [])
            else count_if is (open_device u.refuses bus address 0 u.devices).0
              + (if (open_device u.refuses bus address 0 u.devices).1
                  then count_if is give_up
                  else count_if is (free_engine ∷ [])))
  unfolding init_from_device
  init_from_device-count u desc bus address blocks e is b d = ground (
    arith,
    init_named-count is u desc blocks e b,
    count_if-append is (init_from_device F u desc bus address blocks e).1
        (closing (init_from_device F u desc bus address blocks e).0),
    count_if-append is (open_device u.refuses bus address 0 u.devices).0
        (init_named F u desc blocks e).1,
    count_if-append is (open_device u.refuses bus address 0 u.devices).0 (free_engine ∷ []),
  )
