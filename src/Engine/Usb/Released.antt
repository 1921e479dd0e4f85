-- ===== src/Engine/Usb/Released.antt =====
-- What `ow_engine_init_from_device` of src/engine.c takes from libusb, and what is given back.
use overwitch.Prelude.{
  ℕ, ◌+◌, ◌≡◌, refl, Bool, true, false, not, ◌==◌, if◌then◌else◌, List, [], ◌∷◌, ◌++◌, count_if,
  arith,
}
use overwitch.Numeric.{Floats}
use overwitch.Device.{DeviceDesc}
use overwitch.Engine.State.{Engine}
use overwitch.Engine.Usb.{
  UsbCall, exit_context, open_handle, close_handle, ref_device, unref_device, release, free_engine,
  audio_out_interface, UsbDevice, Usb, destroy, give_up, open_device, init_from_device,
}
use overwitch.Engine.Usb.Counts.{IsBlind, closing, open_device-count, init_from_device-count}

-- A handle that libusb gives.
abbrev pub is_opened : (UsbCall → Bool) → UsbCall → Bool
is_opened refuses c = elim c [ open_handle i ↦ not (refuses (open_handle i)) | _ ↦ false ]

abbrev pub is_close : UsbCall → Bool
is_close c = elim c [ close_handle ↦ true | _ ↦ false ]

abbrev pub is_ref : UsbCall → Bool
is_ref c = elim c [ ref_device ↦ true | _ ↦ false ]

abbrev pub is_unref : UsbCall → Bool
is_unref c = elim c [ unref_device ↦ true | _ ↦ false ]

abbrev pub is_exit : UsbCall → Bool
is_exit c = elim c [ exit_context ↦ true | _ ↦ false ]

abbrev pub is_free : UsbCall → Bool
is_free c = elim c [ free_engine ↦ true | _ ↦ false ]

-- A release of the interface that sends the audio.
abbrev pub is_release_out : UsbCall → Bool
is_release_out c = elim c [ release n ↦ n == audio_out_interface | _ ↦ false ]

pub record IsReleased (refuses : UsbCall → Bool) (calls : List UsbCall) : Type 0 where
  pub handle : count_if (is_opened refuses) calls ≡ count_if is_close calls
  pub device : count_if is_ref calls ≡ count_if is_unref calls
  pub context : count_if is_exit calls ≡ count_if (is_opened refuses) calls
  pub memory : count_if is_free calls ≡ 1
  pub output : count_if is_release_out calls ≡ 0

opened-count :
    (refuses : UsbCall → Bool) (bus address i : ℕ) (ds : List UsbDevice)
    → count_if (is_opened refuses) (open_device refuses bus address i ds).0
      ≡ (if (open_device refuses bus address i ds).1 then 1 else 0)
unfolding open_device
opened-count refuses bus address i [] = refl
opened-count refuses bus address i (d ∷ ds) =
    ground (arith, opened-count refuses bus address (i + 1) ds)

module _ (F : Floats) {Ring : Type 0} where
  open F use {Float}

  -- On every outcome, and with a destruction at the end of a success: the handle that libusb gives
  -- is closed, the reference on the device is given back and the engine is freed once. libusb is
  -- exited only if a handle was opened, so its context stays where no device is found, and the
  -- interface that sends the audio is never released.
  pub init_from_device-IsReleased :
      (u : Usb) (desc : DeviceDesc) (bus address blocks : ℕ) (e : Engine Float Ring)
      → IsReleased u.refuses (
          (init_from_device F u desc bus address blocks e).1
          ++ closing (init_from_device F u desc bus address blocks e).0)
  unfolding give_up destroy
  init_from_device-IsReleased u desc bus address blocks e =
      let opens = opened-count u.refuses bus address 0 u.devices in
      let refs = open_device-count u.refuses is_ref bus address 0 u.devices (λ n. refl) in
      let closes = open_device-count u.refuses is_close bus address 0 u.devices (λ n. refl) in
      let unrefs = open_device-count u.refuses is_unref bus address 0 u.devices (λ n. refl) in
      let exits = open_device-count u.refuses is_exit bus address 0 u.devices (λ n. refl) in
      let frees = open_device-count u.refuses is_free bus address 0 u.devices (λ n. refl) in
      let outs = open_device-count u.refuses is_release_out bus address 0 u.devices (λ n. refl) in
      let count : (is : UsbCall → Bool)
          → IsBlind is
          → count_if is destroy ≡ count_if is give_up
          → _ =
        init_from_device-count F u desc bus address blocks e in
      let opened = count (is_opened u.refuses) (ground arith) refl in
      let closed = count is_close (ground arith) refl in
      let referenced = count is_ref (ground arith) refl in
      let unreferenced = count is_unref (ground arith) refl in
      let exited = count is_exit (ground arith) refl in
      let freed = count is_free (ground arith) refl in
      let released = count is_release_out (ground arith) refl in
      record {
        handle = ground (arith, opens, closes, opened, closed);
        device = ground (arith, refs, unrefs, referenced, unreferenced);
        context = ground (arith, opens, exits, opened, exited);
        memory = ground (arith, frees, freed);
        output = ground (arith, outs, released);
      }
