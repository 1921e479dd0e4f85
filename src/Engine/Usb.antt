-- ===== src/Engine/Usb.antt =====
-- `ow_engine_init_from_device`, `ow_engine_init`, `prepare_transfers`, `usb_shutdown` and
-- `ow_engine_destroy` of src/engine.c: the calls on libusb, in order, but
-- for those of the list of devices, which is freed behind the loop over it.
use overwitch.Prelude.{
  ℕ, ◌+◌, Bool, true, false, not, ◌&&◌, ◌==◌, if◌then◌else◌, Option, none, some, List, [], ◌∷◌,
  ◌++◌,
}
pub mod Counts
pub mod Released
pub mod Refused
pub mod Tests
use overwitch.Numeric.{Floats}
use overwitch.Device.{DeviceDesc}
use overwitch.Engine.Status.{
  stop, OwErr, OwResult, ok, err, libusb_init_failed, cant_set_usb_config, cant_claim_if,
  cant_set_alt_setting, cant_clear_ep, cant_prepare_transfer, cant_find_dev,
}
use overwitch.Engine.State.{Engine}
use overwitch.Engine.Memory.{init_mem}

pub data Transfer : Type 0 where
  audio_in audio_out control_in control_out : Transfer

-- `open_handle` carries the place of the device in the list of libusb, the calls on interfaces,
-- settings and endpoints their numbers. The last three are on the memory of the engine.
pub data UsbCall : Type 0 where
  init_context exit_context : UsbCall
  open_handle : ℕ → UsbCall
  close_handle ref_device unref_device : UsbCall
  detach_driver attach_driver set_configuration claim release : ℕ → UsbCall
  set_alt_setting : ℕ → ℕ → UsbCall
  clear_halt : ℕ → UsbCall
  alloc_transfer free_transfer : Transfer → UsbCall
  load_name : UsbCall
  free_mem free_device free_engine : UsbCall

abbrev pub audio_in_interface : ℕ
audio_in_interface = 1

abbrev pub audio_out_interface : ℕ
audio_out_interface = 2

abbrev audio_alt_setting : ℕ
audio_alt_setting = 3

abbrev audio_out_ep : ℕ
audio_out_ep = 0x03

abbrev audio_in_ep : ℕ
audio_in_ep = 0x83

-- An entry of the device list. `libusb_get_device_descriptor` can fail on it.
pub record UsbDevice : Type 0 where
  pub described : Bool
  pub bus : ℕ
  pub address : ℕ

-- libusb: the calls that do not succeed, the list of devices and the longest packets of the two
-- audio endpoints, which are 0 where the version of libusb cannot tell.
pub record Usb : Type 0 where
  pub refuses : UsbCall → Bool
  pub devices : List UsbDevice
  pub in_packet : ℕ
  pub out_packet : ℕ

-- The checked calls of `ow_engine_init` with their errors, those of `prepare_transfers` at the end.
abbrev pub setup : List (UsbCall × OwErr)
setup =
    (set_configuration 1, cant_set_usb_config)
    ∷ (claim audio_in_interface, cant_claim_if)
    ∷ (set_alt_setting audio_in_interface audio_alt_setting, cant_set_alt_setting)
    ∷ (claim audio_out_interface, cant_claim_if)
    ∷ (set_alt_setting audio_out_interface audio_alt_setting, cant_set_alt_setting)
    ∷ (clear_halt audio_in_ep, cant_clear_ep)
    ∷ (clear_halt audio_out_ep, cant_clear_ep)
    ∷ (alloc_transfer audio_in, cant_prepare_transfer)
    ∷ (alloc_transfer audio_out, cant_prepare_transfer)
    ∷ (alloc_transfer control_in, cant_prepare_transfer)
    ∷ (alloc_transfer control_out, cant_prepare_transfer)
    ∷ []

-- Calls up to the first that does not succeed, whose error it gives.
unfoldable pub attempt : (UsbCall → Bool) → List (UsbCall × OwErr) → List UsbCall × Option OwErr
attempt refuses [] = ([], none)
attempt refuses ((call, e) ∷ rest) =
    let (calls, result) = attempt refuses rest in
    if refuses call then (call ∷ [], some e) else (call ∷ calls, result)

abbrev pub usb_shutdown : List UsbCall
usb_shutdown =
    release 1
    ∷ release 3
    ∷ close_handle
    ∷ unref_device
    ∷ free_transfer audio_in
    ∷ free_transfer audio_out
    ∷ free_transfer control_in
    ∷ free_transfer control_out
    ∷ exit_context
    ∷ []

-- `ow_engine_destroy`
unfoldable pub destroy : List UsbCall
destroy = usb_shutdown ++ free_mem ∷ free_device ∷ free_engine ∷ []

-- Behind the label `end`, on an error.
unfoldable pub give_up : List UsbCall
give_up = usb_shutdown ++ free_engine ∷ []

-- The loop over the devices: the calls, and whether a handle was opened.
unfoldable pub open_device : (UsbCall → Bool) → ℕ → ℕ → ℕ → List UsbDevice → List UsbCall × Bool
open_device refuses bus address i [] = ([], false)
open_device refuses bus address i (d ∷ ds) =
    let (calls, opened) = open_device refuses bus address (i + 1) ds in
    if d.described && (d.bus == bus && d.address == address)
    then (if refuses (open_handle i)
        then (open_handle i ∷ calls, opened)
        else (open_handle i ∷ ref_device ∷ [], true))
    else (calls, opened)

module _ (F : Floats) {Ring : Type 0} where
  open F use {Float}

  -- What `ow_engine_init_mem` is called on.
  unfoldable pub prepare : Usb → DeviceDesc → Engine Float Ring → Engine Float Ring
  prepare u desc e = record e {
    desc = desc;
    status = stop;
    audio_in_blk_len = u.in_packet;
    audio_out_blk_len = u.out_packet;
  }

  -- The end of `ow_engine_init`, once the transfers are prepared.
  unfoldable pub allocate :
      Usb → DeviceDesc → ℕ → Engine Float Ring → OwResult (Engine Float Ring) × List UsbCall
  allocate u desc blocks e = elim (init_mem F (prepare u desc e) blocks) [
    | ok e' ↦ (ok e', attach_driver 4 ∷ attach_driver 5 ∷ [])
    | err x ↦ (err x, attach_driver 4 ∷ attach_driver 5 ∷ give_up)
  ]

  -- `ow_engine_init`; the engine that comes in is fresh memory.
  unfoldable pub init :
      Usb → DeviceDesc → ℕ → Engine Float Ring → OwResult (Engine Float Ring) × List UsbCall
  init u desc blocks e =
      let (calls, refused) = attempt u.refuses setup in
      let before : List UsbCall = detach_driver 4 ∷ detach_driver 5 ∷ calls in
      elim refused [
        | some x ↦ (err x, before ++ give_up)
        | none ↦ let (result, rest) = allocate u desc blocks e in (result, before ++ rest)
      ]

  -- The last call reads the name of the device, which a successful initialisation ends with.
  unfoldable pub init_named :
      Usb → DeviceDesc → ℕ → Engine Float Ring → OwResult (Engine Float Ring) × List UsbCall
  init_named u desc blocks e =
      let (result, calls) = init u desc blocks e in
      elim result [ ok e' ↦ (ok e', calls ++ load_name ∷ []) | err x ↦ (err x, calls) ]

  -- `ow_engine_init_from_device`, for a device at a bus and address.
  unfoldable pub init_from_device :
      Usb → DeviceDesc → ℕ → ℕ → ℕ → Engine Float Ring → OwResult (Engine Float Ring) × List UsbCall
  init_from_device u desc bus address blocks e =
      if u.refuses init_context
      then (err libusb_init_failed, init_context ∷ free_engine ∷ [])
      else (let (calls, opened) = open_device u.refuses bus address 0 u.devices in
          let (result, rest) = init_named u desc blocks e in
          if opened
          then (result, init_context ∷ (calls ++ rest))
          else (err cant_find_dev, init_context ∷ (calls ++ free_engine ∷ [])))
