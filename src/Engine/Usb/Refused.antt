-- ===== src/Engine/Usb/Refused.antt =====
-- How `ow_engine_init` of src/engine.c ends, by the calls of libusb that do not succeed.
use overwitch.Prelude.{
  ℕ, ◌+◌, ◌^◌, ◌≤◌, ◌<◌, ◌≡◌, refl, ap, ◌∙◌, ◌⊎◌, inl, inr, Bool, true, false, none, some, List, [],
  ◌∷◌, ◌++◌, map, All, arith,
}
use overwitch.Numeric.{Floats}
use overwitch.Device.{DeviceDesc, inputs, outputs}
use overwitch.Engine.Status.{
  OwErr, ok, err, generic_error, cant_set_usb_config, cant_claim_if, cant_set_alt_setting,
  cant_clear_ep, cant_prepare_transfer,
}
use overwitch.Engine.State.{Engine}
use overwitch.Engine.Memory.{in_blk_size, out_blk_size, alloc, measure, init_mem}
use overwitch.Engine.Blocks.Written.{HasSampleSize}
use overwitch.Engine.Valid.Defs.{IsValid}
use overwitch.Engine.Valid.Init.{init_mem-IsValid}
use overwitch.Engine.Usb.{
  UsbCall, audio_in, audio_out, control_in, control_out, set_configuration, claim, set_alt_setting,
  clear_halt, alloc_transfer, init_context, open_handle, detach_driver, UsbDevice, Usb, setup,
  attempt, give_up, open_device, prepare, allocate, init, init_named, init_from_device,
}

-- What the device needs, in this order: its configuration, the two interfaces with their settings,
-- the two endpoints cleared, and the four transfers.
abbrev pub required : List UsbCall
required =
    set_configuration 1
    ∷ claim 1
    ∷ set_alt_setting 1 3
    ∷ claim 2
    ∷ set_alt_setting 2 3
    ∷ clear_halt 0x83
    ∷ clear_halt 0x03
    ∷ alloc_transfer audio_in
    ∷ alloc_transfer audio_out
    ∷ alloc_transfer control_in
    ∷ alloc_transfer control_out
    ∷ []

-- The error that belongs to a kind of call.
abbrev pub error_of : UsbCall → OwErr
error_of c = elim c [
  | set_configuration n ↦ cant_set_usb_config
  | claim n ↦ cant_claim_if
  | set_alt_setting n m ↦ cant_set_alt_setting
  | clear_halt n ↦ cant_clear_ep
  | alloc_transfer t ↦ cant_prepare_transfer
  | _ ↦ generic_error
]

tagged : List UsbCall → List (UsbCall × OwErr)
tagged = map (λ c. (c, error_of c))

setup-required : setup ≡ tagged required
unfolding tagged
setup-required = refl

-- Calls that succeed, one that does not, and whatever stands behind it.
attempt_refused :
    (refuses : UsbCall → Bool) (before rest : List UsbCall) (call : UsbCall)
    → All (λ c. refuses c ≡ false) before
    → refuses call ≡ true
    → attempt refuses (tagged (before ++ (call ∷ rest)))
      ≡ (before ++ (call ∷ []), some (error_of call))
unfolding attempt tagged
attempt_refused refuses [] rest call b r = ground (arith, r)
attempt_refused refuses (c ∷ before) rest call b r =
    ground (arith, b.0, attempt_refused refuses before rest call b.1 r)

attempt_accepted :
    (refuses : UsbCall → Bool) (steps : List (UsbCall × OwErr))
    → All (λ s. refuses s.0 ≡ false) steps
    → (attempt refuses steps).1 ≡ none
unfolding attempt
attempt_accepted refuses [] b = refl
attempt_accepted refuses (s ∷ steps) b = ground (arith, b.0, attempt_accepted refuses steps b.1)

-- An entry that libusb describes, at the bus and address.
abbrev pub IsDevice : ℕ → ℕ → UsbDevice → Type 0
IsDevice bus address d = (d.described ≡ true) × ((d.bus ≡ bus) × (d.address ≡ address))

-- Some such entry can be opened; the first is at the place `i`.
abbrev pub CanOpen : (UsbCall → Bool) → ℕ → ℕ → ℕ → List UsbDevice → Type 0
CanOpen refuses bus address i [] = ⊥
CanOpen refuses bus address i (d ∷ ds) =
    (IsDevice bus address d × (refuses (open_handle i) ≡ false))
    ⊎ CanOpen refuses bus address (i + 1) ds

CanOpen-open_device :
    (refuses : UsbCall → Bool) (bus address i : ℕ) (ds : List UsbDevice)
    → CanOpen refuses bus address i ds
    → (open_device refuses bus address i ds).1 ≡ true
unfolding open_device
CanOpen-open_device refuses bus address i [] c = absurd c
CanOpen-open_device refuses bus address i (d ∷ ds) (inl c) = ground arith
CanOpen-open_device refuses bus address i (d ∷ ds) (inr c) =
    ground (arith, CanOpen-open_device refuses bus address (i + 1) ds c)

module _ (F : Floats) {Ring : Type 0} where
  open F use {Float}

  -- If all the calls before one of those that the device needs succeed and that one does not, then
  -- `ow_engine_init` returns the error that belongs to its kind; it has made the calls before it in
  -- their order, and then that one, and after it no call but those of the clean-up.
  pub init_refused :
      (u : Usb) (desc : DeviceDesc) (blocks : ℕ) (e : Engine Float Ring)
      (before rest : List UsbCall) (call : UsbCall)
      → required ≡ before ++ (call ∷ rest)
      → All (λ c. u.refuses c ≡ false) before
      → u.refuses call ≡ true
      → init F u desc blocks e ≡ (
        err (error_of call),
        (detach_driver 4 ∷ detach_driver 5 ∷ (before ++ (call ∷ []))) ++ give_up,
      )
  unfolding init
  init_refused u desc blocks e before rest call s b r =
      let refused : attempt u.refuses setup ≡ (before ++ (call ∷ []), some (error_of call)) =
        ap (attempt u.refuses) (setup-required ∙ ap tagged s)
        ∙ attempt_refused u.refuses before rest call b r in
      ground (arith, refused)

  accepted :
      (e : Engine Float Ring) (blocks : ℕ)
      → (e.audio_in_blk_len ≡ 0) ⊎ (e.audio_in_blk_len ≡ in_blk_size F e)
      → (e.audio_out_blk_len ≡ 0) ⊎ (e.audio_out_blk_len ≡ out_blk_size F e)
      → init_mem F e blocks ≡ ok (alloc F (measure F e blocks))
  unfolding init_mem
  accepted e blocks i o = ground arith

  -- If libusb can be initialised, some device at the bus and address can be opened and every
  -- call of the setup succeeds, and if libusb either cannot tell the sizes of the packets or tells
  -- those that the tracks need, then `ow_engine_init_from_device` succeeds; with one to 64 tracks
  -- of three or four bytes each way and at most `2 ^ 20` blocks in a transfer, the engine that it
  -- gives has buffers of the right sizes.
  pub init_from_device-IsValid :
      (u : Usb) (desc : DeviceDesc) (bus address blocks : ℕ) (e : Engine Float Ring)
      → u.refuses init_context ≡ false
      → CanOpen u.refuses bus address 0 u.devices
      → All (λ s. u.refuses s.0 ≡ false) setup
      → (u.in_packet ≡ 0) ⊎ (u.in_packet ≡ in_blk_size F (prepare F u desc e))
      → (u.out_packet ≡ 0) ⊎ (u.out_packet ≡ out_blk_size F (prepare F u desc e))
      → All HasSampleSize desc.output_tracks
      → All HasSampleSize desc.input_tracks
      → 0 < outputs desc
      → 0 < inputs desc
      → outputs desc ≤ 64
      → inputs desc ≤ 64
      → blocks ≤ 2 ^ 20
      → (e' : Engine Float Ring) × ((init_from_device F u desc bus address blocks e).0 ≡ ok e')
        × IsValid F e'
  unfolding init_from_device init_named init allocate prepare
  init_from_device-IsValid u desc bus address blocks e c d s ip op so si po pi lo li b =
      let made = accepted (prepare F u desc e) blocks ip op in
      (
        alloc F (measure F (prepare F u desc e) blocks),
        ground (
          arith,
          c,
          CanOpen-open_device u.refuses bus address 0 u.devices d,
          attempt_accepted u.refuses setup s,
          made,
        ),
        init_mem-IsValid F (prepare F u desc e) blocks so si po pi lo li b made,
      )
