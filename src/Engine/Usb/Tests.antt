-- ===== src/Engine/Usb/Tests.antt =====
-- The setup of an engine with a libusb that knows two devices.
use overwitch.Prelude.{
  ℕ, ◌≡◌, refl, take, drop, inl, inr, Bool, true, false, ◌==◌, [], ◌∷◌, ◌++◌, arith,
}
use overwitch.Numeric.Samples.{plain_floats}
use overwitch.Device.{get_frame_size_from_desc_tracks, frame_size_from}
use overwitch.Engine.Rings.Plain.{PlainRing}
use overwitch.Engine.Status.{ok, err, cant_claim_if, cant_find_dev}
use overwitch.Engine.State.{Engine}
use overwitch.Engine.Valid.Defs.{IsValid}
use overwitch.Engine.Tests.Callbacks.{open_engine}
use overwitch.Engine.Usb.{
  UsbCall, init_context, detach_driver, set_configuration, claim, set_alt_setting, free_engine, Usb,
  give_up, open_device, prepare, init, init_from_device,
}
use overwitch.Engine.Usb.Counts.{closing}
use overwitch.Engine.Usb.Released.{IsReleased, init_from_device-IsReleased}
use overwitch.Engine.Usb.Refused.{required, init_refused, init_from_device-IsValid}

abbrev pub accepting : Usb
accepting = record {
  refuses = λ c. false;
  devices =
      record { described = true; bus = 1; address = 2 }
      ∷ record { described = true; bus = 1; address = 5 }
      ∷ [];
  in_packet = 60;
  out_packet = 0;
}

-- The second interface is in use by another program.
abbrev is_second_claim : UsbCall → Bool
is_second_claim c = elim c [ claim n ↦ n == 2 | _ ↦ false ]

abbrev busy : Usb
busy = record accepting { refuses = is_second_claim }

no_device :
    init_from_device plain_floats accepting open_engine.desc 3 5 1 open_engine
    ≡ (err cant_find_dev, init_context ∷ free_engine ∷ [])
unfolding init_from_device open_device
no_device = refl

init_from_device-IsReleased_example : IsReleased is_second_claim (
    (init_from_device plain_floats busy open_engine.desc 1 5 1 open_engine).1
    ++ closing (init_from_device plain_floats busy open_engine.desc 1 5 1 open_engine).0)
init_from_device-IsReleased_example =
    init_from_device-IsReleased plain_floats busy open_engine.desc 1 5 1 open_engine

init_refused_example : init plain_floats busy open_engine.desc 1 open_engine ≡ (
  err cant_claim_if,
  (detach_driver 4
        ∷ detach_driver 5
        ∷ set_configuration 1
        ∷ claim 1
        ∷ set_alt_setting 1 3
        ∷ claim 2
        ∷ [])
      ++ give_up,
)
init_refused_example =
    init_refused plain_floats busy open_engine.desc 1 open_engine (take 3 required)
      (drop 4 required) (claim 2) refl (refl, (refl, (refl, tt))) refl

init_from_device-IsValid_example :
    (e' : Engine ℕ PlainRing) × ((init_from_device plain_floats accepting open_engine.desc 1 5 1
        open_engine).0
      ≡ ok e')
    × IsValid plain_floats e'
unfolding prepare get_frame_size_from_desc_tracks frame_size_from
init_from_device-IsValid_example =
    init_from_device-IsValid plain_floats accepting open_engine.desc 1 5 1 open_engine refl
      (inr (inl ((refl, (refl, refl)), refl)))
      (refl, (refl, (refl, (refl, (refl, (refl, (refl, (refl, (refl, (refl, (refl, tt)))))))))))
      (inr refl) (inl refl) (inr refl, tt) (inr refl, tt) (omega arith) (omega arith) (omega arith)
      (omega arith) (omega arith)
