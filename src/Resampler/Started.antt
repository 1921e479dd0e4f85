-- ===== src/Resampler/Started.antt =====
-- A resampler of src/resampler.c that is set up and then started.
use overwitch.Prelude.{ℕ, ◌*◌, ◌≤◌, ◌<◌, ◌≡◌, refl, Bool, Runs, Runs-bind, Runs-some, arith}
use overwitch.Numeric.{Floats, Doubles}
use overwitch.Device.{DeviceDesc, inputs, outputs}
use overwitch.Engine.Rings.{Rings}
use overwitch.Engine.Status.{OwResult, ok}
use overwitch.Engine.Start.{Context}
use overwitch.Engine.Start
use overwitch.Engine.Usb.{Usb}
use overwitch.Resampler.State.{ready, Resampler}
use overwitch.Resampler.Buffers.{reset_buffers}
use overwitch.Resampler.Ratios.{reset_dll}
use overwitch.Resampler.Room.{HasRoom}
use overwitch.Resampler.Sizes.{reset_buffers-Reset}
use overwitch.Resampler.Setup.{with_dll, begin, init_from_device, attach, start}

module _ (N : Doubles) (F : Floats) (R : Rings F.Float) where
  open N use {of_uint}
  open F use {Float}
  open R use {Ring}

  -- What a start leaves, and what it returns.
  pub record IsStarted (desc : DeviceDesc) (created : Bool) (c : Context) (samplerate bufsize : ℕ)
      (p : Resampler N Float Ring × OwResult (Context × ℕ)) : Type 0 where
    pub room : HasRoom N F R (inputs desc) (outputs desc) p.0
    pub status : p.0.status ≡ ready
    pub host_buffer : p.0.bufsize ≡ bufsize
    pub host_rate : p.0.samplerate ≡ of_uint samplerate
    pub queue : p.0.h2o_queue_len ≡ 0
    pub result : p.1 ≡ Start.start created (with_dll c)

  start-IsStarted :
      (desc : DeviceDesc) (created : Bool) (c : Context) (o2h h2o : Ring) (samplerate bufsize : ℕ)
      (r : Resampler N Float Ring)
      → r.o2h_frame_size ≡ 4 * outputs desc
      → r.h2o_frame_size ≡ 4 * inputs desc
      → 0 < outputs desc
      → inputs desc ≤ outputs desc
      → Runs
          (start N F R created c o2h h2o samplerate bufsize r)
          (IsStarted desc created c samplerate bufsize)
  unfolding start attach reset_dll
  start-IsStarted desc created c o2h h2o samplerate bufsize r f g h k =
      Runs-bind _
        (reset_buffers N F R (record r { samplerate = of_uint samplerate; bufsize = bufsize })) _ _
        (reset_buffers-Reset N F R (inputs desc) (outputs desc)
          (record r { samplerate = of_uint samplerate; bufsize = bufsize }) f g h k)
        (λ r' v. Runs-some _ _ (record {
          room = ground (arith, v.0);
          status = refl;
          host_buffer = v.1.0;
          host_rate = v.1.1.0;
          queue = v.1.1.1;
          result = refl;
        }))

  begun :
      (u : Usb) (desc : DeviceDesc) (bus address blocks : ℕ) (fresh r : Resampler N Float Ring)
      → (init_from_device N F R u desc bus address blocks fresh).0 ≡ ok r
      → (r.o2h_frame_size ≡ 4 * outputs desc) × (r.h2o_frame_size ≡ 4 * inputs desc)
  unfolding init_from_device begin
  begun u desc bus address blocks fresh r h = ground arith

  -- A resampler that `ow_resampler_init_from_device` has set up for a device with at least one
  -- output track, and with no more input tracks than output tracks, can be started for any sample
  -- rate and size of the host's buffers: `ow_resampler_start` returns what `ow_engine_start` does
  -- for a context with a DLL, and leaves a resampler that is READY, with the sample rate and size of
  -- the host, buffers of the sizes that the readers need and nothing queued.
  pub init_start-IsStarted :
      (u : Usb) (desc : DeviceDesc) (bus address blocks : ℕ) (fresh r : Resampler N Float Ring)
      (created : Bool) (c : Context) (o2h h2o : Ring) (samplerate bufsize : ℕ)
      → (init_from_device N F R u desc bus address blocks fresh).0 ≡ ok r
      → 0 < outputs desc
      → inputs desc ≤ outputs desc
      → Runs
          (start N F R created c o2h h2o samplerate bufsize r)
          (IsStarted desc created c samplerate bufsize)
  init_start-IsStarted u desc bus address blocks fresh r created c o2h h2o samplerate bufsize i h
        k =
      let (f, g) = begun u desc bus address blocks fresh r i in
      start-IsStarted desc created c o2h h2o samplerate bufsize r f g h k
