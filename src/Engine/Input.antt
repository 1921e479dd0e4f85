-- ===== src/Engine/Input.antt =====
-- The device-to-host side of src/engine.c: `ow_engine_read_usb_input_blocks` on an engine, and
-- `set_usb_input_data_blks`. `none` is an access out of bounds or a division by zero.
use overwitch.Prelude.{ℕ, ◌/◌, ◌==◌, Option, none, some, ◌>>=◌, ltb, leb, if◌then◌else◌, store}
use overwitch.Numeric.{Floats}
use overwitch.Engine.Blocks.{read_blocks}
use overwitch.Engine.Rings.{Rings}
use overwitch.Engine.Status.{level, run}
use overwitch.Engine.State.{Engine}

-- Integer division, which traps at 0.
unfoldable pub div? : ℕ → ℕ → Option ℕ
div? a b = if b == 0 then none else some (a / b)

-- `if (x > max) max = x;`
abbrev pub raise : ℕ → ℕ → ℕ
raise m x = if ltb m x then x else m

module _ (F : Floats) (R : Rings F.Float) where
  open F use {Float}
  open R use {Ring, read_space, write_space, write}

  -- `ow_engine_read_usb_input_blocks`
  unfoldable pub read_usb_input_blocks : ℕ → Engine Float Ring → Option (Engine Float Ring)
  read_usb_input_blocks hv e = do
    fs ← read_blocks F e.desc.type e.desc.output_tracks hv e.xfr_audio_in_data
    buf ← store e.o2h_transfer_buf fs
    some (record e { o2h_transfer_buf = buf })

  -- The write to the ring, or the warning that it is full; then the latency.
  unfoldable pub publish_input : Engine Float Ring → Option (Engine Float Ring)
  publish_input e = do
    let ring =
        if leb e.o2h_transfer_size (write_space e.o2h_audio)
        then write e.o2h_audio e.o2h_transfer_buf e.o2h_transfer_size
        else e.o2h_audio
    latency ← div? (read_space ring) e.o2h_frame_size
    some (record e {
      o2h_audio = ring;
      latency_o2h = latency;
      latency_o2h_max = raise e.latency_o2h_max latency;
    })

  -- `set_usb_input_data_blks`, with the state of the DLL and the time that `get_time` returns.
  module _ {D : Type 0} (dll_overbridge_update : D → ℕ → ℕ → D) where
    unfoldable pub set_usb_input_data_blks :
        ℕ → ℕ → D → Engine Float Ring → Option (D × Engine Float Ring)
    set_usb_input_data_blks time hv dll e = do
      let dll' = if e.has_dll then dll_overbridge_update dll e.frames_per_transfer time else dll
      e' ← read_usb_input_blocks hv e
      e'' ← if ltb (level e.status) (level run) then some e' else publish_input e'
      some (dll', e'')
