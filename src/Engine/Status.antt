-- ===== src/Engine/Status.antt =====
-- `ow_engine_status_t` and `ow_err_t` of src/overwitch.h, and the functions of src/engine.c that
-- read or change the status of an engine under its lock.
use overwitch.Prelude.{ℕ, ◌≡◌, refl, Bool, true, false, ltb, if◌then◌else◌}

pub data EngineStatus : Type 0 where
  error stop ready steady boot clear wait run : EngineStatus

-- The values of the enumeration in their order, shifted by one so that `error` is 0.
abbrev pub level : EngineStatus → ℕ
level error = 0
level stop = 1
level ready = 2
level steady = 3
level boot = 4
level clear = 5
level wait = 6
level run = 7

abbrev pub is_run : EngineStatus → Bool
is_run run = true
is_run _ = false

-- `status > OW_ENGINE_STATUS_STOP`
abbrev pub is_alive : EngineStatus → Bool
is_alive s = ltb (level stop) (level s)

-- `ow_engine_set_status`, as a change of the status.
unfoldable pub set_status : EngineStatus → EngineStatus → EngineStatus
set_status new status = if is_alive status then new else status

-- `ow_engine_clear_buffers`
unfoldable pub clear_buffers : EngineStatus → EngineStatus
clear_buffers status = if is_run status then clear else status

-- `ow_err_t`
pub data OwErr : Type 0 where
  generic_error libusb_init_failed cant_open_dev cant_set_usb_config cant_claim_if : OwErr
  cant_set_alt_setting cant_clear_ep cant_prepare_transfer cant_find_dev : OwErr
  unexpected_packet_size no_read_space no_write_space no_read no_write : OwErr
  no_o2h_audio_buf no_h2o_audio_buf no_get_time no_dll : OwErr

-- A function that returns `OW_OK` with its effect, or an error.
pub data OwResult {ℓ} (A : Type ℓ) : Type ℓ where
  ok : A → OwResult A
  err : OwErr → OwResult A

-- Inversion of `if (bad) return x;`.
pub ok_of_guard :
    {A : Type 0} (bad : Bool) (x : OwErr) {a c : A}
    → (if bad then err x else ok a) ≡ ok c
    → (bad ≡ false) × (a ≡ c)
ok_of_guard true x h = cc
ok_of_guard false x h = (refl, cc)
