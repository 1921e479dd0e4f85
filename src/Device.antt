-- ===== src/Device.antt =====
-- Device descriptions: `struct ow_device_track`, `struct ow_device_desc` and `struct ow_device` of
-- src/overwitch.h, and the functions of src/overwitch.c on them.
pub mod Size
pub mod Json
pub mod Reader
pub mod Reading
pub mod Search
mod Tests
use Prim.Native.String.{String}
use overwitch.Prelude.{ℕ, ◌+◌, Bool, true, false, List, [], ◌∷◌, length}

-- `ow_device_type_t`
pub data DeviceType : Type 0 where
  type_1 type_2 type_3 : DeviceType

abbrev pub is_type_3 : DeviceType → Bool
is_type_3 type_3 = true
is_type_3 _ = false

pub record Track : Type 0 where
  pub name : String
  pub size : ℕ

-- `struct ow_device_desc`. A list of tracks holds the first `inputs` or `outputs` elements of the
-- array of `OB_MAX_TRACKS` in the source, and the count is its length.
pub record DeviceDesc : Type 0 where
  pub pid : ℕ
  pub name : String
  pub type : DeviceType
  pub input_tracks : List Track
  pub output_tracks : List Track

abbrev pub inputs : DeviceDesc → ℕ
inputs d = length d.input_tracks

abbrev pub outputs : DeviceDesc → ℕ
outputs d = length d.output_tracks

-- The loop of `ow_get_frame_size_from_desc_tracks`, with the sum so far.
unfoldable pub frame_size_from : ℕ → List Track → ℕ
frame_size_from frame_size [] = frame_size
frame_size_from frame_size (track ∷ tracks) = frame_size_from (frame_size + track.size) tracks

unfoldable pub get_frame_size_from_desc_tracks : List Track → ℕ
get_frame_size_from_desc_tracks tracks = frame_size_from 0 tracks
