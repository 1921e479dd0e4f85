-- ===== src/Device/Tests.antt =====
-- The readers of descriptions and the search for devices at small inputs, and the theorems there.
use Prim.Native.String.{String}
use overwitch.Prelude.{
  ℕ, ◌≡◌, ◌==◌, ◌||◌, refl, true, false, Option, none, some, [], ◌∷◌, if◌then◌else◌, replicate,
}
use overwitch.Device.{Track, DeviceDesc, type_2}
use overwitch.Device.Json.{Json}
use overwitch.Device.Reader.{Found, found, failed, no_device, Entry, get_device_desc_reader}
use overwitch.Device.Search.{Device, UsbDevice, by_name, same_string, get_device_from_device_attrs}

-- One file, with its nodes as numbers: 0 is a description of the product 12 with a track each way,
-- 6 is a track, and 9 has no members.
abbrev member : ℕ → String → Option ℕ
member n tag =
    if n == 0
    then if same_string tag "pid"
      then some 1
      else if same_string tag "name"
      then some 2
      else if same_string tag "type"
      then some 3
      else if same_string tag "input_tracks" || same_string tag "output_tracks"
      then some 4
      else none
    else if n == 6
    then if same_string tag "size" then some 7 else some 2
    else none

abbrev number : ℕ → ℕ
number n = if n == 1 then 12 else if n == 3 then 2 else 4

abbrev json : Json
json = record {
  Node = ℕ;
  read_member = member;
  is_array = λ n. n == 4;
  count_elements = λ n. 1;
  read_element = λ n j. if j == 0 then some 6 else none;
  int_value = number;
  string_value = λ n. "Box";
}

abbrev track : Track
track = record { name = "Box"; size = 4 }

abbrev desc : DeviceDesc
desc = record {
  pid = 12;
  name = "Box";
  type = type_2;
  input_tracks = track ∷ [];
  output_tracks = track ∷ [];
}

-- An array of 65 elements is accepted, although a description has room for 64 tracks.
abbrev long : Json
long = record json { count_elements = λ n. 65; read_element = λ n j. some 6 }

too_many :
    get_device_desc_reader long 12 0
    ≡ found (record desc { input_tracks = replicate 65 track; output_tracks = replicate 65 track })
unfolding get_device_desc_reader
too_many = refl

abbrev file : ℕ → Entry json
file n = record { is_hidden = false; is_json = true; is_regular = true; parsed = some n }

abbrev box : ℕ → Device
box address = record { desc = desc; vid = 0x1935; pid = 12; bus = 1; address = address }

-- The name is looked for only in the devices that are listed.
find_box : get_device_from_device_attrs (by_name "Box") (found (box 4 ∷ box 5 ∷ [])) ≡ some (box 4)
unfolding get_device_from_device_attrs
find_box = refl

abbrev usb : ℕ → UsbDevice
usb vendor = record { described = true; id_vendor = vendor; id_product = 12; bus = 1; address = 4 }

abbrev describe : ℕ → Found DeviceDesc
describe pid = if pid == 12 then found desc else failed no_device
