-- ===== src/Device/Reader.antt =====
-- The descriptions of devices in JSON, src/overwitch.c: `ow_get_device_desc_reader`,
-- `ow_get_device_desc_file` and `ow_get_device_desc`.
use Prim.Native.String.{String, slice}
use overwitch.Prelude.{
  ℕ, zero, suc, ◌+◌, ◌==◌, ◌≡◌, refl, Bool, true, false, not, Option, none, some, List, [], ◌∷◌,
  if◌then◌else◌,
}
use overwitch.Device.{DeviceType, type_1, type_2, type_3, Track, DeviceDesc}
use overwitch.Device.Json.{Json}

-- `-ENODEV` and `-EINVAL`
pub data ReadError : Type 0 where
  no_device invalid : ReadError

-- What a reader comes to.
pub data Found (A : Type 0) : Type 0 where
  failed : ReadError → Found A
  found : A → Found A

infixl 5 ◌>>=◌
abbrev pub ◌>>=◌ : {A B : Type 0} → Found A → (A → Found B) → Found B
failed e >>= f = failed e
found a >>= f = f a

-- Inversion of a bind.
pub bind-found :
    {A B : Type 0} (m : Found A) (f : A → Found B) (b : B)
    → (m >>= f) ≡ found b
    → (a : A) × (m ≡ found a) × (f a ≡ found b)
bind-found (failed e) f b h = cc
bind-found (found a) f b h = (a, refl, h)

infixl 5 ◌>>◌
abbrev pub ◌>>◌ : {B : Type 0} → Found (Unit {0}) → Found B → Found B
m >> k = m >>= λ _. k

abbrev pub need : {A : Type 0} → ReadError → Option A → Found A
need e none = failed e
need e (some a) = found a

abbrev pub check : Bool → ReadError → Found (Unit {0})
check true e = found tt
check false e = failed e

-- `snprintf (name, OW_LABEL_MAX_LEN, "%s", s)`: 31 bytes and the end of the string.
abbrev pub label : String → String
label s = slice s 0 31

-- The check of the type and its conversion.
abbrev pub type_of : ℕ → Found DeviceType
type_of n =
    if n == 1
    then found type_1
    else if n == 2
    then found type_2
    else if n == 3
    then found type_3
    else failed invalid

module _ (J : Json) where
  open J use {Node, read_member, is_array, count_elements, read_element, int_value, string_value}

  -- The body of the loop over the tracks. The index is not compared with the size of the array, so
  -- that a list longer than `OB_MAX_TRACKS` stands for one that was written past its end.
  unfoldable pub read_track : Node → ℕ → Found Track
  read_track node j = do
    element ← need invalid (read_element node j)
    name ← need invalid (read_member element "name")
    size ← need invalid (read_member element "size")
    found (record { name = label (string_value name); size = int_value size })

  -- The loop, for the `n` tracks from `j` on.
  unfoldable pub read_tracks_from : Node → ℕ → ℕ → Found (List Track)
  unfolding read_track
  read_tracks_from node zero j = found []
  read_tracks_from node (suc n) j = do
    track ← read_track node j
    tracks ← read_tracks_from node n (j + 1)
    found (track ∷ tracks)

  unfoldable pub read_tracks : Node → String → Found (List Track)
  unfolding read_tracks_from
  read_tracks node tag = do
    tracks ← need invalid (read_member node tag)
    check (is_array tracks) invalid
    check (not (count_elements tracks == 0)) invalid
    read_tracks_from tracks (count_elements tracks) 0

  -- `ow_get_device_desc_reader`
  unfoldable pub get_device_desc_reader : ℕ → Node → Found DeviceDesc
  unfolding read_tracks
  get_device_desc_reader pid node = do
    dpid ← need no_device (read_member node "pid")
    check (int_value dpid == pid) no_device
    name ← need invalid (read_member node "name")
    type_node ← need invalid (read_member node "type")
    type ← type_of (int_value type_node)
    input_tracks ← read_tracks node "input_tracks"
    output_tracks ← read_tracks node "output_tracks"
    found (record {
      pid = pid;
      name = label (string_value name);
      type = type;
      input_tracks = input_tracks;
      output_tracks = output_tracks;
    })

  -- An element that is another device is passed over.
  abbrev pub or_next : Found DeviceDesc → Found DeviceDesc → Found DeviceDesc
  or_next (failed no_device) next = next
  or_next (failed invalid) next = failed invalid
  or_next (found d) next = found d

  -- The loop over the elements, for the `n` elements from `i` on.
  unfoldable pub search_from : ℕ → Node → ℕ → ℕ → Found DeviceDesc
  unfolding get_device_desc_reader
  search_from pid node zero i = failed no_device
  search_from pid node (suc n) i =
      let rest = search_from pid node n (i + 1) in
      elim (read_element node i) [
        | none ↦ rest
        | some element ↦ or_next (get_device_desc_reader pid element) rest
      ]

  -- `ow_get_device_desc_file`, from what the parser makes of the file.
  unfoldable pub get_device_desc_file : ℕ → Option Node → Bool → Found DeviceDesc
  unfolding search_from
  get_device_desc_file pid none array = failed no_device
  get_device_desc_file pid (some root) array =
      if array
      then (do check (is_array root) no_device; search_from pid root (count_elements root) 0)
      else get_device_desc_reader pid root

  -- An entry of the directory of descriptions.
  pub record Entry : Type 0 where
    pub is_hidden : Bool
    pub is_json : Bool
    pub is_regular : Bool
    pub parsed : Option Node

  abbrev pub counts : Entry → Bool
  counts e = if e.is_hidden then false else if e.is_json then e.is_regular else false

  -- The loop over the directory, with the last result, which the next one replaces.
  unfoldable pub scan : ℕ → Found DeviceDesc → List Entry → Found DeviceDesc
  unfolding get_device_desc_file
  scan pid last [] = last
  scan pid last (e ∷ es) =
      scan pid (if counts e then get_device_desc_file pid e.parsed false else last) es

  abbrev pub or_else : Found DeviceDesc → Found DeviceDesc → Found DeviceDesc
  or_else (failed e) next = next
  or_else (found d) next = found d

  -- `ow_get_device_desc`: the directory, the user's file, and the file of the program.
  unfoldable pub get_device_desc : ℕ → List Entry → Option Node → Option Node → Found DeviceDesc
  unfolding scan
  get_device_desc pid entries user data_file =
      or_else (scan pid (failed no_device) entries)
        (or_else (get_device_desc_file pid user true) (get_device_desc_file pid data_file true))
