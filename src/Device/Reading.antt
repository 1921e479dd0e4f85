-- ===== src/Device/Reading.antt =====
-- What the readers of descriptions in src/overwitch.c accept, and which file they take.
use Prim.Native.String.{String}
use overwitch.Prelude.{
  ℕ, ◌+◌, ◌<◌, ◌≡◌, refl, true, false, Option, some, List, [], ◌∷◌, ◌++◌, length,
}
use overwitch.Device.{DeviceDesc, DeviceType, type_1, type_2, type_3, Track}
use overwitch.Device.Json.{Json}
use overwitch.Device.Reader.{
  Found, failed, found, ReadError, no_device, Entry, counts, scan, label, get_device_desc_file,
  get_device_desc, or_else,
}

abbrev number_of : DeviceType → ℕ
number_of type_1 = 1
number_of type_2 = 2
number_of type_3 = 3

module _ (J : Json) where
  open J use {Node, count_elements, read_element, read_member, is_array, int_value, string_value}

  -- The track is what the element at the index says.
  pub record IsTrack (node : Node) (j : ℕ) (t : Track) : Type 0 where
    pub element : Node
    pub name : Node
    pub size : Node
    pub at_index : read_element node j ≡ some element
    pub has_name : read_member element "name" ≡ some name
    pub has_size : read_member element "size" ≡ some size
    pub same_name : t.name ≡ label (string_value name)
    pub same_size : t.size ≡ int_value size

  -- The tracks are the elements from an index on, in their order.
  abbrev pub AreTracks : Node → ℕ → List Track → Type 0
  AreTracks node j [] = Unit
  AreTracks node j (t ∷ ts) = IsTrack node j t × AreTracks node (j + 1) ts

  -- The tracks are those of the array that is the member, and there are some.
  pub record IsArray (node : Node) (tag : String) (ts : List Track) : Type 0 where
    pub tracks : Node
    pub has_member : read_member node tag ≡ some tracks
    pub array : is_array tracks ≡ true
    pub all : length ts ≡ count_elements tracks
    pub not_empty : 0 < length ts
    pub read : AreTracks tracks 0 ts

  -- The description is that of the node.
  pub record IsRead (pid : ℕ) (node : Node) (d : DeviceDesc) : Type 0 where
    pub pid_node : Node
    pub name_node : Node
    pub type_node : Node
    pub has_pid : read_member node "pid" ≡ some pid_node
    pub node_pid : int_value pid_node ≡ pid
    pub desc_pid : d.pid ≡ pid
    pub has_name : read_member node "name" ≡ some name_node
    pub name : d.name ≡ label (string_value name_node)
    pub has_type : read_member node "type" ≡ some type_node
    pub type : number_of d.type ≡ int_value type_node
    pub inputs : IsArray node "input_tracks" d.input_tracks
    pub outputs : IsArray node "output_tracks" d.output_tracks

  -- The result of a directory with one entry more.
  scan-append :
      (pid : ℕ) (es : List (Entry J)) (last : Found DeviceDesc) (e : Entry J)
      → counts J e ≡ true
      → scan J pid last (es ++ (e ∷ [])) ≡ get_device_desc_file J pid e.parsed false
  unfolding scan
  scan-append pid [] last e c = rw c refl
  scan-append pid (e' ∷ es) last e c = scan-append pid es _ e c

  -- The last JSON file of the directory decides: where it does not describe the product, a device
  -- that an earlier one describes is looked for in the other two files only.
  get_device_desc_forgets :
      (pid : ℕ) (es : List (Entry J)) (e : Entry J) (user data_file : Option Node) (d : DeviceDesc)
      (r : ReadError)
      → scan J pid (failed no_device) es ≡ found d
      → counts J e ≡ true
      → get_device_desc_file J pid e.parsed false ≡ failed r
      → get_device_desc J pid (es ++ (e ∷ [])) user data_file
        ≡ or_else J
            (get_device_desc_file J pid user true)
            (get_device_desc_file J pid data_file true)
  unfolding get_device_desc
  get_device_desc_forgets pid es e user data_file d r h c f =
      rw (scan-append pid es (failed no_device) e c, f) refl
