-- ===== src/Preferences.antt =====
-- `ow_save_preferences` and `ow_load_preferences` of src/preferences.c. `none` is a `strdup` of
-- `NULL`.
pub mod Kept
use Prim.Native.String.{String}
use overwitch.Prelude.{
  ℕ, Bool, true, false, not, ◌&&◌, if◌then◌else◌, Option, none, some, ◌>>=◌, List, [], ◌∷◌,
}

-- `struct ow_preferences`; a `gint64` is its pattern.
pub record Preferences : Type 0 where
  pub show_all_columns : Bool
  pub blocks : ℕ
  pub timeout : ℕ
  pub quality : ℕ
  pub pipewire_props : Option String

-- The nodes of json-glib, how they are built and how they are read. A member that is missing is
-- `none`, and so is a text of a node that has none.
pub record Nodes : Type 1 where
  pub Node : Type 0
  pub boolean : Bool → Node
  pub int : ℕ → Node
  pub string : Option String → Node
  pub object : List (String × Node) → Node
  pub read_member : Node → String → Option Node
  pub boolean_value : Node → Bool
  pub int_value : Node → ℕ
  pub string_value : Node → Option String

-- The values that `ow_load_preferences` begins with.
abbrev pub defaults : Preferences
defaults = record {
  show_all_columns = false;
  blocks = 24;
  timeout = 10;
  quality = 2;
  pipewire_props = none;
}

module _ (J : Nodes) where
  open J use {
    Node, boolean, int, string, object, read_member, boolean_value, int_value, string_value,
  }

  unfoldable pub node : Preferences → Node
  node p = object (
      ("showAllColumns", boolean p.show_all_columns)
      ∷ ("blocks", int p.blocks)
      ∷ ("timeout", int p.timeout)
      ∷ ("quality", int p.quality)
      ∷ ("pipewireProps", string p.pipewire_props)
      ∷ [])

  -- The file after it, and whether -1 is returned. Whether the directory can be made and the file
  -- written are arguments; the second is not looked at.
  unfoldable pub save_preferences : Bool → Bool → Preferences → Option Node → Option Node × Bool
  save_preferences makes_dir writes p file =
      if not makes_dir then (file, true) else ((if writes then some (node p) else file), false)

  -- The value of a member that is there.
  abbrev pub value_of : {A : Type 0} → Option Node → (Node → A) → A → A
  value_of none value a = a
  value_of (some n) value a = value n

  -- `strdup` of the text.
  abbrev pub props_of : Option Node → Option String → Option (Option String)
  props_of none props = some props
  props_of (some n) props = do v ← string_value n; some (some v)

  -- Behind the parser.
  unfoldable pub read : Node → Option Preferences
  read root = do
    props ← props_of (read_member root "pipewireProps") defaults.pipewire_props
    some (record {
      show_all_columns =
          value_of (read_member root "showAllColumns") boolean_value defaults.show_all_columns;
      blocks = value_of (read_member root "blocks") int_value defaults.blocks;
      timeout = value_of (read_member root "timeout") int_value defaults.timeout;
      quality = value_of (read_member root "quality") int_value defaults.quality;
      pipewire_props = props;
    })

  -- The preferences, and whether -1 is returned, for a file that the parser can read or not.
  unfoldable pub load_preferences : Option Node → Option (Preferences × Bool)
  load_preferences none = some (defaults, true)
  load_preferences (some root) = do p ← read root; some (p, false)
