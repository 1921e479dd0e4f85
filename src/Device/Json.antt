-- ===== src/Device/Json.antt =====
-- The readers of json-glib as src/overwitch.c uses them. A node is a place in a parsed file; a
-- member or an element that is missing is `none`, and then the reader stays where it was.
use Prim.Native.String.{String}
use overwitch.Prelude.{ℕ, Bool, Option}

pub record Json : Type 1 where
  pub Node : Type 0
  pub read_member : Node → String → Option Node
  pub is_array : Node → Bool
  pub count_elements : Node → ℕ
  pub read_element : Node → ℕ → Option Node
  -- The pattern of an `int`.
  pub int_value : Node → ℕ
  pub string_value : Node → String
