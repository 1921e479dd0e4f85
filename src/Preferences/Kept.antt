-- ===== src/Preferences/Kept.antt =====
-- What src/preferences.c saves and loads again.
use Prim.Native.String.{String}
use overwitch.Prelude.{ℕ, ◌≡◌, refl, Bool, true, false, Option, none, some, List, [], ◌∷◌, arith}
use overwitch.Message.Json.{lookup_member}
use overwitch.Preferences.{
  Preferences, Nodes, defaults, node, save_preferences, read, load_preferences,
}

-- What json-glib documents of a file that it has generated.
pub record IsFaithful (J : Nodes) : Type 0 where
  pub boolean_value-boolean : (b : Bool) → J.boolean_value (J.boolean b) ≡ b
  pub int_value-int : (n : ℕ) → J.int_value (J.int n) ≡ n
  pub string_value-string : (s : String) → J.string_value (J.string (some s)) ≡ some s
  pub read_member-object :
      (fs : List (String × J.Node)) (k : String)
      → J.read_member (J.object fs) k ≡ lookup_member k fs

module _ (J : Nodes) (Q : IsFaithful J) where
  -- The members of a node of preferences, by their names.
  abbrev fields : Preferences → List (String × J.Node)
  fields p =
      ("showAllColumns", J.boolean p.show_all_columns)
      ∷ ("blocks", J.int p.blocks)
      ∷ ("timeout", J.int p.timeout)
      ∷ ("quality", J.int p.quality)
      ∷ ("pipewireProps", J.string p.pipewire_props)
      ∷ []

  read-node :
      (p : Preferences) (s : String) → p.pipewire_props ≡ some s → read J (node J p) ≡ some p
  unfolding read node
  read-node p s h =
      let of = Q.read_member-object (fields p) in
      ground (
        arith,
        of "pipewireProps",
        of "showAllColumns",
        of "blocks",
        of "timeout",
        of "quality",
        Q.string_value-string s,
        Q.boolean_value-boolean p.show_all_columns,
        Q.int_value-int p.blocks,
        Q.int_value-int p.timeout,
        Q.int_value-int p.quality,
      )

  -- What is written to the file is loaded as it was, if there is a text for PipeWire. Where the
  -- directory cannot be made the file stays, and -1 is returned.
  preferences_kept :
      (p : Preferences) (s : String) (writes : Bool) (file : Option J.Node)
      → p.pipewire_props ≡ some s
      → (load_preferences J (save_preferences J true true p file).0 ≡ some (p, false))
        × (save_preferences J false writes p file ≡ (file, true))
  unfolding load_preferences save_preferences
  preferences_kept p s writes file h = (ground (arith, read-node p s h), refl)

  -- A file with a node for PipeWire that has no text is not loaded at all.
  props_without_text :
      (root n : J.Node)
      → J.read_member root "pipewireProps" ≡ some n
      → J.string_value n ≡ none
      → load_preferences J (some root) ≡ none
  unfolding load_preferences read
  props_without_text root n h k = ground (arith, h, k)

  -- A file without a member loads the value that the program begins with.
  empty_file : load_preferences J (some (J.object [])) ≡ some (defaults, false)
  unfolding load_preferences read
  empty_file =
      let of = Q.read_member-object [] in
      ground
        (arith, of "pipewireProps", of "showAllColumns", of "blocks", of "timeout", of "quality")
