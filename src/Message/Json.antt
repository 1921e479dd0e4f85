-- ===== src/Message/Json.antt =====
-- The builder of json-glib as src/message.c uses it, and what it documents of a text that is built,
-- generated and read again.
use Prim.Native.String.{String, compare}
use Prim.Native.Nat.{Ordering}
use overwitch.Prelude.{
  ℕ, ◌^◌, ◌<◌, ◌≡◌, Bool, true, false, if◌then◌else◌, Option, none, some, List, [], ◌∷◌, length,
  get_elem?,
}
use overwitch.Device.Json.{Json}

abbrev pub str_eq : String → String → Bool
str_eq s t = elim (compare s t) [ Ordering.eq ↦ true | _ ↦ false ]

-- The first member of that name.
abbrev pub lookup_member {ℓ} : {A : Type ℓ} → String → List (String × A) → Option A
lookup_member k [] = none
lookup_member k ((j, a) ∷ fs) = let rest = lookup_member k fs in if str_eq j k then some a else rest

-- The nodes that the calls between a `begin` and its `end` make, and the reader of a double. An
-- `int` is its pattern of 32 bits.
pub record Builder (J : Json) (Double : Type 0) : Type 0 where
  pub int : ℕ → J.Node
  pub string : String → J.Node
  pub double : Double → J.Node
  pub array : List J.Node → J.Node
  pub object : List (String × J.Node) → J.Node
  pub double_value : J.Node → Double

-- What was built is read as it was built.
pub record IsFaithful (J : Json) (Double : Type 0) (B : Builder J Double) : Type 0 where
  pub int_value-int : (n : ℕ) → n < 2 ^ 32 → J.int_value (B.int n) ≡ n
  pub string_value-string : (s : String) → J.string_value (B.string s) ≡ s
  pub double_value-double : (x : Double) → B.double_value (B.double x) ≡ x
  pub is_array-array : (ns : List J.Node) → J.is_array (B.array ns) ≡ true
  pub count_elements-array : (ns : List J.Node) → J.count_elements (B.array ns) ≡ length ns
  pub read_element-array :
      (ns : List J.Node) (i : ℕ) → J.read_element (B.array ns) i ≡ get_elem? ns i
  pub read_member-object :
      (fs : List (String × J.Node)) (k : String)
      → J.read_member (B.object fs) k ≡ lookup_member k fs
