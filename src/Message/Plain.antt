-- ===== src/Message/Plain.antt =====
-- A json-glib that reads what it builds: trees.
use Prim.Native.String.{String}
use overwitch.Prelude.{
  ℕ, zero, suc, ◌≡◌, refl, ap, Bool, true, false, if◌then◌else◌, Bool-cases, inl, inr, Option, none,
  some, List, [], ◌∷◌, length, get_elem?,
}
use overwitch.Device.Json.{Json}
use overwitch.Message.Json.{Builder, IsFaithful, str_eq, lookup_member}

mutual
  pub data Tree : Type 0 where
    int double : ℕ → Tree
    string : String → Tree
    array : Trees → Tree
    object : Members → Tree

  pub data Trees : Type 0 where
    nil : Trees
    cons : Tree → Trees → Trees

  pub data Members : Type 0 where
    end : Members
    member : String → Tree → Members → Members

abbrev trees : List Tree → Trees
trees [] = nil
trees (t ∷ ts) = cons t (trees ts)

abbrev members : List (String × Tree) → Members
members [] = end
members ((k, t) ∷ ms) = member k t (members ms)

abbrev count : Trees → ℕ
count nil = 0
count (cons t ts) = suc (count ts)

abbrev element : Trees → ℕ → Option Tree
element nil i = none
element (cons t ts) zero = some t
element (cons t ts) (suc i) = element ts i

abbrev find : String → Members → Option Tree
find k end = none
find k (member j t ms) = let rest = find k ms in if str_eq j k then some t else rest

abbrev number : Tree → ℕ
number t = elim t [ int n ↦ n | double n ↦ n | _ ↦ 0 ]

abbrev text : Tree → String
text t = elim t [ string s ↦ s | _ ↦ "" ]

abbrev is_array_tree : Tree → Bool
is_array_tree t = elim t [ array ts ↦ true | _ ↦ false ]

abbrev elements : Tree → Trees
elements t = elim t [ array ts ↦ ts | _ ↦ nil ]

abbrev members_of : Tree → Members
members_of t = elim t [ object ms ↦ ms | _ ↦ end ]

abbrev pub plain_json : Json
plain_json = record {
  Node = Tree;
  read_member = λ t k. find k (members_of t);
  is_array = is_array_tree;
  count_elements = λ t. count (elements t);
  read_element = λ t i. element (elements t) i;
  int_value = number;
  string_value = text;
}

abbrev pub plain_builder : Builder plain_json ℕ
plain_builder = record {
  int = int;
  string = string;
  double = double;
  array = λ ts. array (trees ts);
  object = λ ms. object (members ms);
  double_value = number;
}

count-trees : (ts : List Tree) → count (trees ts) ≡ length ts
count-trees [] = refl
count-trees (t ∷ ts) = ap suc (count-trees ts)

element-trees : (ts : List Tree) (i : ℕ) → element (trees ts) i ≡ get_elem? ts i
element-trees [] i = refl
element-trees (t ∷ ts) zero = refl
element-trees (t ∷ ts) (suc i) = element-trees ts i

find-members : (ms : List (String × Tree)) (k : String) → find k (members ms) ≡ lookup_member k ms
find-members [] k = refl
find-members ((j, t) ∷ ms) k = elim (Bool-cases (str_eq j k)) [
  | inl e ↦ rw e refl
  | inr e ↦ rw e (find-members ms k)
]

pub plain-IsFaithful : IsFaithful plain_json ℕ plain_builder
plain-IsFaithful = record {
  int_value-int = λ n h. refl;
  string_value-string = λ s. refl;
  double_value-double = λ x. refl;
  is_array-array = λ ts. refl;
  count_elements-array = count-trees;
  read_element-array = element-trees;
  read_member-object = find-members;
}
