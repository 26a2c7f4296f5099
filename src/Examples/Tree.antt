-- ===== src/Examples/Tree.antt =====
-- JSON values as trees, which meet the laws of Json.
use Prim.Native.String.{String}
use text.Mathlib.Text.{◌==◌ as str_eq}
use text.Mathlib.TextPositions.{eq_refl as str_eq_refl}
use coins_gsr_v.Base.{
  ℕ, ◌≡◌, refl, ap, Bool, true, false, ◌&&◌, ◌==◌, ==_iff, Option, none, some, List, [], ◌∷◌, ok,
}
use coins_gsr_v.Json.{Json, IsJson, lookup}

mutual
  pub data Tree : Type 0 where
    nothing : Tree
    leaf : String → Tree
    number : ℕ → Tree
    array : Trees → Tree
    object : Fields → Tree

  pub data Trees : Type 0 where
    none_left : Trees
    tree : Tree → Trees → Trees

  pub data Fields : Type 0 where
    no_field : Fields
    field : String → Tree → Fields → Fields

abbrev pub trees : List Tree → Trees
trees [] = none_left
trees (t ∷ ts) = tree t (trees ts)

abbrev pub from_trees : Trees → List Tree
from_trees none_left = []
from_trees (tree t ts) = t ∷ from_trees ts

from_trees-trees : (ts : List Tree) → from_trees (trees ts) ≡ ts
from_trees-trees [] = refl
from_trees-trees (t ∷ ts) = ap (λ r. t ∷ r) (from_trees-trees ts)

abbrev pub fields : List (String × Tree) → Fields
fields [] = no_field
fields ((name, t) ∷ rest) = field name t (fields rest)

abbrev pub from_fields : Fields → List (String × Tree)
from_fields no_field = []
from_fields (field name t rest) = (name, t) ∷ from_fields rest

from_fields-fields : (fs : List (String × Tree)) → from_fields (fields fs) ≡ fs
from_fields-fields [] = refl
from_fields-fields ((name, t) ∷ fs) = ap (λ r. (name, t) ∷ r) (from_fields-fields fs)

abbrev pub or_nothing : Option Tree → Tree
or_nothing none = nothing
or_nothing (some t) = t

abbrev pub index : Tree → String → Tree
index (object fs) name = or_nothing (lookup name (from_fields fs))
index _ name = nothing

abbrev pub as_str : Tree → Option String
as_str (leaf s) = some s
as_str _ = none

abbrev pub as_array : Tree → Option (List Tree)
as_array (array ts) = some (from_trees ts)
as_array _ = none

abbrev pub eq_str : Tree → String → Bool
eq_str (leaf s) t = str_eq s t
eq_str _ t = false

abbrev mutual
  pub eq : Tree → Tree → Bool
  eq nothing nothing = true
  eq (leaf s) (leaf t) = str_eq s t
  eq (number m) (number n) = m == n
  eq (array ss) (array ts) = eq_trees ss ts
  eq (object fs) (object gs) = eq_fields fs gs
  eq _ _ = false

  pub eq_trees : Trees → Trees → Bool
  eq_trees none_left none_left = true
  eq_trees (tree s ss) (tree t ts) = eq s t && eq_trees ss ts
  eq_trees _ _ = false

  pub eq_fields : Fields → Fields → Bool
  eq_fields no_field no_field = true
  eq_fields (field a s fs) (field b t gs) = str_eq a b && (eq s t && eq_fields fs gs)
  eq_fields _ _ = false

mutual
  eq_refl : (t : Tree) → eq t t ≡ true
  eq_refl nothing = refl
  eq_refl (leaf s) = str_eq_refl s
  eq_refl (number n) = (==_iff n n).1 refl
  eq_refl (array ts) = eq_trees_refl ts
  eq_refl (object fs) = eq_fields_refl fs

  eq_trees_refl : (ts : Trees) → eq_trees ts ts ≡ true
  eq_trees_refl none_left = refl
  eq_trees_refl (tree t ts) = rw (eq_refl t) (eq_trees_refl ts)

  eq_fields_refl : (fs : Fields) → eq_fields fs fs ≡ true
  eq_fields_refl no_field = refl
  eq_fields_refl (field a t fs) = rw (str_eq_refl a, eq_refl t) (eq_fields_refl fs)

-- Nothing is parsed; every text stands for `null`.
abbrev pub tree_json : Json
tree_json = record {
  Value = Tree;
  null = nothing;
  string = leaf;
  number = number;
  array = λ ts. array (trees ts);
  object = λ fs. object (fields fs);
  from_slice = λ bytes. ok nothing;
  to_vec_pretty = λ value. ok (0x7b ∷ 0x7d ∷ []);
  index = index;
  as_str = as_str;
  as_array = as_array;
  eq = eq;
  eq_str = eq_str;
}

pub tree_json-IsJson : IsJson tree_json
tree_json-IsJson = record {
  index-object = λ fs name value found. rw (from_fields-fields fs, found) refl;
  as_str-string = λ s. refl;
  as_array-array = λ ts. ap (λ l. some l) (from_trees-trees ts);
  eq_refl = eq_refl;
  eq_str-string = λ s. str_eq_refl s;
}
