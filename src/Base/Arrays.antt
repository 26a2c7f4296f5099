-- ===== src/Base/Arrays.antt =====
-- Rust's `[T; 2]` and `[T; 3]`: the length is in the type, and an index past it is `none`.
use Prim.Native.Nat.{ℕ, zero, suc}
use mathlib.Core.Option.{Option, none, some}
use mathlib.Core.List.{List, [], ◌∷◌}

pub record Array2 {ℓ} (A : Type ℓ) : Type ℓ where
  pub at0 : A
  pub at1 : A

pub record Array3 {ℓ} (A : Type ℓ) : Type ℓ where
  pub at0 : A
  pub at1 : A
  pub at2 : A

module _ {ℓ} {A : Type ℓ} where
  -- `iter()` over two elements
  abbrev pub both : Array2 A → List A
  both a = a.at0 ∷ a.at1 ∷ []

  -- `iter()` over three elements
  abbrev pub to_list : Array3 A → List A
  to_list a = a.at0 ∷ a.at1 ∷ a.at2 ∷ []

  -- `get(i)`
  abbrev pub get_elem? : Array3 A → ℕ → Option A
  get_elem? a zero = some a.at0
  get_elem? a (suc zero) = some a.at1
  get_elem? a (suc (suc zero)) = some a.at2
  get_elem? a (suc (suc (suc i))) = none

  -- An assignment through `get_mut(i)`; out of range there is nothing to assign to.
  abbrev pub set : Array3 A → ℕ → A → Array3 A
  set a zero v = record a { at0 = v }
  set a (suc zero) v = record a { at1 = v }
  set a (suc (suc zero)) v = record a { at2 = v }
  set a (suc (suc (suc i))) v = a

-- `map`
abbrev pub map_array {ℓ κ} : {A : Type ℓ} {B : Type κ} → (A → B) → Array3 A → Array3 B
map_array f a = record { at0 = f a.at0; at1 = f a.at1; at2 = f a.at2 }
