-- ===== src/Json.antt =====
-- What the program takes from `serde_json`.
use Prim.Native.String.{String}
use text.Mathlib.Text.{◌==◌ as str_eq}
use coins_gsr_v.Base.{ℕ, ◌≡◌, Bool, true, Option, none, some, List, [], ◌∷◌, if◌then◌else◌, Result}
use coins_gsr_v.Bytes.{Bytes}

pub record Json : Type 1 where
  -- `serde_json::Value`, its `Null`, and what `json!` writes
  pub Value : Type 0
  pub null : Value
  pub string : String → Value
  pub number : ℕ → Value
  pub array : List Value → Value
  pub object : List (String × Value) → Value
  -- `from_slice::<Value>(bytes)` and `to_vec_pretty(&value)`, their errors printed
  pub from_slice : Bytes → Result String Value
  pub to_vec_pretty : Value → Result String Bytes
  -- `value[name]`, which is `Null` where there is nothing, `as_str`, `as_array`, and `==` between
  -- values and with a string
  pub index : Value → String → Value
  pub as_str : Value → Option String
  pub as_array : Value → Option (List Value)
  pub eq : Value → Value → Bool
  pub eq_str : Value → String → Bool

-- The field of an object; the last of one name counts.
abbrev pub lookup : {V : Type 0} → String → List (String × V) → Option V
lookup name [] = none
lookup name ((other, value) ∷ fields) = elim (lookup name fields) [
  | none ↦ if str_eq name other then some value else none
  | some later ↦ some later
]

-- What is read of the values that were written.
pub record IsJson (json : Json) : Type 0 where
  pub index-object :
      (fields : List (String × json.Value)) (name : String) (value : json.Value)
      → lookup name fields ≡ some value
      → json.index (json.object fields) name ≡ value
  pub as_str-string : (text : String) → json.as_str (json.string text) ≡ some text
  pub as_array-array : (values : List json.Value) → json.as_array (json.array values) ≡ some values
  pub eq_refl : (value : json.Value) → json.eq value value ≡ true
  pub eq_str-string : (text : String) → json.eq_str (json.string text) text ≡ true
