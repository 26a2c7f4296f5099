-- ===== src/Base/Results.antt =====
-- Rust's `Result`, with the panic that an `expect`, an `unwrap` or an index makes a third outcome.
use mathlib.Core.Path.{◌≡◌, refl}
use mathlib.Core.Bool.{Bool, true, false, not}
use mathlib.Core.Option.{Option, none, some}

pub data Result {ℓ κ} (E : Type ℓ) (A : Type κ) : Type (ℓ ⊔ κ) where
  ok : A → Result E A
  err : E → Result E A
  panic : Result E A

infixl 5 ◌>>=◌ ◌>>◌
-- Rust's `?` before the rest of a function.
abbrev pub ◌>>=◌ {ℓ κ μ} :
    {E : Type ℓ} {A : Type κ} {B : Type μ} → Result E A → (A → Result E B) → Result E B
panic >>= rest = panic
err reason >>= rest = err reason
ok value >>= rest = rest value

-- The same where the value is `()`.
abbrev pub ◌>>◌ {ℓ κ} : {E : Type ℓ} {B : Type κ} → Result E (Unit {0}) → Result E B → Result E B
first >> rest = first >>= λ done. rest

-- `if test { return Err(e); }`
abbrev pub reject_if {ℓ} : {E : Type ℓ} → Bool → E → Result E (Unit {0})
reject_if true e = err e
reject_if false e = ok tt

-- `Option::ok_or`
abbrev pub ok_or {ℓ κ} : {E : Type ℓ} {A : Type κ} → Option A → E → Result E A
ok_or none e = err e
ok_or (some a) e = ok a

-- `Option::expect`, `Option::unwrap` and an index: the missing value is a panic.
abbrev pub or_panic {ℓ κ} : {E : Type ℓ} {A : Type κ} → Option A → Result E A
or_panic none = panic
or_panic (some a) = ok a

-- `Result::expect` and `Result::unwrap`
abbrev pub expect {ℓ κ μ} : {E : Type ℓ} {F : Type κ} {A : Type μ} → Result E A → Result F A
expect (ok a) = ok a
expect (err e) = panic
expect panic = panic

-- `Result::map_err`
abbrev pub map_err {ℓ κ μ} :
    {E : Type ℓ} {F : Type κ} {A : Type μ} → (E → F) → Result E A → Result F A
map_err f (ok a) = ok a
map_err f (err e) = err (f e)
map_err f panic = panic

-- A sequence that succeeded did so in both of its steps.
pub >>=-eq-ok {ℓ κ μ} :
    {E : Type ℓ} {A : Type κ} {B : Type μ} (first : Result E A) (rest : A → Result E B) {end : B}
    → (first >>= rest) ≡ ok end
    → (value : A) × (first ≡ ok value) × (rest value ≡ ok end)
>>=-eq-ok panic rest e = cc
>>=-eq-ok (err reason) rest e = cc
>>=-eq-ok (ok value) rest e = (value, refl, e)

-- No panic, and every error has the reason that `P` gives for it.
abbrev pub Blames {ℓ κ} : {E : Type ℓ} {A : Type κ} → (E → Type 0) → Result E A → Type 0
Blames P (ok a) = Unit
Blames P (err e) = P e
Blames P panic = ⊥

module _ {ℓ κ μ} {E : Type ℓ} {A : Type κ} {B : Type μ} (P : E → Type 0) where
  -- A step whose errors have reasons, and a rest whose errors have reasons after its success.
  pub Blames-bind :
      (m : Result E A) (f : A → Result E B)
      → Blames P m
      → ((a : A) → m ≡ ok a → Blames P (f a))
      → Blames P (m >>= f)
  Blames-bind (ok a) f h k = k a refl
  Blames-bind (err e) f h k = h
  Blames-bind panic f h k = absurd h

pub Blames-weaken {ℓ κ} :
    {E : Type ℓ} {A : Type κ} (P Q : E → Type 0) (r : Result E A)
    → ((e : E) → P e → Q e)
    → Blames P r
    → Blames Q r
Blames-weaken P Q (ok a) w h = tt
Blames-weaken P Q (err e) w h = w e h
Blames-weaken P Q panic w h = absurd h

pub Blames-reject_if {ℓ} :
    {E : Type ℓ} (P : E → Type 0) (b : Bool) (e : E) → (b ≡ true → P e) → Blames P (reject_if b e)
Blames-reject_if P true e h = h refl
Blames-reject_if P false e h = tt

-- What an `expect` lets through was there before it.
pub expect-ok {ℓ κ μ} :
    {E : Type ℓ} {F : Type κ} {A : Type μ} (m : Result E A) {a : A}
    → expect {F = F} m ≡ ok a
    → m ≡ ok a
expect-ok (ok x) h = cc
expect-ok (err e) h = cc
expect-ok panic h = cc

pub ok_injective {ℓ κ} :
    {E : Type ℓ} {A : Type κ} {a b : A} → ◌≡◌ {A = Result E A} (ok a) (ok b) → a ≡ b
ok_injective h = cc

-- What a test lets through.
pub not_rejected {ℓ} : {E : Type ℓ} (b : Bool) (e : E) → reject_if b e ≡ ok tt → b ≡ false
not_rejected true e h = cc
not_rejected false e h = refl

pub passed {ℓ} : {E : Type ℓ} (b : Bool) (e : E) → reject_if (not b) e ≡ ok tt → b ≡ true
passed true e h = refl
passed false e h = cc

-- `assert!`: what does not hold is a panic.
abbrev pub assert {ℓ} : {E : Type ℓ} → Bool → Result E (Unit {0})
assert true = ok tt
assert false = panic

pub assert-ok {ℓ} : {E : Type ℓ} (b : Bool) → assert {E = E} b ≡ ok tt → b ≡ true
assert-ok true h = refl
assert-ok false h = cc

-- What an `expect` of an `Option` lets through.
pub or_panic-ok {ℓ κ} :
    {E : Type ℓ} {A : Type κ} (o : Option A) {a : A} → or_panic {E = E} o ≡ ok a → o ≡ some a
or_panic-ok none h = cc
or_panic-ok (some b) h = cc

-- `is_ok()`, of a call that may panic
abbrev pub is_ok {ℓ κ} : {E : Type ℓ} {A : Type κ} → Result E A → Result E Bool
is_ok (ok a) = ok true
is_ok (err e) = ok false
is_ok panic = panic

-- `is_err()`, of a call that may panic
abbrev pub is_err {ℓ κ} : {E : Type ℓ} {A : Type κ} → Result E A → Result E Bool
is_err (ok a) = ok false
is_err (err e) = ok true
is_err panic = panic
