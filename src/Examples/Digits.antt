-- ===== src/Examples/Digits.antt =====
-- Digits that are read back, and the bytes of a number from the other end.
use Prim.Native.String.{String}
use Prim.Native.Char.{code}
use coins_gsr_v.Base.{
  ℕ, zero, suc, length-append, ◌*◌, ◌+◌, ◌≡◌, refl, ap, ◌∙◌, ◌==◌, if◌then◌else◌, [], ◌∷◌, ◌++◌,
  length, arith,
}
use coins_gsr_v.Bytes.{Bytes, limit}
use coins_gsr_v.Bytes.Endian.{from_be_bytes, from_le_bytes}

-- Digits: each byte in unary.
abbrev pub unary : ℕ → String → String
unary zero rest = String.◌∷◌ "b" rest
unary (suc n) rest = String.◌∷◌ "a" (unary n rest)

abbrev pub digits : Bytes → String
digits [] = ""
digits (b ∷ bs) = unary b (digits bs)

abbrev pub from_digits : ℕ → String → Bytes
from_digits n String.[] = []
from_digits n (String.◌∷◌ c rest) =
    let next = from_digits (suc n) rest in
    let fresh = from_digits zero rest in if code c == 97 then next else n ∷ fresh

from_digits-unary :
    (n b : ℕ) (rest : String) → from_digits n (unary b rest) ≡ (n + b) ∷ from_digits zero rest
from_digits-unary n zero rest = ap (λ m. m ∷ from_digits zero rest) (omega arith)
from_digits-unary n (suc b) rest =
    from_digits-unary (suc n) b rest ∙ ap (λ m. m ∷ from_digits zero rest) (omega arith)

pub from_digits-digits : (bytes : Bytes) → from_digits zero (digits bytes) ≡ bytes
from_digits-digits [] = refl
from_digits-digits (b ∷ bs) =
    from_digits-unary zero b (digits bs)
    ∙ (ap (λ m. m ∷ from_digits zero (digits bs)) (omega arith)
        ∙ ap (λ rest. b ∷ rest) (from_digits-digits bs))

-- The bytes from the other end.
abbrev pub back : Bytes → Bytes
back [] = []
back (b ∷ bs) = back bs ++ (b ∷ [])

length-back : (bs : Bytes) → length (back bs) ≡ length bs
length-back [] = refl
length-back (b ∷ bs) = omega (arith, length-append (back bs) (b ∷ []), length-back bs)

from_le_bytes-append :
    (bs : Bytes) (b : ℕ) → from_le_bytes (bs ++ (b ∷ [])) ≡ b * limit (length bs) + from_le_bytes bs
unfolding from_le_bytes
from_le_bytes-append [] b = omega arith
from_le_bytes-append (c ∷ bs) b = grind (arith, from_le_bytes-append bs b)

pub from_le_bytes-back : (bs : Bytes) → from_le_bytes (back bs) ≡ from_be_bytes bs
unfolding from_be_bytes from_le_bytes
from_le_bytes-back [] = refl
from_le_bytes-back (b ∷ bs) =
    from_le_bytes-append (back bs) b ∙ rw (length-back bs, from_le_bytes-back bs) refl
