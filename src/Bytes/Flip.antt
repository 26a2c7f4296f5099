-- ===== src/Bytes/Flip.antt =====
-- A byte of a string with its lowest bit flipped, as the host and the tests corrupt what they check.
pub mod Alike
use mathlib.Core.List.{append_assoc}
use Prim.Native.Nat.{bit_xor, bit_xor-bitwise, digits, differ}
use coins_gsr_v.Base.{
  ℕ, zero, suc, ◌+◌, ◌*◌, ◌/◌, ◌%◌, ◌<◌, ◌≤◌, ◌≡◌, ◌≢◌, refl, sym, ap, ◌∙◌, ◌-◌, ◌++◌, Option-cases,
  inl, inr, length-append, All-append, Option, none, some, [], ◌∷◌, length, take, All, arith,
}
use coins_gsr_v.Bytes.{Bytes, IsByte}

-- `*bytes.last_mut()? ^= 1`
abbrev pub flip_last : Bytes → Option Bytes
flip_last [] = none
flip_last (b ∷ []) = some (bit_xor b 1 ∷ [])
flip_last (b ∷ c ∷ bs) = elim (flip_last (c ∷ bs)) [ none ↦ none | some rest ↦ some (b ∷ rest) ]

-- `bytes[i] ^= 1`
abbrev pub flip_at : ℕ → Bytes → Option Bytes
flip_at i [] = none
flip_at zero (b ∷ bs) = some (bit_xor b 1 ∷ bs)
flip_at (suc i) (b ∷ bs) = elim (flip_at i bs) [ none ↦ none | some rest ↦ some (b ∷ rest) ]

differ_zero : (x : ℕ) → differ x 0 ≡ x
differ_zero zero = refl
differ_zero (suc x) = refl

xor_zero : (n a : ℕ) → a ≤ n → digits (λ b. b) differ n a 0 ≡ a
xor_zero zero zero h = refl
xor_zero zero (suc a) h = absurd (omega arith)
xor_zero (suc n) zero h = refl
xor_zero (suc n) (suc a) h = rw (differ_zero, xor_zero n (suc a / 2) (omega arith)) (omega arith)

pub differ_one : (x : ℕ) → x < 2 → differ x 1 + x ≡ 1
differ_one zero h = refl
differ_one (suc zero) h = refl
differ_one (suc (suc x)) h = absurd (omega arith)

-- The number with its lowest digit flipped: the digits above are kept.
pub bit_xor-one : (b : ℕ) → bit_xor b 1 ≡ (b / 2) * 2 + differ (b % 2) 1
bit_xor-one zero = bit_xor-bitwise 0 1
bit_xor-one (suc a) = bit_xor-bitwise (suc a) 1 ∙ rw (xor_zero a (suc a / 2) (omega arith)) refl

-- A flipped byte is another byte.
pub bit_xor_byte : (b : ℕ) → IsByte b → IsByte (bit_xor b 1) × (bit_xor b 1 ≢ b)
bit_xor_byte b h =
    let flipped = bit_xor-one b in
    let digit = differ_one (b % 2) (omega arith) in (omega arith, λ e. omega arith)

-- Two beginnings of one length that agree do so in their first bytes and in the rest.
take_cons :
    (n a b : ℕ) (xs ys : Bytes)
    → take (suc n) (a ∷ xs) ≡ take (suc n) (b ∷ ys)
    → (a ≡ b) × (take n xs ≡ take n ys)
take_cons n a b xs ys e = (cc, cc)

new_head : (n a b : ℕ) (xs ys : Bytes) → 0 < n → a ≢ b → take n (a ∷ xs) ≢ take n (b ∷ ys)
new_head zero a b xs ys h new e = absurd (omega arith)
new_head (suc n) a b xs ys h new e = new (take_cons n a b xs ys e).0

new_tail :
    (n i b : ℕ) (xs ys : Bytes)
    → suc i < n
    → ((m : ℕ) → i < m → take m xs ≢ take m ys)
    → take n (b ∷ xs) ≢ take n (b ∷ ys)
new_tail zero i b xs ys h new e = absurd (omega arith)
new_tail (suc n) i b xs ys h new e = new n (omega arith) (take_cons n b b xs ys e).1

-- Within the string a flip succeeds, changes the bytes up to there, and leaves bytes.
pub flip_at-some :
    (i : ℕ) (bs : Bytes)
    → i < length bs
    → All IsByte bs
    → (flipped : Bytes) × (flip_at i bs ≡ some flipped)
      × All IsByte flipped
      × (length flipped ≡ length bs)
      × ((n : ℕ) → i < n → take n flipped ≢ take n bs)
flip_at-some i [] h bytes = absurd (omega arith)
flip_at-some zero (b ∷ bs) h bytes =
    let (fits, new) = bit_xor_byte b bytes.0 in
    (
      bit_xor b 1 ∷ bs,
      refl,
      (fits, bytes.1),
      refl,
      λ n below. new_head n (bit_xor b 1) b bs bs below new,
    )
flip_at-some (suc i) (b ∷ bs) h bytes =
    let (rest, rest_is, fits, len, new) = flip_at-some i bs (omega arith) bytes.1 in
    (
      b ∷ rest,
      rw rest_is refl,
      (bytes.0, fits),
      ap suc len,
      λ n below. new_tail n i b rest bs below new,
    )
