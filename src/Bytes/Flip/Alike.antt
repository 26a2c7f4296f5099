-- ===== src/Bytes/Flip/Alike.antt =====
-- Strings that are alike but for one bit, apart from how the bit is flipped.
use mathlib.Core.List.{append_assoc}
use Prim.Native.Nat.{bit_xor}
use coins_gsr_v.Base.{
  ℕ, zero, suc, ◌+◌, ◌*◌, ◌/◌, ◌%◌, ◌≡◌, refl, sym, ap, ◌∙◌, ◌-◌, ◌++◌, Option-cases, inl, inr,
  length-append, All-append, some, [], ◌∷◌, length, All, arith,
}
use coins_gsr_v.Bytes.{Bytes, IsByte}
use coins_gsr_v.Bytes.Flip.{flip_at, flip_last, differ_one, bit_xor-one}

some_injective : {x y : Bytes} → some x ≡ some y → x ≡ y
some_injective h = cc

All-split : (P : ℕ → Type 0) (xs ys : Bytes) → All P (xs ++ ys) → All P xs × All P ys
All-split P [] ys h = (tt, h)
All-split P (x ∷ xs) ys h = let (a, b) = All-split P xs ys h.1 in ((h.0, a), b)

-- The number with its lowest bit flipped.
abbrev pub other_bit : ℕ → ℕ
other_bit b = (b / 2) * 2 + (1 - b % 2)

bit_xor-other_bit : (b : ℕ) → bit_xor b 1 ≡ other_bit b
bit_xor-other_bit b =
    let flipped = bit_xor-one b in let digit = differ_one (b % 2) (omega arith) in omega arith

-- Two strings that are alike but for the lowest bit of one byte.
pub record IsFlipped (i : ℕ) (bs flipped : Bytes) : Type 0 where
  pub front : Bytes
  pub b : ℕ
  pub rest : Bytes
  pub place : length front ≡ i
  pub was : bs ≡ front ++ (b ∷ rest)
  pub is : flipped ≡ front ++ (other_bit b ∷ rest)

-- The byte is the last one.
abbrev pub IsLastFlipped : Bytes → Bytes → Type 0
IsLastFlipped bs flipped =
    (front : Bytes) × (b : ℕ) × (bs ≡ front ++ (b ∷ [])) × (flipped ≡ front ++ (other_bit b ∷ []))

pub flip_at-IsFlipped :
    (i : ℕ) (bs : Bytes) {flipped : Bytes} → flip_at i bs ≡ some flipped → IsFlipped i bs flipped
flip_at-IsFlipped zero [] h = cc
flip_at-IsFlipped (suc i) [] h = cc
flip_at-IsFlipped zero (b ∷ bs) h = record {
  front = [];
  b = b;
  rest = bs;
  place = refl;
  was = refl;
  is = sym (some_injective h) ∙ ap (λ x. x ∷ bs) (bit_xor-other_bit b);
}
flip_at-IsFlipped (suc i) (b ∷ bs) h = elim (Option-cases (flip_at i bs)) [
  | inl e ↦ cc (rw e at h)
  | inr (rest, e) ↦
      let f = flip_at-IsFlipped i bs e in
      record {
        front = b ∷ f.front;
        b = f.b;
        rest = f.rest;
        place = ap suc f.place;
        was = ap (λ x. b ∷ x) f.was;
        is = sym (some_injective (rw e at h)) ∙ ap (λ x. b ∷ x) f.is;
      }
]

flip_at-append :
    (front : Bytes) (b : ℕ) (rest : Bytes)
    → flip_at (length front) (front ++ (b ∷ rest)) ≡ some (front ++ (other_bit b ∷ rest))
flip_at-append [] b rest = ap (λ x. some (x ∷ rest)) (bit_xor-other_bit b)
flip_at-append (c ∷ front) b rest = rw (flip_at-append front b rest) refl

pub IsFlipped-flip_at :
    (i : ℕ) (bs flipped : Bytes) → IsFlipped i bs flipped → flip_at i bs ≡ some flipped
IsFlipped-flip_at i bs flipped f = rw (f.was, f.is, ← f.place) (flip_at-append f.front f.b f.rest)

pub flip_last-IsLastFlipped :
    (bs : Bytes) {flipped : Bytes} → flip_last bs ≡ some flipped → IsLastFlipped bs flipped
flip_last-IsLastFlipped [] h = cc
flip_last-IsLastFlipped (b ∷ []) h =
    ([], b, refl, sym (some_injective h) ∙ ap (λ x. x ∷ []) (bit_xor-other_bit b))
flip_last-IsLastFlipped (b ∷ c ∷ bs) h = elim (Option-cases (flip_last (c ∷ bs))) [
  | inl e ↦ cc (rw e at h)
  | inr (rest, e) ↦
      let (front, d, was, is) = flip_last-IsLastFlipped (c ∷ bs) e in
      (b ∷ front, d, ap (λ x. b ∷ x) was, sym (some_injective (rw e at h)) ∙ ap (λ x. b ∷ x) is)
]

flip_last-append :
    (front : Bytes) (b : ℕ) → flip_last (front ++ (b ∷ [])) ≡ some (front ++ (other_bit b ∷ []))
flip_last-append [] b = ap (λ x. some (x ∷ [])) (bit_xor-other_bit b)
flip_last-append (c ∷ []) b = ap (λ x. some (c ∷ x ∷ [])) (bit_xor-other_bit b)
flip_last-append (c ∷ d ∷ front) b = rw (flip_last-append (d ∷ front) b) refl

pub IsLastFlipped-flip_last :
    (bs flipped : Bytes) → IsLastFlipped bs flipped → flip_last bs ≡ some flipped
IsLastFlipped-flip_last bs flipped (front, b, was, is) = rw (was, is) (flip_last-append front b)

-- Bytes in front of the string stay.
pub IsLastFlipped-append :
    (before bs flipped : Bytes)
    → IsLastFlipped bs flipped
    → IsLastFlipped (before ++ bs) (before ++ flipped)
IsLastFlipped-append before bs flipped (front, b, was, is) = (
  before ++ front,
  b,
  ap (λ x. before ++ x) was ∙ sym (append_assoc before front (b ∷ [])),
  ap (λ x. before ++ x) is ∙ sym (append_assoc before front (other_bit b ∷ [])),
)

-- A string that is not empty has its last byte flipped, and keeps its length.
pub has_last : (b : ℕ) (bs : Bytes) → (flipped : Bytes) × IsLastFlipped (b ∷ bs) flipped
has_last b [] = (other_bit b ∷ [], ([], b, refl, refl))
has_last b (c ∷ bs) =
    let (flipped, (front, d, was, is)) = has_last c bs in
    (b ∷ flipped, (b ∷ front, d, ap (λ x. b ∷ x) was, ap (λ x. b ∷ x) is))

pub IsLastFlipped-length :
    (bs flipped : Bytes) → IsLastFlipped bs flipped → length flipped ≡ length bs
IsLastFlipped-length bs flipped (front, b, was, is) =
    rw (was, is)
      (omega (arith, length-append front (b ∷ []), length-append front (other_bit b ∷ [])))

-- A flipped byte is a byte.
pub IsFlipped-bytes :
    (i : ℕ) (bs flipped : Bytes)
    → IsFlipped i bs flipped
    → All IsByte bs
    → (length flipped ≡ length bs) × All IsByte flipped
IsFlipped-bytes i bs flipped f bytes =
    let front = f.front in
    let (fronts, whole) = All-split IsByte front (f.b ∷ f.rest) (rw (← f.was) bytes) in
    rw (f.was, f.is)
      (
        omega (
          arith,
          length-append front (f.b ∷ f.rest),
          length-append front (other_bit f.b ∷ f.rest),
        ),
        All-append IsByte front (other_bit f.b ∷ f.rest) fronts (omega (arith, whole.0), whole.1),
      )
