-- ===== src/Bytes/Order.antt =====
-- Equality and the lexicographic order of byte strings.
use coins_gsr_v.Base.{
  ℕ, ◌+◌, ◌*◌, ◌≤◌, ◌<◌, ◌≡◌, refl, ap, ◌≢◌, ◌↔◌, true, false, [], ◌∷◌, length, All, arith,
}
use coins_gsr_v.Bytes.{Bytes, IsByte, limit, bytes_eq, bytes_lt}
use coins_gsr_v.Bytes.Endian.{from_be_bytes, from_be_bytes-lt}

pub bytes_eq_iff : (xs ys : Bytes) → (bytes_eq xs ys ≡ true) ↔ (xs ≡ ys)
unfolding bytes_eq
bytes_eq_iff [] [] = (λ _. refl, λ _. refl)
bytes_eq_iff [] (y ∷ ys) = (λ e. cc, λ e. cc)
bytes_eq_iff (x ∷ xs) [] = (λ e. cc, λ e. cc)
bytes_eq_iff (x ∷ xs) (y ∷ ys) =
    let (f, g) = bytes_eq_iff xs ys in (λ e. ground (arith, f), λ e. ground (arith, g))

pub bytes_eq_refl : (xs : Bytes) → bytes_eq xs xs ≡ true
bytes_eq_refl xs = (bytes_eq_iff xs xs).1 refl

pub bytes_lt_irrefl : (xs : Bytes) → bytes_lt xs xs ≡ false
unfolding bytes_lt
bytes_lt_irrefl [] = refl
bytes_lt_irrefl (x ∷ xs) = ground (arith, bytes_lt_irrefl xs)

pub bytes_lt-ne : (xs ys : Bytes) → bytes_lt xs ys ≡ true → xs ≢ ys
bytes_lt-ne xs ys h e = cc (bytes_lt_irrefl xs)

-- A leading digit decides, whatever the rests below the weight `l`.
leading_digit : (x y l a b : ℕ) → a < l → b < l → (x < y → x * l + a < y * l + b)
leading_digit x y l a b ha hb h = grind (arith, scaled)
  where
    scaled : (x + 1) * l ≤ y * l
    scaled = grind arith

-- On strings of one length the order is that of the big-endian numbers.
pub bytes_lt-from_be_bytes :
    (xs ys : Bytes)
    → length xs ≡ length ys
    → All IsByte xs
    → All IsByte ys
    → (bytes_lt xs ys ≡ true) ↔ (from_be_bytes xs < from_be_bytes ys)
unfolding bytes_lt from_be_bytes
bytes_lt-from_be_bytes [] [] l hx hy = (λ e. cc, λ e. absurd (omega arith))
bytes_lt-from_be_bytes [] (y ∷ ys) l hx hy = absurd (omega arith)
bytes_lt-from_be_bytes (x ∷ xs) [] l hx hy = absurd (omega arith)
bytes_lt-from_be_bytes (x ∷ xs) (y ∷ ys) l hx hy =
    let same : length xs ≡ length ys = omega arith in
    let (f, g) = bytes_lt-from_be_bytes xs ys same hx.1 hy.1 in
    let bx = from_be_bytes-lt xs hx.1 in
    let by = from_be_bytes-lt ys hy.1 in
    let weight : limit (length xs) ≡ limit (length ys) = ap limit same in
    let below = leading_digit x y (limit (length ys)) (from_be_bytes xs) (from_be_bytes ys) in
    let above = leading_digit y x (limit (length ys)) (from_be_bytes ys) (from_be_bytes xs) in
    rw weight (λ e. ground (arith, below, f), λ e. ground (arith, above, g))
