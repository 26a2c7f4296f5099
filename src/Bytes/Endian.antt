-- ===== src/Bytes/Endian.antt =====
-- Numbers and their bytes: `to_le_bytes` is one-to-one on the numbers that fit.
use coins_gsr_v.Base.{
  ℕ, zero, suc, ◌+◌, ◌*◌, ◌/◌, ◌%◌, ◌<◌, ◌≡◌, refl, ap, [], ◌∷◌, length, All, arith,
}
use coins_gsr_v.Bytes.{Bytes, IsByte, IsArray, limit, to_le_bytes}

-- The number that a little-endian byte string stands for (`from_le_bytes`).
unfoldable pub from_le_bytes : Bytes → ℕ
from_le_bytes [] = 0
from_le_bytes (b ∷ bs) = b + 256 * from_le_bytes bs

-- The number that a big-endian byte string stands for (`BigUint::from_bytes_be`).
unfoldable pub from_be_bytes : Bytes → ℕ
from_be_bytes [] = 0
from_be_bytes (b ∷ bs) = b * limit (length bs) + from_be_bytes bs

pub to_le_bytes-IsArray : (w n : ℕ) → IsArray w (to_le_bytes w n)
unfolding to_le_bytes
to_le_bytes-IsArray zero n = (refl, tt)
to_le_bytes-IsArray (suc w) n =
    let (l, a) = to_le_bytes-IsArray w (n / 256) in (ap suc l, (omega arith, a))

pub length-to_le_bytes : (w n : ℕ) → length (to_le_bytes w n) ≡ w
length-to_le_bytes w n = (to_le_bytes-IsArray w n).0

-- Reading back what was written gives the number, if it fits the width.
pub from_le_bytes-to_le_bytes : (w n : ℕ) → n < limit w → from_le_bytes (to_le_bytes w n) ≡ n
unfolding to_le_bytes from_le_bytes
from_le_bytes-to_le_bytes zero n h = omega arith
from_le_bytes-to_le_bytes (suc w) n h =
    omega (arith, from_le_bytes-to_le_bytes w (n / 256) (omega arith))

pub to_le_bytes-injective :
    (w m n : ℕ) → m < limit w → n < limit w → to_le_bytes w m ≡ to_le_bytes w n → m ≡ n
to_le_bytes-injective w m n hm hn e =
    cc (ap from_le_bytes e, from_le_bytes-to_le_bytes w m hm, from_le_bytes-to_le_bytes w n hn)

pub from_be_bytes-lt : (bs : Bytes) → All IsByte bs → from_be_bytes bs < limit (length bs)
unfolding from_be_bytes
from_be_bytes-lt [] h = omega arith
from_be_bytes-lt (b ∷ bs) h = grind (arith, from_be_bytes-lt bs h.1)

-- Writing what was read gives the bytes back.
pub to_le_bytes-from_le_bytes :
    (bs : Bytes) → All IsByte bs → to_le_bytes (length bs) (from_le_bytes bs) ≡ bs
unfolding to_le_bytes from_le_bytes
to_le_bytes-from_le_bytes [] h = refl
to_le_bytes-from_le_bytes (b ∷ bs) h =
    let low : (b + 256 * from_le_bytes bs) % 256 ≡ b = omega arith in
    let high : (b + 256 * from_le_bytes bs) / 256 ≡ from_le_bytes bs = omega arith in
    rw (low, high) (ap (λ t. b ∷ t) (to_le_bytes-from_le_bytes bs h.1))

pub from_le_bytes-lt : (bs : Bytes) → All IsByte bs → from_le_bytes bs < limit (length bs)
unfolding from_le_bytes
from_le_bytes-lt [] h = omega arith
from_le_bytes-lt (b ∷ bs) h = omega (arith, from_le_bytes-lt bs h.1)
