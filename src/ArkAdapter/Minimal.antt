-- ===== src/ArkAdapter/Minimal.antt =====
-- The numbers that `field` writes keep their value and have no zeros at the end.
use coins_gsr_v.Base.{ℕ, ◌+◌, ◌*◌, ap, ◌∙◌, ◌≡◌, ◌≢◌, refl, [], ◌∷◌, arith}
use coins_gsr_v.Bytes.{Bytes}
use coins_gsr_v.Bytes.Endian.{from_le_bytes}
use coins_gsr_v.ArkAdapter.{keep_byte, trim_zeros}

-- The last byte, if there is one, is not zero.
abbrev pub IsMinimal : Bytes → Type 0
IsMinimal [] = Unit
IsMinimal (b ∷ []) = b ≢ 0
IsMinimal (b ∷ c ∷ rest) = IsMinimal (c ∷ rest)

keep_byte-IsMinimal :
    (b : ℕ) (rest : Bytes)
    → IsMinimal rest
    → (from_le_bytes (keep_byte b rest) ≡ b + 256 * from_le_bytes rest)
      × IsMinimal (keep_byte b rest)
unfolding from_le_bytes
keep_byte-IsMinimal b [] h = ground arith
keep_byte-IsMinimal b (r ∷ rest) h = (refl, h)

-- The number that the bytes stand for, little end first, is kept when the zeros at the end are
-- popped, and no zero is left there.
pub trim_zeros-IsMinimal :
    (bs : Bytes) → (from_le_bytes (trim_zeros bs) ≡ from_le_bytes bs) × IsMinimal (trim_zeros bs)
unfolding trim_zeros from_le_bytes
trim_zeros-IsMinimal [] = (refl, tt)
trim_zeros-IsMinimal (b ∷ bs) =
    let (value, minimal) = trim_zeros-IsMinimal bs in
    let (kept, still) = keep_byte-IsMinimal b (trim_zeros bs) minimal in
    (kept ∙ ap (λ n. b + 256 * n) value, still)
