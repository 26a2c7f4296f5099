-- ===== src/CompactSize/Canonical.antt =====
-- Reading a CompactSize back, and how long it is.
use coins_gsr_v.Base.{
  length-take, All-take, take-append-drop, Bool-cases, inl, inr, false, All, ◌%◌, length-append, ℕ,
  ◌<◌, ◌≡◌, ap, ◌++◌, [], ◌∷◌, length, take, drop, take-append, drop-append, Option, none, some,
  leb, ltb, ◌==◌, if◌then◌else◌, arith,
}
use coins_gsr_v.Bytes.{Bytes, IsByte, IsU64, to_le_bytes, limit}
use coins_gsr_v.Bytes.Endian.{
  to_le_bytes-from_le_bytes, from_le_bytes-lt, from_le_bytes, from_le_bytes-to_le_bytes,
  length-to_le_bytes,
}
use coins_gsr_v.CompactSize.{encode_compact_size}

-- A fixed-width number at the front of a buffer, and what follows it.
unfoldable pub read_le : ℕ → Bytes → Option (ℕ × Bytes)
read_le w bs = if ltb (length bs) w then none else some (from_le_bytes (take w bs), drop w bs)

-- The number must need the form that it is in.
unfoldable pub at_least : ℕ → Option (ℕ × Bytes) → Option (ℕ × Bytes)
at_least low none = none
at_least low (some (v, rest)) = if ltb v low then none else some (v, rest)

-- A strict reader of CompactSize, as Bitcoin's `ReadCompactSize`: padded forms are refused.
unfoldable pub read_compact_size : Bytes → Option (ℕ × Bytes)
read_compact_size [] = none
read_compact_size (b ∷ bs) =
    if leb b 0xfc
    then some (b, bs)
    else if b == 0xfd
    then at_least 0xfd (read_le 2 bs)
    else if b == 0xfe
    then at_least 0x1_0000 (read_le 4 bs)
    else at_least 0x1_0000_0000 (read_le 8 bs)

read_le-to_le_bytes :
    (w n : ℕ) (rest : Bytes) → n < limit w → read_le w (to_le_bytes w n ++ rest) ≡ some (n, rest)
unfolding read_le
read_le-to_le_bytes w n rest h =
    let l = length-to_le_bytes w n in
    let enough : ltb (length (to_le_bytes w n ++ rest)) w ≡ false =
      ground (arith, length-append (to_le_bytes w n) rest) in
    rw (
      enough,
      take-append w (to_le_bytes w n) rest l,
      drop-append w (to_le_bytes w n) rest l,
      from_le_bytes-to_le_bytes w n h,
    )

-- The strict reader gets back every 64-bit length that was written, and stops right behind it.
pub read_compact_size-encode_compact_size :
    (v : ℕ) (rest : Bytes)
    → IsU64 v
    → read_compact_size (encode_compact_size v ++ rest) ≡ some (v, rest)
unfolding read_compact_size encode_compact_size at_least
read_compact_size-encode_compact_size v rest h = ground (
  arith,
  read_le-to_le_bytes 2 (v % limit 2) rest,
  read_le-to_le_bytes 4 (v % limit 4) rest,
  read_le-to_le_bytes 8 v rest,
)

-- What a fixed-width read takes is the number's bytes.
to_le_bytes-read_le :
    (w : ℕ) (bs : Bytes) (n : ℕ) (rest : Bytes)
    → All IsByte bs
    → read_le w bs ≡ some (n, rest)
    → (to_le_bytes w n ++ rest ≡ bs) × (n < limit w)
unfolding read_le
to_le_bytes-read_le w bs n rest h e = elim (Bool-cases (ltb (length bs) w)) [
  | inl short ↦ cc (rw short at e)
  | inr long ↦
      let pair = rw long at e in
      let front = take w bs in
      let n_eq : from_le_bytes front ≡ n = ground arith in
      let r_eq : drop w bs ≡ rest = ground arith in
      let len : length front ≡ w = length-take w bs (ground arith) in
      let bytes : All IsByte front = All-take IsByte w bs h in
      let back : to_le_bytes w n ≡ front =
        cc (to_le_bytes-from_le_bytes front bytes, ap (λ t. to_le_bytes t n) len) in
      (rw (back, ← r_eq, take-append-drop), rw (← n_eq) (rw len at (from_le_bytes-lt front bytes)))
]

-- What the strict reader reads from bytes is a 64-bit length, and the bytes are what
-- `encode_compact_size` writes for it, followed by the rest.
pub encode_compact_size-read_compact_size :
    (bs : Bytes) (v : ℕ) (rest : Bytes)
    → All IsByte bs
    → read_compact_size bs ≡ some (v, rest)
    → (encode_compact_size v ++ rest ≡ bs) × IsU64 v
unfolding read_compact_size encode_compact_size at_least
encode_compact_size-read_compact_size [] v rest h e = cc
encode_compact_size-read_compact_size (b ∷ bs) v rest h e = ground (
  arith,
  to_le_bytes-read_le 2 bs v rest,
  to_le_bytes-read_le 4 bs v rest,
  to_le_bytes-read_le 8 bs v rest,
)
