-- ===== src/Bytes.antt =====
-- Byte strings of crates/protocol/src/lib.rs and crates/prover-host/src/wrapper.rs: a `Vec<u8>` and
-- a `[u8; N]` are lists of numbers, and `IsArray` states what their Rust type gives.
pub mod Endian
pub mod Order
pub mod Framing
pub mod Flip
use coins_gsr_v.Base.{
  ℕ, zero, suc, ◌+◌, ◌*◌, ◌/◌, ◌%◌, ◌<◌, ◌≡◌, Bool, true, false, ◌&&◌, List, [], ◌∷◌, ◌++◌, ltb,
  ◌==◌, if◌then◌else◌, length, All,
}

abbrev pub Bytes : Type 0
Bytes = List ℕ

abbrev pub IsByte : ℕ → Type 0
IsByte b = b < 256

abbrev pub IsArray : ℕ → Bytes → Type 0
IsArray n bs = (length bs ≡ n) × All IsByte bs

-- 256 ^ w: the numbers below it fit `w` bytes.
abbrev pub limit : ℕ → ℕ
limit zero = 1
limit (suc w) = 256 * limit w

abbrev pub IsU8 : ℕ → Type 0
IsU8 n = n < limit 1

abbrev pub IsU16 : ℕ → Type 0
IsU16 n = n < limit 2

abbrev pub IsU32 : ℕ → Type 0
IsU32 n = n < limit 4

abbrev pub IsU64 : ℕ → Type 0
IsU64 n = n < limit 8

-- `to_le_bytes` of a number of `w` bytes
unfoldable pub to_le_bytes : ℕ → ℕ → Bytes
to_le_bytes zero n = []
to_le_bytes (suc w) n = n % 256 ∷ to_le_bytes w (n / 256)

-- A buffer that is filled by one `extend_from_slice` after the other.
abbrev pub extend_all : List Bytes → Bytes
extend_all [] = []
extend_all (part ∷ parts) = part ++ extend_all parts

-- `==` of two byte strings
unfoldable pub bytes_eq : Bytes → Bytes → Bool
bytes_eq [] [] = true
bytes_eq [] (b ∷ bs) = false
bytes_eq (a ∷ as') [] = false
bytes_eq (a ∷ as') (b ∷ bs) = a == b && bytes_eq as' bs

-- `<` of two byte strings, the lexicographic order of Rust's arrays and slices
unfoldable pub bytes_lt : Bytes → Bytes → Bool
bytes_lt xs [] = false
bytes_lt [] (y ∷ ys) = true
bytes_lt (x ∷ xs) (y ∷ ys) = if ltb x y then true else (if ltb y x then false else bytes_lt xs ys)
