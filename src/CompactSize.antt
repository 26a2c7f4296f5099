-- ===== src/CompactSize.antt =====
-- Bitcoin's CompactSize length prefix, `encode_compact_size` of crates/protocol/src/lib.rs.
pub mod Canonical
use coins_gsr_v.Base.{ℕ, ◌%◌, [], ◌∷◌, leb, if◌then◌else◌}
use coins_gsr_v.Bytes.{Bytes, to_le_bytes, limit}

-- The bytes that `encode_compact_size` pushes to its output; `as u8`, `as u16` and `as u32` are
-- `% limit w`.
unfoldable pub encode_compact_size : ℕ → Bytes
encode_compact_size value =
    if leb value 0xfc
    then value % limit 1 ∷ []
    else if leb value 0xffff
    then 0xfd ∷ to_le_bytes 2 (value % limit 2)
    else if leb value 0xffff_ffff
    then 0xfe ∷ to_le_bytes 4 (value % limit 4)
    else 0xff ∷ to_le_bytes 8 value
