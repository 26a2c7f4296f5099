-- ===== src/Message.antt =====
-- The byte strings that are hashed, signed or proved: `OutPoint::encode`, `statement_prefix`,
-- `scoped_transfer_message` and `withdrawal_message` of crates/protocol/src/lib.rs.
pub mod Widths
pub mod Arrays
pub mod Binding
use coins_gsr_v.Base.{
  ℕ, Bool, not, ◌||◌, [], ◌∷◌, ◌==◌, length, take, Result, ok, ◌>>=◌, ◌>>◌, reject_if,
}
use coins_gsr_v.Bytes.{Bytes, bytes_eq, to_le_bytes, extend_all}
use coins_gsr_v.CompactSize.{encode_compact_size}
use coins_gsr_v.Crates.{Coins}
use coins_gsr_v.Protocol.{
  Error, invalid_withdrawal, OutPoint, Action, action_byte, statement_domain, protocol_version,
  transfer_auth_domain, withdrawal_domain, withdrawal_account_id,
}

-- `txid` has 32 bytes, so the two copies fill the 36 bytes of the buffer.
unfoldable pub encode : OutPoint → Bytes
encode o = extend_all (o.txid ∷ to_le_bytes 4 o.vout ∷ [])

unfoldable pub statement_prefix : Action → Bytes → OutPoint → Bytes → Bytes → ℕ → ℕ → Bytes
statement_prefix action bridge_id bridge_prevout old_root new_root old_backing new_backing =
    extend_all (
      statement_domain
      ∷ (protocol_version ∷ [])
      ∷ (action_byte action ∷ [])
      ∷ bridge_id
      ∷ encode bridge_prevout
      ∷ old_root
      ∷ new_root
      ∷ to_le_bytes 8 old_backing
      ∷ to_le_bytes 8 new_backing
      ∷ [])

unfoldable pub scoped_transfer_message : Coins → Bytes → Bytes → Bytes
scoped_transfer_message coins bridge_id native_message =
    extend_all (transfer_auth_domain ∷ bridge_id ∷ coins.digest native_message ∷ [])

-- `destination[..2]` is reached only where the length is 34.
unfoldable pub withdrawal_message : Bytes → ℕ → ℕ → Bytes → Result Error Bytes
withdrawal_message bridge_id nonce amount destination = do
  reject_if
      (amount == 0
        || not (length destination == 34)
        || not (bytes_eq (take 2 destination) (0x51 ∷ 0x20 ∷ [])))
      invalid_withdrawal
  ok (
      extend_all (
        withdrawal_domain
        ∷ bridge_id
        ∷ to_le_bytes 4 withdrawal_account_id
        ∷ to_le_bytes 4 nonce
        ∷ to_le_bytes 8 amount
        ∷ encode_compact_size (length destination)
        ∷ destination
        ∷ []))
