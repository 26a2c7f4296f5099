-- ===== src/Examples/Runs.antt =====
-- The runs that the tests of the repository make, by evaluation.
use coins_gsr_v.Base.{◌≡◌, refl, [], ◌∷◌, ok, err}
use coins_gsr_v.Bytes.{bytes_eq, bytes_lt, to_le_bytes}
use coins_gsr_v.Crates.{portable}
use coins_gsr_v.Protocol.{
  Deposit, deposit_order, invalid_deposit, invalid_recipient, invalid_backing, Collection,
}
use coins_gsr_v.Account.{
  checked_add_u64, checked_add_u32, checked_sub_u64, check_key, validate, root, backing,
  require_backing, zero_state,
}
use coins_gsr_v.CompactSize.{encode_compact_size}
use coins_gsr_v.Message.{encode, statement_prefix, scoped_transfer_message, withdrawal_message}
use coins_gsr_v.Signature.{valid_signature, verify_selected}
use coins_gsr_v.Collect.{
  credit, credit_all, deposit_total, deposit_record, extend_records, apply_collection,
}
use coins_gsr_v.Collect.Credit.{credited}
use coins_gsr_v.Collect.Outcome
use coins_gsr_v.Settle.{
  is_unsupported, apply_transfer, debit_withdrawal, require_signature, apply_settlement,
}
use coins_gsr_v.Settle.Terms
use coins_gsr_v.Settle.Terms.{transferred, withdrawn}
use coins_gsr_v.Examples.Toy.{toy}
use coins_gsr_v.Examples.Inputs.{
  keys, zero_accounts, collection, settlement, collected, settled, deposit_a, deposit_b,
}

pub zero_runs : zero_state toy keys ≡ ok zero_accounts
unfolding zero_state validate check_key bytes_eq
zero_runs = refl

-- `collection_credits_exact_deposits_and_preserves_identity_free_root`
pub collection_runs : apply_collection toy collection ≡ ok collected
unfolding apply_collection validate check_key bytes_eq bytes_lt require_backing backing
    checked_add_u64 credit credit_all deposit_total deposit_record extend_records encode to_le_bytes
    Outcome.transition_of Outcome.record_bytes credited root statement_prefix
collection_runs = refl

-- `settlement_validates_native_and_bridge_scoped_authorizations`
pub settlement_runs : apply_settlement toy portable settlement ≡ ok settled
unfolding apply_settlement validate check_key bytes_eq require_backing backing checked_add_u64
    checked_add_u32 checked_sub_u64 is_unsupported require_signature valid_signature verify_selected
    apply_transfer debit_withdrawal withdrawal_message scoped_transfer_message Terms.transition_of
    transferred withdrawn root statement_prefix encode to_le_bytes encode_compact_size
settlement_runs = refl

-- `collection_rejects_order_amount_recipient_and_backing_errors`
abbrev with_deposits : Deposit → Deposit → Collection
with_deposits d e = record collection { deposits = record { at0 = d; at1 = e } }

swapped_deposits : apply_collection toy (with_deposits deposit_b deposit_a) ≡ err deposit_order
unfolding apply_collection validate check_key bytes_eq bytes_lt require_backing backing
    checked_add_u64 encode to_le_bytes
swapped_deposits = refl

zero_deposit :
    apply_collection toy (with_deposits (record deposit_a { value = 0 }) deposit_b)
    ≡ err invalid_deposit
unfolding apply_collection validate check_key bytes_eq bytes_lt require_backing backing
    checked_add_u64 encode to_le_bytes credit_all credit
zero_deposit = refl

unknown_recipient :
    apply_collection toy (with_deposits (record deposit_a { recipient_id = 3 }) deposit_b)
    ≡ err invalid_recipient
unfolding apply_collection validate check_key bytes_eq bytes_lt require_backing backing
    checked_add_u64 encode to_le_bytes credit_all credit
unknown_recipient = refl

wrong_backing :
    apply_collection toy (record collection { old_backing = 1_001 }) ≡ err invalid_backing
unfolding apply_collection validate check_key bytes_eq require_backing backing checked_add_u64
wrong_backing = refl

-- `compact_size_boundaries_are_canonical`
compact_size_boundaries :
    (encode_compact_size 0xfc ≡ 0xfc ∷ [])
    × (encode_compact_size 0xfd ≡ 0xfd ∷ 0xfd ∷ 0x00 ∷ [])
    × (encode_compact_size 0x1_0000 ≡ 0xfe ∷ 0x00 ∷ 0x00 ∷ 0x01 ∷ 0x00 ∷ [])
    × (encode_compact_size 0x1_0000_0000
        ≡ 0xff ∷ 0x00 ∷ 0x00 ∷ 0x00 ∷ 0x00 ∷ 0x01 ∷ 0x00 ∷ 0x00 ∷ 0x00 ∷ [])
unfolding encode_compact_size to_le_bytes
compact_size_boundaries = (refl, refl, refl, refl)
