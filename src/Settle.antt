-- ===== src/Settle.antt =====
-- `apply_settlement` of crates/protocol/src/lib.rs: one signed transfer, and one signed withdrawal
-- that leaves the bridge.
pub mod Terms
pub mod Outcome
pub mod Faults
pub mod Refusals
pub mod Builds
pub mod Binding
use coins_gsr_v.Base.{ℕ, Bool, not, ◌||◌, [], ◌∷◌, ◌==◌, length, Result, ok, ◌>>=◌, ◌>>◌, reject_if}
use coins_gsr_v.Bytes.{Bytes, bytes_eq, to_le_bytes, extend_all}
use coins_gsr_v.CompactSize.{encode_compact_size}
use coins_gsr_v.Crates.{Coins, Build, Transaction}
use coins_gsr_v.Protocol.{
  Error, arithmetic, unsupported_transfer, invalid_transfer_signature,
  invalid_scoped_transfer_signature, invalid_withdrawal, invalid_withdrawal_signature, Account,
  AccountState, Settlement, Transition, Action, transfer_sender_id,
}
use coins_gsr_v.Account.{
  checked_add_u64, checked_add_u32, checked_sub_u64, validate, root, require_backing,
}
use coins_gsr_v.Message.{statement_prefix, scoped_transfer_message, withdrawal_message}
use coins_gsr_v.Signature.{valid_signature}

-- The shape of a transfer: from account 0 to account 1's key, in the native token.
unfoldable pub is_unsupported : Coins → AccountState → Transaction → Bool
is_unsupported coins old_state transfer =
    not (transfer.sender_id == transfer_sender_id)
    || not (bytes_eq transfer.recipient_pk old_state.accounts.at1.key)
    || not (transfer.token_id == coins.native_token_id)

-- The debit of account 0 and the credits of accounts 1 and 2; account 0's nonce goes up.
unfoldable pub apply_transfer : AccountState → Transaction → Result Error AccountState
apply_transfer old_state transfer = do
  let sender : Account = old_state.accounts.at0
  transfer_debit ← checked_add_u64 transfer.amount transfer.fee
  sender_balance ← checked_sub_u64 sender.balance transfer_debit
  sender_nonce ← checked_add_u32 sender.nonce 1
  recipient_balance ← checked_add_u64 old_state.accounts.at1.balance transfer.amount
  fee_balance ← checked_add_u64 old_state.accounts.at2.balance transfer.fee
  ok (record {
    accounts = record {
      at0 = record sender { balance = sender_balance; nonce = sender_nonce };
      at1 = record old_state.accounts.at1 { balance = recipient_balance };
      at2 = record old_state.accounts.at2 { balance = fee_balance };
    };
  })

-- The debit of account 1; its nonce goes up.
unfoldable pub debit_withdrawal : AccountState → ℕ → Result Error AccountState
debit_withdrawal state amount = do
  let withdrawing : Account = state.accounts.at1
  balance ← checked_sub_u64 withdrawing.balance amount
  nonce ← checked_add_u32 withdrawing.nonce 1
  ok (record {
    accounts = record state.accounts {
      at1 = record withdrawing { balance = balance; nonce = nonce };
    };
  })

module _ (coins : Coins) (build : Build coins) where
  -- `if !valid_signature(..) { return Err(error); }`
  unfoldable pub require_signature : Bytes → Bytes → Bytes → Error → Result Error (Unit {0})
  require_signature key message signature error = do
    valid ← valid_signature build key message signature
    reject_if (not valid) error

  unfoldable pub apply_settlement : Settlement → Result Error Transition
  apply_settlement input = do
    validate coins input.old_state
    require_backing input.old_state input.old_backing
    reject_if (is_unsupported coins input.old_state input.transfer) unsupported_transfer
    let sender : Account = input.old_state.accounts.at0
    let native_message : Bytes = coins.message_to_sign input.transfer sender.nonce
    require_signature sender.key native_message input.transfer_signature invalid_transfer_signature
    let scoped_message : Bytes = scoped_transfer_message coins input.bridge_id native_message
    require_signature sender.key scoped_message input.scoped_transfer_signature
        invalid_scoped_transfer_signature
    transferred ← apply_transfer input.old_state input.transfer
    let withdrawing : Account = transferred.accounts.at1
    reject_if (not (input.withdrawal_nonce == withdrawing.nonce)) invalid_withdrawal
    withdrawal ←
        withdrawal_message input.bridge_id input.withdrawal_nonce input.withdrawal_amount
          input.withdrawal_destination
    require_signature withdrawing.key withdrawal input.withdrawal_signature
        invalid_withdrawal_signature
    new_state ← debit_withdrawal transferred input.withdrawal_amount
    new_backing ← checked_sub_u64 input.old_backing input.withdrawal_amount
    require_backing new_state new_backing
    let old_root : Bytes = root coins input.old_state
    let new_root : Bytes = root coins new_state
    ok (record {
      new_state = new_state;
      old_root = old_root;
      new_root = new_root;
      new_backing = new_backing;
      statement = extend_all (
          statement_prefix Action.transfer_withdraw input.bridge_id input.bridge_prevout old_root
            new_root input.old_backing new_backing
          ∷ coins.digest native_message
          ∷ coins.digest scoped_message
          ∷ coins.digest withdrawal
          ∷ to_le_bytes 8 input.withdrawal_amount
          ∷ encode_compact_size (length input.withdrawal_destination)
          ∷ input.withdrawal_destination
          ∷ []);
    })
