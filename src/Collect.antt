-- ===== src/Collect.antt =====
-- `apply_collection` of crates/protocol/src/lib.rs: two deposits are credited to their accounts.
pub mod Credit
pub mod Outcome
pub mod Faults
pub mod Binding
use coins_gsr_v.Base.{
  ℕ, Bool, not, List, [], ◌∷◌, ◌++◌, ◌==◌, both, get_elem?, set, Result, ok, ◌>>=◌, ◌>>◌, ok_or,
  or_panic, reject_if,
}
use coins_gsr_v.Bytes.{Bytes, bytes_lt, to_le_bytes, extend_all}
use coins_gsr_v.Crates.{Coins}
use coins_gsr_v.Protocol.{
  Error, invalid_deposit, deposit_order, invalid_recipient, Account, AccountState, OutPoint,
  Deposit, Collection, Transition, Action, collect_two,
}
use coins_gsr_v.Account.{checked_add_u64, validate, root, require_backing}
use coins_gsr_v.Message.{encode, statement_prefix}

-- One round of the loop over the deposits.
unfoldable pub credit : AccountState → Deposit → Result Error AccountState
credit state deposit = do
  reject_if (deposit.value == 0) invalid_deposit
  account ← ok_or (get_elem? state.accounts deposit.recipient_id) invalid_recipient
  balance ← checked_add_u64 account.balance deposit.value
  let account' : Account = record account { balance = balance }
  ok (record { accounts = set state.accounts deposit.recipient_id account' })

unfoldable pub credit_all : AccountState → List Deposit → Result Error AccountState
credit_all state [] = ok state
credit_all state (deposit ∷ rest) = do state' ← credit state deposit; credit_all state' rest

-- `try_fold` from `sum` on
unfoldable pub deposit_total : ℕ → List Deposit → Result Error ℕ
deposit_total sum [] = ok sum
deposit_total sum (deposit ∷ rest) = do
  sum' ← checked_add_u64 sum deposit.value
  deposit_total sum' rest

-- What a deposit adds to the statement; `accounts[recipient_id]` panics out of range.
unfoldable pub deposit_record : AccountState → Deposit → Result Error Bytes
deposit_record old_state deposit = do
  account ← or_panic (get_elem? old_state.accounts deposit.recipient_id)
  ok (
      extend_all (
        encode deposit.outpoint
        ∷ to_le_bytes 8 deposit.value
        ∷ to_le_bytes 4 deposit.recipient_id
        ∷ account.key
        ∷ []))

unfoldable pub extend_records : AccountState → Bytes → List Deposit → Result Error Bytes
extend_records old_state statement [] = ok statement
extend_records old_state statement (deposit ∷ rest) = do
  entry ← deposit_record old_state deposit
  extend_records old_state (statement ++ entry) rest

module _ (coins : Coins) where
  unfoldable pub apply_collection : Collection → Result Error Transition
  apply_collection input = do
    validate coins input.old_state
    require_backing input.old_state input.old_backing
    reject_if
        (not (bytes_lt (encode input.deposits.at0.outpoint) (encode input.deposits.at1.outpoint)))
        deposit_order
    new_state ← credit_all input.old_state (both input.deposits)
    total ← deposit_total 0 (both input.deposits)
    new_backing ← checked_add_u64 input.old_backing total
    require_backing new_state new_backing
    let old_root : Bytes = root coins input.old_state
    let new_root : Bytes = root coins new_state
    statement ←
        extend_records input.old_state
          (statement_prefix collect_two input.bridge_id input.bridge_prevout old_root new_root
            input.old_backing new_backing)
          (both input.deposits)
    ok (record {
      new_state = new_state;
      old_root = old_root;
      new_root = new_root;
      new_backing = new_backing;
      statement = statement;
    })
