-- ===== src/Settle/Refusals.antt =====
-- Which error `apply_settlement` returns for a bad signature or an uncovered withdrawal, where the
-- checks before it pass.
use coins_gsr_v.Base.{ℕ, ◌+◌, ◌≤◌, ◌<◌, ◌≡◌, refl, true, false, ◌==◌, ok, err, arith}
use coins_gsr_v.Bytes.{Bytes, IsU32, IsU64}
use coins_gsr_v.Crates.{Coins, Build}
use coins_gsr_v.Protocol.{
  Error, arithmetic, invalid_transfer_signature, invalid_scoped_transfer_signature,
  invalid_withdrawal_signature, AccountState, Settlement,
}
use coins_gsr_v.Account.{checked_sub_u64}
use coins_gsr_v.Account.Backing.{total, require_backing-ok_iff}
use coins_gsr_v.Account.Validity.{HasValidKeys, validate-ok_iff}
use coins_gsr_v.Message.Widths.{IsPayout, withdrawal_message-IsPayout}
use coins_gsr_v.Signature.{valid_signature}
use coins_gsr_v.Settle.{require_signature, debit_withdrawal, apply_settlement}
use coins_gsr_v.Settle.Terms.{native_message, scoped_message, payout_message, transferred}
use coins_gsr_v.Settle.Outcome.{
  apply_transfer-ok_iff, is_unsupported-false_iff, require_signature-ok_iff, at1-transferred,
}

-- What is checked before the first signature.
pub record IsChecked (coins : Coins) (i : Settlement) : Type 0 where
  pub keys : HasValidKeys coins i.old_state
  pub backed : total i.old_state ≡ i.old_backing
  pub backing_fits : IsU64 i.old_backing
  pub from_sender : i.transfer.sender_id ≡ 0
  pub to_recipient : i.transfer.recipient_pk ≡ i.old_state.accounts.at1.key
  pub native_token : i.transfer.token_id ≡ coins.native_token_id

-- What is checked before the signature of the withdrawal.
pub record IsTransferred (coins : Coins) (build : Build coins) (i : Settlement) : Type 0 where
  pub checked : IsChecked coins i
  pub transfer_signed :
      valid_signature build i.old_state.accounts.at0.key
        (native_message coins i)
        i.transfer_signature
      ≡ ok true
  pub scoped_signed :
      valid_signature build i.old_state.accounts.at0.key
        (scoped_message coins i)
        i.scoped_transfer_signature
      ≡ ok true
  pub transfer_covered : i.transfer.amount + i.transfer.fee ≤ i.old_state.accounts.at0.balance
  pub sender_nonce_fits : IsU32 (i.old_state.accounts.at0.nonce + 1)
  pub nonce_current : i.withdrawal_nonce ≡ i.old_state.accounts.at1.nonce
  pub payout : IsPayout i.withdrawal_amount i.withdrawal_destination

require_signature-refused :
    {coins : Coins} (build : Build coins) (key message signature : Bytes) (error : Error)
    → valid_signature build key message signature ≡ ok false
    → require_signature coins build key message signature error ≡ err error
unfolding require_signature
require_signature-refused build key message signature error h = rw h refl

debit_withdrawal-uncovered :
    (s : AccountState) (amount : ℕ)
    → s.accounts.at1.balance < amount
    → debit_withdrawal s amount ≡ err arithmetic
unfolding debit_withdrawal checked_sub_u64
debit_withdrawal-uncovered s amount h = ground arith

module _ (coins : Coins) (build : Build coins) (i : Settlement) where
  abbrev old : AccountState
  old = i.old_state

  -- The first bad signature of a transfer gives the error.
  pub transfer_refused :
      IsChecked coins i
      → valid_signature build old.accounts.at0.key (native_message coins i) i.transfer_signature
        ≡ ok false
      → apply_settlement coins build i ≡ err invalid_transfer_signature
  unfolding apply_settlement
  transfer_refused c refused = rw (
    (validate-ok_iff coins old).1 c.keys,
    (require_backing-ok_iff old i.old_backing).1 (c.backed, c.backing_fits),
    (is_unsupported-false_iff coins old i.transfer).1
        (c.from_sender, c.to_recipient, c.native_token),
    require_signature-refused build old.accounts.at0.key (native_message coins i)
        i.transfer_signature invalid_transfer_signature refused,
  )

  pub scoped_refused :
      IsChecked coins i
      → valid_signature build old.accounts.at0.key (native_message coins i) i.transfer_signature
        ≡ ok true
      → valid_signature build old.accounts.at0.key
          (scoped_message coins i)
          i.scoped_transfer_signature
        ≡ ok false
      → apply_settlement coins build i ≡ err invalid_scoped_transfer_signature
  unfolding apply_settlement
  scoped_refused c signed refused = rw (
    (validate-ok_iff coins old).1 c.keys,
    (require_backing-ok_iff old i.old_backing).1 (c.backed, c.backing_fits),
    (is_unsupported-false_iff coins old i.transfer).1
        (c.from_sender, c.to_recipient, c.native_token),
    (require_signature-ok_iff build _ _ _ _).1 signed,
    require_signature-refused build old.accounts.at0.key (scoped_message coins i)
        i.scoped_transfer_signature invalid_scoped_transfer_signature refused,
  )

  module _ (t : IsTransferred coins build i) where
    current : (i.withdrawal_nonce == (transferred old i.transfer).accounts.at1.nonce) ≡ true
    current = ground (arith, t.nonce_current, (at1-transferred old i.transfer).1)

    pub withdrawal_refused :
        valid_signature build old.accounts.at1.key (payout_message i) i.withdrawal_signature
          ≡ ok false
        → apply_settlement coins build i ≡ err invalid_withdrawal_signature
    unfolding apply_settlement
    withdrawal_refused refused =
        let (key, nonce, balance) = at1-transferred old i.transfer in
        rw (
          (validate-ok_iff coins old).1 t.checked.keys,
          (require_backing-ok_iff old i.old_backing).1 (t.checked.backed, t.checked.backing_fits),
          (is_unsupported-false_iff coins old i.transfer).1
              (t.checked.from_sender, t.checked.to_recipient, t.checked.native_token),
          (require_signature-ok_iff build _ _ _ _).1 t.transfer_signed,
          (require_signature-ok_iff build _ _ _ _).1 t.scoped_signed,
          (apply_transfer-ok_iff old _ i.transfer (rw t.checked.backed t.checked.backing_fits)).1
              (t.transfer_covered, t.sender_nonce_fits, refl),
          current,
          withdrawal_message-IsPayout _ _ _ _ t.payout,
          require_signature-refused build (transferred old i.transfer).accounts.at1.key
              (payout_message i) i.withdrawal_signature invalid_withdrawal_signature
              (rw key refused),
        )

    pub withdrawal_uncovered :
        valid_signature build old.accounts.at1.key (payout_message i) i.withdrawal_signature
          ≡ ok true
        → old.accounts.at1.balance + i.transfer.amount < i.withdrawal_amount
        → apply_settlement coins build i ≡ err arithmetic
    unfolding apply_settlement
    withdrawal_uncovered signed uncovered =
        let (key, nonce, balance) = at1-transferred old i.transfer in
        let payout_signed : valid_signature build (transferred old i.transfer).accounts.at1.key
              (payout_message i) i.withdrawal_signature
            ≡ ok true =
          rw key signed in
        rw (
          (validate-ok_iff coins old).1 t.checked.keys,
          (require_backing-ok_iff old i.old_backing).1 (t.checked.backed, t.checked.backing_fits),
          (is_unsupported-false_iff coins old i.transfer).1
              (t.checked.from_sender, t.checked.to_recipient, t.checked.native_token),
          (require_signature-ok_iff build _ _ _ _).1 t.transfer_signed,
          (require_signature-ok_iff build _ _ _ _).1 t.scoped_signed,
          (apply_transfer-ok_iff old _ i.transfer (rw t.checked.backed t.checked.backing_fits)).1
              (t.transfer_covered, t.sender_nonce_fits, refl),
          current,
          withdrawal_message-IsPayout _ _ _ _ t.payout,
          (require_signature-ok_iff build _ _ _ _).1 payout_signed,
          debit_withdrawal-uncovered (transferred old i.transfer) i.withdrawal_amount (omega arith),
        )
