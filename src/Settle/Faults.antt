-- ===== src/Settle/Faults.antt =====
-- Why `apply_settlement` fails: every error has its reason in the input, and there is no panic.
use coins_gsr_v.Base.{
  ◌-◌, ◌+◌, ◌<◌, ◌≤◌, ◌≡◌, ◌≢◌, ◌⊎◌, inl, inr, refl, false, not, ◌==◌, ok, Blames, Blames-bind,
  Blames-reject_if, reject_if, arith, Bool-cases,
}
use coins_gsr_v.Bytes.{Bytes, IsU64, limit}
use coins_gsr_v.Base.{Blames-weaken}
use coins_gsr_v.Crates.{Coins, Build}
use coins_gsr_v.Protocol.{
  Error, invalid_account_key, duplicate_account_key, invalid_backing, arithmetic,
  unsupported_transfer, invalid_transfer_signature, invalid_scoped_transfer_signature,
  invalid_withdrawal, invalid_withdrawal_signature, AccountState, Settlement,
}
use coins_gsr_v.Account.{
  checked_add_u64, checked_add_u32, checked_sub_u64, validate, require_backing,
}
use coins_gsr_v.Account.Backing.{total, require_backing-total, require_backing-ok_iff}
use coins_gsr_v.Account.Validity.{KeyFault, validate-KeyFault}
use coins_gsr_v.Message.{withdrawal_message}
use coins_gsr_v.Message.Widths.{
  IsPayout, withdrawal_message-refused, withdrawal_message-ok, withdrawal_message-IsPayout,
  IsPayout-cases,
}
use coins_gsr_v.Signature.{valid_signature}
use coins_gsr_v.Signature.Total.{IsSound, valid_signature-Returns}
use coins_gsr_v.Settle.{
  is_unsupported, apply_transfer, debit_withdrawal, require_signature, apply_settlement,
}
use coins_gsr_v.Settle.Terms.{native_message, scoped_message, payout_message, transferred}
use coins_gsr_v.Settle.Outcome.{
  apply_transfer-ok_iff, debit_withdrawal-ok_iff, checked_sub_u64-ok_iff, is_unsupported-false_iff,
  total-transferred, total-withdrawn, at1-transferred,
}

-- A transfer that `apply_settlement` supports.
abbrev pub IsSupported : Coins → Settlement → Type 0
IsSupported coins i =
    (i.transfer.sender_id ≡ 0)
    × (i.transfer.recipient_pk ≡ i.old_state.accounts.at1.key)
    × (i.transfer.token_id ≡ coins.native_token_id)

-- What each error says of the input. The errors of collections say nothing, since they do not occur.
abbrev pub Fault : {coins : Coins} → Build coins → Settlement → Error → Type 0
Fault {coins} build i invalid_account_key = KeyFault coins i.old_state invalid_account_key
Fault {coins} build i duplicate_account_key = KeyFault coins i.old_state duplicate_account_key
Fault build i invalid_backing = total i.old_state ≢ i.old_backing
Fault {coins} build i unsupported_transfer = ¬ (IsSupported coins i)
Fault {coins} build i invalid_transfer_signature =
    valid_signature build i.old_state.accounts.at0.key (native_message coins i) i.transfer_signature
    ≡ ok false
Fault {coins} build i invalid_scoped_transfer_signature =
    valid_signature build i.old_state.accounts.at0.key (scoped_message coins i)
      i.scoped_transfer_signature
    ≡ ok false
Fault build i invalid_withdrawal =
    (i.withdrawal_nonce ≢ i.old_state.accounts.at1.nonce)
    ⊎ (¬ (IsPayout i.withdrawal_amount i.withdrawal_destination))
Fault build i invalid_withdrawal_signature =
    valid_signature build i.old_state.accounts.at1.key (payout_message i) i.withdrawal_signature
    ≡ ok false
Fault build i arithmetic =
    (limit 8 ≤ total i.old_state)
    ⊎ ((i.old_state.accounts.at0.balance < i.transfer.amount + i.transfer.fee)
        ⊎ ((limit 4 ≤ i.old_state.accounts.at0.nonce + 1)
            ⊎ ((i.old_state.accounts.at1.balance + i.transfer.amount < i.withdrawal_amount)
                ⊎ (limit 4 ≤ i.old_state.accounts.at1.nonce + 1))))
Fault build i _ = ⊥

module _ {coins : Coins} (build : Build coins) (i : Settlement) (sound : IsSound build) where
  abbrev old : AccountState
  old = i.old_state

  key_fault : (x : Error) → KeyFault coins old x → Fault build i x
  key_fault invalid_account_key h = h
  key_fault duplicate_account_key h = h
  key_fault _ h = absurd h

  validate-Fault : Blames (Fault build i) (validate coins old)
  validate-Fault = Blames-weaken _ _ (validate coins old) key_fault (validate-KeyFault coins old)

  require_backing-Fault : Blames (Fault build i) (require_backing old i.old_backing)
  require_backing-Fault = rw (require_backing-total old i.old_backing) (ground arith)

  -- A signature check that fails has answered no.
  require_signature-Fault :
      (P : Error → Type 0) (key message signature : Bytes) (error : Error)
      → (valid_signature build key message signature ≡ ok false → P error)
      → Blames P (require_signature coins build key message signature error)
  unfolding require_signature
  require_signature-Fault P key message signature error reason =
      let (answer, e) = valid_signature-Returns build key message signature sound in
      elim (Bool-cases answer) [
        | inl accepted ↦ rw (e, accepted) tt
        | inr refused ↦ rw (e, refused) (reason (rw refused at e))
      ]

  apply_transfer-Fault : IsU64 (total old) → Blames (Fault build i) (apply_transfer old i.transfer)
  unfolding apply_transfer checked_add_u64 checked_add_u32 checked_sub_u64
  apply_transfer-Fault fits = ground arith

  debit_withdrawal-Fault :
      (s : AccountState)
      → s ≡ transferred old i.transfer
      → Blames (Fault build i) (debit_withdrawal s i.withdrawal_amount)
  unfolding debit_withdrawal checked_add_u32 checked_sub_u64 transferred
  debit_withdrawal-Fault s s_is = rw s_is (ground arith)

  withdrawal_message-Fault : Blames (Fault build i) (
      withdrawal_message i.bridge_id i.withdrawal_nonce i.withdrawal_amount
        i.withdrawal_destination)
  withdrawal_message-Fault = elim (IsPayout-cases i.withdrawal_amount i.withdrawal_destination) [
    | inl payout ↦ rw (withdrawal_message-IsPayout _ _ _ _ payout) tt
    | inr refused ↦ rw (withdrawal_message-refused _ _ _ _ refused) (inr refused)
  ]

  shape-Fault :
      Blames (Fault build i) (reject_if (is_unsupported coins old i.transfer) unsupported_transfer)
  shape-Fault =
      Blames-reject_if (Fault build i) _ unsupported_transfer
        λ h supported. cc ((is_unsupported-false_iff coins old i.transfer).1 supported, h)

  -- The second half of `apply_settlement`, on the state `s` after the transfer.
  module _ (s : AccountState)
      (covered : i.transfer.amount + i.transfer.fee ≤ old.accounts.at0.balance)
      (s_is : s ≡ transferred old i.transfer) (backed : total old ≡ i.old_backing)
      (fits : IsU64 i.old_backing) where
    s_key : s.accounts.at1.key ≡ old.accounts.at1.key
    s_key = rw s_is (at1-transferred old i.transfer).0

    nonce-Fault :
        Blames
          (Fault build i)
          (reject_if (not (i.withdrawal_nonce == s.accounts.at1.nonce)) invalid_withdrawal)
    nonce-Fault =
        let same : s.accounts.at1.nonce ≡ old.accounts.at1.nonce =
          rw s_is (at1-transferred old i.transfer).1 in
        Blames-reject_if (Fault build i) _ invalid_withdrawal (λ h. inl (λ e. ground arith))

    signature-Fault :
        (m : Bytes)
        → m ≡ payout_message i
        → Blames (Fault build i) (
            require_signature coins build s.accounts.at1.key m i.withdrawal_signature
              invalid_withdrawal_signature)
    signature-Fault m m_is =
        require_signature-Fault _ s.accounts.at1.key m i.withdrawal_signature
          invalid_withdrawal_signature (λ e. rw (s_key, m_is) at e)

    -- What the withdrawal leaves is backed by what the bridge keeps, so both checks pass.
    backing_after_withdrawal :
        (u : AccountState)
        → debit_withdrawal s i.withdrawal_amount ≡ ok u
        → (i.withdrawal_amount ≤ i.old_backing) × (total u ≡ i.old_backing - i.withdrawal_amount)
    backing_after_withdrawal u debited =
        let (w, n, u_is) = (debit_withdrawal-ok_iff s u i.withdrawal_amount).0 debited in
        let kept : total s ≡ total old = rw s_is (total-transferred old i.transfer covered) in
        let left : total u + i.withdrawal_amount ≡ total s =
          rw u_is (total-withdrawn s i.withdrawal_amount w) in
        (omega arith, omega arith)

  -- `apply_settlement` never panics, in the accelerated build if the curve crates are compatible, and
  -- each error that it returns has the reason in its input that `Fault` gives for it;
  -- `invalid_backing` is always about the old backing.
  pub apply_settlement-Fault : Blames (Fault build i) (apply_settlement coins build i)
  unfolding apply_settlement
  apply_settlement-Fault = Blames-bind _ (validate coins old) _ validate-Fault λ _ valid.
      Blames-bind _ (require_backing old i.old_backing) _ require_backing-Fault λ _ backed.
        Blames-bind _ (reject_if (is_unsupported coins old i.transfer) unsupported_transfer) _
          shape-Fault
          λ _ shape.
            Blames-bind _
              (require_signature coins build old.accounts.at0.key (native_message coins i)
                i.transfer_signature invalid_transfer_signature)
              _
              (require_signature-Fault _ old.accounts.at0.key (native_message coins i)
                i.transfer_signature invalid_transfer_signature (λ e. e))
              λ _ signed.
                Blames-bind _
                  (require_signature coins build old.accounts.at0.key (scoped_message coins i)
                    i.scoped_transfer_signature invalid_scoped_transfer_signature)
                  _
                  (require_signature-Fault _ old.accounts.at0.key (scoped_message coins i)
                    i.scoped_transfer_signature invalid_scoped_transfer_signature (λ e. e))
                  λ _ scoped.
                    let (backed_is, fits) = (require_backing-ok_iff old i.old_backing).0 backed in
                    let total_fits : IsU64 (total old) = rw backed_is fits in
                    Blames-bind _ (apply_transfer old i.transfer) _
                      (apply_transfer-Fault total_fits)
                      λ s moved.
                        let (covered, nonce_fits, s_is) =
                          (apply_transfer-ok_iff old s i.transfer total_fits).0 moved in
                        Blames-bind _
                          (reject_if (not (i.withdrawal_nonce == s.accounts.at1.nonce))
                            invalid_withdrawal)
                          _ (nonce-Fault s covered s_is backed_is fits)
                          λ _ current.
                            Blames-bind _
                              (withdrawal_message i.bridge_id i.withdrawal_nonce i.withdrawal_amount
                                i.withdrawal_destination)
                              _ withdrawal_message-Fault
                              λ m message.
                                let m_is = (withdrawal_message-ok _ _ _ _ message).1 in
                                Blames-bind _
                                  (require_signature coins build s.accounts.at1.key m
                                    i.withdrawal_signature invalid_withdrawal_signature)
                                  _ (signature-Fault s covered s_is backed_is fits m m_is)
                                  λ _ payout_signed.
                                    Blames-bind _ (debit_withdrawal s i.withdrawal_amount) _
                                      (debit_withdrawal-Fault s s_is)
                                      λ u debited.
                                        let (paid, total_is) =
                                          backing_after_withdrawal s covered s_is backed_is fits u
                                            debited in
                                        rw
                                          (
                                            (checked_sub_u64-ok_iff i.old_backing
                                                  i.withdrawal_amount _).1
                                                (paid, refl),
                                            (require_backing-ok_iff u
                                                  (i.old_backing - i.withdrawal_amount)).1
                                                (total_is, omega arith),
                                          )
                                          tt
