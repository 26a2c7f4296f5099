-- ===== src/Settle/Outcome.antt =====
-- When `apply_settlement` accepts, and the transition that it then makes.
use coins_gsr_v.Base.{
  ◌∙◌, ℕ, ◌+◌, ◌-◌, ◌≤◌, ◌≡◌, ◌↔◌, refl, true, false, not, ◌==◌, ok, >>=-eq-ok, reject_if, arith,
}
use coins_gsr_v.Bytes.{Bytes, IsU32, IsU64}
use coins_gsr_v.Bytes.Order.{bytes_eq_iff}
use coins_gsr_v.Crates.{Coins, Build, Transaction}
use coins_gsr_v.Protocol.{
  Error, AccountState, Settlement, Transition, invalid_withdrawal, unsupported_transfer,
}
use coins_gsr_v.Account.{
  checked_add_u64, checked_add_u32, checked_sub_u64, validate, require_backing,
}
use coins_gsr_v.Account.Backing.{total, require_backing-ok_iff}
use coins_gsr_v.Account.Validity.{validate-ok_iff}
use coins_gsr_v.Message.{withdrawal_message}
use coins_gsr_v.Message.Widths.{withdrawal_message-IsPayout, withdrawal_message-ok}
use coins_gsr_v.Signature.{valid_signature}
use coins_gsr_v.Settle.{
  is_unsupported, apply_transfer, debit_withdrawal, require_signature, apply_settlement,
}
use coins_gsr_v.Settle.Terms.{
  payout_message, IsAcceptable, transferred, withdrawn, state_after, backing_after, transition_of,
}

pub apply_transfer-ok_iff :
    (s t : AccountState) (x : Transaction)
    → IsU64 (total s)
    → (apply_transfer s x ≡ ok t) ↔ (
        (x.amount + x.fee ≤ s.accounts.at0.balance)
        × IsU32 (s.accounts.at0.nonce + 1)
        × (t ≡ transferred s x))
unfolding apply_transfer checked_add_u64 checked_add_u32 checked_sub_u64 transferred
apply_transfer-ok_iff s t x fits =
    (λ h. (ground arith, ground arith, ground arith), λ (covered, nonce_fits, t_is). ground arith)

pub debit_withdrawal-ok_iff :
    (s t : AccountState) (amount : ℕ)
    → (debit_withdrawal s amount ≡ ok t) ↔ (
        (amount ≤ s.accounts.at1.balance)
        × IsU32 (s.accounts.at1.nonce + 1)
        × (t ≡ withdrawn s amount))
unfolding debit_withdrawal checked_add_u32 checked_sub_u64 withdrawn
debit_withdrawal-ok_iff s t amount =
    (λ h. (ground arith, ground arith, ground arith), λ (covered, nonce_fits, t_is). ground arith)

pub is_unsupported-false_iff :
    (coins : Coins) (s : AccountState) (x : Transaction)
    → (is_unsupported coins s x ≡ false) ↔ (
        (x.sender_id ≡ 0)
        × (x.recipient_pk ≡ s.accounts.at1.key)
        × (x.token_id ≡ coins.native_token_id))
unfolding is_unsupported
is_unsupported-false_iff coins s x = ground (arith, bytes_eq_iff x.recipient_pk s.accounts.at1.key)

pub require_signature-ok_iff :
    {coins : Coins} (build : Build coins) (key message signature : Bytes) (error : Error)
    → (require_signature coins build key message signature error ≡ ok tt)
      ↔ (valid_signature build key message signature ≡ ok true)
unfolding require_signature
require_signature-ok_iff build key message signature error = ground arith

pub total-transferred :
    (s : AccountState) (x : Transaction)
    → x.amount + x.fee ≤ s.accounts.at0.balance
    → total (transferred s x) ≡ total s
unfolding transferred
total-transferred s x h = omega arith

pub total-withdrawn :
    (s : AccountState) (amount : ℕ)
    → amount ≤ s.accounts.at1.balance
    → total (withdrawn s amount) + amount ≡ total s
unfolding withdrawn
total-withdrawn s amount h = omega arith

pub checked_sub_u64-ok_iff : (a b n : ℕ) → (checked_sub_u64 a b ≡ ok n) ↔ ((b ≤ a) × (n ≡ a - b))
unfolding checked_sub_u64
checked_sub_u64-ok_iff a b n = ground arith

-- The withdrawing account after the transfer: its key and nonce are what they were.
pub at1-transferred :
    (s : AccountState) (x : Transaction)
    → ((transferred s x).accounts.at1.key ≡ s.accounts.at1.key)
      × ((transferred s x).accounts.at1.nonce ≡ s.accounts.at1.nonce)
      × ((transferred s x).accounts.at1.balance ≡ s.accounts.at1.balance + x.amount)
unfolding transferred
at1-transferred s x = (refl, refl, refl)

module _ (coins : Coins) (build : Build coins) (i : Settlement) where
  abbrev old : AccountState
  old = i.old_state

  -- An acceptable settlement makes its transition.
  pub apply_settlement-IsAcceptable :
      IsAcceptable coins build i → apply_settlement coins build i ≡ ok (transition_of coins i)
  unfolding apply_settlement transition_of
  apply_settlement-IsAcceptable h =
      let withdrawing = (transferred old i.transfer).accounts.at1 in
      let (key, nonce, balance) = at1-transferred old i.transfer in
      let after_transfer = total-transferred old i.transfer h.transfer_covered in
      let covered : i.withdrawal_amount ≤ (transferred old i.transfer).accounts.at1.balance =
        omega (arith, h.withdrawal_covered) in
      let after = total-withdrawn (transferred old i.transfer) i.withdrawal_amount covered in
      let paid : i.withdrawal_amount ≤ i.old_backing = omega (arith, h.backed) in
      let current : (i.withdrawal_nonce == (transferred old i.transfer).accounts.at1.nonce) ≡ true =
        ground (arith, h.nonce_current) in
      let payout_signed : valid_signature build withdrawing.key (payout_message i)
            i.withdrawal_signature
          ≡ ok true =
        rw key h.withdrawal_signed in
      rw (
        (validate-ok_iff coins old).1 h.keys,
        (require_backing-ok_iff old i.old_backing).1 (h.backed, h.backing_fits),
        (is_unsupported-false_iff coins old i.transfer).1
            (h.from_sender, h.to_recipient, h.native_token),
        (require_signature-ok_iff build _ _ _ _).1 h.transfer_signed,
        (require_signature-ok_iff build _ _ _ _).1 h.scoped_signed,
        (apply_transfer-ok_iff old _ i.transfer (rw h.backed h.backing_fits)).1
            (h.transfer_covered, h.sender_nonce_fits, refl),
        current,
        withdrawal_message-IsPayout _ _ _ _ h.payout,
        (require_signature-ok_iff build _ _ _ _).1 payout_signed,
        (debit_withdrawal-ok_iff (transferred old i.transfer) _ i.withdrawal_amount).1
            (covered, rw nonce h.recipient_nonce_fits, refl),
        (checked_sub_u64-ok_iff i.old_backing i.withdrawal_amount _).1 (paid, refl),
        (require_backing-ok_iff (state_after i) (backing_after i)).1
            (omega (arith, h.backed, h.backing_fits), omega (arith, h.backing_fits)),
        h.payout.width,
      )

  -- Nothing else is accepted, and an accepted settlement makes no other transition.
  pub apply_settlement-ok :
      {t : Transition}
      → apply_settlement coins build i ≡ ok t
      → IsAcceptable coins build i × (t ≡ transition_of coins i)
  unfolding apply_settlement
  apply_settlement-ok {t} h =
      let (_, valid, h1) = >>=-eq-ok (validate coins old) _ h in
      let (_, backed, h2) = >>=-eq-ok (require_backing old i.old_backing) _ h1 in
      let (_, shape, h3) =
        >>=-eq-ok (reject_if (is_unsupported coins old i.transfer) unsupported_transfer) _ h2 in
      let (_, signed, h4) = >>=-eq-ok (require_signature coins build _ _ _ _) _ h3 in
      let (_, scoped, h5) = >>=-eq-ok (require_signature coins build _ _ _ _) _ h4 in
      let (s, moved, h6) = >>=-eq-ok (apply_transfer old i.transfer) _ h5 in
      let (_, current, h7) =
        >>=-eq-ok (reject_if (not (i.withdrawal_nonce == s.accounts.at1.nonce)) invalid_withdrawal)
          _ h6 in
      let (m, message, h8) = >>=-eq-ok (withdrawal_message _ _ _ _) _ h7 in
      let (_, payout_signed, h9) = >>=-eq-ok (require_signature coins build _ _ _ _) _ h8 in
      let (u, debited, h10) = >>=-eq-ok (debit_withdrawal s i.withdrawal_amount) _ h9 in
      let (backed_is, fits) = (require_backing-ok_iff old i.old_backing).0 backed in
      let (covered, nonce_fits, s_is) =
        (apply_transfer-ok_iff old s i.transfer (rw backed_is fits)).0 moved in
      let (key, nonce, balance) = at1-transferred old i.transfer in
      let (withdrawal_covered, nonce_fits', u_is) =
        (debit_withdrawal-ok_iff s u i.withdrawal_amount).0 debited in
      let s_key : s.accounts.at1.key ≡ old.accounts.at1.key = rw s_is key in
      let s_nonce : s.accounts.at1.nonce ≡ old.accounts.at1.nonce = rw s_is nonce in
      let s_balance : s.accounts.at1.balance ≡ old.accounts.at1.balance + i.transfer.amount =
        rw s_is balance in
      let same_nonce : i.withdrawal_nonce ≡ s.accounts.at1.nonce = ground arith in
      let signature : valid_signature build s.accounts.at1.key m i.withdrawal_signature ≡ ok true =
        (require_signature-ok_iff build s.accounts.at1.key m _ _).0 payout_signed in
      let (payout, m_is) = withdrawal_message-ok _ _ _ _ message in
      let (from, to, token) = (is_unsupported-false_iff coins old i.transfer).0 (ground arith) in
      let acceptable : IsAcceptable coins build i = record {
        keys = (validate-ok_iff coins old).0 valid;
        backed = backed_is;
        backing_fits = fits;
        from_sender = from;
        to_recipient = to;
        native_token = token;
        transfer_signed = (require_signature-ok_iff build _ _ _ _).0 signed;
        scoped_signed = (require_signature-ok_iff build _ _ _ _).0 scoped;
        transfer_covered = covered;
        sender_nonce_fits = nonce_fits;
        nonce_current = same_nonce ∙ s_nonce;
        payout = payout;
        withdrawal_signed = rw (s_key, m_is) at signature;
        withdrawal_covered = omega arith;
        recipient_nonce_fits = omega arith;
      } in
      (acceptable, cc (h, apply_settlement-IsAcceptable acceptable))

  -- `apply_settlement` succeeds exactly for an acceptable settlement, and then makes the transition
  -- that it stands for: account 0 pays the transfer and the fee, account 1 gains the transfer and
  -- loses the withdrawal, account 2 gains the fee, the nonces of accounts 0 and 1 go up by one, and
  -- the backing falls by the withdrawal.
  pub apply_settlement-ok_iff :
      (t : Transition)
      → (apply_settlement coins build i ≡ ok t)
        ↔ (IsAcceptable coins build i × (t ≡ transition_of coins i))
  apply_settlement-ok_iff t =
      (λ h. apply_settlement-ok h, λ (a, t_is). rw t_is (apply_settlement-IsAcceptable a))
