-- ===== src/Settle/Terms.antt =====
-- The terms of a settlement: what it must satisfy, and the transition that it stands for.
use coins_gsr_v.Base.{ℕ, ◌+◌, ◌-◌, ◌≤◌, ◌≡◌, true, [], ◌∷◌, ok}
use coins_gsr_v.Bytes.{Bytes, IsU32, IsU64, to_le_bytes, extend_all}
use coins_gsr_v.CompactSize.{encode_compact_size}
use coins_gsr_v.Crates.{Coins, Build, Transaction}
use coins_gsr_v.Protocol.{AccountState, Settlement, Transition, Action}
use coins_gsr_v.Account.{root}
use coins_gsr_v.Account.Backing.{total}
use coins_gsr_v.Account.Validity.{HasValidKeys}
use coins_gsr_v.Message.{statement_prefix, scoped_transfer_message}
use coins_gsr_v.Message.Widths.{IsPayout, withdrawal_bytes}
use coins_gsr_v.Signature.{valid_signature}

-- The two messages that account 0 signs.
abbrev pub native_message : Coins → Settlement → Bytes
native_message coins i = coins.message_to_sign i.transfer i.old_state.accounts.at0.nonce

abbrev pub scoped_message : Coins → Settlement → Bytes
scoped_message coins i = scoped_transfer_message coins i.bridge_id (native_message coins i)

-- The message that account 1 signs, with the nonce that the account has.
abbrev pub payout_message : Settlement → Bytes
payout_message i =
    withdrawal_bytes i.bridge_id i.withdrawal_nonce i.withdrawal_amount i.withdrawal_destination

-- What a settlement must satisfy.
pub record IsAcceptable (coins : Coins) (build : Build coins) (i : Settlement) : Type 0 where
  pub keys : HasValidKeys coins i.old_state
  pub backed : total i.old_state ≡ i.old_backing
  pub backing_fits : IsU64 i.old_backing
  pub from_sender : i.transfer.sender_id ≡ 0
  pub to_recipient : i.transfer.recipient_pk ≡ i.old_state.accounts.at1.key
  pub native_token : i.transfer.token_id ≡ coins.native_token_id
  pub transfer_signed :
      valid_signature build i.old_state.accounts.at0.key
        (native_message coins i)
        i.transfer_signature
      ≡ ok true
  pub scoped_signed :
      valid_signature build i.old_state.accounts.at0.key
        (scoped_message coins i)
        i.scoped_transfer_signature
      ≡ ok true
  pub transfer_covered : i.transfer.amount + i.transfer.fee ≤ i.old_state.accounts.at0.balance
  pub sender_nonce_fits : IsU32 (i.old_state.accounts.at0.nonce + 1)
  pub nonce_current : i.withdrawal_nonce ≡ i.old_state.accounts.at1.nonce
  pub payout : IsPayout i.withdrawal_amount i.withdrawal_destination
  pub withdrawal_signed :
      valid_signature build i.old_state.accounts.at1.key (payout_message i) i.withdrawal_signature
      ≡ ok true
  pub withdrawal_covered :
      i.withdrawal_amount ≤ i.old_state.accounts.at1.balance + i.transfer.amount
  pub recipient_nonce_fits : IsU32 (i.old_state.accounts.at1.nonce + 1)

-- The state after the transfer, and after the withdrawal.
unfoldable pub transferred : AccountState → Transaction → AccountState
transferred s x = record {
  accounts = record {
    at0 = record s.accounts.at0 {
      balance = s.accounts.at0.balance - (x.amount + x.fee);
      nonce = s.accounts.at0.nonce + 1;
    };
    at1 = record s.accounts.at1 { balance = s.accounts.at1.balance + x.amount };
    at2 = record s.accounts.at2 { balance = s.accounts.at2.balance + x.fee };
  };
}

unfoldable pub withdrawn : AccountState → ℕ → AccountState
withdrawn s amount = record {
  accounts = record s.accounts {
    at1 = record s.accounts.at1 {
      balance = s.accounts.at1.balance - amount;
      nonce = s.accounts.at1.nonce + 1;
    };
  };
}

abbrev pub state_after : Settlement → AccountState
state_after i = withdrawn (transferred i.old_state i.transfer) i.withdrawal_amount

abbrev pub backing_after : Settlement → ℕ
backing_after i = i.old_backing - i.withdrawal_amount

-- The transition that a settlement stands for.
unfoldable pub transition_of : Coins → Settlement → Transition
transition_of coins i = record {
  new_state = state_after i;
  old_root = root coins i.old_state;
  new_root = root coins (state_after i);
  new_backing = backing_after i;
  statement = extend_all (
      statement_prefix Action.transfer_withdraw i.bridge_id i.bridge_prevout
        (root coins i.old_state) (root coins (state_after i)) i.old_backing (backing_after i)
      ∷ coins.digest (native_message coins i)
      ∷ coins.digest (scoped_message coins i)
      ∷ coins.digest (payout_message i)
      ∷ to_le_bytes 8 i.withdrawal_amount
      ∷ encode_compact_size 34
      ∷ i.withdrawal_destination
      ∷ []);
}
