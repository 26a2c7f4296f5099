-- ===== src/UnitTests/Settlements.antt =====
-- The two tests of settlements in crates/protocol/src/lib.rs.
pub mod Passed
pub mod Rejected
use coins_gsr_v.Base.{ℕ, [], ◌∷◌, ◌++◌, ◌==◌, replicate, ok, ◌>>=◌, ◌>>◌, expect, or_panic, assert}
use coins_gsr_v.Bytes.{Bytes}
use coins_gsr_v.Bytes.Flip.{flip_at}
use coins_gsr_v.Crates.{Coins, portable, Transaction}
use coins_gsr_v.Protocol.{
  AccountState, Account, Settlement, invalid_transfer_signature, invalid_scoped_transfer_signature,
  invalid_withdrawal_signature, arithmetic,
}
use coins_gsr_v.Account.{zero_state, backing}
use coins_gsr_v.Message.{scoped_transfer_message, withdrawal_message}
use coins_gsr_v.Settle.{apply_settlement}
use coins_gsr_v.Fixtures.{Signer}
use coins_gsr_v.UnitTests.{Test, assert_err, keys}

-- `old_state.accounts[0].balance = balance`, and the same of account 1
abbrev pub with_balance0 : AccountState → ℕ → AccountState
with_balance0 s balance = record {
  accounts = record s.accounts { at0 = record s.accounts.at0 { balance = balance } };
}

abbrev pub with_balance1 : AccountState → ℕ → AccountState
with_balance1 s balance = record {
  accounts = record s.accounts { at1 = record s.accounts.at1 { balance = balance } };
}

abbrev pub destination : Bytes
destination = (0x51 ∷ 0x20 ∷ []) ++ replicate 32 0x77

abbrev pub bridge_id : Bytes
bridge_id = replicate 32 0x42

module _ (signer : Signer) (coins : Coins) where
  abbrev pub transfer : ℕ → Transaction
  transfer token_id = record {
    sender_id = 0;
    recipient_pk = (keys signer).1.at1;
    token_id = token_id;
    amount = 50_000;
    fee = 1;
  }

  -- The signed settlement of both tests, over its state, token and withdrawal.
  abbrev pub signed : AccountState → ℕ → ℕ → ℕ → Bytes → Settlement
  signed old_state old_backing token_id amount withdrawal =
      let native : Bytes = coins.message_to_sign (transfer token_id) 0 in
      record {
        bridge_id = bridge_id;
        bridge_prevout = record { txid = replicate 32 0x44; vout = 0 };
        old_backing = old_backing;
        old_state = old_state;
        transfer = transfer token_id;
        transfer_signature = signer.sign (keys signer).0.at0 native;
        scoped_transfer_signature =
            signer.sign (keys signer).0.at0 (scoped_transfer_message coins bridge_id native);
        withdrawal_nonce = 0;
        withdrawal_amount = amount;
        withdrawal_destination = destination;
        withdrawal_signature = signer.sign (keys signer).0.at1 withdrawal;
      }

  unfoldable pub settlement_validates_native_and_bridge_scoped_authorizations : Test
  settlement_validates_native_and_bridge_scoped_authorizations = do
    zero ← expect (zero_state coins (keys signer).1)
    let old_state : AccountState = with_balance1 (with_balance0 zero 120_000) 80_000
    withdrawal ← expect (withdrawal_message bridge_id 0 60_000 destination)
    old_backing ← expect (backing old_state)
    let input : Settlement = signed old_state old_backing coins.native_token_id 60_000 withdrawal
    transition ← expect (apply_settlement coins portable input)
    assert (transition.new_state.accounts.at0.balance == 69_999)
    assert (transition.new_state.accounts.at0.nonce == 1)
    assert (transition.new_state.accounts.at1.balance == 70_000)
    assert (transition.new_state.accounts.at1.nonce == 1)
    assert (transition.new_state.accounts.at2.balance == 1)
    assert (transition.new_backing == 141_000)
    other_bridge ← or_panic (flip_at 0 input.bridge_id)
    message ← expect (
        withdrawal_message other_bridge input.withdrawal_nonce input.withdrawal_amount
          input.withdrawal_destination)
    let replay : Settlement = record input {
      bridge_id = other_bridge;
      withdrawal_signature = signer.sign (keys signer).0.at1 message;
    }
    assert_err (apply_settlement coins portable replay) invalid_scoped_transfer_signature

  unfoldable pub settlement_rejects_signature_payout_and_arithmetic_mutations : Test
  settlement_rejects_signature_payout_and_arithmetic_mutations = do
    zero ← expect (zero_state coins (keys signer).1)
    let old_state : AccountState = with_balance0 zero 100_000
    withdrawal ← expect (withdrawal_message bridge_id 0 40_000 destination)
    old_backing ← expect (backing old_state)
    let base : Settlement = signed old_state old_backing 0 40_000 withdrawal
    forged ← or_panic (flip_at 0 base.transfer_signature)
    assert_err (apply_settlement coins portable (record base { transfer_signature = forged }))
        invalid_transfer_signature
    other_destination ← or_panic (flip_at 3 base.withdrawal_destination)
    assert_err
        (apply_settlement coins portable
          (record base { withdrawal_destination = other_destination }))
        invalid_withdrawal_signature
    message ←
        expect (
          withdrawal_message base.bridge_id base.withdrawal_nonce 60_000
            base.withdrawal_destination)
    assert_err
        (apply_settlement coins portable (record base {
          withdrawal_amount = 60_000;
          withdrawal_signature = signer.sign (keys signer).0.at1 message;
        }))
        arithmetic
