-- ===== src/Fixtures.antt =====
-- The module `fixtures` of crates/protocol/src/lib.rs: the keys and the two inputs that the tests and
-- the prover host share.
pub mod Accepted
use coins_gsr_v.Base.{ℕ, [], ◌∷◌, ◌++◌, replicate, Array3, map_array, Result, ok, ◌>>=◌, expect}
use coins_gsr_v.Bytes.{Bytes}
use coins_gsr_v.Crates.{Coins, Transaction}
use coins_gsr_v.Protocol.{
  AccountState, OutPoint, Deposit, Collection, Settlement, Transition, reserve,
}
use coins_gsr_v.Protocol
use coins_gsr_v.Account.{zero_state}
use coins_gsr_v.Message.{scoped_transfer_message, withdrawal_message}
use coins_gsr_v.Collect.{apply_collection}

-- What the fixtures take from `coins_crypto` to sign.
pub record Signer : Type 1 where
  pub SecretKey : Type 0
  -- `SecretKey(Fr::from(value))`
  pub secret_key : ℕ → SecretKey
  -- `G1(secret.public_key())`
  pub public_key : SecretKey → Bytes
  -- `sign(&secret, message)`
  pub sign : SecretKey → Bytes → Bytes

module _ (signer : Signer) where
  abbrev pub secrets : Array3 signer.SecretKey
  secrets = map_array signer.secret_key (record { at0 = 11; at1 = 12; at2 = 13 })

  abbrev pub public : Array3 Bytes
  public = map_array signer.public_key secrets

  module _ (coins : Coins) where
    unfoldable pub fixture_collection : Result Protocol.Error Collection
    fixture_collection = do
      state ← expect (zero_state coins public)
      ok (record {
        bridge_id = replicate 32 0x42;
        bridge_prevout = record { txid = replicate 32 0x31; vout = 0 };
        old_state = state;
        old_backing = reserve;
        deposits = record {
          at0 = record {
            outpoint = record { txid = replicate 32 0x41; vout = 1 };
            value = 120_000;
            recipient_id = 0;
          };
          at1 = record {
            outpoint = record { txid = replicate 32 0x52; vout = 2 };
            value = 80_000;
            recipient_id = 1;
          };
        };
      })

    unfoldable pub fixture_settlement : Result Protocol.Error Settlement
    fixture_settlement = do
      input ← fixture_collection
      collected ← expect (apply_collection coins input)
      let transfer : Transaction = record {
        sender_id = 0;
        recipient_pk = public.at1;
        token_id = coins.native_token_id;
        amount = 50_000;
        fee = 1;
      }
      let native_message : Bytes =
          coins.message_to_sign transfer collected.new_state.accounts.at0.nonce
      let bridge_id : Bytes = replicate 32 0x42
      let destination : Bytes = (0x51 ∷ 0x20 ∷ []) ++ replicate 32 0x77
      withdrawal ← expect (withdrawal_message bridge_id 0 60_000 destination)
      ok (record {
        bridge_id = bridge_id;
        bridge_prevout = record { txid = replicate 32 0x61; vout = 0 };
        old_backing = collected.new_backing;
        old_state = collected.new_state;
        transfer = transfer;
        transfer_signature = signer.sign secrets.at0 native_message;
        scoped_transfer_signature =
            signer.sign secrets.at0 (scoped_transfer_message coins bridge_id native_message);
        withdrawal_nonce = 0;
        withdrawal_amount = 60_000;
        withdrawal_destination = destination;
        withdrawal_signature = signer.sign secrets.at1 withdrawal;
      })
