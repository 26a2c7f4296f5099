-- ===== src/Examples/Inputs.antt =====
-- The inputs of the tests in crates/protocol/src/lib.rs, over the stand-ins.
use coins_gsr_v.Base.{ℕ, ◌∷◌, replicate, Array3}
use coins_gsr_v.Bytes.{Bytes}
use coins_gsr_v.Crates.{Transaction}
use coins_gsr_v.Protocol.{Account, AccountState, Deposit, Collection, Settlement, Transition}
use coins_gsr_v.Account.Validity.{zero_account}
use coins_gsr_v.Account.{root}
use coins_gsr_v.Collect.Outcome
use coins_gsr_v.Settle.Terms
use coins_gsr_v.Message.{scoped_transfer_message}
use coins_gsr_v.Message.Widths.{withdrawal_bytes}
use coins_gsr_v.Examples.Toy.{toy, sign}

abbrev pub key : ℕ → Bytes
key b = replicate 32 b

abbrev pub keys : Array3 Bytes
keys = record { at0 = key 11; at1 = key 12; at2 = key 13 }

abbrev pub zero_accounts : AccountState
zero_accounts = record {
  accounts = record {
    at0 = zero_account (key 11);
    at1 = zero_account (key 12);
    at2 = zero_account (key 13);
  };
}

abbrev pub bridge_id : Bytes
bridge_id = replicate 32 0x42

abbrev pub deposit_a : Deposit
deposit_a = record {
  outpoint = record { txid = replicate 32 0x11; vout = 1 };
  value = 120_000;
  recipient_id = 0;
}

abbrev pub deposit_b : Deposit
deposit_b = record {
  outpoint = record { txid = replicate 32 0x22; vout = 2 };
  value = 80_000;
  recipient_id = 1;
}

abbrev pub collection : Collection
collection = record {
  bridge_id = bridge_id;
  bridge_prevout = record { txid = replicate 32 0x33; vout = 0 };
  old_state = zero_accounts;
  old_backing = 1_000;
  deposits = record { at0 = deposit_a; at1 = deposit_b };
}

abbrev pub account : ℕ → ℕ → ℕ → Account
account b balance nonce = record { key = key b; balance = balance; nonce = nonce }

-- The state after the collection, and after the settlement.
abbrev pub collected_state : AccountState
collected_state = record {
  accounts = record { at0 = account 11 120_000 0; at1 = account 12 80_000 0; at2 = account 13 0 0 };
}

abbrev pub settled_state : AccountState
settled_state = record {
  accounts = record { at0 = account 11 69_999 1; at1 = account 12 70_000 1; at2 = account 13 1 0 };
}

abbrev pub transfer : Transaction
transfer = record { sender_id = 0; recipient_pk = key 12; token_id = 0; amount = 50_000; fee = 1 }

abbrev pub destination : Bytes
destination = 0x51 ∷ 0x20 ∷ replicate 32 0x77

abbrev native : Bytes
native = toy.message_to_sign transfer 0

abbrev pub settlement : Settlement
settlement = record {
  bridge_id = bridge_id;
  bridge_prevout = record { txid = replicate 32 0x44; vout = 0 };
  old_state = collected_state;
  old_backing = 201_000;
  transfer = transfer;
  transfer_signature = sign (key 11) native;
  scoped_transfer_signature = sign (key 11) (scoped_transfer_message toy bridge_id native);
  withdrawal_nonce = 0;
  withdrawal_amount = 60_000;
  withdrawal_destination = destination;
  withdrawal_signature = sign (key 12) (withdrawal_bytes bridge_id 0 60_000 destination);
}

abbrev pub collected : Transition
collected = record {
  new_state = collected_state;
  old_root = root toy zero_accounts;
  new_root = root toy collected_state;
  new_backing = 201_000;
  statement = (Outcome.transition_of toy collection).statement;
}

abbrev pub settled : Transition
settled = record {
  new_state = settled_state;
  old_root = root toy collected_state;
  new_root = root toy settled_state;
  new_backing = 141_000;
  statement = (Terms.transition_of toy settlement).statement;
}
