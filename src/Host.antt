-- ===== src/Host.antt =====
-- The scenarios of crates/prover-host/src/main.rs: a request of numbers and hex strings becomes an
-- input for the prover, with the transition that it stands for.
pub mod Scenarios
pub mod Signing
pub mod Committed
use Prim.Native.String.{String, ◌++◌}
use coins_gsr_v.Base.{
  ℕ, ◌==◌, length, Option, Array2, Array3, Result, ok, ◌>>=◌, ◌>>◌, ok_or, reject_if, expect,
  map_err, not,
}
use coins_gsr_v.Bytes.{Bytes}
use coins_gsr_v.Crates.{Coins, Build, Transaction}
use coins_gsr_v.Protocol.{
  AccountState, Account, OutPoint, Deposit, Collection, Settlement, Transition, ProofInput,
}
use coins_gsr_v.Protocol
use coins_gsr_v.Json.{Json}
use coins_gsr_v.Account.{backing}
use coins_gsr_v.Message.{scoped_transfer_message, withdrawal_message}
use coins_gsr_v.Collect.{apply_collection}
use coins_gsr_v.Settle.{apply_settlement}
use coins_gsr_v.Fixtures.{Signer, secrets, public}

pub record ScenarioOutPoint : Type 0 where
  pub txid : String
  pub vout : ℕ

pub record ScenarioDeposit : Type 0 where
  pub outpoint : ScenarioOutPoint
  pub value : ℕ
  pub recipient_id : ℕ

-- The fields of `Scenario::Collect` and of `Scenario::TransferWithdraw`.
pub record CollectScenario : Type 0 where
  pub bridge_id : String
  pub bridge_prevout : ScenarioOutPoint
  pub old_balances : Array3 ℕ
  pub old_nonces : Array3 ℕ
  pub deposits : Array2 ScenarioDeposit

pub record TransferWithdrawScenario : Type 0 where
  pub bridge_id : String
  pub bridge_prevout : ScenarioOutPoint
  pub old_balances : Array3 ℕ
  pub old_nonces : Array3 ℕ
  pub transfer_amount : ℕ
  pub transfer_fee : ℕ
  pub withdrawal_nonce : ℕ
  pub withdrawal_amount : ℕ
  pub withdrawal_destination : String

pub data Scenario : Type 0 where
  collect : CollectScenario → Scenario
  transfer_withdraw : TransferWithdrawScenario → Scenario

pub record ScenarioTransition : Type 0 where
  pub new_state : AccountState
  pub old_root : Bytes
  pub new_root : Bytes
  pub new_backing : ℕ
  pub statement : Bytes

pub record ScenarioBundle (json : Json) : Type 0 where
  pub request : json.Value
  pub proof_input : ProofInput
  pub transition : ScenarioTransition

abbrev pub from_transition : Transition → ScenarioTransition
from_transition t = record {
  new_state = t.new_state;
  old_root = t.old_root;
  new_root = t.new_root;
  new_backing = t.new_backing;
  statement = t.statement;
}

-- `format!("{error:?}")`
abbrev pub debug : Protocol.Error → String
debug Protocol.Error.invalid_account_key = "InvalidAccountKey"
debug Protocol.Error.duplicate_account_key = "DuplicateAccountKey"
debug Protocol.Error.invalid_backing = "InvalidBacking"
debug Protocol.Error.invalid_deposit = "InvalidDeposit"
debug Protocol.Error.deposit_order = "DepositOrder"
debug Protocol.Error.invalid_recipient = "InvalidRecipient"
debug Protocol.Error.arithmetic = "Arithmetic"
debug Protocol.Error.unsupported_transfer = "UnsupportedTransfer"
debug Protocol.Error.invalid_transfer_signature = "InvalidTransferSignature"
debug Protocol.Error.invalid_scoped_transfer_signature = "InvalidScopedTransferSignature"
debug Protocol.Error.invalid_withdrawal = "InvalidWithdrawal"
debug Protocol.Error.invalid_withdrawal_signature = "InvalidWithdrawalSignature"

-- `hex::decode`, its error dropped
module _ (hex_decode : String → Option Bytes) where
  unfoldable pub bytes32 : String → String → Result String Bytes
  bytes32 value name = do
    bytes ← ok_or (hex_decode value) ("invalid " ++ (name ++ " hex"))
    reject_if (not (length bytes == 32)) (name ++ " must be 32 bytes")
    ok bytes

  unfoldable pub outpoint : ScenarioOutPoint → Result String OutPoint
  outpoint value = do
    txid ← bytes32 value.txid "outpoint txid"
    ok (record { txid = txid; vout = value.vout })

  -- The closure `deposit`
  unfoldable pub scenario_deposit : ScenarioDeposit → Result String Deposit
  scenario_deposit d = do
    outpoint' ← outpoint d.outpoint
    ok (record { outpoint = outpoint'; value = d.value; recipient_id = d.recipient_id })

module _ (signer : Signer) where
  unfoldable pub fixture_state : Array3 ℕ → Array3 ℕ → AccountState
  fixture_state balances nonces = record {
    accounts = record {
      at0 = record { key = (public signer).at0; balance = balances.at0; nonce = nonces.at0 };
      at1 = record { key = (public signer).at1; balance = balances.at1; nonce = nonces.at1 };
      at2 = record { key = (public signer).at2; balance = balances.at2; nonce = nonces.at2 };
    };
  }

pub record SettlementTerms : Type 0 where
  pub transfer_amount : ℕ
  pub transfer_fee : ℕ
  pub withdrawal_nonce : ℕ
  pub withdrawal_amount : ℕ
  pub withdrawal_destination : Bytes

module _ (signer : Signer) (coins : Coins) where
  -- Both `expect`s are panics; the message comes first, the backing when the fields are built.
  unfoldable pub signed_settlement :
      Bytes → OutPoint → AccountState → SettlementTerms → Result String Settlement
  signed_settlement bridge_id bridge_prevout old_state terms = do
    let transfer : Transaction = record {
      sender_id = 0;
      recipient_pk = (public signer).at1;
      token_id = coins.native_token_id;
      amount = terms.transfer_amount;
      fee = terms.transfer_fee;
    }
    let native_message : Bytes = coins.message_to_sign transfer old_state.accounts.at0.nonce
    withdrawal ← expect (
        withdrawal_message bridge_id terms.withdrawal_nonce terms.withdrawal_amount
          terms.withdrawal_destination)
    old_backing ← expect (backing old_state)
    ok (record {
      bridge_id = bridge_id;
      bridge_prevout = bridge_prevout;
      old_backing = old_backing;
      old_state = old_state;
      transfer = transfer;
      transfer_signature = signer.sign (secrets signer).at0 native_message;
      scoped_transfer_signature =
          signer.sign (secrets signer).at0 (scoped_transfer_message coins bridge_id native_message);
      withdrawal_nonce = terms.withdrawal_nonce;
      withdrawal_amount = terms.withdrawal_amount;
      withdrawal_destination = terms.withdrawal_destination;
      withdrawal_signature = signer.sign (secrets signer).at1 withdrawal;
    })

module _ (signer : Signer) (coins : Coins) (build : Build coins)
    (hex_decode : String → Option Bytes) where
  -- The two arms of `scenario`.
  unfoldable pub collect_scenario : CollectScenario → Result String (ProofInput × Transition)
  collect_scenario s = do
    let old_state : AccountState = fixture_state signer s.old_balances s.old_nonces
    bridge_id ← bytes32 hex_decode s.bridge_id "bridge id"
    bridge_prevout ← outpoint hex_decode s.bridge_prevout
    old_backing ← map_err debug (backing old_state)
    deposit_a ← scenario_deposit hex_decode s.deposits.at0
    deposit_b ← scenario_deposit hex_decode s.deposits.at1
    let collection : Collection = record {
      bridge_id = bridge_id;
      bridge_prevout = bridge_prevout;
      old_state = old_state;
      old_backing = old_backing;
      deposits = record { at0 = deposit_a; at1 = deposit_b };
    }
    transition ← map_err debug (apply_collection coins collection)
    ok (Protocol.collect collection, transition)

  unfoldable pub transfer_withdraw_scenario :
      TransferWithdrawScenario → Result String (ProofInput × Transition)
  transfer_withdraw_scenario s = do
    bridge_id ← bytes32 hex_decode s.bridge_id "bridge id"
    bridge_prevout ← outpoint hex_decode s.bridge_prevout
    destination ← ok_or (hex_decode s.withdrawal_destination) "invalid withdrawal destination hex"
    settlement ←
        signed_settlement signer coins bridge_id bridge_prevout
          (fixture_state signer s.old_balances s.old_nonces)
          (record {
            transfer_amount = s.transfer_amount;
            transfer_fee = s.transfer_fee;
            withdrawal_nonce = s.withdrawal_nonce;
            withdrawal_amount = s.withdrawal_amount;
            withdrawal_destination = destination;
          })
    transition ← map_err debug (apply_settlement coins build settlement)
    ok (ProofInput.transfer_withdraw settlement, transition)

  abbrev pub arm : Scenario → Result String (ProofInput × Transition)
  arm (Scenario.collect s) = collect_scenario s
  arm (Scenario.transfer_withdraw s) = transfer_withdraw_scenario s

  unfoldable pub scenario : (json : Json) → Scenario → Result String (ScenarioBundle json)
  scenario json value = do
    (proof_input, transition) ← arm value
    ok (record {
      request = json.null;
      proof_input = proof_input;
      transition = from_transition transition;
    })
