-- ===== src/Protocol.antt =====
-- The data of crates/protocol/src/lib.rs: constants, errors, and the records of the bridge.
pub mod Typed
use Prim.Native.String.{String}
use Prim.Native.Char.{code}
use coins_gsr_v.Base.{ℕ, [], ◌∷◌, ◌++◌, Array2, Array3}
use coins_gsr_v.Bytes.{Bytes}
use coins_gsr_v.Crates.{Transaction}

-- The bytes of an ASCII literal `b"..."`.
abbrev pub ascii : String → Bytes
ascii String.[] = []
ascii (String.◌∷◌ c s) = code c ∷ ascii s

abbrev pub transfer_sender_id : ℕ
transfer_sender_id = 0

abbrev pub withdrawal_account_id : ℕ
withdrawal_account_id = 1

abbrev pub fee_account_id : ℕ
fee_account_id = 2

abbrev pub reserve : ℕ
reserve = 1_000

abbrev pub state_magic : Bytes
state_magic = ascii "UTXOLIN"

abbrev pub state_version : ℕ
state_version = 1

abbrev pub protocol_version : ℕ
protocol_version = 1

abbrev pub account_root_domain : Bytes
account_root_domain = ascii "coins-gsr-v1/accounts" ++ (0 ∷ [])

abbrev pub statement_domain : Bytes
statement_domain = ascii "coins-gsr-v1/statement/regtest" ++ (0 ∷ [])

abbrev pub transfer_auth_domain : Bytes
transfer_auth_domain = ascii "coins-gsr-v1/transfer-auth/regtest" ++ (0 ∷ [])

abbrev pub withdrawal_domain : Bytes
withdrawal_domain = ascii "coins-gsr-v1/withdrawal/regtest" ++ (0 ∷ [])

pub data Error : Type 0 where
  invalid_account_key : Error
  duplicate_account_key : Error
  invalid_backing : Error
  invalid_deposit : Error
  deposit_order : Error
  invalid_recipient : Error
  arithmetic : Error
  unsupported_transfer : Error
  invalid_transfer_signature : Error
  invalid_scoped_transfer_signature : Error
  invalid_withdrawal : Error
  invalid_withdrawal_signature : Error

pub record Account : Type 0 where
  pub key : Bytes
  pub balance : ℕ
  pub nonce : ℕ

pub record AccountState : Type 0 where
  pub accounts : Array3 Account

pub record OutPoint : Type 0 where
  pub txid : Bytes
  pub vout : ℕ

pub record Deposit : Type 0 where
  pub outpoint : OutPoint
  pub value : ℕ
  pub recipient_id : ℕ

pub record Collection : Type 0 where
  pub bridge_id : Bytes
  pub bridge_prevout : OutPoint
  pub old_state : AccountState
  pub old_backing : ℕ
  pub deposits : Array2 Deposit

pub record Settlement : Type 0 where
  pub bridge_id : Bytes
  pub bridge_prevout : OutPoint
  pub old_state : AccountState
  pub old_backing : ℕ
  pub transfer : Transaction
  pub transfer_signature : Bytes
  pub scoped_transfer_signature : Bytes
  pub withdrawal_nonce : ℕ
  pub withdrawal_amount : ℕ
  pub withdrawal_destination : Bytes
  pub withdrawal_signature : Bytes

pub record Transition : Type 0 where
  pub new_state : AccountState
  pub old_root : Bytes
  pub new_root : Bytes
  pub new_backing : ℕ
  pub statement : Bytes

pub data ProofInput : Type 0 where
  collect : Collection → ProofInput
  transfer_withdraw : Settlement → ProofInput

pub data Action : Type 0 where
  collect_two : Action
  transfer_withdraw : Action

-- `action as u8`
abbrev pub action_byte : Action → ℕ
action_byte collect_two = 1
action_byte Action.transfer_withdraw = 2
