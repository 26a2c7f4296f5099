-- ===== src/Protocol/Typed.antt =====
-- What the Rust types of the protocol's records give: widths of byte arrays, ranges of integers.
-- A `G1` has 32 bytes.
use coins_gsr_v.Base.{ℕ, ◌≡◌, length}
use coins_gsr_v.Bytes.{Bytes, IsU32, IsU64}
use coins_gsr_v.Protocol.{Account, AccountState, OutPoint, Deposit, Collection, Settlement}

pub record IsTypedAccount (a : Account) : Type 0 where
  pub key_width : length a.key ≡ 32
  pub balance_fits : IsU64 a.balance
  pub nonce_fits : IsU32 a.nonce

pub record IsTypedState (s : AccountState) : Type 0 where
  pub typed0 : IsTypedAccount s.accounts.at0
  pub typed1 : IsTypedAccount s.accounts.at1
  pub typed2 : IsTypedAccount s.accounts.at2

pub record IsTypedOutPoint (o : OutPoint) : Type 0 where
  pub txid_width : length o.txid ≡ 32
  pub vout_fits : IsU32 o.vout

pub record IsTypedDeposit (d : Deposit) : Type 0 where
  pub outpoint_typed : IsTypedOutPoint d.outpoint
  pub value_fits : IsU64 d.value
  pub recipient_fits : IsU32 d.recipient_id

-- The identity of the bridge and its head, as collections and settlements carry them.
pub record IsTypedHead (bridge_id : Bytes) (bridge_prevout : OutPoint) (old_backing : ℕ)
    : Type 0 where
  pub id_width : length bridge_id ≡ 32
  pub prevout_typed : IsTypedOutPoint bridge_prevout
  pub backing_fits : IsU64 old_backing

pub record IsTypedCollection (c : Collection) : Type 0 where
  pub head : IsTypedHead c.bridge_id c.bridge_prevout c.old_backing
  pub state_typed : IsTypedState c.old_state
  pub deposit0_typed : IsTypedDeposit c.deposits.at0
  pub deposit1_typed : IsTypedDeposit c.deposits.at1

pub record IsTypedSettlement (i : Settlement) : Type 0 where
  pub head : IsTypedHead i.bridge_id i.bridge_prevout i.old_backing
  pub state_typed : IsTypedState i.old_state
  pub amount_fits : IsU64 i.withdrawal_amount
