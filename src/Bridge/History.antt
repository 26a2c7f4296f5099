-- ===== src/Bridge/History.antt =====
-- The histories of a bridge: a genesis state, and then accepted collections and settlements, each on
-- the state that the one before it left.
use coins_gsr_v.Base.{ℕ, ◌+◌, ◌≡◌, Array3, ok}
use coins_gsr_v.Bytes.{Bytes}
use coins_gsr_v.Crates.{Coins, Build}
use coins_gsr_v.Protocol.{AccountState, Collection, Settlement, Transition}
use coins_gsr_v.Account.{zero_state}
use coins_gsr_v.Collect.{apply_collection}
use coins_gsr_v.Settle.{apply_settlement}

-- The account state, and what has gone in and out of the bridge so far.
pub record Ledger : Type 0 where
  pub state : AccountState
  pub deposited : ℕ
  pub paid_out : ℕ
  pub settlements : ℕ

pub data Reach {coins : Coins} (build : Build coins) (keys : Array3 Bytes) : Ledger → Type 0 where
  genesis :
      (s : AccountState)
      → zero_state coins keys ≡ ok s
      → Reach build keys (record { state = s; deposited = 0; paid_out = 0; settlements = 0 })
  collected :
      {l : Ledger} (c : Collection) (t : Transition)
      → Reach build keys l
      → c.old_state ≡ l.state
      → apply_collection coins c ≡ ok t
      → Reach build keys (record l {
        state = t.new_state;
        deposited = l.deposited + c.deposits.at0.value + c.deposits.at1.value;
      })
  settled :
      {l : Ledger} (i : Settlement) (t : Transition)
      → Reach build keys l
      → i.old_state ≡ l.state
      → apply_settlement coins build i ≡ ok t
      → Reach build keys (record l {
        state = t.new_state;
        paid_out = l.paid_out + i.withdrawal_amount;
        settlements = l.settlements + 1;
      })
