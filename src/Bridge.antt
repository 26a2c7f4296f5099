-- ===== src/Bridge.antt =====
-- The whole relation that is proved: `validate_proof_input` of crates/protocol/src/lib.rs, the guest
-- program of guest/src/main.rs, and the histories that the bridge can have.
pub mod Statement
pub mod History
pub mod Invariant
pub mod Typed
pub mod Builds
use coins_gsr_v.Base.{Result, ok, panic, ◌>>=◌, expect}
use coins_gsr_v.Bytes.{Bytes}
use coins_gsr_v.Crates.{Coins, Build}
use coins_gsr_v.Protocol.{Error, ProofInput, collect, Transition}
use coins_gsr_v.Collect.{apply_collection}
use coins_gsr_v.Settle.{apply_settlement}

module _ (coins : Coins) (build : Build coins) where
  unfoldable pub validate_proof_input : ProofInput → Result Error Bytes
  validate_proof_input (collect collection) = do
    transition ← apply_collection coins collection
    ok transition.statement
  validate_proof_input (ProofInput.transfer_withdraw settlement) = do
    transition ← apply_settlement coins build settlement
    ok transition.statement

  -- The guest reads an input, and commits the statement or stops by a panic.
  unfoldable pub guest_main : ProofInput → Result Error Bytes
  guest_main input = do statement ← expect (validate_proof_input input); ok statement
