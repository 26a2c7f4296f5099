-- ===== src/Bridge/Builds.antt =====
-- The two builds of the guest commit the same statements.
use coins_gsr_v.Base.{◌≡◌, refl}
use coins_gsr_v.Crates.{Coins, Bn254, portable, accelerated, IsCompatible}
use coins_gsr_v.Protocol.{ProofInput, collect}
use coins_gsr_v.Signature.Agreement.{IsPairing}
use coins_gsr_v.Settle.Builds.{apply_settlement-agrees}
use coins_gsr_v.Bridge.{validate_proof_input, guest_main}

module _ {coins : Coins} (bn : Bn254 coins) (compatible : IsCompatible bn)
    (pairing : IsPairing bn) where
  validate_proof_input-agrees :
      (x : ProofInput)
      → validate_proof_input coins (accelerated bn) x ≡ validate_proof_input coins portable x
  unfolding validate_proof_input
  validate_proof_input-agrees (collect c) = refl
  validate_proof_input-agrees (ProofInput.transfer_withdraw i) =
      rw (apply_settlement-agrees bn compatible pairing i)

  -- The accelerated build of the guest does on every input what the portable one does: it commits the
  -- same statement, or fails. The curve crates are compatible, and compute the pairing by which Coins
  -- verifies signatures.
  pub guest_main-agrees :
      (x : ProofInput) → guest_main coins (accelerated bn) x ≡ guest_main coins portable x
  unfolding guest_main
  guest_main-agrees x = rw (validate_proof_input-agrees x)
