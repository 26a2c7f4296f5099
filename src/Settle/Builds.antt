-- ===== src/Settle/Builds.antt =====
-- The two builds settle alike, and so does the guest.
use coins_gsr_v.Base.{◌≡◌}
use coins_gsr_v.Bytes.{Bytes}
use coins_gsr_v.Crates.{Coins, Bn254, portable, accelerated, IsCompatible}
use coins_gsr_v.Protocol.{Error, Settlement}
use coins_gsr_v.Signature.Agreement.{IsPairing, valid_signature-agrees}
use coins_gsr_v.Settle.{require_signature, apply_settlement}

module _ {coins : Coins} (bn : Bn254 coins) (compatible : IsCompatible bn)
    (pairing : IsPairing bn) where
  require_signature-agrees :
      (key message signature : Bytes) (error : Error)
      → require_signature coins (accelerated bn) key message signature error
        ≡ require_signature coins portable key message signature error
  unfolding require_signature
  require_signature-agrees key message signature error =
      rw (valid_signature-agrees bn compatible pairing key message signature)

  same_requirement : require_signature coins (accelerated bn) ≡ require_signature coins portable
  same_requirement =
      λ i. λ key message signature error. require_signature-agrees key message signature error i

  pub apply_settlement-agrees :
      (i : Settlement)
      → apply_settlement coins (accelerated bn) i ≡ apply_settlement coins portable i
  unfolding apply_settlement
  apply_settlement-agrees i = rw same_requirement
