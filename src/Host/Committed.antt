-- ===== src/Host/Committed.antt =====
-- What the guest makes of the bundle that the host derives.
use Prim.Native.String.{String}
use coins_gsr_v.Base.{◌≡◌, refl, ◌∙◌, Option, ok}
use coins_gsr_v.Bytes.{Bytes}
use coins_gsr_v.Crates.{Coins, Bn254, portable, accelerated, IsCompatible}
use coins_gsr_v.Signature.Agreement.{IsPairing}
use coins_gsr_v.Bridge.{guest_main}
use coins_gsr_v.Bridge.Statement.{
  IsAcceptable, statement_of, validate_proof_input-ok, guest_main-ok_iff,
}
use coins_gsr_v.Bridge.Builds.{guest_main-agrees}
use coins_gsr_v.Fixtures.{Signer}
use coins_gsr_v.Json.{Json}
use coins_gsr_v.Host.{scenario, Scenario, ScenarioBundle}
use coins_gsr_v.Host.Scenarios.{scenario-revalidates}

module _ (signer : Signer) {coins : Coins} (bn : Bn254 coins) (compatible : IsCompatible bn)
    (pairing : IsPairing bn) (hex_decode : String → Option Bytes) where
  -- The input in the bundle of a scenario that the host's portable build derives is acceptable, and
  -- the accelerated guest commits for it the statement that it stands for, which is the one in the
  -- bundle. The curve crates are compatible, and compute the pairing by which Coins verifies
  -- signatures.
  pub scenario-committed :
      (json : Json) (v : Scenario) {bundle : ScenarioBundle json}
      → scenario signer coins portable hex_decode json v ≡ ok bundle
      → IsAcceptable {coins = coins} portable bundle.proof_input
        × (bundle.transition.statement ≡ statement_of coins bundle.proof_input)
        × (guest_main coins (accelerated bn) bundle.proof_input
            ≡ ok (statement_of coins bundle.proof_input))
  scenario-committed json v {bundle} h =
      let valid = scenario-revalidates signer coins portable hex_decode json v h in
      let (acceptable, statement_is) =
        validate_proof_input-ok coins portable bundle.proof_input valid in
      let committed =
        (guest_main-ok_iff coins portable bundle.proof_input
            (statement_of coins bundle.proof_input)).1
          (acceptable, refl) in
      (
        acceptable,
        statement_is,
        guest_main-agrees bn compatible pairing bundle.proof_input ∙ committed,
      )
