-- ===== src/Host/Scenarios.antt =====
-- What a scenario's strings decode to, and the input and statement of the bundle that it gives.
use Prim.Native.String.{String}
use coins_gsr_v.Base.{
  ok_injective, ◌≡◌, ◌↔◌, ap, length, Option, some, Result, ok, err, panic, >>=-eq-ok, ok_or,
  map_err, arith,
}
use coins_gsr_v.Bytes.{Bytes}
use coins_gsr_v.Crates.{Coins, Build}
use coins_gsr_v.Protocol.{Transition, ProofInput}
use coins_gsr_v.Account.{backing}
use coins_gsr_v.Collect.{apply_collection}
use coins_gsr_v.Settle.{apply_settlement}
use coins_gsr_v.Bridge.{validate_proof_input}
use coins_gsr_v.Fixtures.{Signer}
use coins_gsr_v.Json.{Json}
use coins_gsr_v.Host.{
  bytes32, outpoint, scenario_deposit, fixture_state, signed_settlement, collect_scenario,
  transfer_withdraw_scenario, arm, scenario, Scenario, ScenarioBundle, debug,
}

-- `bytes32` returns what the string decodes to exactly if that has 32 bytes.
pub bytes32-ok_iff :
    (hex_decode : String → Option Bytes) (value name : String) (bytes : Bytes)
    → (bytes32 hex_decode value name ≡ ok bytes)
      ↔ ((hex_decode value ≡ some bytes) × (length bytes ≡ 32))
unfolding bytes32
bytes32-ok_iff hex_decode value name bytes = ground arith

pub map_err-ok {ℓ κ μ} :
    {E : Type ℓ} {F : Type κ} {A : Type μ} (f : E → F) (m : Result E A) {a : A}
    → map_err f m ≡ ok a
    → m ≡ ok a
map_err-ok f (ok x) h = cc
map_err-ok f (err e) h = cc
map_err-ok f panic h = cc

module _ (signer : Signer) (coins : Coins) (build : Build coins)
    (hex_decode : String → Option Bytes) where
  same_pair :
      (x' x : ProofInput) (t' t : Transition)
      → ◌≡◌ {A = Result String (ProofInput × Transition)} (ok (x', t')) (ok (x, t))
      → validate_proof_input coins build x' ≡ ok t'.statement
      → validate_proof_input coins build x ≡ ok t.statement
  same_pair x' x t' t h e =
      let pair_is : ◌≡◌ {A = ProofInput × Transition} (x', t') (x, t) = cc in
      rw (← ap (λ p. p.0) pair_is, ← ap (λ p. p.1) pair_is) e

  arm-revalidates :
      (v : Scenario) (x : ProofInput) (t : Transition)
      → arm signer coins build hex_decode v ≡ ok (x, t)
      → validate_proof_input coins build x ≡ ok t.statement
  unfolding validate_proof_input collect_scenario transfer_withdraw_scenario
  arm-revalidates (Scenario.collect s) x t h =
      let (id, _, h1) = >>=-eq-ok (bytes32 hex_decode s.bridge_id "bridge id") _ h in
      let (prevout, _, h2) = >>=-eq-ok (outpoint hex_decode s.bridge_prevout) _ h1 in
      let (backed, _, h3) =
        >>=-eq-ok (map_err debug (backing (fixture_state signer s.old_balances s.old_nonces))) _
          h2 in
      let (a, _, h4) = >>=-eq-ok (scenario_deposit hex_decode s.deposits.at0) _ h3 in
      let (b, _, h5) = >>=-eq-ok (scenario_deposit hex_decode s.deposits.at1) _ h4 in
      let (t', applied, pair_is) = >>=-eq-ok (map_err debug (apply_collection coins _)) _ h5 in
      same_pair _ x t' t pair_is (rw (map_err-ok debug (apply_collection coins _) applied))
  arm-revalidates (Scenario.transfer_withdraw s) x t h =
      let (id, _, h1) = >>=-eq-ok (bytes32 hex_decode s.bridge_id "bridge id") _ h in
      let (prevout, _, h2) = >>=-eq-ok (outpoint hex_decode s.bridge_prevout) _ h1 in
      let (destination, _, h3) = >>=-eq-ok (ok_or (hex_decode s.withdrawal_destination) _) _ h2 in
      let (i, _, h4) = >>=-eq-ok (signed_settlement signer coins id prevout _ _) _ h3 in
      let (t', applied, pair_is) =
        >>=-eq-ok (map_err debug (apply_settlement coins build i)) _ h4 in
      same_pair _ x t' t pair_is (rw (map_err-ok debug (apply_settlement coins build i) applied))

  -- The bundle of a scenario that succeeds holds an input that the protocol, in the build of the host,
  -- accepts with the statement in the bundle.
  pub scenario-revalidates :
      (json : Json) (v : Scenario) {bundle : ScenarioBundle json}
      → scenario signer coins build hex_decode json v ≡ ok bundle
      → validate_proof_input coins build bundle.proof_input ≡ ok bundle.transition.statement
  unfolding scenario
  scenario-revalidates json v {bundle} h =
      let (p, made, b_is) = >>=-eq-ok (arm signer coins build hex_decode v) _ h in
      let bundle_is = ok_injective b_is in
      rw (← ap (λ b. b.proof_input) bundle_is, ← ap (λ b. b.transition.statement) bundle_is)
        (arm-revalidates v p.0 p.1 made)
