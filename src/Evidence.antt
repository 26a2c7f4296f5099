-- ===== src/Evidence.antt =====
-- What the commands of crates/prover-host/src/main.rs compute and test between their questions to the
-- system: the program key, the tests of a proof and of its corrupted copies, and the two JSON objects.
pub mod Checks
pub mod Refusals
pub mod Evident
use Prim.Native.String.{String}
use Prim.Native.Char.{code}
use coins_gsr_v.Base.{
  is_ok, ℕ, zero, suc, Bool, true, false, not, ◌||◌, Option, none, some, List, [], ◌∷◌, ◌==◌,
  if◌then◌else◌, length, map, Result, ok, err, panic, ◌>>=◌, ◌>>◌, ok_or, or_panic, reject_if,
}
use coins_gsr_v.Bytes.{Bytes, bytes_eq}
use coins_gsr_v.Bytes.Flip.{flip_at, flip_last}
use coins_gsr_v.Crates.{Coins, Build}
use coins_gsr_v.Json.{Json}
use coins_gsr_v.Protocol.{ProofInput, collect}
use coins_gsr_v.Wrapper.{Sp1Verifier, verify}
use coins_gsr_v.ArkAdapter.{Ark, FoldedKey, Export, deployment_key, export}
use coins_gsr_v.Fixtures.{Signer}
use coins_gsr_v.Host.{Scenario, ScenarioBundle}
use coins_gsr_v.Process.{Sp1Client}

-- All that the host takes from other crates.
pub record Environment : Type 1 where
  pub coins : Coins
  pub build : Build coins
  pub signer : Signer
  pub sp1 : Sp1Verifier
  pub ark : Ark
  pub client : Sp1Client
  pub json : Json
  -- `hex::decode`, its error printed
  pub hex_decode : String → Result String Bytes
  -- `format!("{number}")`
  pub decimal : ℕ → String
  -- what `serde` derives
  pub scenario_from_value : json.Value → Result String Scenario
  pub bundle_from_slice : Bytes → Result String (ScenarioBundle json)
  pub bundle_to_vec_pretty : ScenarioBundle json → Result String Bytes
  pub input_from_slice : Bytes → Result String ProofInput
  -- `json!` of an `Option<f64>`, and `value["proving_seconds"].as_f64()`
  pub seconds_value : Option client.Seconds → json.Value
  pub proving_seconds : json.Value → Option client.Seconds

-- `text.strip_prefix(prefix)`
abbrev pub strip_prefix : String → String → Option String
strip_prefix String.[] text = some text
strip_prefix (String.◌∷◌ c prefix) String.[] = none
strip_prefix (String.◌∷◌ c prefix) (String.◌∷◌ d text) =
    let rest = strip_prefix prefix text in if code c == code d then rest else none

module _ (env : Environment) where
  open env use {coins, sp1, ark, client, json}

  -- `hex::encode(Sha256::digest(bytes))`
  abbrev pub sha256_hex : Bytes → String
  sha256_hex bytes = ark.hex_encode (coins.digest bytes)

  unfoldable pub program_key : client.ProvingKey → Result String Bytes
  program_key proving_key = do
    digits ← ok_or (strip_prefix "0x" (client.key_string proving_key)) "program key prefix"
    key ← env.hex_decode digits
    reject_if (not (length key == 32)) "program key width"
    ok key

  -- `client.execute` and the comparison with the statement; the instruction count is printed.
  unfoldable pub execute_guest : Bytes → ProofInput → Bytes → Result String ℕ
  execute_guest elf input expected = do
    (public_values, exit_code, instructions) ← client.execute elf input
    reject_if (not (exit_code == 0) || not (bytes_eq public_values expected))
        "guest execution did not produce the canonical statement"
    ok instructions

  module _ (proof : client.Sp1Proof) (proving_key : client.ProvingKey) (key expected : Bytes) where
    unfoldable pub check_proof : Result String (Unit {0})
    check_proof = do
      reject_if (not (client.is_groth16 proof)) "expected a Groth16 proof"
      client.verify proof proving_key
      reject_if (not (bytes_eq (client.public_values proof) expected))
          "proof public values differ from canonical statement"
      verify coins sp1 (client.proof_bytes proof) expected key

    unfoldable pub check_wrong_values : Result String (Unit {0})
    check_wrong_values = do
      wrong_values ← or_panic (flip_at 0 expected)
      let altered : client.Sp1Proof = client.with_public_values proof wrong_values
      accepted ← is_ok (client.verify altered proving_key)
      reject_if accepted "changed public values accepted"
      opened ← is_ok (verify coins sp1 (client.proof_bytes proof) wrong_values key)
      reject_if opened "changed public values accepted"

    unfoldable pub check_corrupted : Result String (Unit {0})
    check_corrupted = do
      corrupted ← ok_or (flip_last (client.proof_bytes proof)) "empty proof"
      accepted ← is_ok (verify coins sp1 corrupted expected key)
      reject_if accepted "corrupted proof accepted"

    unfoldable pub check_wrong_key : Result String (Unit {0})
    check_wrong_key = do
      wrong_key ← or_panic (flip_at 31 key)
      accepted ← is_ok (verify coins sp1 (client.proof_bytes proof) expected wrong_key)
      reject_if accepted "wrong program key accepted"

    unfoldable pub check_evidence : Result String (Unit {0})
    check_evidence = do check_proof; check_wrong_values; check_corrupted; check_wrong_key

  abbrev pub strings : List String → json.Value
  strings texts = json.array (map json.string texts)

  -- The objects of ark_adapter.rs as JSON.
  abbrev pub folded_key_fields : FoldedKey → List (String × json.Value)
  folded_key_fields k =
      ("ic0", strings k.ic0)
      ∷ ("ic1", strings k.ic1)
      ∷ ("ic2", strings k.ic2)
      ∷ ("alpha", strings k.alpha)
      ∷ ("beta", strings k.beta)
      ∷ ("gamma", strings k.gamma)
      ∷ ("delta", strings k.delta)
      ∷ []

  abbrev pub export_fields : Export → List (String × json.Value)
  export_fields e =
      ("encoding", json.string e.encoding)
      ∷ ("input0", json.string e.input0)
      ∷ ("input1", json.string e.input1)
      ∷ ("ic0", strings e.key.ic0)
      ∷ ("ic1", strings e.key.ic1)
      ∷ ("ic2", strings e.key.ic2)
      ∷ ("alpha", strings e.key.alpha)
      ∷ ("beta", strings e.key.beta)
      ∷ ("gamma", strings e.key.gamma)
      ∷ ("delta", strings e.key.delta)
      ∷ ("proof_a", strings e.proof_a)
      ∷ ("proof_b", strings e.proof_b)
      ∷ ("proof_c", strings e.proof_c)
      ∷ []

  -- The value in `deployment.json`.
  abbrev pub deployment_fields : String → Bytes → FoldedKey → List (String × json.Value)
  deployment_fields elf_hash key folded =
      ("status", json.string "bounded-regtest-deployment")
      ∷ ("sp1_version", json.string "6.0.1")
      ∷ ("elf_sha256", json.string elf_hash)
      ∷ ("program_key_be", json.string (ark.hex_encode key))
      ∷ ("groth16_vk_sha256", json.string (sha256_hex sp1.groth16_vk_bytes))
      ∷ ("folded_key", json.object (folded_key_fields folded))
      ∷ []

  unfoldable pub deployment_value : String → Bytes → Result String json.Value
  deployment_value elf_hash key = do
    folded ← deployment_key ark sp1 key
    ok (json.object (deployment_fields elf_hash key folded))

  unfoldable pub deployment_json : String → Bytes → Result String Bytes
  deployment_json elf_hash key = deployment_value elf_hash key >>= json.to_vec_pretty

  abbrev pub action : ProofInput → String
  action (collect collection) = "collect"
  action (ProofInput.transfer_withdraw settlement) = "settle"

  -- The value in `verified.json`.
  abbrev pub verified_fields :
      ProofInput
      → String
      → Bytes
      → Bytes
      → client.Sp1Proof
      → ℕ
      → Option client.Seconds
      → Export
      → List (String × json.Value)
  verified_fields input elf_hash key expected proof instructions seconds exported =
      ("action", json.string (action input))
      ∷ ("elf_sha256", json.string elf_hash)
      ∷ ("program_key_be", json.string (ark.hex_encode key))
      ∷ ("groth16_vk_sha256", json.string (sha256_hex sp1.groth16_vk_bytes))
      ∷ ("public_values", json.string (ark.hex_encode expected))
      ∷ ("proof_bytes", json.number (length (client.proof_bytes proof)))
      ∷ ("execution_instructions", json.number instructions)
      ∷ ("proving_seconds", env.seconds_value seconds)
      ∷ ("public_values_hash_mode", json.string "sha256-top-three-bits-cleared")
      ∷ ("folded_arkworks", json.object (export_fields exported))
      ∷ []

  unfoldable pub verified_value :
      ProofInput
      → String
      → Bytes
      → Bytes
      → client.Sp1Proof
      → ℕ
      → Option client.Seconds
      → Result String json.Value
  verified_value input elf_hash key expected proof instructions seconds = do
    exported ← export ark sp1 coins (client.proof_bytes proof) expected key
    ok (
        json.object
          (verified_fields input elf_hash key expected proof instructions seconds exported))

  unfoldable pub verified_json :
      ProofInput
      → String
      → Bytes
      → Bytes
      → client.Sp1Proof
      → ℕ
      → Option client.Seconds
      → Result String Bytes
  verified_json input elf_hash key expected proof instructions seconds =
      verified_value input elf_hash key expected proof instructions seconds >>= json.to_vec_pretty
