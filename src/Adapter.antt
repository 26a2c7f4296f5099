-- ===== src/Adapter.antt =====
-- The test of script/coins_gsr_adapter.rs, which runs inside BitVMX: it reads the host's two files,
-- replays the proof there, and writes a verifier script. A failed assertion or `unwrap` panics. The
-- test is built without `--release`, so that an overflow panics too.
pub mod Run
pub mod Fixed
pub mod Agreed
pub mod Replayed
pub mod Script
pub mod Writes
pub mod Accepted
use Prim.Native.String.{String}
use coins_gsr_v.Base.{
  assert, assert-ok, or_panic-ok, ℕ, ◌+◌, ◌-◌, ◌*◌, ◌%◌, Bool, true, false, not, leb, ◌==◌, Option,
  some, none, List, [], ◌∷◌, map, length, if◌then◌else◌, Result, ok, err, panic, ◌>>=◌, ◌>>◌,
  or_panic, expect,
}
use coins_gsr_v.Bytes.{Bytes}
use coins_gsr_v.Bytes.Endian.{from_le_bytes, from_be_bytes}
use coins_gsr_v.Json.{Json}

-- `DeterministicGroth16Fixture`
pub record Fixture (G1 G2 : Type 0) : Type 0 where
  pub input0 : ℕ
  pub input1 : ℕ
  pub invalid_input1 : ℕ
  pub ic0 : G1
  pub ic1 : G1
  pub ic2 : G1
  pub alpha : G1
  pub beta : G2
  pub gamma : G2
  pub delta : G2
  pub proof_a : G1
  pub proof_b : G2
  pub proof_c : G1

-- The fields that the test reads of the artifact and of an evaluation.
pub record Artifact : Type 0 where
  pub script : Bytes
  pub witness_stack : List Bytes
  pub estimated_tx_weight : ℕ
  pub script_bytes : ℕ

pub record Evaluation : Type 0 where
  pub success : Bool
  pub stack_after : List Bytes
  pub varops_budget_remaining : Option ℕ

-- What the test takes from BitVMX and `bitcoin`.
pub record Verifier : Type 1 where
  pub G1Affine : Type 0
  pub G2Affine : Type 0
  pub g1_from_stack : List Bytes → Result String G1Affine
  pub g2_from_stack : List Bytes → Result String G2Affine
  pub hex_bytes : String → Result String Bytes
  pub bytes_hex : Bytes → String
  -- `sha256::Hash::hash(bytes).to_byte_array()`
  pub sha256 : Bytes → Bytes
  -- `Groth16Replay::default().verify_fixture_inputs_with_fused_residue_report`
  pub Report : Type 0
  pub replay : Fixture G1Affine G2Affine → ℕ → ℕ → Result String Report
  pub accepted : Report → Bool
  pub monolithic_artifact : Report → Fixture G1Affine G2Affine → ℕ → ℕ → Result String Artifact
  -- the script of `compile_monolithic_flat_macros`
  pub compile_macros : Bytes → Result String Bytes
  pub eval_gsr : Bytes → List Bytes → ℕ → Result String Evaluation

abbrev pub max_varops_budget : ℕ
max_varops_budget = 4_000_000 * 10_000

-- `a - b` and `a + b` on words of 64 bits
abbrev pub checked_sub : ℕ → ℕ → Result String ℕ
checked_sub a b = if leb b a then ok (a - b) else panic

abbrev pub checked_add : ℕ → ℕ → Result String ℕ
checked_add a b = if leb (a + b) 18_446_744_073_709_551_615 then ok (a + b) else panic

-- `digest[0] &= 0x1f`, on a byte the remainder by 32
abbrev pub mask_first : Bytes → Result String Bytes
mask_first [] = panic
mask_first (b ∷ bs) = ok (b % 32 ∷ bs)

abbrev pub key_names : List String
key_names = "ic0" ∷ "ic1" ∷ "ic2" ∷ "alpha" ∷ "beta" ∷ "gamma" ∷ "delta" ∷ []

module _ (verifier : Verifier) (json : Json) where
  abbrev pub bytes_of : json.Value → Result String Bytes
  bytes_of value = or_panic (json.as_str value) >>= verifier.hex_bytes

  abbrev pub all_bytes : List json.Value → Result String (List Bytes)
  all_bytes [] = ok []
  all_bytes (value ∷ values) =
      bytes_of value >>= λ first. all_bytes values >>= λ rest. ok (first ∷ rest)

  abbrev pub point : json.Value → Result String (List Bytes)
  point value = or_panic (json.as_array value) >>= all_bytes

  -- The assertions that the two values agree in each of the fields.
  abbrev pub check_fields : List String → json.Value → json.Value → Result String (Unit {0})
  check_fields [] a b = ok tt
  check_fields (name ∷ names) a b = do
    assert (json.eq (json.index a name) (json.index b name))
    check_fields names a b

  unfoldable pub check_manifest : json.Value → json.Value → Result String (Unit {0})
  check_manifest manifest proof_data = do
    assert (json.eq_str (json.index manifest "status") "bounded-regtest-deployment")
    assert (json.eq_str (json.index manifest "sp1_version") "6.0.1")
    check_fields ("program_key_be" ∷ "groth16_vk_sha256" ∷ []) manifest proof_data
    assert (
        json.eq_str (json.index proof_data "public_values_hash_mode")
          "sha256-top-three-bits-cleared")
    let folded : json.Value = json.index proof_data "folded_arkworks"
    let key : json.Value = json.index manifest "folded_key"
    assert (json.eq_str (json.index folded "encoding") "canonical-unsigned-little-endian-hex")
    check_fields key_names folded key

  abbrev g1_at : json.Value → String → Result String verifier.G1Affine
  g1_at value name = point (json.index value name) >>= verifier.g1_from_stack

  abbrev g2_at : json.Value → String → Result String verifier.G2Affine
  g2_at value name = point (json.index value name) >>= verifier.g2_from_stack

  -- The fixture of a manifest and the proof's record.
  unfoldable pub fixture_of :
      json.Value → json.Value → Result String (Fixture verifier.G1Affine verifier.G2Affine)
  fixture_of manifest proof_data = do
    let folded : json.Value = json.index proof_data "folded_arkworks"
    let key : json.Value = json.index manifest "folded_key"
    ic0 ← g1_at key "ic0"
    ic1 ← g1_at key "ic1"
    ic2 ← g1_at key "ic2"
    alpha ← g1_at key "alpha"
    beta ← g2_at key "beta"
    gamma ← g2_at key "gamma"
    delta ← g2_at key "delta"
    proof_a ← g1_at folded "proof_a"
    proof_b ← g2_at folded "proof_b"
    proof_c ← g1_at folded "proof_c"
    ok (record {
      input0 = 0;
      input1 = 0;
      invalid_input1 = 1;
      ic0 = ic0;
      ic1 = ic1;
      ic2 = ic2;
      alpha = alpha;
      beta = beta;
      gamma = gamma;
      delta = delta;
      proof_a = proof_a;
      proof_b = proof_b;
      proof_c = proof_c;
    })

  -- The two inputs; the first is the masked hash of the public values.
  unfoldable pub inputs_of : json.Value → Result String (ℕ × ℕ)
  inputs_of proof_data = do
    let folded : json.Value = json.index proof_data "folded_arkworks"
    input0 ← bytes_of (json.index folded "input0")
    input1 ← bytes_of (json.index folded "input1")
    values ← bytes_of (json.index proof_data "public_values")
    digest ← mask_first (verifier.sha256 values)
    assert (from_le_bytes input0 == from_be_bytes digest)
    ok (from_le_bytes input0, from_le_bytes input1)

  unfoldable pub estimated_weight : Artifact → Bytes → Result String ℕ
  estimated_weight artifact script = do
    rest ← checked_sub artifact.estimated_tx_weight artifact.script_bytes
    weight ← checked_add rest (length script)
    assert (leb weight 4_000_000)
    ok weight

  -- The value that is written for a script that was evaluated.
  unfoldable pub script_value : json.Value → Artifact → Bytes → ℕ → ℕ → json.Value
  script_value proof_data artifact script weight varops = json.object (
      ("status", json.string "arithmetic-only-not-a-bridge-lock")
      ∷ ("script", json.string (verifier.bytes_hex script))
      ∷ ("script_sha256", json.string (verifier.bytes_hex (verifier.sha256 script)))
      ∷ (
        "stack",
        json.array (map (λ item. json.string (verifier.bytes_hex item)) artifact.witness_stack),
      )
      ∷ ("estimated_weight", json.number weight)
      ∷ ("measured_varops", json.number varops)
      ∷ ("statement_digest_stack_index", json.number 1)
      ∷ ("proof_nonce_stack_index", json.number 2)
      ∷ ("public_values", json.index proof_data "public_values")
      ∷ [])

  -- From the replay of the proof to the value that is written.
  unfoldable pub replayed :
      json.Value → Fixture verifier.G1Affine verifier.G2Affine → ℕ → ℕ → Result String json.Value
  replayed proof_data fixture input0 input1 = do
    report ← verifier.replay fixture input0 input1
    assert (verifier.accepted report)
    artifact ← verifier.monolithic_artifact report fixture input0 input1
    script ← verifier.compile_macros artifact.script
    weight ← estimated_weight artifact script
    result ← verifier.eval_gsr script artifact.witness_stack max_varops_budget
    assert result.success
    assert (length result.stack_after == 0)
    remaining ← or_panic result.varops_budget_remaining
    varops ← checked_sub max_varops_budget remaining
    ok (script_value proof_data artifact script weight varops)
