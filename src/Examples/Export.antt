-- ===== src/Examples/Export.antt =====
-- The theorems about the export at inputs that meet their hypotheses.
use coins_gsr_v.Base.{ℕ, ◌+◌, ◌*◌, ◌≡◌, refl, false, true, [], ◌∷◌, length, replicate, ok, arith}
use coins_gsr_v.Bytes.{Bytes}
use coins_gsr_v.Bytes.Endian.{from_le_bytes, from_be_bytes}
use coins_gsr_v.Wrapper.Envelope.{envelope}
use coins_gsr_v.ArkAdapter.{
  Ark, VerifyingKey, Export, FoldedKey, fold, trim_zeros, deployment_key, export, export_folded,
}
use coins_gsr_v.ArkAdapter.Agreement.{export-deployment_key}
use coins_gsr_v.ArkAdapter.Deployment.{deployment_key-IsFoldable}
use coins_gsr_v.ArkAdapter.Folding.{IsGroup, IsFolded, deployment_key-IsFolded}
use coins_gsr_v.ArkAdapter.Minimal.{IsMinimal, trim_zeros-IsMinimal}
use coins_gsr_v.Examples.Toy.{toy, sp1}
use coins_gsr_v.Examples.Inputs.{key}
use coins_gsr_v.Examples.Prover.{envelope_opened}

abbrev pub ark_vk : VerifyingKey ℕ ℕ
ark_vk = record {
  alpha_g1 = 1;
  beta_g2 = 2;
  gamma_g2 = 3;
  delta_g2 = 4;
  gamma_abc_g1 = 5 ∷ 6 ∷ 7 ∷ 8 ∷ 9 ∷ 10 ∷ [];
}

-- Scalars are their bytes, points are numbers, and every point and proof is valid.
abbrev pub ark : Ark
ark = record {
  Fr = Bytes;
  Fq = ℕ;
  G1Affine = ℕ;
  G2Affine = ℕ;
  G1Projective = ℕ;
  fq_to_bytes_le = λ x. x ∷ [];
  fr_to_bytes_le = λ x. x;
  fr_to_bytes_be = λ x. x;
  fr_from_be_bytes_mod_order = λ x. x;
  g1_x = λ p. p;
  g1_y = λ p. p;
  g2_x_c0 = λ p. p;
  g2_x_c1 = λ p. p;
  g2_y_c0 = λ p. p;
  g2_y_c1 = λ p. p;
  g1_mul = λ p x. p + length x;
  g1_add_affine = λ p q. p + q;
  g1_add = λ p q. p + q;
  g1_into = λ p. p;
  g1_is_zero = λ p. false;
  g1_is_on_curve = λ p. true;
  g1_is_in_subgroup = λ p. true;
  g2_is_zero = λ p. false;
  g2_is_on_curve = λ p. true;
  g2_is_in_subgroup = λ p. true;
  load_verifying_key = λ bytes. ok ark_vk;
  load_proof = λ bytes. ok (record { a = 1; b = 2; c = 3 });
  verify_proof = λ vk proof inputs. ok true;
  hex_encode = λ bytes. "hex";
}

abbrev hexed : FoldedKey
hexed = record {
  ic0 = "hex" ∷ "hex" ∷ [];
  ic1 = "hex" ∷ "hex" ∷ [];
  ic2 = "hex" ∷ "hex" ∷ [];
  alpha = "hex" ∷ "hex" ∷ [];
  beta = "hex" ∷ "hex" ∷ "hex" ∷ "hex" ∷ [];
  gamma = "hex" ∷ "hex" ∷ "hex" ∷ "hex" ∷ [];
  delta = "hex" ∷ "hex" ∷ "hex" ∷ "hex" ∷ [];
}

abbrev exported : Export
exported = record {
  encoding = "canonical-unsigned-little-endian-hex";
  input0 = "hex";
  input1 = "hex";
  key = hexed;
  proof_a = "hex" ∷ "hex" ∷ [];
  proof_b = "hex" ∷ "hex" ∷ "hex" ∷ "hex" ∷ [];
  proof_c = "hex" ∷ "hex" ∷ [];
}

export_runs :
    export ark sp1 toy (envelope toy sp1 (key 8) (replicate 256 5)) [] (key 7) ≡ ok exported
unfolding export export_folded fold
export_runs = rw envelope_opened refl

export-deployment_key_example : deployment_key ark sp1 (key 7) ≡ ok exported.key
export-deployment_key_example =
    export-deployment_key ark sp1 toy (λ bs width canonical. refl)
      (envelope toy sp1 (key 8) (replicate 256 5)) [] (key 7) (omega arith) (omega arith)
      export_runs

trim_zeros-IsMinimal_example :
    (from_le_bytes (trim_zeros (3 ∷ 0 ∷ 7 ∷ 0 ∷ 0 ∷ [])) ≡ from_le_bytes (3 ∷ 0 ∷ 7 ∷ 0 ∷ 0 ∷ []))
    × IsMinimal (trim_zeros (3 ∷ 0 ∷ 7 ∷ 0 ∷ 0 ∷ []))
trim_zeros-IsMinimal_example = trim_zeros-IsMinimal (3 ∷ 0 ∷ 7 ∷ 0 ∷ 0 ∷ [])

-- The points as the group of the numbers, where a product with a scalar is one of numbers.
abbrev number_ark : Ark
number_ark = record ark { g1_mul = λ p x. p * from_be_bytes x }

number_ark-IsGroup : IsGroup number_ark
unfolding from_be_bytes
number_ark-IsGroup = record {
  value = λ p. p;
  add_affine = λ p q. refl;
  value-into = λ q. refl;
  assoc = λ p q r. omega arith;
  comm = λ p q. omega arith;
  mul_zero = λ q p. omega arith;
}

number_key : (k : FoldedKey) × (deployment_key number_ark sp1 (key 7) ≡ ok k)
unfolding fold
number_key =
    deployment_key-IsFoldable number_ark sp1 (record { vk = ark_vk; loaded = refl; six = refl })
      (key 7) (record { canonical = refl; ic0 = _; folded = refl; finite = refl })

deployment_key-IsFolded_example : IsFolded number_ark sp1 number_ark-IsGroup (key 7) number_key.0
deployment_key-IsFolded_example =
    deployment_key-IsFolded number_ark sp1 number_ark-IsGroup (key 7) number_key.1
