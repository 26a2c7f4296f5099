-- ===== src/ArkAdapter.antt =====
-- The Arkworks check of crates/prover-host/src/ark_adapter.rs: the verification key folded before any
-- proof, and the export of a proof that was checked against it.
pub mod Agreement
pub mod Deployment
pub mod Minimal
pub mod Folding
use Prim.Native.String.{String}
use coins_gsr_v.Base.{
  nth, ℕ, zero, suc, Bool, not, ◌||◌, Option, none, some, List, [], ◌∷◌, ◌++◌, map, ◌==◌, any,
  if◌then◌else◌, length, Array2, Result, ok, ◌>>=◌, ◌>>◌, or_panic, reject_if,
}
use coins_gsr_v.Bytes.{Bytes, bytes_eq}
use coins_gsr_v.Crates.{Coins}
use coins_gsr_v.Wrapper.{Sp1Verifier, Wrapper, decode}

-- A Groth16 verification key and proof over two groups, as `ark_groth16` has them.
pub record VerifyingKey (G1 G2 : Type 0) : Type 0 where
  pub alpha_g1 : G1
  pub beta_g2 : G2
  pub gamma_g2 : G2
  pub delta_g2 : G2
  pub gamma_abc_g1 : List G1

pub record Proof (G1 G2 : Type 0) : Type 0 where
  pub a : G1
  pub b : G2
  pub c : G1

-- What the adapter takes from Arkworks, `hex` and the loaders of `sp1_verifier`, their errors printed.
pub record Ark : Type 1 where
  pub Fr : Type 0
  pub Fq : Type 0
  pub G1Affine : Type 0
  pub G2Affine : Type 0
  pub G1Projective : Type 0
  -- `into_bigint().to_bytes_le()`, `into_bigint().to_bytes_be()` and `from_be_bytes_mod_order`
  pub fq_to_bytes_le : Fq → Bytes
  pub fr_to_bytes_le : Fr → Bytes
  pub fr_to_bytes_be : Fr → Bytes
  pub fr_from_be_bytes_mod_order : Bytes → Fr
  pub g1_x : G1Affine → Fq
  pub g1_y : G1Affine → Fq
  pub g2_x_c0 : G2Affine → Fq
  pub g2_x_c1 : G2Affine → Fq
  pub g2_y_c0 : G2Affine → Fq
  pub g2_y_c1 : G2Affine → Fq
  -- `point * scalar`, `point + group`, `group + group`, and the conversion to a point
  pub g1_mul : G1Affine → Fr → G1Projective
  pub g1_add_affine : G1Affine → G1Projective → G1Projective
  pub g1_add : G1Projective → G1Projective → G1Projective
  pub g1_into : G1Projective → G1Affine
  pub g1_is_zero : G1Affine → Bool
  pub g1_is_on_curve : G1Affine → Bool
  pub g1_is_in_subgroup : G1Affine → Bool
  pub g2_is_zero : G2Affine → Bool
  pub g2_is_on_curve : G2Affine → Bool
  pub g2_is_in_subgroup : G2Affine → Bool
  pub load_verifying_key : Bytes → Result String (VerifyingKey G1Affine G2Affine)
  pub load_proof : Bytes → Result String (Proof G1Affine G2Affine)
  -- `Groth16::verify_proof(&prepare_verifying_key(vk), proof, inputs)`
  pub verify_proof :
      VerifyingKey G1Affine G2Affine → Proof G1Affine G2Affine → List Fr → Result String Bool
  pub hex_encode : Bytes → String

-- A byte before bytes with no zeros at the end; a zero that has come to the end is popped.
abbrev pub keep_byte : ℕ → Bytes → Bytes
keep_byte b [] = if b == 0 then [] else b ∷ []
keep_byte b (r ∷ rest) = b ∷ r ∷ rest

-- The bytes that are left when the zeros at the end are popped.
unfoldable pub trim_zeros : Bytes → Bytes
trim_zeros [] = []
trim_zeros (b ∷ bs) = keep_byte b (trim_zeros bs)

-- The objects that the two functions make.
pub record FoldedKey : Type 0 where
  pub ic0 : List String
  pub ic1 : List String
  pub ic2 : List String
  pub alpha : List String
  pub beta : List String
  pub gamma : List String
  pub delta : List String

pub record Export : Type 0 where
  pub encoding : String
  pub input0 : String
  pub input1 : String
  pub key : FoldedKey
  pub proof_a : List String
  pub proof_b : List String
  pub proof_c : List String

module _ (ark : Ark) where
  abbrev pub field : {F : Type 0} → (F → Bytes) → F → String
  field to_bytes_le value = ark.hex_encode (trim_zeros (to_bytes_le value))

  abbrev pub g1 : ark.G1Affine → List String
  g1 point =
      field ark.fq_to_bytes_le (ark.g1_x point) ∷ field ark.fq_to_bytes_le (ark.g1_y point) ∷ []

  abbrev pub g2 : ark.G2Affine → List String
  g2 point =
      field ark.fq_to_bytes_le (ark.g2_x_c0 point)
      ∷ field ark.fq_to_bytes_le (ark.g2_x_c1 point)
      ∷ field ark.fq_to_bytes_le (ark.g2_y_c0 point)
      ∷ field ark.fq_to_bytes_le (ark.g2_y_c1 point)
      ∷ []

  -- `(inputs[0] + inputs[1] * scalar + inputs[4] * root).into()`
  unfoldable pub fold : List ark.G1Affine → ark.Fr → ark.Fr → Result String ark.G1Affine
  fold inputs scalar root = do
    input0 ← or_panic (nth inputs 0)
    input1 ← or_panic (nth inputs 1)
    input4 ← or_panic (nth inputs 4)
    ok (
        ark.g1_into (
          ark.g1_add (ark.g1_add_affine input0 (ark.g1_mul input1 scalar))
            (ark.g1_mul input4 root)))

  abbrev pub folded_key :
      VerifyingKey ark.G1Affine ark.G2Affine
      → ark.G1Affine
      → ark.G1Affine
      → ark.G1Affine
      → FoldedKey
  folded_key vk ic0 ic1 ic2 = record {
    ic0 = g1 ic0;
    ic1 = g1 ic1;
    ic2 = g1 ic2;
    alpha = g1 vk.alpha_g1;
    beta = g2 vk.beta_g2;
    gamma = g2 vk.gamma_g2;
    delta = g2 vk.delta_g2;
  }

  module _ (sp1 : Sp1Verifier) where
    pub deployment_key : Bytes → Result String FoldedKey
    deployment_key program = do
      vk ← ark.load_verifying_key sp1.groth16_vk_bytes
      reject_if (not (length vk.gamma_abc_g1 == 6)) "wrong public-input count"
      let scalar : ark.Fr = ark.fr_from_be_bytes_mod_order program
      reject_if (not (bytes_eq (ark.fr_to_bytes_be scalar) program))
          "noncanonical program-key scalar"
      let root : ark.Fr = ark.fr_from_be_bytes_mod_order sp1.vk_root_bytes
      fixed ← fold vk.gamma_abc_g1 scalar root
      reject_if (ark.g1_is_zero fixed) "infinite folded key"
      input2 ← or_panic (nth vk.gamma_abc_g1 2)
      input5 ← or_panic (nth vk.gamma_abc_g1 5)
      ok (folded_key vk fixed input2 input5)

    abbrev pub is_bad_g1 : ark.G1Affine → Bool
    is_bad_g1 point =
        ark.g1_is_zero point || not (ark.g1_is_on_curve point) || not (ark.g1_is_in_subgroup point)

    abbrev pub is_bad_g2 : ark.G2Affine → Bool
    is_bad_g2 point =
        ark.g2_is_zero point || not (ark.g2_is_on_curve point) || not (ark.g2_is_in_subgroup point)

    abbrev pub is_invalid :
        VerifyingKey ark.G1Affine ark.G2Affine → Proof ark.G1Affine ark.G2Affine → Bool
    is_invalid vk proof =
        not (length vk.gamma_abc_g1 == 6)
        || any is_bad_g1 (vk.gamma_abc_g1 ++ (vk.alpha_g1 ∷ proof.a ∷ proof.c ∷ []))
        || any is_bad_g2 (vk.beta_g2 ∷ vk.gamma_g2 ∷ vk.delta_g2 ∷ proof.b ∷ [])

    -- `export` from the folding on.
    unfoldable pub export_folded :
        VerifyingKey ark.G1Affine ark.G2Affine
        → Proof ark.G1Affine ark.G2Affine
        → List ark.Fr
        → Result String Export
    export_folded vk proof' scalars = do
      scalar0 ← or_panic (nth scalars 0)
      scalar3 ← or_panic (nth scalars 3)
      ic0 ← fold vk.gamma_abc_g1 scalar0 scalar3
      input2 ← or_panic (nth vk.gamma_abc_g1 2)
      input5 ← or_panic (nth vk.gamma_abc_g1 5)
      let reduced : VerifyingKey ark.G1Affine ark.G2Affine = record vk {
        gamma_abc_g1 = ic0 ∷ input2 ∷ input5 ∷ [];
      }
      reject_if (ark.g1_is_zero ic0) "folded verification failed"
      scalar1 ← or_panic (nth scalars 1)
      scalar4 ← or_panic (nth scalars 4)
      folded_valid ← ark.verify_proof reduced proof' (scalar1 ∷ scalar4 ∷ [])
      reject_if (not folded_valid) "folded verification failed"
      ok (record {
        encoding = "canonical-unsigned-little-endian-hex";
        input0 = field ark.fr_to_bytes_le scalar1;
        input1 = field ark.fr_to_bytes_le scalar4;
        key = folded_key vk ic0 input2 input5;
        proof_a = g1 proof'.a;
        proof_b = g2 proof'.b;
        proof_c = g1 proof'.c;
      })

    unfoldable pub export : Coins → Bytes → Bytes → Bytes → Result String Export
    export coins proof values program = do
      wrapper ← decode coins sp1 proof values program
      vk ← ark.load_verifying_key sp1.groth16_vk_bytes
      proof' ← ark.load_proof wrapper.raw_proof
      reject_if (is_invalid vk proof') "invalid verification-key or proof point"
      let scalars : List ark.Fr = map ark.fr_from_be_bytes_mod_order wrapper.inputs_be
      valid ← ark.verify_proof vk proof' scalars
      reject_if (not valid) "independent Arkworks verification failed"
      export_folded vk proof' scalars
