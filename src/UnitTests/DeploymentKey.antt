-- ===== src/UnitTests/DeploymentKey.antt =====
-- The test of crates/prover-host/src/ark_adapter.rs, and when it passes.
use Prim.Native.String.{String}
use coins_gsr_v.Base.{
  ◌<◌, ◌≡◌, ◌≢◌, ◌↔◌, ap, refl, true, ◌==◌, ==_iff, length, replicate, Result, ok, err, panic,
  ◌>>=◌, ◌>>◌, >>=-eq-ok, expect, assert, is_ok, arith,
}
use coins_gsr_v.Bytes.Endian.{from_be_bytes}
use coins_gsr_v.Wrapper.{Sp1Verifier}
use coins_gsr_v.Wrapper.Envelope.{fr_modulus}
use coins_gsr_v.ArkAdapter.{Ark, deployment_key}
use coins_gsr_v.ArkAdapter.Deployment.{
  HasSixPoints, IsFoldable, deployment_key-noncanonical, deployment_key-IsFoldable,
  deployment_key-folds,
}
use coins_gsr_v.UnitTests.Envelopes.{assert_is_err}

-- `assert!(result.is_ok())`
abbrev pub assert_is_ok : {A : Type 0} → Result String A → Result String (Unit {0})
assert_is_ok result = do worked ← is_ok result; assert worked

all_ones-not_scalar : from_be_bytes (replicate 32 0xff) < fr_modulus → ⊥
unfolding from_be_bytes
all_ones-not_scalar h = absurd (omega arith)

assert_is_ok-ok : {A : Type 0} (r : Result String A) → assert_is_ok r ≡ ok tt → (a : A) × (r ≡ ok a)
assert_is_ok-ok (ok a) h = (a, refl)
assert_is_ok-ok (err e) h = cc
assert_is_ok-ok panic h = cc

module _ (ark : Ark) (sp1 : Sp1Verifier) where
  unfoldable pub deployment_key_is_canonical_and_has_five_inputs : Result String (Unit {0})
  deployment_key_is_canonical_and_has_five_inputs = do
    assert_is_err (deployment_key ark sp1 (replicate 32 0xff))
    assert_is_ok (deployment_key ark sp1 (replicate 32 1))
    vk ← expect (ark.load_verifying_key sp1.groth16_vk_bytes)
    assert (length vk.gamma_abc_g1 == 6)

  -- What Arkworks writes for a scalar is below the order of the field.
  abbrev pub IsReduced : Type 0
  IsReduced = (x : ark.Fr) → from_be_bytes (ark.fr_to_bytes_be x) < fr_modulus

  -- If Arkworks writes scalars below the order of the field only, the test passes exactly if the
  -- wrapper's key loads with six points for its inputs and the test's key, of bytes 1, is the encoding
  -- of its scalar and folds to a finite point.
  pub deployment_key_test-passes_iff :
      IsReduced
      → (deployment_key_is_canonical_and_has_five_inputs ≡ ok tt)
        ↔ ((loads : HasSixPoints ark sp1) × IsFoldable ark sp1 loads (replicate 32 1))
  unfolding deployment_key_is_canonical_and_has_five_inputs
  deployment_key_test-passes_iff reduced = (
    λ h.
        let (_, refused, h1) =
          >>=-eq-ok (assert_is_err (deployment_key ark sp1 (replicate 32 0xff))) _ h in
        let (_, worked, _) =
          >>=-eq-ok (assert_is_ok (deployment_key ark sp1 (replicate 32 1))) _ h1 in
        let (_, made) = assert_is_ok-ok (deployment_key ark sp1 (replicate 32 1)) worked in
        deployment_key-folds ark sp1 (replicate 32 1) made,
    λ (loads, f).
        let (_, made) = deployment_key-IsFoldable ark sp1 loads (replicate 32 1) f in
        let six : (length loads.vk.gamma_abc_g1 == 6) ≡ true = (==_iff _ _).1 loads.six in
        rw (
          deployment_key-noncanonical ark sp1 loads (replicate 32 0xff) too_large,
          made,
          loads.loaded,
          six,
        ),
  )
    where
      too_large :
          ark.fr_to_bytes_be (ark.fr_from_be_bytes_mod_order (replicate 32 0xff))
          ≢ replicate 32 0xff
      too_large e =
          let below : from_be_bytes
                (ark.fr_to_bytes_be (ark.fr_from_be_bytes_mod_order (replicate 32 0xff)))
              < fr_modulus =
            reduced (ark.fr_from_be_bytes_mod_order (replicate 32 0xff)) in
          all_ones-not_scalar (omega (arith, below, ap from_be_bytes e))
