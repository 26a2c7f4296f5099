-- ===== src/UnitTests/Envelopes/Strict.antt =====
-- When the test of the strict envelope passes.
use Prim.Native.String.{String}
use coins_gsr_v.Base.{
  ◌≡◌, ◌↔◌, refl, List, replicate, Result, ok, err, panic, >>=-eq-ok, expect, expect-ok, arith,
}
use coins_gsr_v.Bytes.{Bytes}
use coins_gsr_v.Bytes.Endian.{from_be_bytes}
use coins_gsr_v.Bytes.Order.{bytes_eq_refl}
use coins_gsr_v.Crates.{Coins}
use coins_gsr_v.Protocol.{ascii}
use coins_gsr_v.Wrapper.{Sp1Verifier, decode, verify}
use coins_gsr_v.Wrapper.Envelope.{IsScalar, inputs_of, decode-envelope, decode-ok}
use coins_gsr_v.UnitTests.Envelopes.{
  malformed_envelopes_fail, assert_is_err, strict_envelope_is_not_itself_a_proof,
}
use coins_gsr_v.UnitTests.Envelopes.Passed.{
  malformed_envelopes_fail-passes, whole, envelope-ok, whole_bytes, key_bytes,
}

assert_is_err-err :
    {A : Type 0} (r : Result String A) → assert_is_err r ≡ ok tt → (e : String) × (r ≡ err e)
assert_is_err-err (ok a) h = cc
assert_is_err-err (err e) h = (e, refl)
assert_is_err-err panic h = cc

module _ (coins : Coins) (sp1 : Sp1Verifier) where
  abbrev statement : Bytes
  statement = ascii "statement"

  abbrev inputs : List Bytes
  inputs = inputs_of coins sp1 statement (replicate 32 1) (replicate 32 0)

  zero_scalar : IsScalar (replicate 32 0)
  unfolding from_be_bytes
  zero_scalar = record { array = omega arith; canonical = omega arith }

  key_scalar : IsScalar (replicate 32 1)
  unfolding from_be_bytes
  key_scalar = record { array = key_bytes coins sp1; canonical = omega arith }

  whole_opened :
      IsScalar (sp1.hash_public_inputs statement)
      → IsScalar sp1.vk_root_bytes
      → decode coins sp1 (whole coins sp1) statement (replicate 32 1)
        ≡ ok (record { inputs_be = inputs; raw_proof = replicate 256 0 })
  whole_opened hash root =
      decode-envelope coins sp1 statement (replicate 32 1) (replicate 32 0) (replicate 256 0) refl
        (key_scalar, (hash, (zero_scalar, (root, (zero_scalar, tt)))))

  -- What the test rests on: its five inputs are scalars, and `sp1_verifier` returns an error for the
  -- proof of zeros.
  pub record IsRefused : Type 0 where
    pub hash_scalar : IsScalar (sp1.hash_public_inputs statement)
    pub root_scalar : IsScalar sp1.vk_root_bytes
    pub refused :
        (e : String) × (sp1.verify_gnark_proof (replicate 256 0) inputs sp1.groth16_vk_bytes
          ≡ err e)

  strict-IsRefused : IsRefused → strict_envelope_is_not_itself_a_proof coins sp1 ≡ ok tt
  unfolding strict_envelope_is_not_itself_a_proof verify
  strict-IsRefused r =
      let (e, refused) = r.refused in
      rw (
        envelope-ok coins sp1,
        whole_opened r.hash_scalar r.root_scalar,
        bytes_eq_refl (replicate 32 1),
        bytes_eq_refl (sp1.hash_public_inputs statement),
        refused,
      )

  -- The test of the strict envelope passes exactly if the hash of its values and the key root are
  -- scalars of the field and the verifier returns an error for its proof of zeros.
  strict_envelope-passes_iff : (strict_envelope_is_not_itself_a_proof coins sp1 ≡ ok tt) ↔ IsRefused
  unfolding strict_envelope_is_not_itself_a_proof verify
  strict_envelope-passes_iff = (
    λ h.
        let h0 = rw (envelope-ok coins sp1) at h in
        let (w, opened, _) =
          >>=-eq-ok (expect (decode coins sp1 (whole coins sp1) statement (replicate 32 1))) _ h0 in
        let (_, _, _, _, scalars) =
          decode-ok coins sp1 (whole coins sp1) statement (replicate 32 1) (whole_bytes coins sp1)
            (key_bytes coins sp1)
            (expect-ok (decode coins sp1 (whole coins sp1) statement (replicate 32 1)) opened) in
        let hash = scalars.1.0 in
        let root = scalars.1.1.1.0 in
        record {
          hash_scalar = hash;
          root_scalar = root;
          refused =
              assert_is_err-err
                (sp1.verify_gnark_proof (replicate 256 0) inputs sp1.groth16_vk_bytes)
                (rw
                  (
                    whole_opened hash root,
                    bytes_eq_refl (replicate 32 1),
                    bytes_eq_refl (sp1.hash_public_inputs statement),
                  )
                  at h0);
        },
    strict-IsRefused,
  )

  -- The test of malformed envelopes passes for every hash function and every verifying key: no
  -- shorter or longer string is opened, none with a flipped bit in the prefix, the exit code or the
  -- key root, and none with the order of the field for its nonce or for the program key. The test of
  -- the strict envelope passes exactly if the hash of its values and the key root are scalars of the
  -- field and the verifier returns an error for its proof of zeros.
  pub envelope_tests-pass :
      (malformed_envelopes_fail coins sp1 ≡ ok tt)
      × ((strict_envelope_is_not_itself_a_proof coins sp1 ≡ ok tt) ↔ IsRefused)
  envelope_tests-pass = (malformed_envelopes_fail-passes coins sp1, strict_envelope-passes_iff)
