-- ===== src/Evidence/Refusals.antt =====
-- When the wrapper's check refuses, in the terms of SP1's verifier.
use Prim.Native.String.{String}
use coins_gsr_v.Base.{
  ◌≡◌, ◌≤◌, ◌⊎◌, refl, Bool-cases, inl, inr, ltb, ltb_iff, length, All, Result, ok, err, panic,
  ◌>>=◌, Blames, arith,
}
use coins_gsr_v.Bytes.{Bytes, IsByte, IsArray}
use coins_gsr_v.Bytes.Endian.{from_be_bytes}
use coins_gsr_v.Wrapper.{decode, verify}
use coins_gsr_v.Wrapper.Envelope.{
  fr_modulus, IsScalar, envelope, inputs_of, decode-envelope, decode-ok,
}
use coins_gsr_v.Wrapper.Refused.{decode-Blames}
use coins_gsr_v.Evidence.{Environment}
use coins_gsr_v.Evidence.Checks.{Refuses}

-- 32 bytes that stand for a scalar of the field, or for no less than its order.
pub scalar_cases :
    (bytes : Bytes) → IsArray 32 bytes → IsScalar bytes ⊎ (fr_modulus ≤ from_be_bytes bytes)
scalar_cases bytes array = elim (Bool-cases (ltb (from_be_bytes bytes) fr_modulus)) [
  | inl e ↦ inl (record { array = array; canonical = (ltb_iff _ _).0 e })
  | inr e ↦ inr (ground arith)
]

stopped :
    {A B : Type 0} (m : Result String A) (f : A → Result String B)
    → Blames (λ e. Unit) m
    → ((a : A) → m ≡ ok a → ⊥)
    → Refuses (m >>= f)
stopped (ok a) f b h = absurd (h a refl)
stopped (err e) f b h = tt
stopped panic f b h = b

module _ (env : Environment) where
  open env use {coins, sp1, client}

  module _ (nonce raw : Bytes) (raw_width : length raw ≡ 256) where
    -- The wrapper's check of an envelope with five scalars is SP1's of the raw proof.
    pub verify-envelope :
        (values key : Bytes)
        → All IsScalar (inputs_of coins sp1 values key nonce)
        → verify coins sp1 (envelope coins sp1 nonce raw) values key
          ≡ sp1.verify_gnark_proof raw (inputs_of coins sp1 values key nonce) sp1.groth16_vk_bytes
    unfolding verify
    verify-envelope values key scalars =
        rw (decode-envelope coins sp1 values key nonce raw raw_width scalars) refl

  -- It refuses a program key, or a hash of the values, that is no scalar.
  pub verify-noncanonical :
      (proof values key : Bytes)
      → All IsByte proof
      → IsArray 32 key
      → (fr_modulus ≤ from_be_bytes key)
        ⊎ (fr_modulus ≤ from_be_bytes (sp1.hash_public_inputs values))
      → Refuses (verify coins sp1 proof values key)
  unfolding verify
  verify-noncanonical proof values key bytes array big =
      stopped (decode coins sp1 proof values key)
        (λ w. sp1.verify_gnark_proof w.raw_proof w.inputs_be sp1.groth16_vk_bytes)
        (decode-Blames coins sp1 proof values key)
        λ w opened.
          let (_, _, _, _, scalars) = decode-ok coins sp1 proof values key bytes array opened in
          elim big [
            | inl h ↦ absurd (omega (arith, scalars.0.canonical))
            | inr h ↦ absurd (omega (arith, scalars.1.0.canonical))
          ]
