-- ===== src/Wrapper.antt =====
-- The Groth16 envelope of SP1: `decode` and `verify` of crates/prover-host/src/wrapper.rs.
pub mod Envelope
pub mod Refused
use Prim.Native.String.{String}
use coins_gsr_v.Base.{
  ℕ, ◌+◌, ◌-◌, Bool, not, List, [], ◌∷◌, ◌==◌, any, length, take, drop, replicate, Result, ok,
  ◌>>=◌, ◌>>◌, reject_if,
}
use coins_gsr_v.Bytes.{Bytes, IsArray, bytes_eq, bytes_lt}
use coins_gsr_v.Crates.{Coins}

-- What the host takes from the crate `sp1_verifier`.
pub record Sp1Verifier : Type 0 where
  pub groth16_vk_bytes : Bytes
  pub vk_root_bytes : Bytes
  pub vk_root-IsArray : IsArray 32 vk_root_bytes
  pub hash_public_inputs : Bytes → Bytes
  pub hash_public_inputs-IsArray : (values : Bytes) → IsArray 32 (hash_public_inputs values)
  -- `verify_gnark_proof(proof, inputs, vk)`, its error printed
  pub verify_gnark_proof : Bytes → List Bytes → Bytes → Result String (Unit {0})

abbrev pub encoded_proof_len : ℕ
encoded_proof_len = 4 + 96 + 256

abbrev pub fr_modulus_be : Bytes
fr_modulus_be =
    0x30 ∷ 0x64 ∷ 0x4e ∷ 0x72 ∷ 0xe1 ∷ 0x31 ∷ 0xa0 ∷ 0x29 ∷ 0xb8 ∷ 0x50 ∷ 0x45 ∷ 0xb6 ∷ 0x81 ∷ 0x81
    ∷ 0x58 ∷ 0x5d ∷ 0x28 ∷ 0x33 ∷ 0xe8 ∷ 0x48 ∷ 0x79 ∷ 0xb9 ∷ 0x70 ∷ 0x91 ∷ 0x43 ∷ 0xe1 ∷ 0xf5
    ∷ 0x93 ∷ 0xf0 ∷ 0x00 ∷ 0x00 ∷ 0x01 ∷ []

pub record Wrapper : Type 0 where
  pub inputs_be : List Bytes
  pub raw_proof : Bytes

-- `bytes[from..to]`; the ranges below lie inside the 356 bytes.
abbrev pub slice : ℕ → ℕ → Bytes → Bytes
slice from to bytes = take (to - from) (drop from bytes)

abbrev pub is_noncanonical : Bytes → Bool
is_noncanonical scalar = not (bytes_lt scalar fr_modulus_be)

module _ (coins : Coins) (sp1 : Sp1Verifier) where
  pub decode : Bytes → Bytes → Bytes → Result String Wrapper
  decode proof values program_key = do
    reject_if (not (length proof == encoded_proof_len)) "expected exactly 356 proof bytes"
    let vk_hash : Bytes = coins.digest sp1.groth16_vk_bytes
    reject_if (not (bytes_eq (take 4 proof) (take 4 vk_hash))) "wrong wrapper key prefix"
    reject_if (not (bytes_eq (slice 4 36 proof) (replicate 32 0))) "guest did not succeed"
    reject_if (not (bytes_eq (slice 36 68 proof) sp1.vk_root_bytes)) "wrong recursion key root"
    let inputs_be : List Bytes =
        program_key
        ∷ sp1.hash_public_inputs values
        ∷ replicate 32 0
        ∷ sp1.vk_root_bytes
        ∷ slice 68 100 proof
        ∷ []
    reject_if (any is_noncanonical inputs_be) "noncanonical scalar"
    ok (record { inputs_be = inputs_be; raw_proof = drop 100 proof })

  unfoldable pub verify : Bytes → Bytes → Bytes → Result String (Unit {0})
  verify proof values program_key = do
    wrapper ← decode proof values program_key
    sp1.verify_gnark_proof wrapper.raw_proof wrapper.inputs_be sp1.groth16_vk_bytes
