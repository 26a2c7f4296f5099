-- ===== src/UnitTests/Envelopes.antt =====
-- The two tests of envelopes in crates/prover-host/src/wrapper.rs.
pub mod Passed
pub mod Strict
use Prim.Native.String.{String}
use coins_gsr_v.Base.{
  ℕ, zero, suc, ◌+◌, ◌-◌, Bool, not, ◌&&◌, Option, none, some, List, [], ◌∷◌, ◌++◌, ◌==◌, leb,
  if◌then◌else◌, length, take, drop, replicate, nth, Result, ok, ◌>>=◌, ◌>>◌, expect, or_panic,
  assert, is_err,
}
use coins_gsr_v.Bytes.{Bytes, bytes_eq}
use coins_gsr_v.Bytes.Flip.{flip_at}
use coins_gsr_v.Crates.{Coins}
use coins_gsr_v.Protocol.{ascii}
use coins_gsr_v.Wrapper.{Sp1Verifier, encoded_proof_len, fr_modulus_be, decode, verify}

-- `bytes[from..to].copy_from_slice(source)`, which panics where the lengths differ.
abbrev pub copy_range : ℕ → ℕ → Bytes → Bytes → Option Bytes
copy_range from to source bytes =
    if leb to (length bytes) && length source == to - from
    then some (take from bytes ++ (source ++ drop to bytes))
    else none

-- `assert!(result.is_err())`
abbrev pub assert_is_err : {A : Type 0} → Result String A → Result String (Unit {0})
assert_is_err result = do failed ← is_err result; assert failed

module _ (coins : Coins) (sp1 : Sp1Verifier) where
  unfoldable pub envelope : Result String Bytes
  envelope = do
    let proof : Bytes = replicate encoded_proof_len 0
    prefixed ← or_panic (copy_range 0 4 (take 4 (coins.digest sp1.groth16_vk_bytes)) proof)
    or_panic (copy_range 36 68 sp1.vk_root_bytes prefixed)

  unfoldable pub strict_envelope_is_not_itself_a_proof : Result String (Unit {0})
  strict_envelope_is_not_itself_a_proof = do
    proof ← envelope
    let key : Bytes = replicate 32 1
    wrapper ← expect (decode coins sp1 proof (ascii "statement") key)
    input0 ← or_panic (nth wrapper.inputs_be 0)
    assert (bytes_eq input0 key)
    input1 ← or_panic (nth wrapper.inputs_be 1)
    assert (bytes_eq input1 (sp1.hash_public_inputs (ascii "statement")))
    assert_is_err (verify coins sp1 proof (ascii "statement") key)

  -- The loop over the shorter envelopes, with `count` lengths from `from` on to go.
  unfoldable pub check_prefixes : Bytes → ℕ → ℕ → Result String (Unit {0})
  check_prefixes proof from zero = ok tt
  check_prefixes proof from (suc count) = do
    assert_is_err (decode coins sp1 (take from proof) [] (replicate 32 1))
    check_prefixes proof (from + 1) count

  -- The loop over the flipped bytes.
  unfoldable pub check_flips : Bytes → List ℕ → Result String (Unit {0})
  check_flips proof [] = ok tt
  check_flips proof (index ∷ rest) = do
    bad ← or_panic (flip_at index proof)
    assert_is_err (decode coins sp1 bad [] (replicate 32 1))
    check_flips proof rest

  unfoldable pub malformed_envelopes_fail : Result String (Unit {0})
  malformed_envelopes_fail = do
    proof ← envelope
    check_prefixes proof 0 (length proof)
    check_flips proof (0 ∷ 4 ∷ 36 ∷ [])
    let extra : Bytes = proof ++ (0 ∷ [])
    assert_is_err (decode coins sp1 extra [] (replicate 32 1))
    noncanonical ← or_panic (copy_range 68 100 fr_modulus_be proof)
    assert_is_err (decode coins sp1 noncanonical [] (replicate 32 1))
    again ← envelope
    assert_is_err (decode coins sp1 again [] fr_modulus_be)
