-- ===== src/UnitTests/Envelopes/Passed.antt =====
-- The test of malformed envelopes passes.
use Prim.Native.String.{String}
use coins_gsr_v.Base.{
  ℕ, zero, suc, ◌+◌, ◌≤◌, ◌<◌, ◌≡◌, refl, sym, ◌∙◌, true, some, List, [], ◌∷◌, ◌++◌, leb, leb_iff,
  length, take, replicate, All, All-append, All-take, length-take, length-append, Result, ok, err,
  panic, Blames, arith,
}
use coins_gsr_v.Bytes.{Bytes, IsByte, IsArray}
use coins_gsr_v.Bytes.Flip.{flip_at-some}
use coins_gsr_v.Crates.{Coins}
use coins_gsr_v.Wrapper.{Sp1Verifier, encoded_proof_len, fr_modulus_be, decode}
use coins_gsr_v.Wrapper.Envelope.{IsScalar, inputs_of, decode-envelope, decode-ok}
use coins_gsr_v.Wrapper.Envelope
use coins_gsr_v.Wrapper.Refused.{
  decode-Blames, decode-length, front, length-front, envelope-front, take-envelope, nonce_written,
  decode-front, decode-nonce, fr_modulus-refused,
}
use coins_gsr_v.UnitTests.Envelopes.{
  copy_range, assert_is_err, envelope, check_prefixes, check_flips, malformed_envelopes_fail,
}

-- What neither panics nor succeeds is an error.
assert_is_err-passes :
    {A : Type 0} (r : Result String A)
    → Blames (λ e. Unit) r
    → ((a : A) → ¬ (r ≡ ok a))
    → assert_is_err r ≡ ok tt
assert_is_err-passes (ok a) h refused = absurd (refused a refl)
assert_is_err-passes (err e) h refused = refl
assert_is_err-passes panic h refused = absurd h

-- The key root is written over zeros behind a prefix of four bytes.
root_copied :
    (prefix root : Bytes)
    → length prefix ≡ 4
    → length root ≡ 32
    → copy_range 36 68 root (prefix ++ replicate 352 0)
      ≡ some (prefix ++ (replicate 32 0 ++ (root ++ (replicate 32 0 ++ replicate 256 0))))
root_copied (a ∷ b ∷ c ∷ d ∷ []) root h width = rw width refl
root_copied [] root h width = absurd (omega arith)
root_copied (a ∷ []) root h width = absurd (omega arith)
root_copied (a ∷ b ∷ []) root h width = absurd (omega arith)
root_copied (a ∷ b ∷ c ∷ []) root h width = absurd (omega arith)
root_copied (a ∷ b ∷ c ∷ d ∷ e ∷ rest) root h width = absurd (omega arith)

module _ (coins : Coins) (sp1 : Sp1Verifier) where
  abbrev pub prefix : Bytes
  prefix = take 4 (coins.digest sp1.groth16_vk_bytes)

  prefix_width : length prefix ≡ 4
  prefix_width =
      length-take 4 (coins.digest sp1.groth16_vk_bytes)
        (omega (arith, (coins.digest-IsArray sp1.groth16_vk_bytes).0))

  -- The envelope of the tests: the layout with a zero nonce and a zero proof.
  abbrev pub whole : Bytes
  whole = Envelope.envelope coins sp1 (replicate 32 0) (replicate 256 0)

  pub envelope-ok : envelope coins sp1 ≡ ok whole
  unfolding envelope
  envelope-ok =
      rw (prefix_width, root_copied prefix sp1.vk_root_bytes prefix_width sp1.vk_root-IsArray.0)

  length-envelope :
      (nonce raw : Bytes)
      → length (Envelope.envelope coins sp1 nonce raw) ≡ 68 + (length nonce + length raw)
  length-envelope nonce raw = rw (envelope-front coins sp1 nonce raw) (
      omega (
        arith,
        length-front coins sp1,
        length-append (front coins sp1) (nonce ++ raw),
        length-append nonce raw,
      ))

  bytes_of :
      (nonce raw : Bytes)
      → All IsByte nonce
      → All IsByte raw
      → All IsByte (Envelope.envelope coins sp1 nonce raw)
  bytes_of nonce raw hn hr =
      All-append IsByte prefix _
        (All-take IsByte 4 (coins.digest sp1.groth16_vk_bytes)
          (coins.digest-IsArray sp1.groth16_vk_bytes).1)
        (All-append IsByte (replicate 32 0) _ (omega arith) (
          All-append IsByte sp1.vk_root_bytes _ sp1.vk_root-IsArray.1
            (All-append IsByte nonce raw hn hr)))

  pub whole_bytes : All IsByte whole
  whole_bytes = bytes_of (replicate 32 0) (replicate 256 0) (omega arith) (omega arith)

  module _ (program_key : Bytes) (key : IsArray 32 program_key) where
    -- An envelope of another length fails.
    misfit :
        (proof : Bytes)
        → ¬ (length proof ≡ encoded_proof_len)
        → assert_is_err (decode coins sp1 proof [] program_key) ≡ ok tt
    misfit proof other =
        assert_is_err-passes (decode coins sp1 proof [] program_key)
          (decode-Blames coins sp1 proof [] program_key)
          (λ w opened. other (decode-length coins sp1 proof [] program_key opened))

  pub key_bytes : IsArray 32 (replicate 32 1)
  key_bytes = omega arith

  prefixes-pass :
      (count from : ℕ) → from + count ≤ 356 → check_prefixes coins sp1 whole from count ≡ ok tt
  unfolding check_prefixes
  prefixes-pass zero from h = refl
  prefixes-pass (suc count) from h =
      let len = length-envelope (replicate 32 0) (replicate 256 0) in
      let cut = length-take from whole (omega arith) in
      rw (
        misfit (replicate 32 1) key_bytes (take from whole) (λ e. omega arith),
        prefixes-pass count (from + 1) (omega arith),
      )

  flips-pass :
      (indices : List ℕ) → All (λ i. i < 68) indices → check_flips coins sp1 whole indices ≡ ok tt
  unfolding check_flips
  flips-pass [] h = refl
  flips-pass (index ∷ rest) h =
      let len = length-envelope (replicate 32 0) (replicate 256 0) in
      let (bad, is_bad, bytes, _, new) = flip_at-some index whole (omega arith) whole_bytes in
      let original : take 68 whole ≡ front coins sp1 =
        take-envelope coins sp1 (replicate 32 0) (replicate 256 0) in
      rw (
        is_bad,
        assert_is_err-passes (decode coins sp1 bad [] (replicate 32 1))
            (decode-Blames coins sp1 bad [] (replicate 32 1))
            (λ w opened. new 68 h.0 (
              decode-front coins sp1 bad [] (replicate 32 1) bytes key_bytes opened
              ∙ sym original)),
        flips-pass rest h.1,
      )

  -- The nonce overwritten with the order of the field.
  abbrev noncanonical : Bytes
  noncanonical = Envelope.envelope coins sp1 fr_modulus_be (replicate 256 0)

  noncanonical_copied : copy_range 68 100 fr_modulus_be whole ≡ some noncanonical
  noncanonical_copied =
      let len = length-envelope (replicate 32 0) (replicate 256 0) in
      let reaches : leb 100 (length whole) ≡ true = (leb_iff 100 (length whole)).1 (omega arith) in
      rw (reaches, nonce_written coins sp1 (replicate 32 0) fr_modulus_be (replicate 256 0) refl)

  noncanonical-fails : assert_is_err (decode coins sp1 noncanonical [] (replicate 32 1)) ≡ ok tt
  noncanonical-fails =
      assert_is_err-passes (decode coins sp1 noncanonical [] (replicate 32 1))
        (decode-Blames coins sp1 noncanonical [] (replicate 32 1))
        (λ w opened. fr_modulus-refused coins sp1 (
          decode-nonce coins sp1 fr_modulus_be (replicate 256 0) [] (replicate 32 1)
            (bytes_of fr_modulus_be (replicate 256 0) (omega arith) (omega arith)) key_bytes refl
            opened))

  modulus_key-fails : assert_is_err (decode coins sp1 whole [] fr_modulus_be) ≡ ok tt
  modulus_key-fails =
      assert_is_err-passes (decode coins sp1 whole [] fr_modulus_be)
        (decode-Blames coins sp1 whole [] fr_modulus_be)
        (λ w opened.
          let (_, _, _, _, scalars) =
            decode-ok coins sp1 whole [] fr_modulus_be whole_bytes (omega arith) opened in
          fr_modulus-refused coins sp1 scalars.0)

  pub malformed_envelopes_fail-passes : malformed_envelopes_fail coins sp1 ≡ ok tt
  unfolding malformed_envelopes_fail
  malformed_envelopes_fail-passes =
      let len : length whole ≡ 356 = length-envelope (replicate 32 0) (replicate 256 0) in
      rw (
        envelope-ok,
        prefixes-pass (length whole) 0 (omega arith),
        flips-pass (0 ∷ 4 ∷ 36 ∷ []) (omega arith, (omega arith, (omega arith, tt))),
        misfit (replicate 32 1) key_bytes (whole ++ (0 ∷ []))
            (λ e. omega (arith, length-append whole (0 ∷ []))),
        noncanonical_copied,
        noncanonical-fails,
        modulus_key-fails,
      )
