-- ===== src/Evidence/Evident.antt =====
-- What the tests of `check_evidence` say of the proof in the envelope.
use coins_gsr_v.Base.{
  ◌≡◌, ◌≤◌, ◌↔◌, ◌⊎◌, ◌∙◌, inl, inr, true, ◌∷◌, [], ◌++◌, length, All, ok, >>=-eq-ok, arith,
}
use coins_gsr_v.Bytes.{Bytes, IsByte, IsArray}
use coins_gsr_v.Bytes.Endian.{from_be_bytes}
use coins_gsr_v.Bytes.Flip.Alike.{
  IsFlipped, IsLastFlipped, IsLastFlipped-flip_last, IsLastFlipped-append, has_last,
  IsLastFlipped-length, IsFlipped-bytes,
}
use coins_gsr_v.Wrapper.{decode, verify}
use coins_gsr_v.Wrapper.Envelope.{fr_modulus, IsScalar, envelope, inputs_of, decode-ok}
use coins_gsr_v.Wrapper.Refused.{front, envelope-front}
use coins_gsr_v.Evidence.{Environment, check_evidence}
use coins_gsr_v.Evidence.Checks.{Refuses, IsVerified, check_evidence-IsVerified_iff}
use coins_gsr_v.Evidence.Refusals.{scalar_cases, verify-envelope, verify-noncanonical}

module _ (env : Environment) where
  open env use {coins, sp1, client}

  module _ (proof : client.Sp1Proof) (proving_key : client.ProvingKey) (key expected : Bytes) where
    -- The proof is a Groth16 proof of the statement for the program, to SP1. Its bytes are an envelope
    -- of a raw proof that SP1's verifier accepts with the program key and the statement's hash among
    -- five scalars. Neither accepts it with the lowest bit of the statement's first byte flipped;
    -- nor is the raw proof accepted with the lowest bit of its last byte flipped, or with that of the
    -- program key's last byte. What is no scalar need not be tried.
    pub record IsEvident : Type 0 where
      pub groth16 : client.is_groth16 proof ≡ true
      pub verified : client.verify proof proving_key ≡ ok tt
      pub values : client.public_values proof ≡ expected
      pub nonce : Bytes
      pub raw : Bytes
      pub layout : client.proof_bytes proof ≡ envelope coins sp1 nonce raw
      pub raw_width : length raw ≡ 256
      pub scalars : All IsScalar (inputs_of coins sp1 expected key nonce)
      pub accepted :
          sp1.verify_gnark_proof raw (inputs_of coins sp1 expected key nonce) sp1.groth16_vk_bytes
          ≡ ok tt
      pub wrong_values : Bytes
      pub is_wrong_values : IsFlipped 0 expected wrong_values
      pub wrong_values_refused :
          Refuses (client.verify (client.with_public_values proof wrong_values) proving_key)
      pub wrong_hash_refused :
          (fr_modulus ≤ from_be_bytes (sp1.hash_public_inputs wrong_values))
          ⊎ Refuses (
              sp1.verify_gnark_proof raw
                (inputs_of coins sp1 wrong_values key nonce)
                sp1.groth16_vk_bytes)
      pub corrupted : Bytes
      pub is_corrupted : IsLastFlipped raw corrupted
      pub corrupted_refused : Refuses (
          sp1.verify_gnark_proof corrupted
            (inputs_of coins sp1 expected key nonce)
            sp1.groth16_vk_bytes)
      pub wrong_key : Bytes
      pub is_wrong_key : IsFlipped 31 key wrong_key
      pub wrong_key_refused :
          (fr_modulus ≤ from_be_bytes wrong_key)
          ⊎ Refuses (
              sp1.verify_gnark_proof raw
                (inputs_of coins sp1 expected wrong_key nonce)
                sp1.groth16_vk_bytes)

    module _ (bytes : All IsByte (client.proof_bytes proof)) (array : IsArray 32 key) where
      -- The envelope of a raw proof, whose last byte is the proof's.
      last_flipped :
          (nonce raw flipped : Bytes)
          → IsLastFlipped raw flipped
          → IsLastFlipped (envelope coins sp1 nonce raw) (envelope coins sp1 nonce flipped)
      last_flipped nonce raw flipped f =
          rw (envelope-front coins sp1 nonce raw, envelope-front coins sp1 nonce flipped)
            (IsLastFlipped-append (front coins sp1) (nonce ++ raw) (nonce ++ flipped)
              (IsLastFlipped-append nonce raw flipped f))

      some_last : (raw : Bytes) → length raw ≡ 256 → (flipped : Bytes) × IsLastFlipped raw flipped
      some_last [] h = absurd (omega arith)
      some_last (b ∷ bs) h = has_last b bs

      -- The wrapper's refusal is SP1's, where the number that was changed is still a scalar.
      wrong_hash :
          (nonce raw wrong : Bytes)
          → length raw ≡ 256
          → All IsScalar (inputs_of coins sp1 expected key nonce)
          → Refuses (verify coins sp1 (envelope coins sp1 nonce raw) wrong key)
          → (fr_modulus ≤ from_be_bytes (sp1.hash_public_inputs wrong))
            ⊎ Refuses (
                sp1.verify_gnark_proof raw
                  (inputs_of coins sp1 wrong key nonce)
                  sp1.groth16_vk_bytes)
      wrong_hash nonce raw wrong width (s0, (_, rest)) refused =
          elim (scalar_cases (sp1.hash_public_inputs wrong)
            (sp1.hash_public_inputs-IsArray wrong)) [
              | inl s ↦
                  inr
                    (rw (verify-envelope env nonce raw width wrong key (s0, (s, rest))) at refused)
              | inr big ↦ inl big
            ]

      wrong_program :
          (nonce raw wrong : Bytes)
          → length raw ≡ 256
          → IsArray 32 wrong
          → All IsScalar (inputs_of coins sp1 expected key nonce)
          → Refuses (verify coins sp1 (envelope coins sp1 nonce raw) expected wrong)
          → (fr_modulus ≤ from_be_bytes wrong)
            ⊎ Refuses (
                sp1.verify_gnark_proof raw
                  (inputs_of coins sp1 expected wrong nonce)
                  sp1.groth16_vk_bytes)
      wrong_program nonce raw wrong width wrong_array (_, rest) refused =
          elim (scalar_cases wrong wrong_array) [
            | inl s ↦
                inr (rw (verify-envelope env nonce raw width expected wrong (s, rest)) at refused)
            | inr big ↦ inl big
          ]

      IsVerified-IsEvident : IsVerified env proof proving_key key expected → IsEvident
      unfolding verify
      IsVerified-IsEvident v =
          let (w, opened, gnark) =
            >>=-eq-ok (decode coins sp1 (client.proof_bytes proof) expected key) _ v.wrapped in
          let (nonce, layout, width, inputs_are, scalars) =
            decode-ok coins sp1 (client.proof_bytes proof) expected key bytes array opened in
          let (flipped, is_flipped) = some_last w.raw_proof width in
          let found =
            IsLastFlipped-flip_last (client.proof_bytes proof) v.corrupted v.is_corrupted in
          let made =
            IsLastFlipped-flip_last (client.proof_bytes proof) (envelope coins sp1 nonce flipped)
              (rw layout (last_flipped nonce w.raw_proof flipped is_flipped)) in
          let corrupted_is : v.corrupted ≡ envelope coins sp1 nonce flipped = cc (found, made) in
          let flipped_width = IsLastFlipped-length w.raw_proof flipped is_flipped ∙ width in
          record {
            groth16 = v.groth16;
            verified = v.verified;
            values = v.values;
            nonce = nonce;
            raw = w.raw_proof;
            layout = layout;
            raw_width = width;
            scalars = scalars;
            accepted = rw inputs_are at gnark;
            wrong_values = v.wrong_values;
            is_wrong_values = v.is_wrong_values;
            wrong_values_refused = v.wrong_values_refused;
            wrong_hash_refused =
                wrong_hash nonce w.raw_proof v.wrong_values width scalars
                  (rw layout at v.wrong_values_unwrapped);
            corrupted = flipped;
            is_corrupted = is_flipped;
            corrupted_refused =
                rw
                  (
                    corrupted_is,
                    verify-envelope env nonce flipped flipped_width expected key scalars,
                  )
                  at v.corrupted_refused;
            wrong_key = v.wrong_key;
            is_wrong_key = v.is_wrong_key;
            wrong_key_refused =
                wrong_program nonce w.raw_proof v.wrong_key width
                  (wrong_array v.wrong_key v.is_wrong_key) scalars
                  (rw layout at v.wrong_key_refused);
          }
        where
          wrong_array : (wrong : Bytes) → IsFlipped 31 key wrong → IsArray 32 wrong
          wrong_array wrong f =
              let (len, fits) = IsFlipped-bytes 31 key wrong f array.1 in (len ∙ array.0, fits)

      IsEvident-IsVerified : IsEvident → IsVerified env proof proving_key key expected
      IsEvident-IsVerified v =
          let s = v.scalars in
          let whole : All IsByte (envelope coins sp1 v.nonce v.raw) = rw (← v.layout) bytes in
          let corrupted_width =
            IsLastFlipped-length v.raw v.corrupted v.is_corrupted ∙ v.raw_width in
          let (len, fits) = IsFlipped-bytes 31 key v.wrong_key v.is_wrong_key array.1 in
          record {
            groth16 = v.groth16;
            verified = v.verified;
            values = v.values;
            wrapped =
                rw (v.layout) (
                  verify-envelope env v.nonce v.raw v.raw_width expected key v.scalars
                  ∙ v.accepted);
            wrong_values = v.wrong_values;
            is_wrong_values = v.is_wrong_values;
            wrong_values_refused = v.wrong_values_refused;
            wrong_values_unwrapped = rw (v.layout) (elim v.wrong_hash_refused [
              | inl big ↦ verify-noncanonical env _ v.wrong_values key whole array (inr big)
              | inr refused ↦
                  elim (scalar_cases (sp1.hash_public_inputs v.wrong_values)
                    (sp1.hash_public_inputs-IsArray v.wrong_values)) [
                      | inl x ↦
                          rw
                            (verify-envelope env v.nonce v.raw v.raw_width v.wrong_values key
                              (s.0, (x, s.1.1)))
                            refused
                      | inr big ↦ verify-noncanonical env _ v.wrong_values key whole array (inr big)
                    ]
            ]);
            corrupted = envelope coins sp1 v.nonce v.corrupted;
            is_corrupted = rw (v.layout) (last_flipped v.nonce v.raw v.corrupted v.is_corrupted);
            corrupted_refused =
                rw (verify-envelope env v.nonce v.corrupted corrupted_width expected key v.scalars)
                  v.corrupted_refused;
            wrong_key = v.wrong_key;
            is_wrong_key = v.is_wrong_key;
            wrong_key_refused = rw (v.layout) (elim v.wrong_key_refused [
              | inl big ↦
                  verify-noncanonical env _ expected v.wrong_key whole (len ∙ array.0, fits)
                    (inl big)
              | inr refused ↦ elim (scalar_cases v.wrong_key (len ∙ array.0, fits)) [
                | inl x ↦
                    rw (verify-envelope env v.nonce v.raw v.raw_width expected v.wrong_key (x, s.1))
                      refused
                | inr big ↦
                    verify-noncanonical env _ expected v.wrong_key whole (len ∙ array.0, fits)
                      (inl big)
              ]
            ]);
          }

      -- For a proof of bytes and a program key of 32 bytes, `check_evidence` passes exactly if the
      -- proof is evident: a Groth16 proof of the statement for the program to SP1, in an envelope whose
      -- raw proof SP1's verifier accepts with the program key and the statement's hash among five
      -- scalars, and refuses with one bit flipped in the statement, in the raw proof's last byte or in
      -- the program key's, as SP1 does for the statement; a changed number that is no scalar counts as
      -- refused.
      pub check_evidence-ok_iff :
          (check_evidence env proof proving_key key expected ≡ ok tt) ↔ IsEvident
      check_evidence-ok_iff =
          let (to, from) = check_evidence-IsVerified_iff env proof proving_key key expected in
          (λ h. IsVerified-IsEvident (to h), λ v. from (IsEvident-IsVerified v))
