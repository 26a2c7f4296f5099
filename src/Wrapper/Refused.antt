-- ===== src/Wrapper/Refused.antt =====
-- What `decode` refuses: it never panics, and what is not of the layout is an error.
use mathlib.Core.List.{append_assoc}
use coins_gsr_v.Base.{
  drop-drop, drop-append, ◌≡◌, refl, sym, ap, ◌∙◌, not, ◌++◌, ◌==◌, ==_iff, length, take, drop,
  replicate, All, ok, >>=-eq-ok, reject_if, Blames, passed, arith, take-append, length-append,
  length-take, append_cancel,
}
use coins_gsr_v.Bytes.{Bytes, IsByte, IsArray}
use coins_gsr_v.Crates.{Coins}
use coins_gsr_v.Wrapper.{Sp1Verifier, Wrapper, encoded_proof_len, fr_modulus_be, decode}
use coins_gsr_v.Wrapper.Envelope.{fr_modulus_lem, IsScalar, envelope, decode-ok}

module _ (coins : Coins) (sp1 : Sp1Verifier) where
  -- `decode` has no panic.
  pub decode-Blames :
      (proof values program_key : Bytes)
      → Blames (λ e. Unit) (decode coins sp1 proof values program_key)
  unfolding decode
  decode-Blames proof values program_key = ground arith

  pub decode-length :
      (proof values program_key : Bytes) {w : Wrapper}
      → decode coins sp1 proof values program_key ≡ ok w
      → length proof ≡ encoded_proof_len
  unfolding decode
  decode-length proof values program_key h =
      let (_, width, _) = >>=-eq-ok (reject_if (not (length proof == encoded_proof_len)) _) _ h in
      (==_iff _ _).0 (passed _ _ width)

  -- The part of the layout that is the same in every envelope.
  abbrev pub front : Bytes
  front = take 4 (coins.digest sp1.groth16_vk_bytes) ++ (replicate 32 0 ++ sp1.vk_root_bytes)

  pub length-front : length front ≡ 68
  length-front =
      let vk = take 4 (coins.digest sp1.groth16_vk_bytes) in
      let vk_width : length vk ≡ 4 =
        length-take 4 (coins.digest sp1.groth16_vk_bytes)
          (omega (arith, (coins.digest-IsArray sp1.groth16_vk_bytes).0)) in
      omega (
        arith,
        vk_width,
        sp1.vk_root-IsArray.0,
        length-append vk (replicate 32 0 ++ sp1.vk_root_bytes),
        length-append (replicate 32 0) sp1.vk_root_bytes,
      )

  pub envelope-front : (nonce raw : Bytes) → envelope coins sp1 nonce raw ≡ front ++ (nonce ++ raw)
  envelope-front nonce raw = rw (append_assoc) refl

  pub take-envelope : (nonce raw : Bytes) → take 68 (envelope coins sp1 nonce raw) ≡ front
  take-envelope nonce raw =
      ap (take 68) (envelope-front nonce raw) ∙ take-append 68 front (nonce ++ raw) length-front

  -- What is opened begins with the front.
  pub decode-front :
      (proof values program_key : Bytes) {w : Wrapper}
      → All IsByte proof
      → IsArray 32 program_key
      → decode coins sp1 proof values program_key ≡ ok w
      → take 68 proof ≡ front
  decode-front proof values program_key {w} bytes key h =
      let (nonce, is_envelope, _, _, _) =
        decode-ok coins sp1 proof values program_key bytes key h in
      ap (take 68) is_envelope ∙ take-envelope nonce w.raw_proof

  -- A number written over the nonce of an envelope.
  pub nonce_written :
      (nonce other raw : Bytes)
      → length nonce ≡ 32
      → take 68 (envelope coins sp1 nonce raw) ++ (other ++ drop 100 (envelope coins sp1 nonce raw))
        ≡ envelope coins sp1 other raw
  nonce_written nonce other raw width =
      let behind : drop 100 (envelope coins sp1 nonce raw) ≡ raw =
        ap (drop 100) (envelope-front nonce raw)
        ∙ sym (drop-drop 32 68 100 (front ++ (nonce ++ raw)) refl)
        ∙ ap (drop 32) (drop-append 68 front (nonce ++ raw) length-front)
        ∙ drop-append 32 nonce raw width in
      rw (take-envelope nonce raw, behind, envelope-front other raw)

  -- The order of the field is no scalar.
  pub fr_modulus-refused : IsScalar fr_modulus_be → ⊥
  fr_modulus-refused s = absurd (omega (arith, s.canonical, fr_modulus_lem))

  -- An envelope that is opened has a scalar for its nonce.
  pub decode-nonce :
      (nonce raw values program_key : Bytes) {w : Wrapper}
      → All IsByte (envelope coins sp1 nonce raw)
      → IsArray 32 program_key
      → length nonce ≡ 32
      → decode coins sp1 (envelope coins sp1 nonce raw) values program_key ≡ ok w
      → IsScalar nonce
  decode-nonce nonce raw values program_key {w} bytes key width h =
      let (found, is_envelope, _, _, scalars) =
        decode-ok coins sp1 (envelope coins sp1 nonce raw) values program_key bytes key h in
      let (_, rests) =
        append_cancel front front {us = nonce ++ raw} {vs = found ++ w.raw_proof} refl
          (sym (envelope-front nonce raw) ∙ is_envelope ∙ envelope-front found w.raw_proof) in
      let (same, _) =
        append_cancel nonce found {us = raw} {vs = w.raw_proof}
          (omega (arith, scalars.1.1.1.1.0.array.0)) rests in
      rw same scalars.1.1.1.1.0
