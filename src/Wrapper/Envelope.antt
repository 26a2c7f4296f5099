-- ===== src/Wrapper/Envelope.antt =====
-- Which envelopes `decode` opens: their layout, and the range of their scalars as numbers.
use coins_gsr_v.Base.{
  not_rejected, passed, ap₂, ==_iff, length-drop, ◌≤◌, sym, ap, ◌∙◌, drop-drop, ℕ, ◌-◌, ◌<◌, ◌≡◌,
  ◌↔◌, refl, true, false, not, List, [], ◌∷◌, ◌++◌, ◌==◌, any, length, take, drop, replicate, All,
  ok, >>=-eq-ok, reject_if, arith, take-append, drop-append, take-append-drop, All-take, All-drop,
  length-take, length-append,
}
use coins_gsr_v.Bytes.{Bytes, IsByte, IsArray, bytes_eq}
use coins_gsr_v.Bytes.Endian.{from_be_bytes}
use coins_gsr_v.Bytes.Order.{bytes_eq_refl, bytes_eq_iff, bytes_lt-from_be_bytes}
use coins_gsr_v.Crates.{Coins}
use coins_gsr_v.Wrapper.{
  Sp1Verifier, Wrapper, encoded_proof_len, fr_modulus_be, slice, is_noncanonical, decode,
}

-- The order of the scalar field of BN254.
abbrev pub fr_modulus : ℕ
fr_modulus = 21888242871839275222246405745257275088548364400416034343698204186575808495617

-- 32 big-endian bytes that stand for a number below the order of the field.
pub record IsScalar (bytes : Bytes) : Type 0 where
  pub array : IsArray 32 bytes
  pub canonical : from_be_bytes bytes < fr_modulus

pub fr_modulus_lem : from_be_bytes fr_modulus_be ≡ fr_modulus
unfolding from_be_bytes
fr_modulus_lem = refl

is_noncanonical-false_iff :
    (bytes : Bytes)
    → IsArray 32 bytes
    → (is_noncanonical bytes ≡ false) ↔ (from_be_bytes bytes < fr_modulus)
is_noncanonical-false_iff bytes h =
    let (f, g) = bytes_lt-from_be_bytes bytes fr_modulus_be (h.0) h.1 (omega arith) in
    (λ e. rw fr_modulus_lem at (f (ground arith)), λ e. ground (arith, g (rw fr_modulus_lem e)))

any-is_noncanonical : (xs : List Bytes) → All IsScalar xs → any is_noncanonical xs ≡ false
any-is_noncanonical [] h = refl
any-is_noncanonical (x ∷ xs) h =
    ground
      (arith, (is_noncanonical-false_iff x h.0.array).1 h.0.canonical, any-is_noncanonical xs h.1)

any-IsScalar :
    (xs : List Bytes) → All (IsArray 32) xs → any is_noncanonical xs ≡ false → All IsScalar xs
any-IsScalar [] h e = tt
any-IsScalar (x ∷ xs) h e = (
  record { array = h.0; canonical = (is_noncanonical-false_iff x h.0).0 (ground arith) },
  any-IsScalar xs h.1 (ground arith),
)

-- A string cut at two places.
cut : (from to : ℕ) (xs : Bytes) → from ≤ to → slice from to xs ++ drop to xs ≡ drop from xs
cut from to xs h =
    rw (← drop-drop (to - from) from to xs (omega arith))
      (take-append-drop (to - from) (drop from xs))

module _ (coins : Coins) (sp1 : Sp1Verifier) where
  -- The layout: the key's prefix, a zero exit code, the root of the recursion keys, a nonce, the proof.
  abbrev pub envelope : Bytes → Bytes → Bytes
  envelope nonce raw =
      take 4 (coins.digest sp1.groth16_vk_bytes)
      ++ (replicate 32 0 ++ (sp1.vk_root_bytes ++ (nonce ++ raw)))

  abbrev pub inputs_of : Bytes → Bytes → Bytes → List Bytes
  inputs_of values program_key nonce =
      program_key ∷ sp1.hash_public_inputs values ∷ replicate 32 0 ∷ sp1.vk_root_bytes ∷ nonce ∷ []

  layout :
      (proof : Bytes)
      → take 4 proof ≡ take 4 (coins.digest sp1.groth16_vk_bytes)
      → slice 4 36 proof ≡ replicate 32 0
      → slice 36 68 proof ≡ sp1.vk_root_bytes
      → proof ≡ envelope (slice 68 100 proof) (drop 100 proof)
  layout proof p z r =
      let from68 = sym (cut 68 100 proof (omega arith)) in
      let from36 = sym (cut 36 68 proof (omega arith)) ∙ ap₂ ◌++◌ r from68 in
      let from4 = sym (cut 4 36 proof (omega arith)) ∙ ap₂ ◌++◌ z from36 in
      sym (take-append-drop 4 proof) ∙ ap₂ ◌++◌ p from4

  -- `decode` opens every envelope of the layout whose raw proof has 256 bytes and whose five inputs
  -- are scalars of the field: 32 bytes that stand, big-endian, for less than its order.
  pub decode-envelope :
      (values program_key nonce raw : Bytes)
      → length raw ≡ 256
      → All IsScalar (inputs_of values program_key nonce)
      → decode coins sp1 (envelope nonce raw) values program_key
        ≡ ok (record { inputs_be = inputs_of values program_key nonce; raw_proof = raw })
  unfolding decode
  decode-envelope values program_key nonce raw l (s0, (s1, (s2, (s3, (s4, _))))) =
      let vk = take 4 (coins.digest sp1.groth16_vk_bytes) in
      let root = sp1.vk_root_bytes in
      let zeros : Bytes = replicate 32 0 in
      let whole = envelope nonce raw in
      let vk_width : length vk ≡ 4 =
        length-take 4 (coins.digest sp1.groth16_vk_bytes)
          (omega (arith, (coins.digest-IsArray sp1.groth16_vk_bytes).0)) in
      let from4 = drop-append 4 vk (zeros ++ (root ++ (nonce ++ raw))) vk_width in
      let from36 : drop 36 whole ≡ root ++ (nonce ++ raw) =
        sym (drop-drop 32 4 36 whole refl) ∙ ap (drop 32) from4 in
      let from68 : drop 68 whole ≡ nonce ++ raw =
        sym (drop-drop 32 36 68 whole refl)
        ∙ ap (drop 32) from36
        ∙ drop-append 32 root (nonce ++ raw) sp1.vk_root-IsArray.0 in
      let from100 : drop 100 whole ≡ raw =
        sym (drop-drop 32 68 100 whole refl)
        ∙ ap (drop 32) from68
        ∙ drop-append 32 nonce raw s4.array.0 in
      let len : length whole ≡ encoded_proof_len = omega (
        arith,
        length-append vk (zeros ++ (root ++ (nonce ++ raw))),
        length-append zeros (root ++ (nonce ++ raw)),
        length-append root (nonce ++ raw),
        length-append nonce raw,
        sp1.vk_root-IsArray.0,
        s4.array.0,
      ) in
      let width : (length whole == encoded_proof_len) ≡ true = (==_iff _ _).1 len in
      let prefix_ok : bytes_eq (take 4 whole) vk ≡ true =
        rw (take-append 4 vk (zeros ++ (root ++ (nonce ++ raw))) vk_width) (bytes_eq_refl vk) in
      let exit_ok : bytes_eq (slice 4 36 whole) zeros ≡ true = rw from4 (bytes_eq_refl zeros) in
      let root_ok : bytes_eq (slice 36 68 whole) root ≡ true =
        rw (from36, take-append 32 root (nonce ++ raw) sp1.vk_root-IsArray.0)
          (bytes_eq_refl root) in
      let nonce_is : slice 68 100 whole ≡ nonce = rw from68 (take-append 32 nonce raw s4.array.0) in
      let scalars =
        any-is_noncanonical (inputs_of values program_key nonce) (s0, (s1, (s2, (s3, (s4, tt))))) in
      rw (width, prefix_ok, exit_ok, root_ok, nonce_is, scalars, from100)

  -- What `decode` opens, for a proof of bytes and a program key of 32 bytes, is an envelope of the
  -- layout with a raw proof of 256 bytes; the five inputs that it returns are the program key, the
  -- hash of the values, the zero exit code, the key root and the nonce, all scalars of the field.
  pub decode-ok :
      (proof values program_key : Bytes) {w : Wrapper}
      → All IsByte proof
      → IsArray 32 program_key
      → decode coins sp1 proof values program_key ≡ ok w
      → (nonce : Bytes) × (proof ≡ envelope nonce w.raw_proof)
        × (length w.raw_proof ≡ 256)
        × (w.inputs_be ≡ inputs_of values program_key nonce)
        × All IsScalar (inputs_of values program_key nonce)
  unfolding decode
  decode-ok proof values program_key {w} hp hk h =
      let (_, width, h1) = >>=-eq-ok (reject_if (not (length proof == encoded_proof_len)) _) _ h in
      let (_, prefix_ok, h2) = >>=-eq-ok (reject_if (not (bytes_eq (take 4 proof) vk)) _) _ h1 in
      let (_, exit_ok, h3) =
        >>=-eq-ok (reject_if (not (bytes_eq (slice 4 36 proof) (replicate 32 0))) _) _ h2 in
      let (_, root_ok, h4) =
        >>=-eq-ok (reject_if (not (bytes_eq (slice 36 68 proof) sp1.vk_root_bytes)) _) _ h3 in
      let nonce = slice 68 100 proof in
      let (_, canonical, h5) =
        >>=-eq-ok (reject_if (any is_noncanonical (inputs_of values program_key nonce)) _) _ h4 in
      let w_is : w
          ≡ record { inputs_be = inputs_of values program_key nonce; raw_proof = drop 100 proof } =
        cc in
      let len : length proof ≡ encoded_proof_len = (==_iff _ _).0 (passed _ _ width) in
      let nonce_array : IsArray 32 nonce = (
        length-take 32 (drop 68 proof) (omega (arith, length-drop 68 proof)),
        All-take IsByte 32 (drop 68 proof) (All-drop IsByte 68 proof hp),
      ) in
      (
        nonce,
        rw w_is (
            layout proof ((bytes_eq_iff _ _).0 (passed _ _ prefix_ok))
              ((bytes_eq_iff _ _).0 (passed _ _ exit_ok))
              ((bytes_eq_iff _ _).0 (passed _ _ root_ok))),
        rw w_is (omega (arith, length-drop 100 proof)),
        rw w_is,
        any-IsScalar (inputs_of values program_key nonce)
            (
              hk,
              (
                sp1.hash_public_inputs-IsArray values,
                (omega arith, (sp1.vk_root-IsArray, (nonce_array, tt))),
              ),
            )
            (not_rejected _ _ canonical),
      )
    where
      vk : Bytes
      vk = take 4 (coins.digest sp1.groth16_vk_bytes)
