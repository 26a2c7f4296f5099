-- ===== src/Signature/Total.antt =====
-- `valid_signature` always answers, and what it accepts is canonical.
use coins_gsr_v.Base.{
  not, ◌||◌, ◌≡◌, refl, Bool, true, false, Option-cases, Bool-cases, inl, inr, some, Result, ok,
  arith,
}
use coins_gsr_v.Bytes.{Bytes, bytes_eq}
use coins_gsr_v.Bytes.Order.{bytes_eq_iff}
use coins_gsr_v.Crates.{
  Coins, Bn254, Build, portable, accelerated, IsTrusted, decoded, hashed, IsCompatible,
}
use coins_gsr_v.Protocol.{Error}
use coins_gsr_v.Signature.{
  hash_tag, fq, g1, g2, pairing_check, verify_decoded_signature, verify_selected, valid_signature,
}

-- The accelerated build rests on the pairing crates' promises; the portable one on nothing.
abbrev pub IsSound : {coins : Coins} → Build coins → Type 0
IsSound portable = Unit
IsSound (accelerated bn) = IsCompatible bn

-- The result is there: neither an error nor a panic.
abbrev pub Returns {ℓ} : {A : Type ℓ} → Result Error A → Type ℓ
Returns {A} r = (a : A) × (r ≡ ok a)

module _ {coins : Coins} (bn : Bn254 coins) (compatible : IsCompatible bn) where
  fq_returns :
      (x : bn.ArkFq)
      → (y : bn.Fq) × (fq bn x ≡ ok y) × (bn.fq_from_slice (bn.to_bytes_be x) ≡ some y)
  unfolding fq
  fq_returns x = let (y, e) = compatible.canonical x in (y, rw e, e)

  g1-Returns :
      (key : Bytes) (p : coins.G1Affine) → coins.g1_to_affine key ≡ some p → Returns (g1 bn p)
  unfolding g1 fq
  g1-Returns key p decodes = elim (Bool-cases (coins.g1_infinity p)) [
    | inl e ↦ (bn.g1_zero, rw e)
    | inr e ↦
        let (x, ex) = compatible.canonical (bn.g1_x p) in
        let (y, ey) = compatible.canonical (bn.g1_y p) in
        let (q, eq) = compatible.g1_on_curve key p x y decodes e ex ey in (q, rw (e, ex, ey, eq))
  ]

  g2-Returns : (p : coins.G2Affine) → IsTrusted bn p → Returns (g2 bn p)
  unfolding g2 fq
  g2-Returns p trusted = elim (Bool-cases (coins.g2_infinity p)) [
    | inl e ↦ (bn.g2_zero, rw e)
    | inr e ↦
        let (a, ea) = compatible.canonical (bn.g2_x_c0 p) in
        let (b, eb) = compatible.canonical (bn.g2_x_c1 p) in
        let (c, ec) = compatible.canonical (bn.g2_y_c0 p) in
        let (d, ed) = compatible.canonical (bn.g2_y_c1 p) in
        let (q, eq) = compatible.g2_on_curve p a b c d trusted e ea eb ec ed in
        (q, rw (e, ea, eb, ec, ed, eq))
  ]

  -- On a decoded signature no `expect` of crypto.rs fails.
  pub verify_decoded_signature-Returns :
      (pk message signature : Bytes) (p : coins.G2Affine)
      → coins.g2_to_affine signature ≡ some p
      → Returns (verify_decoded_signature bn pk message p)
  unfolding verify_decoded_signature
  verify_decoded_signature-Returns pk message signature p decodes =
      elim (Option-cases (coins.g1_to_affine pk)) [
        | inl e ↦ (false, rw (e, verify_decoded_signature))
        | inr (key, e) ↦
            let (s, es) = g2-Returns p (decoded signature decodes) in
            let (k, ek) = g1-Returns pk key e in
            let (h, eh) =
              g2-Returns (bn.hash_to_g2 message hash_tag) (hashed message hash_tag refl) in
            (pairing_check bn k s h, rw (e, verify_decoded_signature, es, ek, eh))
      ]

verify_selected-Returns :
    {coins : Coins} (build : Build coins) (key message signature : Bytes) (p : coins.G2Affine)
    → IsSound build
    → coins.g2_to_affine signature ≡ some p
    → Returns (verify_selected build key message signature p)
unfolding verify_selected
verify_selected-Returns {coins} portable key message signature p sound decodes =
    (coins.verify key message signature, refl)
verify_selected-Returns (accelerated bn) key message signature p sound decodes =
    verify_decoded_signature-Returns bn sound key message signature p decodes

module _ {coins : Coins} (build : Build coins) (key message signature : Bytes) where
  -- The test that comes before the build's own check.
  abbrev refused : coins.G2Affine → Bool
  refused p = coins.g2_infinity p || not (bytes_eq (coins.g2_from_affine p) signature)

  -- Whatever the key, the message and the signature, the check answers yes or no: the portable build
  -- always, the accelerated one if the curve crates are compatible.
  pub valid_signature-Returns :
      IsSound build → Returns (valid_signature build key message signature)
  unfolding valid_signature
  valid_signature-Returns sound = elim (Option-cases (coins.g2_to_affine signature)) [
    | inl e ↦ (false, rw (e, valid_signature))
    | inr (p, e) ↦ elim (Bool-cases (refused p)) [
      | inl r ↦ (false, rw (e, valid_signature, r))
      | inr r ↦
          let (b, eb) = verify_selected-Returns build key message signature p sound e in
          (b, rw (e, valid_signature, r, eb))
    ]
  ]

  -- An accepted signature is the encoding of a finite point, and passes the build's check.
  pub valid_signature-accepted :
      valid_signature build key message signature ≡ ok true
      → (p : coins.G2Affine) × (coins.g2_to_affine signature ≡ some p)
        × (coins.g2_infinity p ≡ false)
        × (coins.g2_from_affine p ≡ signature)
        × (verify_selected build key message signature p ≡ ok true)
  unfolding valid_signature
  valid_signature-accepted h = elim (Option-cases (coins.g2_to_affine signature)) [
    | inl e ↦ cc (rw (e, valid_signature) at h)
    | inr (p, e) ↦
        let h' = rw (e, valid_signature) at h in
        (
          p,
          e,
          ground arith,
          ground (arith, bytes_eq_iff (coins.g2_from_affine p) signature),
          ground arith,
        )
  ]
