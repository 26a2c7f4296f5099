-- ===== src/Signature/Agreement.antt =====
-- The two builds check signatures alike.
use coins_gsr_v.Base.{
  ◌≡◌, ◌↔◌, refl, sym, Bool, true, false, Bool-cases, Option-cases, inl, inr, [], ◌∷◌, some, none,
  ok,
}
use coins_gsr_v.Bytes.{Bytes}
use coins_gsr_v.Crates.{
  Coins, Bn254, portable, accelerated, IsTrusted, decoded, hashed, IsCompatible,
}
use coins_gsr_v.Signature.{
  hash_tag, fq, g1, g2, pairing_check, verify_decoded_signature, verify_selected, valid_signature,
}
use coins_gsr_v.Protocol.{ascii}

-- The group element of a finite point is made of its coordinates; the point at infinity is zero.
pub data IsG1 {coins : Coins} (bn : Bn254 coins) (p : coins.G1Affine) (k : bn.G1) : Type 0 where
  infinite : coins.g1_infinity p ≡ true → k ≡ bn.g1_zero → IsG1 bn p k
  finite :
      (x y : bn.Fq)
      → coins.g1_infinity p ≡ false
      → bn.fq_from_slice (bn.to_bytes_be (bn.g1_x p)) ≡ some x
      → bn.fq_from_slice (bn.to_bytes_be (bn.g1_y p)) ≡ some y
      → bn.affine_g1_new x y ≡ some k
      → IsG1 bn p k

pub data IsG2 {coins : Coins} (bn : Bn254 coins) (p : coins.G2Affine) (k : bn.G2) : Type 0 where
  infinite : coins.g2_infinity p ≡ true → k ≡ bn.g2_zero → IsG2 bn p k
  finite :
      (x0 x1 y0 y1 : bn.Fq)
      → coins.g2_infinity p ≡ false
      → bn.fq_from_slice (bn.to_bytes_be (bn.g2_x_c0 p)) ≡ some x0
      → bn.fq_from_slice (bn.to_bytes_be (bn.g2_x_c1 p)) ≡ some x1
      → bn.fq_from_slice (bn.to_bytes_be (bn.g2_y_c0 p)) ≡ some y0
      → bn.fq_from_slice (bn.to_bytes_be (bn.g2_y_c1 p)) ≡ some y1
      → bn.affine_g2_new (bn.fq2_new x0 x1) (bn.fq2_new y0 y1) ≡ some k
      → IsG2 bn p k

-- What the pairing crates compute: Coins verifies by the equation e(1, signature) = e(key, H(message)),
-- with the key's point decoded, and H the hash to the curve under the tag of Coins; and a batch of e(p, q) and e(-r, s) is one where e(p, q) = e(r, s).
pub record IsPairing {coins : Coins} (bn : Bn254 coins) : Type 1 where
  pub Target : Type 0
  pub e : bn.G1 → bn.G2 → Target
  pub batch :
      (p r : bn.G1) (q s : bn.G2)
      → (bn.gt_eq (bn.pairing_batch ((p, q) ∷ (bn.g1_neg r, s) ∷ [])) bn.gt_one ≡ true)
        ↔ (e p q ≡ e r s)
  pub verify_undecoded :
      (key message signature : Bytes)
      → coins.g1_to_affine key ≡ none
      → coins.verify key message signature ≡ false
  pub verify_pairing :
      (key message signature : Bytes) (pk : coins.G1Affine) (point : coins.G2Affine) (k : bn.G1)
      (s h : bn.G2)
      → coins.g1_to_affine key ≡ some pk
      → coins.g2_to_affine signature ≡ some point
      → IsG1 bn pk k
      → IsG2 bn point s
      → IsG2 bn (bn.hash_to_g2 message (ascii "QUUX-V01-CS02-with-BN254G2_XMD:SHA-256_SVDW_RO_")) h
      → (coins.verify key message signature ≡ true) ↔ (e bn.g1_one s ≡ e k h)

same_test : (a b : Bool) → (a ≡ true → b ≡ true) → (b ≡ true → a ≡ true) → a ≡ b
same_test true true f g = refl
same_test true false f g = sym (f refl)
same_test false true f g = g refl
same_test false false f g = refl

module _ {coins : Coins} (bn : Bn254 coins) (compatible : IsCompatible bn) where
  -- The conversions of crypto.rs return, and what they should.
  g1-IsG1 :
      (key : Bytes) (p : coins.G1Affine)
      → coins.g1_to_affine key ≡ some p
      → (k : bn.G1) × (g1 bn p ≡ ok k) × IsG1 bn p k
  unfolding g1 fq
  g1-IsG1 key p decodes = elim (Bool-cases (coins.g1_infinity p)) [
    | inl e ↦ (bn.g1_zero, rw e, IsG1.infinite e refl)
    | inr e ↦
        let (x, ex) = compatible.canonical (bn.g1_x p) in
        let (y, ey) = compatible.canonical (bn.g1_y p) in
        let (q, eq) = compatible.g1_on_curve key p x y decodes e ex ey in
        (q, rw (e, ex, ey, eq), IsG1.finite x y e ex ey eq)
  ]

  g2-IsG2 : (p : coins.G2Affine) → IsTrusted bn p → (k : bn.G2) × (g2 bn p ≡ ok k) × IsG2 bn p k
  unfolding g2 fq
  g2-IsG2 p trusted = elim (Bool-cases (coins.g2_infinity p)) [
    | inl e ↦ (bn.g2_zero, rw e, IsG2.infinite e refl)
    | inr e ↦
        let (a, ea) = compatible.canonical (bn.g2_x_c0 p) in
        let (b, eb) = compatible.canonical (bn.g2_x_c1 p) in
        let (c, ec) = compatible.canonical (bn.g2_y_c0 p) in
        let (d, ed) = compatible.canonical (bn.g2_y_c1 p) in
        let (q, eq) = compatible.g2_on_curve p a b c d trusted e ea eb ec ed in
        (q, rw (e, ea, eb, ec, ed, eq), IsG2.finite a b c d e ea eb ec ed eq)
  ]

module _ {coins : Coins} (bn : Bn254 coins) (compatible : IsCompatible bn)
    (pairing : IsPairing bn) where
  pairing_check-e :
      (k : bn.G1) (s h : bn.G2)
      → (pairing_check bn k s h ≡ true) ↔ (pairing.e bn.g1_one s ≡ pairing.e k h)
  unfolding pairing_check
  pairing_check-e k s h = pairing.batch bn.g1_one k s h

  -- On a decoded signature the accelerated check is that of Coins.
  verify_decoded_signature-verify :
      (key message signature : Bytes) (point : coins.G2Affine)
      → coins.g2_to_affine signature ≡ some point
      → verify_decoded_signature bn key message point ≡ ok (coins.verify key message signature)
  unfolding verify_decoded_signature
  verify_decoded_signature-verify key message signature point decodes =
      elim (Option-cases (coins.g1_to_affine key)) [
        | inl e ↦ rw (e, verify_decoded_signature, pairing.verify_undecoded key message signature e)
        | inr (pk, e) ↦
            let (s, es, is_s) = g2-IsG2 bn compatible point (decoded signature decodes) in
            let (k, ek, is_k) = g1-IsG1 bn compatible key pk e in
            let (h, eh, is_h) =
              g2-IsG2 bn compatible (bn.hash_to_g2 message hash_tag)
                (hashed message hash_tag refl) in
            let (to, from) =
              pairing.verify_pairing key message signature pk point k s h e decodes is_k is_s
                is_h in
            let (opened, closed) = pairing_check-e k s h in
            let same : pairing_check bn k s h ≡ coins.verify key message signature =
              same_test _ _ (λ x. from (opened x)) (λ y. closed (to y)) in
            rw (e, verify_decoded_signature, es, ek, eh, same)
      ]

  verify_selected-agrees :
      (key message signature : Bytes) (point : coins.G2Affine)
      → coins.g2_to_affine signature ≡ some point
      → verify_selected {coins = coins} (accelerated bn) key message signature point
        ≡ verify_selected {coins = coins} portable key message signature point
  unfolding verify_selected
  verify_selected-agrees key message signature point decodes =
      verify_decoded_signature-verify key message signature point decodes

  -- The accelerated build gives the same answer as the portable one for every key, message and
  -- signature, if the curve crates are compatible and compute the pairing by which Coins verifies.
  pub valid_signature-agrees :
      (key message signature : Bytes)
      → valid_signature {coins = coins} (accelerated bn) key message signature
        ≡ valid_signature {coins = coins} portable key message signature
  unfolding valid_signature
  valid_signature-agrees key message signature =
      elim (Option-cases (coins.g2_to_affine signature)) [
        | inl e ↦ rw (e, valid_signature)
        | inr (point, e) ↦
            rw (e, valid_signature, verify_selected-agrees key message signature point e)
      ]
