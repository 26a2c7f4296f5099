-- ===== src/Crates.antt =====
-- What the program takes from crates that are not in the repository: `coins_crypto`, `coins_types`,
-- `sha2`, and for the accelerated build `ark_bn254`, `bn254_hash2curve` and `substrate_bn`.
-- Keys and signatures are the byte arrays that `G1` and `G2` wrap.
use coins_gsr_v.Base.{ℕ, ◌≡◌, Bool, false, Option, some, List}
use coins_gsr_v.Bytes.{Bytes, IsArray}

-- `coins_types::Transaction`, with the fields that its struct literals name.
pub record Transaction : Type 0 where
  pub sender_id : ℕ
  pub recipient_pk : Bytes
  pub token_id : ℕ
  pub amount : ℕ
  pub fee : ℕ

pub record Coins : Type 1 where
  -- `Sha256::digest`; `new`, `update` and `finalize` are the digest of what was fed in.
  pub digest : Bytes → Bytes
  pub digest-IsArray : (m : Bytes) → IsArray 32 (digest m)
  pub G1Affine : Type 0
  pub G2Affine : Type 0
  -- `G1::to_affine`, `G1::from_affine` and the point's `infinity` flag
  pub g1_to_affine : Bytes → Option G1Affine
  pub g1_from_affine : G1Affine → Bytes
  pub g1_infinity : G1Affine → Bool
  pub g2_to_affine : Bytes → Option G2Affine
  pub g2_from_affine : G2Affine → Bytes
  pub g2_infinity : G2Affine → Bool
  -- `coins_crypto::verify(key, message, signature)`
  pub verify : Bytes → Bytes → Bytes → Bool
  -- `Transaction::message_to_sign(nonce)`
  pub message_to_sign : Transaction → ℕ → Bytes
  pub native_token_id : ℕ

-- The pairing crates of the accelerated build.
pub record Bn254 (coins : Coins) : Type 1 where
  -- a coordinate of an Arkworks point, and its canonical bytes (`into_bigint().to_bytes_be()`)
  pub ArkFq : Type 0
  pub to_bytes_be : ArkFq → Bytes
  pub g1_x : coins.G1Affine → ArkFq
  pub g1_y : coins.G1Affine → ArkFq
  pub g2_x_c0 : coins.G2Affine → ArkFq
  pub g2_x_c1 : coins.G2Affine → ArkFq
  pub g2_y_c0 : coins.G2Affine → ArkFq
  pub g2_y_c1 : coins.G2Affine → ArkFq
  -- `HashToG2(message, tag)`
  pub hash_to_g2 : Bytes → Bytes → coins.G2Affine
  -- `substrate_bn`: `Fq::from_slice`, `Fq2::new`, `AffineG1::new(x, y)` and `AffineG2::new(x, y)`
  -- with the conversion into the group, and the pairing
  pub Fq : Type 0
  pub Fq2 : Type 0
  pub G1 : Type 0
  pub G2 : Type 0
  pub Gt : Type 0
  pub fq_from_slice : Bytes → Option Fq
  pub fq2_new : Fq → Fq → Fq2
  pub affine_g1_new : Fq → Fq → Option G1
  pub affine_g2_new : Fq2 → Fq2 → Option G2
  pub g1_zero : G1
  pub g1_one : G1
  pub g1_neg : G1 → G1
  pub g2_zero : G2
  pub pairing_batch : List (G1 × G2) → Gt
  pub gt_one : Gt
  pub gt_eq : Gt → Gt → Bool

-- Where a G2 point comes from: Coins decoded it, or it is a hash to the curve.
pub data IsTrusted {coins : Coins} (bn : Bn254 coins) (p : coins.G2Affine) : Type 0 where
  decoded : (signature : Bytes) → coins.g2_to_affine signature ≡ some p → IsTrusted bn p
  hashed : (message tag : Bytes) → bn.hash_to_g2 message tag ≡ p → IsTrusted bn p

-- What the accelerated build relies on: an Arkworks coordinate is canonical, and a finite point that
-- Coins decoded, or that the hash to the curve returned, lies on the curve and in the subgroup.
pub record IsCompatible {coins : Coins} (bn : Bn254 coins) : Type 0 where
  pub canonical : (x : bn.ArkFq) → (y : bn.Fq) × (bn.fq_from_slice (bn.to_bytes_be x) ≡ some y)
  pub g1_on_curve :
      (key : Bytes) (p : coins.G1Affine) (x y : bn.Fq)
      → coins.g1_to_affine key ≡ some p
      → coins.g1_infinity p ≡ false
      → bn.fq_from_slice (bn.to_bytes_be (bn.g1_x p)) ≡ some x
      → bn.fq_from_slice (bn.to_bytes_be (bn.g1_y p)) ≡ some y
      → (q : bn.G1) × (bn.affine_g1_new x y ≡ some q)
  pub g2_on_curve :
      (p : coins.G2Affine) (a b c d : bn.Fq)
      → IsTrusted bn p
      → coins.g2_infinity p ≡ false
      → bn.fq_from_slice (bn.to_bytes_be (bn.g2_x_c0 p)) ≡ some a
      → bn.fq_from_slice (bn.to_bytes_be (bn.g2_x_c1 p)) ≡ some b
      → bn.fq_from_slice (bn.to_bytes_be (bn.g2_y_c0 p)) ≡ some c
      → bn.fq_from_slice (bn.to_bytes_be (bn.g2_y_c1 p)) ≡ some d
      → (q : bn.G2) × (bn.affine_g2_new (bn.fq2_new a b) (bn.fq2_new c d) ≡ some q)

-- The cargo feature `accelerated` chooses the signature check.
pub data Build (coins : Coins) : Type 1 where
  portable : Build coins
  accelerated : Bn254 coins → Build coins
