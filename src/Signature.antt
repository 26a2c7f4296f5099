-- ===== src/Signature.antt =====
-- Signature checks: `valid_signature` of crates/protocol/src/lib.rs, and the accelerated pairing
-- check of crates/protocol/src/crypto.rs.
pub mod Total
pub mod Agreement
use Prim.Native.String.{String}
use coins_gsr_v.Base.{
  Bool, true, false, not, ◌||◌, Option, none, some, [], ◌∷◌, if◌then◌else◌, Result, ok, ◌>>=◌,
  or_panic,
}
use coins_gsr_v.Bytes.{Bytes, bytes_eq}
use coins_gsr_v.Crates.{Coins, Bn254, Build, portable, accelerated}
use coins_gsr_v.Protocol.{Error, ascii}

abbrev pub hash_tag : Bytes
hash_tag = ascii "QUUX-V01-CS02-with-BN254G2_XMD:SHA-256_SVDW_RO_"

module _ {coins : Coins} (bn : Bn254 coins) where
  unfoldable pub fq : bn.ArkFq → Result Error bn.Fq
  fq value = or_panic (bn.fq_from_slice (bn.to_bytes_be value))

  unfoldable pub g1 : coins.G1Affine → Result Error bn.G1
  unfolding fq
  g1 point =
      if coins.g1_infinity point
      then ok bn.g1_zero
      else do x ← fq (bn.g1_x point); y ← fq (bn.g1_y point); or_panic (bn.affine_g1_new x y)

  unfoldable pub g2 : coins.G2Affine → Result Error bn.G2
  unfolding fq
  g2 point = if coins.g2_infinity point then ok bn.g2_zero else do
    a ← fq (bn.g2_x_c0 point)
    b ← fq (bn.g2_x_c1 point)
    c ← fq (bn.g2_y_c0 point)
    d ← fq (bn.g2_y_c1 point)
    or_panic (bn.affine_g2_new (bn.fq2_new a b) (bn.fq2_new c d))

  -- The batch is e(1, signature) * e(-pk, H(message)).
  pairing_check : bn.G1 → bn.G2 → bn.G2 → Bool
  pairing_check pk signature hashed =
      bn.gt_eq (bn.pairing_batch ((bn.g1_one, signature) ∷ (bn.g1_neg pk, hashed) ∷ [])) bn.gt_one

  pub verify_decoded_signature : Bytes → Bytes → coins.G2Affine → Result Error Bool
  verify_decoded_signature pk message signature = elim (coins.g1_to_affine pk) [
    | none ↦ ok false
    | some key ↦ do
      signature' ← g2 signature
      key' ← g1 key
      hashed ← g2 (bn.hash_to_g2 message hash_tag)
      ok (pairing_check key' signature' hashed)
  ]

module _ {coins : Coins} where
  -- The check that the build's feature selects, on a signature that decoded to `point`.
  unfoldable pub verify_selected :
      Build coins → Bytes → Bytes → Bytes → coins.G2Affine → Result Error Bool
  verify_selected portable key message signature point = ok (coins.verify key message signature)
  verify_selected (accelerated bn) key message signature point =
      verify_decoded_signature bn key message point

  -- A signature must decode to a finite point, and be that point's own encoding.
  unfoldable pub valid_signature : Build coins → Bytes → Bytes → Bytes → Result Error Bool
  valid_signature build key message signature = elim (coins.g2_to_affine signature) [
    | none ↦ ok false
    | some point ↦
        if coins.g2_infinity point || not (bytes_eq (coins.g2_from_affine point) signature)
        then ok false
        else verify_selected build key message signature point
  ]
