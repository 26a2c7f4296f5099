-- ===== src/Examples/Toy.antt =====
-- Stand-ins for the crates that are not in the repository, small enough to evaluate by hand: a
-- checksum for the hash, the bytes themselves for curve points, and the key followed by the message's
-- checksum for a signature.
use coins_gsr_v.Base.{
  ℕ, ◌+◌, ◌*◌, ◌%◌, refl, none, some, [], ◌∷◌, ◌++◌, ◌==◌, if◌then◌else◌, length, replicate, ok,
  err, arith,
}
use coins_gsr_v.Bytes.{Bytes, IsArray, bytes_eq, to_le_bytes}
use coins_gsr_v.Bytes.Order.{bytes_eq_refl}
use coins_gsr_v.Crates.{Coins, Bn254, IsCompatible}
use coins_gsr_v.Wrapper.{Sp1Verifier}
use coins_gsr_v.Base.{◌≡◌, Option, false}
use coins_gsr_v.Fixtures.{Signer}
use coins_gsr_v.Json.{Json}
use coins_gsr_v.Fixtures.Accepted.{IsHonest}
use Prim.Native.String.{String}
use coins_gsr_v.Protocol.{ascii}

abbrev checksum : ℕ → Bytes → ℕ
checksum acc [] = acc
checksum acc (b ∷ bs) = checksum ((acc * 31 + b + 1) % 256) bs

abbrev pub digest : Bytes → Bytes
digest m = replicate 31 0 ++ (checksum 7 m % 256 ∷ [])

pub digest-IsArray : (m : Bytes) → IsArray 32 (digest m)
digest-IsArray m = omega arith

abbrev pub sign : Bytes → Bytes → Bytes
sign key message = key ++ digest message

abbrev pub toy : Coins
toy = record {
  digest = digest;
  digest-IsArray = digest-IsArray;
  G1Affine = Bytes;
  G2Affine = Bytes;
  g1_to_affine = λ key. if length key == 32 then some key else none;
  g1_from_affine = λ point. point;
  g1_infinity = λ point. bytes_eq point (replicate 32 0);
  g2_to_affine = λ signature. some signature;
  g2_from_affine = λ point. point;
  g2_infinity = λ point. bytes_eq point [];
  verify = λ key message signature. bytes_eq signature (sign key message);
  message_to_sign = λ x nonce.
      to_le_bytes 4 x.sender_id
      ++ (to_le_bytes 4 x.amount ++ (to_le_bytes 1 x.fee ++ to_le_bytes 4 nonce));
  native_token_id = 0;
}

abbrev pub toy_bn254 : Bn254 toy
toy_bn254 = record {
  ArkFq = ℕ;
  to_bytes_be = λ x. x ∷ [];
  g1_x = λ p. length p;
  g1_y = λ p. length p;
  g2_x_c0 = λ p. length p;
  g2_x_c1 = λ p. length p;
  g2_y_c0 = λ p. length p;
  g2_y_c1 = λ p. length p;
  hash_to_g2 = λ message tag. digest message;
  Fq = ℕ;
  Fq2 = ℕ;
  G1 = ℕ;
  G2 = ℕ;
  Gt = ℕ;
  fq_from_slice = λ bs. some (length bs);
  fq2_new = λ a b. a + b;
  affine_g1_new = λ x y. some (x + y);
  affine_g2_new = λ x y. some (x + y);
  g1_zero = 0;
  g1_one = 1;
  g1_neg = λ p. p;
  g2_zero = 0;
  pairing_batch = λ pairs. length pairs;
  gt_one = 2;
  gt_eq = λ a b. a == b;
}

pub toy_bn254-IsCompatible : IsCompatible toy_bn254
toy_bn254-IsCompatible = record {
  canonical = λ x. (1, refl);
  g1_on_curve = λ key p x y d f ex ey. (x + y, refl);
  g2_on_curve = λ p a b c d t f ea eb ec ed. (a + b + (c + d), refl);
}

abbrev pub sp1 : Sp1Verifier
sp1 = record {
  groth16_vk_bytes = 1 ∷ 2 ∷ 3 ∷ [];
  vk_root_bytes = replicate 32 9;
  vk_root-IsArray = omega arith;
  hash_public_inputs = digest;
  hash_public_inputs-IsArray = digest-IsArray;
  verify_gnark_proof =
      λ proof inputs vk. if bytes_eq proof (replicate 256 5) then ok tt else err "invalid proof";
}

-- Secrets are keys, and a string decodes to its own bytes.
abbrev pub signer : Signer
signer = record {
  SecretKey = Bytes;
  secret_key = λ n. replicate 32 n;
  public_key = λ secret. secret;
  sign = sign;
}

sign-length : (key message : Bytes) → bytes_eq (sign key message) [] ≡ false
unfolding bytes_eq
sign-length [] message = refl
sign-length (b ∷ bs) message = refl

pub signer-IsHonest : IsHonest signer toy
signer-IsHonest = record {
  decodes = λ secret message. (sign secret message, refl, sign-length secret message, refl);
  verifies = λ secret message. bytes_eq_refl (sign secret message);
}

abbrev pub hex_decode : String → Option Bytes
hex_decode s = some (ascii s)

abbrev pub json : Json
json = record {
  Value = ℕ;
  null = 0;
  string = λ s. 1;
  number = λ n. n;
  array = λ values. 2;
  object = λ fields. 3;
  from_slice = λ bytes. ok 0;
  to_vec_pretty = λ value. ok (value ∷ []);
  index = λ value name. value;
  as_str = λ value. none;
  as_array = λ value. none;
  eq = λ a b. a == b;
  eq_str = λ value text. false;
}
