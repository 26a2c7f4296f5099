-- ===== src/Adapter/Agreed.antt =====
-- What the assertions on the manifest and the proof's record have seen when they pass.
use Prim.Native.String.{String}
use coins_gsr_v.Base.{assert, assert-ok, ◌≡◌, true, List, [], ◌∷◌, ok, >>=-eq-ok}
use coins_gsr_v.Json.{Json}
use coins_gsr_v.Adapter.{Verifier, key_names, check_fields, check_manifest}

module _ (verifier : Verifier) (json : Json) where
  -- Two values with equal fields of these names.
  abbrev pub Agrees : List String → json.Value → json.Value → Type 0
  Agrees [] a b = Unit
  Agrees (name ∷ names) a b =
      (json.eq (json.index a name) (json.index b name) ≡ true) × Agrees names a b

  check_fields-Agrees :
      (names : List String) (a b : json.Value)
      → check_fields verifier json names a b ≡ ok tt
      → Agrees names a b
  check_fields-Agrees [] a b h = tt
  check_fields-Agrees (name ∷ names) a b h =
      let (_, same, rest) =
        >>=-eq-ok (assert (json.eq (json.index a name) (json.index b name))) _ h in
      (assert-ok _ same, check_fields-Agrees names a b rest)

  -- The record is of the manifest's program, and its folded key is the manifest's; both say what they
  -- are, and how the values are hashed and the numbers written.
  pub record IsOfManifest (manifest proof_data : json.Value) : Type 0 where
    pub status : json.eq_str (json.index manifest "status") "bounded-regtest-deployment" ≡ true
    pub version : json.eq_str (json.index manifest "sp1_version") "6.0.1" ≡ true
    pub hash_mode :
        json.eq_str
          (json.index proof_data "public_values_hash_mode")
          "sha256-top-three-bits-cleared"
        ≡ true
    pub encoding :
        json.eq_str
          (json.index (json.index proof_data "folded_arkworks") "encoding")
          "canonical-unsigned-little-endian-hex"
        ≡ true
    pub program : Agrees ("program_key_be" ∷ "groth16_vk_sha256" ∷ []) manifest proof_data
    pub folded :
        Agrees
          ("ic0" ∷ "ic1" ∷ "ic2" ∷ "alpha" ∷ "beta" ∷ "gamma" ∷ "delta" ∷ [])
          (json.index proof_data "folded_arkworks")
          (json.index manifest "folded_key")

  pub check_manifest-IsOfManifest :
      (manifest proof_data : json.Value)
      → check_manifest verifier json manifest proof_data ≡ ok tt
      → IsOfManifest manifest proof_data
  unfolding check_manifest
  check_manifest-IsOfManifest manifest proof_data h =
      let (_, status, h1) =
        >>=-eq-ok (assert (json.eq_str (json.index manifest "status") "bounded-regtest-deployment"))
          _ h in
      let (_, version, h2) =
        >>=-eq-ok (assert (json.eq_str (json.index manifest "sp1_version") "6.0.1")) _ h1 in
      let (_, program, h3) =
        >>=-eq-ok
          (check_fields verifier json ("program_key_be" ∷ "groth16_vk_sha256" ∷ []) manifest
            proof_data)
          _ h2 in
      let (_, hash_mode, h4) =
        >>=-eq-ok
          (assert (
            json.eq_str (json.index proof_data "public_values_hash_mode")
              "sha256-top-three-bits-cleared"))
          _ h3 in
      let (_, encoding, h5) =
        >>=-eq-ok
          (assert (
            json.eq_str (json.index (json.index proof_data "folded_arkworks") "encoding")
              "canonical-unsigned-little-endian-hex"))
          _ h4 in
      record {
        status = assert-ok _ status;
        version = assert-ok _ version;
        hash_mode = assert-ok _ hash_mode;
        encoding = assert-ok _ encoding;
        program =
            check_fields-Agrees ("program_key_be" ∷ "groth16_vk_sha256" ∷ []) manifest proof_data
              program;
        folded = check_fields-Agrees key_names _ _ h5;
      }
