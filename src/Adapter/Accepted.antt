-- ===== src/Adapter/Accepted.antt =====
-- The files of the prover host pass the test's assertions.
use Prim.Native.String.{String}
use coins_gsr_v.Base.{
  assert, ℕ, ◌%◌, ◌≡◌, refl, sym, ap, ◌∙◌, All, List, ◌∷◌, [], Option, some, ok, >>=-eq-ok,
  ok_injective, ==_iff,
}
use coins_gsr_v.Bytes.{Bytes, IsByte, IsArray}
use coins_gsr_v.Bytes.Endian.{from_le_bytes, from_be_bytes}
use coins_gsr_v.Protocol.{ProofInput}
use coins_gsr_v.Json.{IsJson, lookup}
use coins_gsr_v.ArkAdapter.{Export, trim_zeros, deployment_key, export}
use coins_gsr_v.ArkAdapter.Agreement.{
  IsFaithful, IsOfValues, export-deployment_key, export-IsOfValues,
}
use coins_gsr_v.ArkAdapter.Minimal.{trim_zeros-IsMinimal}
use coins_gsr_v.Evidence.{
  Environment, folded_key_fields, export_fields, deployment_fields, deployment_value,
  verified_fields, verified_value,
}
use coins_gsr_v.Adapter.{
  Verifier, mask_first, bytes_of, key_names, check_fields, check_manifest, inputs_of,
}

module _ (env : Environment) (verifier : Verifier) where
  open env use {sp1, ark, client, json, coins}

  -- What ties the two programs together: JSON and hexadecimal digits are read back, Arkworks reads
  -- canonical scalars back and writes one number at both ends, and SP1 hashes public values by
  -- SHA-256 with the top three bits cleared.
  pub record IsLinked : Type 0 where
    pub reads : IsJson json
    pub hex : (bytes : Bytes) → verifier.hex_bytes (ark.hex_encode bytes) ≡ ok bytes
    pub faithful : IsFaithful ark
    pub ends :
        (x : ark.Fr) → from_le_bytes (ark.fr_to_bytes_le x) ≡ from_be_bytes (ark.fr_to_bytes_be x)
    pub hash :
        (values : Bytes)
        → (first : ℕ) × (rest : Bytes) × (verifier.sha256 values ≡ first ∷ rest)
          × (sp1.hash_public_inputs values ≡ first % 32 ∷ rest)

  module _ (linked : IsLinked) where
    bytes_of-hex :
        (bytes : Bytes) → bytes_of verifier json (json.string (ark.hex_encode bytes)) ≡ ok bytes
    bytes_of-hex bytes =
        rw (linked.reads.as_str-string (ark.hex_encode bytes), linked.hex bytes) refl

    masked :
        (values : Bytes) → mask_first (verifier.sha256 values) ≡ ok (sp1.hash_public_inputs values)
    masked values =
        let (first, rest, is_hash, is_masked) = linked.hash values in
        rw is_hash (ap (λ bytes. ok bytes) (sym is_masked))

    module _ (input : ProofInput) (elf_hash : String) (key expected : Bytes)
        (proof : client.Sp1Proof) (instructions : ℕ) (seconds : Option client.Seconds)
        (e : Export) where
      fields : List (String × json.Value)
      fields = verified_fields env input elf_hash key expected proof instructions seconds e

      at_folded :
          (name : String) (value : json.Value)
          → lookup name (export_fields env e) ≡ some value
          → json.index (json.index (json.object fields) "folded_arkworks") name ≡ value
      unfolding fields
      at_folded name value found =
          ap (λ v. json.index v name)
            (linked.reads.index-object fields "folded_arkworks" (json.object (export_fields env e))
              refl)
          ∙ linked.reads.index-object (export_fields env e) name value found

      inputs_pass :
          IsOfValues ark sp1 coins linked.faithful expected e
          → (input1 : ℕ) × (inputs_of verifier json (json.object fields)
              ≡ ok (from_be_bytes (sp1.hash_public_inputs expected), input1))
      unfolding inputs_of fields
      inputs_pass v =
          let x = ark.fr_from_be_bytes_mod_order (sp1.hash_public_inputs expected) in
          let bytes0 = trim_zeros (ark.fr_to_bytes_le x) in
          let bytes1 = trim_zeros (ark.fr_to_bytes_le v.scalar4) in
          let same : from_le_bytes bytes0 ≡ from_be_bytes (sp1.hash_public_inputs expected) =
            (trim_zeros-IsMinimal (ark.fr_to_bytes_le x)).0
            ∙ (linked.ends x ∙ ap from_be_bytes (linked.faithful _ v.array v.canonical)) in
          let equal = (==_iff _ _).1 same in
          (
            from_le_bytes bytes1,
            rw
                (
                  at_folded "input0" (json.string e.input0) refl,
                  at_folded "input1" (json.string e.input1) refl,
                  linked.reads.index-object fields "public_values"
                      (json.string (ark.hex_encode expected)) refl,
                  v.input0,
                  v.input1,
                  bytes_of-hex bytes0,
                  bytes_of-hex bytes1,
                  bytes_of-hex expected,
                  masked expected,
                  equal,
                  same,
                )
                refl,
          )

      -- Equal values under all of the names.
      same_fields :
          (names : List String) (a b : json.Value)
          → All (λ name. json.index a name ≡ json.index b name) names
          → check_fields verifier json names a b ≡ ok tt
      same_fields [] a b h = refl
      same_fields (name ∷ names) a b h =
          rw (h.0, linked.reads.eq_refl (json.index b name)) (same_fields names a b h.1)

      module _ (elf_hash' : String) where
        manifest : List (String × json.Value)
        manifest = deployment_fields env elf_hash' key e.key

        -- A field of the folded key, in both files.
        at_key :
            (name : String) (value : json.Value)
            → lookup name (export_fields env e) ≡ some value
            → lookup name (folded_key_fields env e.key) ≡ some value
            → json.index (json.index (json.object fields) "folded_arkworks") name
              ≡ json.index (json.index (json.object manifest) "folded_key") name
        unfolding manifest
        at_key name value exported deployed =
            at_folded name value exported
            ∙ sym (
                ap (λ v. json.index v name)
                  (linked.reads.index-object manifest "folded_key"
                    (json.object (folded_key_fields env e.key)) refl)
                ∙ linked.reads.index-object (folded_key_fields env e.key) name value deployed)

        -- A field of the two files themselves.
        at_top :
            (name : String) (value : json.Value)
            → lookup name manifest ≡ some value
            → lookup name fields ≡ some value
            → json.index (json.object manifest) name ≡ json.index (json.object fields) name
        at_top name value deployed recorded =
            linked.reads.index-object manifest name value deployed
            ∙ sym (linked.reads.index-object fields name value recorded)

        has_text :
            (value : json.Value) (text : String)
            → value ≡ json.string text
            → assert {E = String} (json.eq_str value text) ≡ ok tt
        has_text value text h = rw (h, linked.reads.eq_str-string text) refl

        manifest_passes :
            e.encoding ≡ "canonical-unsigned-little-endian-hex"
            → check_manifest verifier json (json.object manifest) (json.object fields) ≡ ok tt
        unfolding check_manifest fields manifest
        manifest_passes encoding = rw (
          has_text (json.index (json.object manifest) "status") "bounded-regtest-deployment"
              (linked.reads.index-object manifest "status" _ refl),
          has_text (json.index (json.object manifest) "sp1_version") "6.0.1"
              (linked.reads.index-object manifest "sp1_version" _ refl),
          same_fields ("program_key_be" ∷ "groth16_vk_sha256" ∷ []) (json.object manifest)
              (json.object fields)
              (at_top "program_key_be" _ refl refl, (at_top "groth16_vk_sha256" _ refl refl, tt)),
          has_text (json.index (json.object fields) "public_values_hash_mode")
              "sha256-top-three-bits-cleared"
              (linked.reads.index-object fields "public_values_hash_mode" _ refl),
          has_text (json.index (json.index (json.object fields) "folded_arkworks") "encoding")
              "canonical-unsigned-little-endian-hex"
              (at_folded "encoding" _ refl ∙ ap json.string encoding),
          same_fields key_names (json.index (json.object fields) "folded_arkworks")
              (json.index (json.object manifest) "folded_key")
              (
                at_key "ic0" _ refl refl,
                (
                  at_key "ic1" _ refl refl,
                  (
                    at_key "ic2" _ refl refl,
                    (
                      at_key "alpha" _ refl refl,
                      (
                        at_key "beta" _ refl refl,
                        (at_key "gamma" _ refl refl, (at_key "delta" _ refl refl, tt)),
                      ),
                    ),
                  ),
                ),
              ),
        )

  -- If the deployment and the record of a verified proof are of one program key of 32 bytes, and the
  -- two programs are tied together by `IsLinked`, then the test's assertions on the two files pass, and
  -- the first input that it replays is the number of the hashed public values.
  pub host_files-accepted :
      (linked : IsLinked) (input : ProofInput) (elf_hash elf_hash' : String) (key expected : Bytes)
      (proof : client.Sp1Proof) (instructions : ℕ) (seconds : Option client.Seconds)
      {manifest proof_data : json.Value}
      → All IsByte (client.proof_bytes proof)
      → IsArray 32 key
      → deployment_value env elf_hash' key ≡ ok manifest
      → verified_value env input elf_hash key expected proof instructions seconds ≡ ok proof_data
      → (check_manifest verifier json manifest proof_data ≡ ok tt)
        × ((input1 : ℕ) × (inputs_of verifier json proof_data
              ≡ ok (from_be_bytes (sp1.hash_public_inputs expected), input1)))
  unfolding deployment_value verified_value fields manifest
  host_files-accepted linked input elf_hash elf_hash' key expected proof instructions seconds bytes
        array deployed verified =
      let (folded, is_folded, h) = >>=-eq-ok (deployment_key ark sp1 key) _ deployed in
      let (e, exported, h') =
        >>=-eq-ok (export ark sp1 coins (client.proof_bytes proof) expected key) _ verified in
      let v =
        export-IsOfValues ark sp1 coins linked.faithful (client.proof_bytes proof) expected key
          bytes array exported in
      let same_key : folded ≡ e.key = ok_injective (
        sym is_folded
        ∙ export-deployment_key ark sp1 coins linked.faithful (client.proof_bytes proof) expected
            key bytes array exported) in
      rw (← ok_injective h, ← ok_injective h', same_key)
        (
          manifest_passes linked input elf_hash key expected proof instructions seconds e elf_hash'
              v.encoding,
          inputs_pass linked input elf_hash key expected proof instructions seconds e v,
        )
