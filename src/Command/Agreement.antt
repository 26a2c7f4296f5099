-- ===== src/Command/Agreement.antt =====
-- `prepare` and the later sessions of one program agree on its keys.
use Prim.Native.String.{String}
use coins_gsr_v.Base.{
  ◌≡◌, refl, List, [], ◌∷◌, some, sym, ap, ◌∙◌, not, All, ok, >>=-eq-ok, ok_or, reject_if, passed,
  ok_injective, ◌==◌, ==_iff, length,
}
use coins_gsr_v.Bytes.{Bytes, IsByte, IsArray}
use coins_gsr_v.Json.{lookup}
use coins_gsr_v.ArkAdapter.{FoldedKey, deployment_key}
use coins_gsr_v.ArkAdapter.Agreement.{IsFaithful, export-deployment_key}
use coins_gsr_v.Process.Holds.{History}
use coins_gsr_v.Evidence.{
  Environment, sha256_hex, strip_prefix, program_key, deployment_fields, folded_key_fields,
  export_fields, deployment_value, deployment_json, verified_fields,
}
use coins_gsr_v.Command.Prepare.{IsDeployment}
use coins_gsr_v.Command.Session.{Arguments, IsRecord, verified_json-fields}

-- Both objects have a field of this name, and it is the same.
abbrev pub IsShared : {V : Type 0} → List (String × V) → List (String × V) → String → Type 0
IsShared {V} a b name = (value : V) × (lookup name a ≡ some value) × (lookup name b ≡ some value)

module _ (env : Environment) where
  open env use {coins, sp1, ark, client, json}

  -- What the decoder returns are bytes.
  abbrev pub DecodesBytes : Type 0
  DecodesBytes = (text : String) (bytes : Bytes) → env.hex_decode text ≡ ok bytes → All IsByte bytes

  program_key-IsArray :
      (proving_key : client.ProvingKey) (key : Bytes)
      → DecodesBytes
      → program_key env proving_key ≡ ok key
      → IsArray 32 key
  unfolding program_key
  program_key-IsArray proving_key key decodes h =
      let (digits, _, h1) =
        >>=-eq-ok (ok_or (strip_prefix "0x" (client.key_string proving_key)) _) _ h in
      let (bytes, decoded, h2) = >>=-eq-ok (env.hex_decode digits) _ h1 in
      let (_, wide, h3) = >>=-eq-ok (reject_if (not (length bytes == 32)) _) _ h2 in
      let width = (==_iff (length bytes) 32).0 (passed _ _ wide) in
      rw (← ok_injective h3) (width, decodes digits bytes decoded)

  -- The two files are objects with one program key; and the folded key in the one has the points
  -- that the exported proof in the other has.
  pub record IsOfOneKey (deployment record_bytes : Bytes) : Type 0 where
    pub deployed : List (String × json.Value)
    pub is_deployed : json.to_vec_pretty (json.object deployed) ≡ ok deployment
    pub recorded : List (String × json.Value)
    pub is_recorded : json.to_vec_pretty (json.object recorded) ≡ ok record_bytes
    pub program_key : IsShared deployed recorded "program_key_be"
    pub wrapper_key : IsShared deployed recorded "groth16_vk_sha256"
    pub folded : List (String × json.Value)
    pub is_folded : lookup "folded_key" deployed ≡ some (json.object folded)
    pub exported : List (String × json.Value)
    pub is_exported : lookup "folded_arkworks" recorded ≡ some (json.object exported)
    pub points :
        All
          (IsShared folded exported)
          ("ic0" ∷ "ic1" ∷ "ic2" ∷ "alpha" ∷ "beta" ∷ "gamma" ∷ "delta" ∷ [])

  deployment_json-fields :
      (elf_hash : String) (key bytes : Bytes) (folded : FoldedKey)
      → deployment_key ark sp1 key ≡ ok folded
      → deployment_json env elf_hash key ≡ ok bytes
      → json.to_vec_pretty (json.object (deployment_fields env elf_hash key folded)) ≡ ok bytes
  unfolding deployment_json deployment_value
  deployment_json-fields elf_hash key bytes folded is_folded h = rw (is_folded) at h

  module _ (args : Arguments) (elf_name directory_name : String) where
    -- If the guest program whose deployment `prepare` writes is the one that a session records a
    -- verified proof of, and Arkworks reads canonical scalars back, then the two files are objects that
    -- agree in the program key and in the hash of the wrapper's key, and the folded key in
    -- `deployment.json` has in each of its seven points what the exported proof in `verified.json` has.
    -- The decoder and the proof are of bytes.
    pub record-deployment_key :
        (past now : History client) (deployment record_bytes : Bytes)
        (d : IsDeployment env elf_name directory_name past deployment)
        (r : IsRecord env args now record_bytes)
        → IsFaithful ark
        → DecodesBytes
        → All IsByte (client.proof_bytes r.proof)
        → d.elf ≡ r.elf
        → IsOfOneKey deployment record_bytes
    record-deployment_key past now deployment record_bytes d r faithful decodes bytes same =
        let same_proving : d.proving_key ≡ r.proving_key =
          ok_injective (sym d.is_set_up ∙ ap (λ elf. client.setup elf) same ∙ r.keyed.0) in
        let same_key : d.key ≡ r.key =
          ok_injective (sym d.is_key ∙ ap (λ k. program_key env k) same_proving ∙ r.keyed.1) in
        let folds : deployment_key ark sp1 d.key ≡ ok r.exported.0.key =
          ap (λ k. deployment_key ark sp1 k) same_key
          ∙ export-deployment_key ark sp1 coins faithful (client.proof_bytes r.proof) r.expected
              r.key bytes (program_key-IsArray r.proving_key r.key decodes r.keyed.1)
              r.exported.1 in
        let same_text = ap (λ k. json.string (ark.hex_encode k)) (sym same_key) in
        record {
          deployed = deployment_fields env (sha256_hex env d.elf) d.key r.exported.0.key;
          is_deployed =
              deployment_json-fields (sha256_hex env d.elf) d.key deployment r.exported.0.key folds
                d.encoded;
          recorded =
              verified_fields env r.input (sha256_hex env r.elf) r.key r.expected r.proof
                r.executed.instructions r.seconds r.exported.0;
          is_recorded =
              verified_json-fields env args r.input (sha256_hex env r.elf) r.key r.expected
                record_bytes r.proof r.executed.instructions r.seconds r.exported.0 r.exported.1
                r.content;
          program_key = (json.string (ark.hex_encode d.key), refl, ap some same_text);
          wrapper_key = (_, refl, refl);
          folded = folded_key_fields env r.exported.0.key;
          is_folded = refl;
          exported = export_fields env r.exported.0;
          is_exported = refl;
          points = (
            (_, refl, refl),
            (
              (_, refl, refl),
              (
                (_, refl, refl),
                ((_, refl, refl), ((_, refl, refl), ((_, refl, refl), ((_, refl, refl), tt)))),
              ),
            ),
          );
        }
