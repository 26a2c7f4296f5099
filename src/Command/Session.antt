-- ===== src/Command/Session.antt =====
-- What a session of `execute`, `prove` or `verify` may ask of the system, and what it must have seen
-- before.
pub mod Steps
pub mod Writes
use Prim.Native.String.{String}
use text.Mathlib.Text.{◌==◌ as str_eq}
use coins_gsr_v.Base.{
  ℕ, ◌≡◌, ◌⊎◌, refl, ap, ◌∙◌, inl, inr, ok_injective, Bool, true, false, not, ◌||◌, ◌==◌, ==_iff,
  ap₂, Bool-cases, Option, none, some, List, [], ◌∷◌, Result, ok, err, panic, ◌>>=◌, >>=-eq-ok,
  map_err, reject_if, not_rejected, arith,
}
use coins_gsr_v.Bytes.{Bytes, bytes_eq}
use coins_gsr_v.Bytes.Order.{bytes_eq_iff}
use coins_gsr_v.Protocol.{ProofInput}
use coins_gsr_v.ArkAdapter.{Export, export}
use coins_gsr_v.Json.{lookup}
use coins_gsr_v.Bridge.{validate_proof_input}
use coins_gsr_v.Host.{debug, ScenarioBundle}
use coins_gsr_v.Host.Scenarios.{map_err-ok}
use coins_gsr_v.Process.{
  FilePath, path, join, Query, exists, read, write, create_dir, prove, save, load, Program, done,
  ask,
}
use coins_gsr_v.Process.Holds.{
  Event, History, Asked, Extends, here, later, Extends-trans, Asked-Extends, Holds, Holds-bind,
  Holds-done, Holds-if, Holds-last, Holds-weaken,
}
use coins_gsr_v.Process.Run.{World, run, AllAsked, run-Holds}
use coins_gsr_v.Evidence.{
  Environment, sha256_hex, program_key, execute_guest, check_evidence, verified_value,
  verified_json, verified_fields,
}
use coins_gsr_v.Evidence.Checks.{IsVerified, check_evidence-IsVerified_iff}
use coins_gsr_v.Command.{
  parse_input, load_input, older_seconds, obtain_proof, recorded_seconds, record_proof, run_guest,
  session, check_release_artifacts,
}
use coins_gsr_v.Command.Release.{IsReleased, IsReleased-Extends, check_release_artifacts-IsReleased}

neither : (a b : Bool) → (not a || not b) ≡ false → (a ≡ true) × (b ≡ true)
neither true true h = (refl, refl)
neither true false h = cc
neither false b h = cc

-- The arguments of a session, in their order.
pub record Arguments : Type 0 where
  pub command : String
  pub input_name : String
  pub elf_name : String
  pub directory_name : String

module _ (env : Environment) (args : Arguments) where
  open env use {coins, build, sp1, ark, client}
  open args use {command, input_name, elf_name, directory_name}

  abbrev directory : FilePath
  directory = path directory_name

  -- The input of a scenario's bundle, or of what is no bundle, the input by itself.
  abbrev pub IsParsed : Bytes → ProofInput → Type 0
  IsParsed text input =
      ((bundle : ScenarioBundle env.json) × (env.bundle_from_slice text ≡ ok bundle)
        × (bundle.proof_input ≡ input))
      ⊎ ((e : String) × (env.bundle_from_slice text ≡ err e)
          × (env.input_from_slice text ≡ ok input))

  parsed_cases :
      (found : Result String (ScenarioBundle env.json)) (alone : Result String ProofInput)
      {input : ProofInput}
      → elim found [ ok bundle ↦ ok bundle.proof_input | err e ↦ alone | panic ↦ panic ] ≡ ok input
      → ((bundle : ScenarioBundle env.json) × (found ≡ ok bundle) × (bundle.proof_input ≡ input))
        ⊎ ((e : String) × (found ≡ err e) × (alone ≡ ok input))
  parsed_cases (ok bundle) alone h = inl (bundle, refl, ok_injective h)
  parsed_cases (err e) alone h = inr (e, refl, h)
  parsed_cases panic alone h = cc

  pub parse_input-IsParsed :
      (text : Bytes) {input : ProofInput} → parse_input env text ≡ ok input → IsParsed text input
  parse_input-IsParsed text h =
      parsed_cases (env.bundle_from_slice text) (env.input_from_slice text) h

  -- A run that passes the comparison has ended with code 0 and committed the statement.
  pub execute_guest-ok :
      (elf expected : Bytes) (input : ProofInput) (instructions : ℕ)
      → execute_guest env elf input expected ≡ ok instructions
      → client.execute elf input ≡ ok (expected, 0, instructions)
  unfolding execute_guest
  execute_guest-ok elf expected input instructions h =
      let ((values, code, count), run_is, h1) = >>=-eq-ok (client.execute elf input) _ h in
      let (_, same, h2) =
        >>=-eq-ok (reject_if (not (code == 0) || not (bytes_eq values expected)) _) _ h1 in
      let (ended, committed) =
        neither (code == 0) (bytes_eq values expected) (not_rejected _ _ same) in
      run_is
      ∙ ap₂ (λ v c. ok (v, c, count)) ((bytes_eq_iff values expected).0 committed)
          ((==_iff code 0).0 ended)
      ∙ ap (λ n. ok (expected, 0, n)) (ok_injective h2)

  -- The input was read and the protocol accepts it with this statement, and the guest that was read
  -- has run on it, ended with code 0 and committed the statement.
  pub record IsExecuted (past : History client) (input : ProofInput) (expected elf : Bytes)
      : Type 0 where
    pub text : Bytes
    pub was_input : Asked (read (path input_name), ok text) past
    pub parsed : IsParsed text input
    pub valid : validate_proof_input coins build input ≡ ok expected
    pub was_elf : Asked (read (path elf_name), ok elf) past
    pub instructions : ℕ
    pub executed : client.execute elf input ≡ ok (expected, 0, instructions)

  pub IsExecuted-Extends :
      {past now : History client} {input : ProofInput} {expected elf : Bytes}
      → Extends past now
      → IsExecuted past input expected elf
      → IsExecuted now input expected elf
  IsExecuted-Extends {elf = elf} ext x = record {
    text = x.text;
    was_input = Asked-Extends (read (path input_name), ok x.text) ext x.was_input;
    parsed = x.parsed;
    valid = x.valid;
    was_elf = Asked-Extends (read (path elf_name), ok elf) ext x.was_elf;
    instructions = x.instructions;
    executed = x.executed;
  }

  -- The program's proving key, and the key of its verification.
  abbrev pub IsKeyed : Bytes → client.ProvingKey → Bytes → Type 0
  IsKeyed elf proving_key key =
      (client.setup elf ≡ ok proving_key) × (program_key env proving_key ≡ ok key)

  abbrev pub WasAbsent : History client → Type 0
  WasAbsent past = Asked (exists directory, false) past

  -- The proof was made for the input, or loaded.
  abbrev pub WasObtained :
      History client → client.ProvingKey → ProofInput → client.Sp1Proof → Type 0
  WasObtained past proving_key input proof =
      Asked (load (join directory "proof.bin"), ok proof) past
      ⊎ ((seconds : client.Seconds) × Asked (prove proving_key input, ok (proof, seconds)) past)

  -- The bytes that are written are those of the object.
  pub verified_json-fields :
      (input : ProofInput) (elf_hash : String) (key expected bytes : Bytes)
      (proof : client.Sp1Proof) (instructions : ℕ) (seconds : Option client.Seconds) (e : Export)
      → export ark sp1 coins (client.proof_bytes proof) expected key ≡ ok e
      → verified_json env input elf_hash key expected proof instructions seconds ≡ ok bytes
      → env.json.to_vec_pretty (
          env.json.object
            (verified_fields env input elf_hash key expected proof instructions seconds e))
        ≡ ok bytes
  unfolding verified_json verified_value
  verified_json-fields input elf_hash key expected bytes proof instructions seconds e is_e h =
      rw (is_e) at h

  -- Bytes of the record of a verified proof, which tells of its program and of its statement.
  pub record IsRecord (past : History client) (bytes : Bytes) : Type 0 where
    pub input : ProofInput
    pub expected : Bytes
    pub elf : Bytes
    pub proving_key : client.ProvingKey
    pub key : Bytes
    pub proof : client.Sp1Proof
    pub executed : IsExecuted past input expected elf
    pub keyed : IsKeyed elf proving_key key
    pub obtained : WasObtained past proving_key input proof
    pub verified : IsVerified env proof proving_key key expected
    pub exported :
        (e : Export) × (export ark sp1 coins (client.proof_bytes proof) expected key ≡ ok e)
    pub seconds : Option client.Seconds
    pub content :
        verified_json env input
          (sha256_hex env elf)
          key
          expected
          proof
          executed.instructions
          seconds
        ≡ ok bytes
    pub fields : List (String × env.json.Value)
    pub is_object : env.json.to_vec_pretty (env.json.object fields) ≡ ok bytes
    pub tells_elf :
        lookup "elf_sha256" fields ≡ some (env.json.string (ark.hex_encode (coins.digest elf)))
    pub tells_program : lookup "program_key_be" fields ≡ some (env.json.string (ark.hex_encode key))
    pub tells_statement :
        lookup "public_values" fields ≡ some (env.json.string (ark.hex_encode expected))

  abbrev pub Permits : History client → Query client → Type 0
  Permits past (prove proving_key input) =
      (str_eq command "prove" ≡ true)
      × IsReleased env past
      × WasAbsent past
      × ((expected elf key : Bytes) × IsExecuted past input expected elf
          × IsKeyed elf proving_key key)
  Permits past (create_dir p) = (p ≡ directory) × (str_eq command "prove" ≡ true) × WasAbsent past
  Permits past (save proof p) =
      (p ≡ join directory "proof.bin")
      × (str_eq command "prove" ≡ true)
      × ((proving_key : client.ProvingKey) × (input : ProofInput) × (seconds : client.Seconds)
          × Asked (prove proving_key input, ok (proof, seconds)) past)
  Permits past (write p bytes) =
      (p ≡ join directory "verified.json")
      × (str_eq command "execute" ≡ false)
      × IsRecord past bytes
  Permits past _ = Unit

  abbrev pub Wrote : History client → Unit {0} → Type 0
  Wrote past _ =
      (str_eq command "execute" ≡ true)
      ⊎ ((bytes : Bytes) × Asked (write (join directory "verified.json") bytes, ok tt) past)

  pub WasObtained-Extends :
      {past now : History client} (proving_key : client.ProvingKey) (input : ProofInput)
      (proof : client.Sp1Proof)
      → Extends past now
      → WasObtained past proving_key input proof
      → WasObtained now proving_key input proof
  WasObtained-Extends proving_key input proof ext (inl loaded) =
      inl (Asked-Extends (load (join directory "proof.bin"), ok proof) ext loaded)
  WasObtained-Extends proving_key input proof ext (inr (seconds, made)) =
      inr (seconds, Asked-Extends (prove proving_key input, ok (proof, seconds)) ext made)

  pub verified_json-exported :
      (input : ProofInput) (elf_hash : String) (key expected : Bytes) (proof : client.Sp1Proof)
      (instructions : ℕ) (seconds : Option client.Seconds) (bytes : Bytes)
      → verified_json env input elf_hash key expected proof instructions seconds ≡ ok bytes
      → (e : Export) × (export ark sp1 coins (client.proof_bytes proof) expected key ≡ ok e)
  unfolding verified_json verified_value
  verified_json-exported input elf_hash key expected proof instructions seconds bytes h =
      let (value, is_value, _) =
        >>=-eq-ok (verified_value env input elf_hash key expected proof instructions seconds) _ h in
      let (e, is_e, _) =
        >>=-eq-ok (export ark sp1 coins (client.proof_bytes proof) expected key) _ is_value in
      (e, is_e)
