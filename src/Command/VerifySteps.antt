-- ===== src/Command/VerifySteps.antt =====
-- The steps of `verify` on files that `prove` has stored.
use Prim.Native.String.{String}
use coins_gsr_v.Base.{ℕ, ◌≡◌, ap, ◌∙◌, Option, none, ◌∷◌, Result, ok, err, >>=-eq-ok}
use coins_gsr_v.Bytes.{Bytes}
use coins_gsr_v.Protocol.{ProofInput}
use coins_gsr_v.ArkAdapter.{export}
use coins_gsr_v.Process.{display, FilePath, path, join, Program, done, ◌>>=◌, println}
use coins_gsr_v.Process.Files.{
  content, Store, Machine, read_at, load_at, written_at, when_done, exec, exec-value,
}
use coins_gsr_v.Evidence.{
  Environment, check_evidence, verified_fields, verified_value, verified_json,
}
use coins_gsr_v.Command.{
  parse_input, load_input, older_seconds, obtain_proof, recorded_seconds, record_proof,
}

module _ (env : Environment) where
  open env use {coins, build, sp1, ark, client, json}

  -- A JSON value is printed, and what was printed is JSON. Its numbers may be read back as others, as
  -- the last digit of a time is without the feature `float_roundtrip`.
  pub record IsPrinted : Type 0 where
    pub prints : (value : json.Value) → (bytes : Bytes) × (json.to_vec_pretty value ≡ ok bytes)
    pub reads :
        (value : json.Value) (bytes : Bytes)
        → json.to_vec_pretty value ≡ ok bytes
        → (read : json.Value) × (json.from_slice bytes ≡ ok read)

  module _ (input : ProofInput) (hash : String) (key expected : Bytes) (proof : client.Sp1Proof)
      (instructions : ℕ) (recorded : Option client.Seconds) {bytes : Bytes} (printed : IsPrinted)
      (encoded : verified_json env input hash key expected proof instructions recorded
        ≡ ok bytes) where
    -- What is read of a record, its time included.
    pub older_seconds-read :
        (read : json.Value) × (json.from_slice bytes ≡ ok read)
        × (older_seconds env (ok bytes) ≡ ok (env.proving_seconds read))
    unfolding verified_json
    older_seconds-read =
        let (value, _, is_text) =
          >>=-eq-ok (verified_value env input hash key expected proof instructions recorded)
            json.to_vec_pretty encoded in
        let (read, is_read) = printed.reads value bytes is_text in
        (read, is_read, ap older_in_value is_read)
      where
        older_in_value : Result String json.Value → Result String (Option client.Seconds)
        older_in_value (ok v) = ok (env.proving_seconds v)
        older_in_value (err x) = ok none
        older_in_value Result.panic = Result.panic

    -- A record can be made with any other time.
    pub verified_json-again :
        (seconds : Option client.Seconds)
        → (newer : Bytes) × (verified_json env input hash key expected proof instructions seconds
            ≡ ok newer)
    unfolding verified_json verified_value
    verified_json-again seconds =
        let (value, is_value, _) =
          >>=-eq-ok (verified_value env input hash key expected proof instructions recorded)
            json.to_vec_pretty encoded in
        let (e, is_e, _) =
          >>=-eq-ok (export ark sp1 coins (client.proof_bytes proof) expected key) _ is_value in
        let (newer, is_newer) = printed.prints (
          json.object (verified_fields env input hash key expected proof instructions seconds e)) in
        (newer, rw is_e is_newer)

  module _ (machine : Machine client) where
    abbrev exec' : {A : Type 0} → Store → Program client A → Store × Result String A
    exec' store m = exec machine store m

    pub load_input-loads :
        (name : String) (store : Store) {text : Bytes} {input : ProofInput}
        → read_at store (path name) ≡ ok text
        → parse_input env text ≡ ok input
        → exec' store (load_input env name) ≡ (store, ok input)
    unfolding load_input
    load_input-loads name store was_text parsed =
        exec-value machine store (read_at store (path name)) (λ bytes. done (parse_input env bytes))
          was_text
        ∙ ap (λ r. (store, r)) parsed

    pub obtain_proof-loads :
        (proving_key : client.ProvingKey) (input : ProofInput) (directory : FilePath)
        (store : Store) {proof : client.Sp1Proof}
        → load_at machine store (join directory "proof.bin") ≡ ok proof
        → exec' store (obtain_proof env "verify" proving_key input directory)
          ≡ (store, ok (proof, none))
    unfolding obtain_proof
    obtain_proof-loads proving_key input directory store loaded =
        exec-value machine store (load_at machine store (join directory "proof.bin"))
          (λ proof. done (ok (proof, none))) loaded

    pub record_proof-again :
        (input : ProofInput) (expected : Bytes) (hash : String) (instructions : ℕ)
        (proving_key : client.ProvingKey) (key : Bytes) (directory : FilePath)
        (proof : client.Sp1Proof) (recorded : Option client.Seconds) (store : Store)
        {older bytes : Bytes}
        → check_evidence env proof proving_key key expected ≡ ok tt
        → read_at store (join directory "verified.json") ≡ ok older
        → older_seconds env (ok older) ≡ ok recorded
        → verified_json env input hash key expected proof instructions recorded ≡ ok bytes
        → written_at machine (join directory "verified.json") ≡ ok tt
        → exec' store (
            record_proof env input expected hash instructions proving_key key directory
              (proof, none))
          ≡ ((display (join directory "verified.json"), content bytes) ∷ store, ok tt)
    unfolding record_proof recorded_seconds
    record_proof-again input expected hash instructions proving_key key directory proof recorded
          store {bytes = bytes} evident was_older is_recorded encoded writable =
        exec-value machine store (check_evidence env proof proving_key key expected) _ evident
        ∙ exec-value machine store
            (older_seconds env (read_at store (join directory "verified.json"))) _
            (ap (older_seconds env) was_older ∙ is_recorded)
        ∙ exec-value machine store
            (verified_json env input hash key expected proof instructions recorded) _ encoded
        ∙ ap
            (λ written.
              exec'
                (when_done machine written
                  ((display (join directory "verified.json"), content bytes) ∷ store) store)
                (done written >>= λ _. println "real Groth16 proof verified"))
            writable
