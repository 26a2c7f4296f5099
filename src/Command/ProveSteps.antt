-- ===== src/Command/ProveSteps.antt =====
-- What the steps of `prove` have stored when they end well.
use Prim.Native.String.{String}
use coins_gsr_v.Base.{
  ℕ, ◌≡◌, refl, sym, ap, Bool, true, false, Option, some, List, [], ◌∷◌, Result, ok, err, reject_if,
  not_rejected, ok_injective,
}
use coins_gsr_v.Bytes.{Bytes}
use coins_gsr_v.Protocol.{ProofInput}
use coins_gsr_v.Process.{display, FilePath, path, join, Program, done, is_file}
use coins_gsr_v.Process.Files.{
  folder, content, Store, Machine, read_at, exists_at, made_at, written_at, answer, exec, exec-bind,
  exec-done,
}
use coins_gsr_v.Evidence.{Environment, check_evidence, verified_json}
use coins_gsr_v.Command.{
  when_file, check_files, is_unpinned, check_release_artifacts, parse_input, load_input,
  obtain_proof, recorded_seconds, record_proof,
}

module _ (env : Environment) where
  open env use {coins, build, sp1, client}

  module _ (machine : Machine client) where
    abbrev exec' : {A : Type 0} → Store → Program client A → Store × Result String A
    exec' store m = exec machine store m

    when_file-keeps :
        (p : FilePath) (rest : Program client (Unit {0})) (store end : Store)
        (found : Result String Bool)
        → exec' store (when_file env p rest found) ≡ (end, ok tt)
        → exec' store rest ≡ (end, ok tt)
    when_file-keeps p rest store end (ok true) h = h
    when_file-keeps p rest store end (ok false) h = cc
    when_file-keeps p rest store end (err e) h = cc
    when_file-keeps p rest store end Result.panic h = cc

    check_files-keeps :
        (directory : FilePath) (names : List String) (store end : Store)
        → exec' store (check_files env directory names) ≡ (end, ok tt)
        → end ≡ store
    unfolding check_files
    check_files-keeps directory [] store end h = cc
    check_files-keeps directory (name ∷ names) store end h =
        check_files-keeps directory names store end (
          when_file-keeps (join directory name) (check_files env directory names) store end
            (answer machine store (is_file (join directory name))) h)

    -- The test of the circuits stores nothing.
    pub check_release_artifacts-keeps :
        (store end : Store) → exec' store (check_release_artifacts env) ≡ (end, ok tt) → end ≡ store
    unfolding check_release_artifacts
    check_release_artifacts-keeps store end h =
        let (_, _, h1) =
          exec-done machine store
            (reject_if (is_unpinned env (machine.variable "SP1_CIRCUIT_MODE")) _) _ h in
        let (directory, _, h2) = exec-done machine store machine.artifacts _ h1 in
        let (middle, _, files, h3) = exec-bind machine store (check_files env directory _) _ h2 in
        let kept = check_files-keeps directory _ store middle files in
        let (installed, _, h4) =
          exec-done machine middle (read_at middle (join directory "groth16_vk.bin")) _ h3 in
        cc

    -- Reading the input stores nothing.
    pub load_input-reads :
        (name : String) (store end : Store) {input : ProofInput}
        → exec' store (load_input env name) ≡ (end, ok input)
        → (end ≡ store)
          × ((text : Bytes) × (read_at store (path name) ≡ ok text)
              × (parse_input env text ≡ ok input))
    unfolding load_input
    load_input-reads name store end h =
        let (text, is_text, h1) =
          exec-done machine store (read_at store (path name))
            (λ bytes. done (parse_input env bytes)) h in
        (cc, (text, is_text, cc))

    -- The proof is made where the directory is free, and stored in it.
    pub obtain_proof-makes :
        (proving_key : client.ProvingKey) (input : ProofInput) (name : String) (store end : Store)
        {pair : client.Sp1Proof × Option client.Seconds}
        → exec' store (obtain_proof env "prove" proving_key input (path name)) ≡ (end, ok pair)
        → (exists_at store (path name) ≡ false)
          × ((seconds : client.Seconds) × (pair.1 ≡ some seconds)
              × (machine.prover proving_key input ≡ ok (pair.0, seconds)))
          × (end
              ≡ (display (join (path name) "proof.bin"), content (machine.encoded pair.0))
                ∷ (name, folder)
                ∷ store)
    unfolding obtain_proof
    obtain_proof-makes proving_key input name store end {pair} h =
        let (_, fresh, h1) =
          exec-done machine store (reject_if (exists_at store (path name)) _) _ h in
        let ((proof, seconds), made, h2) =
          exec-done machine store (machine.prover proving_key input) _ h1 in
        let (_, is_made, h3) = exec-done machine _ (made_at machine store (path name)) _ h2 in
        let (_, is_saved, h4) =
          exec-done machine _ (written_at machine (join (path name) "proof.bin")) _ h3 in
        let pair_is : (proof, some seconds) ≡ pair = ok_injective (ap (λ r. r.1) h4) in
        let end_is = rw (is_made, is_saved) at (ap (λ r. r.0) h4) in
        (not_rejected _ _ fresh, rw (← pair_is) (seconds, refl, made), rw (← pair_is) (sym end_is))

    -- The record is written for a proof that passes the tests.
    pub record_proof-writes :
        (input : ProofInput) (expected : Bytes) (hash : String) (instructions : ℕ)
        (proving_key : client.ProvingKey) (key : Bytes) (directory : FilePath)
        (proof : client.Sp1Proof) (seconds : client.Seconds) (store end : Store)
        → exec' store (
            record_proof env input expected hash instructions proving_key key directory
              (proof, some seconds))
          ≡ (end, ok tt)
        → (check_evidence env proof proving_key key expected ≡ ok tt)
          × (written_at machine (join directory "verified.json") ≡ ok tt)
          × ((bytes : Bytes) × (verified_json env input hash key expected proof instructions
                  (some seconds)
                ≡ ok bytes)
              × (end ≡ (display (join directory "verified.json"), content bytes) ∷ store))
    unfolding record_proof recorded_seconds
    record_proof-writes input expected hash instructions proving_key key directory proof seconds
          store end h =
        let (_, evident, h1) =
          exec-done machine store (check_evidence env proof proving_key key expected) _ h in
        let (bytes, encoded, h2) =
          exec-done machine store
            (verified_json env input hash key expected proof instructions (some seconds)) _ h1 in
        let (_, writable, h3) =
          exec-done machine _ (written_at machine (join directory "verified.json")) _ h2 in
        let end_is = rw writable at (ap (λ r. r.0) h3) in
        (evident, writable, (bytes, encoded, sym end_is))
