-- ===== src/Command.antt =====
-- The commands of crates/prover-host/src/main.rs: `derive`, `prepare`, and the session of `execute`,
-- `prove` and `verify`.
pub mod Derive
pub mod Release
pub mod Prepare
pub mod Session
pub mod Safety
pub mod Agreement
pub mod ProveSteps
pub mod Proved
pub mod VerifySteps
pub mod Verified
use Prim.Native.String.{String, ◌++◌}
use text.Mathlib.Text.{◌==◌ as str_eq}
use coins_gsr_v.Base.{
  ℕ, Bool, true, false, not, ◌&&◌, ◌||◌, Option, none, some, List, [], ◌∷◌, if◌then◌else◌, Result,
  ok, err, panic, map_err, reject_if,
}
use coins_gsr_v.Bytes.{Bytes, bytes_eq}
use coins_gsr_v.Protocol.{ProofInput}
use coins_gsr_v.Bridge.{validate_proof_input}
use coins_gsr_v.Host.{Scenario, ScenarioBundle, debug, scenario}
use coins_gsr_v.Process.{
  display, Sp1Client, FilePath, path, join, Query, Answer, Program, done, ask, ◌>>=◌, ◌>>◌, env_var,
  artifacts_dir, is_file, read, prove, save, load, read_file, write_file, make_dir, path_exists,
  println, fail,
}
use coins_gsr_v.Evidence.{
  Environment, sha256_hex, program_key, execute_guest, check_evidence, deployment_json,
  verified_json,
}

-- An error of the decoder is dropped.
abbrev pub to_option : {E A : Type 0} → Result E A → Option A
to_option (ok a) = some a
to_option (err e) = none
to_option panic = none

abbrev pub derive_usage : String
derive_usage = "usage: coins-gsr-prover-host derive REQUEST_JSON NEW_BUNDLE_JSON"

abbrev pub prepare_usage : String
prepare_usage = "usage: coins-gsr-prover-host prepare PROGRAM_ELF NEW_ARTIFACT_DIR"

abbrev pub session_usage : String
session_usage =
    "usage: coins-gsr-prover-host execute|prove|verify INPUT_JSON PROGRAM_ELF ARTIFACT_DIR"

module _ (env : Environment) where
  open env use {coins, build, sp1, ark, client, json}

  abbrev Host : Type 0 → Type 0
  Host A = Program client A

  -- `map_or(true, |file| !file.is_file())`: what is no file ends the program.
  abbrev pub when_file :
      FilePath → Program client (Unit {0}) → Result String Bool → Program client (Unit {0})
  when_file p rest (ok true) = rest
  when_file p rest (ok false) = fail ("missing Groth16 artifact: " ++ display p)
  when_file p rest (err e) = fail ("missing Groth16 artifact: " ++ display p)
  when_file p rest panic = done panic

  -- The loop over the three artifacts.
  unfoldable pub check_files : FilePath → List String → Program client (Unit {0})
  check_files directory [] = done (ok tt)
  check_files directory (name ∷ names) =
      ask (is_file (join directory name))
        (when_file (join directory name) (check_files directory names))

  -- A mode other than the pinned one; `var` fails where there is none.
  abbrev pub is_unpinned : Option String → Bool
  is_unpinned none = false
  is_unpinned (some mode) = not (str_eq mode "release")

  unfoldable pub check_release_artifacts : Program client (Unit {0})
  check_release_artifacts = do
    mode ← ask (env_var "SP1_CIRCUIT_MODE") λ mode. done (ok mode)
    done (reject_if (is_unpinned mode) "proof generation requires pinned release circuits")
    directory ← ask artifacts_dir done
    check_files directory ("groth16_circuit.bin" ∷ "groth16_pk.bin" ∷ "groth16_vk.bin" ∷ [])
    installed ← read_file (join directory "groth16_vk.bin")
    done (
        reject_if (not (bytes_eq installed sp1.groth16_vk_bytes))
          "installed Groth16 verification key differs from SP1 6.0.1")

  -- A bundle's input, or else an input by itself.
  abbrev pub parse_input : Bytes → Result String ProofInput
  parse_input bytes = elim (env.bundle_from_slice bytes) [
    | ok bundle ↦ ok bundle.proof_input
    | err e ↦ env.input_from_slice bytes
    | panic ↦ panic
  ]

  unfoldable pub load_input : String → Program client ProofInput
  load_input name = do bytes ← read_file (path name); done (parse_input bytes)

  -- `derive REQUEST_JSON NEW_BUNDLE_JSON`
  unfoldable pub derive : String → String → Program client (Unit {0})
  derive request_name output_name = do
    let output : FilePath = path output_name
    found ← path_exists output
    done (reject_if found "scenario bundle already exists")
    bytes ← read_file (path request_name)
    request ← done (json.from_slice bytes)
    value ← done (env.scenario_from_value request)
    bundle ←
        done (scenario env.signer coins build (λ text. to_option (env.hex_decode text)) json value)
    content ← done (env.bundle_to_vec_pretty (record bundle { request = request }))
    write_file output content

  -- `prepare PROGRAM_ELF NEW_ARTIFACT_DIR`
  unfoldable pub prepare : String → String → Program client (Unit {0})
  prepare elf_name directory_name = do
    elf ← read_file (path elf_name)
    let elf_hash : String = sha256_hex env elf
    let directory : FilePath = path directory_name
    found ← path_exists directory
    done (reject_if found "artifact directory already exists")
    proving_key ← done (client.setup elf)
    key ← done (program_key env proving_key)
    make_dir directory
    content ← done (deployment_json env elf_hash key)
    write_file (join directory "deployment.json") content

  -- The proof, and the time that it took if it was made now.
  unfoldable pub obtain_proof :
      String
      → client.ProvingKey
      → ProofInput
      → FilePath
      → Program client (client.Sp1Proof × Option client.Seconds)
  obtain_proof command proving_key input directory =
      if str_eq command "verify"
      then (do proof ← ask (load (join directory "proof.bin")) done; done (ok (proof, none)))
      else (do
        found ← path_exists directory
        done (reject_if found "artifact directory already exists")
        (proof, seconds) ← ask (prove proving_key input) done
        make_dir directory
        ask (save proof (join directory "proof.bin")) done
        done (ok (proof, some seconds)))

  -- What an older record says, if it can be read.
  abbrev pub older_seconds : Result String Bytes → Result String (Option client.Seconds)
  older_seconds (ok bytes) = elim (json.from_slice bytes) [
    | ok value ↦ ok (env.proving_seconds value)
    | err e ↦ ok none
    | panic ↦ panic
  ]
  older_seconds (err e) = ok none
  older_seconds panic = panic

  unfoldable pub recorded_seconds :
      Option client.Seconds → FilePath → Program client (Option client.Seconds)
  recorded_seconds (some seconds) directory = done (ok (some seconds))
  recorded_seconds none directory =
      ask (read (join directory "verified.json")) λ older. done (older_seconds older)

  -- The session from the proof on.
  unfoldable pub record_proof :
      ProofInput
      → Bytes
      → String
      → ℕ
      → client.ProvingKey
      → Bytes
      → FilePath
      → client.Sp1Proof × Option client.Seconds
      → Program client (Unit {0})
  record_proof input expected elf_hash instructions proving_key key directory (proof, seconds) = do
    done (check_evidence env proof proving_key key expected)
    recorded ← recorded_seconds seconds directory
    content ← done (verified_json env input elf_hash key expected proof instructions recorded)
    write_file (join directory "verified.json") content
    println "real Groth16 proof verified"

  -- The session from the run of the guest on.
  unfoldable pub run_guest :
      String → ProofInput → Bytes → Bytes → FilePath → Program client (Unit {0})
  run_guest command input expected elf directory = do
    instructions ← done (execute_guest env elf input expected)
    println ("guest instructions: " ++ env.decimal instructions)
    if str_eq command "execute" then done (ok tt) else (do
      proving_key ← done (client.setup elf)
      key ← done (program_key env proving_key)
      obtained ← obtain_proof command proving_key input directory
      record_proof input expected (sha256_hex env elf) instructions proving_key key directory
          obtained)

  -- `execute|prove|verify INPUT_JSON PROGRAM_ELF ARTIFACT_DIR`
  unfoldable pub session : String → String → String → String → Program client (Unit {0})
  session command input_name elf_name directory_name = do
    if str_eq command "prove" then check_release_artifacts else done (ok tt)
    input ← load_input input_name
    expected ← done (map_err debug (validate_proof_input coins build input))
    elf ← read_file (path elf_name)
    run_guest command input expected elf (path directory_name)

  -- The arguments behind a command, in their number.
  abbrev pub with_two :
      String
      → (String → String → Program client (Unit {0}))
      → List String
      → Program client (Unit {0})
  with_two usage run (a ∷ b ∷ []) = run a b
  with_two usage run _ = fail usage

  abbrev pub with_three :
      (String → String → String → Program client (Unit {0}))
      → List String
      → Program client (Unit {0})
  with_three run (a ∷ b ∷ c ∷ []) = run a b c
  with_three run _ = fail session_usage

  -- The dispatch on the arguments, without the program's name.
  unfoldable pub dispatch : List String → Program client (Unit {0})
  dispatch [] = fail session_usage
  dispatch (command ∷ arguments) =
      if str_eq command "derive"
      then with_two derive_usage derive arguments
      else (if str_eq command "prepare"
          then with_two prepare_usage prepare arguments
          else (if str_eq command "execute" || str_eq command "prove" || str_eq command "verify"
              then with_three (session command) arguments
              else fail session_usage))
