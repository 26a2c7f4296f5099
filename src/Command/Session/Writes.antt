-- ===== src/Command/Session/Writes.antt =====
-- What `execute`, `prove` and `verify` write in every run.
use text.Mathlib.Text.{◌==◌ as str_eq}
use coins_gsr_v.Base.{◌≡◌, ap, inl, inr, true, ◌||◌, [], ok, map_err}
use coins_gsr_v.Bytes.{Bytes}
use coins_gsr_v.Protocol.{ProofInput}
use coins_gsr_v.Bridge.{validate_proof_input}
use coins_gsr_v.Host.{debug}
use coins_gsr_v.Host.Scenarios.{map_err-ok}
use coins_gsr_v.Process.{FilePath, path, Query, read}
use coins_gsr_v.Process.Holds.{
  History, Asked, here, later, Holds, Holds-bind, Holds-done, Holds-if, Holds-last, Holds-weaken,
}
use coins_gsr_v.Process.Run.{World, run, AllAsked, run-Holds}
use coins_gsr_v.Evidence.{Environment, program_key, execute_guest}
use coins_gsr_v.Command.{parse_input, load_input, obtain_proof, run_guest, session}
use coins_gsr_v.Command.Release.{IsReleased, IsReleased-Extends, check_release_artifacts-IsReleased}
use coins_gsr_v.Command.Session.{
  Arguments, IsExecuted, IsExecuted-Extends, Permits, Wrote, execute_guest-ok, parse_input-IsParsed,
}
use coins_gsr_v.Command.Session.Steps.{Obtained, obtain_proof-Holds, record_proof-Holds}

module _ (env : Environment) (args : Arguments) where
  open env use {coins, build, sp1, ark, client}
  open args use {command, input_name, elf_name, directory_name}

  abbrev directory : FilePath
  directory = path directory_name

  abbrev Permits' : History client → Query client → Type 0
  Permits' = Permits env args

  abbrev Wrote' : History client → Unit {0} → Type 0
  Wrote' = Wrote env args

  abbrev IsExecuted' : History client → ProofInput → Bytes → Bytes → Type 0
  IsExecuted' = IsExecuted env args

  module _
      (known : (str_eq command "execute" || str_eq command "prove" || str_eq command "verify")
        ≡ true) where
    run_guest-Holds :
        (past : History client) (input : ProofInput) (expected elf text : Bytes)
        → (str_eq command "prove" ≡ true → IsReleased env past)
        → Asked (read (path input_name), ok text) past
        → parse_input env text ≡ ok input
        → validate_proof_input coins build input ≡ ok expected
        → Asked (read (path elf_name), ok elf) past
        → Holds Permits' Wrote' past (run_guest env command input expected elf directory)
    unfolding run_guest IsExecuted-Extends
    run_guest-Holds past input expected elf text released was_input parsed valid was_elf =
        Holds-done Permits' Wrote' past (execute_guest env elf input expected) _
          λ instructions executed. (
            tt,
            λ _.
                Holds-if Permits' Wrote' _ (str_eq command "execute") _ _
                  (λ executing. inl executing)
                  λ not_execute.
                    let x : IsExecuted' _ input expected elf = record {
                      text = text;
                      was_input = inr was_input;
                      parsed = parse_input-IsParsed env args text parsed;
                      valid = valid;
                      was_elf = inr was_elf;
                      instructions = instructions;
                      executed = execute_guest-ok env args elf expected input instructions executed;
                    } in
                    Holds-done Permits' Wrote' _ (client.setup elf) _ λ proving_key set_up.
                      Holds-done Permits' Wrote' _ (program_key env proving_key) _ λ key is_key.
                        Holds-bind Permits'
                          (Obtained env args known input expected elf key proving_key
                            (set_up, is_key) not_execute)
                          Wrote' _ (obtain_proof env command proving_key input directory) _
                          (obtain_proof-Holds env args known input expected elf key proving_key
                            (set_up, is_key) not_execute _ x
                            λ proving. IsReleased-Extends env (later _ here) (released proving))
                          λ now pair ext obtained.
                            record_proof-Holds env args known input expected elf key proving_key
                              (set_up, is_key) not_execute now (IsExecuted-Extends env args ext x)
                              pair obtained,
          )

    IsInput : History client → ProofInput → Type 0
    IsInput past input =
        (text : Bytes) × Asked (read (path input_name), ok text) past
        × (parse_input env text ≡ ok input)

    load_input-IsInput :
        (past : History client) → Holds Permits' IsInput past (load_input env input_name)
    unfolding load_input IsInput
    load_input-IsInput past = (
      tt,
      λ answer. Holds-done Permits' IsInput _ answer _ λ text is_text.
          Holds-last Permits' IsInput _ (parse_input env text)
            λ input parsed. (text, inl (ap (λ r. (read (path input_name), r)) is_text), parsed),
    )

    pub session-Holds :
        Holds Permits' Wrote' [] (session env command input_name elf_name directory_name)
    unfolding session IsInput
    session-Holds =
        Holds-bind Permits' (λ now _. str_eq command "prove" ≡ true → IsReleased env now) Wrote' []
          _ _
          (Holds-if Permits' _ [] (str_eq command "prove") _ _
            (λ proving.
              Holds-weaken Permits' (λ now _. IsReleased env now) _ [] _
                (check_release_artifacts-IsReleased env Permits' (λ _ _. tt) (λ _. tt) (λ _ _. tt)
                  (λ _ _. tt) [])
                λ _ _ _ r _. r)
            (λ not_proving proving. cc))
          λ past _ _ released.
            Holds-bind Permits' IsInput Wrote' past (load_input env input_name) _
              (load_input-IsInput past)
              λ now input ext (text, was_input, parsed).
                Holds-done Permits' Wrote' now
                  (map_err debug (validate_proof_input coins build input)) _
                  λ expected valid. (
                    tt,
                    λ content. Holds-done Permits' Wrote' _ content _ λ elf is_elf.
                        run_guest-Holds _ input expected elf text
                          (λ proving. IsReleased-Extends env (later _ ext) (released proving))
                          (inr was_input) parsed (map_err-ok debug _ valid)
                          (inl (ap (λ r. (read (path elf_name), r)) is_elf)),
                  )

  -- In every run of `execute`, `prove` or `verify`: a proof is made by `prove` alone, when no circuit
  -- mode but the release's is set and the installed verification key is SP1's, for an accepted input
  -- on which the guest ended with code 0 and committed its statement, and only if the artifact
  -- directory was seen not to exist. A directory is made by `prove` alone, and is the artifact
  -- directory that was seen not to exist; a proof is saved by `prove` alone, there, and is one that was
  -- made. `verified.json` is written there, not by `execute`, for a proof that was made or loaded, that
  -- is verified for the accepted input's statement and exported, and is an object that tells of the
  -- guest's hash, the program key and the statement. Nothing else is written, and a run
  -- that ends well has written `verified.json`, unless it is `execute`.
  pub session_writes :
      (str_eq command "execute" || str_eq command "prove" || str_eq command "verify") ≡ true
      → (world : World client)
      → AllAsked Permits' (run world [] (session env command input_name elf_name directory_name)).0
        × ((u : Unit {0})
            → (run world [] (session env command input_name elf_name directory_name)).1 ≡ ok u
            → Wrote' (run world [] (session env command input_name elf_name directory_name)).0 u)
  session_writes known world =
      run-Holds Permits' Wrote' world [] (session env command input_name elf_name directory_name) tt
        (session-Holds known)
