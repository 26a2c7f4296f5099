-- ===== src/Examples/Commands.antt =====
-- The theorems about the prover host's commands at inputs that meet their hypotheses.
use Prim.Native.String.{String}
use coins_gsr_v.Base.{
  ◌≡◌, ◌↔◌, refl, inl, inr, true, false, none, List, [], ◌∷◌, ok, ok_injective, arith,
}
use coins_gsr_v.Protocol.{ProofInput}
use coins_gsr_v.Bridge.{validate_proof_input}
use coins_gsr_v.Process.{
  path, join, Query, Answer, env_var, artifacts_dir, is_file, exists, read, create_dir, write,
  prove, save, load, print,
}
use coins_gsr_v.Process.Holds.{History}
use coins_gsr_v.Process.Run.{World, run, AllAsked}
use coins_gsr_v.Evidence.{
  verified_fields, sha256_hex, program_key, execute_guest, check_evidence, deployment_value,
  deployment_json, verified_value, verified_json,
}
use coins_gsr_v.Evidence.Checks.{check_evidence-IsVerified_iff}
use coins_gsr_v.Evidence.Evident.{IsEvident, check_evidence-ok_iff}
use coins_gsr_v.Command.{session, dispatch}
use coins_gsr_v.Command.Prepare.{IsDeployment}
use coins_gsr_v.Command.Session
use coins_gsr_v.Command.Session.{Arguments, IsRecord}
use coins_gsr_v.Command.Session.Writes.{session_writes}
use coins_gsr_v.Command.Safety
use coins_gsr_v.Command.Safety.{dispatch_writes}
use coins_gsr_v.Command.Agreement.{IsOfOneKey, record-deployment_key}
use coins_gsr_v.Examples.Inputs.{key, collection}
use coins_gsr_v.Examples.Runs.{collection_runs}
use coins_gsr_v.Examples.Session.{
  env, client, proof, statement, proof_IsVerified, exports, program, proof_bytes, program_IsArray,
  deployed_key,
}

-- A system in which no file exists, each file that is read is one program, and all goes well.
abbrev answers : (q : Query client) → Answer q
answers (env_var name) = none
answers artifacts_dir = ok (path "circuits")
answers (is_file p) = ok true
answers (exists p) = false
answers (read p) = ok (key 7)
answers (create_dir p) = ok tt
answers (write p bytes) = ok tt
answers (prove proving_key input) = ok (proof, 60)
answers (save made p) = ok tt
answers (load p) = ok proof
answers (print line) = tt

abbrev world : World client
world past q = answers q

abbrev args : Arguments
args = record {
  command = "verify";
  input_name = "input.json";
  elf_name = "guest";
  directory_name = "artifacts";
}

session_writes_example :
    AllAsked
      (Session.Permits env args)
      (run world [] (session env "verify" "input.json" "guest" "artifacts")).0
    × ((u : Unit {0})
        → (run world [] (session env "verify" "input.json" "guest" "artifacts")).1 ≡ ok u
        → Session.Wrote env args
            (run world [] (session env "verify" "input.json" "guest" "artifacts")).0
            u)
session_writes_example = session_writes env args refl world

abbrev words : List String
words = "verify" ∷ "input.json" ∷ "guest" ∷ "artifacts" ∷ []

dispatch_writes_example :
    AllAsked (Safety.Permits env words) (run world [] (dispatch env words)).0
    × ((u : Unit {0})
        → (run world [] (dispatch env words)).1 ≡ ok u
        → Safety.Wrote env words (run world [] (dispatch env words)).0 u)
dispatch_writes_example = dispatch_writes env words world

check_evidence-ok_iff_example :
    (check_evidence env proof (key 7) (key 7) statement ≡ ok tt)
    ↔ IsEvident env proof (key 7) (key 7) statement
check_evidence-ok_iff_example =
    check_evidence-ok_iff env proof (key 7) (key 7) statement proof_bytes program_IsArray

-- The stand-in's proof passes the tests.
evidence_passes : check_evidence env proof (key 7) (key 7) statement ≡ ok tt
evidence_passes =
    (check_evidence-IsVerified_iff env proof (key 7) (key 7) statement).1 proof_IsVerified

abbrev before_record : History client
before_record =
    (load (join (path "artifacts") "proof.bin"), ok proof)
    ∷ (read (path "guest"), ok program)
    ∷ (read (path "input.json"), ok program)
    ∷ []

recorded : IsRecord env args before_record (0x7b ∷ 0x7d ∷ [])
unfolding execute_guest validate_proof_input program_key verified_json verified_value
recorded = record {
  input = ProofInput.collect collection;
  expected = statement;
  elf = program;
  proving_key = program;
  key = program;
  proof = proof;
  executed = record {
    text = program;
    was_input = inr (inr (inl refl));
    parsed = inr ("no bundle", refl, refl);
    valid = rw collection_runs refl;
    was_elf = inr (inl refl);
    instructions = 5;
    executed = refl;
  };
  keyed = (refl, refl);
  obtained = inl (inl refl);
  verified = proof_IsVerified;
  exported = exports;
  seconds = none;
  content = rw (exports.1) refl;
  fields =
      verified_fields env (ProofInput.collect collection) (sha256_hex env program) program statement
        proof 5 none exports.0;
  is_object = refl;
  tells_elf = refl;
  tells_program = refl;
  tells_statement = refl;
}

abbrev before_deployment : History client
before_deployment = (read (path "guest"), ok program) ∷ []

deployed : IsDeployment env "guest" "artifacts" before_deployment (0x7b ∷ 0x7d ∷ [])
unfolding program_key deployment_json deployment_value
deployed = record {
  elf = program;
  was_read = inl refl;
  proving_key = program;
  is_set_up = refl;
  key = program;
  is_key = refl;
  encoded = rw deployed_key refl;
}

record-deployment_key_example : IsOfOneKey env (0x7b ∷ 0x7d ∷ []) (0x7b ∷ 0x7d ∷ [])
unfolding recorded deployed
record-deployment_key_example =
    record-deployment_key env args "guest" "artifacts" before_deployment before_record
      (0x7b ∷ 0x7d ∷ []) (0x7b ∷ 0x7d ∷ []) deployed recorded (λ bs width canonical. refl)
      (λ text bytes e. rw (← ok_injective e) (omega arith)) proof_bytes refl
