-- ===== src/Examples/Stored.antt =====
-- `verify` after `prove` over the stand-ins, from a machine with a few files.
use Prim.Native.String.{String}
use coins_gsr_v.Base.{
  ℕ, suc, zero, ◌≡◌, ◌≢◌, refl, sym, ap, ◌∙◌, false, Option, none, some, [], ◌∷◌, ◌++◌, ◌==◌,
  length, take, drop, take-append, drop-append, Result, ok, err, ok_injective, map_err,
}
use coins_gsr_v.Bytes.{Bytes, bytes_eq}
use coins_gsr_v.Bytes.Order.{bytes_eq_refl}
use coins_gsr_v.Crates.{portable}
use coins_gsr_v.Json.{Json, lookup}
use coins_gsr_v.Protocol.{ProofInput}
use coins_gsr_v.Bridge.{validate_proof_input}
use coins_gsr_v.Process.{path}
use coins_gsr_v.Process.Files.{
  folder, content, Store, find, read_at, is_file_at, Machine, exists_at, made_at, written_at, exec,
  exec-after, exec-value,
}
use coins_gsr_v.Process.Files.Names.{unequal_names}
use coins_gsr_v.Host.{debug}
use coins_gsr_v.Evidence.Checks.{check_evidence-IsVerified_iff}
use coins_gsr_v.Evidence.{
  sha256_hex, Environment, execute_guest, program_key, check_evidence, verified_json,
  verified_value,
}
use coins_gsr_v.Command.{
  check_release_artifacts, check_files, load_input, obtain_proof, record_proof, recorded_seconds,
  run_guest, session,
}
use coins_gsr_v.Command.VerifySteps.{IsPrinted}
use coins_gsr_v.Command.Verified.{IsApart, IsRecordedAgain, verify_after_prove}
use coins_gsr_v.Examples.Inputs.{collection}
use coins_gsr_v.Examples.Runs.{collection_runs}
use coins_gsr_v.Examples.Session as Session
use coins_gsr_v.Examples.Session.{
  client, proof, proof_IsVerified, statement, verifier, exports, program,
}

-- Of an object only the seconds are written, as one more than their number; 0 is for none.
abbrev seconds_field : Option ℕ → ℕ
seconds_field none = 0
seconds_field (some value) = value

abbrev one_byte : Bytes → Result String ℕ
one_byte (b ∷ []) = ok b
one_byte _ = err "no number"

abbrev back_to_seconds : ℕ → Option ℕ
back_to_seconds zero = none
back_to_seconds (suc n) = some n

abbrev to_number : Option ℕ → ℕ
to_number none = 0
to_number (some n) = suc n

abbrev json : Json
json = record {
  Value = ℕ;
  null = 0;
  string = λ s. 0;
  number = λ n. n;
  array = λ values. 0;
  object = λ fields. seconds_field (lookup "proving_seconds" fields);
  from_slice = one_byte;
  to_vec_pretty = λ value. ok (value ∷ []);
  index = λ value name. value;
  as_str = λ value. none;
  as_array = λ value. none;
  eq = λ a b. a == b;
  eq_str = λ value text. false;
}

abbrev env : Environment
env = record {
  coins = Session.env.coins;
  build = Session.env.build;
  signer = Session.env.signer;
  sp1 = verifier;
  ark = Session.env.ark;
  client = client;
  json = json;
  hex_decode = Session.env.hex_decode;
  decimal = λ n. "5";
  scenario_from_value = λ value. err "no scenario";
  bundle_from_slice = λ bytes. err "no bundle";
  bundle_to_vec_pretty = λ bundle. ok [];
  input_from_slice = λ bytes. ok (ProofInput.collect collection);
  seconds_value = to_number;
  proving_seconds = back_to_seconds;
}

printed_back : IsPrinted env
printed_back = record {
  prints = λ value. (value ∷ [], refl);
  reads = λ value bytes h. (value, ap one_byte (sym (ok_injective h)));
}

-- A saved proof is the number of its values, the values, and the envelope.
abbrev encoded : Bytes × Bytes → Bytes
encoded (values, envelope) = length values ∷ (values ++ envelope)

abbrev decoded : Bytes → Result String (Bytes × Bytes)
decoded [] = err "empty"
decoded (n ∷ bytes) = ok (take n bytes, drop n bytes)

loads : (made : Bytes × Bytes) → decoded (encoded made) ≡ ok made
loads (values, envelope) =
    ap (λ r. ok (r, drop (length values) (values ++ envelope)))
      (take-append (length values) values envelope refl)
    ∙ ap (λ r. ok (values, r)) (drop-append (length values) values envelope refl)

abbrev machine : Machine client
machine = record {
  variable = λ name. none;
  artifacts = ok (path "circuits");
  refuses = λ p. false;
  prover = λ proving_key input. ok (proof, 60);
  encoded = encoded;
  decoded = decoded;
}

abbrev before : Store
before =
    ("input.json", content (1 ∷ []))
    ∷ ("guest", content program)
    ∷ ("circuits/groth16_circuit.bin", content [])
    ∷ ("circuits/groth16_pk.bin", content [])
    ∷ ("circuits/groth16_vk.bin", content verifier.groth16_vk_bytes)
    ∷ []

apart : IsApart env machine "input.json" "guest" "artifacts"
apart = record {
  input_record = unequal_names "input.json" "artifacts/verified.json" refl;
  input_proof = unequal_names "input.json" "artifacts/proof.bin" refl;
  elf_record = unequal_names "guest" "artifacts/verified.json" refl;
  elf_proof = unequal_names "guest" "artifacts/proof.bin" refl;
}

released : exec machine before (check_release_artifacts env) ≡ (before, ok tt)
unfolding check_release_artifacts check_files find is_file_at read_at bytes_eq
released = refl

loaded :
    exec machine before (load_input env "input.json") ≡ (before, ok (ProofInput.collect collection))
unfolding load_input find read_at
loaded = refl

valid :
    map_err debug (validate_proof_input Session.env.coins portable (ProofInput.collect collection))
    ≡ ok statement
unfolding validate_proof_input
valid = rw collection_runs refl

elf_read : read_at before (path "guest") ≡ ok program
unfolding find read_at
elf_read = refl

executed : execute_guest env program (ProofInput.collect collection) statement ≡ ok 5
unfolding execute_guest
executed = rw (bytes_eq_refl statement) refl

keyed : program_key env program ≡ ok program
unfolding program_key
keyed = refl

evident : check_evidence env proof program program statement ≡ ok tt
evident =
    let v = proof_IsVerified in
    (check_evidence-IsVerified_iff env proof program program statement).1 (record {
      groth16 = v.groth16;
      verified = v.verified;
      values = v.values;
      wrapped = v.wrapped;
      wrong_values = v.wrong_values;
      is_wrong_values = v.is_wrong_values;
      wrong_values_refused = v.wrong_values_refused;
      wrong_values_unwrapped = v.wrong_values_unwrapped;
      corrupted = v.corrupted;
      is_corrupted = v.is_corrupted;
      corrupted_refused = v.corrupted_refused;
      wrong_key = v.wrong_key;
      is_wrong_key = v.is_wrong_key;
      wrong_key_refused = v.wrong_key_refused;
    })

abbrev after : Store
after =
    ("artifacts/verified.json", content (61 ∷ []))
    ∷ ("artifacts/proof.bin", content (encoded proof))
    ∷ ("artifacts", folder)
    ∷ before

abbrev saved : Store
saved = ("artifacts/proof.bin", content (encoded proof)) ∷ ("artifacts", folder) ∷ before

made :
    exec machine before
      (obtain_proof env "prove" program (ProofInput.collect collection) (path "artifacts"))
    ≡ (saved, ok (proof, some 60))
unfolding obtain_proof exists_at made_at written_at find
made = refl

printed :
    verified_json env
      (ProofInput.collect collection)
      (sha256_hex env program)
      program
      statement
      proof
      5
      (some 60)
    ≡ ok (61 ∷ [])
unfolding verified_json verified_value
printed = rw (exports.1) refl

recorded :
    exec machine saved (
      record_proof env
        (ProofInput.collect collection)
        statement
        (sha256_hex env program)
        5
        program
        program
        (path "artifacts")
        (proof, some 60))
    ≡ (after, ok tt)
unfolding record_proof recorded_seconds written_at
recorded =
    exec-value machine saved (check_evidence env proof program program statement) _ evident
    ∙ exec-value machine saved
        (verified_json env (ProofInput.collect collection) (sha256_hex env program) program
          statement proof 5 (some 60))
        _ printed

proved : exec machine before (session env "prove" "input.json" "guest" "artifacts") ≡ (after, ok tt)
unfolding session run_guest
proved =
    exec-after machine before (check_release_artifacts env) _ released
    ∙ exec-after machine before (load_input env "input.json") _ loaded
    ∙ exec-value machine before
        (map_err debug
          (validate_proof_input Session.env.coins portable (ProofInput.collect collection)))
        _ valid
    ∙ exec-value machine before (read_at before (path "guest")) _ elf_read
    ∙ exec-value machine before
        (execute_guest env program (ProofInput.collect collection) statement) _ executed
    ∙ exec-value machine before (program_key env program) _ keyed
    ∙ exec-after machine before
        (obtain_proof env "prove" program (ProofInput.collect collection) (path "artifacts")) _ made
    ∙ recorded

verify_after_prove_example :
    (end : Store) × (exec machine after (session env "verify" "input.json" "guest" "artifacts")
      ≡ (end, ok tt))
    × ((name : String) → name ≢ "artifacts/verified.json" → find name end ≡ find name after)
    × IsRecordedAgain env machine "input.json" "guest" "artifacts" after end
verify_after_prove_example =
    verify_after_prove env machine "input.json" "guest" "artifacts" before after apart printed_back
      loads proved
