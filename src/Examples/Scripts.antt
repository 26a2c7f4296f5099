-- ===== src/Examples/Scripts.antt =====
-- The theorems about the adapter and the vectors at inputs that meet their hypotheses.
use coins_gsr_v.Base.{
  ℕ, zero, replicate, ◌++◌, if◌then◌else◌, false, ◌≡◌, refl, ap, true, none, some, [], ◌∷◌, length,
  ok,
}
use coins_gsr_v.Bytes.{Bytes, bytes_eq}
use coins_gsr_v.Bytes.Endian.{from_be_bytes}
use coins_gsr_v.Account.{validate, check_key}
use coins_gsr_v.Account.Validity.{HasValidKeys, validate-ok_iff}
use coins_gsr_v.Protocol.{ProofInput}
use coins_gsr_v.Process.{
  Query, Answer, path, env_var, artifacts_dir, is_file, exists, read, create_dir, write, prove,
  save, load, print,
}
use coins_gsr_v.Process.Run.{World, run, AllAsked}
use coins_gsr_v.Evidence.{deployment_fields, deployment_value, verified_fields, verified_value}
use coins_gsr_v.Adapter.{Verifier, check_manifest, inputs_of}
use coins_gsr_v.Adapter.Run.{script_test}
use coins_gsr_v.Adapter.Script.{Permits, Wrote}
use coins_gsr_v.Adapter.Writes.{script_test_writes}
use coins_gsr_v.Adapter.Accepted.{IsLinked, host_files-accepted}
use coins_gsr_v.Vectors.{Vector, Hex, generator_state, generate_vector, check_vectors}
use coins_gsr_v.Vectors.Agreement.{generated, generated-passes, generated_vector-passes}
use coins_gsr_v.Json.{Json}
use text.Mathlib.Text.{◌==◌ as str_eq}
use coins_gsr_v.Vectors.Meaning.{IsVector, check_vector-IsVector}
use coins_gsr_v.Examples.Toy.{toy, signer}
use coins_gsr_v.Examples.Inputs.{collection}
use coins_gsr_v.Examples.Tree.{Tree, tree_json, tree_json-IsJson}
use coins_gsr_v.Examples.Digits.{digits, from_digits, from_digits-digits, from_le_bytes-back}
use coins_gsr_v.Examples.Session.{
  env, client, proof, statement, verifier, head_byte, hash_of, exports, program, proof_bytes,
  program_IsArray, deployed_key,
}

-- Points are numbers, every replay is accepted, and every script leaves an empty stack.
abbrev bitvmx : Verifier
bitvmx = record {
  G1Affine = ℕ;
  G2Affine = ℕ;
  g1_from_stack = λ items. ok (length items);
  g2_from_stack = λ items. ok (length items);
  hex_bytes = λ text. ok (from_digits zero text);
  bytes_hex = digits;
  sha256 = λ values. hash_of (head_byte values);
  Report = ℕ;
  replay = λ fixture input0 input1. ok input0;
  accepted = λ report. true;
  monolithic_artifact = λ report fixture input0 input1. ok (record {
    script = 0x51 ∷ [];
    witness_stack = [];
    estimated_tx_weight = 400;
    script_bytes = 1;
  });
  compile_macros = λ script. ok script;
  eval_gsr = λ script stack budget.
      ok (record { success = true; stack_after = []; varops_budget_remaining = some 7 });
}

linked : IsLinked env bitvmx
linked = record {
  reads = tree_json-IsJson;
  hex = λ bytes. ap (λ b. ok b) (from_digits-digits bytes);
  faithful = λ bs width canonical. refl;
  ends = from_le_bytes-back;
  hash = λ values. (0, replicate 30 0 ++ (head_byte values ∷ []), refl, refl);
}

abbrev manifest : Tree
manifest = tree_json.object (deployment_fields env "guest hash" program exports.0.key)

abbrev proof_data : Tree
proof_data = tree_json.object (
    verified_fields env (ProofInput.collect collection) "guest hash" program statement proof 5 none
      exports.0)

is_manifest : deployment_value env "guest hash" program ≡ ok manifest
unfolding deployment_value
is_manifest = rw deployed_key refl

is_proof_data :
    verified_value env (ProofInput.collect collection) "guest hash" program statement proof 5 none
    ≡ ok proof_data
unfolding verified_value
is_proof_data = rw (exports.1) refl

host_files-accepted_example :
    (check_manifest bitvmx tree_json manifest proof_data ≡ ok tt)
    × ((input1 : ℕ) × (inputs_of bitvmx tree_json proof_data
          ≡ ok (from_be_bytes (verifier.hash_public_inputs statement), input1)))
host_files-accepted_example =
    host_files-accepted env bitvmx linked (ProofInput.collect collection) "guest hash" "guest hash"
      program statement proof 5 none proof_bytes program_IsArray is_manifest is_proof_data

-- A system in which each variable is set to its own name, and one of the two files is empty.
abbrev answers : (q : Query client) → Answer q
answers (env_var name) = some name
answers artifacts_dir = ok (path "circuits")
answers (is_file p) = ok true
answers (exists p) = false
answers (read (path name)) = if str_eq name "COINS_GSR_DEPLOYMENT" then ok [] else ok (1 ∷ [])
answers (read p) = ok []
answers (create_dir p) = ok tt
answers (write p bytes) = ok tt
answers (prove proving_key input) = ok (proof, 60)
answers (save made p) = ok tt
answers (load p) = ok proof
answers (print line) = tt

abbrev world : World client
world past q = answers q

abbrev parse : Bytes → Tree
parse [] = manifest
parse (b ∷ bs) = proof_data

abbrev script_json : Json
script_json = record tree_json { from_slice = λ bytes. ok (parse bytes) }

script_test_writes_example :
    AllAsked
      (Permits bitvmx script_json client)
      (run world [] (script_test bitvmx script_json client)).0
    × ((u : Unit {0})
        → (run world [] (script_test bitvmx script_json client)).1 ≡ ok u
        → Wrote bitvmx script_json client
            (run world [] (script_test bitvmx script_json client)).0
            u)
script_test_writes_example = script_test_writes bitvmx script_json client world

abbrev hex : Hex
hex = record { encode = digits; decode = λ text. some (from_digits zero text) }

read_back : (bytes : Bytes) → hex.decode (hex.encode bytes) ≡ some bytes
read_back bytes = ap (λ b. some b) (from_digits-digits bytes)

vector_keys : HasValidKeys toy (generator_state signer toy hex)
unfolding validate check_key bytes_eq
vector_keys = (validate-ok_iff toy (generator_state signer toy hex)).0 refl

generated_vector-passes_example :
    (v : Vector) × (generate_vector signer toy hex ≡ ok v)
    × (check_vectors toy hex (v ∷ []) ≡ ok tt)
generated_vector-passes_example =
    generated_vector-passes signer toy hex read_back (λ n. refl) vector_keys

check_vector-IsVector_example : IsVector toy hex (generated signer toy hex)
check_vector-IsVector_example =
    check_vector-IsVector toy hex (generated signer toy hex)
      (generated-passes signer toy hex read_back (λ n. refl) vector_keys)
