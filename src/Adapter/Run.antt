-- ===== src/Adapter/Run.antt =====
-- The test of script/coins_gsr_adapter.rs as a whole, from its variables to the file that it writes.
-- It asks the questions of Process, of which the prover's are left out.
use Prim.Native.String.{String}
use coins_gsr_v.Base.{assert, not, or_panic, expect}
use coins_gsr_v.Json.{Json}
use coins_gsr_v.Process.{
  Sp1Client, path, env_var, read, write, Program, done, ask, ◌>>=◌, ◌>>◌, path_exists,
}
use coins_gsr_v.Adapter.{Verifier, check_manifest, fixture_of, inputs_of, replayed}

module _ (verifier : Verifier) (json : Json) (client : Sp1Client) where
  -- A variable that must be set, and a file that must be there.
  abbrev pub variable : String → Program client String
  variable name = ask (env_var name) λ value. done (or_panic value)

  abbrev pub value_in : String → Program client json.Value
  value_in name = do
    text ← ask (read (path name)) λ answer. done (expect answer)
    done (expect (json.from_slice text))

  -- The test from its two values on.
  unfoldable pub write_script : String → json.Value → json.Value → Program client (Unit {0})
  write_script output proof_data manifest = do
    done (check_manifest verifier json manifest proof_data)
    fixture ← done (fixture_of verifier json manifest proof_data)
    (input0, input1) ← done (inputs_of verifier json proof_data)
    value ← done (replayed verifier json proof_data fixture input0 input1)
    content ← done (expect (json.to_vec_pretty value))
    ask (write (path output) content) λ answer. done (expect answer)

  -- The test from its three variables on.
  unfoldable pub load_values : String → String → String → Program client (Unit {0})
  load_values proof_path manifest_path output = do
    found ← path_exists (path output)
    done (assert (not found))
    proof_data ← value_in proof_path
    manifest ← value_in manifest_path
    write_script output proof_data manifest

  unfoldable pub script_test : Program client (Unit {0})
  script_test = do
    proof_path ← variable "COINS_GSR_PROOF"
    manifest_path ← variable "COINS_GSR_DEPLOYMENT"
    output ← variable "COINS_GSR_SCRIPT_OUTPUT"
    load_values proof_path manifest_path output
