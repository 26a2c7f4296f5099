-- ===== src/Command/Proved.antt =====
-- What `prove` has done when it ends well, on a machine with stored files.
use Prim.Native.String.{String}
use coins_gsr_v.Base.{ℕ, ◌≡◌, sym, ap, ◌∙◌, false, some, ◌∷◌, Result, ok, map_err}
use coins_gsr_v.Bytes.{Bytes}
use coins_gsr_v.Protocol.{ProofInput}
use coins_gsr_v.Bridge.{validate_proof_input}
use coins_gsr_v.Host.{debug}
use coins_gsr_v.Process.{display, FilePath, path, join, Program}
use coins_gsr_v.Process.Files.{
  folder, content, Store, Machine, read_at, exists_at, written_at, exec, exec-bind, exec-done,
}
use coins_gsr_v.Evidence.{
  Environment, sha256_hex, program_key, execute_guest, check_evidence, verified_json,
}
use coins_gsr_v.Command.{
  check_release_artifacts, parse_input, load_input, obtain_proof, record_proof, run_guest, session,
}
use coins_gsr_v.Command.ProveSteps.{
  check_release_artifacts-keeps, load_input-reads, obtain_proof-makes, record_proof-writes,
}

module _ (env : Environment) where
  open env use {coins, build, sp1, client}

  module _ (machine : Machine client) where
    abbrev exec' : {A : Type 0} → Store → Program client A → Store × Result String A
    exec' store m = exec machine store m

    -- What a successful `prove` has read, computed and stored.
    pub record IsProved (input_name elf_name directory_name : String) (before after : Store)
        : Type 0 where
      pub text : Bytes
      pub was_text : read_at before (path input_name) ≡ ok text
      pub input : ProofInput
      pub parsed : parse_input env text ≡ ok input
      pub expected : Bytes
      pub valid : map_err debug (validate_proof_input coins build input) ≡ ok expected
      pub elf : Bytes
      pub was_elf : read_at before (path elf_name) ≡ ok elf
      pub instructions : ℕ
      pub executed : execute_guest env elf input expected ≡ ok instructions
      pub proving_key : client.ProvingKey
      pub set_up : client.setup elf ≡ ok proving_key
      pub key : Bytes
      pub is_key : program_key env proving_key ≡ ok key
      pub free : exists_at before (path directory_name) ≡ false
      pub proof : client.Sp1Proof
      pub seconds : client.Seconds
      pub made : machine.prover proving_key input ≡ ok (proof, seconds)
      pub evident : check_evidence env proof proving_key key expected ≡ ok tt
      pub bytes : Bytes
      pub encoded :
          verified_json env input
            (sha256_hex env elf)
            key
            expected
            proof
            instructions
            (some seconds)
          ≡ ok bytes
      pub writable : written_at machine (join (path directory_name) "verified.json") ≡ ok tt
      pub stored :
          after
          ≡ (display (join (path directory_name) "verified.json"), content bytes)
            ∷ (display (join (path directory_name) "proof.bin"), content (machine.encoded proof))
            ∷ (directory_name, folder)
            ∷ before

    module _ (input_name elf_name directory_name : String) where
      abbrev directory : FilePath
      directory = path directory_name

      -- The session from the guest's run on.
      run_guest-IsProved :
          (store after : Store) (text elf expected : Bytes) (input : ProofInput)
          → read_at store (path input_name) ≡ ok text
          → parse_input env text ≡ ok input
          → map_err debug (validate_proof_input coins build input) ≡ ok expected
          → read_at store (path elf_name) ≡ ok elf
          → exec' store (run_guest env "prove" input expected elf directory) ≡ (after, ok tt)
          → IsProved input_name elf_name directory_name store after
      unfolding run_guest
      run_guest-IsProved store after text elf expected input was_text parsed valid was_elf h =
          let (instructions, executed, h1) =
            exec-done machine store (execute_guest env elf input expected) _ h in
          let (proving_key, set_up, h2) = exec-done machine store (client.setup elf) _ h1 in
          let (key, is_key, h3) = exec-done machine store (program_key env proving_key) _ h2 in
          let (proved, pair, obtained, h4) =
            exec-bind machine store (obtain_proof env "prove" proving_key input directory)
              (record_proof env input expected (sha256_hex env elf) instructions proving_key key
                directory)
              h3 in
          let (free, (seconds, is_seconds, made), proved_is) =
            obtain_proof-makes env machine proving_key input directory_name store proved
              {pair = pair} obtained in
          let (evident, writable, (bytes, encoded, after_is)) =
            record_proof-writes env machine input expected (sha256_hex env elf) instructions
              proving_key key directory pair.0 seconds proved after
              (ap
                  (λ recorded. exec' proved (
                    record_proof env input expected (sha256_hex env elf) instructions proving_key
                      key directory (pair.0, recorded)))
                  (sym is_seconds)
                ∙ h4) in
          record {
            text = text;
            was_text = was_text;
            input = input;
            parsed = parsed;
            expected = expected;
            valid = valid;
            elf = elf;
            was_elf = was_elf;
            instructions = instructions;
            executed = executed;
            proving_key = proving_key;
            set_up = set_up;
            key = key;
            is_key = is_key;
            free = free;
            proof = pair.0;
            seconds = seconds;
            made = made;
            evident = evident;
            bytes = bytes;
            encoded = encoded;
            writable = writable;
            stored =
                after_is
                ∙ ap (λ s. (display (join directory "verified.json"), content bytes) ∷ s) proved_is;
          }

      pub prove-IsProved :
          (before after : Store)
          → exec' before (session env "prove" input_name elf_name directory_name) ≡ (after, ok tt)
          → IsProved input_name elf_name directory_name before after
      unfolding session
      prove-IsProved before after h =
          let (start, _, released, h1) =
            exec-bind machine before (check_release_artifacts env) _ h in
          let kept = check_release_artifacts-keeps env machine before start released in
          let h2 = rw kept at h1 in
          let (next, input, loaded, h3) =
            exec-bind machine before (load_input env input_name) _ h2 in
          let (same, (text, was_text, parsed)) =
            load_input-reads env machine input_name before next loaded in
          let h4 = rw same at h3 in
          let (expected, valid, h5) =
            exec-done machine before (map_err debug (validate_proof_input coins build input)) _
              h4 in
          let (elf, was_elf, h6) = exec-done machine before (read_at before (path elf_name)) _ h5 in
          run_guest-IsProved before after text elf expected input was_text parsed valid was_elf h6
