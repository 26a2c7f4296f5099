-- ===== src/Command/Verified.antt =====
-- `verify` after `prove`, on a machine with stored files.
use Prim.Native.String.{String}
use text.Mathlib.TextLemmas.{append_cancel_left}
use coins_gsr_v.Base.{
  ℕ, ◌≡◌, ◌≢◌, refl, sym, ap, ◌∙◌, some, ◌∷◌, Result, ok, ok_injective, err, map_err,
}
use coins_gsr_v.Bytes.{Bytes}
use coins_gsr_v.Bridge.{validate_proof_input}
use coins_gsr_v.Host.{debug}
use coins_gsr_v.Process.{display, FilePath, path, join, Program}
use coins_gsr_v.Process.Files.{
  folder, content, Store, find, Machine, read_at, load_at, exec, exec-after, exec-value,
}
use coins_gsr_v.Process.Files.Names.{
  find-here, find-there, unequal_names, read_at-here, read_at-there, free-ne-read,
}
use coins_gsr_v.Protocol.{ProofInput}
use coins_gsr_v.Evidence.{Environment, sha256_hex, program_key, execute_guest, verified_json}
use coins_gsr_v.Command.{older_seconds, load_input, obtain_proof, record_proof, run_guest, session}
use coins_gsr_v.Command.Proved.{IsProved, prove-IsProved}
use coins_gsr_v.Command.VerifySteps.{
  IsPrinted, older_seconds-read, verified_json-again, load_input-loads, obtain_proof-loads,
  record_proof-again,
}

module _ (env : Environment) where
  open env use {coins, build, sp1, ark, client, json}

  module _ (machine : Machine client) where
    abbrev exec' : {A : Type 0} → Store → Program client A → Store × Result String A
    exec' store m = exec machine store m

    module _ (input_name elf_name directory_name : String) where
      abbrev directory : FilePath
      directory = path directory_name

      abbrev record_name : String
      record_name = display (join directory "verified.json")

      abbrev proof_name : String
      proof_name = display (join directory "proof.bin")

      -- The files of the program are not those of the artifact directory.
      pub record IsApart : Type 0 where
        pub input_record : input_name ≢ record_name
        pub input_proof : input_name ≢ proof_name
        pub elf_record : elf_name ≢ record_name
        pub elf_proof : elf_name ≢ proof_name

      names-differ : proof_name ≢ record_name
      names-differ same =
          unequal_names "/proof.bin" "/verified.json" refl
            (append_cancel_left directory_name "/proof.bin" "/verified.json" same)

      module _ (before after : Store)
          (p : IsProved env machine input_name elf_name directory_name before after)
          (printed : IsPrinted env)
          (loads : (proof : client.Sp1Proof)
            → machine.decoded (machine.encoded proof) ≡ ok proof) where
        abbrev stored : Store
        stored =
            (record_name, content p.bytes)
            ∷ (proof_name, content (machine.encoded p.proof))
            ∷ (directory_name, folder)
            ∷ before

        -- What was read in the beginning is read again.
        still_read :
            (name : String) {bytes : Bytes}
            → read_at before (path name) ≡ ok bytes
            → name ≢ record_name
            → name ≢ proof_name
            → read_at stored (path name) ≡ ok bytes
        still_read name was_read new_record new_proof =
            read_at-there (path name) record_name _ _ new_record
            ∙ read_at-there (path name) proof_name _ _ new_proof
            ∙ read_at-there (path name) directory_name _ _
                (free-ne-read (path name) directory before p.free was_read)
            ∙ was_read

        proof_loaded : load_at machine stored (join directory "proof.bin") ≡ ok p.proof
        unfolding load_at
        proof_loaded =
            ap load_bytes (
              read_at-there (join directory "proof.bin") record_name _ _ names-differ
              ∙ read_at-here (join directory "proof.bin") (machine.encoded p.proof) _)
            ∙ loads p.proof
          where
            load_bytes : Result String Bytes → Result String client.Sp1Proof
            load_bytes (ok bytes) = machine.decoded bytes
            load_bytes (err e) = err e
            load_bytes Result.panic = Result.panic

        -- The record is made again, with the time that is read of it.
        module _ (read : json.Value) (newer : Bytes)
            (reread : older_seconds env (ok p.bytes) ≡ ok (env.proving_seconds read))
            (remade : verified_json env p.input
                (sha256_hex env p.elf)
                p.key
                p.expected
                p.proof
                p.instructions
                (env.proving_seconds read)
              ≡ ok newer) where
          abbrev verified : Store
          verified = (record_name, content newer) ∷ stored

          run_guest-verifies :
              exec' stored (run_guest env "verify" p.input p.expected p.elf directory)
              ≡ (verified, ok tt)
          unfolding run_guest
          run_guest-verifies =
              exec-value machine stored (execute_guest env p.elf p.input p.expected) _ p.executed
              ∙ exec-value machine stored (client.setup p.elf) _ p.set_up
              ∙ exec-value machine stored (program_key env p.proving_key) _ p.is_key
              ∙ exec-after machine stored
                  (obtain_proof env "verify" p.proving_key p.input directory)
                  (record_proof env p.input p.expected (sha256_hex env p.elf) p.instructions
                    p.proving_key p.key directory)
                  (obtain_proof-loads env machine p.proving_key p.input directory stored
                    proof_loaded)
              ∙ record_proof-again env machine p.input p.expected (sha256_hex env p.elf)
                  p.instructions p.proving_key p.key directory p.proof (env.proving_seconds read)
                  stored p.evident (read_at-here (join directory "verified.json") p.bytes _) reread
                  remade p.writable

          session-verifies :
              IsApart
              → exec' stored (session env "verify" input_name elf_name directory_name)
                ≡ (verified, ok tt)
          unfolding session
          session-verifies apart =
              exec-after machine stored (load_input env input_name) _ (
                load_input-loads env machine input_name stored
                  (still_read input_name p.was_text apart.input_record apart.input_proof) p.parsed)
              ∙ exec-value machine stored (map_err debug (validate_proof_input coins build p.input))
                  _ p.valid
              ∙ exec-value machine stored (read_at stored (path elf_name)) _
                  (still_read elf_name p.was_elf apart.elf_record apart.elf_proof)
              ∙ run_guest-verifies

      -- The record of the proof after `prove`, and the one that `verify` makes of it: the same but for
      -- the time, which is the one that is read of the older record.
      pub record IsRecordedAgain (after end : Store) : Type 0 where
        pub older : Bytes
        pub was : find record_name after ≡ some (content older)
        pub newer : Bytes
        pub is : find record_name end ≡ some (content newer)
        pub input : ProofInput
        pub elf : Bytes
        pub key : Bytes
        pub expected : Bytes
        pub proof : client.Sp1Proof
        pub instructions : ℕ
        pub seconds : client.Seconds
        pub made :
            verified_json env input
              (sha256_hex env elf)
              key
              expected
              proof
              instructions
              (some seconds)
            ≡ ok older
        pub read : json.Value
        pub is_read : json.from_slice older ≡ ok read
        pub made_again :
            verified_json env input
              (sha256_hex env elf)
              key
              expected
              proof
              instructions
              (env.proving_seconds read)
            ≡ ok newer
        pub unchanged : env.proving_seconds read ≡ some seconds → newer ≡ older

      -- If `prove` ends well on a machine with stored files, then `verify` with the same arguments ends
      -- well on the files that it leaves, and leaves every file but the record of the proof as it is;
      -- the record is made again of the same data with the time that is read of it, and is the same
      -- if that is the time that was recorded. The input and the program are not files of the
      -- artifact directory, a stored proof is loaded as it was saved, and a JSON value is printed as
      -- JSON.
      pub verify_after_prove :
          (before after : Store)
          → IsApart
          → IsPrinted env
          → ((proof : client.Sp1Proof) → machine.decoded (machine.encoded proof) ≡ ok proof)
          → exec' before (session env "prove" input_name elf_name directory_name) ≡ (after, ok tt)
          → (end : Store) × (exec' after (session env "verify" input_name elf_name directory_name)
              ≡ (end, ok tt))
            × ((name : String) → name ≢ record_name → find name end ≡ find name after)
            × IsRecordedAgain after end
      verify_after_prove before after apart printed loads h =
          let p = prove-IsProved env machine input_name elf_name directory_name before after h in
          let hash = sha256_hex env p.elf in
          let (read, is_read, reread) =
            older_seconds-read env p.input hash p.key p.expected p.proof p.instructions
              (some p.seconds) printed p.encoded in
          let (newer, remade) =
            verified_json-again env p.input hash p.key p.expected p.proof p.instructions
              (some p.seconds) printed p.encoded (env.proving_seconds read) in
          rw p.stored (
            verified before after p printed loads read newer reread remade,
            session-verifies before after p printed loads read newer reread remade apart,
            λ name new. find-there name record_name (content newer) _ new,
            record {
              older = p.bytes;
              was = find-here record_name (content p.bytes) _;
              newer = newer;
              is = find-here record_name (content newer) _;
              input = p.input;
              elf = p.elf;
              key = p.key;
              expected = p.expected;
              proof = p.proof;
              instructions = p.instructions;
              seconds = p.seconds;
              made = p.encoded;
              read = read;
              is_read = is_read;
              made_again = remade;
              unchanged = λ same. ok_injective (
                  sym remade
                  ∙ ap
                      (λ s.
                        verified_json env p.input hash p.key p.expected p.proof p.instructions s)
                      same
                  ∙ p.encoded);
            },
          )
