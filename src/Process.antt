-- ===== src/Process.antt =====
-- The prover host as a process: what it asks of the operating system and of the prover, one question
-- at a time, and how it goes on with each answer. A program stands for its behaviour in every
-- environment, since an answer is any value of its type.
pub mod Holds
pub mod Run
pub mod Files
use Prim.Native.String.{String, ◌++◌}
use coins_gsr_v.Base.{ℕ, Bool, Option, Result, ok, err, panic}
use coins_gsr_v.Bytes.{Bytes}
use coins_gsr_v.Protocol.{ProofInput}

-- `Path::new(name)` and `path.join(name)`
pub data FilePath : Type 0 where
  path : String → FilePath
  join : FilePath → String → FilePath

-- `path.display()`
abbrev pub display : FilePath → String
display (path name) = name
display (join directory name) = display directory ++ ("/" ++ name)

-- What the host takes from `sp1_sdk`. Running the guest, setting up a program and checking a proof
-- are functions of their inputs, with printed errors; making a proof is not, and is a query below.
pub record Sp1Client : Type 1 where
  pub ProvingKey : Type 0
  pub Sp1Proof : Type 0
  -- `f64` seconds
  pub Seconds : Type 0
  -- `client.execute(elf, stdin).run()`: the public values, the exit code, the instruction count
  pub execute : Bytes → ProofInput → Result String (Bytes × ℕ × ℕ)
  pub setup : Bytes → Result String ProvingKey
  -- `proving_key.verifying_key().bytes32()`
  pub key_string : ProvingKey → String
  -- `client.verify(&proof, proving_key.verifying_key(), None)`
  pub verify : Sp1Proof → ProvingKey → Result String (Unit {0})
  pub is_groth16 : Sp1Proof → Bool
  pub public_values : Sp1Proof → Bytes
  -- `proof.public_values = values`
  pub with_public_values : Sp1Proof → Bytes → Sp1Proof
  pub proof_bytes : Sp1Proof → Bytes

pub data Query (client : Sp1Client) : Type 0 where
  -- `std::env::var`, `groth16_circuit_artifacts_dir`
  env_var : String → Query client
  artifacts_dir : Query client
  -- `metadata(path).map(|file| file.is_file())`, `exists`, `read`, `create_dir`, `write`
  is_file : FilePath → Query client
  exists : FilePath → Query client
  read : FilePath → Query client
  create_dir : FilePath → Query client
  write : FilePath → Bytes → Query client
  -- `client.prove(key, stdin).groth16().run()` with the seconds it took, `save` and `load`
  prove : client.ProvingKey → ProofInput → Query client
  save : client.Sp1Proof → FilePath → Query client
  load : FilePath → Query client
  print : String → Query client

abbrev pub Answer : {client : Sp1Client} → Query client → Type 0
Answer (env_var name) = Option String
Answer artifacts_dir = Result String FilePath
Answer (is_file p) = Result String Bool
Answer (exists p) = Bool
Answer (read p) = Result String Bytes
Answer (create_dir p) = Result String (Unit {0})
Answer (write p bytes) = Result String (Unit {0})
Answer {client} (prove key input) = Result String (client.Sp1Proof × client.Seconds)
Answer (save proof p) = Result String (Unit {0})
Answer {client} (load p) = Result String client.Sp1Proof
Answer (print line) = Unit {0}

pub data Program (client : Sp1Client) (A : Type 0) : Type 0 where
  done : Result String A → Program client A
  ask : (q : Query client) → (Answer q → Program client A) → Program client A

infixl 5 ◌>>=◌ ◌>>◌
-- What follows goes on with the value; an error or a panic ends the program.
abbrev pub ◌>>=◌ :
    {client : Sp1Client} {A B : Type 0}
    → Program client A
    → (A → Program client B)
    → Program client B
done (ok a) >>= rest = rest a
done (err e) >>= rest = done (err e)
done panic >>= rest = done panic
ask q answered >>= rest = ask q (λ a. answered a >>= rest)

abbrev pub ◌>>◌ :
    {client : Sp1Client} {B : Type 0}
    → Program client (Unit {0})
    → Program client B
    → Program client B
first >> rest = first >>= λ _. rest

-- A question whose failure ends the program: the `?` behind a call.
module _ {client : Sp1Client} where
  abbrev pub read_file : FilePath → Program client Bytes
  read_file p = ask (read p) done

  abbrev pub write_file : FilePath → Bytes → Program client (Unit {0})
  write_file p bytes = ask (write p bytes) done

  abbrev pub make_dir : FilePath → Program client (Unit {0})
  make_dir p = ask (create_dir p) done

  abbrev pub path_exists : FilePath → Program client Bool
  path_exists p = ask (exists p) λ found. done (ok found)

  abbrev pub println : String → Program client (Unit {0})
  println line = ask (print line) λ _. done (ok tt)

  abbrev pub fail : {A : Type 0} → String → Program client A
  fail message = done (err message)
