-- ===== src/Examples/Session.antt =====
-- A stand-in for the prover: a proof is its public values with an envelope, and the verifier accepts
-- one raw proof for one program key and for values with one first byte.
use Prim.Native.String.{String}
use coins_gsr_v.Base.{
  ℕ, ◌%◌, ◌≡◌, ◌<◌, refl, Bool, true, false, ◌&&◌, ◌==◌, if◌then◌else◌, none, some, List, [], ◌∷◌,
  ◌++◌, replicate, All, Result, ok, err, arith,
}
use coins_gsr_v.Bytes.{Bytes, IsByte, IsArray, bytes_eq}
use coins_gsr_v.Bytes.Endian.{from_be_bytes}
use coins_gsr_v.Crates.{portable}
use coins_gsr_v.Protocol.{ProofInput}
use coins_gsr_v.Message.{statement_prefix}
use coins_gsr_v.Collect.Outcome
use coins_gsr_v.Wrapper.{Sp1Verifier, decode, verify}
use coins_gsr_v.Wrapper.Envelope.{IsScalar, envelope, inputs_of, decode-envelope}
use coins_gsr_v.ArkAdapter.{Ark, Export, deployment_key, export, export_folded, fold}
use coins_gsr_v.ArkAdapter.Agreement.{export-deployment_key}
use coins_gsr_v.Process.{Sp1Client}
use coins_gsr_v.Bytes.Flip.{flip_at}
use coins_gsr_v.Bytes.Flip.Alike.{flip_at-IsFlipped, flip_last-IsLastFlipped}
use coins_gsr_v.Evidence.{Environment}
use coins_gsr_v.Evidence.Checks.{Refuses, IsVerified}
use coins_gsr_v.Examples.Toy.{toy, sp1, signer}
use coins_gsr_v.Examples.Inputs.{key, collection}
use coins_gsr_v.Examples.Export.{ark}
use coins_gsr_v.Examples.Tree.{tree_json}
use coins_gsr_v.Examples.Digits.{digits, back}

abbrev pub head_byte : Bytes → ℕ
head_byte [] = 0
head_byte (b ∷ bs) = b % 32

abbrev pub hash_of : ℕ → Bytes
hash_of b = 0 ∷ (replicate 30 0 ++ (b ∷ []))

pub hash_of-IsArray : (b : ℕ) → b < 32 → IsArray 32 (hash_of b)
hash_of-IsArray b h = omega arith

pub head_byte-lt : (values : Bytes) → head_byte values < 32
head_byte-lt [] = omega arith
head_byte-lt (b ∷ bs) = omega arith

abbrev pub statement : Bytes
statement = (Outcome.transition_of toy collection).statement

abbrev pub raw : Bytes
raw = replicate 256 5

abbrev pub opens : List Bytes → Bool
opens (program ∷ values ∷ rest) = bytes_eq program (key 7) && bytes_eq values (hash_of 3)
opens _ = false

abbrev pub verifier : Sp1Verifier
verifier = record sp1 {
  hash_public_inputs = λ values. hash_of (head_byte values);
  hash_public_inputs-IsArray = λ values. hash_of-IsArray (head_byte values) (head_byte-lt values);
  verify_gnark_proof =
      λ proof inputs vk. if bytes_eq proof raw && opens inputs then ok tt else err "invalid proof";
}

abbrev pub proof : Bytes × Bytes
proof = (statement, envelope toy verifier (key 8) raw)

abbrev pub client : Sp1Client
client = record {
  ProvingKey = Bytes;
  Sp1Proof = Bytes × Bytes;
  Seconds = ℕ;
  execute = λ elf input. ok (statement, 0, 5);
  setup = λ elf. ok elf;
  key_string = λ proving_key. "0x07";
  verify = λ made proving_key. if head_byte made.0 == 3 then ok tt else err "other values";
  is_groth16 = λ made. true;
  public_values = λ made. made.0;
  with_public_values = λ made values. (values, made.1);
  proof_bytes = λ made. made.1;
}

abbrev pub digit_ark : Ark
digit_ark = record ark { hex_encode = digits; fr_to_bytes_le = back }

abbrev pub env : Environment
env = record {
  coins = toy;
  build = portable;
  signer = signer;
  sp1 = verifier;
  ark = digit_ark;
  client = client;
  json = tree_json;
  hex_decode = λ text. ok (key 7);
  decimal = λ n. "5";
  scenario_from_value = λ value. err "no scenario";
  bundle_from_slice = λ bytes. err "no bundle";
  bundle_to_vec_pretty = λ bundle. ok [];
  input_from_slice = λ bytes. ok (ProofInput.collect collection);
  seconds_value = λ seconds. tree_json.null;
  proving_seconds = λ value. none;
}

scalars_of :
    (program values : Bytes)
    → IsScalar program
    → All IsScalar (inputs_of toy verifier values program (key 8))
unfolding from_be_bytes
scalars_of program values h =
    let small = head_byte-lt values in
    (
      h,
      (
        record { array = hash_of-IsArray (head_byte values) small; canonical = omega arith },
        (
          record { array = omega arith; canonical = omega arith },
          (
            record { array = omega arith; canonical = omega arith },
            (record { array = omega arith; canonical = omega arith }, tt),
          ),
        ),
      ),
    )

program_IsScalar : IsScalar (key 7)
unfolding from_be_bytes
program_IsScalar = record { array = omega arith; canonical = omega arith }

pub opened :
    decode toy verifier proof.1 statement (key 7)
    ≡ ok (record { inputs_be = inputs_of toy verifier statement (key 7) (key 8); raw_proof = raw })
opened =
    decode-envelope toy verifier statement (key 7) (key 8) raw refl
      (scalars_of (key 7) statement program_IsScalar)

abbrev tampered : Bytes
tampered = envelope toy verifier (key 8) (replicate 255 5 ++ (4 ∷ []))

starts : head_byte statement ≡ 3
unfolding statement_prefix
starts = refl

verify_accepts : verify toy verifier proof.1 statement (key 7) ≡ ok tt
unfolding verify bytes_eq
verify_accepts = rw (opened, starts) refl

abbrev tampered_raw : Bytes
tampered_raw = replicate 255 5 ++ (4 ∷ [])

abbrev wrong_key : Bytes
wrong_key = replicate 31 7 ++ (6 ∷ [])

wrong_key_IsScalar : IsScalar wrong_key
unfolding from_be_bytes
wrong_key_IsScalar = record { array = omega arith; canonical = omega arith }

other_values_refused :
    (values : Bytes)
    → head_byte values ≡ 2
    → verify toy verifier proof.1 values (key 7) ≡ err "invalid proof"
unfolding verify bytes_eq
other_values_refused values h =
    rw
      (
        decode-envelope toy verifier values (key 7) (key 8) raw refl
            (scalars_of (key 7) values program_IsScalar),
        h,
      )
      refl

tampered_refused :
    verify toy verifier (envelope toy verifier (key 8) tampered_raw) statement (key 7)
    ≡ err "invalid proof"
unfolding verify bytes_eq
tampered_refused =
    rw
      (decode-envelope toy verifier statement (key 7) (key 8) tampered_raw refl
        (scalars_of (key 7) statement program_IsScalar))
      refl

wrong_key_refused : verify toy verifier proof.1 statement wrong_key ≡ err "invalid proof"
unfolding verify bytes_eq
wrong_key_refused =
    rw
      (decode-envelope toy verifier statement wrong_key (key 8) raw refl
        (scalars_of wrong_key statement wrong_key_IsScalar))
      refl

Refuses-err : {A : Type 0} {r : Result String A} {e : String} → r ≡ err e → Refuses r
Refuses-err h = rw h tt

wrong_values : (values : Bytes) × (flip_at 0 statement ≡ some values) × (head_byte values ≡ 2)
unfolding statement_prefix
wrong_values = (_, refl, refl)

pub proof_IsVerified : IsVerified env proof (key 7) (key 7) statement
proof_IsVerified =
    let (values, is_values, other) = wrong_values in
    record {
      groth16 = refl;
      verified = rw starts refl;
      values = refl;
      wrapped = verify_accepts;
      wrong_values = values;
      is_wrong_values = flip_at-IsFlipped 0 statement is_values;
      wrong_values_refused = Refuses-err {e = "other values"} (rw other refl);
      wrong_values_unwrapped = Refuses-err (other_values_refused values other);
      corrupted = envelope toy verifier (key 8) tampered_raw;
      is_corrupted = flip_last-IsLastFlipped proof.1 refl;
      corrupted_refused = Refuses-err tampered_refused;
      wrong_key = wrong_key;
      is_wrong_key = flip_at-IsFlipped 31 (key 7) refl;
      wrong_key_refused = Refuses-err wrong_key_refused;
    }

pub exports : (e : Export) × (export digit_ark verifier toy proof.1 statement (key 7) ≡ ok e)
unfolding export export_folded fold
exports = rw opened (_, refl)

abbrev pub program : Bytes
program = key 7

pub proof_bytes : All IsByte proof.1
proof_bytes = omega arith

pub program_IsArray : IsArray 32 program
program_IsArray = omega arith

pub deployed_key : deployment_key digit_ark verifier program ≡ ok exports.0.key
deployed_key =
    export-deployment_key digit_ark verifier toy (λ bs width canonical. refl) proof.1 statement
      program proof_bytes program_IsArray exports.1
