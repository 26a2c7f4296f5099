-- ===== src/Adapter/Script.antt =====
-- What the test may ask for and write, and what it must have seen before.
use Prim.Native.String.{String}
use coins_gsr_v.Base.{ℕ, ◌≡◌, false, some, ok}
use coins_gsr_v.Bytes.{Bytes}
use coins_gsr_v.Json.{Json}
use coins_gsr_v.Process.{
  Sp1Client, path, Query, env_var, exists, read, write, create_dir, prove, save,
}
use coins_gsr_v.Process.Holds.{History, Asked}
use coins_gsr_v.Adapter.{Verifier, Fixture}
use coins_gsr_v.Adapter.Fixed.{IsFixture}
use coins_gsr_v.Adapter.Agreed.{IsOfManifest}
use coins_gsr_v.Adapter.Replayed.{IsHashed, IsReplayed}

module _ (verifier : Verifier) (json : Json) (client : Sp1Client) where
  -- A variable's value, and a value that was read from the file that a variable names.
  abbrev pub WasSet : String → String → History client → Type 0
  WasSet name value past = Asked (env_var name, some value) past

  pub record WasValue (name : String) (value : json.Value) (past : History client) : Type 0 where
    pub text : Bytes
    pub was_read : Asked (read (path name), ok text) past
    pub parsed : json.from_slice text ≡ ok value

  -- Bytes of a script for the proof in the host's record, which is of the manifest's program.
  pub record IsScript (past : History client) (bytes : Bytes) : Type 0 where
    pub proof_path : String
    pub was_proof_path : WasSet "COINS_GSR_PROOF" proof_path past
    pub proof_data : json.Value
    pub was_proof_data : WasValue proof_path proof_data past
    pub manifest_path : String
    pub was_manifest_path : WasSet "COINS_GSR_DEPLOYMENT" manifest_path past
    pub manifest : json.Value
    pub was_manifest : WasValue manifest_path manifest past
    pub agrees : IsOfManifest verifier json manifest proof_data
    pub fixture : Fixture verifier.G1Affine verifier.G2Affine
    pub is_fixture : IsFixture verifier json manifest proof_data fixture
    pub input0 : ℕ
    pub input1 : ℕ
    pub hashed : IsHashed verifier json proof_data input0 input1
    pub value : json.Value
    pub replays : IsReplayed verifier json proof_data fixture input0 input1 value
    pub content : json.to_vec_pretty value ≡ ok bytes

  -- The one file that may be written is the output, which was seen not to exist.
  abbrev pub Permits : History client → Query client → Type 0
  Permits past (write p bytes) =
      (output : String) × (p ≡ path output)
      × WasSet "COINS_GSR_SCRIPT_OUTPUT" output past
      × Asked (exists (path output), false) past
      × IsScript past bytes
  Permits past (create_dir p) = ⊥
  Permits past (save proof p) = ⊥
  Permits past (prove key input) = ⊥
  Permits past _ = Unit

  abbrev pub Wrote : History client → Unit {0} → Type 0
  Wrote past _ =
      (output : String) × WasSet "COINS_GSR_SCRIPT_OUTPUT" output past
      × ((bytes : Bytes) × Asked (write (path output) bytes, ok tt) past)
