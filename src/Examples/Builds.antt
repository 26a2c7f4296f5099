-- ===== src/Examples/Builds.antt =====
-- The two builds over stand-ins whose pairing multiplies lengths.
use coins_gsr_v.Base.{
  ℕ, ◌+◌, ◌*◌, ◌≡◌, refl, false, true, ◌&&◌, Option, none, some, List, [], ◌∷◌, ◌==◌, length, ok,
  arith,
}
use coins_gsr_v.Bytes.{Bytes, bytes_eq, to_le_bytes}
use coins_gsr_v.Crates.{Coins, Bn254, IsCompatible, portable, accelerated}
use coins_gsr_v.Protocol.{ascii, AccountState, ProofInput, Settlement}
use coins_gsr_v.Account.Validity.{HasValidKeys, validate-ok_iff}
use coins_gsr_v.Fixtures.Accepted.{IsHonest}
use coins_gsr_v.Bridge.Statement.{IsAcceptable, statement_of}
use coins_gsr_v.Host.{
  fixture_state, transfer_withdraw_scenario, Scenario, ScenarioBundle, from_transition, scenario,
}
use coins_gsr_v.Host.Signing.{scenario_settlement, transfer_withdraw_scenario-settles}
use coins_gsr_v.Host.Committed.{scenario-committed}
use coins_gsr_v.Examples.Prover.{host_scenario, possible}
use coins_gsr_v.Examples.UnitTests.{signer}
use coins_gsr_v.Signature.Agreement.{IsG1, IsG2, IsPairing}
use coins_gsr_v.Account.{
  checked_add_u64, checked_add_u32, checked_sub_u64, check_key, validate, root, backing,
  require_backing,
}
use coins_gsr_v.CompactSize.{encode_compact_size}
use coins_gsr_v.Message.{encode, statement_prefix, scoped_transfer_message, withdrawal_message}
use coins_gsr_v.Signature.{valid_signature, verify_selected}
use coins_gsr_v.Settle.{
  is_unsupported, apply_transfer, debit_withdrawal, require_signature, apply_settlement,
}
use coins_gsr_v.Settle.Terms
use coins_gsr_v.Settle.Terms.{transferred, withdrawn}
use coins_gsr_v.Bridge.{guest_main, validate_proof_input}
use coins_gsr_v.Bridge.Builds.{guest_main-agrees}
use coins_gsr_v.Examples.Toy.{toy, digest, hex_decode, json}
use coins_gsr_v.Examples.Inputs.{settlement, settled}

-- A signature of 64 bytes verifies for every key of 32 bytes.
abbrev coins : Coins
coins = record toy {
  g1_infinity = λ point. false;
  g2_infinity = λ point. false;
  verify = λ key message signature. length key == 32 && length signature == 64;
}

abbrev head_of : Bytes → Option ℕ
head_of [] = none
head_of (b ∷ bs) = some b

abbrev is_equal : List (ℕ × ℕ) → ℕ
is_equal ((p, q) ∷ (r, s) ∷ []) = elim (p * q == r * s) [ true ↦ 1 | false ↦ 0 ]
is_equal _ = 0

abbrev bn : Bn254 coins
bn = record {
  ArkFq = ℕ;
  to_bytes_be = λ x. x ∷ [];
  g1_x = λ p. length p;
  g1_y = λ p. length p;
  g2_x_c0 = λ p. length p;
  g2_x_c1 = λ p. length p;
  g2_y_c0 = λ p. length p;
  g2_y_c1 = λ p. length p;
  hash_to_g2 = λ message tag. digest message;
  Fq = ℕ;
  Fq2 = ℕ;
  G1 = ℕ;
  G2 = ℕ;
  Gt = ℕ;
  fq_from_slice = head_of;
  fq2_new = λ a b. a + b;
  affine_g1_new = λ x y. some 2;
  affine_g2_new = λ x y. some (x + y);
  g1_zero = 0;
  g1_one = 1;
  g1_neg = λ p. p;
  g2_zero = 0;
  pairing_batch = is_equal;
  gt_one = 1;
  gt_eq = λ a b. a == b;
}

bn-IsCompatible : IsCompatible bn
bn-IsCompatible = record {
  canonical = λ x. (x, refl);
  g1_on_curve = λ key p x y d f ex ey. (2, refl);
  g2_on_curve = λ p a b c d t f ea eb ec ed. (a + b + (c + d), refl);
}

two : (pk : Bytes) (k : ℕ) → IsG1 bn pk k → k ≡ 2
two pk k (IsG1.infinite e z) = cc
two pk k (IsG1.finite x y e ex ey made) = cc

head_of-some : (n x : ℕ) → head_of (n ∷ []) ≡ some x → x ≡ n
head_of-some n x h = cc

lengths : (point : Bytes) (s : ℕ) → IsG2 bn point s → s ≡ 4 * length point
lengths point s (IsG2.infinite e z) = cc
lengths point s (IsG2.finite a b c d e ea eb ec ed made) =
    let made' : some (a + b + (c + d)) ≡ some s = made in
    let sum : a + b + (c + d) ≡ s = cc in
    omega (
      arith,
      head_of-some (length point) a ea,
      head_of-some (length point) b eb,
      head_of-some (length point) c ec,
      head_of-some (length point) d ed,
    )

bn-IsPairing : IsPairing bn
bn-IsPairing = record {
  Target = ℕ;
  e = λ p q. p * q;
  batch = λ p r q s. ground arith;
  verify_undecoded = λ key message signature h. ground arith;
  verify_pairing = λ key message signature pk point k s h dk ds ek es eh.
      let key_is : k ≡ 2 = two pk k ek in
      let signature_is : s ≡ 4 * length point = lengths point s es in
      let hash_is : h ≡ 128 = lengths (digest message) h eh in ground arith;
}

-- The settlement is one that the portable build commits.
commits : guest_main coins portable (ProofInput.transfer_withdraw settlement) ≡ ok settled.statement
unfolding guest_main validate_proof_input apply_settlement validate check_key bytes_eq
    require_backing backing checked_add_u64 checked_add_u32 checked_sub_u64 is_unsupported
    require_signature valid_signature verify_selected apply_transfer debit_withdrawal
    withdrawal_message scoped_transfer_message Terms.transition_of transferred withdrawn root
    statement_prefix encode to_le_bytes encode_compact_size
commits = refl

guest_main-agrees_example :
    guest_main coins (accelerated bn) (ProofInput.transfer_withdraw settlement)
    ≡ guest_main coins portable (ProofInput.transfer_withdraw settlement)
guest_main-agrees_example =
    guest_main-agrees bn bn-IsCompatible bn-IsPairing (ProofInput.transfer_withdraw settlement)

signer-IsHonest : IsHonest signer coins
signer-IsHonest = record {
  decodes = λ secret message. (signer.sign secret message, refl, refl, refl);
  verifies = λ secret message. refl;
}

abbrev state : AccountState
state = fixture_state signer host_scenario.old_balances host_scenario.old_nonces

state-HasValidKeys : HasValidKeys coins state
unfolding fixture_state validate check_key bytes_eq
state-HasValidKeys = (validate-ok_iff coins state).0 refl

abbrev host_settlement : Settlement
host_settlement =
    scenario_settlement signer coins host_scenario (ascii host_scenario.bridge_id)
      (ascii host_scenario.bridge_prevout.txid) (ascii host_scenario.withdrawal_destination)

host_settles :
    transfer_withdraw_scenario signer coins portable hex_decode host_scenario
    ≡ ok (ProofInput.transfer_withdraw host_settlement, Terms.transition_of coins host_settlement)
host_settles =
    transfer_withdraw_scenario-settles signer coins signer-IsHonest hex_decode host_scenario
      (ascii host_scenario.bridge_id) (ascii host_scenario.bridge_prevout.txid)
      (ascii host_scenario.withdrawal_destination) (refl, refl) (refl, refl) refl state-HasValidKeys
      possible

abbrev host_bundle : ScenarioBundle json
host_bundle = record {
  request = 0;
  proof_input = ProofInput.transfer_withdraw host_settlement;
  transition = from_transition (Terms.transition_of coins host_settlement);
}

scenario_runs :
    scenario signer coins portable hex_decode json (Scenario.transfer_withdraw host_scenario)
    ≡ ok host_bundle
unfolding scenario
scenario_runs = rw host_settles

scenario-committed_example :
    IsAcceptable {coins = coins} portable host_bundle.proof_input
    × (host_bundle.transition.statement ≡ statement_of coins host_bundle.proof_input)
    × (guest_main coins (accelerated bn) host_bundle.proof_input
        ≡ ok (statement_of coins host_bundle.proof_input))
scenario-committed_example =
    scenario-committed signer bn bn-IsCompatible bn-IsPairing hex_decode json
      (Scenario.transfer_withdraw host_scenario) scenario_runs
