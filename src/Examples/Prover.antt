-- ===== src/Examples/Prover.antt =====
-- The theorems about the prover host at inputs that meet their hypotheses.
use coins_gsr_v.Base.{[], ◌≡◌, refl, length, replicate, ok, arith, All}
use coins_gsr_v.Bytes.{Bytes, bytes_eq}
use coins_gsr_v.Bytes.Endian.{from_be_bytes}
use coins_gsr_v.Crates.{portable}
use coins_gsr_v.Protocol.{ascii, AccountState, OutPoint, ProofInput, Settlement}
use coins_gsr_v.Account.{validate, check_key}
use coins_gsr_v.Account.Validity.{HasValidKeys, validate-ok_iff}
use coins_gsr_v.Message.Widths.{IsPayout}
use coins_gsr_v.Settle.Terms
use coins_gsr_v.Wrapper.{Wrapper, decode}
use coins_gsr_v.Wrapper.Envelope.{IsScalar, envelope, inputs_of, decode-envelope, decode-ok}
use coins_gsr_v.Host.{
  fixture_state, TransferWithdrawScenario, transfer_withdraw_scenario, Scenario, ScenarioBundle,
  from_transition, scenario, SettlementTerms,
}
use coins_gsr_v.Settle.{apply_settlement}
use coins_gsr_v.Fixtures.{fixture_settlement}
use coins_gsr_v.Fixtures.Accepted.{zeros, fixture_settlement-accepted}
use coins_gsr_v.Host.Signing.{IsPossible, scenario_settlement, transfer_withdraw_scenario-settles}
use coins_gsr_v.Examples.Toy.{toy, sp1, digest-IsArray, signer, signer-IsHonest, hex_decode, json}
use coins_gsr_v.Examples.Inputs.{key, destination}

-- An envelope of the stand-ins.
abbrev raw : Bytes
raw = replicate 256 5

abbrev wrapper : Wrapper
wrapper = record { inputs_be = inputs_of toy sp1 [] (key 7) (key 8); raw_proof = raw }

scalars : All IsScalar (inputs_of toy sp1 [] (key 7) (key 8))
unfolding from_be_bytes
scalars = (
  record { array = omega arith; canonical = omega arith },
  (
    record { array = digest-IsArray []; canonical = omega arith },
    (
      record { array = omega arith; canonical = omega arith },
      (
        record { array = omega arith; canonical = omega arith },
        (record { array = omega arith; canonical = omega arith }, tt),
      ),
    ),
  ),
)

pub envelope_opened : decode toy sp1 (envelope toy sp1 (key 8) raw) [] (key 7) ≡ ok wrapper
envelope_opened = decode-envelope toy sp1 [] (key 7) (key 8) raw refl scalars

decode-envelope_example : decode toy sp1 (envelope toy sp1 (key 8) raw) [] (key 7) ≡ ok wrapper
decode-envelope_example = decode-envelope toy sp1 [] (key 7) (key 8) raw refl scalars

decode-ok_example :
    (n : Bytes) × (envelope toy sp1 (key 8) raw ≡ envelope toy sp1 n raw)
    × (length raw ≡ 256)
    × (wrapper.inputs_be ≡ inputs_of toy sp1 [] (key 7) n)
    × All IsScalar (inputs_of toy sp1 [] (key 7) n)
decode-ok_example =
    decode-ok toy sp1 (envelope toy sp1 (key 8) raw) [] (key 7) (omega arith) (omega arith)
      envelope_opened

-- The host's scenario of the settlement, its strings decoded to their own bytes.
abbrev pub host_scenario : TransferWithdrawScenario
host_scenario = record {
  bridge_id = "bridge bridge bridge bridge brid";
  bridge_prevout = record { txid = "transaction transaction transact"; vout = 0 };
  old_balances = record { at0 = 120_000; at1 = 80_000; at2 = 0 };
  old_nonces = record { at0 = 0; at1 = 0; at2 = 0 };
  transfer_amount = 50_000;
  transfer_fee = 1;
  withdrawal_nonce = 0;
  withdrawal_amount = 60_000;
  withdrawal_destination = "Q payout payout payout payout payo";
}

abbrev host_state : AccountState
host_state = fixture_state signer host_scenario.old_balances host_scenario.old_nonces

host_state-HasValidKeys : HasValidKeys toy host_state
unfolding fixture_state validate check_key bytes_eq
host_state-HasValidKeys = (validate-ok_iff toy host_state).0 refl

host-IsPayout : IsPayout 60_000 (ascii host_scenario.withdrawal_destination)
host-IsPayout = record { positive = λ e. omega arith; width = refl; program = refl }

pub possible : IsPossible host_scenario (ascii host_scenario.withdrawal_destination)
possible = record {
  payout = host-IsPayout;
  backing_fits = omega arith;
  transfer_covered = omega arith;
  sender_nonce_fits = omega arith;
  nonce_current = refl;
  withdrawal_covered = omega arith;
  recipient_nonce_fits = omega arith;
}

abbrev host_settlement : Settlement
host_settlement =
    scenario_settlement signer toy host_scenario (ascii host_scenario.bridge_id)
      (ascii host_scenario.bridge_prevout.txid) (ascii host_scenario.withdrawal_destination)

host_settles :
    transfer_withdraw_scenario signer toy portable hex_decode host_scenario
    ≡ ok (ProofInput.transfer_withdraw host_settlement, Terms.transition_of toy host_settlement)
host_settles =
    transfer_withdraw_scenario-settles signer toy signer-IsHonest hex_decode host_scenario
      (ascii host_scenario.bridge_id) (ascii host_scenario.bridge_prevout.txid)
      (ascii host_scenario.withdrawal_destination) (refl, refl) (refl, refl) refl
      host_state-HasValidKeys possible

transfer_withdraw_scenario-settles_example :
    transfer_withdraw_scenario signer toy portable hex_decode host_scenario
    ≡ ok (ProofInput.transfer_withdraw host_settlement, Terms.transition_of toy host_settlement)
transfer_withdraw_scenario-settles_example =
    transfer_withdraw_scenario-settles signer toy signer-IsHonest hex_decode host_scenario
      (ascii host_scenario.bridge_id) (ascii host_scenario.bridge_prevout.txid)
      (ascii host_scenario.withdrawal_destination) (refl, refl) (refl, refl) refl
      host_state-HasValidKeys possible

abbrev host_bundle : ScenarioBundle json
host_bundle = record {
  request = 0;
  proof_input = ProofInput.transfer_withdraw host_settlement;
  transition = from_transition (Terms.transition_of toy host_settlement);
}

scenario_runs :
    scenario signer toy portable hex_decode json (Scenario.transfer_withdraw host_scenario)
    ≡ ok host_bundle
unfolding scenario
scenario_runs = rw host_settles

abbrev host_prevout : OutPoint
host_prevout = record { txid = key 1; vout = 0 }

abbrev host_terms : SettlementTerms
host_terms = record {
  transfer_amount = 50_000;
  transfer_fee = 1;
  withdrawal_nonce = 0;
  withdrawal_amount = 0;
  withdrawal_destination = destination;
}

fixture_keys : HasValidKeys toy (zeros signer)
unfolding validate check_key bytes_eq
fixture_keys = (validate-ok_iff toy (zeros signer)).0 refl

fixture_settlement-accepted_example :
    (i : Settlement) × (fixture_settlement signer toy ≡ ok i)
    × (apply_settlement toy portable i ≡ ok (Terms.transition_of toy i))
fixture_settlement-accepted_example =
    fixture_settlement-accepted signer toy signer-IsHonest fixture_keys
