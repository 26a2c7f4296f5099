-- ===== src/Examples/UnitTests.antt =====
-- The theorems about the unit tests over the stand-ins.
use coins_gsr_v.Base.{ℕ, ◌%◌, ◌<◌, ◌≡◌, ◌⊎◌, ◌↔◌, refl, ◌++◌, replicate, ok, All-append, arith}
use coins_gsr_v.Bytes.{bytes_eq}
use coins_gsr_v.Bytes.Order.{bytes_eq_refl}
use coins_gsr_v.Protocol.{ProofInput}
use coins_gsr_v.Account.Validity.{HasValidKeys, validate-ok_iff}
use coins_gsr_v.Account.{validate, check_key}
use coins_gsr_v.Bridge.{guest_main}
use coins_gsr_v.Bridge.Typed.{IsTypedTransition, apply_input-IsTyped}
use coins_gsr_v.Crates.{portable}
use coins_gsr_v.Fixtures.{Signer}
use coins_gsr_v.Fixtures.Accepted.{IsHonest, zeros}
use coins_gsr_v.UnitTests.Collections.{
  collection_credits_exact_deposits_and_preserves_identity_free_root,
  collection_rejects_order_amount_recipient_and_backing_errors, collection_tests-pass_iff,
}
use coins_gsr_v.UnitTests.Settlements.{
  settlement_validates_native_and_bridge_scoped_authorizations,
  settlement_rejects_signature_payout_and_arithmetic_mutations,
}
use coins_gsr_v.UnitTests.Settlements.Passed.{Replayed}
use coins_gsr_v.UnitTests.Settlements.Rejected.{Malleable, Rerouted, IsSized, settlement_tests-pass}
use coins_gsr_v.UnitTests.Envelopes.{
  strict_envelope_is_not_itself_a_proof, malformed_envelopes_fail,
}
use coins_gsr_v.UnitTests.Envelopes.Strict.{IsRefused, envelope_tests-pass}
use coins_gsr_v.Examples.Toy.{toy, sp1, digest, digest-IsArray}
use coins_gsr_v.Examples.Inputs.{settlement, settled}
use coins_gsr_v.Examples.Runs.{settlement_runs}

apply_input-IsTyped_example :
    IsTypedTransition 320 settled
    × (guest_main toy portable (ProofInput.transfer_withdraw settlement) ≡ ok settled.statement)
apply_input-IsTyped_example =
    apply_input-IsTyped toy portable (ProofInput.transfer_withdraw settlement) (omega arith)
      (record { id_bytes = omega arith; head_bytes = omega arith; destination_bytes = omega arith })
      settlement_runs

-- Secrets are bytes; a signature is the key 32 times, and the message's checksum.
abbrev pub signer : Signer
signer = record {
  SecretKey = ℕ;
  secret_key = λ n. n;
  public_key = λ secret. replicate 32 (secret % 256);
  sign = λ secret message. replicate 32 (secret % 256) ++ digest message;
}

signer-IsHonest : IsHonest signer toy
unfolding bytes_eq
signer-IsHonest = record {
  decodes = λ secret message. (signer.sign secret message, refl, refl, refl);
  verifies = λ secret message. bytes_eq_refl (signer.sign secret message);
}

signer-IsSized : IsSized signer
signer-IsSized = record {
  width = 63;
  arrays = λ secret message. (
    refl,
    All-append (λ b. b < 256) (replicate 32 (secret % 256)) (digest message) (omega arith)
        (digest-IsArray message).1,
  );
}

keys_valid : HasValidKeys toy (zeros signer)
unfolding validate check_key bytes_eq
keys_valid = (validate-ok_iff toy (zeros signer)).0 refl

collection_tests-pass_iff_example :
    ((collection_credits_exact_deposits_and_preserves_identity_free_root signer toy ≡ ok tt)
      ↔ HasValidKeys toy (zeros signer))
    × ((collection_rejects_order_amount_recipient_and_backing_errors signer toy ≡ ok tt)
        ↔ HasValidKeys toy (zeros signer))
collection_tests-pass_iff_example = collection_tests-pass_iff signer toy

settlement_tests-pass_example :
    ((settlement_validates_native_and_bridge_scoped_authorizations signer toy ≡ ok tt)
      ⊎ Replayed signer toy signer-IsHonest keys_valid)
    × ((settlement_rejects_signature_payout_and_arithmetic_mutations signer toy ≡ ok tt)
        ⊎ (Malleable signer toy signer-IsHonest keys_valid refl
            ⊎ Rerouted signer toy signer-IsHonest keys_valid refl))
settlement_tests-pass_example =
    settlement_tests-pass signer toy signer-IsHonest keys_valid refl signer-IsSized

envelope_tests-pass_example :
    (malformed_envelopes_fail toy sp1 ≡ ok tt)
    × ((strict_envelope_is_not_itself_a_proof toy sp1 ≡ ok tt) ↔ IsRefused toy sp1)
envelope_tests-pass_example = envelope_tests-pass toy sp1
