-- ===== src/UnitTests/Settlements/Rejected.antt =====
-- When the second test of settlements passes.
use coins_gsr_v.Base.{
  ℕ, ◌≡◌, ◌≢◌, ◌⊎◌, inl, inr, Bool-cases, ap, refl, sym, true, ◌∷◌, replicate, suc, some, ok, take,
  arith,
}
use coins_gsr_v.Bytes.{Bytes, IsArray, bytes_eq, to_le_bytes}
use coins_gsr_v.Bytes.Flip.{flip_at, flip_at-some}
use coins_gsr_v.CompactSize.{encode_compact_size}
use coins_gsr_v.Crates.{Coins, portable}
use coins_gsr_v.Protocol.{AccountState, Settlement}
use coins_gsr_v.Account.{backing, checked_add_u64}
use coins_gsr_v.Account.Validity.{HasValidKeys, HasValidKeys-same_keys}
use coins_gsr_v.Message.Widths.{withdrawal_bytes, withdrawal_message-IsPayout}
use coins_gsr_v.Signature.{valid_signature}
use coins_gsr_v.Signature.Total.{valid_signature-Returns}
use coins_gsr_v.Settle.Refusals.{
  IsChecked, IsTransferred, transfer_refused, withdrawal_refused, withdrawal_uncovered,
}
use coins_gsr_v.Fixtures.{Signer}
use coins_gsr_v.Fixtures.Accepted.{IsHonest, zeros, zeros_made, signed-accepted}
use coins_gsr_v.UnitTests.{keys}
use coins_gsr_v.UnitTests.Settlements.{
  settlement_validates_native_and_bridge_scoped_authorizations, with_balance0, destination,
  bridge_id, transfer, signed, settlement_rejects_signature_payout_and_arithmetic_mutations,
}
use coins_gsr_v.UnitTests.Settlements.Passed.{
  SignsBoth, unequal, other_message, payout, Replayed, settlement_validates-passes,
}

-- Two different signatures of one message that are both accepted.
pub record HasTwoSignatures (coins : Coins) (key message signature other : Bytes) : Type 0 where
  pub differ : signature ≢ other
  pub accepted : valid_signature {coins = coins} portable key message signature ≡ ok true
  pub accepted_other : valid_signature {coins = coins} portable key message other ≡ ok true

-- `sign` returns the `[u8; N]` of a `G2`, with N positive.
pub record IsSized (signer : Signer) : Type 0 where
  pub width : ℕ
  pub arrays : (secret : signer.SecretKey) (m : Bytes) → IsArray (suc width) (signer.sign secret m)

module _ (signer : Signer) (coins : Coins) (honest : IsHonest signer coins)
    (valid : HasValidKeys coins (zeros signer)) (token0 : coins.native_token_id ≡ 0) where
  abbrev funded : AccountState
  funded = with_balance0 (zeros signer) 100_000

  abbrev base : ℕ → Settlement
  base amount =
      signed signer coins funded 101_000 0 amount (withdrawal_bytes bridge_id 0 amount destination)

  abbrev native : Bytes
  native = coins.message_to_sign (transfer signer coins 0) 0

  -- Neither the signature nor the destination is looked at before the signatures.
  base-IsChecked :
      (amount : ℕ) (signature d : Bytes)
      → IsChecked coins
          (record (base amount) { transfer_signature = signature; withdrawal_destination = d })
  base-IsChecked amount signature d = record {
    keys = HasValidKeys-same_keys coins (zeros signer) funded refl valid;
    backed = refl;
    backing_fits = omega arith;
    from_sender = refl;
    to_recipient = refl;
    native_token = sym token0;
  }

  base-IsTransferred : (amount : ℕ) → amount ≢ 0 → IsTransferred coins portable (base amount)
  base-IsTransferred amount positive = record {
    checked = base-IsChecked amount (signer.sign (keys signer).0.at0 native) destination;
    transfer_signed = signed-accepted signer coins honest (keys signer).0.at0 _;
    scoped_signed = signed-accepted signer coins honest (keys signer).0.at0 _;
    transfer_covered = omega arith;
    sender_nonce_fits = omega arith;
    nonce_current = refl;
    payout = payout amount positive;
  }

  abbrev other_destination : Bytes
  other_destination = 0x51 ∷ 0x20 ∷ 0x77 ∷ 0x76 ∷ replicate 30 0x77

  abbrev rerouted : Settlement
  rerouted = record (base 40_000) { withdrawal_destination = other_destination }

  rerouted-IsTransferred : IsTransferred coins portable rerouted
  rerouted-IsTransferred =
      let t = base-IsTransferred 40_000 (λ e. omega arith) in
      record {
        checked = base-IsChecked 40_000 (signer.sign (keys signer).0.at0 native) other_destination;
        transfer_signed = t.transfer_signed;
        scoped_signed = t.scoped_signed;
        transfer_covered = omega arith;
        sender_nonce_fits = omega arith;
        nonce_current = refl;
        payout = record { positive = λ e. omega arith; width = refl; program = refl };
      }

  payouts-differ :
      withdrawal_bytes bridge_id 0 40_000 destination
      ≢ withdrawal_bytes bridge_id 0 40_000 other_destination
  unfolding bytes_eq to_le_bytes encode_compact_size
  payouts-differ =
      unequal (withdrawal_bytes bridge_id 0 40_000 destination)
        (withdrawal_bytes bridge_id 0 40_000 other_destination) refl

  -- The first key accepts two signatures of the transfer that differ in one bit.
  abbrev pub Malleable : Type 0
  Malleable =
      (forged : Bytes) × (flip_at 0 (signer.sign (keys signer).0.at0 native) ≡ some forged)
      × HasTwoSignatures coins (keys signer).1.at0 native (signer.sign (keys signer).0.at0 native)
          forged

  -- The second key's signature of the withdrawal verifies for another destination too.
  abbrev pub Rerouted : Type 0
  Rerouted =
      SignsBoth coins (keys signer).1.at1
        (signer.sign (keys signer).0.at1 (withdrawal_bytes bridge_id 0 40_000 destination))
        (withdrawal_bytes bridge_id 0 40_000 destination)
        (withdrawal_bytes bridge_id 0 40_000 other_destination)

  module _ (sized : IsSized signer) where
    -- The first byte of the transfer's signature with its lowest bit flipped.
    forged_signature :
        (forged : Bytes) × (flip_at 0 (signer.sign (keys signer).0.at0 native) ≡ some forged)
        × (signer.sign (keys signer).0.at0 native ≢ forged)
    forged_signature =
        let signature = signer.sign (keys signer).0.at0 native in
        let (width, bytes) = sized.arrays (keys signer).0.at0 native in
        let (forged, is_forged, _, _, new) = flip_at-some 0 signature (omega arith) bytes in
        (forged, is_forged, λ e. new 1 (omega arith) (ap (take 1) (sym e)))

    settlement_rejects-passes :
        (settlement_rejects_signature_payout_and_arithmetic_mutations signer coins ≡ ok tt)
        ⊎ (Malleable ⊎ Rerouted)
    unfolding settlement_rejects_signature_payout_and_arithmetic_mutations backing checked_add_u64
    settlement_rejects-passes =
        let (forged, is_forged, new) = forged_signature in
        let key = (keys signer).1.at0 in
        let (answer, e) = valid_signature-Returns {coins = coins} portable key native forged tt in
        let accepted = signed-accepted signer coins honest (keys signer).0.at0 native in
        elim (Bool-cases answer) [
          | inl same ↦ inr (
              inl (
                forged,
                is_forged,
                record { differ = new; accepted = accepted; accepted_other = rw same at e },
              ))
          | inr refused ↦
              elim (other_message signer coins honest (keys signer).0.at1 _ _ payouts-differ) [
                | inr both ↦ inr (inr both)
                | inl unpaid ↦ inl (
                    rw (
                      zeros_made signer coins valid,
                      withdrawal_message-IsPayout bridge_id 0 40_000 destination
                          (payout 40_000 λ e. omega arith),
                      is_forged,
                      transfer_refused coins portable
                          (record (base 40_000) { transfer_signature = forged })
                          (base-IsChecked 40_000 forged destination) (rw refused at e),
                      withdrawal_refused coins portable rerouted rerouted-IsTransferred unpaid,
                      withdrawal_message-IsPayout bridge_id 0 60_000 destination
                          (payout 60_000 λ e. omega arith),
                      withdrawal_uncovered coins portable (base 60_000)
                          (base-IsTransferred 60_000 λ e. omega arith)
                          (signed-accepted signer coins honest (keys signer).0.at1 _) (omega arith),
                    ))
              ]
        ]

    -- With an honest signer and valid keys the first test of settlements passes, or the first key's
    -- signature of the transfer for the one bridge verifies for the other bridge too. If the native
    -- token is 0 and signatures are arrays, the second test passes too, or the first key accepts two
    -- signatures of the transfer that differ in one bit, or the second key's signature of the
    -- withdrawal verifies for another destination too.
    pub settlement_tests-pass :
        ((settlement_validates_native_and_bridge_scoped_authorizations signer coins ≡ ok tt)
          ⊎ Replayed signer coins honest valid)
        × ((settlement_rejects_signature_payout_and_arithmetic_mutations signer coins ≡ ok tt)
            ⊎ (Malleable ⊎ Rerouted))
    settlement_tests-pass =
        (settlement_validates-passes signer coins honest valid, settlement_rejects-passes)
