-- ===== src/UnitTests/Settlements/Passed.antt =====
-- When the first test of settlements passes.
use coins_gsr_v.Base.{
  ℕ, ◌≡◌, ◌≢◌, ◌⊎◌, inl, inr, Bool-cases, refl, false, true, ◌∷◌, replicate, ok, ok_injective,
  arith,
}
use coins_gsr_v.Bytes.{Bytes, bytes_eq}
use coins_gsr_v.Bytes.Order.{bytes_eq_refl}
use coins_gsr_v.Crates.{Coins, portable}
use coins_gsr_v.Protocol.{AccountState, Settlement}
use coins_gsr_v.Account.{backing, checked_add_u64}
use coins_gsr_v.Account.Validity.{HasValidKeys, HasValidKeys-same_keys}
use coins_gsr_v.Message.{scoped_transfer_message}
use coins_gsr_v.Message.Widths.{IsPayout, withdrawal_bytes, withdrawal_message-IsPayout}
use coins_gsr_v.Signature.{valid_signature, verify_selected}
use coins_gsr_v.Signature.Total.{valid_signature-Returns, valid_signature-accepted}
use coins_gsr_v.Settle.Terms.{transferred, withdrawn, transition_of}
use coins_gsr_v.Settle.Terms
use coins_gsr_v.Settle.Outcome.{apply_settlement-IsAcceptable}
use coins_gsr_v.Settle.Refusals.{IsChecked, scoped_refused}
use coins_gsr_v.Fixtures.{Signer}
use coins_gsr_v.Fixtures.Accepted.{IsHonest, zeros, zeros_made, signed-accepted}
use coins_gsr_v.UnitTests.{keys}
use coins_gsr_v.UnitTests.Settlements.{
  with_balance0, with_balance1, destination, bridge_id, transfer, signed,
  settlement_validates_native_and_bridge_scoped_authorizations,
}

-- One signature that a key's holder made for one message, and that verifies for another one too.
pub record SignsBoth (coins : Coins) (key signature message other : Bytes) : Type 0 where
  pub differ : message ≢ other
  pub verifies : coins.verify key message signature ≡ true
  pub verifies_other : coins.verify key other signature ≡ true

pub unequal : (xs ys : Bytes) → bytes_eq xs ys ≡ false → xs ≢ ys
unequal xs ys h e = cc (bytes_eq_refl xs)

-- What both tests withdraw is a payout.
pub payout : (amount : ℕ) → amount ≢ 0 → IsPayout amount destination
payout amount positive = record { positive = positive; width = refl; program = refl }

module _ (signer : Signer) (coins : Coins) (honest : IsHonest signer coins) where
  -- A signature of one message is refused for another one, or verifies for both.
  pub other_message :
      (secret : signer.SecretKey) (m n : Bytes)
      → m ≢ n
      → (valid_signature {coins = coins} portable
            (signer.public_key secret)
            n
            (signer.sign secret m)
          ≡ ok false)
        ⊎ SignsBoth coins (signer.public_key secret) (signer.sign secret m) m n
  unfolding verify_selected
  other_message secret m n new =
      let key = signer.public_key secret in
      let signature = signer.sign secret m in
      let (answer, e) = valid_signature-Returns {coins = coins} portable key n signature tt in
      elim (Bool-cases answer) [
        | inr refused ↦ inl (rw refused at e)
        | inl accepted ↦
            let (p, _, _, _, passes) =
              valid_signature-accepted {coins = coins} portable key n signature
                (rw accepted at e) in
            inr (record {
              differ = new;
              verifies = honest.verifies secret m;
              verifies_other = ok_injective passes;
            })
      ]

module _ (signer : Signer) (coins : Coins) (honest : IsHonest signer coins)
    (valid : HasValidKeys coins (zeros signer)) where
  abbrev funded : AccountState
  funded = with_balance1 (with_balance0 (zeros signer) 120_000) 80_000

  abbrev input : Settlement
  input =
      signed signer coins funded 201_000 coins.native_token_id 60_000
        (withdrawal_bytes bridge_id 0 60_000 destination)

  input-IsAcceptable : Terms.IsAcceptable coins portable input
  input-IsAcceptable = record {
    keys = HasValidKeys-same_keys coins (zeros signer) funded refl valid;
    backed = refl;
    backing_fits = omega arith;
    from_sender = refl;
    to_recipient = refl;
    native_token = refl;
    transfer_signed = signed-accepted signer coins honest (keys signer).0.at0 _;
    scoped_signed = signed-accepted signer coins honest (keys signer).0.at0 _;
    transfer_covered = omega arith;
    sender_nonce_fits = omega arith;
    nonce_current = refl;
    payout = payout 60_000 λ e. omega arith;
    withdrawal_signed = signed-accepted signer coins honest (keys signer).0.at1 _;
    withdrawal_covered = omega arith;
    recipient_nonce_fits = omega arith;
  }

  -- The replayed settlement: for a bridge with another first byte, and with a new withdrawal signature.
  abbrev other_bridge : Bytes
  other_bridge = 0x43 ∷ replicate 31 0x42

  abbrev replay : Settlement
  replay = record input {
    bridge_id = other_bridge;
    withdrawal_signature =
        signer.sign (keys signer).0.at1 (withdrawal_bytes other_bridge 0 60_000 destination);
  }

  replay-IsChecked : IsChecked coins replay
  replay-IsChecked = record {
    keys = HasValidKeys-same_keys coins (zeros signer) funded refl valid;
    backed = refl;
    backing_fits = omega arith;
    from_sender = refl;
    to_recipient = refl;
    native_token = refl;
  }

  abbrev native : Bytes
  native = coins.message_to_sign (transfer signer coins coins.native_token_id) 0

  scoped_messages-differ :
      scoped_transfer_message coins bridge_id native
      ≢ scoped_transfer_message coins other_bridge native
  unfolding scoped_transfer_message bytes_eq
  scoped_messages-differ =
      unequal (scoped_transfer_message coins bridge_id native)
        (scoped_transfer_message coins other_bridge native) refl

  -- The first key's signature of the transfer for the one bridge verifies for the other bridge too.
  abbrev pub Replayed : Type 0
  Replayed =
      SignsBoth coins (keys signer).1.at0
        (signer.sign (keys signer).0.at0 (scoped_transfer_message coins bridge_id native))
        (scoped_transfer_message coins bridge_id native)
        (scoped_transfer_message coins other_bridge native)

  pub settlement_validates-passes :
      (settlement_validates_native_and_bridge_scoped_authorizations signer coins ≡ ok tt) ⊎ Replayed
  unfolding settlement_validates_native_and_bridge_scoped_authorizations backing checked_add_u64
      transition_of transferred withdrawn
  settlement_validates-passes =
      elim (other_message signer coins honest (keys signer).0.at0 _ _ scoped_messages-differ) [
        | inr both ↦ inr both
        | inl refused ↦ inl (
            rw (
              zeros_made signer coins valid,
              withdrawal_message-IsPayout bridge_id 0 60_000 destination
                  (payout 60_000 λ e. omega arith),
              apply_settlement-IsAcceptable coins portable input input-IsAcceptable,
              withdrawal_message-IsPayout other_bridge 0 60_000 destination
                  (payout 60_000 λ e. omega arith),
              scoped_refused coins portable replay replay-IsChecked
                  (signed-accepted signer coins honest (keys signer).0.at0 native) refused,
            ))
      ]
