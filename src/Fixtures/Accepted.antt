-- ===== src/Fixtures/Accepted.antt =====
-- The fixtures are inputs that the protocol accepts, if the signer is honest.
use coins_gsr_v.Base.{◌≡◌, refl, false, true, [], ◌∷◌, ◌++◌, replicate, map_array, some, ok, arith}
use coins_gsr_v.Bytes.{Bytes, bytes_lt, to_le_bytes}
use coins_gsr_v.Bytes.Order.{bytes_eq_refl}
use coins_gsr_v.Crates.{Coins, portable, Transaction}
use coins_gsr_v.Protocol.{AccountState, Collection, Settlement, reserve}
use coins_gsr_v.Account.{zero_state}
use coins_gsr_v.Account.Validity.{
  HasValidKeys, HasValidKeys-same_keys, validate-ok_iff, zero_account,
}
use coins_gsr_v.Message.{encode, scoped_transfer_message}
use coins_gsr_v.Message.Widths.{withdrawal_bytes, withdrawal_message-IsPayout, IsPayout}
use coins_gsr_v.Collect.Credit.{credited}
use coins_gsr_v.Collect.Outcome
use coins_gsr_v.Settle.{apply_settlement}
use coins_gsr_v.Settle.Terms
use coins_gsr_v.Settle.Outcome as SettleOutcome
use coins_gsr_v.Signature.{valid_signature, verify_selected}
use coins_gsr_v.Fixtures.{Signer, secrets, public, fixture_collection, fixture_settlement}

-- What the fixtures and the host rely on in `coins_crypto`: a signature that `sign` makes decodes to a finite point,
-- is that point's encoding, and verifies for the signer's key.
pub record IsHonest (signer : Signer) (coins : Coins) : Type 0 where
  pub decodes :
      (secret : signer.SecretKey) (message : Bytes)
      → (point : coins.G2Affine) × (coins.g2_to_affine (signer.sign secret message) ≡ some point)
        × (coins.g2_infinity point ≡ false)
        × (coins.g2_from_affine point ≡ signer.sign secret message)
  pub verifies :
      (secret : signer.SecretKey) (message : Bytes)
      → coins.verify (signer.public_key secret) message (signer.sign secret message) ≡ true

-- The state that the fixtures start from.
abbrev pub zeros : Signer → AccountState
zeros signer = record { accounts = map_array zero_account (public signer) }

pub zeros_made :
    (signer : Signer) (coins : Coins)
    → HasValidKeys coins (zeros signer)
    → zero_state coins (public signer) ≡ ok (zeros signer)
unfolding zero_state
zeros_made signer coins keys = rw ((validate-ok_iff coins (zeros signer)).1 keys)

module _ (signer : Signer) (coins : Coins) (honest : IsHonest signer coins) where
  pub signed-accepted :
      (secret : signer.SecretKey) (message : Bytes)
      → valid_signature {coins = coins} portable
          (signer.public_key secret)
          message
          (signer.sign secret message)
        ≡ ok true
  unfolding valid_signature verify_selected
  signed-accepted secret message =
      let (point, decoded, finite, canonical) = honest.decodes secret message in
      ground (arith, bytes_eq_refl (signer.sign secret message), honest.verifies secret message)

  abbrev payout_destination : Bytes
  payout_destination = (0x51 ∷ 0x20 ∷ []) ++ replicate 32 0x77

  abbrev pub the_collection : Collection
  the_collection = record {
    bridge_id = replicate 32 0x42;
    bridge_prevout = record { txid = replicate 32 0x31; vout = 0 };
    old_state = zeros signer;
    old_backing = reserve;
    deposits = record {
      at0 = record {
        outpoint = record { txid = replicate 32 0x41; vout = 1 };
        value = 120_000;
        recipient_id = 0;
      };
      at1 = record {
        outpoint = record { txid = replicate 32 0x52; vout = 2 };
        value = 80_000;
        recipient_id = 1;
      };
    };
  }

  fixture_collection-ok :
      HasValidKeys coins (zeros signer) → fixture_collection signer coins ≡ ok the_collection
  unfolding fixture_collection
  fixture_collection-ok keys = rw (zeros_made signer coins keys)

  pub the_collection-IsAcceptable :
      HasValidKeys coins (zeros signer) → Outcome.IsAcceptable coins the_collection
  unfolding encode to_le_bytes bytes_lt
  the_collection-IsAcceptable keys = record {
    keys = keys;
    backed = refl;
    ordered = refl;
    positive0 = λ e. omega arith;
    positive1 = λ e. omega arith;
    known0 = omega arith;
    known1 = omega arith;
    room = omega arith;
  }

  payout : IsPayout 60_000 payout_destination
  payout = record { positive = λ e. omega arith; width = refl; program = refl }

  abbrev collected_state : AccountState
  collected_state = (Outcome.transition_of coins the_collection).new_state

  abbrev the_transfer : Transaction
  the_transfer = record {
    sender_id = 0;
    recipient_pk = (public signer).at1;
    token_id = coins.native_token_id;
    amount = 50_000;
    fee = 1;
  }

  abbrev native : Bytes
  native = coins.message_to_sign the_transfer collected_state.accounts.at0.nonce

  abbrev the_settlement : Settlement
  the_settlement = record {
    bridge_id = replicate 32 0x42;
    bridge_prevout = record { txid = replicate 32 0x61; vout = 0 };
    old_backing = (Outcome.transition_of coins the_collection).new_backing;
    old_state = collected_state;
    transfer = the_transfer;
    transfer_signature = signer.sign (secrets signer).at0 native;
    scoped_transfer_signature =
        signer.sign (secrets signer).at0 (scoped_transfer_message coins (replicate 32 0x42) native);
    withdrawal_nonce = 0;
    withdrawal_amount = 60_000;
    withdrawal_destination = payout_destination;
    withdrawal_signature =
        signer.sign (secrets signer).at1
          (withdrawal_bytes (replicate 32 0x42) 0 60_000 payout_destination);
  }

  fixture_settlement-ok :
      HasValidKeys coins (zeros signer) → fixture_settlement signer coins ≡ ok the_settlement
  unfolding fixture_settlement
  fixture_settlement-ok keys = rw (
    fixture_collection-ok keys,
    Outcome.apply_collection-IsAcceptable coins the_collection (the_collection-IsAcceptable keys),
    withdrawal_message-IsPayout (replicate 32 0x42) 0 60_000 payout_destination payout,
  )

  the_settlement-IsAcceptable :
      HasValidKeys coins (zeros signer) → Terms.IsAcceptable coins portable the_settlement
  unfolding Outcome.transition_of credited
  the_settlement-IsAcceptable keys = record {
    keys = HasValidKeys-same_keys coins (zeros signer) collected_state refl keys;
    backed = refl;
    backing_fits = omega arith;
    from_sender = refl;
    to_recipient = refl;
    native_token = refl;
    transfer_signed = signed-accepted (secrets signer).at0 _;
    scoped_signed = signed-accepted (secrets signer).at0 _;
    transfer_covered = omega arith;
    sender_nonce_fits = omega arith;
    nonce_current = refl;
    payout = payout;
    withdrawal_signed = signed-accepted (secrets signer).at1 _;
    withdrawal_covered = omega arith;
    recipient_nonce_fits = omega arith;
  }

  -- With an honest signer, the portable build and valid keys, `settlement` of the fixtures does not
  -- panic, and the protocol accepts the settlement that it returns, with the transition that the
  -- settlement stands for.
  pub fixture_settlement-accepted :
      HasValidKeys coins (zeros signer)
      → (i : Settlement) × (fixture_settlement signer coins ≡ ok i)
        × (apply_settlement coins portable i ≡ ok (Terms.transition_of coins i))
  fixture_settlement-accepted keys = (
    the_settlement,
    fixture_settlement-ok keys,
    SettleOutcome.apply_settlement-IsAcceptable coins portable the_settlement
        (the_settlement-IsAcceptable keys),
  )
