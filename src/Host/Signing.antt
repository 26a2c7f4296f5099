-- ===== src/Host/Signing.antt =====
-- The settlement that the host signs, and when the protocol accepts it.
use Prim.Native.String.{String}
use coins_gsr_v.Base.{
  ◌+◌, ◌≤◌, ◌≡◌, ◌≢◌, ◌⊎◌, refl, sym, ◌∙◌, true, false, length, Option, some, ok, panic, ltb,
  ltb_iff, Bool-cases, inl, inr,
}
use coins_gsr_v.Bytes.{limit, Bytes, IsU32, IsU64}
use coins_gsr_v.Crates.{Coins, portable, Transaction}
use coins_gsr_v.Protocol.{AccountState, OutPoint, Settlement, ProofInput, reserve}
use coins_gsr_v.Account.Validity.{HasValidKeys}
use coins_gsr_v.Account.Backing.{total, backing-total, backing-ok_iff}
use coins_gsr_v.Message.{scoped_transfer_message}
use coins_gsr_v.Message.Widths.{
  IsPayout, IsPayout-cases, withdrawal_bytes, withdrawal_message-IsPayout, IsPayout-cases,
  withdrawal_message-refused,
}
use coins_gsr_v.Settle.Terms
use coins_gsr_v.Settle.Outcome
use coins_gsr_v.Fixtures.Accepted.{IsHonest, signed-accepted}
use coins_gsr_v.Fixtures.{Signer, secrets, public}
use coins_gsr_v.Host.Scenarios.{bytes32-ok_iff}
use coins_gsr_v.Host.{
  outpoint, fixture_state, SettlementTerms, signed_settlement, transfer_withdraw_scenario,
  TransferWithdrawScenario,
}

not_both : true ≢ false
not_both e = cc

-- What the numbers of a scenario must satisfy.
pub record IsPossible (s : TransferWithdrawScenario) (destination : Bytes) : Type 0 where
  pub payout : IsPayout s.withdrawal_amount destination
  pub backing_fits : IsU64 (reserve + s.old_balances.at0 + s.old_balances.at1 + s.old_balances.at2)
  pub transfer_covered : s.transfer_amount + s.transfer_fee ≤ s.old_balances.at0
  pub sender_nonce_fits : IsU32 (s.old_nonces.at0 + 1)
  pub nonce_current : s.withdrawal_nonce ≡ s.old_nonces.at1
  pub withdrawal_covered : s.withdrawal_amount ≤ s.old_balances.at1 + s.transfer_amount
  pub recipient_nonce_fits : IsU32 (s.old_nonces.at1 + 1)

module _ (signer : Signer) (coins : Coins) where
  -- The settlement that the host signs for an old state and terms.
  abbrev pub transfer_of : SettlementTerms → Transaction
  transfer_of terms = record {
    sender_id = 0;
    recipient_pk = (public signer).at1;
    token_id = coins.native_token_id;
    amount = terms.transfer_amount;
    fee = terms.transfer_fee;
  }

  abbrev pub settlement_of : Bytes → OutPoint → AccountState → SettlementTerms → Settlement
  settlement_of bridge_id prevout s terms =
      let native : Bytes = coins.message_to_sign (transfer_of terms) s.accounts.at0.nonce in
      record {
        bridge_id = bridge_id;
        bridge_prevout = prevout;
        old_backing = total s;
        old_state = s;
        transfer = transfer_of terms;
        transfer_signature = signer.sign (secrets signer).at0 native;
        scoped_transfer_signature =
            signer.sign (secrets signer).at0 (scoped_transfer_message coins bridge_id native);
        withdrawal_nonce = terms.withdrawal_nonce;
        withdrawal_amount = terms.withdrawal_amount;
        withdrawal_destination = terms.withdrawal_destination;
        withdrawal_signature = signer.sign (secrets signer).at1 (
            withdrawal_bytes bridge_id terms.withdrawal_nonce terms.withdrawal_amount
              terms.withdrawal_destination);
      }

  abbrev pub scenario_settlement : TransferWithdrawScenario → Bytes → Bytes → Bytes → Settlement
  scenario_settlement s id txid destination =
      settlement_of id (record { txid = txid; vout = s.bridge_prevout.vout })
        (fixture_state signer s.old_balances s.old_nonces)
        (record {
          transfer_amount = s.transfer_amount;
          transfer_fee = s.transfer_fee;
          withdrawal_nonce = s.withdrawal_nonce;
          withdrawal_amount = s.withdrawal_amount;
          withdrawal_destination = destination;
        })

  pub signed_settlement-ok :
      (bridge_id : Bytes) (prevout : OutPoint) (s : AccountState) (terms : SettlementTerms)
      → IsPayout terms.withdrawal_amount terms.withdrawal_destination
      → IsU64 (total s)
      → signed_settlement signer coins bridge_id prevout s terms
        ≡ ok (settlement_of bridge_id prevout s terms)
  unfolding signed_settlement
  signed_settlement-ok bridge_id prevout s terms payout fits = rw (
    withdrawal_message-IsPayout bridge_id terms.withdrawal_nonce terms.withdrawal_amount
        terms.withdrawal_destination payout,
    (backing-ok_iff s (total s)).1 (refl, fits),
  )

  -- `signed_settlement` never returns an error. It returns the signed settlement if the withdrawal is
  -- a payout and the backing fits 64 bits, and else it panics.
  pub signed_settlement_cases :
      (bridge_id : Bytes) (prevout : OutPoint) (s : AccountState) (terms : SettlementTerms)
      → (IsPayout terms.withdrawal_amount terms.withdrawal_destination
          × IsU64 (total s)
          × (signed_settlement signer coins bridge_id prevout s terms
              ≡ ok (settlement_of bridge_id prevout s terms)))
        ⊎ ((¬ (IsPayout terms.withdrawal_amount terms.withdrawal_destination × IsU64 (total s)))
            × (signed_settlement signer coins bridge_id prevout s terms ≡ panic))
  unfolding signed_settlement
  signed_settlement_cases bridge_id prevout s terms =
      elim (IsPayout-cases terms.withdrawal_amount terms.withdrawal_destination) [
        | inl p ↦ elim (Bool-cases (ltb (total s) (limit 8))) [
          | inl e ↦
              let fits = (ltb_iff (total s) (limit 8)).0 e in
              inl (p, fits, signed_settlement-ok bridge_id prevout s terms p fits)
          | inr e ↦ inr (
            λ h. (not_both (sym ((ltb_iff (total s) (limit 8)).1 h.1) ∙ e)),
            rw (
              withdrawal_message-IsPayout bridge_id terms.withdrawal_nonce terms.withdrawal_amount
                  terms.withdrawal_destination p,
              backing-total s,
              e,
            ),
          )
        ]
        | inr n ↦ inr (
          λ h. n h.0,
          rw (
              withdrawal_message-refused bridge_id terms.withdrawal_nonce terms.withdrawal_amount
                terms.withdrawal_destination n),
        )
      ]

module _ (signer : Signer) (coins : Coins) (honest : IsHonest signer coins) where
  possible-IsAcceptable :
      (s : TransferWithdrawScenario) (id txid destination : Bytes)
      → HasValidKeys coins (fixture_state signer s.old_balances s.old_nonces)
      → IsPossible s destination
      → Terms.IsAcceptable coins portable (scenario_settlement signer coins s id txid destination)
  unfolding fixture_state
  possible-IsAcceptable s id txid destination keys p = record {
    keys = keys;
    backed = refl;
    backing_fits = p.backing_fits;
    from_sender = refl;
    to_recipient = refl;
    native_token = refl;
    transfer_signed = signed-accepted signer coins honest (secrets signer).at0 _;
    scoped_signed = signed-accepted signer coins honest (secrets signer).at0 _;
    transfer_covered = p.transfer_covered;
    sender_nonce_fits = p.sender_nonce_fits;
    nonce_current = p.nonce_current;
    payout = p.payout;
    withdrawal_signed = signed-accepted signer coins honest (secrets signer).at1 _;
    withdrawal_covered = p.withdrawal_covered;
    recipient_nonce_fits = p.recipient_nonce_fits;
  }

  -- With an honest signer, the portable build and fixture keys that are valid, a scenario of a
  -- transfer and a withdrawal succeeds if its three hex strings decode, the first two to 32 bytes,
  -- and its numbers are possible; it then returns the signed settlement and the transition that the
  -- settlement stands for.
  pub transfer_withdraw_scenario-settles :
      (hex_decode : String → Option Bytes) (s : TransferWithdrawScenario)
      (id txid destination : Bytes)
      → (hex_decode s.bridge_id ≡ some id) × (length id ≡ 32)
      → (hex_decode s.bridge_prevout.txid ≡ some txid) × (length txid ≡ 32)
      → hex_decode s.withdrawal_destination ≡ some destination
      → HasValidKeys coins (fixture_state signer s.old_balances s.old_nonces)
      → IsPossible s destination
      → transfer_withdraw_scenario signer coins portable hex_decode s
        ≡ ok (
          ProofInput.transfer_withdraw (scenario_settlement signer coins s id txid destination),
          Terms.transition_of coins (scenario_settlement signer coins s id txid destination),
        )
  unfolding transfer_withdraw_scenario outpoint
  transfer_withdraw_scenario-settles hex_decode s id txid destination hid htxid hdest keys p =
      let fits : IsU64 (total (fixture_state signer s.old_balances s.old_nonces)) =
        (possible-IsAcceptable s id txid destination keys p).backing_fits in
      rw (
        (bytes32-ok_iff hex_decode s.bridge_id "bridge id" id).1 hid,
        (bytes32-ok_iff hex_decode s.bridge_prevout.txid "outpoint txid" txid).1 htxid,
        hdest,
        signed_settlement-ok signer coins id (record { txid = txid; vout = s.bridge_prevout.vout })
            (fixture_state signer s.old_balances s.old_nonces)
            (record {
              transfer_amount = s.transfer_amount;
              transfer_fee = s.transfer_fee;
              withdrawal_nonce = s.withdrawal_nonce;
              withdrawal_amount = s.withdrawal_amount;
              withdrawal_destination = destination;
            })
            p.payout fits,
        Outcome.apply_settlement-IsAcceptable coins portable
            (scenario_settlement signer coins s id txid destination)
            (possible-IsAcceptable s id txid destination keys p),
      )
