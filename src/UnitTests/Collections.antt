-- ===== src/UnitTests/Collections.antt =====
-- The two tests of collections in crates/protocol/src/lib.rs, and when they pass.
use coins_gsr_v.Base.{
  ◌+◌, ◌≡◌, ◌↔◌, refl, not, ◌∷◌, ◌==◌, replicate, ok, ◌>>=◌, ◌>>◌, >>=-eq-ok, expect, or_panic,
  expect-ok, assert, arith,
}
use coins_gsr_v.Bytes.{Bytes, bytes_eq, bytes_lt, to_le_bytes}
use coins_gsr_v.Bytes.Flip.{flip_at}
use coins_gsr_v.Bytes.Order.{bytes_eq_refl}
use coins_gsr_v.Crates.{Coins}
use coins_gsr_v.Protocol.{
  AccountState, Deposit, Collection, reserve, deposit_order, invalid_deposit, invalid_recipient,
  invalid_backing,
}
use coins_gsr_v.Account.{zero_state, require_backing, backing, checked_add_u64}
use coins_gsr_v.Account.Validity.{HasValidKeys, validate-ok_iff, zero_state-ok}
use coins_gsr_v.Message.{encode, statement_prefix}
use coins_gsr_v.Collect.{credit, credit_all, apply_collection}
use coins_gsr_v.Collect.Credit.{credited}
use coins_gsr_v.Collect.Outcome.{IsAcceptable, apply_collection-IsAcceptable}
use coins_gsr_v.Fixtures.{Signer}
use coins_gsr_v.Fixtures.Accepted.{zeros, zeros_made}
use coins_gsr_v.UnitTests.{Test, assert_err, keys, deposits}

module _ (signer : Signer) (coins : Coins) where
  -- The two tests start from this collection.
  abbrev pub base : AccountState → Collection
  base old_state = record {
    bridge_id = replicate 32 0x42;
    bridge_prevout = record { txid = replicate 32 0x33; vout = 0 };
    old_state = old_state;
    old_backing = reserve;
    deposits = deposits;
  }

  unfoldable pub collection_credits_exact_deposits_and_preserves_identity_free_root : Test
  collection_credits_exact_deposits_and_preserves_identity_free_root = do
    old_state ← expect (zero_state coins (keys signer).1)
    let input : Collection = base old_state
    transition ← expect (apply_collection coins input)
    assert (transition.new_state.accounts.at0.balance == 120_000)
    assert (transition.new_state.accounts.at1.balance == 80_000)
    assert (transition.new_state.accounts.at2.balance == 0)
    assert (transition.new_backing == 201_000)
    other_bridge ← or_panic (flip_at 0 input.bridge_id)
    let other_id : Collection = record input { bridge_id = other_bridge }
    rooted ← expect (apply_collection coins other_id)
    assert (bytes_eq rooted.new_root transition.new_root)
    stated ← expect (apply_collection coins other_id)
    assert (not (bytes_eq stated.statement transition.statement))

  -- The four corruptions of the base collection.
  abbrev pub with_deposits : AccountState → Deposit → Deposit → Collection
  with_deposits s d e = record (base s) { deposits = record { at0 = d; at1 = e } }

  unfoldable pub collection_rejects_order_amount_recipient_and_backing_errors : Test
  collection_rejects_order_amount_recipient_and_backing_errors = do
    old_state ← expect (zero_state coins (keys signer).1)
    assert_err (apply_collection coins (with_deposits old_state deposits.at1 deposits.at0))
        deposit_order
    assert_err
        (apply_collection coins
          (with_deposits old_state (record deposits.at0 { value = 0 }) deposits.at1))
        invalid_deposit
    assert_err
        (apply_collection coins
          (with_deposits old_state (record deposits.at0 { recipient_id = 3 }) deposits.at1))
        invalid_recipient
    assert_err (apply_collection coins (record (base old_state) { old_backing = reserve + 1 }))
        invalid_backing

  base-IsAcceptable :
      (bridge_id : Bytes)
      → HasValidKeys coins (zeros signer)
      → IsAcceptable coins (record (base (zeros signer)) { bridge_id = bridge_id })
  unfolding encode to_le_bytes bytes_lt
  base-IsAcceptable bridge_id valid = record {
    keys = valid;
    backed = refl;
    ordered = refl;
    positive0 = λ e. omega arith;
    positive1 = λ e. omega arith;
    known0 = omega arith;
    known1 = omega arith;
    room = omega arith;
  }

  credits-pass :
      HasValidKeys coins (zeros signer)
      → collection_credits_exact_deposits_and_preserves_identity_free_root ≡ ok tt
  unfolding collection_credits_exact_deposits_and_preserves_identity_free_root credited
      statement_prefix bytes_eq
  credits-pass valid = rw (
    zeros_made signer coins valid,
    apply_collection-IsAcceptable coins _ (base-IsAcceptable (replicate 32 0x42) valid),
    apply_collection-IsAcceptable coins _ (base-IsAcceptable (0x43 ∷ replicate 31 0x42) valid),
    bytes_eq_refl,
  )

  rejections-pass :
      HasValidKeys coins (zeros signer)
      → collection_rejects_order_amount_recipient_and_backing_errors ≡ ok tt
  unfolding collection_rejects_order_amount_recipient_and_backing_errors apply_collection bytes_lt
      require_backing backing checked_add_u64 encode to_le_bytes credit_all credit
  rejections-pass valid =
      rw (zeros_made signer coins valid, (validate-ok_iff coins (zeros signer)).1 valid)

  zero_state-keys :
      {s : AccountState}
      → zero_state coins (keys signer).1 ≡ ok s
      → HasValidKeys coins (zeros signer)
  zero_state-keys h = let (s_is, valid) = zero_state-ok coins (keys signer).1 h in rw s_is at valid

  -- Each of the two tests of collections passes exactly if the three keys of the tests are canonical
  -- and pairwise distinct, whatever the hash function is.
  pub collection_tests-pass_iff :
      ((collection_credits_exact_deposits_and_preserves_identity_free_root ≡ ok tt)
        ↔ HasValidKeys coins (zeros signer))
      × ((collection_rejects_order_amount_recipient_and_backing_errors ≡ ok tt)
          ↔ HasValidKeys coins (zeros signer))
  unfolding collection_credits_exact_deposits_and_preserves_identity_free_root
      collection_rejects_order_amount_recipient_and_backing_errors
  collection_tests-pass_iff = (
    (
      λ h.
          let (s, made, _) = >>=-eq-ok (expect (zero_state coins (keys signer).1)) _ h in
          zero_state-keys (expect-ok (zero_state coins (keys signer).1) made),
      credits-pass,
    ),
    (
      λ h.
          let (s, made, _) = >>=-eq-ok (expect (zero_state coins (keys signer).1)) _ h in
          zero_state-keys (expect-ok (zero_state coins (keys signer).1) made),
      rejections-pass,
    ),
  )
