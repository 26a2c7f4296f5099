-- ===== src/UnitTests.antt =====
-- The unit tests of crates/protocol/src/lib.rs and of crates/prover-host/src/wrapper.rs, as programs
-- that panic where an assertion fails: their shared keys, deposits and assertions.
pub mod Collections
pub mod Settlements
pub mod Encodings
pub mod Envelopes
pub mod DeploymentKey
use coins_gsr_v.Base.{
  ℕ, Bool, ◌==◌, replicate, Array2, Array3, map_array, Result, ok, err, panic, assert,
}
use coins_gsr_v.Bytes.{Bytes}
use coins_gsr_v.Protocol.{
  Error, invalid_account_key, duplicate_account_key, invalid_backing, invalid_deposit,
  deposit_order, invalid_recipient, arithmetic, unsupported_transfer, invalid_transfer_signature,
  invalid_scoped_transfer_signature, invalid_withdrawal, invalid_withdrawal_signature, Deposit,
}
use coins_gsr_v.Fixtures.{Signer}

-- A test function returns `()`, or panics.
abbrev pub Test : Type 0
Test = Result Error (Unit {0})

-- The place of a variant in the declaration of `Error`, by which its `==` tells variants apart.
abbrev pub discriminant : Error → ℕ
discriminant invalid_account_key = 0
discriminant duplicate_account_key = 1
discriminant invalid_backing = 2
discriminant invalid_deposit = 3
discriminant deposit_order = 4
discriminant invalid_recipient = 5
discriminant arithmetic = 6
discriminant unsupported_transfer = 7
discriminant invalid_transfer_signature = 8
discriminant invalid_scoped_transfer_signature = 9
discriminant invalid_withdrawal = 10
discriminant invalid_withdrawal_signature = 11

-- `assert_eq!(result, Err(error))`
abbrev pub assert_err : {A : Type 0} → Result Error A → Error → Test
assert_err (ok a) expected = panic
assert_err (err e) expected = assert (discriminant e == discriminant expected)
assert_err panic expected = panic

module _ (signer : Signer) where
  abbrev pub keys : Array3 signer.SecretKey × Array3 Bytes
  keys =
      let secrets : Array3 signer.SecretKey =
        map_array signer.secret_key (record { at0 = 11; at1 = 12; at2 = 13 }) in
      (secrets, map_array signer.public_key secrets)

abbrev pub deposits : Array2 Deposit
deposits = record {
  at0 = record {
    outpoint = record { txid = replicate 32 0x11; vout = 1 };
    value = 120_000;
    recipient_id = 0;
  };
  at1 = record {
    outpoint = record { txid = replicate 32 0x22; vout = 2 };
    value = 80_000;
    recipient_id = 1;
  };
}
