-- ===== src/Vectors.antt =====
-- The test vectors of the protocol: crates/protocol/examples/generate_vectors.rs makes one, and
-- crates/protocol/tests/vectors.rs checks each stored one. A failed `unwrap` or assertion panics.
pub mod Agreement
pub mod Meaning
use Prim.Native.String.{String}
use coins_gsr_v.Base.{
  assert, assert-ok, or_panic-ok, ℕ, zero, suc, Bool, true, false, not, ◌==◌, if◌then◌else◌, Option,
  List, [], ◌∷◌, length, replicate, Array3, map_array, Result, ok, panic, ◌>>=◌, ◌>>◌, or_panic,
  expect,
}
use coins_gsr_v.Bytes.{Bytes, bytes_eq}
use coins_gsr_v.Crates.{Coins}
use coins_gsr_v.Protocol.{Account, AccountState, Collection}
use coins_gsr_v.Account.{root}
use coins_gsr_v.Collect.{apply_collection}
use coins_gsr_v.Caboose.{encode_genesis_state, encode_active_state, caboose_script_pubkey}
use coins_gsr_v.Fixtures.{Signer}

-- The record of both files; the generator's has an `id` besides.
pub record Vector : Type 0 where
  pub keys : Array3 String
  pub balances : Array3 ℕ
  pub nonces : Array3 ℕ
  pub bridge_id : String
  pub account_root : String
  pub genesis_state : String
  pub active_state : String
  pub genesis_caboose_spk : String
  pub active_caboose_spk : String
  pub collection_statement : String

-- `hex::encode` and `hex::decode`
pub record Hex : Type 0 where
  pub encode : Bytes → String
  pub decode : String → Option Bytes

-- `std::array::from_fn(|index| index as u8)`
abbrev count_from : ℕ → ℕ → Bytes
count_from start zero = []
count_from start (suc n) = start ∷ count_from (suc start) n

abbrev pub accounts_of : Array3 Bytes → Array3 ℕ → Array3 ℕ → AccountState
accounts_of keys balances nonces = record {
  accounts = record {
    at0 = record { key = keys.at0; balance = balances.at0; nonce = nonces.at0 };
    at1 = record { key = keys.at1; balance = balances.at1; nonce = nonces.at1 };
    at2 = record { key = keys.at2; balance = balances.at2; nonce = nonces.at2 };
  };
}

-- The collection that both files apply to their state.
abbrev pub vector_collection : Bytes → AccountState → Collection
vector_collection bridge_id state = record {
  bridge_id = bridge_id;
  bridge_prevout = record { txid = replicate 32 0x31; vout = 0 };
  old_state = state;
  old_backing = 201_007;
  deposits = record {
    at0 = record {
      outpoint = record { txid = replicate 32 0x41; vout = 1 };
      value = 5_000;
      recipient_id = 0;
    };
    at1 = record {
      outpoint = record { txid = replicate 32 0x52; vout = 2 };
      value = 6_000;
      recipient_id = 1;
    };
  };
}

module _ (signer : Signer) (coins : Coins) (hex : Hex) where
  -- The generator's keys, state and bridge.
  abbrev pub generator_keys : Array3 Bytes
  generator_keys =
      map_array (λ value. signer.public_key (signer.secret_key value))
        (record { at0 = 11; at1 = 12; at2 = 13 })

  abbrev pub generator_state : AccountState
  generator_state =
      accounts_of generator_keys (record { at0 = 120_000; at1 = 80_000; at2 = 7 })
        (record { at0 = 2; at1 = 3; at2 = 4 })

  abbrev pub generator_bridge_id : Bytes
  generator_bridge_id = count_from 0 32

  -- The vector that the generator prints, `hex` applied to each field.
  unfoldable pub generate_vector : Result String Vector
  generate_vector = do
    let account_root : Bytes = root coins generator_state
    let genesis : Bytes = encode_genesis_state account_root
    let active : Bytes = encode_active_state generator_bridge_id account_root
    collection ←
        expect (apply_collection coins (vector_collection generator_bridge_id generator_state))
    ok (record {
      keys = map_array hex.encode generator_keys;
      balances = record { at0 = 120_000; at1 = 80_000; at2 = 7 };
      nonces = record { at0 = 2; at1 = 3; at2 = 4 };
      bridge_id = hex.encode generator_bridge_id;
      account_root = hex.encode account_root;
      genesis_state = hex.encode genesis;
      active_state = hex.encode active;
      genesis_caboose_spk = hex.encode (caboose_script_pubkey coins genesis);
      active_caboose_spk = hex.encode (caboose_script_pubkey coins active);
      collection_statement = hex.encode collection.statement;
    })

  -- The generator prints a list of one vector, with its `id`; `to_string_pretty` is a parameter.
  unfoldable pub generator_main :
      (List (String × Vector) → Result String String) → Result String String
  generator_main to_string_pretty = do
    vector ← generate_vector
    expect (to_string_pretty (("state_encoding_v1", vector) ∷ []))

module _ (coins : Coins) (hex : Hex) where
  -- `bytes::<N>(encoded)`
  abbrev pub array_of : ℕ → String → Result String Bytes
  array_of n encoded =
      or_panic (hex.decode encoded) >>= λ decoded. if length decoded == n then ok decoded else panic

  -- `assert_eq!(computed, bytes(&field))`
  abbrev pub assert_array : ℕ → Bytes → String → Result String (Unit {0})
  assert_array n computed encoded =
      array_of n encoded >>= λ stored. assert (bytes_eq computed stored)

  abbrev pub keys_of : Array3 String → Result String (Array3 Bytes)
  keys_of keys = do
    key0 ← array_of 32 keys.at0
    key1 ← array_of 32 keys.at1
    key2 ← array_of 32 keys.at2
    ok (record { at0 = key0; at1 = key1; at2 = key2 })

  -- The body of the test's loop.
  unfoldable pub check_vector : Vector → Result String (Unit {0})
  check_vector vector = do
    keys ← keys_of vector.keys
    let state : AccountState = accounts_of keys vector.balances vector.nonces
    let account_root : Bytes = root coins state
    assert_array 32 account_root vector.account_root
    let genesis : Bytes = encode_genesis_state account_root
    bridge_id ← array_of 32 vector.bridge_id
    let active : Bytes = encode_active_state bridge_id account_root
    assert_array 41 genesis vector.genesis_state
    assert_array 73 active vector.active_state
    assert_array 34 (caboose_script_pubkey coins genesis) vector.genesis_caboose_spk
    assert_array 34 (caboose_script_pubkey coins active) vector.active_caboose_spk
    collection ← expect (apply_collection coins (vector_collection bridge_id state))
    statement ← or_panic (hex.decode vector.collection_statement)
    assert (bytes_eq collection.statement statement)

  abbrev pub check_each : List Vector → Result String (Unit {0})
  check_each [] = ok tt
  check_each (vector ∷ vectors) = let rest = check_each vectors in check_vector vector >>= λ _. rest

  -- The test, on the stored vectors.
  unfoldable pub check_vectors : List Vector → Result String (Unit {0})
  check_vectors vectors = do assert (not (length vectors == 0)); check_each vectors
