-- ===== src/Vectors/Agreement.antt =====
-- The test accepts the generator's vector, and what it accepts is the protocol's encoding.
use coins_gsr_v.Base.{
  ℕ, ◌≡◌, refl, some, [], ◌∷◌, ==_iff, length, map_array, ok, arith, length-append,
}
use coins_gsr_v.Bytes.{Bytes, to_le_bytes, bytes_lt}
use coins_gsr_v.Bytes.Order.{bytes_eq_refl}
use coins_gsr_v.Crates.{Coins}
use coins_gsr_v.Protocol.{AccountState}
use coins_gsr_v.Account.{root}
use coins_gsr_v.Account.Validity.{HasValidKeys}
use coins_gsr_v.Message.{encode}
use coins_gsr_v.Collect.Outcome
use coins_gsr_v.Caboose.{
  encode_genesis_state, encode_active_state, witness_script, caboose_script_pubkey,
}
use coins_gsr_v.Caboose.Binding.{length-encode_genesis_state, length-encode_active_state}
use coins_gsr_v.Fixtures.{Signer}
use coins_gsr_v.Vectors.{
  Vector, Hex, vector_collection, generator_keys, generator_state, generator_bridge_id,
  generate_vector, array_of, assert_array, keys_of, check_vector, check_vectors,
}

-- Digits are read back.
abbrev pub IsReadBack : Hex → Type 0
IsReadBack hex = (bytes : Bytes) → hex.decode (hex.encode bytes) ≡ some bytes

module _ (coins : Coins) (hex : Hex) (read_back : IsReadBack hex) where
  array_of-encode :
      (n : ℕ) (bytes : Bytes)
      → length bytes ≡ n
      → array_of coins hex n (hex.encode bytes) ≡ ok bytes
  array_of-encode n bytes width = rw (read_back bytes, (==_iff (length bytes) n).1 width) refl

  assert_array-encode :
      (n : ℕ) (bytes : Bytes)
      → length bytes ≡ n
      → assert_array coins hex n bytes (hex.encode bytes) ≡ ok tt
  assert_array-encode n bytes width = rw (array_of-encode n bytes width, bytes_eq_refl bytes) refl

length-root : (coins : Coins) (s : AccountState) → length (root coins s) ≡ 32
unfolding root
length-root coins s = (coins.digest-IsArray _).0

length-caboose_script_pubkey :
    (coins : Coins) (state : Bytes) → length (caboose_script_pubkey coins state) ≡ 34
unfolding caboose_script_pubkey
length-caboose_script_pubkey coins state =
    let hash = coins.digest (witness_script coins state) in
    omega (arith, length-append hash [], (coins.digest-IsArray (witness_script coins state)).0)

module _ (signer : Signer) (coins : Coins) (hex : Hex) where
  generated-IsAcceptable :
      HasValidKeys coins (generator_state signer coins hex)
      → Outcome.IsAcceptable coins (
          vector_collection
            (generator_bridge_id signer coins hex)
            (generator_state signer coins hex))
  unfolding encode to_le_bytes bytes_lt
  generated-IsAcceptable keys = record {
    keys = keys;
    backed = refl;
    ordered = refl;
    positive0 = λ e. omega arith;
    positive1 = λ e. omega arith;
    known0 = omega arith;
    known1 = omega arith;
    room = omega arith;
  }

  abbrev pub state : AccountState
  state = generator_state signer coins hex

  abbrev pub bridge_id : Bytes
  bridge_id = generator_bridge_id signer coins hex

  abbrev pub statement : Bytes
  statement = (Outcome.transition_of coins (vector_collection bridge_id state)).statement

  -- The encodings of the generator's state.
  abbrev pub generated : Vector
  generated = record {
    keys = map_array hex.encode (generator_keys signer coins hex);
    balances = record { at0 = 120_000; at1 = 80_000; at2 = 7 };
    nonces = record { at0 = 2; at1 = 3; at2 = 4 };
    bridge_id = hex.encode bridge_id;
    account_root = hex.encode (root coins state);
    genesis_state = hex.encode (encode_genesis_state (root coins state));
    active_state = hex.encode (encode_active_state bridge_id (root coins state));
    genesis_caboose_spk =
        hex.encode (caboose_script_pubkey coins (encode_genesis_state (root coins state)));
    active_caboose_spk =
        hex.encode (caboose_script_pubkey coins (encode_active_state bridge_id (root coins state)));
    collection_statement = hex.encode statement;
  }

  generate_vector-ok : HasValidKeys coins state → generate_vector signer coins hex ≡ ok generated
  unfolding generate_vector
  generate_vector-ok keys =
      rw
        (Outcome.apply_collection-IsAcceptable coins (vector_collection bridge_id state)
          (generated-IsAcceptable keys))
        refl

  keys_of-encode :
      IsReadBack hex
      → ((n : ℕ) → length (signer.public_key (signer.secret_key n)) ≡ 32)
      → keys_of coins hex (map_array hex.encode (generator_keys signer coins hex))
        ≡ ok (generator_keys signer coins hex)
  keys_of-encode read_back width =
      rw
        (
          array_of-encode coins hex read_back 32 (signer.public_key (signer.secret_key 11))
              (width 11),
          array_of-encode coins hex read_back 32 (signer.public_key (signer.secret_key 12))
              (width 12),
          array_of-encode coins hex read_back 32 (signer.public_key (signer.secret_key 13))
              (width 13),
        )
        refl

  pub generated-passes :
      IsReadBack hex
      → ((n : ℕ) → length (signer.public_key (signer.secret_key n)) ≡ 32)
      → HasValidKeys coins state
      → check_vector coins hex generated ≡ ok tt
  unfolding check_vector
  generated-passes read_back width keys =
      let width_root = length-root coins state in
      let genesis = encode_genesis_state (root coins state) in
      let active = encode_active_state bridge_id (root coins state) in
      let passes = assert_array-encode coins hex read_back in
      rw
        (
          keys_of-encode read_back width,
          passes 32 (root coins state) width_root,
          array_of-encode coins hex read_back 32 bridge_id refl,
          passes 41 genesis (length-encode_genesis_state (root coins state) width_root),
          passes 73 active
              (length-encode_active_state bridge_id (root coins state) refl width_root),
          passes 34 (caboose_script_pubkey coins genesis)
              (length-caboose_script_pubkey coins genesis),
          passes 34 (caboose_script_pubkey coins active)
              (length-caboose_script_pubkey coins active),
          Outcome.apply_collection-IsAcceptable coins (vector_collection bridge_id state)
              (generated-IsAcceptable keys),
          read_back statement,
          bytes_eq_refl statement,
        )
        refl

  -- If digits are read back, and the generator's keys have 32 bytes and are valid, then the generator
  -- makes a vector without a panic, and the test on this vector passes.
  pub generated_vector-passes :
      IsReadBack hex
      → ((n : ℕ) → length (signer.public_key (signer.secret_key n)) ≡ 32)
      → HasValidKeys coins state
      → (v : Vector) × (generate_vector signer coins hex ≡ ok v)
        × (check_vectors coins hex (v ∷ []) ≡ ok tt)
  unfolding check_vectors
  generated_vector-passes read_back width keys =
      (generated, generate_vector-ok keys, rw (generated-passes read_back width keys) refl)
