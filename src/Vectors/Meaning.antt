-- ===== src/Vectors/Meaning.antt =====
-- What a vector that passes the test holds.
use Prim.Native.String.{String}
use coins_gsr_v.Base.{
  assert-ok, or_panic-ok, if◌then◌else◌, ℕ, ◌≡◌, refl, sym, ap, ◌∙◌, Bool, true, false, some, ◌==◌,
  length, Array3, Result, ok, panic, >>=-eq-ok, or_panic, expect, expect-ok, ok_injective,
}
use coins_gsr_v.Bytes.{Bytes}
use coins_gsr_v.Bytes.Order.{bytes_eq_iff}
use coins_gsr_v.Crates.{Coins}
use coins_gsr_v.Protocol.{AccountState, Transition}
use coins_gsr_v.Account.{root}
use coins_gsr_v.Collect.{apply_collection}
use coins_gsr_v.Collect.Outcome
use coins_gsr_v.Caboose.{encode_genesis_state, encode_active_state, caboose_script_pubkey}
use coins_gsr_v.Vectors.{
  Vector, Hex, accounts_of, vector_collection, array_of, assert_array, keys_of, check_vector,
}

kept :
    (b : Bool) (bytes : Bytes) {found : Bytes}
    → ◌≡◌ {A = Result String Bytes} (if b then ok bytes else panic) (ok found)
    → bytes ≡ found
kept true bytes h = ok_injective h
kept false bytes h = cc

module _ (coins : Coins) (hex : Hex) where
  array_of-decode :
      (n : ℕ) (encoded : String) {bytes : Bytes}
      → array_of coins hex n encoded ≡ ok bytes
      → hex.decode encoded ≡ some bytes
  array_of-decode n encoded h =
      let (decoded, is_decoded, h1) = >>=-eq-ok (or_panic (hex.decode encoded)) _ h in
      or_panic-ok _ is_decoded ∙ ap (λ b. some b) (kept (length decoded == n) decoded h1)

  assert_array-decode :
      (n : ℕ) (computed : Bytes) (encoded : String)
      → assert_array coins hex n computed encoded ≡ ok tt
      → hex.decode encoded ≡ some computed
  assert_array-decode n computed encoded h =
      let (stored, is_stored, h1) = >>=-eq-ok (array_of coins hex n encoded) _ h in
      array_of-decode n encoded is_stored
      ∙ ap (λ b. some b) (sym ((bytes_eq_iff computed stored).0 (assert-ok _ h1)))

  -- The digits of a vector: its keys and bridge, the root, the two states and their scripts, and the
  -- statement of the collection that the protocol accepts on its state.
  pub record IsVector (v : Vector) : Type 0 where
    pub keys : Array3 Bytes
    pub key0 : hex.decode v.keys.at0 ≡ some keys.at0
    pub key1 : hex.decode v.keys.at1 ≡ some keys.at1
    pub key2 : hex.decode v.keys.at2 ≡ some keys.at2
    pub state : AccountState
    pub state_is : state ≡ accounts_of keys v.balances v.nonces
    pub bridge_id : Bytes
    pub bridge : hex.decode v.bridge_id ≡ some bridge_id
    pub account_root : hex.decode v.account_root ≡ some (root coins state)
    pub genesis : hex.decode v.genesis_state ≡ some (encode_genesis_state (root coins state))
    pub active : hex.decode v.active_state ≡ some (encode_active_state bridge_id (root coins state))
    pub genesis_spk :
        hex.decode v.genesis_caboose_spk
        ≡ some (caboose_script_pubkey coins (encode_genesis_state (root coins state)))
    pub active_spk :
        hex.decode v.active_caboose_spk
        ≡ some (caboose_script_pubkey coins (encode_active_state bridge_id (root coins state)))
    pub acceptable : Outcome.IsAcceptable coins (vector_collection bridge_id state)
    pub statement :
        hex.decode v.collection_statement
        ≡ some (Outcome.transition_of coins (vector_collection bridge_id state)).statement

  -- A vector passes the test only if its digits are those of its state.
  pub check_vector-IsVector : (v : Vector) → check_vector coins hex v ≡ ok tt → IsVector v
  unfolding check_vector
  check_vector-IsVector v h =
      let (keys, is_keys, h1) = >>=-eq-ok (keys_of coins hex v.keys) _ h in
      let (key0, is_key0, k1) = >>=-eq-ok (array_of coins hex 32 v.keys.at0) _ is_keys in
      let (key1, is_key1, k2) = >>=-eq-ok (array_of coins hex 32 v.keys.at1) _ k1 in
      let (key2, is_key2, k3) = >>=-eq-ok (array_of coins hex 32 v.keys.at2) _ k2 in
      let state = accounts_of keys v.balances v.nonces in
      let (_, root_is, h2) =
        >>=-eq-ok (assert_array coins hex 32 (root coins state) v.account_root) _ h1 in
      let genesis = encode_genesis_state (root coins state) in
      let (bridge_id, bridge_is, h3) = >>=-eq-ok (array_of coins hex 32 v.bridge_id) _ h2 in
      let active = encode_active_state bridge_id (root coins state) in
      let (_, genesis_is, h4) =
        >>=-eq-ok (assert_array coins hex 41 genesis v.genesis_state) _ h3 in
      let (_, active_is, h5) = >>=-eq-ok (assert_array coins hex 73 active v.active_state) _ h4 in
      let (_, genesis_spk_is, h6) =
        >>=-eq-ok
          (assert_array coins hex 34 (caboose_script_pubkey coins genesis) v.genesis_caboose_spk) _
          h5 in
      let (_, active_spk_is, h7) =
        >>=-eq-ok
          (assert_array coins hex 34 (caboose_script_pubkey coins active) v.active_caboose_spk) _
          h6 in
      let (collection, applied, h8) =
        >>=-eq-ok (expect (apply_collection coins (vector_collection bridge_id state))) _ h7 in
      let (statement, statement_is, h9) =
        >>=-eq-ok (or_panic (hex.decode v.collection_statement)) _ h8 in
      let (acceptable, collection_is) =
        (Outcome.apply_collection-ok_iff coins (vector_collection bridge_id state) collection).0
          (expect-ok (apply_collection coins (vector_collection bridge_id state)) applied) in
      record {
        keys = keys;
        key0 =
            array_of-decode 32 v.keys.at0 is_key0
            ∙ ap (λ (a : Array3 Bytes). some a.at0) (ok_injective k3);
        key1 =
            array_of-decode 32 v.keys.at1 is_key1
            ∙ ap (λ (a : Array3 Bytes). some a.at1) (ok_injective k3);
        key2 =
            array_of-decode 32 v.keys.at2 is_key2
            ∙ ap (λ (a : Array3 Bytes). some a.at2) (ok_injective k3);
        state = state;
        state_is = refl;
        bridge_id = bridge_id;
        bridge = array_of-decode 32 v.bridge_id bridge_is;
        account_root = assert_array-decode 32 (root coins state) v.account_root root_is;
        genesis = assert_array-decode 41 genesis v.genesis_state genesis_is;
        active = assert_array-decode 73 active v.active_state active_is;
        genesis_spk =
            assert_array-decode 34 (caboose_script_pubkey coins genesis) v.genesis_caboose_spk
              genesis_spk_is;
        active_spk =
            assert_array-decode 34 (caboose_script_pubkey coins active) v.active_caboose_spk
              active_spk_is;
        acceptable = acceptable;
        statement =
            or_panic-ok _ statement_is
            ∙ ap (λ b. some b)
                (sym ((bytes_eq_iff collection.statement statement).0 (assert-ok _ h9))
                  ∙ ap (λ (t : Transition). t.statement) collection_is);
      }
