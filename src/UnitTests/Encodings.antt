-- ===== src/UnitTests/Encodings.antt =====
-- The two tests of encodings in crates/protocol/src/lib.rs, and when they pass.
use coins_gsr_v.Base.{
  ℕ, ◌≡◌, ◌⊎◌, inl, inr, Bool-cases, refl, true, false, not, List, [], ◌∷◌, ◌++◌, ◌==◌, length,
  take, replicate, ok, ◌>>◌, assert,
}
use coins_gsr_v.Bytes.{Bytes, bytes_eq, to_le_bytes}
use coins_gsr_v.Bytes.Order.{bytes_eq_iff}
use coins_gsr_v.CompactSize.{encode_compact_size}
use coins_gsr_v.Crates.{Coins}
use coins_gsr_v.Protocol.{ascii}
use coins_gsr_v.Caboose.{encode_genesis_state, encode_active_state, caboose_script_pubkey}
use coins_gsr_v.Caboose.Binding.{caboose_script_pubkey-binding, genesis-ne-active, script_messages}
use coins_gsr_v.Account.Root.{HasCollision}
use coins_gsr_v.UnitTests.{Test}

abbrev pub account_root : Bytes
account_root = replicate 32 0x55

abbrev pub bridge_id : Bytes
bridge_id = replicate 32 0x66

-- One round of the loop over the boundaries: what the call pushes to an empty `encoded`.
unfoldable pub check_sizes : List (ℕ × Bytes) → Test
check_sizes [] = ok tt
check_sizes ((value, expected) ∷ rest) = do
  assert (bytes_eq (encode_compact_size value) expected)
  check_sizes rest

unfoldable pub compact_size_boundaries_are_canonical : Test
compact_size_boundaries_are_canonical = check_sizes (
    (0xfc, 0xfc ∷ [])
    ∷ (0xfd, 0xfd ∷ 0xfd ∷ 0x00 ∷ [])
    ∷ (0x1_0000, 0xfe ∷ 0x00 ∷ 0x00 ∷ 0x01 ∷ 0x00 ∷ [])
    ∷ (0x1_0000_0000, 0xff ∷ 0x00 ∷ 0x00 ∷ 0x00 ∷ 0x00 ∷ 0x01 ∷ 0x00 ∷ 0x00 ∷ 0x00 ∷ [])
    ∷ [])

sizes-pass : compact_size_boundaries_are_canonical ≡ ok tt
unfolding compact_size_boundaries_are_canonical check_sizes encode_compact_size to_le_bytes bytes_eq
sizes-pass = refl

module _ (coins : Coins) where
  unfoldable pub state_and_caboose_encodings_have_fixed_shapes : Test
  state_and_caboose_encodings_have_fixed_shapes = do
    let genesis : Bytes = encode_genesis_state account_root
    let active : Bytes = encode_active_state bridge_id account_root
    assert (length genesis == 41)
    assert (length active == 73)
    assert (bytes_eq (take 9 genesis) (ascii "UTXOLIN" ++ (0x01 ∷ 0x00 ∷ [])))
    assert (bytes_eq (take 9 active) (ascii "UTXOLIN" ++ (0x01 ∷ 0x01 ∷ [])))
    assert
        (not (bytes_eq (caboose_script_pubkey coins genesis) (caboose_script_pubkey coins active)))

  abbrev genesis : Bytes
  genesis = encode_genesis_state account_root

  abbrev active : Bytes
  active = encode_active_state bridge_id account_root

  -- What the test asserts of the two encodings themselves.
  shapes :
      ((length genesis == 41) ≡ true)
      × ((length active == 73) ≡ true)
      × (bytes_eq (take 9 genesis) (ascii "UTXOLIN" ++ (0x01 ∷ 0x00 ∷ [])) ≡ true)
      × (bytes_eq (take 9 active) (ascii "UTXOLIN" ++ (0x01 ∷ 0x01 ∷ [])) ≡ true)
  unfolding encode_genesis_state encode_active_state bytes_eq
  shapes = (refl, refl, refl, refl)

  shapes-pass :
      bytes_eq (caboose_script_pubkey coins genesis) (caboose_script_pubkey coins active) ≡ false
      → state_and_caboose_encodings_have_fixed_shapes ≡ ok tt
  unfolding state_and_caboose_encodings_have_fixed_shapes
  shapes-pass h =
      let (genesis_width, active_width, genesis_head, active_head) = shapes in
      rw (genesis_width, active_width, genesis_head, active_head, h)

  -- The test of the compact sizes passes. The test of the caboose passes too, or two different
  -- messages that are hashed in the same place for the two scripts have one hash.
  pub encoding_tests-pass :
      (compact_size_boundaries_are_canonical ≡ ok tt)
      × ((state_and_caboose_encodings_have_fixed_shapes ≡ ok tt)
          ⊎ HasCollision coins (script_messages coins genesis) (script_messages coins active))
  encoding_tests-pass = (
    sizes-pass,
    elim (Bool-cases
        (bytes_eq (caboose_script_pubkey coins genesis) (caboose_script_pubkey coins active))) [
          | inr new ↦ inl (shapes-pass new)
          | inl same ↦
              elim (caboose_script_pubkey-binding coins genesis active
                ((bytes_eq_iff _ _).0 same)) [
                  | inr collision ↦ inr collision
                  | inl equal ↦
                      absurd
                        (genesis-ne-active account_root bridge_id account_root refl refl refl equal)
                ]
        ],
  )
