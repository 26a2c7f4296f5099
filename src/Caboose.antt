-- ===== src/Caboose.antt =====
-- The state that the caboose output commits to: `encode_genesis_state`, `encode_active_state` and
-- `caboose_script_pubkey` of crates/protocol/src/lib.rs.
pub mod Binding
use coins_gsr_v.Base.{[], ◌∷◌, replicate}
use coins_gsr_v.Bytes.{Bytes, extend_all}
use coins_gsr_v.Crates.{Coins}
use coins_gsr_v.Protocol.{state_magic, state_version}

-- The ranges that are copied fill the array of 41 bytes.
unfoldable pub encode_genesis_state : Bytes → Bytes
encode_genesis_state account_root =
    extend_all (state_magic ∷ (state_version ∷ []) ∷ (0 ∷ []) ∷ account_root ∷ [])

unfoldable pub encode_active_state : Bytes → Bytes → Bytes
encode_active_state bridge_id account_root =
    extend_all (state_magic ∷ (state_version ∷ []) ∷ (1 ∷ []) ∷ bridge_id ∷ account_root ∷ [])

-- OP_RETURN PUSH36 of the state's hash; the four bytes behind the hash stay zero.
unfoldable pub witness_script : Coins → Bytes → Bytes
witness_script coins state =
    extend_all ((0x6a ∷ []) ∷ (0x24 ∷ []) ∷ coins.digest state ∷ replicate 4 0 ∷ [])

unfoldable pub caboose_script_pubkey : Coins → Bytes → Bytes
unfolding witness_script
caboose_script_pubkey coins state =
    extend_all ((0x00 ∷ []) ∷ (0x20 ∷ []) ∷ coins.digest (witness_script coins state) ∷ [])
