-- ===== src/Examples/Witnesses.antt =====
-- Each theorem about the program at inputs that meet its hypotheses.
use coins_gsr_v.Base.{
  ℕ, ◌≡◌, ◌≢◌, ◌↔◌, ◌⊎◌, refl, true, [], ◌∷◌, ◌++◌, ok, err, arith, Blames, ltb, if◌then◌else◌,
  some,
}
use coins_gsr_v.Bytes.{IsU64, bytes_eq, limit}
use coins_gsr_v.CompactSize.{encode_compact_size}
use coins_gsr_v.CompactSize.Canonical.{
  read_le, at_least, read_compact_size, read_compact_size-encode_compact_size,
  encode_compact_size-read_compact_size,
}
use coins_gsr_v.Bytes.Endian.{from_le_bytes}
use coins_gsr_v.Crates.{portable, accelerated}
use coins_gsr_v.Protocol.{ProofInput, Settlement, arithmetic, AccountState}
use coins_gsr_v.Protocol.Typed.{IsTypedCollection, IsTypedSettlement}
use coins_gsr_v.Account.{root, validate, backing}
use coins_gsr_v.Account.Backing.{total, backing-total}
use coins_gsr_v.Account.Validity.{HasValidKeys, validate-ok_iff}
use coins_gsr_v.Account.Root.{Collision, HasCollision, root_message, root-binding}
use coins_gsr_v.Caboose.{encode_active_state}
use coins_gsr_v.Caboose.Binding.{script_messages, active_caboose-binding}
use coins_gsr_v.Message.{scoped_transfer_message, withdrawal_message}
use coins_gsr_v.Message.Widths.{withdrawal_bytes}
use coins_gsr_v.Message.Binding.{
  withdrawal_message-injective, scoped_transfer_message-binding, scoped-ne-withdrawal,
}
use coins_gsr_v.Signature.{valid_signature, verify_selected}
use coins_gsr_v.Signature.Total.{Returns, valid_signature-Returns}
use coins_gsr_v.Collect.{apply_collection}
use coins_gsr_v.Collect.Outcome
use coins_gsr_v.Collect.Faults as CollectFaults
use coins_gsr_v.Settle.{apply_settlement}
use coins_gsr_v.Settle.Terms
use coins_gsr_v.Settle.Outcome as SettleOutcome
use coins_gsr_v.Settle.Faults as SettleFaults
use coins_gsr_v.Bridge.{validate_proof_input, guest_main}
use coins_gsr_v.Bridge.Statement.{
  hashed_messages, IsAcceptable, statement_of, IsSameInput, guest_main-ok_iff, guest_main-binding,
}
use coins_gsr_v.Bridge.History.{Ledger, Reach, genesis}
use coins_gsr_v.Bridge.History
use coins_gsr_v.Bridge.Invariant.{IsConsistent, Reach-IsConsistent, settlement_replay}
use coins_gsr_v.Examples.Toy.{toy, toy_bn254, toy_bn254-IsCompatible, sign}
use coins_gsr_v.Examples.Inputs.{
  key, keys, zero_accounts, bridge_id, collection, collected, collected_state, settlement, settled,
  settled_state, destination,
}
use coins_gsr_v.Examples.Runs.{zero_runs, collection_runs, settlement_runs}

abbrev ledger : ℕ → ℕ → ℕ → AccountState → Ledger
ledger deposited paid_out settlements s = record {
  state = s;
  deposited = deposited;
  paid_out = paid_out;
  settlements = settlements;
}

after_collection : Reach {coins = toy} portable keys (ledger 200_000 0 0 collected_state)
after_collection =
    History.collected collection collected (genesis zero_accounts zero_runs) refl collection_runs

after_settlement : Reach {coins = toy} portable keys (ledger 200_000 60_000 1 settled_state)
after_settlement = History.settled settlement settled after_collection refl settlement_runs

Reach-IsConsistent_example : IsConsistent toy keys (ledger 200_000 60_000 1 settled_state)
Reach-IsConsistent_example = Reach-IsConsistent after_settlement

-- The same withdrawal, on the state that the settlement left.
abbrev again : Settlement
again = record settlement { old_state = settled_state; old_backing = 141_000 }

settlement_replay_example : apply_settlement toy portable again ≢ ok settled
settlement_replay_example =
    settlement_replay toy portable settlement again settlement_runs refl refl

collection_typed : IsTypedCollection collection
collection_typed = omega arith

settlement_typed : IsTypedSettlement settlement
settlement_typed = omega arith

guest_main-ok_iff_example :
    (guest_main toy portable (ProofInput.transfer_withdraw settlement) ≡ ok settled.statement) ↔ (
      IsAcceptable {coins = toy} portable (ProofInput.transfer_withdraw settlement)
      × (settled.statement ≡ statement_of toy (ProofInput.transfer_withdraw settlement)))
guest_main-ok_iff_example =
    guest_main-ok_iff toy portable (ProofInput.transfer_withdraw settlement) settled.statement

guest_settles :
    guest_main toy portable (ProofInput.transfer_withdraw settlement) ≡ ok settled.statement
unfolding guest_main validate_proof_input
guest_settles = rw settlement_runs

guest_main-binding_example :
    IsSameInput toy
      (ProofInput.transfer_withdraw settlement)
      (ProofInput.transfer_withdraw settlement)
    ⊎ HasCollision toy
        (hashed_messages toy (ProofInput.transfer_withdraw settlement))
        (hashed_messages toy (ProofInput.transfer_withdraw settlement))
guest_main-binding_example =
    guest_main-binding toy portable (ProofInput.transfer_withdraw settlement)
      (ProofInput.transfer_withdraw settlement) settlement_typed settlement_typed guest_settles
      guest_settles

apply_collection-ok_iff_example :
    (apply_collection toy collection ≡ ok collected)
    ↔ (Outcome.IsAcceptable toy collection × (collected ≡ Outcome.transition_of toy collection))
apply_collection-ok_iff_example = Outcome.apply_collection-ok_iff toy collection collected

apply_settlement-ok_iff_example :
    (apply_settlement toy portable settlement ≡ ok settled)
    ↔ (Terms.IsAcceptable toy portable settlement × (settled ≡ Terms.transition_of toy settlement))
apply_settlement-ok_iff_example =
    SettleOutcome.apply_settlement-ok_iff toy portable settlement settled

apply_collection-Fault_example :
    Blames
      (CollectFaults.Fault toy (record collection { old_backing = 1_001 }))
      (apply_collection toy (record collection { old_backing = 1_001 }))
apply_collection-Fault_example =
    CollectFaults.apply_collection-Fault toy (record collection { old_backing = 1_001 })

apply_settlement-Fault_example :
    Blames
      (SettleFaults.Fault {coins = toy} (accelerated toy_bn254) again)
      (apply_settlement toy (accelerated toy_bn254) again)
apply_settlement-Fault_example =
    SettleFaults.apply_settlement-Fault (accelerated toy_bn254) again toy_bn254-IsCompatible

root-binding_example :
    (collected_state ≡ collected_state)
    ⊎ Collision toy (root_message collected_state) (root_message collected_state)
root-binding_example =
    root-binding toy collected_state collected_state (omega arith) (omega arith) refl

active_caboose-binding_example :
    ((bridge_id ≡ bridge_id) × (settled_state ≡ settled_state))
    ⊎ (HasCollision toy
          (script_messages toy (encode_active_state bridge_id (root toy settled_state)))
          (script_messages toy (encode_active_state bridge_id (root toy settled_state)))
        ⊎ Collision toy (root_message settled_state) (root_message settled_state))
active_caboose-binding_example =
    active_caboose-binding toy bridge_id bridge_id settled_state settled_state (omega arith)
      (omega arith) (omega arith) (omega arith) refl

withdrawal_runs :
    withdrawal_message bridge_id 0 60_000 destination
    ≡ ok (withdrawal_bytes bridge_id 0 60_000 destination)
unfolding withdrawal_message bytes_eq
withdrawal_runs = refl

withdrawal_message-injective_example :
    (bridge_id ≡ bridge_id)
    × (◌≡◌ {A = ℕ} 0 0)
    × (◌≡◌ {A = ℕ} 60_000 60_000)
    × (destination ≡ destination)
withdrawal_message-injective_example =
    withdrawal_message-injective bridge_id bridge_id 0 0 60_000 60_000 destination destination
      (omega arith) (omega arith) (omega arith) (omega arith) (omega arith) (omega arith)
      withdrawal_runs withdrawal_runs

scoped_transfer_message-binding_example :
    (bridge_id ≡ bridge_id) × ((key 1 ≡ key 1) ⊎ Collision toy (key 1) (key 1))
scoped_transfer_message-binding_example =
    scoped_transfer_message-binding toy bridge_id bridge_id (key 1) (key 1) (omega arith)
      (omega arith) refl

scoped-ne-withdrawal_example :
    withdrawal_message bridge_id 0 60_000 destination
    ≢ ok (scoped_transfer_message toy bridge_id (key 1))
scoped-ne-withdrawal_example =
    scoped-ne-withdrawal toy bridge_id bridge_id (key 1) (key 2) (omega arith) (omega arith) 0
      60_000 destination

validate-ok_iff_example : (validate toy collected_state ≡ ok tt) ↔ HasValidKeys toy collected_state
validate-ok_iff_example = validate-ok_iff toy collected_state

backing-total_example :
    backing collected_state
    ≡ (if ltb (total collected_state) (limit 8) then ok (total collected_state) else err arithmetic)
backing-total_example = backing-total collected_state

valid_signature-Returns_example :
    Returns (valid_signature {coins = toy} (accelerated toy_bn254) (key 11) (key 1) (key 2))
valid_signature-Returns_example =
    valid_signature-Returns (accelerated toy_bn254) (key 11) (key 1) (key 2) toy_bn254-IsCompatible

signed : valid_signature {coins = toy} portable (key 11) (key 1) (sign (key 11) (key 1)) ≡ ok true
unfolding valid_signature verify_selected bytes_eq
signed = refl

read_compact_size-encode_compact_size_example :
    read_compact_size (encode_compact_size 70_000 ++ (9 ∷ [])) ≡ some (70_000, 9 ∷ [])
read_compact_size-encode_compact_size_example =
    read_compact_size-encode_compact_size 70_000 (9 ∷ []) (omega arith)

reads : read_compact_size (0xfd ∷ 0xfd ∷ 0x00 ∷ 7 ∷ []) ≡ some (253, 7 ∷ [])
unfolding read_compact_size read_le at_least from_le_bytes
reads = refl

encode_compact_size-read_compact_size_example :
    (encode_compact_size 253 ++ (7 ∷ []) ≡ 0xfd ∷ 0xfd ∷ 0x00 ∷ 7 ∷ []) × IsU64 253
encode_compact_size-read_compact_size_example =
    encode_compact_size-read_compact_size (0xfd ∷ 0xfd ∷ 0x00 ∷ 7 ∷ []) 253 (7 ∷ []) (omega arith)
      reads
