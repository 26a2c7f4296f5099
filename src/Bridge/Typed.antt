-- ===== src/Bridge/Typed.antt =====
-- The values that the protocol makes are those of their Rust types, and a statement has one width for
-- each kind of transition.
use coins_gsr_v.Base.{ℕ, zero, suc, ◌+◌, ◌≤◌, ◌<◌, ◌≡◌, [], ◌∷◌, All, Result, ok, arith}
use coins_gsr_v.Bytes.{IsByte, IsArray, IsU64, IsU32, to_le_bytes}
use coins_gsr_v.Bytes.Endian.{to_le_bytes-IsArray}
use coins_gsr_v.Crates.{Coins, Build, Transaction}
use coins_gsr_v.Account.Backing.{total}
use coins_gsr_v.Protocol.{
  Error, AccountState, Deposit, Collection, Settlement, Transition, ProofInput, collect, Action,
  collect_two,
}
use coins_gsr_v.Protocol.Typed.{IsTypedState, IsTypedCollection, IsTypedSettlement}
use coins_gsr_v.Account.{root}
use coins_gsr_v.Account.Root.{root-IsArray}
use coins_gsr_v.Bytes.Framing.{extend_all-IsArray, append-IsArray}
use coins_gsr_v.Message.{encode, statement_prefix}
use coins_gsr_v.Message.Arrays.{encode-IsArray, statement_prefix-IsArray}
use coins_gsr_v.CompactSize.{encode_compact_size}
use coins_gsr_v.Collect.{apply_collection}
use coins_gsr_v.Collect.Credit.{credited, total-credited}
use coins_gsr_v.Collect.Outcome
use coins_gsr_v.Collect.Outcome.{record_bytes, key_of, total-state_after}
use coins_gsr_v.Settle.{apply_settlement}
use coins_gsr_v.Settle.Terms
use coins_gsr_v.Settle.Terms.{transferred, withdrawn}
use coins_gsr_v.Settle.Outcome as SettleOutcome
use coins_gsr_v.Bridge.{guest_main, validate_proof_input}
use coins_gsr_v.Bridge.Statement.{IsTypedInput}

-- The byte arrays of an input that its statement holds.
pub record HasBytesCollection (c : Collection) : Type 0 where
  pub id_bytes : All IsByte c.bridge_id
  pub head_bytes : All IsByte c.bridge_prevout.txid
  pub txid0_bytes : All IsByte c.deposits.at0.outpoint.txid
  pub txid1_bytes : All IsByte c.deposits.at1.outpoint.txid
  pub key0_bytes : All IsByte c.old_state.accounts.at0.key
  pub key1_bytes : All IsByte c.old_state.accounts.at1.key
  pub key2_bytes : All IsByte c.old_state.accounts.at2.key

pub record HasBytesSettlement (i : Settlement) : Type 0 where
  pub id_bytes : All IsByte i.bridge_id
  pub head_bytes : All IsByte i.bridge_prevout.txid
  pub destination_bytes : All IsByte i.withdrawal_destination

-- What the Rust types give of a transition, with the width of the statement.
pub record IsTypedTransition (width : ℕ) (t : Transition) : Type 0 where
  pub state_typed : IsTypedState t.new_state
  pub old_root_array : IsArray 32 t.old_root
  pub new_root_array : IsArray 32 t.new_root
  pub backing_fits : IsU64 t.new_backing
  pub statement_array : IsArray width t.statement

key_of-IsArray :
    (s : AccountState) (r : ℕ)
    → IsTypedState s
    → All IsByte s.accounts.at0.key
    → All IsByte s.accounts.at1.key
    → All IsByte s.accounts.at2.key
    → r < 3
    → IsArray 32 (key_of s r)
key_of-IsArray s zero t b0 b1 b2 h = (t.typed0.key_width, b0)
key_of-IsArray s (suc zero) t b0 b1 b2 h = (t.typed1.key_width, b1)
key_of-IsArray s (suc (suc zero)) t b0 b1 b2 h = (t.typed2.key_width, b2)
key_of-IsArray s (suc (suc (suc r))) t b0 b1 b2 h = absurd (omega arith)

record_bytes-IsArray :
    (s : AccountState) (d : Deposit)
    → IsArray 32 d.outpoint.txid
    → IsArray 32 (key_of s d.recipient_id)
    → IsArray 80 (record_bytes s d)
unfolding record_bytes
record_bytes-IsArray s d ht hk =
    extend_all-IsArray (36 ∷ 8 ∷ 4 ∷ 32 ∷ [])
      (encode d.outpoint
        ∷ to_le_bytes 8 d.value
        ∷ to_le_bytes 4 d.recipient_id
        ∷ key_of s d.recipient_id
        ∷ [])
      (
        encode-IsArray d.outpoint ht,
        (to_le_bytes-IsArray 8 d.value, (to_le_bytes-IsArray 4 d.recipient_id, (hk, tt))),
      )

collected-IsTyped :
    (s : AccountState) (d : Deposit)
    → IsTypedState s
    → d.recipient_id < 3
    → IsU64 (total (credited s d))
    → IsTypedState (credited s d)
unfolding credited
collected-IsTyped s d t h fits = record {
  typed0 = record {
    key_width = t.typed0.key_width;
    balance_fits = omega arith;
    nonce_fits = t.typed0.nonce_fits;
  };
  typed1 = record {
    key_width = t.typed1.key_width;
    balance_fits = omega arith;
    nonce_fits = t.typed1.nonce_fits;
  };
  typed2 = record {
    key_width = t.typed2.key_width;
    balance_fits = omega arith;
    nonce_fits = t.typed2.nonce_fits;
  };
}

settled-IsTyped :
    (s : AccountState) (x : Transaction) (amount : ℕ)
    → IsTypedState s
    → IsU64 (total s)
    → x.amount + x.fee ≤ s.accounts.at0.balance
    → IsU32 (s.accounts.at0.nonce + 1)
    → IsU32 (s.accounts.at1.nonce + 1)
    → IsTypedState (withdrawn (transferred s x) amount)
unfolding transferred withdrawn
settled-IsTyped s x amount t fits covered fits0 fits1 = record {
  typed0 = record {
    key_width = t.typed0.key_width;
    balance_fits = omega (arith, t.typed0.balance_fits);
    nonce_fits = fits0;
  };
  typed1 = record {
    key_width = t.typed1.key_width;
    balance_fits = omega arith;
    nonce_fits = fits1;
  };
  typed2 = record {
    key_width = t.typed2.key_width;
    balance_fits = omega arith;
    nonce_fits = t.typed2.nonce_fits;
  };
}

module _ (coins : Coins) (build : Build coins) where
  -- The transition of an input, whose statement the guest commits.
  abbrev pub apply_input : ProofInput → Result Error Transition
  apply_input (collect c) = apply_collection coins c
  apply_input (ProofInput.transfer_withdraw i) = apply_settlement coins build i

  collection-IsTyped :
      (c : Collection)
      → IsTypedCollection c
      → HasBytesCollection c
      → Outcome.IsAcceptable coins c
      → IsTypedTransition 341 (Outcome.transition_of coins c)
  collection-IsTyped c t b a =
      let s = c.old_state in
      let once = credited s c.deposits.at0 in
      let total0 = total-credited s c.deposits.at0 a.known0 in
      let total1 = total-credited once c.deposits.at1 a.known1 in
      let state1 =
        collected-IsTyped s c.deposits.at0 t.state_typed a.known0
          (omega (arith, a.backed, a.room)) in
      let key = λ (r : ℕ) (h : r < 3).
        key_of-IsArray s r t.state_typed b.key0_bytes b.key1_bytes b.key2_bytes h in
      record {
        state_typed =
            collected-IsTyped once c.deposits.at1 state1 a.known1 (omega (arith, a.backed, a.room));
        old_root_array = root-IsArray coins s;
        new_root_array = root-IsArray coins (Outcome.state_after c);
        backing_fits = a.room;
        statement_array =
            append-IsArray _ _
              (statement_prefix-IsArray collect_two c.bridge_id c.bridge_prevout (root coins s)
                (root coins (Outcome.state_after c)) c.old_backing (Outcome.backing_after c)
                (t.head.id_width, b.id_bytes) (t.head.prevout_typed.txid_width, b.head_bytes)
                (root-IsArray coins s) (root-IsArray coins (Outcome.state_after c)))
              (append-IsArray (record_bytes s c.deposits.at0) (record_bytes s c.deposits.at1)
                (record_bytes-IsArray s c.deposits.at0
                  (t.deposit0_typed.outpoint_typed.txid_width, b.txid0_bytes)
                  (key c.deposits.at0.recipient_id a.known0))
                (record_bytes-IsArray s c.deposits.at1
                  (t.deposit1_typed.outpoint_typed.txid_width, b.txid1_bytes)
                  (key c.deposits.at1.recipient_id a.known1)));
      }

  settlement-IsTyped :
      (i : Settlement)
      → IsTypedSettlement i
      → HasBytesSettlement i
      → Terms.IsAcceptable coins build i
      → IsTypedTransition 320 (Terms.transition_of coins i)
  unfolding Terms.transition_of encode_compact_size
  settlement-IsTyped i t b a =
      let s = i.old_state in
      record {
        state_typed =
            settled-IsTyped s i.transfer i.withdrawal_amount t.state_typed
              (omega (arith, a.backed, a.backing_fits)) a.transfer_covered a.sender_nonce_fits
              a.recipient_nonce_fits;
        old_root_array = root-IsArray coins s;
        new_root_array = root-IsArray coins (Terms.state_after i);
        backing_fits = omega (arith, a.backing_fits);
        statement_array =
            extend_all-IsArray (181 ∷ 32 ∷ 32 ∷ 32 ∷ 8 ∷ 1 ∷ 34 ∷ [])
              (statement_prefix Action.transfer_withdraw i.bridge_id i.bridge_prevout (root coins s)
                  (root coins (Terms.state_after i)) i.old_backing (Terms.backing_after i)
                ∷ coins.digest (Terms.native_message coins i)
                ∷ coins.digest (Terms.scoped_message coins i)
                ∷ coins.digest (Terms.payout_message i)
                ∷ to_le_bytes 8 i.withdrawal_amount
                ∷ encode_compact_size 34
                ∷ i.withdrawal_destination
                ∷ [])
              (
                statement_prefix-IsArray Action.transfer_withdraw i.bridge_id i.bridge_prevout
                    (root coins s) (root coins (Terms.state_after i)) i.old_backing
                    (Terms.backing_after i) (t.head.id_width, b.id_bytes)
                    (t.head.prevout_typed.txid_width, b.head_bytes) (root-IsArray coins s)
                    (root-IsArray coins (Terms.state_after i)),
                (
                  coins.digest-IsArray _,
                  (
                    coins.digest-IsArray _,
                    (
                      coins.digest-IsArray _,
                      (
                        to_le_bytes-IsArray 8 i.withdrawal_amount,
                        (omega arith, ((a.payout.width, b.destination_bytes), tt)),
                      ),
                    ),
                  ),
                ),
              );
      }

  abbrev pub HasBytes : ProofInput → Type 0
  HasBytes (collect c) = HasBytesCollection c
  HasBytes (ProofInput.transfer_withdraw i) = HasBytesSettlement i

  abbrev pub width_of : ProofInput → ℕ
  width_of (collect c) = 341
  width_of (ProofInput.transfer_withdraw i) = 320

  apply_input-IsTyped_of :
      (x : ProofInput) {t : Transition}
      → IsTypedInput x
      → HasBytes x
      → apply_input x ≡ ok t
      → IsTypedTransition (width_of x) t
  apply_input-IsTyped_of (collect c) typed b h =
      let (a, t_is) = Outcome.apply_collection-ok coins c h in
      rw t_is (collection-IsTyped c typed b a)
  apply_input-IsTyped_of (ProofInput.transfer_withdraw i) typed b h =
      let (a, t_is) = SettleOutcome.apply_settlement-ok coins build i h in
      rw t_is (settlement-IsTyped i typed b a)

  guest_main-apply_input :
      (x : ProofInput) {t : Transition}
      → apply_input x ≡ ok t
      → guest_main coins build x ≡ ok t.statement
  unfolding guest_main validate_proof_input
  guest_main-apply_input (collect c) h = rw h
  guest_main-apply_input (ProofInput.transfer_withdraw i) h = rw h

  -- An accepted input whose values are those of their Rust types makes a transition whose values are:
  -- balances and backing fit 64 bits, nonces 32, keys and roots have 32 bytes. The guest commits its
  -- statement, which has 341 bytes for a collection and 320 for a settlement.
  pub apply_input-IsTyped :
      (x : ProofInput) {t : Transition}
      → IsTypedInput x
      → HasBytes x
      → apply_input x ≡ ok t
      → IsTypedTransition (width_of x) t × (guest_main coins build x ≡ ok t.statement)
  apply_input-IsTyped x typed b h = (apply_input-IsTyped_of x typed b h, guest_main-apply_input x h)
