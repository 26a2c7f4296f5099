-- ===== src/Collect/Outcome.antt =====
-- When `apply_collection` accepts, and the transition that it then makes.
use mathlib.Core.List.{append_assoc}
use coins_gsr_v.Base.{
  ℕ, zero, suc, ◌+◌, ◌<◌, ◌≡◌, ◌≢◌, ◌↔◌, refl, true, not, [], ◌∷◌, ◌++◌, both, Result, ok,
  >>=-eq-ok, arith, reject_if,
}
use coins_gsr_v.Bytes.{Bytes, IsU64, bytes_lt, to_le_bytes, extend_all}
use coins_gsr_v.Crates.{Coins}
use coins_gsr_v.Protocol.{
  Error, AccountState, OutPoint, Deposit, Collection, Transition, collect_two, deposit_order,
}
use coins_gsr_v.Account.{checked_add_u64, validate, root, require_backing}
use coins_gsr_v.Account.Backing.{total, require_backing-ok_iff}
use coins_gsr_v.Account.Validity.{HasValidKeys, validate-ok_iff}
use coins_gsr_v.Message.{encode, statement_prefix}
use coins_gsr_v.Collect.{
  credit_all, deposit_total, deposit_record, extend_records, apply_collection,
}
use coins_gsr_v.Collect.Credit.{
  credited, deposit_of, fits_of_total, total-credited, credit_all-ok_iff, deposit_total-ok_iff,
}

-- The key of the account with number `id`.
abbrev pub key_of : AccountState → ℕ → Bytes
key_of s zero = s.accounts.at0.key
key_of s (suc zero) = s.accounts.at1.key
key_of s (suc (suc zero)) = s.accounts.at2.key
key_of s (suc (suc (suc i))) = []

-- A deposit's entry in the statement: outpoint, value, recipient and the recipient's key.
unfoldable pub record_bytes : AccountState → Deposit → Bytes
record_bytes s d = extend_all (
    encode d.outpoint
    ∷ to_le_bytes 8 d.value
    ∷ to_le_bytes 4 d.recipient_id
    ∷ key_of s d.recipient_id
    ∷ [])

-- What a collection must satisfy: canonical, distinct keys; the declared backing is the reserve and
-- all balances; deposits in strict order of their outpoints, positive, to known accounts; and a new
-- backing of 64 bits.
pub record IsAcceptable (coins : Coins) (c : Collection) : Type 0 where
  pub keys : HasValidKeys coins c.old_state
  pub backed : total c.old_state ≡ c.old_backing
  pub ordered : bytes_lt (encode c.deposits.at0.outpoint) (encode c.deposits.at1.outpoint) ≡ true
  pub positive0 : c.deposits.at0.value ≢ 0
  pub positive1 : c.deposits.at1.value ≢ 0
  pub known0 : c.deposits.at0.recipient_id < 3
  pub known1 : c.deposits.at1.recipient_id < 3
  pub room : IsU64 (c.old_backing + c.deposits.at0.value + c.deposits.at1.value)

-- The state and the backing after a collection.
abbrev pub state_after : Collection → AccountState
state_after c = credited (credited c.old_state c.deposits.at0) c.deposits.at1

abbrev pub backing_after : Collection → ℕ
backing_after c = c.old_backing + c.deposits.at0.value + c.deposits.at1.value

-- The transition that a collection stands for.
abbrev pub transition_of : Coins → Collection → Transition
transition_of coins c = record {
  new_state = state_after c;
  old_root = root coins c.old_state;
  new_root = root coins (state_after c);
  new_backing = backing_after c;
  statement =
      statement_prefix collect_two c.bridge_id c.bridge_prevout (root coins c.old_state)
        (root coins (state_after c)) c.old_backing (backing_after c)
      ++ (record_bytes c.old_state c.deposits.at0 ++ record_bytes c.old_state c.deposits.at1);
}

record_at :
    (s : AccountState) (o : OutPoint) (value r : ℕ)
    → r < 3
    → deposit_record s (deposit_of o value r) ≡ ok (record_bytes s (deposit_of o value r))
unfolding deposit_record record_bytes
record_at s o value zero h = refl
record_at s o value (suc zero) h = refl
record_at s o value (suc (suc zero)) h = refl
record_at s o value (suc (suc (suc i))) h = absurd (omega arith)

deposit_record-known :
    (s : AccountState) (d : Deposit)
    → d.recipient_id < 3
    → deposit_record s d ≡ ok (record_bytes s d)
deposit_record-known s d h = record_at s d.outpoint d.value d.recipient_id h

-- No index is out of range once the recipients are known.
pub extend_records-known :
    (s : AccountState) (statement : Bytes) (d e : Deposit)
    → d.recipient_id < 3
    → e.recipient_id < 3
    → extend_records s statement (d ∷ e ∷ [])
      ≡ ok (statement ++ (record_bytes s d ++ record_bytes s e))
unfolding extend_records
extend_records-known s statement d e hd he =
    rw (deposit_record-known s d hd, deposit_record-known s e he, append_assoc)

pub total-state_after :
    (c : Collection)
    → c.deposits.at0.recipient_id < 3
    → c.deposits.at1.recipient_id < 3
    → total (state_after c) ≡ total c.old_state + c.deposits.at0.value + c.deposits.at1.value
total-state_after c h k = omega (
  arith,
  total-credited c.old_state c.deposits.at0 h,
  total-credited (credited c.old_state c.deposits.at0) c.deposits.at1 k,
)

pub checked_add_u64-ok : (a b n : ℕ) → (checked_add_u64 a b ≡ ok n) ↔ ((a + b ≡ n) × IsU64 n)
unfolding checked_add_u64
checked_add_u64-ok a b n = ground arith

module _ (coins : Coins) (c : Collection) where
  open c.deposits use {at0 as d, at1 as e}

  -- An acceptable collection makes its transition.
  pub apply_collection-IsAcceptable :
      IsAcceptable coins c → apply_collection coins c ≡ ok (transition_of coins c)
  unfolding apply_collection
  apply_collection-IsAcceptable h =
      let after = total-state_after c h.known0 h.known1 in
      let creditable0 = fits_of_total c.old_state d h.positive0 h.known0 (omega arith) in
      let total0 = total-credited c.old_state d h.known0 in
      let creditable1 =
        fits_of_total (credited c.old_state d) e h.positive1 h.known1 (omega (arith, total0)) in
      rw (
        (validate-ok_iff coins c.old_state).1 h.keys,
        (require_backing-ok_iff c.old_state c.old_backing).1 (h.backed, omega arith),
        h.ordered,
        (credit_all-ok_iff c.old_state d e (state_after c)).1 (creditable0, creditable1, refl),
        (deposit_total-ok_iff d e (d.value + e.value)).1 (refl, omega arith),
        (checked_add_u64-ok c.old_backing (d.value + e.value) (backing_after c)).1
            (omega arith, h.room),
        (require_backing-ok_iff (state_after c) (backing_after c)).1 (omega (arith, after), h.room),
        extend_records-known c.old_state _ d e h.known0 h.known1,
      )

  -- Nothing else is accepted, and an accepted collection makes no other transition.
  pub apply_collection-ok :
      {t : Transition}
      → apply_collection coins c ≡ ok t
      → IsAcceptable coins c × (t ≡ transition_of coins c)
  unfolding apply_collection
  apply_collection-ok {t} h =
      let (u, valid, h1) = >>=-eq-ok (validate coins c.old_state) _ h in
      let (v, backed, h2) = >>=-eq-ok (require_backing c.old_state c.old_backing) _ h1 in
      let (w, ordered, h3) = >>=-eq-ok (order_check) _ h2 in
      let (s, credits, h4) = >>=-eq-ok (credit_all c.old_state (both c.deposits)) _ h3 in
      let (n, sum, h5) = >>=-eq-ok (deposit_total 0 (both c.deposits)) _ h4 in
      let (m, add, h6) = >>=-eq-ok (checked_add_u64 c.old_backing n) _ h5 in
      let (creditable0, creditable1, s_is) = (credit_all-ok_iff c.old_state d e s).0 credits in
      let (n_is, n_fits) = (deposit_total-ok_iff d e n).0 sum in
      let (m_is, m_fits) = (checked_add_u64-ok c.old_backing n m).0 add in
      let (backed_is, b_fits) = (require_backing-ok_iff c.old_state c.old_backing).0 backed in
      let acceptable : IsAcceptable coins c = record {
        keys = (validate-ok_iff coins c.old_state).0 valid;
        backed = backed_is;
        ordered = ground arith;
        positive0 = creditable0.positive;
        positive1 = creditable1.positive;
        known0 = creditable0.known;
        known1 = creditable1.known;
        room = omega arith;
      } in
      (acceptable, cc (h, apply_collection-IsAcceptable acceptable))
    where
      order_check : Result Error (Unit {0})
      order_check =
          reject_if
            (not (bytes_lt (encode c.deposits.at0.outpoint) (encode c.deposits.at1.outpoint)))
            deposit_order

  -- `apply_collection` succeeds exactly for an acceptable collection, and then makes the transition
  -- that it stands for: each deposit credited to its account, the backing raised by both values, and
  -- the statement of the two roots, the two backings and the two deposits.
  pub apply_collection-ok_iff :
      (t : Transition)
      → (apply_collection coins c ≡ ok t) ↔ (IsAcceptable coins c × (t ≡ transition_of coins c))
  apply_collection-ok_iff t =
      (λ h. apply_collection-ok h, λ (a, t_is). rw t_is (apply_collection-IsAcceptable a))
