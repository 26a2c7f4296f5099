-- ===== src/Collect/Faults.antt =====
-- Why `apply_collection` fails: every error has its reason in the input, and there is no panic.
use coins_gsr_v.Base.{
  Bool, ◌<◌, Blames-weaken, Blames-reject_if, ℕ, zero, suc, ◌+◌, ◌≤◌, ◌≡◌, ◌≢◌, ◌⊎◌, inl, inr,
  false, not, both, Blames, Blames-bind, reject_if, arith,
}
use coins_gsr_v.Bytes.{bytes_lt, limit}
use coins_gsr_v.Crates.{Coins}
use coins_gsr_v.Protocol.{
  Error, invalid_account_key, duplicate_account_key, invalid_backing, invalid_deposit,
  deposit_order, invalid_recipient, arithmetic, AccountState, Deposit, OutPoint, Collection,
}
use coins_gsr_v.Account.{checked_add_u64, validate, require_backing}
use coins_gsr_v.Account.Backing.{total, require_backing-total, require_backing-ok_iff}
use coins_gsr_v.Account.Validity.{KeyFault, validate-KeyFault}
use coins_gsr_v.Message.{encode}
use coins_gsr_v.Collect.{credit, credit_all, deposit_total, apply_collection}
use coins_gsr_v.Collect.Credit.{
  credited, deposit_of, credit-ok, credit_all-ok_iff, deposit_total-ok_iff, total-credited,
}
use coins_gsr_v.Collect.Outcome.{checked_add_u64-ok, total-state_after, extend_records-known}

-- What each error says of the input. The errors of settlements say nothing, since they do not occur.
abbrev pub Fault : Coins → Collection → Error → Type 0
Fault coins c invalid_account_key = KeyFault coins c.old_state invalid_account_key
Fault coins c duplicate_account_key = KeyFault coins c.old_state duplicate_account_key
Fault coins c invalid_backing = total c.old_state ≢ c.old_backing
Fault coins c deposit_order =
    bytes_lt (encode c.deposits.at0.outpoint) (encode c.deposits.at1.outpoint) ≡ false
Fault coins c invalid_deposit = (c.deposits.at0.value ≡ 0) ⊎ (c.deposits.at1.value ≡ 0)
Fault coins c invalid_recipient =
    (3 ≤ c.deposits.at0.recipient_id) ⊎ (3 ≤ c.deposits.at1.recipient_id)
Fault coins c arithmetic = limit 8 ≤ total c.old_state + c.deposits.at0.value + c.deposits.at1.value
Fault coins c _ = ⊥

-- The reasons of one credit.
abbrev CreditFault : AccountState → Deposit → Error → Type 0
CreditFault s d invalid_deposit = d.value ≡ 0
CreditFault s d invalid_recipient = 3 ≤ d.recipient_id
CreditFault s d arithmetic = limit 8 ≤ total s + d.value
CreditFault s d _ = ⊥

CreditFault-at :
    (s : AccountState) (o : OutPoint) (value r : ℕ)
    → Blames (CreditFault s (deposit_of o value r)) (credit s (deposit_of o value r))
unfolding credit checked_add_u64
CreditFault-at s o value zero = ground arith
CreditFault-at s o value (suc zero) = ground arith
CreditFault-at s o value (suc (suc zero)) = ground arith
CreditFault-at s o value (suc (suc (suc i))) = ground arith

credit-CreditFault : (s : AccountState) (d : Deposit) → Blames (CreditFault s d) (credit s d)
credit-CreditFault s d = CreditFault-at s d.outpoint d.value d.recipient_id

module _ (coins : Coins) (c : Collection) where
  open c.deposits use {at0 as d, at1 as e}

  first_credit : (x : Error) → CreditFault c.old_state d x → Fault coins c x
  first_credit invalid_deposit h = inl h
  first_credit invalid_recipient h = inl h
  first_credit arithmetic h = omega arith
  first_credit _ h = absurd h

  second_credit :
      d.recipient_id < 3 → (x : Error) → CreditFault (credited c.old_state d) e x → Fault coins c x
  second_credit k invalid_deposit h = inr h
  second_credit k invalid_recipient h = inr h
  second_credit k arithmetic h = omega (arith, total-credited c.old_state d k)
  second_credit k _ h = absurd h

  credit_all-Fault : Blames (Fault coins c) (credit_all c.old_state (both c.deposits))
  unfolding credit_all
  credit_all-Fault =
      Blames-bind _ (credit c.old_state d) _
        (Blames-weaken _ _ (credit c.old_state d) first_credit (credit-CreditFault c.old_state d))
        λ s s_is.
          let (creditable, is_credited) = credit-ok c.old_state d s_is in
          rw is_credited (
            Blames-bind _ (credit (credited c.old_state d) e) _
              (Blames-weaken _ _ (credit (credited c.old_state d) e)
                (second_credit creditable.known) (credit-CreditFault (credited c.old_state d) e))
              (λ t t_is. tt))

  key_fault : (x : Error) → KeyFault coins c.old_state x → Fault coins c x
  key_fault invalid_account_key h = h
  key_fault duplicate_account_key h = h
  key_fault _ h = absurd h

  validate-Fault : Blames (Fault coins c) (validate coins c.old_state)
  validate-Fault =
      Blames-weaken _ _ (validate coins c.old_state) key_fault (validate-KeyFault coins c.old_state)

  require_backing-Fault : Blames (Fault coins c) (require_backing c.old_state c.old_backing)
  require_backing-Fault = rw (require_backing-total c.old_state c.old_backing) (ground arith)

  deposit_total-Fault : Blames (Fault coins c) (deposit_total 0 (both c.deposits))
  unfolding deposit_total checked_add_u64
  deposit_total-Fault = ground arith

  new_backing-Fault :
      (n : ℕ)
      → total c.old_state ≡ c.old_backing
      → n ≡ d.value + e.value
      → Blames (Fault coins c) (checked_add_u64 c.old_backing n)
  unfolding checked_add_u64
  new_backing-Fault n backed sum = ground arith

  -- `apply_collection` never panics, and each error that it returns has the reason in its input that
  -- `Fault` gives for it; `invalid_backing` is always about the old backing.
  pub apply_collection-Fault : Blames (Fault coins c) (apply_collection coins c)
  unfolding apply_collection
  apply_collection-Fault = Blames-bind _ (validate coins c.old_state) _ validate-Fault λ u valid.
      Blames-bind _ (require_backing c.old_state c.old_backing) _ require_backing-Fault λ v backed.
        Blames-bind _ (reject_if unordered deposit_order) _ order_fault λ w ordered.
          Blames-bind _ (credit_all c.old_state (both c.deposits)) _ credit_all-Fault λ s credits.
            Blames-bind _ (deposit_total 0 (both c.deposits)) _ deposit_total-Fault λ n sum.
              let (creditable0, creditable1, s_is) =
                (credit_all-ok_iff c.old_state d e s).0 credits in
              let (n_is, n_fits) = (deposit_total-ok_iff d e n).0 sum in
              let (backed_is, b_fits) =
                (require_backing-ok_iff c.old_state c.old_backing).0 backed in
              Blames-bind _ (checked_add_u64 c.old_backing n) _ (new_backing-Fault n backed_is n_is)
                λ m add.
                  let (m_is, m_fits) = (checked_add_u64-ok c.old_backing n m).0 add in
                  let after = total-state_after c creditable0.known creditable1.known in
                  let total_is : total s ≡ m = rw s_is (omega (arith, after)) in
                  rw
                    (
                      (require_backing-ok_iff s m).1 (total_is, m_fits),
                      extend_records-known c.old_state _ d e creditable0.known creditable1.known,
                    )
                    tt
    where
      unordered : Bool
      unordered = not (bytes_lt (encode d.outpoint) (encode e.outpoint))

      order_fault : Blames (Fault coins c) (reject_if unordered deposit_order)
      order_fault = Blames-reject_if (Fault coins c) unordered deposit_order (λ h. ground arith)
