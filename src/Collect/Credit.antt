-- ===== src/Collect/Credit.antt =====
-- One deposit's credit against its description: who is credited, and by how much.
use coins_gsr_v.Base.{
  >>=-eq-ok, ℕ, zero, suc, ◌+◌, ◌≤◌, ◌<◌, ◌≡◌, ◌≢◌, ◌↔◌, [], ◌∷◌, if◌then◌else◌, ◌==◌, ok, arith,
}
use coins_gsr_v.Bytes.{IsU64}
use coins_gsr_v.Protocol.{Account, AccountState, Deposit, OutPoint}
use coins_gsr_v.Account.{checked_add_u64}
use coins_gsr_v.Account.Backing.{total}
use coins_gsr_v.Collect.{credit, credit_all, deposit_total}

-- The account with number `id` after a credit of `value` to the account `recipient`.
abbrev pub credited_account : ℕ → ℕ → ℕ → Account → Account
credited_account id recipient value a = record a {
  balance = a.balance + (if id == recipient then value else 0);
}

unfoldable pub credited : AccountState → Deposit → AccountState
credited s d = record {
  accounts = record {
    at0 = credited_account 0 d.recipient_id d.value s.accounts.at0;
    at1 = credited_account 1 d.recipient_id d.value s.accounts.at1;
    at2 = credited_account 2 d.recipient_id d.value s.accounts.at2;
  };
}

-- The balance that a deposit is added to; 0 where there is no such account.
abbrev pub balance_of : AccountState → ℕ → ℕ
balance_of s zero = s.accounts.at0.balance
balance_of s (suc zero) = s.accounts.at1.balance
balance_of s (suc (suc zero)) = s.accounts.at2.balance
balance_of s (suc (suc (suc i))) = 0

pub balance_of-le-total : (s : AccountState) (i : ℕ) → balance_of s i ≤ total s
balance_of-le-total s zero = omega arith
balance_of-le-total s (suc zero) = omega arith
balance_of-le-total s (suc (suc zero)) = omega arith
balance_of-le-total s (suc (suc (suc i))) = omega arith

pub record IsCreditable (s : AccountState) (d : Deposit) : Type 0 where
  pub positive : d.value ≢ 0
  pub known : d.recipient_id < 3
  pub fits : IsU64 (balance_of s d.recipient_id + d.value)

-- A deposit by its fields, for a split on the account's number.
abbrev pub deposit_of : OutPoint → ℕ → ℕ → Deposit
deposit_of o value r = record { outpoint = o; value = value; recipient_id = r }

credit_if_creditable :
    (s : AccountState) (o : OutPoint) (value r : ℕ)
    → IsCreditable s (deposit_of o value r)
    → credit s (deposit_of o value r) ≡ ok (credited s (deposit_of o value r))
unfolding credit checked_add_u64 credited
credit_if_creditable s o value zero h = ground (arith, h.positive)
credit_if_creditable s o value (suc zero) h = ground (arith, h.positive)
credit_if_creditable s o value (suc (suc zero)) h = ground (arith, h.positive)
credit_if_creditable s o value (suc (suc (suc i))) h = absurd (omega (arith, h.known))

IsCreditable-if_credit :
    (s : AccountState) (o : OutPoint) (value r : ℕ) {t : AccountState}
    → credit s (deposit_of o value r) ≡ ok t
    → IsCreditable s (deposit_of o value r) × (t ≡ credited s (deposit_of o value r))
unfolding credit checked_add_u64 credited
IsCreditable-if_credit s o value zero h = (
  record { positive = λ e. ground arith; known = omega arith; fits = ground arith },
  ground arith,
)
IsCreditable-if_credit s o value (suc zero) h = (
  record { positive = λ e. ground arith; known = omega arith; fits = ground arith },
  ground arith,
)
IsCreditable-if_credit s o value (suc (suc zero)) h = (
  record { positive = λ e. ground arith; known = omega arith; fits = ground arith },
  ground arith,
)
IsCreditable-if_credit s o value (suc (suc (suc i))) h = ground arith

-- A positive deposit to a known account with room for it is credited.
pub credit-IsCreditable :
    (s : AccountState) (d : Deposit) → IsCreditable s d → credit s d ≡ ok (credited s d)
credit-IsCreditable s d h = credit_if_creditable s d.outpoint d.value d.recipient_id h

-- No other deposit is, and nothing but the recipient's balance changes.
pub credit-ok :
    (s : AccountState) (d : Deposit) {t : AccountState}
    → credit s d ≡ ok t
    → IsCreditable s d × (t ≡ credited s d)
credit-ok s d h = IsCreditable-if_credit s d.outpoint d.value d.recipient_id h

pub total-credited :
    (s : AccountState) (d : Deposit) → d.recipient_id < 3 → total (credited s d) ≡ total s + d.value
unfolding credited
total-credited s d h = ground arith

-- A balance with room in the whole has room of its own.
pub fits_of_total :
    (s : AccountState) (d : Deposit)
    → d.value ≢ 0
    → d.recipient_id < 3
    → IsU64 (total s + d.value)
    → IsCreditable s d
fits_of_total s d positive known fits = record {
  positive = positive;
  known = known;
  fits = omega (arith, balance_of-le-total s d.recipient_id);
}

pub credit_all-ok_iff :
    (s : AccountState) (d e : Deposit) (t : AccountState)
    → (credit_all s (d ∷ e ∷ []) ≡ ok t)
      ↔ (IsCreditable s d × IsCreditable (credited s d) e × (t ≡ credited (credited s d) e))
unfolding credit_all
credit_all-ok_iff s d e t = (
  λ h.
      let (u, du, rest) = >>=-eq-ok (credit s d) (λ u. credit_all u (e ∷ [])) h in
      let (v, ev, last) = >>=-eq-ok (credit u e) (λ v. ok v) rest in
      let (first, u_is) = credit-ok s d du in
      let (second, v_is) = credit-ok u e ev in
      let t_is : t ≡ credited u e = cc in (first, rw u_is at second, rw u_is at t_is),
  λ (first, second, t_is).
      rw (credit-IsCreditable s d first, credit-IsCreditable (credited s d) e second, t_is),
)

pub deposit_total-ok_iff :
    (d e : Deposit) (n : ℕ)
    → (deposit_total 0 (d ∷ e ∷ []) ≡ ok n) ↔ ((n ≡ d.value + e.value) × IsU64 n)
unfolding deposit_total checked_add_u64
deposit_total-ok_iff d e n = ground arith
