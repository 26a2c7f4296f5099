-- ===== src/Bridge/Invariant.antt =====
-- What holds in every history of the bridge.
use coins_gsr_v.Base.{sym, ◌∙◌, ℕ, ◌+◌, ◌≡◌, ◌≢◌, refl, ap, Array3, map_array, ok, arith}
use coins_gsr_v.Bytes.{Bytes, IsU64}
use coins_gsr_v.Crates.{Coins, Build, Transaction}
use coins_gsr_v.Protocol.{AccountState, Deposit, Collection, Settlement, Transition, reserve}
use coins_gsr_v.Account.Backing.{total}
use coins_gsr_v.Account.Validity.{HasValidKeys, HasValidKeys-same_keys, zero_state-ok}
use coins_gsr_v.Collect.{apply_collection}
use coins_gsr_v.Collect.Credit.{credited}
use coins_gsr_v.Collect.Outcome
use coins_gsr_v.Settle.{apply_settlement}
use coins_gsr_v.Settle.Terms
use coins_gsr_v.Settle.Terms.{transferred, withdrawn}
use coins_gsr_v.Settle.Outcome as SettleOutcome
use coins_gsr_v.Bridge.History.{Ledger, Reach, genesis, collected, settled}

abbrev pub keys_of : AccountState → Array3 Bytes
keys_of s = map_array (λ a. a.key) s.accounts

abbrev pub nonces_of : AccountState → Array3 ℕ
nonces_of s = map_array (λ a. a.nonce) s.accounts

-- The ledger is in order: the money adds up, the keys are those of the deployment, and the nonces
-- count the settlements.
pub record IsConsistent (coins : Coins) (keys : Array3 Bytes) (l : Ledger) : Type 0 where
  pub money : total l.state + l.paid_out ≡ reserve + l.deposited
  pub fits : IsU64 (total l.state)
  pub same_keys : keys_of l.state ≡ keys
  pub valid : HasValidKeys coins l.state
  pub nonces : nonces_of l.state ≡ record { at0 = l.settlements; at1 = l.settlements; at2 = 0 }

credited-keeps :
    (s : AccountState) (d : Deposit)
    → (keys_of (credited s d) ≡ keys_of s) × (nonces_of (credited s d) ≡ nonces_of s)
unfolding credited
credited-keeps s d = (refl, refl)

settled-keeps :
    (s : AccountState) (x : Transaction) (amount : ℕ)
    → (keys_of (withdrawn (transferred s x) amount) ≡ keys_of s)
      × ((withdrawn (transferred s x) amount).accounts.at0.nonce ≡ s.accounts.at0.nonce + 1)
      × ((withdrawn (transferred s x) amount).accounts.at1.nonce ≡ s.accounts.at1.nonce + 1)
      × ((withdrawn (transferred s x) amount).accounts.at2.nonce ≡ s.accounts.at2.nonce)
unfolding withdrawn transferred
settled-keeps s x amount = (refl, refl, refl, refl)

new_state-transition_of :
    (coins : Coins) (i : Settlement) → (Terms.transition_of coins i).new_state ≡ Terms.state_after i
unfolding Terms.transition_of
new_state-transition_of coins i = refl

-- A collection keeps keys and nonces and adds exactly the two deposits.
collection-keeps :
    (coins : Coins) (c : Collection) {t : Transition}
    → apply_collection coins c ≡ ok t
    → (keys_of t.new_state ≡ keys_of c.old_state)
      × (nonces_of t.new_state ≡ nonces_of c.old_state)
      × (total t.new_state ≡ total c.old_state + c.deposits.at0.value + c.deposits.at1.value)
      × IsU64 (total t.new_state)
      × HasValidKeys coins c.old_state
collection-keeps coins c {t} h =
    let (a, t_is) = Outcome.apply_collection-ok coins c h in
    let new : t.new_state ≡ Outcome.state_after c = ap (λ (u : Transition). u.new_state) t_is in
    let (keys1, nonces1) = credited-keeps c.old_state c.deposits.at0 in
    let (keys2, nonces2) = credited-keeps (credited c.old_state c.deposits.at0) c.deposits.at1 in
    let sum = Outcome.total-state_after c a.known0 a.known1 in
    rw new (keys2 ∙ keys1, nonces2 ∙ nonces1, sum, omega (arith, sum, a.backed, a.room), a.keys)

-- A settlement keeps the keys, counts up the nonces of accounts 0 and 1, and takes exactly the
-- withdrawal out.
settlement-keeps :
    (coins : Coins) (build : Build coins) (i : Settlement) {t : Transition}
    → apply_settlement coins build i ≡ ok t
    → (keys_of t.new_state ≡ keys_of i.old_state)
      × (t.new_state.accounts.at0.nonce ≡ i.old_state.accounts.at0.nonce + 1)
      × (t.new_state.accounts.at1.nonce ≡ i.old_state.accounts.at1.nonce + 1)
      × (t.new_state.accounts.at2.nonce ≡ i.old_state.accounts.at2.nonce)
      × (total t.new_state + i.withdrawal_amount ≡ total i.old_state)
      × IsU64 (total i.old_state)
      × HasValidKeys coins i.old_state
      × (i.withdrawal_nonce ≡ i.old_state.accounts.at1.nonce)
settlement-keeps coins build i {t} h =
    let (a, t_is) = SettleOutcome.apply_settlement-ok coins build i h in
    let new : t.new_state ≡ Terms.state_after i =
      ap (λ (u : Transition). u.new_state) t_is ∙ new_state-transition_of coins i in
    let (keys, nonce0, nonce1, nonce2) = settled-keeps i.old_state i.transfer i.withdrawal_amount in
    let (_, _, balance) = SettleOutcome.at1-transferred i.old_state i.transfer in
    let before = SettleOutcome.total-transferred i.old_state i.transfer a.transfer_covered in
    let after =
      SettleOutcome.total-withdrawn (transferred i.old_state i.transfer) i.withdrawal_amount
        (omega (arith, a.withdrawal_covered)) in
    rw new (
      keys,
      nonce0,
      nonce1,
      nonce2,
      omega (arith, before, after),
      omega (arith, a.backed, a.backing_fits),
      a.keys,
      a.nonce_current,
    )

module _ {coins : Coins} {build : Build coins} {keys : Array3 Bytes} where
  -- In every history the backing is the reserve, plus all deposits, minus all payouts; it fits 64
  -- bits; the keys are those of the genesis; and the nonces of accounts 0 and 1 count the settlements.
  pub Reach-IsConsistent : {l : Ledger} → Reach build keys l → IsConsistent coins keys l
  Reach-IsConsistent (genesis s h) =
      let (s_is, valid) = zero_state-ok coins keys h in
      record {
        money = rw s_is (omega arith);
        fits = rw s_is (omega arith);
        same_keys = rw s_is;
        valid = valid;
        nonces = rw s_is;
      }
  Reach-IsConsistent (collected {l = l} c t r on h) =
      let before = Reach-IsConsistent r in
      let (k, n, sum, fits, valid) = collection-keeps coins c h in
      let base = ap total on in
      record {
        money = omega (arith, before.money);
        fits = fits;
        same_keys = k ∙ ap keys_of on ∙ before.same_keys;
        valid = HasValidKeys-same_keys coins c.old_state t.new_state (sym k) valid;
        nonces = n ∙ ap nonces_of on ∙ before.nonces;
      }
  Reach-IsConsistent (settled {l = l} i t r on h) =
      let before = Reach-IsConsistent r in
      let (k, n0, n1, n2, sum, fits, valid, nonce) = settlement-keeps coins build i h in
      let base = ap total on in
      let old = ap nonces_of on ∙ before.nonces in
      let old0 : i.old_state.accounts.at0.nonce ≡ l.settlements =
        ap (λ (a : Array3 ℕ). a.at0) old in
      let old1 : i.old_state.accounts.at1.nonce ≡ l.settlements =
        ap (λ (a : Array3 ℕ). a.at1) old in
      let old2 : i.old_state.accounts.at2.nonce ≡ 0 = ap (λ (a : Array3 ℕ). a.at2) old in
      record {
        money = omega (arith, before.money);
        fits = omega arith;
        same_keys = k ∙ ap keys_of on ∙ before.same_keys;
        valid = HasValidKeys-same_keys coins i.old_state t.new_state (sym k) valid;
        nonces = ground arith;
      }

  -- A settlement that is accepted after a history carries the number of the settlements before it as
  -- its nonce: no withdrawal's nonce serves twice.
  pub settlement-nonce :
      {l : Ledger} (i : Settlement) {t : Transition}
      → Reach build keys l
      → i.old_state ≡ l.state
      → apply_settlement coins build i ≡ ok t
      → i.withdrawal_nonce ≡ l.settlements
  settlement-nonce i r on h =
      let (_, _, _, _, _, _, _, nonce) = settlement-keeps coins build i h in
      nonce
      ∙ ap (λ (s : AccountState). s.accounts.at1.nonce) on
      ∙ ap (λ (a : Array3 ℕ). a.at1) (Reach-IsConsistent r).nonces

-- An accepted settlement cannot be repeated: on the state that it leaves, no settlement with its
-- withdrawal nonce makes a transition.
pub settlement_replay :
    (coins : Coins) (build : Build coins) (i j : Settlement) {t u : Transition}
    → apply_settlement coins build i ≡ ok t
    → j.old_state ≡ t.new_state
    → j.withdrawal_nonce ≡ i.withdrawal_nonce
    → apply_settlement coins build j ≢ ok u
settlement_replay coins build i j e on same f =
    let (_, _, up, _, _, _, _, first) = settlement-keeps coins build i e in
    let (_, _, _, _, _, _, _, second) = settlement-keeps coins build j f in
    absurd (omega (arith, ap (λ (s : AccountState). s.accounts.at1.nonce) on))
