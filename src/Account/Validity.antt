-- ===== src/Account/Validity.antt =====
-- What `validate` establishes of the keys, and that it is only about the keys.
use coins_gsr_v.Base.{
  >>=-eq-ok, ap, ◌≡◌, ◌≢◌, ◌↔◌, ◌⊎◌, inl, inr, Option-cases, false, some, ok, err, arith, Array3,
  map_array,
}
use coins_gsr_v.Base.{Blames, Blames-bind, Blames-reject_if, reject_if, ◌||◌}
use coins_gsr_v.Bytes.{Bytes, bytes_eq}
use coins_gsr_v.Bytes.Order.{bytes_eq_iff}
use coins_gsr_v.Crates.{Coins}
use coins_gsr_v.Protocol.{Error, Account, AccountState, invalid_account_key, duplicate_account_key}
use coins_gsr_v.Account.{check_key, validate, zero_state}

-- The key decodes to a finite point whose encoding is the key.
pub record IsCanonicalKey (coins : Coins) (key : Bytes) : Type 0 where
  pub point : coins.G1Affine
  pub decodes : coins.g1_to_affine key ≡ some point
  pub finite : coins.g1_infinity point ≡ false
  pub encodes : coins.g1_from_affine point ≡ key

pub record HasValidKeys (coins : Coins) (s : AccountState) : Type 0 where
  pub canonical0 : IsCanonicalKey coins s.accounts.at0.key
  pub canonical1 : IsCanonicalKey coins s.accounts.at1.key
  pub canonical2 : IsCanonicalKey coins s.accounts.at2.key
  pub distinct01 : s.accounts.at0.key ≢ s.accounts.at1.key
  pub distinct02 : s.accounts.at0.key ≢ s.accounts.at2.key
  pub distinct12 : s.accounts.at1.key ≢ s.accounts.at2.key

abbrev pub zero_account : Bytes → Account
zero_account key = record { key = key; balance = 0; nonce = 0 }

module _ (coins : Coins) where
  pub check_key-ok : (key : Bytes) → check_key coins key ≡ ok tt → IsCanonicalKey coins key
  unfolding check_key
  check_key-ok key h = elim (Option-cases (coins.g1_to_affine key)) [
    | inl e ↦ cc (rw e at h)
    | inr (p, e) ↦
        let h' = rw e at h in
        record {
          point = p;
          decodes = e;
          finite = ground arith;
          encodes = ground (arith, bytes_eq_iff (coins.g1_from_affine p) key);
        }
  ]

  pub check_key-IsCanonicalKey :
      (key : Bytes) → IsCanonicalKey coins key → check_key coins key ≡ ok tt
  unfolding check_key
  check_key-IsCanonicalKey key h =
      ground
        (arith, h.decodes, h.finite, h.encodes, bytes_eq_iff (coins.g1_from_affine h.point) key)

  -- The only failure of a key's check.
  pub check_key_cases :
      (key : Bytes)
      → (check_key coins key ≡ ok tt) ⊎ (check_key coins key ≡ err invalid_account_key)
  unfolding check_key
  check_key_cases key = elim (Option-cases (coins.g1_to_affine key)) [
    | inl e ↦ inr (rw e)
    | inr (p, e) ↦ rw e (ground arith)
  ]

  module _ (s : AccountState) where
    open s.accounts use {at0, at1, at2}

    -- `validate` accepts exactly the states with three canonical, pairwise distinct keys.
    pub validate-ok_iff : (validate coins s ≡ ok tt) ↔ HasValidKeys coins s
    unfolding validate
    validate-ok_iff = (
      λ h. record {
        canonical0 = check_key-ok at0.key (ground arith);
        canonical1 = check_key-ok at1.key (ground arith);
        canonical2 = check_key-ok at2.key (ground arith);
        distinct01 = λ e. ground (arith, bytes_eq_iff at0.key at1.key);
        distinct02 = λ e. ground (arith, bytes_eq_iff at0.key at2.key);
        distinct12 = λ e. ground (arith, bytes_eq_iff at1.key at2.key);
      },
      λ v. ground (
        arith,
        check_key-IsCanonicalKey _ v.canonical0,
        check_key-IsCanonicalKey _ v.canonical1,
        check_key-IsCanonicalKey _ v.canonical2,
        bytes_eq_iff at0.key s.accounts.at1.key,
        bytes_eq_iff at0.key s.accounts.at2.key,
        bytes_eq_iff s.accounts.at1.key s.accounts.at2.key,
      ),
    )

  -- What the errors of `validate` say of the keys.
  abbrev pub KeyFault : AccountState → Error → Type 0
  KeyFault s invalid_account_key = ¬ (
      IsCanonicalKey coins s.accounts.at0.key
      × IsCanonicalKey coins s.accounts.at1.key
      × IsCanonicalKey coins s.accounts.at2.key)
  KeyFault s duplicate_account_key =
      (s.accounts.at0.key ≡ s.accounts.at1.key)
      ⊎ ((s.accounts.at0.key ≡ s.accounts.at2.key) ⊎ (s.accounts.at1.key ≡ s.accounts.at2.key))
  KeyFault s _ = ⊥

  check_key_refused :
      (P : Error → Type 0) (key : Bytes)
      → (¬ (IsCanonicalKey coins key) → P invalid_account_key)
      → Blames P (check_key coins key)
  check_key_refused P key f = elim (check_key_cases key) [
    | inl e ↦ rw e tt
    | inr e ↦ rw e (f (λ h. cc (check_key-IsCanonicalKey key h, e)))
  ]

  -- `validate` has no panic, and each of its errors is about the keys.
  pub validate-KeyFault : (s : AccountState) → Blames (KeyFault s) (validate coins s)
  unfolding validate
  validate-KeyFault s =
      let k0 = s.accounts.at0.key in
      let k1 = s.accounts.at1.key in
      let k2 = s.accounts.at2.key in
      Blames-bind _ (check_key coins k0) _ (check_key_refused _ k0 λ n h. n h.0) λ _ _.
        Blames-bind _ (check_key coins k1) _ (check_key_refused _ k1 λ n h. n h.1) λ _ _.
          Blames-bind _ (reject_if (bytes_eq k0 k1 || false) duplicate_account_key) _
            (Blames-reject_if (KeyFault s) (bytes_eq k0 k1 || false) duplicate_account_key
              (λ e. ground (arith, bytes_eq_iff k0 k1)))
            λ _ _. Blames-bind _ (check_key coins k2) _ (check_key_refused _ k2 λ n h. n h.2) λ _ _.
              Blames-bind _
                (reject_if (bytes_eq k0 k2 || (bytes_eq k1 k2 || false)) duplicate_account_key) _
                (Blames-reject_if (KeyFault s) (bytes_eq k0 k2 || (bytes_eq k1 k2 || false))
                  duplicate_account_key
                  (λ e. ground (arith, bytes_eq_iff k0 k2, bytes_eq_iff k1 k2)))
                λ _ _. tt

  -- Two states with the same keys are valid together.
  pub HasValidKeys-same_keys :
      (s t : AccountState)
      → map_array (λ a. a.key) s.accounts ≡ map_array (λ a. a.key) t.accounts
      → HasValidKeys coins s
      → HasValidKeys coins t
  HasValidKeys-same_keys s t e v =
      let e0 = ap (λ (ks : Array3 Bytes). ks.at0) e in
      let e1 = ap (λ (ks : Array3 Bytes). ks.at1) e in
      let e2 = ap (λ (ks : Array3 Bytes). ks.at2) e in
      record {
        canonical0 = rw e0 at v.canonical0;
        canonical1 = rw e1 at v.canonical1;
        canonical2 = rw e2 at v.canonical2;
        distinct01 = rw (e0, e1) at v.distinct01;
        distinct02 = rw (e0, e2) at v.distinct02;
        distinct12 = rw (e1, e2) at v.distinct12;
      }

  -- The state that `zero` makes, and what it has checked.
  pub zero_state-ok :
      (keys : Array3 Bytes) {s : AccountState}
      → zero_state coins keys ≡ ok s
      → (s ≡ record { accounts = map_array zero_account keys }) × HasValidKeys coins s
  unfolding zero_state
  zero_state-ok keys {s} h =
      let (_, valid, s_is) =
        >>=-eq-ok (validate coins (record { accounts = map_array zero_account keys })) _ h in
      let s_is' : s ≡ record { accounts = map_array zero_account keys } = cc in
      (
        s_is',
        rw s_is' ((validate-ok_iff (record { accounts = map_array zero_account keys })).0 valid),
      )
