-- ===== src/Account/Root.antt =====
-- What `root` commits to: equal roots mean equal states, or a collision of SHA-256.
use coins_gsr_v.Base.{
  ◌+◌, List, All, ℕ, ◌≡◌, ◌≢◌, refl, ◌⊎◌, inl, inr, Bool-cases, [], ◌∷◌, length, to_list, arith,
}
use coins_gsr_v.Bytes.{Bytes, IsArray, bytes_eq, extend_all, to_le_bytes}
use coins_gsr_v.Bytes.Endian.{to_le_bytes-injective, length-to_le_bytes}
use coins_gsr_v.Bytes.Order.{bytes_eq_iff}
use coins_gsr_v.Bytes.Framing.{extend_all-injective, SameShape}
use coins_gsr_v.Crates.{Coins}
use coins_gsr_v.Protocol.{Account, AccountState, account_root_domain}
use coins_gsr_v.Protocol.Typed.{IsTypedAccount, IsTypedState}
use coins_gsr_v.Account.{root_parts, root}

-- Two messages with one digest.
pub record Collision (coins : Coins) (message other : Bytes) : Type 0 where
  pub differ : message ≢ other
  pub collide : coins.digest message ≡ coins.digest other

-- Two lists of messages have a collision at one place.
abbrev pub HasCollision : Coins → List Bytes → List Bytes → Type 0
HasCollision coins (m ∷ ms) (n ∷ ns) = Collision coins m n ⊎ HasCollision coins ms ns
HasCollision coins _ _ = ⊥

-- What `root` hashes.
abbrev pub root_message : AccountState → Bytes
root_message s = extend_all (account_root_domain ∷ root_parts 0 (to_list s.accounts))

pub digest-binding :
    (coins : Coins) (a b : Bytes) → coins.digest a ≡ coins.digest b → (a ≡ b) ⊎ Collision coins a b
digest-binding coins a b e = elim (Bool-cases (bytes_eq a b)) [
  | inl same ↦ inl ((bytes_eq_iff a b).0 same)
  | inr new ↦ inr (record { differ = λ p. cc ((bytes_eq_iff a b).1 p); collide = e })
]

-- The fields of two accounts whose encodings agree.
pub account_fields :
    (a b : Account)
    → IsTypedAccount a
    → IsTypedAccount b
    → a.key ≡ b.key
    → to_le_bytes 8 a.balance ≡ to_le_bytes 8 b.balance
    → to_le_bytes 4 a.nonce ≡ to_le_bytes 4 b.nonce
    → a ≡ b
account_fields a b ta tb k e n = ground (
  arith,
  to_le_bytes-injective 8 a.balance b.balance ta.balance_fits tb.balance_fits e,
  to_le_bytes-injective 4 a.nonce b.nonce ta.nonce_fits tb.nonce_fits n,
)

root_parts-SameShape :
    (id : ℕ) (as' bs : List Account)
    → length as' ≡ length bs
    → All IsTypedAccount as'
    → All IsTypedAccount bs
    → SameShape (root_parts id as') (root_parts id bs)
unfolding root_parts
root_parts-SameShape id [] [] l ta tb = tt
root_parts-SameShape id [] (b ∷ bs) l ta tb = absurd (omega arith)
root_parts-SameShape id (a ∷ as') [] l ta tb = absurd (omega arith)
root_parts-SameShape id (a ∷ as') (b ∷ bs) l ta tb = (
  omega (arith, length-to_le_bytes),
  (
    omega (arith, ta.0.key_width, tb.0.key_width),
    (
      omega (arith, length-to_le_bytes),
      (
        omega (arith, length-to_le_bytes),
        root_parts-SameShape (id + 1) as' bs (omega arith) ta.1 tb.1,
      ),
    ),
  ),
)

root_parts-injective :
    (id : ℕ) (as' bs : List Account)
    → All IsTypedAccount as'
    → All IsTypedAccount bs
    → root_parts id as' ≡ root_parts id bs
    → as' ≡ bs
unfolding root_parts
root_parts-injective id [] [] ta tb e = refl
root_parts-injective id [] (b ∷ bs) ta tb e = cc
root_parts-injective id (a ∷ as') [] ta tb e = cc
root_parts-injective id (a ∷ as') (b ∷ bs) ta tb e =
    let first = account_fields a b ta.0 tb.0 (cc) (cc) (cc) in
    cc (first, root_parts-injective (id + 1) as' bs ta.1 tb.1 (cc))

module _ (coins : Coins) where
  -- Two states, of the widths of their Rust types, with one root are one state, or their two
  -- encodings, which `root` hashes, are different and have one hash.
  pub root-binding :
      (s t : AccountState)
      → IsTypedState s
      → IsTypedState t
      → root coins s ≡ root coins t
      → (s ≡ t) ⊎ Collision coins (root_message s) (root_message t)
  unfolding root
  root-binding s t hs ht e = elim (digest-binding coins _ _ e) [
    | inr c ↦ inr c
    | inl same ↦ inl (
        cc (
          root_parts-injective 0 (to_list s.accounts) (to_list t.accounts) typed_s typed_t
            (parts same)))
  ]
    where
      typed_s : All IsTypedAccount (to_list s.accounts)
      typed_s = (hs.typed0, (hs.typed1, (hs.typed2, tt)))

      typed_t : All IsTypedAccount (to_list t.accounts)
      typed_t = (ht.typed0, (ht.typed1, (ht.typed2, tt)))

      parts :
          extend_all (account_root_domain ∷ root_parts 0 (to_list s.accounts))
            ≡ extend_all (account_root_domain ∷ root_parts 0 (to_list t.accounts))
          → root_parts 0 (to_list s.accounts) ≡ root_parts 0 (to_list t.accounts)
      parts p = cc (
          extend_all-injective (account_root_domain ∷ root_parts 0 (to_list s.accounts))
            (account_root_domain ∷ root_parts 0 (to_list t.accounts))
            (
              refl,
              root_parts-SameShape 0 (to_list s.accounts) (to_list t.accounts) refl typed_s typed_t,
            )
            p)

pub root-IsArray : (coins : Coins) (s : AccountState) → IsArray 32 (root coins s)
unfolding root
root-IsArray coins s = coins.digest-IsArray _
