-- ===== src/Caboose/Binding.antt =====
-- What the caboose output commits to: the kind of state, the bridge and every account.
use coins_gsr_v.Base.{
  ◌≡◌, ◌≢◌, refl, ap, [], ◌∷◌, replicate, length, length-append, ◌⊎◌, inl, inr, arith,
}
use coins_gsr_v.Bytes.{Bytes, extend_all}
use coins_gsr_v.Bytes.Framing.{extend_all-injective}
use coins_gsr_v.Base.{List}
use coins_gsr_v.Crates.{Coins}
use coins_gsr_v.Protocol.{AccountState, state_magic, state_version}
use coins_gsr_v.Protocol.Typed.{IsTypedState}
use coins_gsr_v.Account.{root}
use coins_gsr_v.Account.Root.{
  Collision, HasCollision, root_message, digest-binding, root-binding, root-IsArray,
}
use coins_gsr_v.Caboose.{
  encode_genesis_state, encode_active_state, witness_script, caboose_script_pubkey,
}

pub length-encode_genesis_state : (r : Bytes) → length r ≡ 32 → length (encode_genesis_state r) ≡ 41
unfolding encode_genesis_state
length-encode_genesis_state r h = omega (arith, length-append r [])

pub length-encode_active_state :
    (b r : Bytes) → length b ≡ 32 → length r ≡ 32 → length (encode_active_state b r) ≡ 73
unfolding encode_active_state
length-encode_active_state b r hb hr =
    omega (arith, length-append b (extend_all (r ∷ [])), length-append r [])

-- No encoding of a genesis state is one of an active state, when roots and bridge have 32 bytes.
pub genesis-ne-active :
    (r b r' : Bytes)
    → length r ≡ 32
    → length b ≡ 32
    → length r' ≡ 32
    → encode_genesis_state r ≢ encode_active_state b r'
genesis-ne-active r b r' h hb h' e = absurd (
    omega
      (arith, length-encode_genesis_state r h, length-encode_active_state b r' hb h', ap length e))

pub encode_active_state-injective :
    (b b' r r' : Bytes)
    → length b ≡ length b'
    → length r ≡ length r'
    → encode_active_state b r ≡ encode_active_state b' r'
    → (b ≡ b') × (r ≡ r')
unfolding encode_active_state
encode_active_state-injective b b' r r' hb hr e =
    let parts =
      extend_all-injective (state_magic ∷ (state_version ∷ []) ∷ (1 ∷ []) ∷ b ∷ r ∷ [])
        (state_magic ∷ (state_version ∷ []) ∷ (1 ∷ []) ∷ b' ∷ r' ∷ [])
        (refl, (refl, (refl, (hb, (hr, tt))))) e in
    (cc parts, cc parts)

module _ (coins : Coins) where
  witness_script-binding :
      (s t : Bytes)
      → witness_script coins s ≡ witness_script coins t
      → (s ≡ t) ⊎ Collision coins s t
  unfolding witness_script
  witness_script-binding s t e =
      let parts =
        extend_all-injective ((0x6a ∷ []) ∷ (0x24 ∷ []) ∷ coins.digest s ∷ replicate 4 0 ∷ [])
          ((0x6a ∷ []) ∷ (0x24 ∷ []) ∷ coins.digest t ∷ replicate 4 0 ∷ [])
          (
            refl,
            (
              refl,
              (omega (arith, (coins.digest-IsArray s).0, (coins.digest-IsArray t).0), (refl, tt)),
            ),
          )
          e in
      digest-binding coins s t (cc parts)

  -- What `caboose_script_pubkey` hashes.
  abbrev pub script_messages : Bytes → List Bytes
  script_messages s = witness_script coins s ∷ s ∷ []

  -- One caboose script has one state, up to a collision of the hash.
  pub caboose_script_pubkey-binding :
      (s t : Bytes)
      → caboose_script_pubkey coins s ≡ caboose_script_pubkey coins t
      → (s ≡ t) ⊎ HasCollision coins (script_messages s) (script_messages t)
  unfolding caboose_script_pubkey
  caboose_script_pubkey-binding s t e = elim (digest-binding coins _ _ (hashes e)) [
    | inr c ↦ inr (inl c)
    | inl same ↦ elim (witness_script-binding s t same) [
      | inl p ↦ inl p
      | inr c ↦ inr (inr (inl c))
    ]
  ]
    where
      hashes :
          caboose_script_pubkey coins s ≡ caboose_script_pubkey coins t
          → coins.digest (witness_script coins s) ≡ coins.digest (witness_script coins t)
      hashes p =
          let a = witness_script coins s in
          let b = witness_script coins t in
          cc (
            extend_all-injective ((0x00 ∷ []) ∷ (0x20 ∷ []) ∷ coins.digest a ∷ [])
              ((0x00 ∷ []) ∷ (0x20 ∷ []) ∷ coins.digest b ∷ [])
              (
                refl,
                (refl, (omega (arith, (coins.digest-IsArray a).0, (coins.digest-IsArray b).0), tt)),
              )
              p)

  -- Two active cabooses with one script carry one bridge and one account state, or two of the messages
  -- that are hashed for them in the same place, the witness scripts, the encoded states or the
  -- encodings of the accounts, are different and have one hash. The bridges have 32 bytes, and the
  -- states the widths of their Rust types.
  pub active_caboose-binding :
      (b b' : Bytes) (s t : AccountState)
      → length b ≡ 32
      → length b' ≡ 32
      → IsTypedState s
      → IsTypedState t
      → caboose_script_pubkey coins (encode_active_state b (root coins s))
        ≡ caboose_script_pubkey coins (encode_active_state b' (root coins t))
      → ((b ≡ b') × (s ≡ t))
        ⊎ (HasCollision coins
              (script_messages (encode_active_state b (root coins s)))
              (script_messages (encode_active_state b' (root coins t)))
            ⊎ Collision coins (root_message s) (root_message t))
  active_caboose-binding b b' s t hb hb' hs ht e = elim (caboose_script_pubkey-binding _ _ e) [
    | inr c ↦ inr (inl c)
    | inl same ↦
        let (id, roots) =
          encode_active_state-injective b b' (root coins s) (root coins t) (omega arith) (widths)
            same in
        elim (root-binding coins s t hs ht roots) [ inl p ↦ inl (id, p) | inr c ↦ inr (inr c) ]
  ]
    where
      widths : length (root coins s) ≡ length (root coins t)
      widths = omega (arith, (root-IsArray coins s).0, (root-IsArray coins t).0)
