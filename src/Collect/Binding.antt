-- ===== src/Collect/Binding.antt =====
-- The public statement of a collection determines the collection.
use coins_gsr_v.Base.{ℕ, zero, suc, ◌≡◌, ◌<◌, ap, ◌⊎◌, inl, inr, [], ◌∷◌, ◌++◌, length, ok, arith}
use coins_gsr_v.Bytes.{Bytes, to_le_bytes}
use coins_gsr_v.Bytes.Endian.{to_le_bytes-injective, length-to_le_bytes}
use coins_gsr_v.Bytes.Framing.{extend_all_cancel}
use coins_gsr_v.Crates.{Coins}
use coins_gsr_v.Protocol.{AccountState, Deposit, Collection, Transition, collect_two}
use coins_gsr_v.Protocol.Typed.{IsTypedState, IsTypedDeposit, IsTypedCollection}
use coins_gsr_v.Account.{root}
use coins_gsr_v.Account.Root.{Collision, root_message, root-binding, root-IsArray}
use coins_gsr_v.Message.{encode}
use coins_gsr_v.Message.Widths.{length-encode}
use coins_gsr_v.Message.Binding.{encode-injective, statement_prefix_cancel}
use coins_gsr_v.Collect.{apply_collection}
use coins_gsr_v.Collect.Outcome.{
  key_of, record_bytes, state_after, backing_after, apply_collection-ok,
}

length-key_of : (s : AccountState) (i : ℕ) → IsTypedState s → i < 3 → length (key_of s i) ≡ 32
length-key_of s zero h k = h.typed0.key_width
length-key_of s (suc zero) h k = h.typed1.key_width
length-key_of s (suc (suc zero)) h k = h.typed2.key_width
length-key_of s (suc (suc (suc i))) h k = absurd (omega arith)

module _ (s s' : AccountState) (d d' : Deposit) (hs : IsTypedState s) (hs' : IsTypedState s')
    (hd : IsTypedDeposit d) (hd' : IsTypedDeposit d') (known : d.recipient_id < 3)
    (known' : d'.recipient_id < 3) where
  -- A deposit's entry has a fixed width and determines the deposit.
  record_bytes_cancel :
      {xs ys : Bytes} → record_bytes s d ++ xs ≡ record_bytes s' d' ++ ys → (d ≡ d') × (xs ≡ ys)
  unfolding record_bytes
  record_bytes_cancel {xs} {ys} e =
      let (parts, rests) =
        extend_all_cancel
          (encode d.outpoint
            ∷ to_le_bytes 8 d.value
            ∷ to_le_bytes 4 d.recipient_id
            ∷ key_of s d.recipient_id
            ∷ [])
          (encode d'.outpoint
            ∷ to_le_bytes 8 d'.value
            ∷ to_le_bytes 4 d'.recipient_id
            ∷ key_of s' d'.recipient_id
            ∷ [])
          {xs = xs} {ys = ys}
          (
            omega (
              arith,
              length-encode d.outpoint hd.outpoint_typed.txid_width,
              length-encode d'.outpoint hd'.outpoint_typed.txid_width,
            ),
            (
              omega (arith, length-to_le_bytes),
              (
                omega (arith, length-to_le_bytes),
                (
                  omega (
                    arith,
                    length-key_of s d.recipient_id hs known,
                    length-key_of s' d'.recipient_id hs' known',
                  ),
                  tt,
                ),
              ),
            ),
          )
          e in
      let outpoints =
        encode-injective d.outpoint d'.outpoint hd.outpoint_typed hd'.outpoint_typed (cc parts) in
      let values =
        to_le_bytes-injective 8 d.value d'.value hd.value_fits hd'.value_fits (cc parts) in
      let ids =
        to_le_bytes-injective 4 d.recipient_id d'.recipient_id hd.recipient_fits hd'.recipient_fits
          (cc parts) in
      (ground (arith, outpoints, values, ids), rests)

module _ (coins : Coins) (c c' : Collection) (hc : IsTypedCollection c)
    (hc' : IsTypedCollection c') where
  -- Two accepted collections with one statement are one collection, bridge, head, state, backing and
  -- deposits, unless the statement shows a collision of the hash.
  pub apply_collection-binding :
      {t t' : Transition}
      → apply_collection coins c ≡ ok t
      → apply_collection coins c' ≡ ok t'
      → t.statement ≡ t'.statement
      → (c ≡ c') ⊎ Collision coins (root_message c.old_state) (root_message c'.old_state)
  apply_collection-binding {t} {t'} e e' same =
      let (a, t_is) = apply_collection-ok coins c e in
      let (a', t_is') = apply_collection-ok coins c' e' in
      let (_, ids, prevouts, old_roots, new_roots, backings, new_backings, entries) =
        statement_prefix_cancel hc.head hc'.head collect_two collect_two (root coins c.old_state)
          (root coins c'.old_state) (root coins (state_after c)) (root coins (state_after c'))
          (backing_after c) (backing_after c') (root-IsArray coins c.old_state).0
          (root-IsArray coins c'.old_state).0 (root-IsArray coins (state_after c)).0
          (root-IsArray coins (state_after c')).0 a.room a'.room (cc (t_is, t_is', same)) in
      let (firsts, rests) =
        record_bytes_cancel c.old_state c'.old_state c.deposits.at0 c'.deposits.at0 hc.state_typed
          hc'.state_typed hc.deposit0_typed hc'.deposit0_typed a.known0 a'.known0 entries in
      let (seconds, _) =
        record_bytes_cancel c.old_state c'.old_state c.deposits.at1 c'.deposits.at1 hc.state_typed
          hc'.state_typed hc.deposit1_typed hc'.deposit1_typed a.known1 a'.known1 {xs = []}
          {ys = []} (ap (λ r. r ++ []) rests) in
      elim (root-binding coins c.old_state c'.old_state hc.state_typed hc'.state_typed old_roots) [
        | inr collision ↦ inr collision
        | inl states ↦ inl (ground (arith, ids, prevouts, states, backings, firsts, seconds))
      ]
