-- ===== src/Settle/Binding.antt =====
-- What the public statement of a settlement determines.
use coins_gsr_v.Base.{List, ◌≡◌, refl, ◌⊎◌, inl, inr, [], ◌∷◌, ◌++◌, length, ok, arith}
use coins_gsr_v.Bytes.{Bytes, to_le_bytes, extend_all}
use coins_gsr_v.Bytes.Endian.{to_le_bytes-injective, length-to_le_bytes}
use coins_gsr_v.Bytes.Framing.{extend_all-injective}
use coins_gsr_v.CompactSize.{encode_compact_size}
use coins_gsr_v.Crates.{Coins, Build}
use coins_gsr_v.Protocol.{Settlement, Transition, Action}
use coins_gsr_v.Protocol.Typed.{IsTypedSettlement}
use coins_gsr_v.Account.{root}
use coins_gsr_v.Account.Root.{
  Collision, HasCollision, root_message, digest-binding, root-binding, root-IsArray,
}
use coins_gsr_v.Message.{statement_prefix}
use coins_gsr_v.Message.Binding.{statement_prefix_cancel}
use coins_gsr_v.Settle.{apply_settlement}
use coins_gsr_v.Settle.Terms.{
  native_message, scoped_message, payout_message, IsAcceptable, state_after, backing_after,
  transition_of,
}
use coins_gsr_v.Settle.Outcome.{apply_settlement-ok}

-- What two settlements with one statement have in common: the bridge and its head, the state that is
-- opened, the backing, the payout, and the three messages that were signed.
pub record IsSameSettlement (coins : Coins) (i j : Settlement) : Type 0 where
  pub bridge : i.bridge_id ≡ j.bridge_id
  pub head : i.bridge_prevout ≡ j.bridge_prevout
  pub state : i.old_state ≡ j.old_state
  pub backing : i.old_backing ≡ j.old_backing
  pub amount : i.withdrawal_amount ≡ j.withdrawal_amount
  pub destination : i.withdrawal_destination ≡ j.withdrawal_destination
  pub native : native_message coins i ≡ native_message coins j
  pub scoped : scoped_message coins i ≡ scoped_message coins j
  pub payout : payout_message i ≡ payout_message j

-- What follows the beginning of a settlement's statement.
abbrev pub tail_parts : Coins → Settlement → List Bytes
tail_parts coins i =
    coins.digest (native_message coins i)
    ∷ coins.digest (scoped_message coins i)
    ∷ coins.digest (payout_message i)
    ∷ to_le_bytes 8 i.withdrawal_amount
    ∷ encode_compact_size 34
    ∷ i.withdrawal_destination
    ∷ []

pub statement-transition_of :
    (coins : Coins) (i : Settlement)
    → (transition_of coins i).statement
      ≡ statement_prefix Action.transfer_withdraw i.bridge_id i.bridge_prevout
          (root coins i.old_state)
          (root coins (state_after i))
          i.old_backing
          (backing_after i)
        ++ extend_all (tail_parts coins i)
unfolding transition_of
statement-transition_of coins i = refl

-- What a settlement hashes, less the accounts after it.
abbrev pub hashed : Coins → Settlement → List Bytes
hashed coins i =
    root_message i.old_state
    ∷ native_message coins i
    ∷ scoped_message coins i
    ∷ payout_message i
    ∷ []

-- Four bindings together: all hold, or one of them shows the collision.
all_or_Collision :
    {coins : Coins} {A B C D E : Type 0} {m0 m1 m2 m3 n0 n1 n2 n3 : Bytes}
    → A ⊎ Collision coins m0 n0
    → B ⊎ Collision coins m1 n1
    → C ⊎ Collision coins m2 n2
    → D ⊎ Collision coins m3 n3
    → (A → B → C → D → E)
    → E ⊎ HasCollision coins (m0 ∷ m1 ∷ m2 ∷ m3 ∷ []) (n0 ∷ n1 ∷ n2 ∷ n3 ∷ [])
all_or_Collision (inl a) (inl b) (inl c) (inl d) f = inl (f a b c d)
all_or_Collision (inr x) _ _ _ f = inr (inl x)
all_or_Collision (inl a) (inr x) _ _ f = inr (inr (inl x))
all_or_Collision (inl a) (inl b) (inr x) _ f = inr (inr (inr (inl x)))
all_or_Collision (inl a) (inl b) (inl c) (inr x) f = inr (inr (inr (inr (inl x))))

module _ (coins : Coins) (build : Build coins) (i j : Settlement) (hi : IsTypedSettlement i)
    (hj : IsTypedSettlement j) where
  tails :
      IsAcceptable coins build i
      → IsAcceptable coins build j
      → extend_all (tail_parts coins i) ≡ extend_all (tail_parts coins j)
      → tail_parts coins i ≡ tail_parts coins j
  tails a b e =
      extend_all-injective (tail_parts coins i) (tail_parts coins j)
        (
          digests (native_message coins i) (native_message coins j),
          (
            digests (scoped_message coins i) (scoped_message coins j),
            (
              digests (payout_message i) (payout_message j),
              (
                omega (arith, length-to_le_bytes),
                (refl, (omega (arith, a.payout.width, b.payout.width), tt)),
              ),
            ),
          ),
        )
        e
    where
      digests : (m n : Bytes) → length (coins.digest m) ≡ length (coins.digest n)
      digests m n = omega (arith, (coins.digest-IsArray m).0, (coins.digest-IsArray n).0)

  -- Two accepted settlements with one statement agree on all of that, or two messages that they
  -- hash in the same place collide.
  pub apply_settlement-binding :
      {t u : Transition}
      → apply_settlement coins build i ≡ ok t
      → apply_settlement coins build j ≡ ok u
      → t.statement ≡ u.statement
      → IsSameSettlement coins i j ⊎ HasCollision coins (hashed coins i) (hashed coins j)
  apply_settlement-binding {t} {u} e f same =
      let (a, t_is) = apply_settlement-ok coins build i e in
      let (b, u_is) = apply_settlement-ok coins build j f in
      let one : (transition_of coins i).statement ≡ (transition_of coins j).statement =
        cc (t_is, u_is, same) in
      let (_, ids, prevouts, old_roots, new_roots, backings, new_backings, rests) =
        statement_prefix_cancel hi.head hj.head Action.transfer_withdraw Action.transfer_withdraw
          (root coins i.old_state) (root coins j.old_state) (root coins (state_after i))
          (root coins (state_after j)) (backing_after i) (backing_after j)
          (root-IsArray coins i.old_state).0 (root-IsArray coins j.old_state).0
          (root-IsArray coins (state_after i)).0 (root-IsArray coins (state_after j)).0
          (omega (arith, a.backing_fits)) (omega (arith, b.backing_fits))
          (rw (← statement-transition_of coins i, ← statement-transition_of coins j) one) in
      let parts = tails a b rests in
      let amounts : i.withdrawal_amount ≡ j.withdrawal_amount =
        to_le_bytes-injective 8 _ _ hi.amount_fits hj.amount_fits (cc parts) in
      all_or_Collision
        (root-binding coins i.old_state j.old_state hi.state_typed hj.state_typed old_roots)
        (digest-binding coins (native_message coins i) (native_message coins j) (cc parts))
        (digest-binding coins (scoped_message coins i) (scoped_message coins j) (cc parts))
        (digest-binding coins (payout_message i) (payout_message j) (cc parts))
        λ states natives scopeds payouts. record {
          bridge = ids;
          head = prevouts;
          state = states;
          backing = backings;
          amount = amounts;
          destination = cc parts;
          native = natives;
          scoped = scopeds;
          payout = payouts;
        }
