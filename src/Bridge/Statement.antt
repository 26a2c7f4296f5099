-- ===== src/Bridge/Statement.antt =====
-- What the guest proves, and what its statement says of the input.
use coins_gsr_v.Base.{◌≡◌, ◌≢◌, ◌↔◌, ◌⊎◌, ok, arith, >>=-eq-ok, expect, expect-ok, sym, ◌∙◌}
use coins_gsr_v.Base.{List, [], ◌∷◌, inl, inr}
use coins_gsr_v.Bytes.{Bytes}
use coins_gsr_v.Crates.{Coins, Build}
use coins_gsr_v.Protocol.{ProofInput, collect, Collection, Settlement, Action, collect_two}
use coins_gsr_v.Protocol.Typed.{IsTypedCollection, IsTypedSettlement}
use coins_gsr_v.Account.{root}
use coins_gsr_v.Account.Root.{HasCollision, root_message, root-IsArray}
use coins_gsr_v.Message.Binding.{statement_prefix_cancel}
use coins_gsr_v.Collect.{apply_collection}
use coins_gsr_v.Collect.Outcome
use coins_gsr_v.Collect.Binding.{apply_collection-binding}
use coins_gsr_v.Settle.{apply_settlement}
use coins_gsr_v.Settle.Terms
use coins_gsr_v.Settle.Outcome as SettleOutcome
use coins_gsr_v.Settle.Binding.{
  hashed, IsSameSettlement, statement-transition_of, apply_settlement-binding,
}
use coins_gsr_v.Bridge.{validate_proof_input, guest_main}

-- An input is acceptable as its kind of transition is.
abbrev pub IsAcceptable : {coins : Coins} → Build coins → ProofInput → Type 0
IsAcceptable {coins} build (collect c) = Outcome.IsAcceptable coins c
IsAcceptable {coins} build (ProofInput.transfer_withdraw i) = Terms.IsAcceptable coins build i

-- The statement that an input stands for.
abbrev pub statement_of : Coins → ProofInput → Bytes
statement_of coins (collect c) = (Outcome.transition_of coins c).statement
statement_of coins (ProofInput.transfer_withdraw i) = (Terms.transition_of coins i).statement

abbrev pub IsTypedInput : ProofInput → Type 0
IsTypedInput (collect c) = IsTypedCollection c
IsTypedInput (ProofInput.transfer_withdraw i) = IsTypedSettlement i

-- Two inputs say the same: they are one collection, or settlements of one bridge, state and payout.
abbrev pub IsSameInput : Coins → ProofInput → ProofInput → Type 0
IsSameInput coins (collect c) (collect c') = c ≡ c'
IsSameInput coins (collect c) (ProofInput.transfer_withdraw j) = ⊥
IsSameInput coins (ProofInput.transfer_withdraw i) (collect c') = ⊥
IsSameInput coins (ProofInput.transfer_withdraw i) (ProofInput.transfer_withdraw j) =
    IsSameSettlement coins i j

-- What an input hashes, less the accounts after it.
abbrev pub hashed_messages : Coins → ProofInput → List Bytes
hashed_messages coins (collect c) = root_message c.old_state ∷ []
hashed_messages coins (ProofInput.transfer_withdraw i) = hashed coins i

module _ (coins : Coins) (build : Build coins) where
  pub validate_proof_input-ok :
      (x : ProofInput) {st : Bytes}
      → validate_proof_input coins build x ≡ ok st
      → IsAcceptable build x × (st ≡ statement_of coins x)
  unfolding validate_proof_input
  validate_proof_input-ok (collect c) h =
      let (t, applied, st_is) = >>=-eq-ok (apply_collection coins c) _ h in
      let (a, t_is) = Outcome.apply_collection-ok coins c applied in (a, cc (t_is, st_is))
  validate_proof_input-ok (ProofInput.transfer_withdraw i) h =
      let (t, applied, st_is) = >>=-eq-ok (apply_settlement coins build i) _ h in
      let (a, t_is) = SettleOutcome.apply_settlement-ok coins build i applied in
      (a, cc (t_is, st_is))

  validate_proof_input-IsAcceptable :
      (x : ProofInput)
      → IsAcceptable build x
      → validate_proof_input coins build x ≡ ok (statement_of coins x)
  unfolding validate_proof_input
  validate_proof_input-IsAcceptable (collect c) a =
      rw (Outcome.apply_collection-IsAcceptable coins c a)
  validate_proof_input-IsAcceptable (ProofInput.transfer_withdraw i) a =
      rw (SettleOutcome.apply_settlement-IsAcceptable coins build i a)

  unwrapped :
      (x : ProofInput) {st : Bytes}
      → guest_main coins build x ≡ ok st
      → validate_proof_input coins build x ≡ ok st
  unfolding guest_main
  unwrapped x h =
      let (s, kept, s_is) = >>=-eq-ok (expect (validate_proof_input coins build x)) (λ s. ok s) h in
      expect-ok (validate_proof_input coins build x) kept ∙ s_is

  -- The guest commits a statement exactly for the acceptable inputs, and then theirs; on any other
  -- input it stops, so that there is nothing to prove.
  pub guest_main-ok_iff :
      (x : ProofInput) (st : Bytes)
      → (guest_main coins build x ≡ ok st) ↔ (IsAcceptable build x × (st ≡ statement_of coins x))
  unfolding guest_main
  guest_main-ok_iff x st = (
    λ h. validate_proof_input-ok x (unwrapped x h),
    λ (a, e). rw (validate_proof_input-IsAcceptable x a, e),
  )

  collection-ne-settlement :
      (c : Collection) (i : Settlement)
      → IsTypedCollection c
      → IsTypedSettlement i
      → Outcome.IsAcceptable coins c
      → Terms.IsAcceptable coins build i
      → (Outcome.transition_of coins c).statement ≢ (Terms.transition_of coins i).statement
  collection-ne-settlement c i hc hi a b e =
      let (actions, _, _, _, _, _, _, _) =
        statement_prefix_cancel hc.head hi.head collect_two Action.transfer_withdraw
          (root coins c.old_state) (root coins i.old_state) (root coins (Outcome.state_after c))
          (root coins (Terms.state_after i)) (Outcome.backing_after c) (Terms.backing_after i)
          (root-IsArray coins c.old_state).0 (root-IsArray coins i.old_state).0
          (root-IsArray coins (Outcome.state_after c)).0
          (root-IsArray coins (Terms.state_after i)).0 a.room (omega (arith, b.backing_fits))
          (e ∙ statement-transition_of coins i) in
      cc actions

  accepted-binding :
      (x y : ProofInput)
      → IsTypedInput x
      → IsTypedInput y
      → IsAcceptable build x
      → IsAcceptable build y
      → statement_of coins x ≡ statement_of coins y
      → IsSameInput coins x y
        ⊎ HasCollision coins (hashed_messages coins x) (hashed_messages coins y)
  accepted-binding (collect c) (collect c') hx hy a b e =
      elim (apply_collection-binding coins c c' hx hy
        (Outcome.apply_collection-IsAcceptable coins c a)
        (Outcome.apply_collection-IsAcceptable coins c' b) e) [
          | inl same ↦ inl same
          | inr collision ↦ inr (inl collision)
        ]
  accepted-binding (collect c) (ProofInput.transfer_withdraw j) hx hy a b e =
      absurd (collection-ne-settlement c j hx hy a b e)
  accepted-binding (ProofInput.transfer_withdraw i) (collect c') hx hy a b e =
      absurd (collection-ne-settlement c' i hy hx b a (sym e))
  accepted-binding (ProofInput.transfer_withdraw i) (ProofInput.transfer_withdraw j) hx hy a b e =
      apply_settlement-binding coins build i j hx hy
        (SettleOutcome.apply_settlement-IsAcceptable coins build i a)
        (SettleOutcome.apply_settlement-IsAcceptable coins build j b) e

  -- Two inputs, of the widths of their Rust types, for which the guest commits one statement say the
  -- same: they are one collection, or settlements of one bridge, head, old state and backing, transfer
  -- messages and withdrawal. Or two messages that they hash in the same place, the encodings of the
  -- old accounts or the messages that are signed, are different and have one hash.
  pub guest_main-binding :
      (x y : ProofInput) {st : Bytes}
      → IsTypedInput x
      → IsTypedInput y
      → guest_main coins build x ≡ ok st
      → guest_main coins build y ≡ ok st
      → IsSameInput coins x y
        ⊎ HasCollision coins (hashed_messages coins x) (hashed_messages coins y)
  guest_main-binding x y hx hy e f =
      let (a, x_is) = (guest_main-ok_iff x _).0 e in
      let (b, y_is) = (guest_main-ok_iff y _).0 f in
      accepted-binding x y hx hy a b (sym x_is ∙ y_is)
