-- ===== src/Message/Binding.antt =====
-- What a message determines: a signature or a proof over its bytes is one over its fields.
use coins_gsr_v.Base.{ℕ, ◌≡◌, ◌≢◌, refl, ap, zero, suc, List, [], ◌∷◌, ◌++◌, length, ◌⊎◌, ok, arith}
use coins_gsr_v.Bytes.{Bytes, IsU32, IsU64, to_le_bytes}
use coins_gsr_v.Bytes.Endian.{to_le_bytes-injective, length-to_le_bytes}
use coins_gsr_v.Bytes.Framing.{extend_all-injective, extend_all_cancel}
use coins_gsr_v.CompactSize.{encode_compact_size}
use coins_gsr_v.Crates.{Coins}
use coins_gsr_v.Protocol.{
  OutPoint, Action, collect_two, action_byte, statement_domain, protocol_version,
  transfer_auth_domain, withdrawal_domain, withdrawal_account_id,
}
use coins_gsr_v.Protocol.Typed.{IsTypedOutPoint, IsTypedHead}
use coins_gsr_v.Account.Root.{Collision, digest-binding}
use coins_gsr_v.Message.{encode, statement_prefix, scoped_transfer_message, withdrawal_message}
use coins_gsr_v.Message.Widths.{length-encode, withdrawal_message-ok}

pub encode-injective :
    (o p : OutPoint) → IsTypedOutPoint o → IsTypedOutPoint p → encode o ≡ encode p → o ≡ p
unfolding encode
encode-injective o p ho hp e =
    let parts =
      extend_all-injective (o.txid ∷ to_le_bytes 4 o.vout ∷ []) (p.txid ∷ to_le_bytes 4 p.vout ∷ [])
        (omega (arith, length-to_le_bytes, ho.txid_width, hp.txid_width)) e in
    ground (arith, parts, to_le_bytes-injective 4 o.vout p.vout ho.vout_fits hp.vout_fits)

-- The parts of a statement's beginning.
abbrev prefix_parts : Action → Bytes → OutPoint → Bytes → Bytes → ℕ → ℕ → List Bytes
prefix_parts a b o r n ob nb =
    statement_domain
    ∷ (protocol_version ∷ [])
    ∷ (action_byte a ∷ [])
    ∷ b
    ∷ encode o
    ∷ r
    ∷ n
    ∷ to_le_bytes 8 ob
    ∷ to_le_bytes 8 nb
    ∷ []

-- The parts of a withdrawal message.
abbrev withdrawal_parts : Bytes → ℕ → ℕ → Bytes → List Bytes
withdrawal_parts b nonce amount d =
    withdrawal_domain
    ∷ b
    ∷ to_le_bytes 4 withdrawal_account_id
    ∷ to_le_bytes 4 nonce
    ∷ to_le_bytes 8 amount
    ∷ encode_compact_size 34
    ∷ d
    ∷ []

-- A byte of a message; past its end there is none, and the answer is 0.
abbrev byte_at : ℕ → Bytes → ℕ
byte_at i [] = 0
byte_at zero (x ∷ xs) = x
byte_at (suc i) (x ∷ xs) = byte_at i xs

action_byte-injective : (a b : Action) → action_byte a ≡ action_byte b → a ≡ b
action_byte-injective collect_two collect_two e = refl
action_byte-injective collect_two Action.transfer_withdraw e = absurd (omega arith)
action_byte-injective Action.transfer_withdraw collect_two e = absurd (omega arith)
action_byte-injective Action.transfer_withdraw Action.transfer_withdraw e = refl

module _ {b b' : Bytes} {o o' : OutPoint} {ob ob' : ℕ} (h : IsTypedHead b o ob)
    (h' : IsTypedHead b' o' ob') (a a' : Action) (r r' n n' : Bytes) (nb nb' : ℕ)
    (r_width : length r ≡ 32) (r_width' : length r' ≡ 32) (n_width : length n ≡ 32)
    (n_width' : length n' ≡ 32) (nb_fits : IsU64 nb) (nb_fits' : IsU64 nb') where
  -- Two statements with one beginning are about one action, bridge, head, old and new root, old and
  -- new backing, and go on with the same bytes.
  pub statement_prefix_cancel :
      {xs ys : Bytes}
      → statement_prefix a b o r n ob nb ++ xs ≡ statement_prefix a' b' o' r' n' ob' nb' ++ ys
      → (a ≡ a') × (b ≡ b') × (o ≡ o') × (r ≡ r') × (n ≡ n') × (ob ≡ ob') × (nb ≡ nb') × (xs ≡ ys)
  unfolding statement_prefix
  statement_prefix_cancel {xs} {ys} e =
      let (parts, rests) =
        extend_all_cancel (prefix_parts a b o r n ob nb) (prefix_parts a' b' o' r' n' ob' nb')
          {xs = xs} {ys = ys}
          (
            refl,
            (
              refl,
              (
                refl,
                (
                  omega (arith, h.id_width, h'.id_width),
                  (
                    omega (
                      arith,
                      length-encode o h.prevout_typed.txid_width,
                      length-encode o' h'.prevout_typed.txid_width,
                    ),
                    (
                      omega arith,
                      (
                        omega arith,
                        (
                          omega (arith, length-to_le_bytes),
                          (omega (arith, length-to_le_bytes), tt),
                        ),
                      ),
                    ),
                  ),
                ),
              ),
            ),
          )
          e in
      (
        action_byte-injective a a' (cc parts),
        cc parts,
        encode-injective o o' h.prevout_typed h'.prevout_typed (cc parts),
        cc parts,
        cc parts,
        to_le_bytes-injective 8 ob ob' h.backing_fits h'.backing_fits (cc parts),
        to_le_bytes-injective 8 nb nb' nb_fits nb_fits' (cc parts),
        rests,
      )

module _ (b b' : Bytes) (nonce nonce' amount amount' : ℕ) (d d' : Bytes) (width : length b ≡ 32)
    (width' : length b' ≡ 32) (nonce_fits : IsU32 nonce) (nonce_fits' : IsU32 nonce')
    (amount_fits : IsU64 amount) (amount_fits' : IsU64 amount') where
  -- One withdrawal message has one bridge, nonce, amount and destination, for bridges of 32 bytes,
  -- nonces of 32 bits and amounts of 64 bits.
  pub withdrawal_message-injective :
      {m : Bytes}
      → withdrawal_message b nonce amount d ≡ ok m
      → withdrawal_message b' nonce' amount' d' ≡ ok m
      → (b ≡ b') × (nonce ≡ nonce') × (amount ≡ amount') × (d ≡ d')
  withdrawal_message-injective e e' =
      let (p, q) = withdrawal_message-ok b nonce amount d e in
      let (p', q') = withdrawal_message-ok b' nonce' amount' d' e' in
      let parts =
        extend_all-injective (withdrawal_parts b nonce amount d)
          (withdrawal_parts b' nonce' amount' d')
          (
            refl,
            (
              omega arith,
              (
                refl,
                (
                  omega (arith, length-to_le_bytes),
                  (
                    omega (arith, length-to_le_bytes),
                    (refl, (omega (arith, p.width, p'.width), tt)),
                  ),
                ),
              ),
            ),
          )
          (cc (q, q')) in
      (
        cc parts,
        to_le_bytes-injective 4 nonce nonce' nonce_fits nonce_fits' (cc parts),
        to_le_bytes-injective 8 amount amount' amount_fits amount_fits' (cc parts),
        cc parts,
      )

module _ (coins : Coins) (b b' m m' : Bytes) (width : length b ≡ 32) (width' : length b' ≡ 32) where
  -- One scoped message has one bridge of 32 bytes, and one native message or two different ones
  -- with one hash.
  pub scoped_transfer_message-binding :
      scoped_transfer_message coins b m ≡ scoped_transfer_message coins b' m'
      → (b ≡ b') × ((m ≡ m') ⊎ Collision coins m m')
  unfolding scoped_transfer_message
  scoped_transfer_message-binding e =
      let parts =
        extend_all-injective (transfer_auth_domain ∷ b ∷ coins.digest m ∷ [])
          (transfer_auth_domain ∷ b' ∷ coins.digest m' ∷ [])
          (
            refl,
            (
              omega arith,
              (omega (arith, (coins.digest-IsArray m).0, (coins.digest-IsArray m').0), tt),
            ),
          )
          e in
      (cc parts, digest-binding coins m m' (cc parts))

  -- No withdrawal message is a scoped transfer message, whatever bridges of 32 bytes, nonce, amount,
  -- destination and native message they are made from.
  pub scoped-ne-withdrawal :
      (nonce amount : ℕ) (d : Bytes)
      → withdrawal_message b' nonce amount d ≢ ok (scoped_transfer_message coins b m)
  unfolding scoped_transfer_message
  scoped-ne-withdrawal nonce amount d e =
      absurd (omega (arith, ap (byte_at 13) (withdrawal_message-ok b' nonce amount d e).1))
