-- ===== src/Message/Widths.antt =====
-- How long the messages and their parts are, and when a withdrawal has a message at all.
use coins_gsr_v.Base.{
  ◌||◌, not, ◌⊎◌, inl, inr, Bool-cases, ℕ, ◌≡◌, ◌≢◌, [], ◌∷◌, length, length-append, take, ok, err,
  arith, ◌==◌, Bool, false,
}
use coins_gsr_v.Bytes.{Bytes, bytes_eq, to_le_bytes, extend_all}
use coins_gsr_v.Bytes.Endian.{length-to_le_bytes}
use coins_gsr_v.Bytes.Order.{bytes_eq_iff}
use coins_gsr_v.CompactSize.{encode_compact_size}
use coins_gsr_v.Protocol.{invalid_withdrawal, OutPoint, withdrawal_domain, withdrawal_account_id}
use coins_gsr_v.Message.{encode, withdrawal_message}

pub length-encode : (o : OutPoint) → length o.txid ≡ 32 → length (encode o) ≡ 36
unfolding encode
length-encode o h = ground (
  arith,
  length-append o.txid (extend_all (to_le_bytes 4 o.vout ∷ [])),
  length-append (to_le_bytes 4 o.vout) [],
  length-to_le_bytes 4 o.vout,
)

-- A payout that a withdrawal may name: a positive amount to a 34-byte version-1 witness program.
pub record IsPayout (amount : ℕ) (destination : Bytes) : Type 0 where
  pub positive : amount ≢ 0
  pub width : length destination ≡ 34
  pub program : take 2 destination ≡ 0x51 ∷ 0x20 ∷ []

-- The bytes that are signed for a withdrawal.
abbrev pub withdrawal_bytes : Bytes → ℕ → ℕ → Bytes → Bytes
withdrawal_bytes bridge_id nonce amount destination = extend_all (
    withdrawal_domain
    ∷ bridge_id
    ∷ to_le_bytes 4 withdrawal_account_id
    ∷ to_le_bytes 4 nonce
    ∷ to_le_bytes 8 amount
    ∷ encode_compact_size 34
    ∷ destination
    ∷ [])

abbrev refuses : ℕ → Bytes → Bool
refuses amount destination =
    amount == 0
    || not (length destination == 34)
    || not (bytes_eq (take 2 destination) (0x51 ∷ 0x20 ∷ []))

accepted-IsPayout :
    (amount : ℕ) (destination : Bytes)
    → refuses amount destination ≡ false
    → IsPayout amount destination
accepted-IsPayout amount destination h = record {
  positive = λ e. ground arith;
  width = ground arith;
  program = ground (arith, bytes_eq_iff (take 2 destination) (0x51 ∷ 0x20 ∷ []));
}

pub IsPayout-cases :
    (amount : ℕ) (destination : Bytes)
    → IsPayout amount destination ⊎ (¬ (IsPayout amount destination))
IsPayout-cases amount destination = elim (Bool-cases (refuses amount destination)) [
  | inl e ↦ inr λ p.
      ground (
        arith,
        p.positive,
        p.width,
        p.program,
        bytes_eq_iff (take 2 destination) (0x51 ∷ 0x20 ∷ []),
      )
  | inr e ↦ inl (accepted-IsPayout amount destination e)
]

module _ (bridge_id : Bytes) (nonce amount : ℕ) (destination : Bytes) where
  pub withdrawal_message-IsPayout :
      IsPayout amount destination
      → withdrawal_message bridge_id nonce amount destination
        ≡ ok (withdrawal_bytes bridge_id nonce amount destination)
  unfolding withdrawal_message
  withdrawal_message-IsPayout p =
      ground (
        arith,
        p.positive,
        p.width,
        p.program,
        bytes_eq_iff (take 2 destination) (0x51 ∷ 0x20 ∷ []),
      )

  pub withdrawal_message-ok :
      {m : Bytes}
      → withdrawal_message bridge_id nonce amount destination ≡ ok m
      → IsPayout amount destination × (m ≡ withdrawal_bytes bridge_id nonce amount destination)
  unfolding withdrawal_message
  withdrawal_message-ok h =
      let payout = accepted-IsPayout amount destination (ground arith) in
      let width = payout.width in (payout, ground arith)

  -- The only failure is `invalid_withdrawal`.
  pub withdrawal_message-refused :
      ¬ (IsPayout amount destination)
      → withdrawal_message bridge_id nonce amount destination ≡ err invalid_withdrawal
  unfolding withdrawal_message
  withdrawal_message-refused h = elim (Bool-cases (refuses amount destination)) [
    | inl e ↦ rw e
    | inr e ↦ absurd (h (accepted-IsPayout amount destination e))
  ]
