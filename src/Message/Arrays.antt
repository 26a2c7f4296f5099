-- ===== src/Message/Arrays.antt =====
-- The parts of a statement as byte arrays of known widths.
use coins_gsr_v.Base.{ℕ, refl, [], ◌∷◌, arith}
use coins_gsr_v.Bytes.{Bytes, IsByte, IsArray, to_le_bytes}
use coins_gsr_v.Bytes.Endian.{to_le_bytes-IsArray}
use coins_gsr_v.Bytes.Framing.{extend_all-IsArray}
use coins_gsr_v.Protocol.{
  OutPoint, Action, collect_two, action_byte, statement_domain, protocol_version,
}
use coins_gsr_v.Message.{encode, statement_prefix}

pub encode-IsArray : (o : OutPoint) → IsArray 32 o.txid → IsArray 36 (encode o)
unfolding encode
encode-IsArray o h =
    extend_all-IsArray (32 ∷ 4 ∷ []) (o.txid ∷ to_le_bytes 4 o.vout ∷ [])
      (h, (to_le_bytes-IsArray 4 o.vout, tt))

action_byte-IsByte : (a : Action) → IsByte (action_byte a)
action_byte-IsByte collect_two = omega arith
action_byte-IsByte Action.transfer_withdraw = omega arith

pub statement_prefix-IsArray :
    (action : Action) (bridge_id : Bytes) (o : OutPoint) (old_root new_root : Bytes)
    (old_backing new_backing : ℕ)
    → IsArray 32 bridge_id
    → IsArray 32 o.txid
    → IsArray 32 old_root
    → IsArray 32 new_root
    → IsArray 181 (statement_prefix action bridge_id o old_root new_root old_backing new_backing)
unfolding statement_prefix
statement_prefix-IsArray action bridge_id o old_root new_root old_backing new_backing hb ho hr hn =
    extend_all-IsArray (31 ∷ 1 ∷ 1 ∷ 32 ∷ 36 ∷ 32 ∷ 32 ∷ 8 ∷ 8 ∷ [])
      (statement_domain
        ∷ (protocol_version ∷ [])
        ∷ (action_byte action ∷ [])
        ∷ bridge_id
        ∷ encode o
        ∷ old_root
        ∷ new_root
        ∷ to_le_bytes 8 old_backing
        ∷ to_le_bytes 8 new_backing
        ∷ [])
      (
        omega arith,
        (
          omega arith,
          (
            (refl, (action_byte-IsByte action, tt)),
            (
              hb,
              (
                encode-IsArray o ho,
                (
                  hr,
                  (
                    hn,
                    (to_le_bytes-IsArray 8 old_backing, (to_le_bytes-IsArray 8 new_backing, tt)),
                  ),
                ),
              ),
            ),
          ),
        ),
      )
