-- ===== src/Account/Backing.antt =====
-- `backing` against the plain sum of the balances.
use coins_gsr_v.Base.{ℕ, ◌+◌, ◌≡◌, ◌↔◌, ok, err, ltb, ◌==◌, if◌then◌else◌, arith, not, reject_if}
use coins_gsr_v.Bytes.{limit, IsU64}
use coins_gsr_v.Protocol.{AccountState, reserve, arithmetic, invalid_backing}
use coins_gsr_v.Account.{checked_add_u64, backing_from, backing, require_backing}

-- The money that the bridge output must hold, as a number without a bound.
abbrev pub total : AccountState → ℕ
total s = reserve + s.accounts.at0.balance + s.accounts.at1.balance + s.accounts.at2.balance

-- `backing` is the reserve and all balances if that sum fits 64 bits, and else an arithmetic error.
pub backing-total :
    (s : AccountState)
    → backing s ≡ (if ltb (total s) (limit 8) then ok (total s) else err arithmetic)
unfolding backing backing_from checked_add_u64
backing-total s = ground arith

pub backing-ok_iff : (s : AccountState) (n : ℕ) → (backing s ≡ ok n) ↔ ((total s ≡ n) × IsU64 n)
backing-ok_iff s n = ground (arith, backing-total s)

pub require_backing-ok_iff :
    (s : AccountState) (n : ℕ) → (require_backing s n ≡ ok tt) ↔ ((total s ≡ n) × IsU64 n)
unfolding require_backing
require_backing-ok_iff s n = ground (arith, backing-total s)

-- How `require_backing` ends, in all cases.
pub require_backing-total :
    (s : AccountState) (n : ℕ)
    → require_backing s n ≡ (
        if ltb (total s) (limit 8)
        then reject_if (not (total s == n)) invalid_backing
        else err arithmetic)
unfolding require_backing
require_backing-total s n = ground (arith, backing-total s)
