-- ===== src/Account.antt =====
-- `AccountState` of crates/protocol/src/lib.rs: `zero`, `validate`, `root`, `backing`, and
-- `require_backing`.
pub mod Validity
pub mod Backing
pub mod Root
use coins_gsr_v.Base.{
  ℕ, ◌+◌, ◌-◌, ◌%◌, Bool, true, false, not, ◌||◌, Option, none, some, List, [], ◌∷◌, ◌++◌,
  if◌then◌else◌, leb, ltb, ◌==◌, any, take, to_list, map_array, Array3, Result, ok, err, ◌>>=◌,
  ◌>>◌, ok_or, reject_if,
}
use coins_gsr_v.Bytes.{Bytes, bytes_eq, to_le_bytes, limit, extend_all}
use coins_gsr_v.Crates.{Coins}
use coins_gsr_v.Protocol.{
  Error, invalid_account_key, duplicate_account_key, invalid_backing, arithmetic, Account,
  AccountState, reserve, account_root_domain,
}

-- `u64::checked_add`, `u64::checked_sub` and `u32::checked_add`, each with `ok_or(Error::Arithmetic)`
unfoldable pub checked_add_u64 : ℕ → ℕ → Result Error ℕ
checked_add_u64 a b = if ltb (a + b) (limit 8) then ok (a + b) else err arithmetic

unfoldable pub checked_add_u32 : ℕ → ℕ → Result Error ℕ
checked_add_u32 a b = if ltb (a + b) (limit 4) then ok (a + b) else err arithmetic

unfoldable pub checked_sub_u64 : ℕ → ℕ → Result Error ℕ
checked_sub_u64 a b = if leb b a then ok (a - b) else err arithmetic

-- What the loop of `root` feeds to the hash, account by account.
unfoldable pub root_parts : ℕ → List Account → List Bytes
root_parts id [] = []
root_parts id (account ∷ rest) =
    to_le_bytes 4 (id % limit 4)
    ∷ account.key
    ∷ to_le_bytes 8 account.balance
    ∷ to_le_bytes 4 account.nonce
    ∷ root_parts (id + 1) rest

module _ (coins : Coins) where
  -- The key's point, if it is a finite point and the key is its own encoding.
  unfoldable pub check_key : Bytes → Result Error (Unit {0})
  check_key key = do
    point ← ok_or (coins.g1_to_affine key) invalid_account_key
    reject_if (coins.g1_infinity point || not (bytes_eq (coins.g1_from_affine point) key))
        invalid_account_key

  -- The loop of `validate` from `index` on; `all` is the whole array.
  unfoldable pub validate_from : List Account → ℕ → List Account → Result Error (Unit {0})
  validate_from all index [] = ok tt
  validate_from all index (account ∷ rest) = do
    check_key account.key
    reject_if (any (λ previous. bytes_eq previous.key account.key) (take index all))
        duplicate_account_key
    validate_from all (index + 1) rest

  unfoldable pub validate : AccountState → Result Error (Unit {0})
  unfolding validate_from
  validate state = validate_from (to_list state.accounts) 0 (to_list state.accounts)

  unfoldable pub zero_state : Array3 Bytes → Result Error AccountState
  zero_state keys = do
    let state : AccountState = record {
      accounts = map_array (λ key. record { key = key; balance = 0; nonce = 0 }) keys;
    }
    validate state
    ok state

  unfoldable pub root : AccountState → Bytes
  unfolding root_parts
  root state =
      coins.digest (extend_all (account_root_domain ∷ root_parts 0 (to_list state.accounts)))

-- `try_fold` from `sum` on
unfoldable pub backing_from : ℕ → List Account → Result Error ℕ
unfolding checked_add_u64
backing_from sum [] = ok sum
backing_from sum (account ∷ rest) = do
  sum' ← checked_add_u64 sum account.balance
  backing_from sum' rest

unfoldable pub backing : AccountState → Result Error ℕ
unfolding backing_from
backing state = backing_from reserve (to_list state.accounts)

unfoldable pub require_backing : AccountState → ℕ → Result Error (Unit {0})
require_backing state supplied = do
  total ← backing state
  reject_if (not (total == supplied)) invalid_backing
