-- ===== src/Staking/User.antt =====
-- The users of the staking contract: `User` and the internal operations of
-- sputnik-staking/src/user.rs. The versioned wrapper of a user has one variant, and is read as what
-- it holds.
use Prim.Native.String.{len}
use sputnik_dao_contract.Base.{
  ℕ, ◌+◌, ◌*◌, String, Bool, true, false, Option, none, some, List, [], ◌∷◌, ◌++◌, ◌==◌, string_key,
  nat_beq, leb, if◌then◌else◌,
}
use sputnik_dao_contract.Result.{
  Result, ok, err, ◌>>=◌, ◌>>◌, Error, checked, checked_sub, u64_mod, u128_mod,
  err_not_enough_storage, err_not_enough_amount, err_not_enough_time_passed, err_no_delegate,
  err_not_enough_available_amount,
}
use sputnik_dao_contract.Host.{Env}

abbrev pub u64_len : ℕ
u64_len = 8

abbrev pub u128_len : ℕ
u128_len = 16

abbrev pub account_max_length : ℕ
account_max_length = 64

pub record User : Type 0 where
  pub storage_used : ℕ
  pub near_amount : ℕ
  pub vote_amount : ℕ
  pub next_action_timestamp : ℕ
  pub delegated_amounts : List (String × ℕ)

abbrev pub min_storage : ℕ
min_storage = account_max_length + 2 * u64_len + 4 * u128_len

-- `User::new`
unfoldable pub new_user : ℕ → User
new_user near_amount = record {
  storage_used = min_storage;
  near_amount = near_amount;
  vote_amount = 0;
  next_action_timestamp = 0;
  delegated_amounts = [];
}

-- `assert!`
abbrev pub ensure : Bool → Error → Result Unit
ensure true c = ok tt
ensure false c = err c

unfoldable pub storage_cost : Env → ℕ → Result ℕ
storage_cost env storage_used = checked u128_mod (storage_used * env.storage_byte_cost)

unfoldable pub assert_storage : Env → User → Result Unit
assert_storage env user = do
  cost ← storage_cost env user.storage_used
  ensure (leb cost user.near_amount) err_not_enough_storage

-- The `fold` of `delegated_amount`.
unfoldable pub sum_from : ℕ → List (String × ℕ) → Result ℕ
sum_from total [] = ok total
sum_from total ((account_id, amount) ∷ rest) = do
  next ← checked u128_mod (total + amount)
  sum_from next rest

unfoldable pub delegated_amount : User → Result ℕ
delegated_amount user = sum_from 0 user.delegated_amounts

-- The length of an account id in bytes.
abbrev pub bytes_of : String → ℕ
bytes_of account_id = len account_id

unfoldable pub delegate : Env → String → ℕ → User → Result User
delegate env delegate_id amount user = do
  delegated ← delegated_amount user
  sum ← checked u128_mod (delegated + amount)
  ensure (leb sum user.vote_amount) err_not_enough_amount
  ensure (leb user.next_action_timestamp env.block_timestamp) err_not_enough_time_passed
  size ← checked u64_mod (bytes_of delegate_id + u128_len)
  used ← checked u64_mod (user.storage_used + size)
  let delegating = record user {
    storage_used = used;
    delegated_amounts = user.delegated_amounts ++ (delegate_id, amount) ∷ [];
  }
  assert_storage env delegating
  ok delegating

-- `find` of the first delegation to the account, with its amount.
unfoldable pub find_delegate : String → List (String × ℕ) → Option ℕ
find_delegate delegate_id [] = none
find_delegate delegate_id ((account_id, amount) ∷ rest) =
    if account_id == delegate_id then some amount else find_delegate delegate_id rest

-- `delegated_amounts.remove`, at the first delegation to the account
unfoldable pub remove_delegate : String → List (String × ℕ) → List (String × ℕ)
remove_delegate delegate_id [] = []
remove_delegate delegate_id ((account_id, amount) ∷ rest) =
    if account_id == delegate_id
    then rest
    else (account_id, amount) ∷ remove_delegate delegate_id rest

-- The new amount of the first delegation to the account.
unfoldable pub set_delegate : String → ℕ → List (String × ℕ) → List (String × ℕ)
set_delegate delegate_id n [] = []
set_delegate delegate_id n ((account_id, amount) ∷ rest) =
    if account_id == delegate_id
    then (account_id, n) ∷ rest
    else (account_id, amount) ∷ set_delegate delegate_id n rest

abbrev pub expect_delegate : Option ℕ → Result ℕ
expect_delegate none = err err_no_delegate
expect_delegate (some amount) = ok amount

-- The `if` of `undelegate`: the delegation goes where nothing of it is left.
unfoldable pub reduce : String → ℕ → ℕ → User → Result User
reduce delegate_id element amount user =
    if nat_beq element amount
    then (do
      size ← checked u64_mod (bytes_of delegate_id + u128_len)
      used ← checked_sub user.storage_used size
      ok (record user {
        storage_used = used;
        delegated_amounts = remove_delegate delegate_id user.delegated_amounts;
      }))
    else (do
      left ← checked_sub element amount
      ok (record user { delegated_amounts = set_delegate delegate_id left user.delegated_amounts }))

unfoldable pub undelegate : Env → String → ℕ → ℕ → User → Result User
undelegate env delegate_id amount undelegation_period user = do
  element ← expect_delegate (find_delegate delegate_id user.delegated_amounts)
  ensure (leb amount element) err_not_enough_amount
  reduced ← reduce delegate_id element amount user
  timestamp ← checked u64_mod (env.block_timestamp + undelegation_period)
  ok (record reduced { next_action_timestamp = timestamp })

unfoldable pub withdraw : Env → ℕ → User → Result User
withdraw env amount user = do
  delegated ← delegated_amount user
  sum ← checked u128_mod (delegated + amount)
  ensure (leb sum user.vote_amount) err_not_enough_available_amount
  ensure (leb user.next_action_timestamp env.block_timestamp) err_not_enough_time_passed
  left ← checked_sub user.vote_amount amount
  ok (record user { vote_amount = left })

unfoldable pub deposit : ℕ → User → Result User
deposit amount user = do
  n ← checked u128_mod (user.vote_amount + amount)
  ok (record user { vote_amount = n })

unfoldable pub storage_available : Env → User → Result ℕ
storage_available env user = do
  cost ← storage_cost env user.storage_used
  checked_sub user.near_amount cost
