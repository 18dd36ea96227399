-- ===== src/Staking/Storage.antt =====
-- The storage deposits of sputnik-staking/src/storage_impl.rs.
use sputnik_dao_contract.Base.{
  ℕ, ◌-◌, String, Bool, true, false, Option, none, some, string_key, leb, ltb, nat_beq,
  if◌then◌else◌,
}
use sputnik_dao_contract.Map
use sputnik_dao_contract.Result.{
  unwrap_none, one_yocto_required, err_deposit_less_than_min_storage, err_storage_withdraw_too_much,
  err_storage_unregister_not_empty,
}
use sputnik_dao_contract.Host.{
  Env, Call, ◌>>=◌, ◌>>◌, pure, gets, modify, require, expect, lift, schedule, transfer_to,
}
use sputnik_dao_contract.Staking.User.{User, min_storage, storage_cost, storage_available}
use sputnik_dao_contract.Staking.Methods.{
  Contract, has_user, internal_get_user, internal_register_user,
}

-- `StorageBalance` of near_contract_standards
pub record StorageBalance : Type 0 where
  pub total : ℕ
  pub available : ℕ

-- `storage_balance_of(..).unwrap()`
unfoldable pub storage_balance_of : Env → String → Call Contract StorageBalance
storage_balance_of env account_id = do
  stored ← gets (λ c. Map.get c.users account_id)
  user ← expect stored unwrap_none
  available ← lift (storage_available env user)
  pure (record { total = user.near_amount; available = available })

unfoldable pub refund : Env → ℕ → Call Contract Unit
refund env amount =
    if ltb 0 amount then schedule (transfer_to env.predecessor_account_id amount) else pure tt

-- The branch of `storage_deposit` for an account that is not registered.
unfoldable pub register : Env → String → Bool → Call Contract Unit
register env account_id registration_only = do
  min_balance ← lift (storage_cost env min_storage)
  require (leb min_balance env.attached_deposit) err_deposit_less_than_min_storage
  if registration_only
      then (do
        internal_register_user env account_id min_balance
        refund env (env.attached_deposit - min_balance))
      else internal_register_user env account_id env.attached_deposit

abbrev pub or_false : Option Bool → Bool
or_false none = false
or_false (some b) = b

abbrev pub or_predecessor : Env → Option String → String
or_predecessor env none = env.predecessor_account_id
or_predecessor env (some account_id) = account_id

unfoldable pub storage_deposit : Env → Option String → Option Bool → Call Contract StorageBalance
storage_deposit env account registration_only = do
  let account_id = or_predecessor env account
  found ← gets (λ c. Map.get c.users account_id)
  if has_user found
      then refund env env.attached_deposit
      else register env account_id (or_false registration_only)
  storage_balance_of env account_id

abbrev pub or_available : Option ℕ → ℕ → ℕ
or_available none available = available
or_available (some amount) available = amount

-- `assert_one_yocto`
abbrev pub assert_one_yocto : Env → Call Contract Unit
assert_one_yocto env = require (nat_beq env.attached_deposit 1) one_yocto_required

unfoldable pub storage_withdraw : Env → Option ℕ → Call Contract StorageBalance
storage_withdraw env requested = do
  assert_one_yocto env
  user ← internal_get_user env.predecessor_account_id
  available ← lift (storage_available env user)
  let amount = or_available requested available
  require (leb amount available) err_storage_withdraw_too_much
  schedule (transfer_to env.predecessor_account_id amount)
  storage_balance_of env env.predecessor_account_id

-- The branch of `storage_unregister` for a registered account.
unfoldable pub unregister : Env → Option User → Call Contract Bool
unregister env none = pure false
unregister env (some user) = do
  require (ltb 0 user.vote_amount) err_storage_unregister_not_empty
  modify (λ c. record c { users = Map.remove env.predecessor_account_id c.users })
  schedule (transfer_to env.predecessor_account_id user.near_amount)
  pure true

unfoldable pub storage_unregister : Env → Option Bool → Call Contract Bool
storage_unregister env force = do
  assert_one_yocto env
  user ← gets (λ c. Map.get c.users env.predecessor_account_id)
  unregister env user
