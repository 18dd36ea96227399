-- ===== src/Dao/Delegation.antt =====
-- Delegated vote weights, sputnikdao2/src/delegation.rs. Only the staking contract changes them.
pub mod Total
pub mod Ledger
use sputnik_dao_contract.Base.{
  ℕ, ◌+◌, ◌*◌, String, Option, none, some, ◌==◌, nat_key, string_key, leb,
}
use sputnik_dao_contract.Map
use sputnik_dao_contract.Result.{
  checked, checked_sub, u128_mod, err_no_staking, err_invalid_caller, err_wrong_deposit,
  err_not_registered, err_invalid_staking_contract,
}
use sputnik_dao_contract.Host.{Env, Call, ◌>>=◌, ◌>>◌, pure, gets, modify, require, expect, lift}
use sputnik_dao_contract.Dao.Contract.{Contract}

abbrev pub unwrap_or_default : Option ℕ → ℕ
unwrap_or_default none = 0
unwrap_or_default (some n) = n

unfoldable pub get_user_weight : Contract → String → ℕ
get_user_weight c account_id = unwrap_or_default (Map.get c.delegations account_id)

-- The first lines of each method: the caller is the staking contract.
unfoldable pub require_staking : Env → Call Contract Unit
require_staking env = do
  staking_id ← gets (λ c. c.staking_id)
  id ← expect staking_id err_no_staking
  require (env.predecessor_account_id == id) err_invalid_caller

unfoldable pub register_delegation : Env → String → Call Contract Unit
register_delegation env account_id = do
  require_staking env
  cost ← lift (checked u128_mod (16 * env.storage_byte_cost))
  require (env.attached_deposit == cost) err_wrong_deposit
  modify (λ c. record c { delegations = Map.insert account_id 0 c.delegations })

-- The result is the previous amount, the new one and the total.
unfoldable pub delegate : Env → String → ℕ → Call Contract (ℕ × ℕ × ℕ)
delegate env account_id amount = do
  require_staking env
  delegated ← gets (λ c. Map.get c.delegations account_id)
  prev_amount ← expect delegated err_not_registered
  new_amount ← lift (checked u128_mod (prev_amount + amount))
  modify (λ c. record c { delegations = Map.insert account_id new_amount c.delegations })
  total ← gets (λ c. c.total_delegation_amount)
  new_total ← lift (checked u128_mod (total + amount))
  modify (λ c. record c { total_delegation_amount = new_total })
  pure (prev_amount, new_amount, new_total)

unfoldable pub undelegate : Env → String → ℕ → Call Contract (ℕ × ℕ × ℕ)
undelegate env account_id amount = do
  require_staking env
  prev_amount ← gets (λ c. unwrap_or_default (Map.get c.delegations account_id))
  require (leb amount prev_amount) err_invalid_staking_contract
  new_amount ← lift (checked_sub prev_amount amount)
  modify (λ c. record c { delegations = Map.insert account_id new_amount c.delegations })
  total ← gets (λ c. c.total_delegation_amount)
  new_total ← lift (checked_sub total amount)
  modify (λ c. record c { total_delegation_amount = new_total })
  pure (prev_amount, new_amount, new_total)
