-- ===== src/Factory/Manager.antt =====
-- The store of codes and the promises that deploy them, sputnikdao-factory2/src/factory_manager.rs.
use sputnik_dao_contract.Base.{
  ℕ, ◌+◌, ◌*◌, String, not, Option, none, some, List, [], ◌∷◌, nat_key, length, leb,
}
use sputnik_dao_contract.Map
use sputnik_dao_contract.Result.{
  checked, checked_sub, u32_mod, u128_mod, err_no_input, err_already_exists, contract_missing,
  err_no_hash, err_not_enough_deposit, unwrap_none,
}
use sputnik_dao_contract.Host.{
  Env, Call, ◌>>=◌, ◌>>◌, pure, gets, modify, require, expect, lift, schedule, CallArgs, raw,
  transfer, function_call, deploy_contract, create_account,
}
use sputnik_dao_contract.Dao.Upgrade.{has_key}
use sputnik_dao_contract.Factory.Data.{SputnikDaoFactory}

abbrev pub create_call_gas : ℕ
create_call_gas = 40_000_000_000_000

abbrev pub on_create_call_gas : ℕ
on_create_call_gas = 10_000_000_000_000

abbrev pub gas_update_leftover : ℕ
gas_update_leftover = 10_000_000_000_000

-- `store_contract`, with the raw input of the call; the result is the hash.
unfoldable pub store_contract : Env → Option (List ℕ) → Call SputnikDaoFactory ℕ
store_contract env raw_input = do
  input ← expect raw_input err_no_input
  let hash = env.sha256 input
  stored ← gets (λ f. Map.get f.codes hash)
  require (not (has_key stored)) err_already_exists
  modify (λ f. record f { codes = Map.insert hash input f.codes })
  pure hash

unfoldable pub delete_code : ℕ → Call SputnikDaoFactory Unit
delete_code code_hash = modify (λ f. record f { codes = Map.remove code_hash f.codes })

unfoldable pub get_code : ℕ → Call SputnikDaoFactory (List ℕ)
get_code code_hash = do
  stored ← gets (λ f. Map.get f.codes code_hash)
  require (has_key stored) contract_missing
  expect stored unwrap_none

-- `env::prepaid_gas() - env::used_gas() - leftover`
unfoldable pub gas_without : Env → ℕ → Call SputnikDaoFactory ℕ
gas_without env leftover = do
  unused ← lift (checked_sub env.prepaid_gas env.used_gas)
  lift (checked_sub unused leftover)

unfoldable pub update_contract : Env → String → ℕ → String → Call SputnikDaoFactory Unit
update_contract env account_id code_hash method_name = do
  stored ← gets (λ f. Map.get f.codes code_hash)
  require (has_key stored) contract_missing
  code ← expect stored err_no_hash
  gas ← gas_without env gas_update_leftover
  schedule (record {
    receiver_id = account_id;
    actions = function_call method_name (raw code) 0 gas ∷ [];
    callback = none;
  })

-- `((code_len + 32) as Balance) * env::storage_byte_cost()`; a `usize` of wasm32 has 32 bits.
unfoldable pub code_cost : Env → ℕ → Call SputnikDaoFactory ℕ
code_cost env code_len = do
  size ← lift (checked u32_mod (code_len + 32))
  lift (checked u128_mod (size * env.storage_byte_cost))

unfoldable pub create_contract :
    Env → ℕ → String → String → CallArgs → String → CallArgs → Call SputnikDaoFactory Unit
create_contract env code_hash account_id new_method args callback_method callback_args = do
  stored ← gets (λ f. Map.get f.codes code_hash)
  require (has_key stored) contract_missing
  code ← expect stored err_no_hash
  storage_cost ← code_cost env (length code)
  require (leb storage_cost env.attached_deposit) err_not_enough_deposit
  schedule (record {
    receiver_id = account_id;
    actions =
        create_account
        ∷ transfer env.attached_deposit
        ∷ deploy_contract code
        ∷ function_call new_method args 0 create_call_gas
        ∷ [];
    callback =
        some (
          env.current_account_id,
          function_call callback_method callback_args 0 on_create_call_gas,
        );
  })
