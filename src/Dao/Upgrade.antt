-- ===== src/Dao/Upgrade.antt =====
-- The upgrades of sputnikdao2/src/upgrade.rs and the blobs of sputnikdao2/src/lib.rs.
use Prim.Native.String.{len, slice}
use text.Mathlib.Text.{find?}
use sputnik_dao_contract.Base.{
  ℕ, ◌+◌, ◌*◌, String, Bool, true, false, not, ◌&&◌, ◌||◌, Option, none, some, List, [], ◌∷◌, ◌==◌,
  nat_key, string_key, length, leb, if◌then◌else◌,
}
use sputnik_dao_contract.Map
use sputnik_dao_contract.Result.{
  checked, checked_sub, u32_mod, u64_mod, u128_mod, internal_fail, err_must_be_self_or_factory,
  err_no_result, err_no_input, err_no_hash, err_no_blob, err_invalid_caller, unwrap_none,
  err_already_exists, err_not_enough_deposit,
}
use sputnik_dao_contract.Host.{
  Env, Call, ◌>>=◌, ◌>>◌, pure, panic, gets, modify, require, expect, lift, schedule,
  deploy_contract, function_call, transfer_to, raw, update_args, PromiseResult, successful,
  not_ready, failed,
}
use sputnik_dao_contract.Dao.Types.{FactoryInfo}
use sputnik_dao_contract.Dao.Contract.{Contract}

abbrev pub update_gas_leftover : ℕ
update_gas_leftover = 10_000_000_000_000

abbrev pub factory_update_gas_leftover : ℕ
factory_update_gas_leftover = 15_000_000_000_000

abbrev pub gas_for_upgrade_self_deploy : ℕ
gas_for_upgrade_self_deploy = 15_000_000_000_000

abbrev pub gas_for_upgrade_remote_deploy : ℕ
gas_for_upgrade_remote_deploy = 15_000_000_000_000

-- `env::prepaid_gas() - env::used_gas() - leftover`
unfoldable pub remaining_gas : Env → ℕ → Call Contract ℕ
remaining_gas env leftover = do
  unused ← lift (checked_sub env.prepaid_gas env.used_gas)
  lift (checked_sub unused leftover)

-- What stands behind the first dot of the DAO's account id.
unfoldable pub get_default_factory_id : Env → Call Contract String
get_default_factory_id env = do
  idx ← expect (find? env.current_account_id ".") internal_fail
  pure (slice env.current_account_id (idx + 1) (len env.current_account_id))

unfoldable pub or_default_factory : Env → Option FactoryInfo → Call Contract FactoryInfo
or_default_factory env (some factory_info) = pure factory_info
or_default_factory env none = do
  factory_id ← get_default_factory_id env
  pure (record { factory_id = factory_id; auto_update = true })

unfoldable pub internal_get_factory_info : Env → Call Contract FactoryInfo
internal_get_factory_info env = do
  stored ← gets (λ c. c.factory_info)
  or_default_factory env stored

unfoldable pub internal_set_factory_info : FactoryInfo → Call Contract Unit
internal_set_factory_info factory_info = modify (λ c. record c { factory_info = some factory_info })

-- `env::promise_result(0)` of a call that must have succeeded
unfoldable pub callback_data : List PromiseResult → Call Contract (List ℕ)
callback_data [] = panic err_no_result
callback_data (successful bytes ∷ rest) = pure bytes
callback_data (not_ready ∷ rest) = panic err_no_result
callback_data (failed ∷ rest) = panic err_no_result

-- `update`, with the raw input of the call.
unfoldable pub update : Env → Option (List ℕ) → Call Contract Unit
update env raw_input = do
  factory_info ← internal_get_factory_info env
  let is_callback = env.predecessor_account_id == env.current_account_id
  require
      (is_callback
        || env.predecessor_account_id == factory_info.factory_id && factory_info.auto_update)
      err_must_be_self_or_factory
  input ← if is_callback then callback_data env.promise_results else expect raw_input err_no_input
  gas ← remaining_gas env update_gas_leftover
  schedule (record {
    receiver_id = env.current_account_id;
    actions = deploy_contract input ∷ function_call "migrate" (raw []) 0 gas ∷ [];
    callback = none;
  })

unfoldable pub upgrade_using_factory : Env → ℕ → Call Contract Unit
upgrade_using_factory env code_hash = do
  account_id ← get_default_factory_id env
  gas ← remaining_gas env factory_update_gas_leftover
  schedule (record {
    receiver_id = account_id;
    actions = function_call "update" (update_args env.current_account_id code_hash) 0 gas ∷ [];
    callback = none;
  })

-- Not called by any method.
unfoldable pub upgrade_self : Env → ℕ → Call Contract Unit
upgrade_self env hash = do
  code ← gets (λ c. Map.get c.storage hash)
  input ← expect code err_no_hash
  gas ← remaining_gas env gas_for_upgrade_self_deploy
  schedule (record {
    receiver_id = env.current_account_id;
    actions = deploy_contract input ∷ function_call "migrate" (raw []) 0 gas ∷ [];
    callback = none;
  })

unfoldable pub upgrade_remote : Env → String → String → ℕ → Call Contract Unit
upgrade_remote env receiver_id method_name hash = do
  code ← gets (λ c. Map.get c.storage hash)
  input ← expect code err_no_hash
  gas ← remaining_gas env gas_for_upgrade_remote_deploy
  schedule (record {
    receiver_id = receiver_id;
    actions = function_call method_name (raw input) 0 gas ∷ [];
    callback = none;
  })

-- `((blob_len + 32) as u128) * env::storage_byte_cost()`, where the length is of a type of the first
-- number of values: a `usize` of wasm32 in `store_blob`, a `u64` in `remove_blob`.
unfoldable pub blob_cost : ℕ → Env → ℕ → Call Contract ℕ
blob_cost bound env blob_len = do
  size ← lift (checked bound (blob_len + 32))
  lift (checked u128_mod (size * env.storage_byte_cost))

abbrev pub has_key : Option (List ℕ) → Bool
has_key none = false
has_key (some bytes) = true

-- `store_blob`, with the raw input of the call; the result is the hash.
unfoldable pub store_blob : Env → Option (List ℕ) → Call Contract ℕ
store_blob env raw_input = do
  input ← expect raw_input err_no_input
  let hash = env.sha256 input
  stored ← gets (λ c. Map.get c.storage hash)
  require (not (has_key stored)) err_already_exists
  storage_cost ← blob_cost u32_mod env (length input)
  require (leb storage_cost env.attached_deposit) err_not_enough_deposit
  modify (λ c. record c {
    storage = Map.insert hash input c.storage;
    blobs = Map.insert hash env.predecessor_account_id c.blobs;
  })
  pure hash

-- The length that `register_len` reports is that of the blob which `storage_remove` took out.
unfoldable pub remove_blob : Env → ℕ → Call Contract Unit
remove_blob env hash = do
  owner ← gets (λ c. Map.get c.blobs hash)
  account_id ← expect owner err_no_blob
  require (env.predecessor_account_id == account_id) err_invalid_caller
  stored ← gets (λ c. Map.get c.storage hash)
  blob ← expect stored unwrap_none
  modify (λ c. record c { blobs = Map.remove hash c.blobs; storage = Map.remove hash c.storage })
  storage_cost ← blob_cost u64_mod env (length blob)
  schedule (transfer_to account_id storage_cost)
