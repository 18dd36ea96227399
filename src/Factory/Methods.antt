-- ===== src/Factory/Methods.antt =====
-- The methods of the factory, sputnikdao-factory2/src/lib.rs.
use Prim.Native.String.{len, slice, ◌++◌ as append}
use text.Mathlib.Text.{find?}
use sputnik_dao_contract.Base.{
  ℕ, ◌+◌, ◌*◌, String, Bool, true, false, ◌||◌, Option, none, some, List, [], ◌∷◌, ◌++◌, ◌==◌,
  string_key, nat_key, contains, get_elem?, length, leb, if◌then◌else◌,
}
use sputnik_dao_contract.Map
use sputnik_dao_contract.Map.{Map}
use sputnik_dao_contract.Result.{
  Result, ◌>>=◌ as chain, ok, err, checked, checked_sub, u128_mod, expect_or, must_be_owner,
  code_not_found, no_default_code, not_an_account_id, no_callback_result, must_be_updated_by_owner,
  not_created_by_factory, internal_fail, wrong_factory, code_hash_nonexist, must_deposit_to_store,
}
use sputnik_dao_contract.Host.{
  Env, Host, Call, ◌>>=◌, ◌>>◌, pure, gets, modify, require, expect, lift, schedule, raw,
  create_args, hash_args, update_args, function_call, transfer_to,
}
use sputnik_dao_contract.Dao.Upgrade.{has_key}
use sputnik_dao_contract.Dao.Views.{page, filter_map}
use sputnik_dao_contract.Factory.Data.{
  SputnikDaoFactory, DaoContractMetadata, Version, dao_contract_initial_version,
  dao_contract_no_data, empty_factory,
}
use sputnik_dao_contract.Factory.Manager.{
  store_contract, delete_code, update_contract, create_contract, code_cost, gas_without,
}

abbrev pub gas_store_contract_leftover : ℕ
gas_store_contract_leftover = 20_000_000_000_000

abbrev pub on_remove_contract_gas : ℕ
on_remove_contract_gas = 10_000_000_000_000

abbrev pub owner_or : Option String → String → String
owner_or none current = current
owner_or (some owner) current = owner

unfoldable pub get_owner : Env → SputnikDaoFactory → String
get_owner env f = owner_or f.owner env.current_account_id

unfoldable pub assert_owner : Env → Call SputnikDaoFactory Unit
assert_owner env = do
  owner ← gets (get_owner env)
  require (owner == env.predecessor_account_id) must_be_owner

unfoldable pub set_owner : Env → String → Call SputnikDaoFactory Unit
set_owner env owner_id = do assert_owner env; modify (λ f. record f { owner = some owner_id })

unfoldable pub require_code : ℕ → Call SputnikDaoFactory Unit
require_code code_hash = do
  stored ← gets (λ f. Map.get f.codes code_hash)
  require (has_key stored) code_not_found

unfoldable pub set_default : ℕ → Call SputnikDaoFactory Unit
set_default code_hash = modify (λ f. record f { default_code_hash = some code_hash })

unfoldable pub set_default_code_hash : Env → ℕ → Call SputnikDaoFactory Unit
set_default_code_hash env code_hash = do
  assert_owner env
  require_code code_hash
  set_default code_hash

abbrev pub or_new : Option (Map ℕ DaoContractMetadata) → Map ℕ DaoContractMetadata
or_new none = []
or_new (some metadata) = metadata

unfoldable pub store_contract_metadata :
    Env → ℕ → DaoContractMetadata → Bool → Call SputnikDaoFactory Unit
store_contract_metadata env code_hash metadata as_default = do
  assert_owner env
  require_code code_hash
  modify (λ f. record f { metadata = some (Map.insert code_hash metadata (or_new f.metadata)) })
  if as_default then set_default code_hash else pure tt

unfoldable pub delete_contract_metadata : Env → ℕ → Call SputnikDaoFactory Unit
delete_contract_metadata env code_hash = do
  assert_owner env
  stored ← gets (λ f. f.metadata)
  metadata ← expect stored internal_fail
  modify (λ f. record f { metadata = some (Map.remove code_hash metadata) })

unfoldable pub delete_contract : Env → ℕ → Call SputnikDaoFactory Unit
delete_contract env code_hash = do
  assert_owner env
  delete_code code_hash
  delete_contract_metadata env code_hash

-- The code of the DAO contract is built and put into the factory's own code.
unfoldable pub internal_store_initial_contract : Env → List ℕ → Call SputnikDaoFactory Unit
internal_store_initial_contract env initial_code = do
  assert_owner env
  let hash = env.sha256 initial_code
  modify (λ f. record f { codes = Map.insert hash initial_code f.codes })
  store_contract_metadata env hash
      (record {
        version = dao_contract_initial_version;
        commit_id = dao_contract_no_data;
        changelog_url = none;
      })
      true

abbrev pub state_of : Result (Unit × Host SputnikDaoFactory) → Result SputnikDaoFactory
state_of (err c) = err c
state_of (ok (result, h)) = ok h.state

unfoldable pub new : Env → List ℕ → Result SputnikDaoFactory
new env initial_code = state_of (
    internal_store_initial_contract env initial_code
      (record { state = empty_factory; promises = [] }))

unfoldable pub get_default_code_hash : Call SputnikDaoFactory ℕ
get_default_code_hash = do stored ← gets (λ f. f.default_code_hash); expect stored no_default_code

unfoldable pub get_default_version : Call SputnikDaoFactory Version
get_default_version = do
  stored ← gets (λ f. f.metadata)
  metadata ← expect stored internal_fail
  code_hash ← get_default_code_hash
  default_metadata ← expect (Map.get metadata code_hash) internal_fail
  pure default_metadata.version

-- `create`; which texts are account ids is for near_sdk to say.
unfoldable pub create : (String → Bool) → Env → String → List ℕ → Call SputnikDaoFactory Unit
create is_account_id env name args = do
  let account_id = append name (append "." env.current_account_id)
  require (is_account_id account_id) not_an_account_id
  code_hash ← get_default_code_hash
  create_contract env code_hash account_id "new" (raw args) "on_create"
      (create_args account_id env.attached_deposit env.predecessor_account_id)

-- `UnorderedSet::insert`
unfoldable pub add_dao : String → List String → List String
add_dao account_id daos = if contains daos account_id then daos else daos ++ account_id ∷ []

unfoldable pub on_create : Env → String → ℕ → String → Call SputnikDaoFactory Bool
on_create env account_id attached_deposit predecessor_account_id = do
  success ← expect env.promise_success no_callback_result
  if success
      then (do modify (λ f. record f { daos = add_dao account_id f.daos }); pure true)
      else (do schedule (transfer_to predecessor_account_id attached_deposit); pure false)

unfoldable pub update : Env → String → ℕ → Call SputnikDaoFactory Unit
update env account_id code_hash = do
  owner ← gets (get_owner env)
  require (env.predecessor_account_id == owner || env.predecessor_account_id == account_id)
      must_be_updated_by_owner
  daos ← gets (λ f. f.daos)
  require (contains daos account_id) not_created_by_factory
  update_contract env account_id code_hash "update"

unfoldable pub store_contract_self : Env → ℕ → Call SputnikDaoFactory Unit
store_contract_self env code_hash = do
  require_code code_hash
  let dao_id = env.predecessor_account_id
  idx ← expect (find? dao_id ".") internal_fail
  require (slice dao_id (idx + 1) (len dao_id) == env.current_account_id) wrong_factory
  stored ← gets (λ f. Map.get f.codes code_hash)
  dao_contract_code ← expect stored code_hash_nonexist
  storage_cost ← code_cost env (length dao_contract_code)
  require (leb storage_cost env.attached_deposit) must_deposit_to_store
  extra ← lift (checked_sub env.attached_deposit storage_cost)
  schedule (transfer_to dao_id extra)
  gas ← gas_without env gas_store_contract_leftover
  schedule (record {
    receiver_id = dao_id;
    actions = function_call "store_blob" (raw dao_contract_code) storage_cost gas ∷ [];
    callback = none;
  })

unfoldable pub remove_contract_self : Env → ℕ → Call SputnikDaoFactory Unit
remove_contract_self env code_hash = schedule (record {
  receiver_id = env.predecessor_account_id;
  actions = function_call "remove_blob" (hash_args code_hash) 0 gas_store_contract_leftover ∷ [];
  callback = some (
    env.current_account_id,
    function_call "on_remove_contract_self" (update_args env.predecessor_account_id code_hash) 0
        on_remove_contract_gas,
  );
})

unfoldable pub on_remove_contract_self : Env → String → ℕ → Call SputnikDaoFactory Bool
on_remove_contract_self env account_id code_hash = do
  success ← expect env.promise_success no_callback_result
  if success
      then (do
        stored ← gets (λ f. Map.get f.codes code_hash)
        dao_contract_code ← expect stored code_hash_nonexist
        storage_cost ← code_cost env (length dao_contract_code)
        schedule (transfer_to account_id storage_cost)
        pure true)
      else pure false

abbrev pub or_nothing : Option (List ℕ) → List ℕ
or_nothing none = []
or_nothing (some input) = input

-- The exported function `store`, with the raw input of the call. By how many bytes a stored code
-- makes the storage grow is for the host to say.
unfoldable pub store : (List ℕ → ℕ) → Env → Option (List ℕ) → Call SputnikDaoFactory ℕ
store growth env raw_input = do
  assert_owner env
  hash ← store_contract env raw_input
  storage_cost ← lift (checked u128_mod (growth (or_nothing raw_input) * env.storage_byte_cost))
  require (leb storage_cost env.attached_deposit) must_deposit_to_store
  pure hash

-- Views

unfoldable pub get_dao_list : SputnikDaoFactory → List String
get_dao_list f = f.daos

unfoldable pub get_number_daos : SputnikDaoFactory → ℕ
get_number_daos f = length f.daos

unfoldable pub get_daos : SputnikDaoFactory → ℕ → ℕ → Result (List String)
get_daos f from_index limit =
    chain (page (length f.daos) from_index limit) (λ ids. ok (filter_map (get_elem? f.daos) ids))

unfoldable pub get_contracts_metadata : SputnikDaoFactory → Result (Map ℕ DaoContractMetadata)
get_contracts_metadata f = expect_or f.metadata internal_fail
