-- ===== src/Factory/Creation.antt =====
-- The creation of DAOs: `create` of sputnikdao-factory2/src/lib.rs.
use Prim.Native.String.{◌++◌ as append}
use sputnik_dao_contract.Base.{
  ℕ, ◌+◌, ◌*◌, ◌≤◌, ◌<◌, ◌≡◌, ◌∙◌, ap, String, Bool, true, none, some, List, [], ◌∷◌, ◌++◌,
  string_key, nat_key, length, arith,
}
use sputnik_dao_contract.Map
use sputnik_dao_contract.Map.{get-remove_self}
use sputnik_dao_contract.Result.{ok, u32_mod, u128_mod}
use sputnik_dao_contract.Host.{
  Env, Host, Promise, create_account, transfer, deploy_contract, function_call, raw, create_args,
  ◌>>=◌,
}
use sputnik_dao_contract.Host.Panics.{IsPanic}
use sputnik_dao_contract.Factory.Data.{SputnikDaoFactory}
use sputnik_dao_contract.Factory.Manager.{
  create_contract, code_cost, delete_code, create_call_gas, on_create_call_gas,
}
use sputnik_dao_contract.Factory.Methods.{
  assert_owner, delete_contract_metadata, delete_contract, get_default_code_hash, create,
}

-- The batch that creates a DAO account.
abbrev pub creation : Env → String → List ℕ → List ℕ → Promise
creation env account_id code args = record {
  receiver_id = account_id;
  actions =
      create_account
      ∷ transfer env.attached_deposit
      ∷ deploy_contract code
      ∷ function_call "new" (raw args) 0 create_call_gas
      ∷ [];
  callback = some (
    env.current_account_id,
    function_call "on_create"
        (create_args account_id env.attached_deposit env.predecessor_account_id) 0
        on_create_call_gas,
  );
}

abbrev pub dao_account : Env → String → String
dao_account env name = append name (append "." env.current_account_id)

-- Where the default code is stored, the new account id is valid, the size of the code with 32 bytes
-- fits in 32 bits and the attached deposit covers its storage and fits in 128 bits, create returns,
-- leaves the factory's state as it is, and schedules one promise that creates the account, funds it
-- with the whole deposit, deploys the code, calls new and then on_create.
pub create_lem :
    (is_account_id : String → Bool) (env : Env) (name : String) (args code : List ℕ) (hash : ℕ)
    (h : Host SputnikDaoFactory)
    → h.state.default_code_hash ≡ some hash
    → Map.get h.state.codes hash ≡ some code
    → is_account_id (dao_account env name) ≡ true
    → length code + 32 < u32_mod
    → (length code + 32) * env.storage_byte_cost ≤ env.attached_deposit
    → env.attached_deposit < u128_mod
    → create is_account_id env name args h
      ≡ ok (
        tt,
        record h { promises = h.promises ++ creation env (dao_account env name) code args ∷ [] },
      )
unfolding create get_default_code_hash create_contract code_cost ◌>>=◌
create_lem v env name args code hash h default stored valid small covered fits = ground arith

delete_contract_ok :
    (env : Env) (hash : ℕ) (h h' : Host SputnikDaoFactory)
    → delete_contract env hash h ≡ ok (tt, h')
    → (h'.state.codes ≡ Map.remove hash h.state.codes)
      × (h'.state.default_code_hash ≡ h.state.default_code_hash)
unfolding delete_contract delete_contract_metadata delete_code assert_owner ◌>>=◌
delete_contract_ok env hash h h' e = ground arith

-- After the owner deleted the code under the default hash, create panics, whoever calls it.
pub create_after_delete :
    (is_account_id : String → Bool) (owner_env env : Env) (hash : ℕ) (h h' : Host SputnikDaoFactory)
    (name : String) (args : List ℕ)
    → h.state.default_code_hash ≡ some hash
    → delete_contract owner_env hash h ≡ ok (tt, h')
    → IsPanic (create is_account_id env name args h')
unfolding create get_default_code_hash create_contract ◌>>=◌
create_after_delete v owner_env env hash h h' name args default e =
    let (codes, kept) = delete_contract_ok owner_env hash h h' e in
    let gone : Map.get h'.state.codes hash ≡ none =
      ap (λ m. Map.get m hash) codes ∙ get-remove_self hash h.state.codes in
    let still : h'.state.default_code_hash ≡ some hash = kept ∙ default in ground arith
