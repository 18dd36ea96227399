-- ===== src/Factory/Calls.antt =====
-- The entry points of the factory. `#[near_bindgen]` refuses a deposit to a method that takes
-- `&mut self` and is not `#[payable]`, and `#[private]` refuses every caller but the factory itself.
use sputnik_dao_contract.Base.{ℕ, String, Bool, Option, List, [], ◌∷◌, ◌==◌, string_key, nat_beq}
use sputnik_dao_contract.Result.{ok, err, private_method, not_payable}
use sputnik_dao_contract.Host.{Env, Call, ◌>>◌, pure, require}
use sputnik_dao_contract.Factory.Data.{SputnikDaoFactory, DaoContractMetadata}
use sputnik_dao_contract.Factory.Methods

pub data Method : Type 0 where
  set_owner : String → Method
  set_default_code_hash delete_contract delete_contract_metadata store_contract_self
        remove_contract_self :
      ℕ → Method
  create : String → List ℕ → Method
  on_create : String → ℕ → String → Method
  update on_remove_contract_self : String → ℕ → Method
  store_contract_metadata : ℕ → DaoContractMetadata → Bool → Method
  store : Option (List ℕ) → Method

abbrev pub done : {A : Type 0} → Call SputnikDaoFactory A → Call SputnikDaoFactory Unit
done m = do m; pure tt

unfoldable pub assert_private : Env → Call SputnikDaoFactory Unit
assert_private env = require (env.predecessor_account_id == env.current_account_id) private_method

unfoldable pub assert_no_deposit : Env → Call SputnikDaoFactory Unit
assert_no_deposit env = require (nat_beq env.attached_deposit 0) not_payable

module _ (is_account_id : String → Bool) (growth : List ℕ → ℕ) where
  unfoldable pub dispatch : Env → Method → Call SputnikDaoFactory Unit
  dispatch env (set_owner owner_id) = Methods.set_owner env owner_id
  dispatch env (set_default_code_hash hash) = Methods.set_default_code_hash env hash
  dispatch env (delete_contract hash) = Methods.delete_contract env hash
  dispatch env (delete_contract_metadata hash) = Methods.delete_contract_metadata env hash
  dispatch env (store_contract_self hash) = Methods.store_contract_self env hash
  dispatch env (remove_contract_self hash) = do
    assert_no_deposit env
    Methods.remove_contract_self env hash
  dispatch env (create name args) = Methods.create is_account_id env name args
  dispatch env (on_create account_id deposit predecessor) = do
    assert_no_deposit env
    assert_private env
    done (Methods.on_create env account_id deposit predecessor)
  dispatch env (update account_id hash) = Methods.update env account_id hash
  dispatch env (on_remove_contract_self account_id hash) = do
    assert_no_deposit env
    assert_private env
    done (Methods.on_remove_contract_self env account_id hash)
  dispatch env (store_contract_metadata hash metadata as_default) =
      Methods.store_contract_metadata env hash metadata as_default
  dispatch env (store input) = done (Methods.store growth env input)

  unfoldable pub execute : Env → Method → SputnikDaoFactory → SputnikDaoFactory
  execute env method f = elim (dispatch env method (record { state = f; promises = [] })) [
    | err code ↦ f
    | ok (result, h) ↦ h.state
  ]

  unfoldable pub run : List (Env × Method) → SputnikDaoFactory → SputnikDaoFactory
  run [] f = f
  run ((env, method) ∷ calls) f = run calls (execute env method f)
