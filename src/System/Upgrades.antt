-- ===== src/System/Upgrades.antt =====
-- The factory and a DAO: the promises of `update` and `store_contract_self` of
-- sputnikdao-factory2/src/lib.rs, run by `update` of sputnikdao2/src/upgrade.rs and `store_blob` of
-- sputnikdao2/src/lib.rs.
use Prim.Native.String.{len, slice}
use text.Mathlib.Text.{find?}
use sputnik_dao_contract.Base.{
  ℕ, ◌+◌, ◌-◌, ◌*◌, ◌≤◌, ◌<◌, ◌≡◌, ◌≢◌, refl, sym, ◌∙◌, ap, true, Option, none, some, List, [], ◌∷◌,
  ◌++◌, ◌==◌, if◌then◌else◌, String, string_key, nat_key, length, contains, beq_ne, arith,
}
use sputnik_dao_contract.Map
use sputnik_dao_contract.Result.{Result, ok, u32_mod, u128_mod}
use sputnik_dao_contract.Host.{
  Env, Host, Promise, PromiseAction, function_call, deploy_contract, raw, transfer_to, pure, ◌>>=◌,
}
use sputnik_dao_contract.Host.Reads.{chain_on}
use sputnik_dao_contract.Dao.Contract.{Contract}
use sputnik_dao_contract.Dao.Upgrade.{
  internal_get_factory_info, or_default_factory, remaining_gas, update_gas_leftover, blob_cost,
  store_blob,
}
use sputnik_dao_contract.Dao.Upgrade
use sputnik_dao_contract.Dao.Calls.{Method, dispatch}
use sputnik_dao_contract.Factory.Data.{SputnikDaoFactory}
use sputnik_dao_contract.Factory.Manager.{
  update_contract, code_cost, gas_without, gas_update_leftover,
}
use sputnik_dao_contract.Factory.Methods
use sputnik_dao_contract.Factory.Methods.{
  get_owner, store_contract_self, require_code, gas_store_contract_leftover,
}

-- The exported function of a DAO that a promise calls, with the raw input that it brings.
abbrev pub method_named : String → List ℕ → Option Method
method_named name input =
    if name == "store_blob"
    then some (Method.store_blob (some input))
    else if name == "update"
    then some (Method.update (some input))
    else none

abbrev pub method_in : List PromiseAction → Option Method
method_in (function_call name (raw input) deposit gas ∷ []) = method_named name input
method_in _ = none

abbrev pub deposit_in : List PromiseAction → ℕ
deposit_in (function_call name args deposit gas ∷ []) = deposit
deposit_in _ = 0

-- What a promise does at the DAO, if it just calls one of these functions.
abbrev pub called_on : Env → Host Contract → Option Method → Option (Result (Unit × Host Contract))
called_on env d none = none
called_on env d (some method) = some (dispatch env method d)

abbrev pub delivered : Env → Promise → Host Contract → Option (Result (Unit × Host Contract))
delivered env p d = called_on env d (method_in p.actions)

-- A DAO that the factory created and that lets the factory update it can update itself through the
-- factory: where the code is stored and both calls have the gas that they leave over, update of the
-- factory returns with one promise to the DAO, without a deposit, and what the promise does at the
-- DAO is a call of its exported function update, which returns and deploys just that code on the
-- DAO.
pub update_through_factory :
    (factory_env dao_env : Env) (hash : ℕ) (code : List ℕ) (f : Host SputnikDaoFactory)
    (d : Host Contract)
    → factory_env.predecessor_account_id ≡ dao_env.current_account_id
    → dao_env.predecessor_account_id ≡ factory_env.current_account_id
    → dao_env.predecessor_account_id ≢ dao_env.current_account_id
    → contains f.state.daos dao_env.current_account_id ≡ true
    → Map.get f.state.codes hash ≡ some code
    → d.state.factory_info
      ≡ some (record { factory_id = factory_env.current_account_id; auto_update = true })
    → factory_env.used_gas + gas_update_leftover ≤ factory_env.prepaid_gas
    → dao_env.used_gas + update_gas_leftover ≤ dao_env.prepaid_gas
    → (p : Promise) × (Methods.update factory_env dao_env.current_account_id hash f
        ≡ ok (tt, record f { promises = f.promises ++ p ∷ [] }))
      × (p.receiver_id ≡ dao_env.current_account_id)
      × (deposit_in p.actions ≡ 0)
      × (delivered dao_env p d
          ≡ some (
              ok (
                tt,
                record d {
                  promises =
                      d.promises
                      ++ record {
                        receiver_id = dao_env.current_account_id;
                        actions =
                            deploy_contract code
                            ∷ function_call "migrate"
                                (raw [])
                                0
                                (dao_env.prepaid_gas - dao_env.used_gas - update_gas_leftover)
                            ∷ [];
                        callback = none;
                      }
                        ∷ [];
                },
              )))
unfolding dispatch Methods.update get_owner update_contract gas_without Upgrade.update
    internal_get_factory_info or_default_factory remaining_gas ◌>>=◌
update_through_factory fe de hash code f d caller back apart listed stored info fgas dgas = (
  record {
    receiver_id = de.current_account_id;
    actions =
        function_call "update" (raw code) 0 (fe.prepaid_gas - fe.used_gas - gas_update_leftover)
        ∷ [];
    callback = none;
  },
  ground (arith, (string_key.same_iff fe.predecessor_account_id de.current_account_id).1 caller),
  refl,
  refl,
  ground (
    arith,
    beq_ne de.predecessor_account_id de.current_account_id apart,
    (string_key.same_iff de.predecessor_account_id fe.current_account_id).1 back,
  ),
)

store_blob_stores :
    (env : Env) (code : List ℕ) (d : Host Contract)
    → length code + 32 < u32_mod
    → (length code + 32) * env.storage_byte_cost ≡ env.attached_deposit
    → env.attached_deposit < u128_mod
    → Map.get d.state.storage (env.sha256 code) ≡ none
    → store_blob env (some code) d
      ≡ ok (
        env.sha256 code,
        record d {
          state = record d.state {
            storage = Map.insert (env.sha256 code) code d.state.storage;
            blobs = Map.insert (env.sha256 code) env.predecessor_account_id d.state.blobs;
          };
        },
      )
unfolding store_blob blob_cost ◌>>=◌
store_blob_stores env code d small cost fits fresh = rw fresh (ground arith)

-- A blob that the DAO does not have is stored, owned by the caller.
stored_blob :
    (env : Env) (code : List ℕ) (d : Host Contract)
    → length code + 32 < u32_mod
    → (length code + 32) * env.storage_byte_cost ≡ env.attached_deposit
    → env.attached_deposit < u128_mod
    → Map.get d.state.storage (env.sha256 code) ≡ none
    → dispatch env (Method.store_blob (some code)) d
      ≡ ok (
        tt,
        record d {
          state = record d.state {
            storage = Map.insert (env.sha256 code) code d.state.storage;
            blobs = Map.insert (env.sha256 code) env.predecessor_account_id d.state.blobs;
          };
        },
      )
unfolding dispatch ◌>>=◌
stored_blob env code d small cost fits fresh =
    chain_on (store_blob env (some code)) (λ hash. pure tt) d
      (store_blob_stores env code d small cost fits fresh)

-- A DAO of this factory that attaches the storage cost of a stored code or more gets it as a blob:
-- store_contract_self returns, sends back what is more than the cost and schedules one promise to
-- the DAO with the cost as its deposit, and what the promise does at the DAO, where the DAO does
-- not have the blob yet and the byte cost is the same, is a call of its exported function
-- store_blob, which returns and stores just that code, owned by its caller.
pub store_through_factory :
    (factory_env dao_env : Env) (hash idx : ℕ) (code : List ℕ) (f : Host SputnikDaoFactory)
    (d : Host Contract)
    → Map.get f.state.codes hash ≡ some code
    → find? factory_env.predecessor_account_id "." ≡ some idx
    → slice factory_env.predecessor_account_id (idx + 1) (len factory_env.predecessor_account_id)
      ≡ factory_env.current_account_id
    → length code + 32 < u32_mod
    → (length code + 32) * factory_env.storage_byte_cost ≤ factory_env.attached_deposit
    → factory_env.attached_deposit < u128_mod
    → factory_env.used_gas + gas_store_contract_leftover ≤ factory_env.prepaid_gas
    → dao_env.storage_byte_cost ≡ factory_env.storage_byte_cost
    → dao_env.attached_deposit ≡ (length code + 32) * factory_env.storage_byte_cost
    → Map.get d.state.storage (dao_env.sha256 code) ≡ none
    → (p : Promise) × (store_contract_self factory_env hash f
        ≡ ok (
          tt,
          record f {
            promises =
                (f.promises
                  ++ transfer_to factory_env.predecessor_account_id
                      (factory_env.attached_deposit - deposit_in p.actions)
                    ∷ [])
                ++ p ∷ [];
          },
        ))
      × (p.receiver_id ≡ factory_env.predecessor_account_id)
      × (deposit_in p.actions ≡ dao_env.attached_deposit)
      × (delivered dao_env p d
          ≡ some (
              ok (
                tt,
                record d {
                  state = record d.state {
                    storage = Map.insert (dao_env.sha256 code) code d.state.storage;
                    blobs =
                        Map.insert
                          (dao_env.sha256 code)
                          dao_env.predecessor_account_id
                          d.state.blobs;
                  };
                },
              )))
unfolding store_contract_self require_code code_cost gas_without ◌>>=◌
store_through_factory fe de hash idx code f d stored dot suffix small covered fits fgas same_cost
      deposit fresh =
    (
      record {
        receiver_id = fe.predecessor_account_id;
        actions =
            function_call "store_blob" (raw code) ((length code + 32) * fe.storage_byte_cost)
              (fe.prepaid_gas - fe.used_gas - gas_store_contract_leftover)
            ∷ [];
        callback = none;
      },
      ground (
        arith,
        (string_key.same_iff
              (slice fe.predecessor_account_id (idx + 1) (len fe.predecessor_account_id))
              fe.current_account_id).1
            suffix,
      ),
      refl,
      sym deposit,
      ap some (
          stored_blob de code d small
            (ap (λ (c : ℕ). (length code + 32) * c) same_cost ∙ sym deposit)
            (omega (arith, deposit, covered, fits)) fresh),
    )
