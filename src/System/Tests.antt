-- ===== src/System/Tests.antt =====
-- The theorems on the contracts together, at a factory with one code and a DAO that it created.
use sputnik_dao_contract.Base.{
  ◌-◌, ◌≡◌, refl, true, none, some, [], ◌∷◌, ◌++◌, string_key, nat_key, arith,
}
use sputnik_dao_contract.Map
use sputnik_dao_contract.Result.{ok}
use sputnik_dao_contract.Host.{Env, Host, Promise, function_call, deploy_contract, raw, transfer_to}
use sputnik_dao_contract.Dao.Data.{current}
use sputnik_dao_contract.Dao.Contract.{Contract, new}
use sputnik_dao_contract.Dao.Upgrade.{update_gas_leftover}
use sputnik_dao_contract.Factory.Methods
use sputnik_dao_contract.Factory.Methods.{store_contract_self}
use sputnik_dao_contract.System.Upgrades.{
  delivered, deposit_in, update_through_factory, store_through_factory,
}
use sputnik_dao_contract.Dao.Tests.{small_policy, sample_config}
use sputnik_dao_contract.Factory.Tests.{factory_env, host, with_code}

abbrev at_factory : Env
at_factory = record factory_env { predecessor_account_id = "a.factory" }

abbrev at_dao : Env
at_dao = record factory_env { current_account_id = "a.factory"; attached_deposit = 34 }

abbrev dao : Host Contract
dao = record {
  state = record (new at_dao sample_config (current small_policy)) {
    factory_info = some (record { factory_id = "factory"; auto_update = true });
    storage = [];
    blobs = [];
  };
  promises = [];
}

code_stored : Map.get with_code.codes 10 ≡ some (1 ∷ 2 ∷ [])
unfolding Map.get
code_stored = refl

apart : at_dao.predecessor_account_id ≡ at_dao.current_account_id → ⊥
apart e = cc

update_through_factory_example :
    (p : Promise) × (Methods.update at_factory "a.factory" 10 host
      ≡ ok (tt, record host { promises = [] ++ p ∷ [] }))
    × (p.receiver_id ≡ "a.factory")
    × (deposit_in p.actions ≡ 0)
    × (delivered at_dao p dao
        ≡ some (
            ok (
              tt,
              record dao {
                promises =
                    []
                    ++ record {
                      receiver_id = "a.factory";
                      actions =
                          deploy_contract (1 ∷ 2 ∷ [])
                          ∷ function_call "migrate"
                              (raw [])
                              0
                              (at_dao.prepaid_gas - at_dao.used_gas - update_gas_leftover)
                          ∷ [];
                      callback = none;
                    }
                      ∷ [];
              },
            )))
update_through_factory_example =
    update_through_factory at_factory at_dao 10 (1 ∷ 2 ∷ []) host dao refl refl apart refl
      code_stored refl (omega arith) (omega arith)

no_blob : Map.get dao.state.storage 10 ≡ none
unfolding Map.get
no_blob = refl

store_through_factory_example :
    (p : Promise) × (store_contract_self at_factory 10 host
      ≡ ok (
        tt,
        record host {
          promises = ([] ++ transfer_to "a.factory" (100 - deposit_in p.actions) ∷ []) ++ p ∷ [];
        },
      ))
    × (p.receiver_id ≡ "a.factory")
    × (deposit_in p.actions ≡ 34)
    × (delivered at_dao p dao
        ≡ some (
            ok (
              tt,
              record dao {
                state = record dao.state {
                  storage = Map.insert 10 (1 ∷ 2 ∷ []) [];
                  blobs = Map.insert 10 "factory" [];
                };
              },
            )))
store_through_factory_example =
    store_through_factory at_factory at_dao 10 1 (1 ∷ 2 ∷ []) host dao code_stored refl refl
      (omega arith) (omega arith) (omega arith) (omega arith) refl refl no_blob
