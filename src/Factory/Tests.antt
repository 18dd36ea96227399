-- ===== src/Factory/Tests.antt =====
-- The theorems on the factory, at a factory with one code and one DAO.
use Prim.Native.String.{◌++◌ as append}
use sputnik_dao_contract.Base.{
  ℕ, ◌+◌, ◌≡◌, refl, true, false, none, some, List, [], ◌∷◌, ◌++◌, string_key, nat_key, arith,
}
use sputnik_dao_contract.Map
use sputnik_dao_contract.Result.{ok, err, must_be_owner}
use sputnik_dao_contract.Host.{Env, Host, Promise, ◌>>=◌}
use sputnik_dao_contract.Host.Panics.{IsPanic}
use sputnik_dao_contract.Factory.Data.{SputnikDaoFactory, DaoContractMetadata}
use sputnik_dao_contract.Factory.Manager.{delete_code}
use sputnik_dao_contract.Factory.Methods.{
  set_owner, set_default_code_hash, store_contract_metadata, delete_contract_metadata,
  delete_contract, store, create, new, internal_store_initial_contract, assert_owner, get_owner,
  require_code, set_default,
}
use sputnik_dao_contract.Factory.Calls.{Method, run, dispatch}
use sputnik_dao_contract.Factory.Consistency.{IsConsistent}
use sputnik_dao_contract.Factory.Invariant.{reachable-IsConsistent}
use sputnik_dao_contract.Factory.Owner.{only_owner}
use sputnik_dao_contract.Factory.Creation.{creation, create_lem, create_after_delete}
use sputnik_dao_contract.Factory.Outcome.{method_in, Settles, creation-Settles}

abbrev pub sum_hash : List ℕ → ℕ
sum_hash [] = 7
sum_hash (b ∷ bytes) = b + sum_hash bytes

abbrev pub factory_env : Env
factory_env = record {
  predecessor_account_id = "factory";
  current_account_id = "factory";
  attached_deposit = 100;
  block_timestamp = 10;
  storage_byte_cost = 1;
  storage_usage = 100;
  account_balance = 1000;
  prepaid_gas = 300_000_000_000_000;
  used_gas = 5;
  promise_results = [];
  promise_success = some false;
  sha256 = sum_hash;
  hash_order = λ entries. entries;
}

abbrev user_env : Env
user_env = record factory_env { predecessor_account_id = "carol" }

abbrev info : DaoContractMetadata
info = record { version = (3, 0); commit_id = "no data"; changelog_url = none }

-- The code `1 2` under its hash 10.
abbrev pub with_code : SputnikDaoFactory
with_code = record {
  daos = "a.factory" ∷ [];
  codes = (10, 1 ∷ 2 ∷ []) ∷ [];
  owner = none;
  default_code_hash = some 10;
  metadata = some ((10, info) ∷ []);
}

abbrev pub host : Host SputnikDaoFactory
host = record { state = with_code; promises = [] }

made_factory : new factory_env (1 ∷ 2 ∷ []) ≡ ok (record with_code { daos = [] })
unfolding new internal_store_initial_contract store_contract_metadata assert_owner get_owner
    require_code set_default ◌>>=◌ Map.insert Map.get
made_factory = refl

reachable-IsConsistent_example : IsConsistent sum_hash (
    run
      (λ name. true)
      (λ code. 50)
      ((factory_env, Method.store (some (3 ∷ [])))
        ∷ (user_env, Method.create "b" [])
        ∷ (factory_env, Method.on_create "b.factory" 100 "carol")
        ∷ [])
      (record with_code { daos = [] }))
reachable-IsConsistent_example =
    reachable-IsConsistent sum_hash (λ name. true) (λ code. 50) factory_env (1 ∷ 2 ∷ [])
      ((factory_env, Method.store (some (3 ∷ [])))
        ∷ (user_env, Method.create "b" [])
        ∷ (factory_env, Method.on_create "b.factory" 100 "carol")
        ∷ [])
      (record with_code { daos = [] }) refl (refl, (refl, (refl, tt))) made_factory

not_owner : get_owner user_env with_code ≡ "carol" → ⊥
unfolding get_owner
not_owner e = cc

only_owner_example :
    (set_owner user_env "carol" host ≡ err must_be_owner)
    × (set_default_code_hash user_env 10 host ≡ err must_be_owner)
    × (store_contract_metadata user_env 10 info true host ≡ err must_be_owner)
    × (delete_contract_metadata user_env 10 host ≡ err must_be_owner)
    × (delete_contract user_env 10 host ≡ err must_be_owner)
    × (store (λ code. 50) user_env (some (3 ∷ [])) host ≡ err must_be_owner)
only_owner_example =
    only_owner user_env host not_owner "carol" 10 info true (λ code. 50) (some (3 ∷ []))

code_stored : Map.get with_code.codes 10 ≡ some (1 ∷ 2 ∷ [])
unfolding Map.get
code_stored = refl

create_lem_example :
    create (λ name. true) user_env "b" (9 ∷ []) host
    ≡ ok (
      tt,
      record host {
        promises =
            [] ++ creation user_env (append "b" (append "." "factory")) (1 ∷ 2 ∷ []) (9 ∷ []) ∷ [];
      },
    )
create_lem_example =
    create_lem (λ name. true) user_env "b" (9 ∷ []) (1 ∷ 2 ∷ []) 10 host refl code_stored refl
      (omega arith) (omega arith) (omega arith)

abbrev creating : Host SputnikDaoFactory
creating = record host {
  promises = [] ++ creation user_env (append "b" (append "." "factory")) (1 ∷ 2 ∷ []) (9 ∷ []) ∷ [];
}

created : create (λ name. true) user_env "b" (9 ∷ []) host ≡ ok (tt, creating)
created =
    create_lem (λ name. true) user_env "b" (9 ∷ []) (1 ∷ 2 ∷ []) 10 host refl code_stored refl
      (omega arith) (omega arith) (omega arith)

abbrev answer_env : Env
answer_env = record factory_env { attached_deposit = 0; promise_success = some true }

creation-Settles_example :
    (p : Promise) × (method : Method) × (answered : Host SputnikDaoFactory) × (creating
      ≡ record host { promises = [] ++ p ∷ [] })
    × (p.receiver_id ≡ append "b" (append "." "factory"))
    × (method_in p.callback ≡ some ("factory", method))
    × (dispatch (λ name. true) (λ code. 50) answer_env method host ≡ ok (tt, answered))
    × Settles (append "b" (append "." "factory")) "carol" 100 true host answered
creation-Settles_example =
    creation-Settles (λ name. true) (λ code. 50) user_env answer_env "b" (9 ∷ []) true host creating
      host created refl refl refl refl

abbrev without_code : Host SputnikDaoFactory
without_code = record { state = record with_code { codes = []; metadata = some [] }; promises = [] }

code_deleted : delete_contract factory_env 10 host ≡ ok (tt, without_code)
unfolding delete_contract delete_contract_metadata delete_code assert_owner get_owner ◌>>=◌
    Map.remove
code_deleted = refl

create_after_delete_example : IsPanic (create (λ name. true) user_env "b" [] without_code)
create_after_delete_example =
    create_after_delete (λ name. true) factory_env user_env 10 host without_code "b" [] refl
      code_deleted
