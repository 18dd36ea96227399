-- ===== src/Factory/Invariant.antt =====
-- What every call of the factory keeps.
use sputnik_dao_contract.Base.{
  ℕ, ◌≡◌, sym, subst, String, Bool, Option, some, List, [], ◌∷◌, nat_key, string_key,
}
use sputnik_dao_contract.Map
use sputnik_dao_contract.Map.{Map, get-insert, get-remove}
use sputnik_dao_contract.Result.{Result, ok, err}
use sputnik_dao_contract.Host.{Env, Host, CallArgs, modify}
use sputnik_dao_contract.Host.Keeps.{Keeps, Keeps-modify, keeps_rules, After}
use sputnik_dao_contract.Factory.Data.{SputnikDaoFactory, DaoContractMetadata, empty_factory}
use sputnik_dao_contract.Factory.Manager.{
  store_contract, delete_code, update_contract, create_contract, code_cost, gas_without,
}
use sputnik_dao_contract.Factory.Methods.{
  or_new, set_owner, set_default, set_default_code_hash, store_contract_metadata,
  delete_contract_metadata, delete_contract, internal_store_initial_contract, create, on_create,
  add_dao, update, store_contract_self, remove_contract_self, on_remove_contract_self, state_of,
  get_default_code_hash, store, new, assert_owner, require_code,
}
use sputnik_dao_contract.Factory.Calls.{
  Method, dispatch, assert_private, assert_no_deposit, execute, run,
}
use sputnik_dao_contract.Factory.Consistency.{
  AreCodes, IsConsistent, add_dao-HasNoRepeats, insert-AreCodes, remove-AreCodes,
}

module _ (hash : List ℕ → ℕ) where
  module _ (env : Env) (same : env.sha256 ≡ hash) where
    put-IsConsistent :
        (code : List ℕ)
        → Keeps
            (IsConsistent hash)
            (modify (λ f. record f { codes = Map.insert (env.sha256 code) code f.codes }))
    put-IsConsistent code = Keeps-modify _ (λ f c. record {
      daos = c.daos;
      codes =
          subst (λ h. AreCodes hash (Map.insert (h code) code f.codes)) (sym same)
            (insert-AreCodes hash code f.codes c.codes);
    })

    drop-IsConsistent : (k : ℕ) → Keeps (IsConsistent hash) (delete_code k)
    unfolding delete_code
    drop-IsConsistent k =
        Keeps-modify _
          (λ f c. record { daos = c.daos; codes = remove-AreCodes hash k f.codes c.codes })

    list-IsConsistent :
        (a : String)
        → Keeps (IsConsistent hash) (modify (λ f. record f { daos = add_dao a f.daos }))
    list-IsConsistent a =
        Keeps-modify _
          (λ f c. record { daos = add_dao-HasNoRepeats a f.daos c.daos; codes = c.codes })

    owner-IsConsistent :
        (a : String) → Keeps (IsConsistent hash) (modify (λ f. record f { owner = some a }))
    owner-IsConsistent a = Keeps-modify _ (λ f c. record { daos = c.daos; codes = c.codes })

    set_default-IsConsistent : (k : ℕ) → Keeps (IsConsistent hash) (set_default k)
    unfolding set_default
    set_default-IsConsistent k = Keeps-modify _ (λ f c. record { daos = c.daos; codes = c.codes })

    metadata-IsConsistent :
        (k : ℕ) (metadata : DaoContractMetadata)
        → Keeps
            (IsConsistent hash)
            (modify (λ f. record f { metadata = some (Map.insert k metadata (or_new f.metadata)) }))
    metadata-IsConsistent k metadata =
        Keeps-modify _ (λ f c. record { daos = c.daos; codes = c.codes })

    keep_metadata-IsConsistent :
        (metadata : Map ℕ DaoContractMetadata)
        → Keeps (IsConsistent hash) (modify (λ f. record f { metadata = some metadata }))
    keep_metadata-IsConsistent metadata =
        Keeps-modify _ (λ f c. record { daos = c.daos; codes = c.codes })

    store_contract_metadata-IsConsistent :
        (k : ℕ) (metadata : DaoContractMetadata) (b : Bool)
        → Keeps (IsConsistent hash) (store_contract_metadata env k metadata b)
    unfolding store_contract_metadata assert_owner require_code
    store_contract_metadata-IsConsistent k metadata b =
        search (keeps_rules, metadata-IsConsistent, set_default-IsConsistent) depth 14

    delete_contract_metadata-IsConsistent :
        (k : ℕ) → Keeps (IsConsistent hash) (delete_contract_metadata env k)
    unfolding delete_contract_metadata assert_owner
    delete_contract_metadata-IsConsistent k =
        search (keeps_rules, keep_metadata-IsConsistent) depth 12

    store-IsConsistent :
        (growth : List ℕ → ℕ) (input : Option (List ℕ))
        → Keeps (IsConsistent hash) (store growth env input)
    unfolding store store_contract assert_owner
    store-IsConsistent growth input = search (keeps_rules, put-IsConsistent) depth 16

    update_contract-IsConsistent :
        (a : String) (k : ℕ) (m : String) → Keeps (IsConsistent hash) (update_contract env a k m)
    unfolding update_contract gas_without
    update_contract-IsConsistent a k m = search keeps_rules depth 14

    create_contract-IsConsistent :
        (k : ℕ) (a m : String) (args : CallArgs) (cb : String) (cb_args : CallArgs)
        → Keeps (IsConsistent hash) (create_contract env k a m args cb cb_args)
    unfolding create_contract code_cost
    create_contract-IsConsistent k a m args cb cb_args = search keeps_rules depth 16

    store_contract_self-IsConsistent :
        (k : ℕ) → Keeps (IsConsistent hash) (store_contract_self env k)
    unfolding store_contract_self require_code code_cost gas_without
    store_contract_self-IsConsistent k = search keeps_rules depth 22

    on_remove-IsConsistent :
        (a : String) (k : ℕ) → Keeps (IsConsistent hash) (on_remove_contract_self env a k)
    unfolding on_remove_contract_self code_cost
    on_remove-IsConsistent a k = search keeps_rules depth 16

    dispatch-IsConsistent :
        (is_account_id : String → Bool) (growth : List ℕ → ℕ) (method : Method)
        → Keeps (IsConsistent hash) (dispatch is_account_id growth env method)
    unfolding dispatch set_owner set_default_code_hash delete_contract create on_create update
        remove_contract_self assert_owner require_code assert_private assert_no_deposit
        get_default_code_hash
    dispatch-IsConsistent v g (Method.set_owner a) = search (keeps_rules, owner-IsConsistent)
    dispatch-IsConsistent v g (Method.set_default_code_hash k) =
        search (keeps_rules, set_default-IsConsistent)
    dispatch-IsConsistent v g (Method.delete_contract k) =
        search (keeps_rules, drop-IsConsistent, delete_contract_metadata-IsConsistent)
    dispatch-IsConsistent v g (Method.delete_contract_metadata k) =
        delete_contract_metadata-IsConsistent k
    dispatch-IsConsistent v g (Method.store_contract_self k) = store_contract_self-IsConsistent k
    dispatch-IsConsistent v g (Method.remove_contract_self k) = search keeps_rules
    dispatch-IsConsistent v g (Method.create name args) =
        search (keeps_rules, create_contract-IsConsistent)
    dispatch-IsConsistent v g (Method.on_create a n p) =
        search (keeps_rules, list-IsConsistent) depth 14
    dispatch-IsConsistent v g (Method.update a k) =
        search (keeps_rules, update_contract-IsConsistent)
    dispatch-IsConsistent v g (Method.on_remove_contract_self a k) =
        search (keeps_rules, on_remove-IsConsistent)
    dispatch-IsConsistent v g (Method.store_contract_metadata k m b) =
        store_contract_metadata-IsConsistent k m b
    dispatch-IsConsistent v g (Method.store input) = search (keeps_rules, store-IsConsistent)

  initial-IsConsistent :
      (env : Env)
      → env.sha256 ≡ hash
      → (code : List ℕ) → Keeps (IsConsistent hash) (internal_store_initial_contract env code)
  unfolding internal_store_initial_contract assert_owner
  initial-IsConsistent env same code =
      search (keeps_rules, put-IsConsistent env same, store_contract_metadata-IsConsistent env same)

  empty-IsConsistent : IsConsistent hash empty_factory
  unfolding Map.get
  empty-IsConsistent = record { daos = tt; codes = record { hashed = λ k c e. cc } }

  state_of-IsConsistent :
      (r : Result (Unit × Host SputnikDaoFactory)) {f : SputnikDaoFactory}
      → After (IsConsistent hash) r
      → state_of r ≡ ok f
      → IsConsistent hash f
  state_of-IsConsistent (ok (a, h)) p e = subst (IsConsistent hash) (cc) p
  state_of-IsConsistent (err c) p e = cc

  new-IsConsistent :
      (env : Env)
      → env.sha256 ≡ hash
      → (code : List ℕ) {f : SputnikDaoFactory} → new env code ≡ ok f
      → IsConsistent hash f
  unfolding new
  new-IsConsistent env same code e =
      state_of-IsConsistent _ ((initial-IsConsistent env same code).at _ empty-IsConsistent) e

  -- All the calls run under the host's one hash.
  abbrev pub ShareHash : List (Env × Method) → Type 0
  ShareHash [] = Unit
  ShareHash ((env, method) ∷ calls) = (env.sha256 ≡ hash) × ShareHash calls

  module _ (is_account_id : String → Bool) (growth : List ℕ → ℕ) where
    state-After :
        (f : SputnikDaoFactory) (r : Result (Unit × Host SputnikDaoFactory))
        → IsConsistent hash f
        → After (IsConsistent hash) r
        → IsConsistent hash (elim r [ err code ↦ f | ok (result, h) ↦ h.state ])
    state-After f (ok (a, h)) s p = p
    state-After f (err c) s p = s

    run-IsConsistent :
        (calls : List (Env × Method)) (f : SputnikDaoFactory)
        → ShareHash calls
        → IsConsistent hash f
        → IsConsistent hash (run is_account_id growth calls f)
    unfolding run execute
    run-IsConsistent [] f s c = c
    run-IsConsistent ((env, method) ∷ calls) f (same, s) c = run-IsConsistent calls _ s (
        state-After f _ c (
          (dispatch-IsConsistent env same is_account_id growth method).at
            (record { state = f; promises = [] }) c))

    -- After any calls on a new factory, by any accounts and also where some of them panic, where
    -- all of them run under one hash function, no DAO is listed twice and every stored code stands
    -- under its hash.
    pub reachable-IsConsistent :
        (env : Env) (initial_code : List ℕ) (calls : List (Env × Method)) (f : SputnikDaoFactory)
        → env.sha256 ≡ hash
        → ShareHash calls
        → new env initial_code ≡ ok f
        → IsConsistent hash (run is_account_id growth calls f)
    reachable-IsConsistent env initial_code calls f same s made =
        run-IsConsistent calls f s (new-IsConsistent env same initial_code made)
