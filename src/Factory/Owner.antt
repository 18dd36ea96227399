-- ===== src/Factory/Owner.antt =====
-- What only the owner of the factory may do: `assert_owner` of sputnikdao-factory2/src/lib.rs.
use sputnik_dao_contract.Base.{ℕ, ◌≡◌, ◌≢◌, refl, String, Bool, Option, List, string_key, beq_ne}
use sputnik_dao_contract.Result.{err, must_be_owner}
use sputnik_dao_contract.Host.{Env, Host, ◌>>=◌}
use sputnik_dao_contract.Host.Reads.{chain_err}
use sputnik_dao_contract.Factory.Data.{SputnikDaoFactory, DaoContractMetadata}
use sputnik_dao_contract.Factory.Methods.{
  get_owner, assert_owner, set_owner, set_default_code_hash, store_contract_metadata,
  delete_contract_metadata, delete_contract, store,
}

module _ (env : Env) (h : Host SputnikDaoFactory)
    (other : get_owner env h.state ≢ env.predecessor_account_id) where
  assert_owner_refuses : assert_owner env h ≡ err must_be_owner
  unfolding assert_owner ◌>>=◌
  assert_owner_refuses = rw (beq_ne (get_owner env h.state) env.predecessor_account_id other) refl

  -- For a caller that is not the owner of the factory, set_owner, set_default_code_hash,
  -- store_contract_metadata, delete_contract_metadata, delete_contract and store all panic with
  -- `Must be owner`.
  pub only_owner :
      (account : String) (hash : ℕ) (metadata : DaoContractMetadata) (as_default : Bool)
      (growth : List ℕ → ℕ) (input : Option (List ℕ))
      → (set_owner env account h ≡ err must_be_owner)
        × (set_default_code_hash env hash h ≡ err must_be_owner)
        × (store_contract_metadata env hash metadata as_default h ≡ err must_be_owner)
        × (delete_contract_metadata env hash h ≡ err must_be_owner)
        × (delete_contract env hash h ≡ err must_be_owner)
        × (store growth env input h ≡ err must_be_owner)
  unfolding set_owner set_default_code_hash store_contract_metadata delete_contract_metadata
      delete_contract store
  only_owner account hash metadata as_default growth input = (
    chain_err _ _ h assert_owner_refuses,
    chain_err _ _ h assert_owner_refuses,
    chain_err _ _ h assert_owner_refuses,
    chain_err _ _ h assert_owner_refuses,
    chain_err _ _ h assert_owner_refuses,
    chain_err _ _ h assert_owner_refuses,
  )
