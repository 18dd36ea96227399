-- ===== src/Dao/Bonds/Others.antt =====
-- The methods that leave the proposals, the claims and the locked amount alone: those of
-- sputnikdao2/src/delegation.rs and upgrade.rs, and the blobs of sputnikdao2/src/lib.rs.
use sputnik_dao_contract.Base.{
  ℕ, ◌≡◌, refl, sym, ◌∙◌, ap, subst, String, Option, none, some, List, [], ◌∷◌, nat_key, string_key,
  inl, inr, ◌==◌, arith,
}
use sputnik_dao_contract.Map.{Map}
use sputnik_dao_contract.Result.{ok, err_no_input}
use sputnik_dao_contract.Host.{
  Env, Host, PromiseResult, successful, not_ready, failed, expect, ◌>>=◌,
}
use sputnik_dao_contract.Host.Reads.{chain_ok, pure_ok, gets_then, require_then, expect_ok, if_ok}
use sputnik_dao_contract.Dao.Types.{FactoryInfo}
use sputnik_dao_contract.Dao.Data.{Proposal}
use sputnik_dao_contract.Dao.Contract.{Contract}
use sputnik_dao_contract.Dao.Delegation.{require_staking, register_delegation, delegate, undelegate}
use sputnik_dao_contract.Dao.Upgrade.{
  or_default_factory, internal_get_factory_info, callback_data, update, blob_cost, store_blob,
  remove_blob,
}
use sputnik_dao_contract.Dao.Proposals.Bonds.{modify_ok}
use sputnik_dao_contract.Dao.Bonds.Spending.{Spends, same_promises, same-Spends, chain-Spends}
use sputnik_dao_contract.Dao.Bonds.Execution.{
  schedule-Spends, factory_id_reads, remaining_gas_reads,
}

callback_data_reads :
    (results : List PromiseResult) (h : Host Contract) {out : List ℕ × Host Contract}
    → callback_data results h ≡ ok out
    → out.1 ≡ h
unfolding callback_data ◌>>=◌
callback_data_reads [] h e = cc
callback_data_reads (successful bytes ∷ rest) h e = cc
callback_data_reads (not_ready ∷ rest) h e = cc
callback_data_reads (failed ∷ rest) h e = cc

factory_info_reads :
    (env : Env) (o : Option FactoryInfo) (h : Host Contract) {out : FactoryInfo × Host Contract}
    → or_default_factory env o h ≡ ok out
    → out.1 ≡ h
unfolding or_default_factory
factory_info_reads env (some info) h e = ap (λ o. o.1) (pure_ok info h e)
factory_info_reads env none h e =
    let (account, h1, e1, r1) = chain_ok _ _ h e in
    ap (λ o. o.1) (pure_ok _ h1 r1) ∙ factory_id_reads env h e1

blob_cost_reads :
    (bound : ℕ) (env : Env) (n : ℕ) (h : Host Contract) {out : ℕ × Host Contract}
    → blob_cost bound env n h ≡ ok out
    → out.1 ≡ h
unfolding blob_cost ◌>>=◌
blob_cost_reads bound env n h e = ground arith

module _ (b k last : ℕ) (m : Map ℕ Proposal) (env : Env) (h : Host Contract) where
  pub register_delegation-Spends :
      (account : String) {h' : Host Contract}
      → register_delegation env account h ≡ ok (tt, h')
      → Spends b k last m 0 0 h h'
  unfolding register_delegation require_staking ◌>>=◌
  register_delegation-Spends account e = record {
    kept = ground arith;
    covered = ground arith;
    fresh = same_promises b k last m (ground arith);
  }

  pub delegate-Spends :
      (account : String) (amount : ℕ) {out : (ℕ × ℕ × ℕ) × Host Contract}
      → delegate env account amount h ≡ ok out
      → Spends b k last m 0 0 h out.1
  unfolding delegate require_staking ◌>>=◌
  delegate-Spends account amount e = record {
    kept = ground arith;
    covered = ground arith;
    fresh = same_promises b k last m (ground arith);
  }

  pub undelegate-Spends :
      (account : String) (amount : ℕ) {out : (ℕ × ℕ × ℕ) × Host Contract}
      → undelegate env account amount h ≡ ok out
      → Spends b k last m 0 0 h out.1
  unfolding undelegate require_staking ◌>>=◌
  undelegate-Spends account amount e = record {
    kept = ground arith;
    covered = ground arith;
    fresh = same_promises b k last m (ground arith);
  }

  pub store_blob-Spends :
      (input : Option (List ℕ)) {out : ℕ × Host Contract}
      → store_blob env input h ≡ ok out
      → Spends b k last m 0 0 h out.1
  unfolding store_blob blob_cost ◌>>=◌
  store_blob-Spends input e = record {
    kept = ground arith;
    covered = ground arith;
    fresh = same_promises b k last m (ground arith);
  }

  pub remove_blob-Spends :
      (hash : ℕ) {h' : Host Contract}
      → remove_blob env hash h ≡ ok (tt, h')
      → Spends b k last m 0 0 h h'
  unfolding remove_blob
  remove_blob-Spends hash e =
      let (account, h1, e1, r1) = chain_ok _ _ h (gets_then _ _ h e) in
      let r2 = gets_then _ _ h1 (require_then _ _ _ h1 r1).1 in
      let (blob, h2, e3, r3) = chain_ok _ _ h1 r2 in
      let (_, h3, e4, r4) = chain_ok _ _ h2 r3 in
      let (cost, h4, e5, r5) = chain_ok _ _ h3 r4 in
      let read : h2 ≡ h = (expect_ok _ _ h1 e3).1 ∙ (expect_ok _ _ h e1).1 in
      chain-Spends b k last m
        (subst (λ h0. Spends b k last m 0 0 h0 h4) read
          (subst (λ h0. Spends b k last m 0 0 h2 h0)
            (sym (blob_cost_reads _ env _ h3 e5 ∙ modify_ok _ h2 e4))
            (record { kept = refl; covered = omega arith; fresh = λ a. a })))
        (schedule-Spends b k last m _ h4 refl r5)

  pub update-Spends :
      (input : Option (List ℕ)) {h' : Host Contract}
      → update env input h ≡ ok (tt, h')
      → Spends b k last m 0 0 h h'
  unfolding update internal_get_factory_info
  update-Spends input e =
      let (info, h1, e1, r1) = chain_ok _ _ h e in
      let r2 = (require_then _ _ _ h1 r1).1 in
      let (bytes, h2, e2, r3) = chain_ok _ _ h1 r2 in
      let (gas, h3, e3, r4) = chain_ok _ _ h2 r3 in
      let read : h2 ≡ h1 =
        elim (if_ok (env.predecessor_account_id == env.current_account_id)
          (callback_data env.promise_results) (expect input err_no_input) h1 e2) [
            | inl own ↦ callback_data_reads env.promise_results h1 own
            | inr other ↦ (expect_ok input err_no_input h1 other).1
          ] in
      chain-Spends b k last m
        (same-Spends b k last m (
          remaining_gas_reads env _ h2 e3 ∙ read ∙ factory_info_reads env _ h (gets_then _ _ h e1)))
        (schedule-Spends b k last m _ h3 refl r4)
