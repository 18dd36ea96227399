-- ===== src/Dao/Bonds/Dispatching.antt =====
-- Every entry point of the contract keeps the comparison: `dispatch`, of the methods of
-- sputnikdao2/src/lib.rs and the files beside it.
use sputnik_dao_contract.Base.{ℕ, ◌≡◌, sym, ◌∙◌, ap, List, [], nat_key, string_key, arith}
use sputnik_dao_contract.Result.{Result, ok}
use sputnik_dao_contract.Host.{Env, Host, ◌>>=◌}
use sputnik_dao_contract.Host.Reads.{chain_ok, pure_ok, require_then}
use sputnik_dao_contract.Dao.Contract.{Contract}
use sputnik_dao_contract.Dao.Calls.{
  Method, on_proposal_callback as answering, assert_private, assert_no_deposit, dispatch, execute,
}
use sputnik_dao_contract.Dao.Calls
use sputnik_dao_contract.Dao.Proposals.Methods.{on_result, answer, on_proposal_callback}
use sputnik_dao_contract.Dao.Invariant.Reachable.{IsBackedSound}
use sputnik_dao_contract.Dao.Bonds.{AllBelow, callbacks}
use sputnik_dao_contract.Dao.Bonds.Balances.{AreBonds, Balances, kept-Balances}
use sputnik_dao_contract.Dao.Bonds.Acting.{act_proposal-Balances}
use sputnik_dao_contract.Dao.Bonds.Methods.{
  add_proposal-Balances, bounty_claim-Balances, bounty_done-Balances, bounty_giveup-Balances,
}
use sputnik_dao_contract.Dao.Bonds.Others.{
  register_delegation-Spends, delegate-Spends, undelegate-Spends, store_blob-Spends,
  remove_blob-Spends, update-Spends,
}
use sputnik_dao_contract.Dao.Bonds.Runs.{start, IsDirect}

done_ok :
    {A : Type 0} (m : Host Contract → Result (A × Host Contract)) (h : Host Contract)
    {h' : Host Contract}
    → Calls.done m h ≡ ok (tt, h')
    → (a : A) × (m h ≡ ok (a, h'))
done_ok m h {h' = h'} e =
    let (a, h1, e1, r1) = chain_ok m _ h e in
    (a, e1 ∙ ap (λ o. ok (a, o.1)) (sym (pure_ok tt h1 r1)))

-- The callback panics where it is called directly.
no_direct_callback :
    (env : Env) (id : ℕ) (h : Host Contract) {out : Unit × Host Contract}
    → env.promise_results ≡ []
    → on_proposal_callback env id h ≡ ok out
    → ⊥
unfolding on_proposal_callback answer on_result ◌>>=◌
no_direct_callback env id h none_yet e = ground (arith, none_yet)

module _ (b k : ℕ) (ids : List ℕ) (env : Env) (c : Contract) (bonds : AreBonds b k c)
    (sound : IsBackedSound 0 c) (old : AllBelow c.last_proposal_id ids) where
  abbrev Fair : Host Contract → Type 0
  Fair h' = Balances b k c.last_proposal_id ids (start c) h'

  pub dispatch-Balances :
      (method : Method) {h' : Host Contract}
      → IsDirect env method
      → dispatch env method (start c) ≡ ok (tt, h')
      → Fair h'
  unfolding dispatch assert_private assert_no_deposit callbacks
  dispatch-Balances (Calls.add_proposal input) direct e =
      let (id, e1) = done_ok _ (start c) e in
      (add_proposal-Balances b k ids env (start c) bonds old tt input e1).1
  dispatch-Balances (Calls.act_proposal id action memo) direct e =
      let e1 = (require_then _ _ _ (start c) e).1 in
      act_proposal-Balances b k c.last_proposal_id ids env (start c) bonds id action memo
        (λ p found. sound.proposals.below id p found) e1
  dispatch-Balances (answering id) direct e =
      let e1 = (require_then _ _ _ (start c) e).1 in
      let (own, e2) = require_then _ _ _ (start c) e1 in
      elim (no_direct_callback env id (start c) (direct own) e2) [ ]
  dispatch-Balances (Calls.bounty_claim id deadline) direct e =
      bounty_claim-Balances b k ids env (start c) bonds old tt id deadline e
  dispatch-Balances (Calls.bounty_done id account description) direct e =
      bounty_done-Balances b k ids env (start c) bonds old tt id account description e
  dispatch-Balances (Calls.bounty_giveup id) direct e =
      bounty_giveup-Balances b k ids env (start c) bonds old tt id
        (require_then _ _ _ (start c) e).1
  dispatch-Balances (Calls.register_delegation account) direct e =
      kept-Balances b k c.last_proposal_id ids
        (register_delegation-Spends b k c.last_proposal_id c.proposals env (start c) account e)
  dispatch-Balances (Calls.delegate account amount) direct e =
      let (out, e1) = done_ok _ (start c) (require_then _ _ _ (start c) e).1 in
      kept-Balances b k c.last_proposal_id ids
        (delegate-Spends b k c.last_proposal_id c.proposals env (start c) account amount e1)
  dispatch-Balances (Calls.undelegate account amount) direct e =
      let (out, e1) = done_ok _ (start c) (require_then _ _ _ (start c) e).1 in
      kept-Balances b k c.last_proposal_id ids
        (undelegate-Spends b k c.last_proposal_id c.proposals env (start c) account amount e1)
  dispatch-Balances (Calls.remove_blob hash) direct e = kept-Balances b k c.last_proposal_id ids (
      remove_blob-Spends b k c.last_proposal_id c.proposals env (start c) hash
        (require_then _ _ _ (start c) e).1)
  dispatch-Balances (Calls.store_blob input) direct e =
      let (out, e1) = done_ok _ (start c) e in
      kept-Balances b k c.last_proposal_id ids
        (store_blob-Spends b k c.last_proposal_id c.proposals env (start c) input e1)
  dispatch-Balances (Calls.update input) direct e =
      kept-Balances b k c.last_proposal_id ids
        (update-Spends b k c.last_proposal_id c.proposals env (start c) input e)
