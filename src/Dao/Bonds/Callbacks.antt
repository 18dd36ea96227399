-- ===== src/Dao/Bonds/Callbacks.antt =====
-- The callback of a proposal keeps the locked amount above what is owed: `on_proposal_callback` of
-- sputnikdao2/src/proposals.rs. It is no longer on the way when it runs.
use sputnik_dao_contract.Base.{
  ℕ, ◌+◌, ◌≤◌, ◌≡◌, sym, ◌∙◌, ap, subst, some, List, [], ◌∷◌, nat_key, string_key, arith,
}
use sputnik_dao_contract.Map
use sputnik_dao_contract.Map.{Map}
use sputnik_dao_contract.Result.{ok}
use sputnik_dao_contract.Host.{
  Env, Host, PromiseResult, successful, failed as promise_failed, not_ready, ◌>>=◌,
}
use sputnik_dao_contract.Host.Reads.{chain_ok, pure_ok}
use sputnik_dao_contract.Dao.Data.{ProposalKind, Proposal, approved, failed}
use sputnik_dao_contract.Dao.Contract.{Contract}
use sputnik_dao_contract.Dao.Proposals.Execution.{
  count_payout, internal_callback_proposal_success, internal_callback_proposal_fail,
}
use sputnik_dao_contract.Dao.Proposals.Methods.{store, on_result, answer}
use sputnik_dao_contract.Dao.Proposals.Adding.{get_policy_ok}
use sputnik_dao_contract.Dao.Proposals.Bonds.{modify_ok}
use sputnik_dao_contract.Dao.Bonds.{
  AllBelow, callbacks, open_bonds, bond_if_open, claim_bond, claim_bonds, callback_bonds,
  bonds_on_the_way,
}
use sputnik_dao_contract.Dao.Bonds.Sums.{open_bonds-insert, on_the_way-store}
use sputnik_dao_contract.Dao.Bonds.Spending.{
  Spends, same_promises, same-Spends, chain-Spends, weaken-Spends,
}
use sputnik_dao_contract.Dao.Bonds.Settling.{bonds-Spends}
use sputnik_dao_contract.Dao.Bonds.Balances.{AreBonds, owed_now}

module _ (b k last : ℕ) (m : Map ℕ Proposal) where
  count_payout-Spends :
      (kind : ProposalKind) (h : Host Contract) {out : Unit × Host Contract}
      → count_payout kind h ≡ ok out
      → Spends b k last m 0 0 h out.1
  unfolding count_payout ◌>>=◌
  count_payout-Spends kind h e = record {
    kept = ground arith;
    covered = ground arith;
    fresh = same_promises b k last m (ground arith);
  }

  success-Spends :
      (proposal : Proposal) (h : Host Contract) {out : Proposal × Host Contract}
      → AreBonds b k h.state
      → internal_callback_proposal_success proposal h ≡ ok out
      → (out.0 ≡ record proposal { status = approved })
        × Spends b k last m (b + claim_bond k proposal.kind) 0 h out.1
  unfolding internal_callback_proposal_success
  success-Spends proposal h bonds e =
      let (policy, h1, e1, r1) = chain_ok _ _ h e in
      let (_, h2, e2, r2) = chain_ok _ _ h1 r1 in
      let (bond, h3, e3, r3) = chain_ok _ _ h2 r2 in
      let (_, h4, e4, r4) = chain_ok _ _ h3 r3 in
      let (governed, same) = get_policy_ok h e1 in
      let (same_bond, same_bounty) = bonds policy governed in
      let returned = pure_ok _ h4 r4 in
      (
        ap (λ o. o.0) returned,
        subst (Spends b k last m (b + claim_bond k proposal.kind) 0 h)
            (sym (ap (λ o. o.1) returned))
            (weaken-Spends b k last m
              (chain-Spends b k last m (same-Spends b k last m same) (
                chain-Spends b k last m (count_payout-Spends proposal.kind h1 e2) (
                  bonds-Spends b k last m policy (record proposal { status = approved }) h2 h3 bond
                    same_bond same_bounty e3 e4)))
              (omega arith)),
      )

module _ (b k last : ℕ) (env : Env) (id : ℕ) (p : Proposal) (h : Host Contract)
    (bonds : AreBonds b k h.state) where
  -- What the answer spends and the bond of the proposal afterwards are within those of the callback.
  record Answered (out : Proposal × Host Contract) : Type 0 where
    same_kind : out.0.kind ≡ p.kind
    spent : ℕ
    within : spent + bond_if_open b (some out.0) ≤ b + claim_bond k p.kind
    spending : Spends b k last h.state.proposals spent 0 h out.1

  result-Answered :
      (results : List PromiseResult) {out : Proposal × Host Contract}
      → on_result results p h ≡ ok out
      → Answered out
  unfolding on_result internal_callback_proposal_fail ◌>>=◌
  result-Answered (successful bytes ∷ []) {out = out} e =
      let (one, s) = success-Spends b k last h.state.proposals p h bonds e in
      record {
        same_kind = ap (λ q. q.kind) one;
        spent = b + claim_bond k p.kind;
        within = omega (arith, ap (λ q. bond_if_open b (some q)) one);
        spending = s;
      }
  result-Answered (promise_failed ∷ []) e =
      let returned = pure_ok (record p { status = failed }) h e in
      record {
        same_kind = ap (λ o. o.0.kind) returned;
        spent = 0;
        within = omega (arith, ap (λ o. bond_if_open b (some o.0)) returned);
        spending = same-Spends b k last h.state.proposals (ap (λ o. o.1) returned);
      }
  result-Answered [] e = ground arith
  result-Answered (not_ready ∷ []) e = ground arith
  result-Answered (r ∷ s ∷ rs) e = ground arith

  -- The callback is not on the way any more when it runs.
  pub answered-Balances :
      (ids : List ℕ) {h' : Host Contract}
      → Map.get h.state.proposals id ≡ some p
      → answer env id p h ≡ ok (tt, h')
      → (owed_now b k last ids h' + h.state.locked_amount
          ≤ owed_now b k last (id ∷ ids) h + h'.state.locked_amount)
        × (AllBelow last (callbacks h.promises) → AllBelow last (callbacks h'.promises))
  unfolding answer bonds_on_the_way
  answered-Balances ids {h' = h'} found e =
      let (decided, h1, e1, r1) = chain_ok (on_result env.promise_results p) _ h e in
      let a = result-Answered env.promise_results e1 in
      let s = a.spending in
      let stored = modify_ok (store id decided) h1 r1 in
      let after = ap (λ h. h.state.proposals) stored ∙ ap (Map.insert id decided) s.kept in
      let promises = ap (λ h. h.promises) stored in
      (
        omega (
          arith,
          s.covered,
          a.within,
          ap (λ h. h.state.locked_amount) stored,
          ap (λ h. claim_bonds k h.state.bounty_claimers) stored,
          ap (open_bonds b) after,
          ap (bonds_on_the_way b k ids) after,
          ap (bonds_on_the_way b k (callbacks h'.promises)) after,
          ap (λ ps. bonds_on_the_way b k (callbacks ps) (Map.insert id decided h.state.proposals))
              promises,
          ap (callback_bonds b k) found,
          ap (bond_if_open b) found,
          open_bonds-insert b id decided h.state.proposals,
          on_the_way-store b k id p decided ids h.state.proposals found a.same_kind,
          on_the_way-store b k id p decided (callbacks h1.promises) h.state.proposals found
              a.same_kind,
        ),
        λ below. same_promises b k last h.state.proposals promises (s.fresh below),
      )
