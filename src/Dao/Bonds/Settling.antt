-- ===== src/Dao/Bonds/Settling.antt =====
-- The settlement of a proposal within that measure: the return of its bonds, its execution and its
-- rejection, of sputnikdao2/src/proposals.rs.
use sputnik_dao_contract.Base.{
  ℕ, ◌+◌, ◌<◌, ◌≡◌, refl, ap, Bool, true, false, some, [], ◌∷◌, nat_key, string_key, if◌then◌else◌,
  arith,
}
use sputnik_dao_contract.Map
use sputnik_dao_contract.Map.{Map}
use sputnik_dao_contract.Result.{ok}
use sputnik_dao_contract.Host.{
  Env, Host, Promise, PromiseOrValue, promise, value, pure, drop_promise, schedule, function_call,
  proposal_args, ◌>>=◌,
}
use sputnik_dao_contract.Host.Reads.{chain_ok, pure_ok}
use sputnik_dao_contract.Dao.Data.{Policy, ProposalKind, Proposal}
use sputnik_dao_contract.Dao.Contract.{Contract}
use sputnik_dao_contract.Dao.Types.{gas_for_ft_transfer}
use sputnik_dao_contract.Dao.Proposals.Execution.{
  return_bounty_bond, internal_return_bonds, finish_execution, internal_execute_proposal,
  reject_claim, internal_reject_proposal,
}
use sputnik_dao_contract.Dao.Bonds.{callbacks, callback_in, claim_bond, bonds_on_the_way}
use sputnik_dao_contract.Dao.Bonds.Sums.{callbacks-append, on_the_way-append}
use sputnik_dao_contract.Dao.Proposals.Bonds.{schedule_ok}
use sputnik_dao_contract.Dao.Bonds.Spending.{
  Spends, same_promises, added_call, chain-Spends, weaken-Spends, same-Spends,
}
use sputnik_dao_contract.Dao.Bonds.Execution.{
  payout_value, unlock-Spends, schedule-Spends, payout-Spends, execute_kind-Spends,
}

module _ (b k last : ℕ) (m : Map ℕ Proposal) where
  return_bounty_bond-Spends :
      (policy : Policy) (proposal : Proposal) (kind : ProposalKind) (h : Host Contract)
      {out : Unit × Host Contract}
      → policy.bounty_bond ≡ k
      → return_bounty_bond policy proposal kind h ≡ ok out
      → Spends b k last m (claim_bond k kind) 0 h out.1
  unfolding return_bounty_bond
  return_bounty_bond-Spends policy proposal (ProposalKind.bounty_done id receiver) h same e =
      let (_, h1, e1, r1) = chain_ok _ _ h e in
      weaken-Spends b k last m
        (chain-Spends b k last m (unlock-Spends b k last m policy.bounty_bond h e1)
          (schedule-Spends b k last m _ h1 refl r1))
        (omega arith)
  return_bounty_bond-Spends policy proposal _ h same e =
      same-Spends b k last m (ap (λ o. o.1) (pure_ok _ h e))

  -- The bonds of a proposal, with the transfer of its own bond.
  pub bonds-Spends :
      (policy : Policy) (proposal : Proposal) (h h1 : Host Contract) (bond : Promise)
      {out : Unit × Host Contract}
      → policy.proposal_bond ≡ b
      → policy.bounty_bond ≡ k
      → internal_return_bonds policy proposal h ≡ ok (bond, h1)
      → schedule bond h1 ≡ ok out
      → Spends b k last m (b + claim_bond k proposal.kind) 0 h out.1
  unfolding internal_return_bonds
  bonds-Spends policy proposal h h1 bond {out = out} same_bond same_bounty e s =
      let (_, h2, e1, r1) = chain_ok _ _ h e in
      let (_, h3, e2, r2) = chain_ok _ _ h2 r1 in
      let returned = pure_ok _ h3 r2 in
      let plain : callback_in bond.callback ≡ [] = ap (λ o. callback_in o.0.callback) returned in
      weaken-Spends b k last m
        (chain-Spends b k last m
          (return_bounty_bond-Spends policy proposal proposal.kind h same_bounty e1)
          (chain-Spends b k last m (unlock-Spends b k last m policy.proposal_bond h2 e2) (
            chain-Spends b k last m
              (same-Spends b k last m {h = h3} {h' = h1} (ap (λ o. o.1) returned))
              (schedule-Spends b k last m bond h1 plain s))))
        (omega arith)

  finish_execution-Spends :
      (env : Env) (policy : Policy) (proposal stored : Proposal) (id : ℕ) (r : PromiseOrValue)
      (h : Host Contract) {out : Unit × Host Contract}
      → policy.proposal_bond ≡ b
      → policy.bounty_bond ≡ k
      → id < last
      → Map.get m id ≡ some stored
      → stored.kind ≡ proposal.kind
      → finish_execution env policy proposal id r h ≡ ok out
      → Spends b k last m (b + claim_bond k proposal.kind) 0 h out.1
  unfolding finish_execution ◌>>=◌ callbacks bonds_on_the_way
  finish_execution-Spends env policy proposal stored id (promise p) h same_bond same_bounty lt found
        kind e =
      let q : Promise = record p {
        callback = some (
          env.current_account_id,
          function_call "on_proposal_callback" (proposal_args id) 0 gas_for_ft_transfer,
        );
      } in
      record {
        kept = ground arith;
        covered = ground (
          arith,
          callbacks-append h.promises (q ∷ []),
          on_the_way-append b k (callbacks h.promises) (id ∷ []) m,
          found,
          ap (claim_bond k) kind,
        );
        fresh = λ a.
            same_promises b k last m (ap (λ k. k.promises) (schedule_ok q h e))
              (added_call b k last m q h.promises (lt, tt) a);
      }
  finish_execution-Spends env policy proposal stored id value h same_bond same_bounty lt found kind
        e =
      let (bond, h1, e1, r1) = chain_ok (internal_return_bonds policy proposal) schedule h e in
      bonds-Spends policy proposal h h1 bond same_bond same_bounty e1 r1

  pub execute_proposal-Spends :
      (env : Env) (policy : Policy) (proposal stored : Proposal) (id : ℕ) (h : Host Contract)
      {out : Unit × Host Contract}
      → policy.proposal_bond ≡ b
      → policy.bounty_bond ≡ k
      → id < last
      → Map.get m id ≡ some stored
      → stored.kind ≡ proposal.kind
      → internal_execute_proposal env policy proposal id h ≡ ok out
      → Spends b k last m b 0 h out.1
  unfolding internal_execute_proposal
  execute_proposal-Spends env policy proposal stored id h same_bond same_bounty lt found kind e =
      let (r, h1, e1, r1) = chain_ok _ _ h e in
      weaken-Spends b k last m
        (chain-Spends b k last m
          (execute_kind-Spends b k last m env policy proposal proposal.kind h e1)
          (finish_execution-Spends env policy proposal stored id r h1 same_bond same_bounty lt found
            kind r1))
        (omega arith)

  reject_claim-Spends :
      (kind : ProposalKind) (h : Host Contract) {out : PromiseOrValue × Host Contract}
      → reject_claim kind h ≡ ok out
      → (out.0 ≡ value) × Spends b k last m 0 (claim_bond k kind) h out.1
  reject_claim-Spends (ProposalKind.bounty_done id receiver) h e =
      (payout_value id receiver h e, payout-Spends b k last m id receiver false h e)
  reject_claim-Spends _ h e =
      (ap (λ o. o.0) (pure_ok _ h e), same-Spends b k last m (ap (λ o. o.1) (pure_ok _ h e)))

  dropped_value :
      (r : PromiseOrValue) (h : Host Contract) {out : Unit × Host Contract}
      → r ≡ value
      → drop_promise r h ≡ ok out
      → out.1 ≡ h
  unfolding ◌>>=◌
  dropped_value value h v e = cc
  dropped_value (promise p) h v e = cc

  rejected-Spends :
      (proposal : Proposal) (h : Host Contract) {out : Unit × Host Contract}
      → ((reject_claim proposal.kind) >>= drop_promise) h ≡ ok out
      → Spends b k last m 0 (claim_bond k proposal.kind) h out.1
  rejected-Spends proposal h e =
      let (r, h1, e1, r1) = chain_ok _ _ h e in
      let (nothing, s) = reject_claim-Spends proposal.kind h e1 in
      weaken-Spends b k last m
        (chain-Spends b k last m s (same-Spends b k last m (dropped_value r h1 nothing r1)))
        (omega arith)

  pub reject_proposal-Spends :
      (policy : Policy) (proposal : Proposal) (return_bonds : Bool) (h : Host Contract)
      {out : Unit × Host Contract}
      → policy.proposal_bond ≡ b
      → policy.bounty_bond ≡ k
      → internal_reject_proposal policy proposal return_bonds h ≡ ok out
      → Spends b k last m (if return_bonds then b else 0) 0 h out.1
  unfolding internal_reject_proposal
  reject_proposal-Spends policy proposal true h same_bond same_bounty e =
      let (_, h1, e1, r1) = chain_ok (internal_return_bonds policy proposal >>= schedule) _ h e in
      let (bond, h2, e2, r2) = chain_ok _ _ h e1 in
      weaken-Spends b k last m
        (chain-Spends b k last m
          (bonds-Spends policy proposal h h2 bond same_bond same_bounty e2 r2)
          (rejected-Spends proposal h1 r1))
        (omega arith)
  reject_proposal-Spends policy proposal false h same_bond same_bounty e =
      let (_, h1, e1, r1) = chain_ok (pure tt) _ h e in
      weaken-Spends b k last m
        (chain-Spends b k last m (same-Spends b k last m (ap (λ o. o.1) (pure_ok _ h e1)))
          (rejected-Spends proposal h1 r1))
        (omega arith)
