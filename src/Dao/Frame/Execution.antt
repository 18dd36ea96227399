-- ===== src/Dao/Frame/Execution.antt =====
-- The execution, the rejection and the callbacks of proposals, framed.
use sputnik_dao_contract.Base.{ℕ, ◌≡◌, refl, nat_key, [], ◌∷◌, List, Bool, true, false}
use sputnik_dao_contract.Host.{
  Env, promise, value, PromiseOrValue, PromiseResult, successful, not_ready,
  failed as promise_failed,
}
use sputnik_dao_contract.Host.Keeps.{Keeps, Keeps-schedule, keeps_rules}
use sputnik_dao_contract.Host.Ensures.{Ensures, Ensures-pure, Ensures-bind, Ensures-panic}
use sputnik_dao_contract.Dao.Data.{Policy, ProposalKind, Proposal}
use sputnik_dao_contract.Dao.Upgrade.{internal_set_factory_info}
use sputnik_dao_contract.Dao.Contract.{Contract}
use sputnik_dao_contract.Dao.Proposals.Execution.{
  execute_kind, finish_execution, internal_execute_proposal, reject_claim, internal_reject_proposal,
  internal_callback_proposal_success, internal_callback_proposal_fail,
}
use sputnik_dao_contract.Dao.Proposals.Methods.{on_result}
use sputnik_dao_contract.Dao.Frame.{
  HasCurrentPolicy, Frame, get_policy-Keeps, internal_return_bonds-Keeps,
  internal_execute_bounty_payout-Keeps, upgrade_using_factory-Keeps, upgrade_remote-Keeps,
}

module _ {P : Contract → Type 0} (frame : Frame P) where
  execute_kind-Keeps :
      (env : Env) (policy : Policy) (proposal : Proposal) (kind : ProposalKind)
      → HasCurrentPolicy kind
      → Keeps P (execute_kind env policy proposal kind)
  unfolding execute_kind internal_set_factory_info
  execute_kind-Keeps env policy proposal (ProposalKind.change_policy p) k =
      search (keeps_rules, frame.config, frame.staking, frame.factory, frame.policy)
  execute_kind-Keeps env policy proposal (ProposalKind.upgrade_self hash) k =
      search (keeps_rules, upgrade_using_factory-Keeps frame)
  execute_kind-Keeps env policy proposal (ProposalKind.upgrade_remote receiver name hash) k =
      search (keeps_rules, upgrade_remote-Keeps frame)
  execute_kind-Keeps env policy proposal (ProposalKind.add_bounty bounty) k =
      search (keeps_rules, frame.bounty)
  execute_kind-Keeps env policy proposal (ProposalKind.bounty_done id receiver) k =
      internal_execute_bounty_payout-Keeps frame id receiver true
  execute_kind-Keeps env policy proposal _ k =
      search (keeps_rules, frame.config, frame.staking, frame.factory, frame.policy)

  finish_execution-Keeps :
      (env : Env) (policy : Policy) (proposal : Proposal) (id : ℕ) (r : PromiseOrValue)
      → Keeps P (finish_execution env policy proposal id r)
  unfolding finish_execution
  finish_execution-Keeps env policy proposal id (promise p) = search keeps_rules
  finish_execution-Keeps env policy proposal id value =
      search (keeps_rules, internal_return_bonds-Keeps frame)

  pub internal_execute_proposal-Keeps :
      (env : Env) (policy : Policy) (proposal : Proposal) (id : ℕ)
      → HasCurrentPolicy proposal.kind
      → Keeps P (internal_execute_proposal env policy proposal id)
  unfolding internal_execute_proposal
  internal_execute_proposal-Keeps env policy proposal id k =
      search (keeps_rules, execute_kind-Keeps, finish_execution-Keeps)

  reject_claim-Keeps : (kind : ProposalKind) → Keeps P (reject_claim kind)
  reject_claim-Keeps (ProposalKind.bounty_done id receiver) =
      internal_execute_bounty_payout-Keeps frame id receiver false
  reject_claim-Keeps _ = search keeps_rules

  pub internal_reject_proposal-Keeps :
      (policy : Policy) (proposal : Proposal) (return_bonds : Bool)
      → Keeps P (internal_reject_proposal policy proposal return_bonds)
  unfolding internal_reject_proposal
  internal_reject_proposal-Keeps policy proposal true =
      search (keeps_rules, internal_return_bonds-Keeps frame, reject_claim-Keeps)
  internal_reject_proposal-Keeps policy proposal false = search (keeps_rules, reject_claim-Keeps)

  -- The callbacks answer with a proposal of the same kind.
  pub callback_success-Keeps :
      (proposal : Proposal)
      → Ensures P (λ p. p.kind ≡ proposal.kind) (internal_callback_proposal_success proposal)
  unfolding internal_callback_proposal_success
  callback_success-Keeps proposal = Ensures-bind _ _ _ _ (get_policy-Keeps frame) λ policy.
      Ensures-bind _ _ _ _ (frame.payout proposal.kind) λ _.
        Ensures-bind _ _ _ _ (internal_return_bonds-Keeps frame policy _)
          λ bond. Ensures-bind _ _ _ _ (Keeps-schedule bond) λ _. Ensures-pure _ _ _ refl

  pub on_result-Keeps :
      (results : List PromiseResult) (proposal : Proposal)
      → Ensures P (λ p. p.kind ≡ proposal.kind) (on_result results proposal)
  unfolding on_result internal_callback_proposal_fail
  on_result-Keeps (successful bytes ∷ []) proposal = callback_success-Keeps proposal
  on_result-Keeps (promise_failed ∷ []) proposal = Ensures-pure _ _ _ refl
  on_result-Keeps (not_ready ∷ []) proposal = Ensures-panic _ _ _
  on_result-Keeps _ proposal = Ensures-panic _ _ _
