-- ===== src/Dao/Proposals/Refund.antt =====
-- The way back of a bond: Finalize of a proposal past its deadline, in `act_proposal` of
-- sputnikdao2/src/proposals.rs.
use sputnik_dao_contract.Base.{
  ℕ, ◌+◌, ◌-◌, ◌≤◌, ◌<◌, ◌≡◌, refl, ◌∙◌, true, String, Option, some, [], ◌∷◌, ◌++◌, map, nat_key,
  string_key, arith,
}
use sputnik_dao_contract.Map
use sputnik_dao_contract.Result.{ok, u64_mod}
use sputnik_dao_contract.Host.{Env, Host, value, transfer_to, ◌>>=◌}
use sputnik_dao_contract.Dao.Types.{finalize}
use sputnik_dao_contract.Dao.Data.{Policy, ProposalKind, Proposal, expired}
use sputnik_dao_contract.Dao.Contract.{Contract, get_policy}
use sputnik_dao_contract.Dao.Policy.Roles.{to_policy}
use sputnik_dao_contract.Dao.Policy.Status.{proposal_status, is_open}
use sputnik_dao_contract.Dao.Policy.Permissions.{can_execute_action}
use sputnik_dao_contract.Dao.Proposals.Execution.{
  unlock, return_bounty_bond, internal_return_bonds, reject_claim, internal_reject_proposal,
}
use sputnik_dao_contract.Dao.Proposals.Methods.{
  internal_user_info, finalize_proposal, after_finalize, act, act_on, act_proposal, store,
}
use sputnik_dao_contract.Dao.Proposals.Adding.{Governs}
use sputnik_dao_contract.Dao.Proposals.Lifecycle.{act_proposal_eq}
use sputnik_dao_contract.Dao.Policy.Decision.{proposal_status-expired}

-- The proposal does not report a bounty done.
abbrev pub HasNoClaim : ProposalKind → Type 0
HasNoClaim (ProposalKind.bounty_done id receiver) = ⊥
HasNoClaim _ = Unit

pub no_bounty_bond :
    (policy : Policy) (proposal : Proposal) (kind : ProposalKind) (h : Host Contract)
    → HasNoClaim kind
    → return_bounty_bond policy proposal kind h ≡ ok (tt, h)
unfolding return_bounty_bond ◌>>=◌
no_bounty_bond policy proposal (ProposalKind.bounty_done id receiver) h plain = elim plain [ ]
no_bounty_bond policy proposal _ h plain = refl

no_claim :
    (kind : ProposalKind) (h : Host Contract)
    → HasNoClaim kind
    → reject_claim kind h ≡ ok (value, h)
unfolding ◌>>=◌
no_claim (ProposalKind.bounty_done id receiver) h plain = elim plain [ ]
no_claim _ h plain = refl

abbrev pub refunded : Policy → Proposal → Host Contract → Host Contract
refunded policy proposal h = record {
  state = record h.state { locked_amount = h.state.locked_amount - policy.proposal_bond };
  promises = h.promises ++ transfer_to proposal.proposer policy.proposal_bond ∷ [];
}

reject_refunds :
    (policy : Policy) (proposal : Proposal) (h : Host Contract)
    → HasNoClaim proposal.kind
    → policy.proposal_bond ≤ h.state.locked_amount
    → internal_reject_proposal policy proposal true h ≡ ok (tt, refunded policy proposal h)
unfolding internal_reject_proposal internal_return_bonds unlock ◌>>=◌
reject_refunds policy proposal h plain covered = ground (
  arith,
  no_bounty_bond policy proposal proposal.kind h plain,
  no_claim proposal.kind (refunded policy proposal h) plain,
)

-- Finalize of a stored proposal that is open, past a deadline that fits in 64 bits and not a report
-- of a done bounty returns, where the caller may finalize it and the locked amount covers the
-- policy's bond: the proposal is stored as Expired, the bond comes off the locked amount, and it is
-- sent to the proposer.
pub finalize_refunds :
    (env : Env) (id : ℕ) (memo : Option String) (policy : Policy) (proposal : Proposal)
    (h : Host Contract)
    → Map.get h.state.proposals id ≡ some proposal
    → Governs policy h.state
    → (can_execute_action env policy (internal_user_info env h.state) proposal.kind finalize).1
      ≡ true
    → is_open proposal.status ≡ true
    → proposal.submission_time + policy.proposal_period < u64_mod
    → proposal.submission_time + policy.proposal_period < env.block_timestamp
    → HasNoClaim proposal.kind
    → policy.proposal_bond ≤ h.state.locked_amount
    → act_proposal env id finalize memo h
      ≡ ok (
        tt,
        record {
          state =
              store id
                (record proposal { status = expired })
                (record h.state { locked_amount = h.state.locked_amount - policy.proposal_bond });
          promises = h.promises ++ transfer_to proposal.proposer policy.proposal_bond ∷ [];
        },
      )
unfolding act_on get_policy to_policy act finalize_proposal after_finalize ◌>>=◌
finalize_refunds env id memo policy proposal h found governed allowed still_open fits late plain
      covered =
    let status : proposal_status env policy proposal (map (λ r. r.name) policy.roles)
          h.state.total_delegation_amount
        ≡ ok expired =
      proposal_status-expired policy proposal h.state.total_delegation_amount env
        (map (λ r. r.name) policy.roles) still_open fits late in
    let refund = reject_refunds policy (record proposal { status = expired }) h plain covered in
    act_proposal_eq env id finalize memo h proposal found
    ∙ ground (arith, governed, allowed, status, refund)
