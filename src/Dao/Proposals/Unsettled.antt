-- ===== src/Dao/Proposals/Unsettled.antt =====
-- A proposal that reports a bounty done after its claim is gone: `act_proposal` of
-- sputnikdao2/src/proposals.rs, where `bounty_giveup` of bounties.rs took the claim meanwhile.
use sputnik_dao_contract.Base.{
  ℕ, ◌+◌, ◌≤◌, ◌<◌, ◌⊎◌, ◌≡◌, String, Bool, true, List, nat_key, string_key,
}
use sputnik_dao_contract.Map
use sputnik_dao_contract.Map.{Map}
use sputnik_dao_contract.Host.{Env, Host}
use sputnik_dao_contract.Dao.Types.{Action, add_proposal as adding, remove_proposal, move_to_hub}
use sputnik_dao_contract.Dao.Data.{
  Policy, ProposalKind, Proposal, ProposalStatus, expired, in_progress,
}
use sputnik_dao_contract.Dao.Contract.{Contract}
use sputnik_dao_contract.Dao.Proposals.Methods.{internal_user_info, remove_stored, store}
use sputnik_dao_contract.Dao.Policy.Permissions.{can_execute_action}
use sputnik_dao_contract.Dao.Proposals.Unclaimed.{IsUnclaimed}
use sputnik_dao_contract.Dao.Proposals.Expiry.{IsRecorded}
use sputnik_dao_contract.Dao.Proposals.Lifecycle.{is_vote}

-- The proposal is open up to the deadline, and Expired after it.
abbrev pub StaysOpen : Env → Policy → Proposal → ProposalStatus → Type 0
StaysOpen env policy proposal status =
    ((env.block_timestamp ≤ proposal.submission_time + policy.proposal_period)
      × (status ≡ in_progress))
    ⊎ ((proposal.submission_time + policy.proposal_period < env.block_timestamp)
        × (status ≡ expired))

-- What an action that returns can come to: the proposal is removed by RemoveProposal, nothing
-- changes by MoveToHub, or a vote is recorded in the stored proposal.
abbrev pub OnlyRecords :
    Env → Policy → ℕ → Action → Proposal → Host Contract → Host Contract → Type 0
OnlyRecords env policy id action proposal h h' =
    ((action ≡ remove_proposal) × (h' ≡ record h { state = remove_stored id h.state }))
    ⊎ ((action ≡ move_to_hub) × (h' ≡ h))
    ⊎ ((is_vote action ≡ true)
        × ((status : ProposalStatus) × (p : Proposal) × StaysOpen env policy proposal status
            × IsRecorded env policy action status proposal h.state p
            × (h' ≡ record h { state = store id p h.state })))

-- The proposal is to be stored, and nothing else has changed.
abbrev Unchanged : Host Contract → Bool × Host Contract → Type 0
Unchanged h out = out ≡ (true, h)

module _ (bounty_id : ℕ) (receiver : String) (env : Env) (policy : Policy) (id : ℕ)
    (h : Host Contract) (unclaimed : IsUnclaimed bounty_id receiver h.state) where
  module _ (proposal : Proposal)
      (reports : proposal.kind ≡ ProposalKind.bounty_done bounty_id receiver)
      (action : Action) where
    abbrev allowed_roles : List String
    allowed_roles =
        (can_execute_action env policy (internal_user_info env h.state) proposal.kind action).0
