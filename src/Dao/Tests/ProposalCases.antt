-- ===== src/Dao/Tests/ProposalCases.antt =====
-- The theorems on proposals, at a contract with one proposal.
use sputnik_dao_contract.Base.{
  ◌+◌, ◌≡◌, refl, true, none, some, [], ◌∷◌, ◌++◌, nat_key, string_key, arith,
}
use sputnik_dao_contract.Map
use sputnik_dao_contract.Result.{ok}
use sputnik_dao_contract.Host.{Env, Host, transfer_to, successful, ◌>>=◌}
use sputnik_dao_contract.Host.Panics.{IsPanic}
use sputnik_dao_contract.Dao.Types.{
  add_proposal as adding, vote_approve, finalize, action_to_policy_label,
}
use sputnik_dao_contract.Dao.Data.{
  Policy, current, Proposal, ProposalKind, approved, expired, approve,
}
use sputnik_dao_contract.Dao.Contract.{Contract, new, get_policy}
use sputnik_dao_contract.Dao.Policy.Roles.{to_policy, match_user}
use sputnik_dao_contract.Dao.Policy.Permissions.{
  can_execute_action, get_user_roles, collect_user_roles, filter_roles, role_allows,
  kind_to_policy_label,
}
use sputnik_dao_contract.Dao.Policy.Status.{
  internal_get_role, is_token_weighted, role_vote_policy, counts_of, proposal_status,
}
use sputnik_dao_contract.Dao.Delegation.{get_user_weight}
use sputnik_dao_contract.Dao.Proposals.Votes.{
  vote_from, count_for, set_count, add_to_counts, update_votes,
}
use sputnik_dao_contract.Dao.Proposals.Execution.{
  unlock, return_bounty_bond, internal_return_bonds, count_payout,
  internal_callback_proposal_success,
}
use sputnik_dao_contract.Dao.Proposals.Methods.{
  internal_user_info, proposal_from, validate, insert_proposal, add_proposal, store, after_vote,
  vote_on, act, act_on, act_proposal, on_result, answer, on_proposal_callback,
}
use sputnik_dao_contract.Dao.Proposals.Lifecycle.{act_proposal_closed, act_proposal_voted}
use sputnik_dao_contract.Dao.Proposals.Adding.{Governs, added, add_proposal_ok}
use sputnik_dao_contract.Dao.Proposals.Refund.{finalize_refunds}
use sputnik_dao_contract.Dao.Proposals.Expiry.{IsRecorded, expired_vote}
use sputnik_dao_contract.Dao.Proposals.Bonds.{bonds_of, refunds, callback_success_ok}
use sputnik_dao_contract.Dao.Tests.{alice_env, small_policy, sample_config, poll, poll_input}

-- A contract with one proposal under id 0, and its bond.
abbrev with_stored : Proposal → Host Contract
with_stored proposal = record {
  state = record (new alice_env sample_config (current small_policy)) {
    policy = some (current small_policy);
    proposals = (0, proposal) ∷ [];
    last_proposal_id = 1;
    locked_amount = 3;
  };
  promises = [];
}

abbrev settled_poll : Proposal
settled_poll = record poll { status = approved }

stored_get : (p : Proposal) → Map.get (with_stored p).state.proposals 0 ≡ some p
unfolding Map.get
stored_get p = refl

act_proposal_closed_example :
    IsPanic (act_proposal alice_env 0 finalize none (with_stored settled_poll))
act_proposal_closed_example =
    act_proposal_closed alice_env 0 finalize none (with_stored settled_poll) settled_poll
      (stored_get settled_poll) refl refl

abbrev bob_env : Env
bob_env = record alice_env { predecessor_account_id = "bob" }

bob_voted : Map.get poll.votes "bob" ≡ some approve
unfolding Map.get
bob_voted = refl

act_proposal_voted_example : IsPanic (act_proposal bob_env 0 vote_approve none (with_stored poll))
act_proposal_voted_example =
    act_proposal_voted bob_env 0 vote_approve none (with_stored poll) poll approve (stored_get poll)
      bob_voted refl

abbrev propose_env : Env
propose_env = record alice_env { attached_deposit = 3 }

abbrev two_proposals : Host Contract
two_proposals = added propose_env poll_input 3 (with_stored poll)

poll_added : add_proposal propose_env poll_input (with_stored poll) ≡ ok (1, two_proposals)
unfolding add_proposal get_policy to_policy validate internal_user_info get_user_weight
    can_execute_action get_user_roles collect_user_roles match_user filter_roles role_allows
    kind_to_policy_label action_to_policy_label insert_proposal proposal_from ◌>>=◌ Map.get
    Map.insert
poll_added = refl

add_proposal_ok_example :
    (policy : Policy) × Governs policy (with_stored poll).state
    × (3 ≡ policy.proposal_bond)
    × ((can_execute_action propose_env policy
          (internal_user_info propose_env (with_stored poll).state)
          poll_input.kind
          adding).1
        ≡ true)
    × (1 ≡ (with_stored poll).state.last_proposal_id)
    × (two_proposals ≡ added propose_env poll_input policy.proposal_bond (with_stored poll))
add_proposal_ok_example =
    add_proposal_ok propose_env poll_input (with_stored poll) two_proposals 1 poll_added

abbrev late_env : Env
late_env = record alice_env { block_timestamp = 500 }

abbrev late_poll : Proposal
late_poll = record poll {
  status = expired;
  vote_counts = ("council", record { approve_count = 2; reject_count = 0; remove_count = 0 }) ∷ [];
  votes = ("bob", approve) ∷ ("alice", approve) ∷ [];
}

late_vote :
    act_proposal late_env 0 vote_approve none (with_stored poll) ≡ ok (tt, with_stored late_poll)
unfolding act_proposal act_on get_policy to_policy internal_user_info get_user_weight
    can_execute_action get_user_roles collect_user_roles match_user filter_roles role_allows
    kind_to_policy_label action_to_policy_label act vote_on vote_from update_votes add_to_counts
    is_token_weighted internal_get_role role_vote_policy counts_of count_for set_count
    proposal_status after_vote ◌>>=◌ Map.get Map.insert
late_vote = refl

expired_vote_example :
    (p : Proposal) × IsRecorded late_env small_policy vote_approve expired poll
      (with_stored poll).state
      p
    × (with_stored late_poll
        ≡ record (with_stored poll) { state = store 0 p (with_stored poll).state })
expired_vote_example =
    expired_vote late_env 0 vote_approve none small_policy poll (with_stored poll)
      (with_stored late_poll) (stored_get poll) refl refl (omega arith) late_vote

may_finalize :
    (can_execute_action late_env small_policy
      (internal_user_info late_env (with_stored poll).state)
      poll.kind
      finalize).1
    ≡ true
unfolding internal_user_info get_user_weight can_execute_action get_user_roles collect_user_roles
    match_user filter_roles role_allows kind_to_policy_label action_to_policy_label Map.get
    Map.insert
may_finalize = refl

finalize_refunds_example :
    act_proposal late_env 0 finalize none (with_stored poll)
    ≡ ok (
      tt,
      record {
        state =
            store 0
              (record poll { status = expired })
              (record (with_stored poll).state { locked_amount = 0 });
        promises = [] ++ transfer_to "carol" 3 ∷ [];
      },
    )
finalize_refunds_example =
    finalize_refunds late_env 0 none small_policy poll (with_stored poll) (stored_get poll) refl
      may_finalize refl (omega arith) (omega arith) tt (omega arith)

abbrev success_env : Env
success_env = record alice_env { promise_results = successful [] ∷ [] }

abbrev paid : Host Contract
paid = record {
  state = record (with_stored settled_poll).state { locked_amount = 0 };
  promises = refunds small_policy "carol" poll.kind;
}

success_answered : on_proposal_callback success_env 0 (with_stored poll) ≡ ok (tt, paid)
unfolding on_proposal_callback answer on_result internal_callback_proposal_success get_policy
    to_policy count_payout internal_return_bonds return_bounty_bond unlock ◌>>=◌ Map.get Map.insert
success_answered = refl

callback_success_ok_example :
    (Map.get paid.state.proposals 0 ≡ some (record poll { status = approved }))
    × (0 + bonds_of small_policy poll.kind ≡ 3)
    × (paid.promises ≡ [] ++ refunds small_policy "carol" poll.kind)
callback_success_ok_example =
    callback_success_ok success_env 0 [] small_policy poll (with_stored poll) paid (stored_get poll)
      refl refl success_answered

abbrev report : Proposal
report = record poll { kind = ProposalKind.bounty_done 0 "dora"; vote_counts = []; votes = [] }

abbrev voted_report : Proposal
voted_report = record report {
  vote_counts = ("council", record { approve_count = 1; reject_count = 0; remove_count = 0 }) ∷ [];
  votes = ("alice", approve) ∷ [];
}
