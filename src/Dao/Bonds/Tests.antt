-- ===== src/Dao/Bonds/Tests.antt =====
-- A run of the DAO for the theorems on its bonds: a proposal is added, approved by both members of
-- the council, and its promise is on the way.
pub mod Claimed
use sputnik_dao_contract.Base.{
  ◌≤◌, ◌-◌, ◌++◌, ◌≡◌, refl, true, none, some, [], ◌∷◌, nat_key, string_key, arith, ap,
}
use sputnik_dao_contract.Map
use sputnik_dao_contract.Result.{ok}
use sputnik_dao_contract.Host.{Env, transfer_to, successful, ◌>>=◌}
use sputnik_dao_contract.Dao.Types.{
  vote_approve, finalize, convert_old_to_new_token, action_to_policy_label,
}
use sputnik_dao_contract.Dao.Data.{
  current, ProposalKind, Proposal, ProposalInput, in_progress, approved, expired, approve,
}
use sputnik_dao_contract.Dao.Contract.{Contract, new, get_policy}
use sputnik_dao_contract.Dao.Policy.Roles.{to_policy, upgrade, match_user}
use sputnik_dao_contract.Dao.Policy.Permissions.{
  can_execute_action, get_user_roles, collect_user_roles, filter_roles, role_allows,
  kind_to_policy_label,
}
use sputnik_dao_contract.Dao.Policy.Status.{
  internal_get_role, is_token_weighted, role_vote_policy, counts_of, proposal_status, decide_status,
  role_status, total_weight_of, threshold_of, to_weight, verdict,
}
use sputnik_dao_contract.Dao.Delegation.{get_user_weight}
use sputnik_dao_contract.Dao.Calls.{
  add_proposal as propose, act_proposal as act_on_proposal, dispatch, assert_no_deposit,
}
use sputnik_dao_contract.Dao.Bounties.{internal_payout}
use sputnik_dao_contract.Dao.Proposals.Votes.{
  vote_from, count_for, set_count, add_to_counts, update_votes,
}
use sputnik_dao_contract.Dao.Proposals.Execution.{
  execute_kind, finish_execution, internal_execute_proposal,
}
use sputnik_dao_contract.Dao.Proposals.Methods.{
  internal_user_info, proposal_from, validate, insert_proposal, add_proposal, store, after_vote,
  vote_on, act, act_on, act_proposal, on_proposal_callback,
}
use sputnik_dao_contract.Dao.Proposals.Adding.{Governs}
use sputnik_dao_contract.Dao.Bonds.{callbacks, owed}
use sputnik_dao_contract.Dao.Bonds.Balances.{AreBonds}
use sputnik_dao_contract.Dao.Bonds.Runs.{
  Running, start, received, receive, call, Reachable, created, next,
}
use sputnik_dao_contract.Dao.Bonds.Solvency.{locked_covers}
use sputnik_dao_contract.Dao.Bonds.Refunds.{expired_refund, callback_returns}
use sputnik_dao_contract.Dao.Tests.{alice_env, small_policy, sample_config}

abbrev payment : ProposalInput
payment = record { description = "a payment"; kind = ProposalKind.transfer "" "carol" 50 none }

abbrev pub propose_env : Env
propose_env = record alice_env { attached_deposit = 3 }

abbrev pub bob_env : Env
bob_env = record alice_env { predecessor_account_id = "bob" }

abbrev pub fresh : Running
fresh = record { dao = new alice_env sample_config (current small_policy); on_the_way = [] }

abbrev proposed : Running
proposed = receive propose_env (propose payment) fresh

abbrev voted : Running
voted = receive alice_env (act_on_proposal 0 vote_approve none) proposed

abbrev paying : Running
paying = receive bob_env (act_on_proposal 0 vote_approve none) voted

pub small_bonds : (c : Contract) → c.policy ≡ some (current small_policy) → AreBonds 3 2 c
small_bonds c e policy governed =
    let same : policy ≡ small_policy = cc in
    (ap (λ p. p.proposal_bond) same, ap (λ p. p.bounty_bond) same)

fresh_policy : Governs small_policy fresh.dao
unfolding new upgrade
fresh_policy = refl

pub fresh-Reachable : Reachable 3 2 fresh
fresh-Reachable =
    created alice_env sample_config (current small_policy) (small_bonds fresh.dao fresh_policy)

abbrev stored_payment : Proposal
stored_payment = record {
  proposer = "alice";
  description = "a payment";
  kind = payment.kind;
  status = in_progress;
  vote_counts = [];
  votes = [];
  submission_time = 10;
}

abbrev late_env : Env
late_env = record alice_env { block_timestamp = 500 }

proposed_lem :
    Governs small_policy proposed.dao
    × (Map.get proposed.dao.proposals 0 ≡ some stored_payment)
    × ((can_execute_action late_env small_policy
          (internal_user_info late_env proposed.dao)
          stored_payment.kind
          finalize).1
        ≡ true)
unfolding receive received dispatch add_proposal get_policy to_policy validate internal_user_info
    get_user_weight can_execute_action get_user_roles collect_user_roles match_user filter_roles
    role_allows kind_to_policy_label action_to_policy_label insert_proposal proposal_from ◌>>=◌ new
    upgrade Map.get Map.insert
proposed_lem = (refl, refl, refl)

proposed-Reachable : Reachable 3 2 proposed
proposed-Reachable =
    next fresh-Reachable (call propose_env (propose payment) fresh tt)
      (small_bonds proposed.dao proposed_lem.0)

locked_covers_example : owed 3 2 proposed.on_the_way proposed.dao ≤ proposed.dao.locked_amount
locked_covers_example = locked_covers 3 2 proposed proposed-Reachable

expired_refund_example :
    act_proposal late_env 0 finalize none (start proposed.dao)
    ≡ ok (
      tt,
      record {
        state =
            store 0
              (record stored_payment { status = expired })
              (record proposed.dao { locked_amount = proposed.dao.locked_amount - 3 });
        promises = transfer_to "alice" 3 ∷ [];
      },
    )
expired_refund_example =
    expired_refund 3 2 proposed late_env 0 none small_policy stored_payment proposed-Reachable
      proposed_lem.1 proposed_lem.0 proposed_lem.2 refl (omega arith) (omega arith) tt

abbrev decided_payment : Proposal
decided_payment = record stored_payment {
  status = approved;
  vote_counts = ("council", record { approve_count = 2; reject_count = 0; remove_count = 0 }) ∷ [];
  votes = ("alice", approve) ∷ ("bob", approve) ∷ [];
}

paying_lem :
    Governs small_policy voted.dao
    × Governs small_policy paying.dao
    × (paying.on_the_way ≡ [] ++ 0 ∷ [])
    × (Map.get paying.dao.proposals 0 ≡ some decided_payment)
unfolding receive received dispatch assert_no_deposit add_proposal get_policy to_policy validate
    internal_user_info get_user_weight can_execute_action get_user_roles collect_user_roles
    match_user filter_roles role_allows kind_to_policy_label action_to_policy_label insert_proposal
    proposal_from ◌>>=◌ new upgrade Map.get Map.insert act_proposal act_on act vote_on vote_from
    update_votes add_to_counts is_token_weighted internal_get_role role_vote_policy counts_of
    count_for set_count proposal_status decide_status role_status total_weight_of threshold_of
    to_weight verdict convert_old_to_new_token after_vote internal_execute_proposal execute_kind
    finish_execution internal_payout callbacks
paying_lem = (refl, refl, refl, refl)

paying-Reachable : Reachable 3 2 paying
paying-Reachable =
    let once =
      next proposed-Reachable (call alice_env (act_on_proposal 0 vote_approve none) proposed tt)
        (small_bonds voted.dao paying_lem.0) in
    next once (call bob_env (act_on_proposal 0 vote_approve none) voted tt)
      (small_bonds paying.dao paying_lem.1)

abbrev success_env : Env
success_env = record alice_env { promise_results = successful [] ∷ [] }

callback_returns_example :
    on_proposal_callback success_env 0 (start paying.dao)
    ≡ ok (
      tt,
      record {
        state =
            store 0
              (record decided_payment { status = approved })
              (record paying.dao { locked_amount = paying.dao.locked_amount - 3 });
        promises = transfer_to "alice" 3 ∷ [];
      },
    )
callback_returns_example =
    callback_returns 3 2 paying success_env [] [] 0 [] decided_payment paying-Reachable paying_lem.2
      paying_lem.3 refl tt
