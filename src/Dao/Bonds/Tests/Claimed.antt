-- ===== src/Dao/Bonds/Tests/Claimed.antt =====
-- A run of the DAO with a bounty that is added by a proposal and claimed by `dora`.
use sputnik_dao_contract.Base.{
  ℕ, ◌-◌, ◌≡◌, refl, none, some, [], ◌∷◌, nat_key, string_key, arith, false,
}
use sputnik_dao_contract.Map
use sputnik_dao_contract.Result.{ok}
use sputnik_dao_contract.Host.{Env, transfer_to, ◌>>=◌}
use sputnik_dao_contract.Dao.Types.{vote_approve, action_to_policy_label}
use sputnik_dao_contract.Dao.Data.{ProposalKind, ProposalInput, BountyClaim}
use sputnik_dao_contract.Dao.Contract.{new, get_policy}
use sputnik_dao_contract.Dao.Policy.Roles.{to_policy, upgrade, match_user}
use sputnik_dao_contract.Dao.Policy.Permissions.{
  can_execute_action, get_user_roles, collect_user_roles, filter_roles, role_allows,
  kind_to_policy_label,
}
use sputnik_dao_contract.Dao.Policy.Status.{
  internal_get_role, is_token_weighted, role_vote_policy, counts_of, proposal_status, decide_status,
  role_status, total_weight_of, threshold_of, to_weight, verdict,
}
use sputnik_dao_contract.Dao.Delegation.{get_user_weight}
use sputnik_dao_contract.Dao.Bounties.{internal_add_bounty, internal_find_claim, find_claim_from}
use sputnik_dao_contract.Dao.Bounties.Methods.{bounty_claim, new_claim, bounty_giveup}
use sputnik_dao_contract.Dao.Calls.{
  add_proposal as propose, act_proposal as act_on_proposal, bounty_claim as claim_bounty, dispatch,
  assert_no_deposit,
}
use sputnik_dao_contract.Dao.Proposals.Votes.{
  vote_from, count_for, set_count, add_to_counts, update_votes,
}
use sputnik_dao_contract.Dao.Proposals.Execution.{
  execute_kind, finish_execution, internal_execute_proposal, internal_return_bonds,
  return_bounty_bond, unlock,
}
use sputnik_dao_contract.Dao.Proposals.Methods.{
  internal_user_info, proposal_from, validate, insert_proposal, add_proposal, after_vote, vote_on,
  act, act_on, act_proposal,
}
use sputnik_dao_contract.Dao.Proposals.Adding.{Governs}
use sputnik_dao_contract.Dao.Bonds.{callbacks}
use sputnik_dao_contract.Dao.Bonds.Runs.{Running, start, received, receive, call, Reachable, next}
use sputnik_dao_contract.Dao.Bonds.Claims.{without_claim, giveup_returns}
use sputnik_dao_contract.Dao.Bonds.Tests.{propose_env, bob_env, fresh, small_bonds, fresh-Reachable}
use sputnik_dao_contract.Dao.Tests.{alice_env, small_policy}

abbrev offer : ProposalInput
offer = record {
  description = "a bounty";
  kind =
      ProposalKind.add_bounty
        (record { description = "work"; token = ""; amount = 40; times = 2; max_deadline = 30 });
}

abbrev offered : Running
offered = receive propose_env (propose offer) fresh

abbrev voted : Running
voted = receive alice_env (act_on_proposal 0 vote_approve none) offered

abbrev posted : Running
posted = receive bob_env (act_on_proposal 0 vote_approve none) voted

abbrev dora_env : Env
dora_env = record alice_env { predecessor_account_id = "dora"; attached_deposit = 2 }

abbrev taken : Running
taken = receive dora_env (claim_bounty 0 25) posted

abbrev work : BountyClaim
work = record { bounty_id = 0; start_time = 10; deadline = 25; completed = false }

taken_lem :
    Governs small_policy offered.dao
    × Governs small_policy voted.dao
    × Governs small_policy posted.dao
    × Governs small_policy taken.dao
    × (Map.get taken.dao.bounty_claimers "dora" ≡ some (work ∷ []))
    × (internal_find_claim 0 (work ∷ []) ≡ some 0)
unfolding receive received dispatch assert_no_deposit add_proposal get_policy to_policy validate
    internal_user_info get_user_weight can_execute_action get_user_roles collect_user_roles
    match_user filter_roles role_allows kind_to_policy_label action_to_policy_label insert_proposal
    proposal_from ◌>>=◌ new upgrade Map.get Map.insert act_proposal act_on act vote_on vote_from
    update_votes add_to_counts is_token_weighted internal_get_role role_vote_policy counts_of
    count_for set_count proposal_status decide_status role_status total_weight_of threshold_of
    to_weight verdict after_vote internal_execute_proposal execute_kind finish_execution
    internal_return_bonds return_bounty_bond unlock internal_add_bounty bounty_claim new_claim
    internal_find_claim find_claim_from callbacks
taken_lem = (refl, refl, refl, refl, refl, refl)

taken-Reachable : Reachable 3 2 taken
taken-Reachable =
    let added =
      next fresh-Reachable (call propose_env (propose offer) fresh tt)
        (small_bonds offered.dao taken_lem.0) in
    let once =
      next added (call alice_env (act_on_proposal 0 vote_approve none) offered tt)
        (small_bonds voted.dao taken_lem.1) in
    let twice =
      next once (call bob_env (act_on_proposal 0 vote_approve none) voted tt)
        (small_bonds posted.dao taken_lem.2) in
    next twice (call dora_env (claim_bounty 0 25) posted tt) (small_bonds taken.dao taken_lem.3)

abbrev giveup_env : Env
giveup_env = record alice_env { predecessor_account_id = "dora"; block_timestamp = 15 }

giveup_returns_example :
    (count : ℕ) × (Map.get taken.dao.bounty_claims_count 0 ≡ some count)
    × (bounty_giveup giveup_env 0 (start taken.dao)
        ≡ ok (
          tt,
          record {
            state =
                without_claim 0 "dora" 0
                  (work ∷ [])
                  count
                  (record taken.dao { locked_amount = taken.dao.locked_amount - 2 });
            promises = transfer_to "dora" 2 ∷ [];
          },
        ))
giveup_returns_example =
    giveup_returns 3 2 taken giveup_env 0 0 (work ∷ []) work small_policy taken-Reachable
      taken_lem.3 taken_lem.4 taken_lem.5 refl (omega arith) (omega arith)
