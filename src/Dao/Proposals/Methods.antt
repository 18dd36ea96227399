-- ===== src/Dao/Proposals/Methods.antt =====
-- The methods on proposals, sputnikdao2/src/proposals.rs.
use sputnik_dao_contract.Base.{
  ℕ, ◌+◌, String, Bool, true, false, not, ◌||◌, Option, List, [], ◌∷◌, map, ◌==◌, nat_key, nat_beq,
  string_key, if◌then◌else◌,
}
use sputnik_dao_contract.Map
use sputnik_dao_contract.Result.{
  checked, u64_mod, u128_mod, err_min_bond, err_invalid_policy, err_base_token_no_msg,
  err_staking_contract_cant_change, err_permission_denied, err_no_proposal, err_wrong_action,
  err_proposal_not_ready_for_vote, err_proposal_not_expired_or_failed,
  err_unexpected_callback_promises, unreachable,
}
use sputnik_dao_contract.Host.{
  Env, Call, ◌>>=◌, ◌>>◌, pure, panic, gets, modify, require, expect, lift, PromiseResult,
  not_ready, failed as promise_failed, successful,
}
use sputnik_dao_contract.Dao.Types.{
  Action, add_proposal as adding, remove_proposal, vote_approve, vote_reject, vote_remove, finalize,
  move_to_hub, old_base_token,
}
use sputnik_dao_contract.Dao.Data.{
  UserInfo, Policy, default, current, ProposalKind, ProposalStatus, in_progress, approved, rejected,
  removed, expired, Proposal, ProposalInput,
}
use sputnik_dao_contract.Dao.Policy.Permissions.{can_execute_action}
use sputnik_dao_contract.Dao.Policy.Status.{proposal_status}
use sputnik_dao_contract.Dao.Contract.{Contract, get_policy}
use sputnik_dao_contract.Dao.Delegation.{get_user_weight}
use sputnik_dao_contract.Dao.Proposals.Votes.{vote_from, update_votes}
use sputnik_dao_contract.Dao.Proposals.Execution.{
  is_none, internal_execute_proposal, internal_reject_proposal, internal_callback_proposal_success,
  internal_callback_proposal_fail,
}

unfoldable pub internal_user_info : Env → Contract → UserInfo
internal_user_info env c = record {
  account_id = env.predecessor_account_id;
  amount = get_user_weight c env.predecessor_account_id;
}

-- `From<ProposalInput> for Proposal`
unfoldable pub proposal_from : Env → ProposalInput → Proposal
proposal_from env input = record {
  proposer = env.predecessor_account_id;
  description = input.description;
  kind = input.kind;
  status = in_progress;
  vote_counts = [];
  votes = [];
  submission_time = env.block_timestamp;
}

-- Step 1 of `add_proposal`.
unfoldable pub validate : ProposalKind → Call Contract Unit
validate (ProposalKind.change_policy (current policy)) = pure tt
validate (ProposalKind.change_policy (default accounts)) = panic err_invalid_policy
validate (ProposalKind.transfer token_id receiver_id amount msg) =
    require (not (token_id == old_base_token) || is_none msg) err_base_token_no_msg
validate (ProposalKind.set_staking_contract staking_id) = do
  old ← gets (λ c. c.staking_id)
  require (is_none old) err_staking_contract_cant_change
validate _ = pure tt

-- Step 3 of `add_proposal`.
unfoldable pub insert_proposal : Env → ProposalInput → Call Contract ℕ
insert_proposal env proposal = do
  id ← gets (λ c. c.last_proposal_id)
  modify (λ c. record c { proposals = Map.insert id (proposal_from env proposal) c.proposals })
  next ← lift (checked u64_mod (id + 1))
  modify (λ c. record c { last_proposal_id = next })
  locked ← gets (λ c. c.locked_amount)
  new_locked ← lift (checked u128_mod (locked + env.attached_deposit))
  modify (λ c. record c { locked_amount = new_locked })
  pure id

unfoldable pub add_proposal : Env → ProposalInput → Call Contract ℕ
add_proposal env proposal = do
  policy ← get_policy
  require (nat_beq env.attached_deposit policy.proposal_bond) err_min_bond
  validate proposal.kind
  user ← gets (internal_user_info env)
  require (can_execute_action env policy user proposal.kind adding).1 err_permission_denied
  insert_proposal env proposal

-- `matches!(status, InProgress)`
abbrev pub is_in_progress : ProposalStatus → Bool
is_in_progress in_progress = true
is_in_progress _ = false

abbrev pub remove_stored : ℕ → Contract → Contract
remove_stored id c = record c { proposals = Map.remove id c.proposals }

-- What follows the new status of a vote; the result is whether the proposal is to be stored.
unfoldable pub after_vote : Env → Policy → Proposal → ℕ → ProposalStatus → Call Contract Bool
after_vote env policy proposal id approved = do
  internal_execute_proposal env policy proposal id
  pure true
after_vote env policy proposal id removed = do
  internal_reject_proposal policy proposal false
  modify (remove_stored id)
  pure false
after_vote env policy proposal id rejected = do
  internal_reject_proposal policy proposal true
  pure true
after_vote env policy proposal id _ = pure true

unfoldable pub vote_on :
    Env → Policy → Proposal → ℕ → List String → Action → Call Contract (Proposal × Bool)
vote_on env policy proposal id roles action = do
  require (is_in_progress proposal.status) err_proposal_not_ready_for_vote
  vote ← lift (vote_from action)
  weight ← gets (λ c. get_user_weight c env.predecessor_account_id)
  voted ← lift (update_votes env.predecessor_account_id roles vote policy weight proposal)
  total ← gets (λ c. c.total_delegation_amount)
  status ← lift (proposal_status env policy voted roles total)
  let decided = record voted { status = status }
  update ← after_vote env policy decided id status
  pure (decided, update)

unfoldable pub after_finalize : Env → Policy → Proposal → ℕ → ProposalStatus → Call Contract Unit
after_finalize env policy proposal id approved = internal_execute_proposal env policy proposal id
after_finalize env policy proposal id expired = internal_reject_proposal policy proposal true
after_finalize env policy proposal id _ = panic err_proposal_not_expired_or_failed

unfoldable pub finalize_proposal : Env → Policy → Proposal → ℕ → Call Contract (Proposal × Bool)
finalize_proposal env policy proposal id = do
  total ← gets (λ c. c.total_delegation_amount)
  status ← lift (proposal_status env policy proposal (map (λ r. r.name) policy.roles) total)
  let decided = record proposal { status = status }
  after_finalize env policy decided id status
  pure (decided, true)

-- The `match` of `act_proposal`: the proposal, and whether it is to be stored.
unfoldable pub act :
    Env → Policy → Proposal → ℕ → List String → Action → Call Contract (Proposal × Bool)
act env policy proposal id roles adding = panic err_wrong_action
act env policy proposal id roles remove_proposal = do
  modify (remove_stored id)
  pure (proposal, false)
act env policy proposal id roles vote_approve = vote_on env policy proposal id roles vote_approve
act env policy proposal id roles vote_reject = vote_on env policy proposal id roles vote_reject
act env policy proposal id roles vote_remove = vote_on env policy proposal id roles vote_remove
act env policy proposal id roles finalize = finalize_proposal env policy proposal id
act env policy proposal id roles move_to_hub = pure (proposal, false)

abbrev pub store : ℕ → Proposal → Contract → Contract
store id proposal c = record c { proposals = Map.insert id proposal c.proposals }

-- `act_proposal` from the permission check on.
unfoldable pub act_on : Env → ℕ → Action → Proposal → Call Contract Unit
act_on env id action proposal = do
  policy ← get_policy
  user ← gets (internal_user_info env)
  let permission = can_execute_action env policy user proposal.kind action
  require permission.1 err_permission_denied
  acted ← act env policy proposal id permission.0 action
  if acted.1 then modify (store id acted.0) else pure tt

-- The memo is only logged.
unfoldable pub act_proposal : Env → ℕ → Action → Option String → Call Contract Unit
act_proposal env id action memo = do
  stored ← gets (λ c. Map.get c.proposals id)
  proposal ← expect stored err_no_proposal
  act_on env id action proposal

-- `promise_results_count() == 1`, then the result.
unfoldable pub on_result : List PromiseResult → Proposal → Call Contract Proposal
on_result (not_ready ∷ []) proposal = panic unreachable
on_result (successful bytes ∷ []) proposal = internal_callback_proposal_success proposal
on_result (promise_failed ∷ []) proposal = internal_callback_proposal_fail proposal
on_result _ proposal = panic err_unexpected_callback_promises

unfoldable pub answer : Env → ℕ → Proposal → Call Contract Unit
answer env proposal_id proposal = do
  answered ← on_result env.promise_results proposal
  modify (store proposal_id answered)

unfoldable pub on_proposal_callback : Env → ℕ → Call Contract Unit
on_proposal_callback env proposal_id = do
  stored ← gets (λ c. Map.get c.proposals proposal_id)
  proposal ← expect stored err_no_proposal
  answer env proposal_id proposal
