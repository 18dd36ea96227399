-- ===== src/Dao/Proposals/Execution.antt =====
-- Bonds and the execution of a proposal, sputnikdao2/src/proposals.rs.
use sputnik_dao_contract.Base.{
  ℕ, ◌-◌, String, Bool, true, false, Option, none, some, map, nat_key, nat_beq, if◌then◌else◌,
}
use sputnik_dao_contract.Map
use sputnik_dao_contract.Result.{checked_sub, err_invalid_staking_change, err_no_bounty}
use sputnik_dao_contract.Host.{
  Env, Call, ◌>>=◌, ◌>>◌, pure, gets, modify, require, expect, lift, schedule, drop_promise,
  Promise, PromiseAction, PromiseOrValue, promise, value, transfer_to, function_call, raw,
  proposal_args,
}
use sputnik_dao_contract.Dao.Types.{gas_for_ft_transfer, convert_old_to_new_token}
use sputnik_dao_contract.Dao.Data.{
  Policy, VersionedPolicy, current, ProposalKind, approved, failed, Proposal, ActionCall, Bounty,
}
use sputnik_dao_contract.Dao.Policy.Roles.{
  add_member_to_role, remove_member_from_role, add_or_update_role, remove_role,
  update_default_vote_policy, update_parameters,
}
use sputnik_dao_contract.Dao.Contract.{Contract, get_policy}
use sputnik_dao_contract.Dao.Upgrade.{
  upgrade_using_factory, upgrade_remote, internal_set_factory_info,
}
use sputnik_dao_contract.Dao.Bounties.{
  internal_payout, internal_add_bounty, internal_execute_bounty_payout,
}

-- `self.locked_amount -= amount`
unfoldable pub unlock : ℕ → Call Contract Unit
unlock amount = do
  locked ← gets (λ c. c.locked_amount)
  rest ← lift (checked_sub locked amount)
  modify (λ c. record c { locked_amount = rest })

-- The bond of a bounty's claim goes back with that of the proposal which reports it done.
unfoldable pub return_bounty_bond : Policy → Proposal → ProposalKind → Call Contract Unit
return_bounty_bond policy proposal (ProposalKind.bounty_done bounty_id receiver_id) = do
  unlock policy.bounty_bond
  schedule (transfer_to proposal.proposer policy.bounty_bond)
return_bounty_bond policy proposal _ = pure tt

unfoldable pub internal_return_bonds : Policy → Proposal → Call Contract Promise
internal_return_bonds policy proposal = do
  return_bounty_bond policy proposal proposal.kind
  unlock policy.proposal_bond
  pure (transfer_to proposal.proposer policy.proposal_bond)

abbrev pub set_policy : VersionedPolicy → Call Contract PromiseOrValue
set_policy policy = do modify (λ c. record c { policy = some policy }); pure value

unfoldable pub to_function_call : ActionCall → PromiseAction
to_function_call action =
    function_call action.method_name (raw action.args) action.deposit action.gas

abbrev pub is_none : Option String → Bool
is_none none = true
is_none (some s) = false

-- The staking contract is set once.
unfoldable pub set_staking_id : String → Call Contract PromiseOrValue
set_staking_id staking_id = do
  old ← gets (λ c. c.staking_id)
  require (is_none old) err_invalid_staking_change
  modify (λ c. record c { staking_id = some staking_id })
  pure value

-- The `match` of `internal_execute_proposal`: what a proposal of each kind does.
unfoldable pub execute_kind : Env → Policy → Proposal → ProposalKind → Call Contract PromiseOrValue
execute_kind env policy proposal (ProposalKind.change_config config) = do
  modify (λ c. record c { config = some config })
  pure value
execute_kind env policy proposal (ProposalKind.change_policy new_policy) = set_policy new_policy
execute_kind env policy proposal (ProposalKind.add_member_to_role member_id role) =
    set_policy (current (add_member_to_role role member_id policy))
execute_kind env policy proposal (ProposalKind.remove_member_from_role member_id role) =
    set_policy (current (remove_member_from_role role member_id policy))
execute_kind env policy proposal (ProposalKind.function_call receiver_id actions) = pure (
    promise (record {
      receiver_id = receiver_id;
      actions = map to_function_call actions;
      callback = none;
    }))
execute_kind env policy proposal (ProposalKind.upgrade_self hash) = do
  upgrade_using_factory env hash
  pure value
execute_kind env policy proposal (ProposalKind.upgrade_remote receiver_id method_name hash) = do
  upgrade_remote env receiver_id method_name hash
  pure value
execute_kind env policy proposal (ProposalKind.transfer token_id receiver_id amount msg) = pure (
    internal_payout (convert_old_to_new_token token_id) receiver_id amount proposal.description msg)
execute_kind env policy proposal (ProposalKind.set_staking_contract staking_id) =
    set_staking_id staking_id
execute_kind env policy proposal (ProposalKind.add_bounty bounty) = do
  internal_add_bounty bounty
  pure value
execute_kind env policy proposal (ProposalKind.bounty_done bounty_id receiver_id) =
    internal_execute_bounty_payout bounty_id receiver_id true
execute_kind env policy proposal ProposalKind.vote = pure value
execute_kind env policy proposal (ProposalKind.factory_info_update factory_info) = do
  internal_set_factory_info factory_info
  pure value
execute_kind env policy proposal (ProposalKind.change_policy_add_or_update_role role) =
    set_policy (current (add_or_update_role role policy))
execute_kind env policy proposal (ProposalKind.change_policy_remove_role role) =
    set_policy (current (remove_role role policy))
execute_kind env policy proposal
      (ProposalKind.change_policy_update_default_vote_policy vote_policy) =
    set_policy (current (update_default_vote_policy vote_policy policy))
execute_kind env policy proposal (ProposalKind.change_policy_update_parameters parameters) =
    set_policy (current (update_parameters parameters policy))

-- `promise.then(ext_self::on_proposal_callback(..))`, or the return of the bonds at once.
unfoldable pub finish_execution : Env → Policy → Proposal → ℕ → PromiseOrValue → Call Contract Unit
finish_execution env policy proposal proposal_id (promise p) = schedule (record p {
  callback = some (
    env.current_account_id,
    function_call "on_proposal_callback" (proposal_args proposal_id) 0 gas_for_ft_transfer,
  );
})
finish_execution env policy proposal proposal_id value = do
  bond ← internal_return_bonds policy proposal
  schedule bond

unfoldable pub internal_execute_proposal : Env → Policy → Proposal → ℕ → Call Contract Unit
internal_execute_proposal env policy proposal proposal_id = do
  result ← execute_kind env policy proposal proposal.kind
  finish_execution env policy proposal proposal_id result

abbrev pub reject_claim : ProposalKind → Call Contract PromiseOrValue
reject_claim (ProposalKind.bounty_done bounty_id receiver_id) =
    internal_execute_bounty_payout bounty_id receiver_id false
reject_claim _ = pure value

unfoldable pub internal_reject_proposal : Policy → Proposal → Bool → Call Contract Unit
internal_reject_proposal policy proposal return_bonds = do
  if return_bonds then (do bond ← internal_return_bonds policy proposal; schedule bond) else pure tt
  result ← reject_claim proposal.kind
  drop_promise result

-- The part of `internal_callback_proposal_success` for a bounty that was paid out.
abbrev pub count_bounty : ℕ → Bounty → Contract → Contract
count_bounty bounty_id bounty c = record c {
  bounties =
      if nat_beq bounty.times 0
      then Map.remove bounty_id c.bounties
      else Map.insert bounty_id (record bounty { times = bounty.times - 1 }) c.bounties;
}

unfoldable pub count_payout : ProposalKind → Call Contract Unit
count_payout (ProposalKind.bounty_done bounty_id receiver_id) = do
  stored ← gets (λ c. Map.get c.bounties bounty_id)
  bounty ← expect stored err_no_bounty
  modify (count_bounty bounty_id bounty)
count_payout _ = pure tt

-- The result is the proposal with its new status.
unfoldable pub internal_callback_proposal_success : Proposal → Call Contract Proposal
internal_callback_proposal_success proposal = do
  policy ← get_policy
  count_payout proposal.kind
  bond ← internal_return_bonds policy (record proposal { status = approved })
  schedule bond
  pure (record proposal { status = approved })

unfoldable pub internal_callback_proposal_fail : Proposal → Call Contract Proposal
internal_callback_proposal_fail proposal = pure (record proposal { status = failed })
