-- ===== src/Dao/Frame.antt =====
-- What the internal operations of the DAO contract leave alone: a property of the contract that
-- survives the writes listed in `Frame` survives every internal operation and the execution, the
-- rejection and the callback of a proposal.
pub mod Execution
use sputnik_dao_contract.Base.{
  ℕ, String, Option, none, some, Bool, List, [], ◌∷◌, nat_key, string_key,
}
use sputnik_dao_contract.Map
use sputnik_dao_contract.Host.{Env, modify}
use sputnik_dao_contract.Host.Keeps.{Keeps, keeps_rules}
use sputnik_dao_contract.Dao.Types.{Config, FactoryInfo}
use sputnik_dao_contract.Dao.Data.{
  Policy, VersionedPolicy, default, current, ProposalKind, Proposal, Bounty, BountyClaim,
}
use sputnik_dao_contract.Dao.Upgrade.{
  upgrade_using_factory, upgrade_remote, get_default_factory_id, remaining_gas,
}
use sputnik_dao_contract.Dao.Contract.{Contract, get_policy}
use sputnik_dao_contract.Dao.Bounties.{
  store_claims, internal_get_claims, internal_add_bounty, internal_remove_claim,
  internal_execute_bounty_payout,
}
use sputnik_dao_contract.Dao.Proposals.Execution.{
  unlock, return_bounty_bond, internal_return_bonds, count_payout, set_staking_id,
}

-- A policy of the current version: `to_policy` panics at any other.
abbrev pub IsCurrent : Option VersionedPolicy → Type 0
IsCurrent none = ⊥
IsCurrent (some (default accounts)) = ⊥
IsCurrent (some (current policy)) = Unit

-- A proposal to change the policy has a policy of the current version.
abbrev pub HasCurrentPolicy : ProposalKind → Type 0
HasCurrentPolicy (ProposalKind.change_policy policy) = IsCurrent (some policy)
HasCurrentPolicy _ = Unit

-- The writes that a property of the contract survives.
pub record Frame (P : Contract → Type 0) : Type 0 where
  pub locked : (n : ℕ) → Keeps P (modify (λ c. record c { locked_amount = n }))
  pub config : (config : Config) → Keeps P (modify (λ c. record c { config = some config }))
  pub staking : (id : String) → Keeps P (set_staking_id id)
  pub factory : (info : FactoryInfo) → Keeps P (modify (λ c. record c { factory_info = some info }))
  pub claim : (id : ℕ) (account : String) → Keeps P (internal_remove_claim id account)
  pub policy :
      (policy : VersionedPolicy)
      → IsCurrent (some policy)
      → Keeps P (modify (λ c. record c { policy = some policy }))
  pub bounty : (bounty : Bounty) → Keeps P (internal_add_bounty bounty)
  pub payout : (kind : ProposalKind) → Keeps P (count_payout kind)

module _ {P : Contract → Type 0} (frame : Frame P) where
  pub get_policy-Keeps : Keeps P get_policy
  unfolding get_policy
  get_policy-Keeps = search keeps_rules

  pub unlock-Keeps : (amount : ℕ) → Keeps P (unlock amount)
  unfolding unlock
  unlock-Keeps amount = search (keeps_rules, frame.locked)

  return_bounty_bond-Keeps :
      (policy : Policy) (proposal : Proposal) (kind : ProposalKind)
      → Keeps P (return_bounty_bond policy proposal kind)
  unfolding return_bounty_bond
  return_bounty_bond-Keeps policy proposal (ProposalKind.bounty_done id receiver) =
      search (keeps_rules, unlock-Keeps)
  return_bounty_bond-Keeps policy proposal _ = search keeps_rules

  pub internal_return_bonds-Keeps :
      (policy : Policy) (proposal : Proposal) → Keeps P (internal_return_bonds policy proposal)
  unfolding internal_return_bonds
  internal_return_bonds-Keeps policy proposal =
      search (keeps_rules, unlock-Keeps, return_bounty_bond-Keeps)

  pub internal_get_claims-Keeps :
      (id : ℕ) (account : String) → Keeps P (internal_get_claims id account)
  unfolding internal_get_claims
  internal_get_claims-Keeps id account = search keeps_rules

  pub internal_execute_bounty_payout-Keeps :
      (id : ℕ) (account : String) (success : Bool)
      → Keeps P (internal_execute_bounty_payout id account success)
  unfolding internal_execute_bounty_payout
  internal_execute_bounty_payout-Keeps id account success =
      search (keeps_rules, frame.claim) depth 14

  pub upgrade_using_factory-Keeps :
      (env : Env) (hash : ℕ) → Keeps P (upgrade_using_factory env hash)
  unfolding upgrade_using_factory get_default_factory_id remaining_gas
  upgrade_using_factory-Keeps env hash = search keeps_rules

  pub upgrade_remote-Keeps :
      (env : Env) (receiver method_name : String) (hash : ℕ)
      → Keeps P (upgrade_remote env receiver method_name hash)
  unfolding upgrade_remote remaining_gas
  upgrade_remote-Keeps env receiver method_name hash = search keeps_rules
