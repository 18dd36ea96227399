-- ===== src/Dao/Views.antt =====
-- The views of sputnikdao2/src/views.rs. A view is a function of the state that may panic.
pub mod Pages
use sputnik_dao_contract.Base.{
  ℕ, zero, suc, ◌+◌, ◌-◌, ◌*◌, min, String, Bool, Option, none, some, List, [], ◌∷◌, nat_key,
  string_key,
}
use sputnik_dao_contract.Map
use sputnik_dao_contract.Result.{
  Result, ok, ◌>>=◌, expect_or, checked, checked_sub, u64_mod, u128_mod, unwrap_none,
  err_no_proposal, err_no_bounty, private_method,
}
use sputnik_dao_contract.Host.{Env}
use sputnik_dao_contract.Dao.Types.{Config}
use sputnik_dao_contract.Dao.Data.{Policy, Proposal, Bounty, BountyClaim}
use sputnik_dao_contract.Dao.Contract.{Contract}
use sputnik_dao_contract.Dao.Policy.Roles.{to_policy}
use sputnik_dao_contract.Dao.Delegation.{unwrap_or_default}
use sputnik_dao_contract.Dao.Upgrade.{has_key}
use sputnik_dao_contract.Dao.Bounties.Methods.{claims_or_default}

pub record ProposalOutput : Type 0 where
  pub id : ℕ
  pub proposal : Proposal

pub record BountyOutput : Type 0 where
  pub id : ℕ
  pub bounty : Bounty

unfoldable pub get_config : Contract → Result Config
get_config c = expect_or c.config unwrap_none

unfoldable pub get_policy : Contract → Result Policy
get_policy c = do versioned ← expect_or c.policy unwrap_none; to_policy versioned

abbrev pub or_empty : Option String → String
or_empty none = ""
or_empty (some id) = id

unfoldable pub get_staking_contract : Contract → String
get_staking_contract c = or_empty c.staking_id

unfoldable pub has_blob : Contract → ℕ → Bool
has_blob c hash = has_key (Map.get c.storage hash)

unfoldable pub get_locked_storage_amount : Env → Result ℕ
get_locked_storage_amount env = checked u128_mod (env.storage_byte_cost * env.storage_usage)

unfoldable pub get_available_amount : Env → Contract → Result ℕ
get_available_amount env c = do
  storage ← get_locked_storage_amount env
  unlocked ← checked_sub env.account_balance storage
  checked_sub unlocked c.locked_amount

unfoldable pub delegation_total_supply : Contract → ℕ
delegation_total_supply c = c.total_delegation_amount

unfoldable pub delegation_balance_of : Contract → String → ℕ
delegation_balance_of c account_id = unwrap_or_default (Map.get c.delegations account_id)

unfoldable pub delegation_balance_ratio : Contract → String → ℕ × ℕ
delegation_balance_ratio c account_id =
    (delegation_balance_of c account_id, delegation_total_supply c)

unfoldable pub get_last_proposal_id : Contract → ℕ
get_last_proposal_id c = c.last_proposal_id

unfoldable pub get_last_bounty_id : Contract → ℕ
get_last_bounty_id c = c.last_bounty_id

-- The ids of a range that starts at the first number and has the second number of elements.
unfoldable pub range : ℕ → ℕ → List ℕ
range from_index zero = []
range from_index (suc n) = from_index ∷ range (from_index + 1) n

abbrev pub cons_some : {A : Type 0} → Option A → List A → List A
cons_some none rest = rest
cons_some (some a) rest = a ∷ rest

unfoldable pub filter_map : {A : Type 0} → (ℕ → Option A) → List ℕ → List A
filter_map f [] = []
filter_map f (id ∷ ids) = cons_some (f id) (filter_map f ids)

-- The ids of a page: `from_index..min(last, from_index + limit)`.
unfoldable pub page : ℕ → ℕ → ℕ → Result (List ℕ)
page last from_index limit = do
  end ← checked u64_mod (from_index + limit)
  ok (range from_index (min last end - from_index))

unfoldable pub proposal_output : Contract → ℕ → Option ProposalOutput
proposal_output c id = elim (Map.get c.proposals id) [
  | none ↦ none
  | some proposal ↦ some (record { id = id; proposal = proposal })
]

unfoldable pub bounty_output : Contract → ℕ → Option BountyOutput
bounty_output c id = elim (Map.get c.bounties id) [
  | none ↦ none
  | some bounty ↦ some (record { id = id; bounty = bounty })
]

unfoldable pub get_proposals : Contract → ℕ → ℕ → Result (List ProposalOutput)
get_proposals c from_index limit = do
  ids ← page c.last_proposal_id from_index limit
  ok (filter_map (proposal_output c) ids)

unfoldable pub get_proposal : Contract → ℕ → Result ProposalOutput
get_proposal c id = expect_or (proposal_output c id) err_no_proposal

unfoldable pub get_bounty : Contract → ℕ → Result BountyOutput
get_bounty c id = expect_or (bounty_output c id) err_no_bounty

unfoldable pub get_bounties : Contract → ℕ → ℕ → Result (List BountyOutput)
get_bounties c from_index limit = do
  ids ← page c.last_bounty_id from_index limit
  ok (filter_map (bounty_output c) ids)

unfoldable pub get_bounty_claims : Contract → String → List BountyClaim
get_bounty_claims c account_id = claims_or_default (Map.get c.bounty_claimers account_id)

unfoldable pub get_bounty_number_of_claims : Contract → ℕ → ℕ
get_bounty_number_of_claims c id = unwrap_or_default (Map.get c.bounty_claims_count id)
