-- ===== src/Dao/Policy/Status.antt =====
-- Vote weights and the status of a proposal, of sputnikdao2/src/policy.rs.
use sputnik_dao_contract.Base.{
  ℕ, ◌+◌, ◌*◌, min, max, String, Bool, true, false, Option, none, some, List, [], ◌∷◌, ◌==◌,
  string_key, length, ltb, leb, if◌then◌else◌,
}
use sputnik_dao_contract.Map
use sputnik_dao_contract.Map.{Map}
use sputnik_dao_contract.Result.{
  Result, ok, err, ◌>>=◌, expect_or, checked, checked_div, u64_mod, u128_mod, err_role_not_found,
  err_missing_role, err_proposal_not_in_progress,
}
use sputnik_dao_contract.Host.{Env}
use sputnik_dao_contract.Dao.Data.{
  RoleKind, everyone, member, group, WeightOrRatio, weight, ratio, WeightKind, token_weight,
  role_weight, VotePolicy, RolePermission, Policy, ProposalStatus, in_progress, approved, rejected,
  removed, expired, failed, VoteCounts, Proposal,
}
use sputnik_dao_contract.Dao.Policy.Permissions.{kind_to_policy_label}

unfoldable pub to_weight : WeightOrRatio → ℕ → Result ℕ
to_weight (weight w) total_weight = ok (min w total_weight)
to_weight (ratio num denom) total_weight = do
  product ← checked u128_mod (num * total_weight)
  quotient ← checked_div product denom
  above ← checked u128_mod (quotient + 1)
  ok (min above total_weight)

unfoldable pub internal_get_role : List RolePermission → String → Option RolePermission
internal_get_role [] name = none
internal_get_role (r ∷ rs) name = if r.name == name then some r else internal_get_role rs name

-- `vote_policy.get(label).unwrap_or(&default_vote_policy)`
unfoldable pub role_vote_policy : Policy → RolePermission → String → VotePolicy
role_vote_policy policy role_info label = elim (Map.get role_info.vote_policy label) [
  | none ↦ policy.default_vote_policy
  | some vote_policy ↦ vote_policy
]

abbrev pub is_token_weight : WeightKind → Bool
is_token_weight token_weight = true
is_token_weight role_weight = false

unfoldable pub is_token_weighted : Policy → String → String → Result Bool
is_token_weighted policy role label = do
  role_info ← expect_or (internal_get_role policy.roles role) err_role_not_found
  ok (is_token_weight (role_vote_policy policy role_info label).weight_kind)

-- The total weight that a role's threshold is taken of; `none` for the role that is skipped.
unfoldable pub total_weight_of : RoleKind → WeightKind → ℕ → Option ℕ
total_weight_of everyone weight_kind total_supply = none
total_weight_of (group accounts) weight_kind total_supply =
    some (if is_token_weight weight_kind then total_supply else length accounts)
total_weight_of (member amount) weight_kind total_supply = some total_supply

abbrev pub no_votes : VoteCounts
no_votes = record { approve_count = 0; reject_count = 0; remove_count = 0 }

unfoldable pub counts_of : Map String VoteCounts → String → VoteCounts
counts_of vote_counts role = elim (Map.get vote_counts role) [
  | none ↦ no_votes
  | some counts ↦ counts
]

unfoldable pub verdict : VoteCounts → ℕ → Option ProposalStatus
verdict counts threshold =
    if leb threshold counts.approve_count
    then some approved
    else if leb threshold counts.reject_count
    then some rejected
    else if leb threshold counts.remove_count
    then some removed
    else none

-- `max(quorum, threshold.to_weight(total_weight))`
unfoldable pub threshold_of : VotePolicy → ℕ → Result ℕ
threshold_of vote_policy total_weight = do
  w ← to_weight vote_policy.threshold total_weight
  ok (max vote_policy.quorum w)

-- One round of the loop over the roles: the status that the role decides, if it does.
unfoldable pub role_status :
    Policy → Proposal → RolePermission → String → ℕ → Result (Option ProposalStatus)
role_status policy proposal role_info role total_supply =
    let vote_policy = role_vote_policy policy role_info (kind_to_policy_label proposal.kind) in
    elim (total_weight_of role_info.kind vote_policy.weight_kind total_supply) [
      | none ↦ ok none
      | some total_weight ↦ do
        threshold ← threshold_of vote_policy total_weight
        ok (verdict (counts_of proposal.vote_counts role) threshold)
    ]

unfoldable pub decide_status : Policy → Proposal → List String → ℕ → Result ProposalStatus
decide_status policy proposal [] total_supply = ok proposal.status
decide_status policy proposal (role ∷ roles) total_supply =
    let rest = decide_status policy proposal roles total_supply in
    do
      role_info ← expect_or (internal_get_role policy.roles role) err_missing_role
      decision ← role_status policy proposal role_info role total_supply
      elim decision [ none ↦ rest | some status ↦ ok status ]

-- `matches!(status, InProgress | Failed)`
abbrev pub is_open : ProposalStatus → Bool
is_open in_progress = true
is_open failed = true
is_open _ = false

unfoldable pub proposal_status : Env → Policy → Proposal → List String → ℕ → Result ProposalStatus
proposal_status env policy proposal roles total_supply =
    if is_open proposal.status
    then (do
      deadline ← checked u64_mod (proposal.submission_time + policy.proposal_period)
      if ltb deadline env.block_timestamp
          then ok expired
          else decide_status policy proposal roles total_supply)
    else err err_proposal_not_in_progress
