-- ===== src/Dao/Tests/PolicyCases.antt =====
-- The theorems on the policy, at a policy with a council of two.
use sputnik_dao_contract.Base.{
  ℕ, ◌+◌, ◌-◌, ◌*◌, ◌<◌, ◌≤◌, String, ◌≡◌, refl, ◌⊎◌, inl, ◌↔◌, true, [], ◌∷◌, ◌==◌, string_key,
  ◌||◌, ◌&&◌, not,
}
use sputnik_dao_contract.Map
use sputnik_dao_contract.Result.{ok}
use sputnik_dao_contract.Dao.Types.{vote_approve}
use sputnik_dao_contract.Dao.Data.{
  UserInfo, ProposalKind, RolePermission, expired, in_progress, Proposal, approved,
}
use sputnik_dao_contract.Dao.Policy.Roles.{
  add_or_update_role, remove_role, add_member_to_role, remove_member_from_role,
}
use sputnik_dao_contract.Dao.Policy.Permissions.{can_execute_action, kind_to_policy_label}
use sputnik_dao_contract.Dao.Policy.Status.{
  to_weight, internal_get_role, proposal_status, decide_status, role_status, role_vote_policy,
  total_weight_of, threshold_of, counts_of, verdict,
}
use sputnik_dao_contract.Dao.Policy.Thresholds.{to_weight-exceeds}
use sputnik_dao_contract.Dao.Policy.Editing.{HasUniqueNames, editing-HasUniqueNames}
use sputnik_dao_contract.Dao.Policy.Members.{
  listed, is_group, listed-add_member_to_role, listed-remove_member_from_role,
}
use sputnik_dao_contract.Dao.Policy.UserRoles.{IsHashOrder}
use sputnik_dao_contract.Dao.Policy.Access.{Grants, allowed_iff}
use sputnik_dao_contract.Dao.Policy.Decision.{
  DecidedBy, Undecided, proposal_status_sound, proposal_status-unchanged,
}
use sputnik_dao_contract.Dao.Tests.{alice_env, small_policy, council, poll}

abbrev two : ℕ
two = 2

to_weight-exceeds_example : (two ≤ 3) × ((two ≡ 3) ⊎ (1 * 3 < two * 2)) × ((two - 1) * 2 ≤ 1 * 3)
unfolding to_weight
to_weight-exceeds_example = to_weight-exceeds 1 2 3 {n = two} refl

abbrev council_name : String
council_name = "council"

abbrev bob : String
bob = "bob"

abbrev carol : String
carol = "carol"

small_policy-HasUniqueNames : HasUniqueNames small_policy.roles
unfolding internal_get_role
small_policy-HasUniqueNames = (refl, (refl, tt))

editing-HasUniqueNames_example :
    HasUniqueNames (add_or_update_role council small_policy).roles
    × HasUniqueNames (remove_role "all" small_policy).roles
    × HasUniqueNames (add_member_to_role "all" "carol" small_policy).roles
    × HasUniqueNames (remove_member_from_role "all" "carol" small_policy).roles
editing-HasUniqueNames_example =
    editing-HasUniqueNames small_policy council "all" "carol" small_policy-HasUniqueNames

listed-add_member_to_role_example :
    listed
      (internal_get_role (add_member_to_role "council" "carol" small_policy).roles "council")
      "carol"
    ≡ (council_name == council_name
          && carol == carol
          && is_group (internal_get_role small_policy.roles "council")
        || listed (internal_get_role small_policy.roles "council") "carol")
listed-add_member_to_role_example =
    listed-add_member_to_role small_policy "council" "carol" "council" "carol"

listed-remove_member_from_role_example :
    listed
      (internal_get_role (remove_member_from_role "council" "bob" small_policy).roles "council")
      "bob"
    ≡ (not (council_name == council_name && bob == bob)
        && listed (internal_get_role small_policy.roles "council") "bob")
listed-remove_member_from_role_example =
    listed-remove_member_from_role small_policy "council" "bob" "council" "bob"

abbrev alice : UserInfo
alice = record { account_id = "alice"; amount = 0 }

alice_env-IsHashOrder : IsHashOrder alice_env
alice_env-IsHashOrder = record { sound = λ entries x i. i; complete = λ entries x i. i }

allowed_iff_example :
    ((can_execute_action alice_env small_policy alice ProposalKind.vote vote_approve).1 ≡ true)
    ↔ ((r : RolePermission) × Grants small_policy alice ProposalKind.vote vote_approve r)
allowed_iff_example =
    allowed_iff alice_env small_policy alice ProposalKind.vote vote_approve alice_env-IsHashOrder
      small_policy-HasUniqueNames

-- Both of the council approve.
abbrev carried : Proposal
carried = record poll {
  vote_counts = ("council", record { approve_count = 2; reject_count = 0; remove_count = 0 }) ∷ [];
}

carried_approved : proposal_status alice_env small_policy carried ("council" ∷ []) 0 ≡ ok approved
unfolding proposal_status decide_status role_status role_vote_policy internal_get_role
    total_weight_of threshold_of to_weight counts_of verdict kind_to_policy_label Map.get
carried_approved = refl

proposal_status_sound_example :
    ((carried.submission_time + small_policy.proposal_period < 10) × (approved ≡ expired))
    ⊎ ((10 ≤ carried.submission_time + small_policy.proposal_period)
        × ((approved ≡ in_progress) ⊎ DecidedBy small_policy carried 0 approved ("council" ∷ [])))
proposal_status_sound_example =
    proposal_status_sound small_policy carried 0 alice_env ("council" ∷ []) approved
      carried_approved

poll_open : proposal_status alice_env small_policy poll ("council" ∷ []) 0 ≡ ok in_progress
unfolding proposal_status decide_status role_status role_vote_policy internal_get_role
    total_weight_of threshold_of to_weight counts_of verdict kind_to_policy_label Map.get
poll_open = refl

proposal_status-unchanged_example : Undecided small_policy poll 0 "council"
proposal_status-unchanged_example =
    proposal_status-unchanged small_policy poll 0 alice_env ("council" ∷ []) poll_open "council"
      (inl refl)
