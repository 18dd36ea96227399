-- ===== src/Dao/Policy/Permissions.antt =====
-- The permissions of sputnikdao2/src/policy.rs, with the labels of proposal kinds of
-- sputnikdao2/src/proposals.rs.
use Prim.Native.String.{◌++◌ as append}
use sputnik_dao_contract.Base.{
  String, Bool, false, ◌||◌, List, [], ◌∷◌, string_key, contains, if◌then◌else◌,
}
use sputnik_dao_contract.Map
use sputnik_dao_contract.Map.{Map}
use sputnik_dao_contract.Host.{Env}
use sputnik_dao_contract.Dao.Types.{Action, action_to_policy_label}
use sputnik_dao_contract.Dao.Data.{UserInfo, RolePermission, Policy, ProposalKind}
use sputnik_dao_contract.Dao.Policy.Roles.{match_user}

unfoldable pub kind_to_policy_label : ProposalKind → String
kind_to_policy_label (ProposalKind.change_config config) = "config"
kind_to_policy_label (ProposalKind.change_policy policy) = "policy"
kind_to_policy_label (ProposalKind.add_member_to_role member_id role) = "add_member_to_role"
kind_to_policy_label (ProposalKind.remove_member_from_role member_id role) =
    "remove_member_from_role"
kind_to_policy_label (ProposalKind.function_call receiver_id actions) = "call"
kind_to_policy_label (ProposalKind.upgrade_self hash) = "upgrade_self"
kind_to_policy_label (ProposalKind.upgrade_remote receiver_id method_name hash) = "upgrade_remote"
kind_to_policy_label (ProposalKind.transfer token_id receiver_id amount msg) = "transfer"
kind_to_policy_label (ProposalKind.set_staking_contract staking_id) = "set_vote_token"
kind_to_policy_label (ProposalKind.add_bounty bounty) = "add_bounty"
kind_to_policy_label (ProposalKind.bounty_done bounty_id receiver_id) = "bounty_done"
kind_to_policy_label ProposalKind.vote = "vote"
kind_to_policy_label (ProposalKind.factory_info_update factory_info) = "factory_info_update"
kind_to_policy_label (ProposalKind.change_policy_add_or_update_role role) =
    "policy_add_or_update_role"
kind_to_policy_label (ProposalKind.change_policy_remove_role role) = "policy_remove_role"
kind_to_policy_label (ProposalKind.change_policy_update_default_vote_policy vote_policy) =
    "policy_update_default_vote_policy"
kind_to_policy_label (ProposalKind.change_policy_update_parameters parameters) =
    "policy_update_parameters"

-- A later role of the same name takes the place of an earlier one.
unfoldable pub collect_user_roles :
    List RolePermission → UserInfo → Map String (List String) → Map String (List String)
collect_user_roles [] user roles = roles
collect_user_roles (r ∷ rs) user roles =
    collect_user_roles rs user
      (if match_user r.kind user then Map.insert r.name r.permissions roles else roles)

unfoldable pub get_user_roles : Policy → UserInfo → Map String (List String)
get_user_roles policy user = collect_user_roles policy.roles user []

-- The four patterns of a permission: `kind:action`, `kind:*`, `*:action` and `*:*`.
unfoldable pub role_allows : String → String → List String → Bool
role_allows kind_label action_label permissions =
    contains permissions (append kind_label (append ":" action_label))
    || contains permissions (append kind_label ":*")
    || contains permissions (append "*:" action_label)
    || contains permissions "*:*"

-- The closure of `filter_map`, which also sets `allowed`.
unfoldable pub filter_roles :
    String → String → List (String × List String) → Bool → List String × Bool
filter_roles kind_label action_label [] allowed = ([], allowed)
filter_roles kind_label action_label ((role, permissions) ∷ rest) allowed =
    let allowed_role = role_allows kind_label action_label permissions in
    let (names, any) = filter_roles kind_label action_label rest (allowed || allowed_role) in
    (if allowed_role then role ∷ names else names, any)

unfoldable pub can_execute_action :
    Env → Policy → UserInfo → ProposalKind → Action → List String × Bool
can_execute_action env policy user proposal_kind action =
    filter_roles (kind_to_policy_label proposal_kind) (action_to_policy_label action)
      (env.hash_order (get_user_roles policy user)) false
