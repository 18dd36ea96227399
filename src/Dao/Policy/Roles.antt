-- ===== src/Dao/Policy/Roles.antt =====
-- The roles of sputnikdao2/src/policy.rs: membership, the default policy and its versions, and the
-- editing of roles and parameters. The lines that only write to the log are left out.
use sputnik_dao_contract.Base.{
  ℕ, ◌*◌, ◌^◌, String, Bool, true, Option, none, some, List, [], ◌∷◌, ◌==◌, string_key, contains,
  set_insert, set_remove, collect_set, length, leb, if◌then◌else◌,
}
use sputnik_dao_contract.Result.{Result, ok, err, unimplemented}
use sputnik_dao_contract.Dao.Data.{
  RoleKind, everyone, member, group, UserInfo, ratio, role_weight, VotePolicy, RolePermission,
  Policy, VersionedPolicy, default, current, PolicyParameters,
}

-- `RoleKind`

unfoldable pub match_user : RoleKind → UserInfo → Bool
match_user everyone user = true
match_user (member amount) user = leb amount user.amount
match_user (group accounts) user = contains accounts user.account_id

unfoldable pub get_role_size : RoleKind → Option ℕ
get_role_size everyone = none
get_role_size (member amount) = none
get_role_size (group accounts) = some (length accounts)

-- `none` is `Err(())`.
unfoldable pub add_member_to_group : String → RoleKind → Option RoleKind
add_member_to_group member_id everyone = none
add_member_to_group member_id (member amount) = none
add_member_to_group member_id (group accounts) = some (group (set_insert member_id accounts))

unfoldable pub remove_member_from_group : String → RoleKind → Option RoleKind
remove_member_from_group member_id everyone = none
remove_member_from_group member_id (member amount) = none
remove_member_from_group member_id (group accounts) = some (group (set_remove member_id accounts))

-- `VotePolicy::default`
abbrev pub default_vote_policy : VotePolicy
default_vote_policy = record { weight_kind = role_weight; quorum = 0; threshold = ratio 1 2 }

unfoldable pub default_policy : List String → Policy
default_policy council = record {
  roles =
      record { name = "all"; kind = everyone; permissions = "*:AddProposal" ∷ []; vote_policy = [] }
      ∷ record {
        name = "council";
        kind = group (collect_set council);
        permissions =
            "*:AddProposal" ∷ "*:VoteApprove" ∷ "*:VoteReject" ∷ "*:VoteRemove" ∷ "*:Finalize" ∷ [];
        vote_policy = [];
      }
      ∷ [];
  default_vote_policy = default_vote_policy;
  proposal_bond = 10 ^ 24;
  proposal_period = 1_000_000_000 * 60 * 60 * 24 * 7;
  bounty_bond = 10 ^ 24;
  bounty_forgiveness_period = 1_000_000_000 * 60 * 60 * 24;
}

-- `VersionedPolicy`

unfoldable pub upgrade : VersionedPolicy → VersionedPolicy
upgrade (default accounts) = current (default_policy accounts)
upgrade (current policy) = current policy

unfoldable pub to_policy : VersionedPolicy → Result Policy
to_policy (default accounts) = err unimplemented
to_policy (current policy) = ok policy

-- The editing of roles: each loop stops at the first role of the name.

unfoldable pub update_or_push : RolePermission → List RolePermission → List RolePermission
update_or_push role [] = role ∷ []
update_or_push role (r ∷ rs) = if r.name == role.name then role ∷ rs else r ∷ update_or_push role rs

unfoldable pub add_or_update_role : RolePermission → Policy → Policy
add_or_update_role role policy = record policy { roles = update_or_push role policy.roles }

unfoldable pub drop_role : String → List RolePermission → List RolePermission
drop_role role [] = []
drop_role role (r ∷ rs) = if r.name == role then rs else r ∷ drop_role role rs

unfoldable pub remove_role : String → Policy → Policy
remove_role role policy = record policy { roles = drop_role role policy.roles }

unfoldable pub update_default_vote_policy : VotePolicy → Policy → Policy
update_default_vote_policy vote_policy policy = record policy { default_vote_policy = vote_policy }

-- `if p.is_some() { field = p.unwrap() }`
abbrev pub or_keep : Option ℕ → ℕ → ℕ
or_keep none old = old
or_keep (some new) old = new

unfoldable pub update_parameters : PolicyParameters → Policy → Policy
update_parameters parameters policy = record policy {
  proposal_bond = or_keep parameters.proposal_bond policy.proposal_bond;
  proposal_period = or_keep parameters.proposal_period policy.proposal_period;
  bounty_bond = or_keep parameters.bounty_bond policy.bounty_bond;
  bounty_forgiveness_period =
      or_keep parameters.bounty_forgiveness_period policy.bounty_forgiveness_period;
}

-- A role of the wrong kind is left as it is.
unfoldable pub with_kind : Option RoleKind → RolePermission → RolePermission
with_kind none r = r
with_kind (some kind) r = record r { kind = kind }

-- The loop of `add_member_to_role` and `remove_member_from_role`, over what it does to the kind.
unfoldable pub edit_kind :
    (RoleKind → Option RoleKind) → String → List RolePermission → List RolePermission
edit_kind edit role [] = []
edit_kind edit role (r ∷ rs) =
    if r.name == role then with_kind (edit r.kind) r ∷ rs else r ∷ edit_kind edit role rs

unfoldable pub add_member_to_role : String → String → Policy → Policy
add_member_to_role role member_id policy = record policy {
  roles = edit_kind (add_member_to_group member_id) role policy.roles;
}

unfoldable pub remove_member_from_role : String → String → Policy → Policy
remove_member_from_role role member_id policy = record policy {
  roles = edit_kind (remove_member_from_group member_id) role policy.roles;
}
