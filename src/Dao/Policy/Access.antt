-- ===== src/Dao/Policy/Access.antt =====
-- Who may do what: `can_execute_action` of sputnikdao2/src/policy.rs against the roles of a policy.
use sputnik_dao_contract.Base.{
  String, ◌≡◌, refl, sym, subst, ◌↔◌, Bool, true, false, List, [], ◌∷◌, In, inl, inr,
}
use sputnik_dao_contract.Host.{Env}
use sputnik_dao_contract.Dao.Types.{Action, action_to_policy_label}
use sputnik_dao_contract.Dao.Data.{UserInfo, RolePermission, Policy, ProposalKind}
use sputnik_dao_contract.Dao.Policy.Roles.{match_user}
use sputnik_dao_contract.Dao.Policy.Permissions.{
  get_user_roles, role_allows, can_execute_action, kind_to_policy_label,
}
use sputnik_dao_contract.Dao.Policy.Editing.{HasUniqueNames}
use sputnik_dao_contract.Dao.Policy.UserRoles.{
  IsHashOrder, Permits, role_allows-Permits, Permits-role_allows, collect_sound, get-collect,
  In-get, filter_sound, filter_complete, filter-allowed,
}

-- A role of the policy that the user matches and whose permissions cover the action on the kind.
abbrev pub Grants : Policy → UserInfo → ProposalKind → Action → RolePermission → Type 0
Grants policy user kind action r =
    In r policy.roles
    × (match_user r.kind user ≡ true)
    × Permits (kind_to_policy_label kind) (action_to_policy_label action) r.permissions

some_name :
    (names : List String) (any : Bool)
    → any ≡ (elim names [ [] ↦ false | _ ∷ _ ↦ true ])
    → any ≡ true
    → (name : String) × In name names
some_name [] any e h = cc
some_name (name ∷ names) any e h = (name, inl refl)

is_some_name :
    (name : String) (names : List String) (any : Bool)
    → any ≡ (elim names [ [] ↦ false | _ ∷ _ ↦ true ])
    → In name names
    → any ≡ true
is_some_name name [] any e h = absurd h
is_some_name name (n ∷ names) any e h = e

module _ (env : Env) (policy : Policy) (user : UserInfo) (kind : ProposalKind)
    (action : Action) where
  -- Every role name that can_execute_action returns is the name of a role of the policy that the
  -- user matches and whose permissions cover the action on the kind, in whatever order a HashMap is
  -- visited, as long as all of its entries and no others are.
  pub can_execute_action_sound :
      (name : String)
      → IsHashOrder env
      → In name (can_execute_action env policy user kind action).0
      → (r : RolePermission) × (r.name ≡ name) × Grants policy user kind action r
  unfolding can_execute_action get_user_roles
  can_execute_action_sound name order h =
      let (permissions, entry, allows) =
        filter_sound (kind_to_policy_label kind) (action_to_policy_label action)
          (env.hash_order (get_user_roles policy user)) false name h in
      elim (collect_sound policy.roles user [] (name, permissions)
        (order.sound (get_user_roles policy user) (name, permissions) entry)) [
          | inl (r, listed, matched, same, perms) ↦ (
            r,
            same,
            (
              listed,
              matched,
              role_allows-Permits _ _ r.permissions (
                  subst
                    (λ p.
                      role_allows (kind_to_policy_label kind) (action_to_policy_label action) p
                      ≡ true)
                    (sym perms) allows),
            ),
          )
          | inr none_yet ↦ absurd none_yet
        ]

  -- Where role names are distinct and a HashMap's entries are all visited, can_execute_action
  -- returns the name of each role that the user matches and whose permissions cover the action on
  -- the kind.
  pub can_execute_action_complete :
      (r : RolePermission)
      → IsHashOrder env
      → HasUniqueNames policy.roles
      → Grants policy user kind action r
      → In r.name (can_execute_action env policy user kind action).0
  unfolding can_execute_action get_user_roles
  can_execute_action_complete r order unique (listed, matched, permitted) =
      filter_complete (kind_to_policy_label kind) (action_to_policy_label action)
        (env.hash_order (get_user_roles policy user)) false r.name r.permissions
        (order.complete (get_user_roles policy user) (r.name, r.permissions)
          (In-get r.name r.permissions (get_user_roles policy user)
            (get-collect policy.roles user [] r unique listed matched)))
        (Permits-role_allows _ _ r.permissions permitted)

  allowed_by_name :
      (can_execute_action env policy user kind action).1 ≡ true
      → (name : String) × In name (can_execute_action env policy user kind action).0
  unfolding can_execute_action get_user_roles
  allowed_by_name h =
      some_name _ _
        (filter-allowed (kind_to_policy_label kind) (action_to_policy_label action)
          (env.hash_order (get_user_roles policy user)) false)
        h

  name_allows :
      (name : String)
      → In name (can_execute_action env policy user kind action).0
      → (can_execute_action env policy user kind action).1 ≡ true
  unfolding can_execute_action get_user_roles
  name_allows name h =
      is_some_name name _ _
        (filter-allowed (kind_to_policy_label kind) (action_to_policy_label action)
          (env.hash_order (get_user_roles policy user)) false)
        h

  -- Where role names are distinct, can_execute_action allows an action on a kind of proposal
  -- exactly when some role of the policy that the user matches has a permission which covers the
  -- action on the kind, in whatever order a HashMap is visited, as long as all of its entries and
  -- no others are.
  pub allowed_iff :
      IsHashOrder env
      → HasUniqueNames policy.roles
      → ((can_execute_action env policy user kind action).1 ≡ true)
        ↔ ((r : RolePermission) × Grants policy user kind action r)
  allowed_iff order unique = (
    λ h.
        let (name, returned) = allowed_by_name h in
        let (r, same, grants) = can_execute_action_sound name order returned in (r, grants),
    λ g.
        let (r, grants) = g in
        name_allows r.name (can_execute_action_complete r order unique grants),
  )
