-- ===== src/Dao/Policy/Editing.antt =====
-- What the editing of roles does to the roles that the policy finds by name.
use sputnik_dao_contract.Base.{
  String, ◌≡◌, refl, Option, none, some, List, [], ◌∷◌, ◌==◌, string_key, eq_iff, if◌then◌else◌,
  arith,
}
use sputnik_dao_contract.Dao.Data.{RolePermission, RoleKind, Policy}
use sputnik_dao_contract.Dao.Policy.Roles.{
  update_or_push, add_or_update_role, drop_role, remove_role, with_kind, edit_kind,
  add_member_to_group, remove_member_from_group, add_member_to_role, remove_member_from_role,
}
use sputnik_dao_contract.Dao.Policy.Status.{internal_get_role}

get-update_or_push :
    (role : RolePermission) (rs : List RolePermission) (name : String)
    → internal_get_role (update_or_push role rs) name
      ≡ (if role.name == name then some role else internal_get_role rs name)
unfolding internal_get_role update_or_push
get-update_or_push role [] name = ground arith
get-update_or_push role (r ∷ rs) name = ground (
  arith,
  eq_iff r.name role.name,
  eq_iff r.name name,
  eq_iff role.name name,
  get-update_or_push role rs name,
)

-- After add_or_update_role the policy finds the new role under its name, and under every other name
-- what it found before.
pub get-add_or_update_role :
    (role : RolePermission) (policy : Policy) (name : String)
    → internal_get_role (add_or_update_role role policy).roles name
      ≡ (if role.name == name then some role else internal_get_role policy.roles name)
unfolding add_or_update_role
get-add_or_update_role role policy name = get-update_or_push role policy.roles name

-- No two roles have one name.
abbrev pub HasUniqueNames : List RolePermission → Type 0
HasUniqueNames [] = Unit
HasUniqueNames (r ∷ rs) = (internal_get_role rs r.name ≡ none) × HasUniqueNames rs

get-drop_role :
    (role : String) (rs : List RolePermission) (name : String)
    → HasUniqueNames rs
    → internal_get_role (drop_role role rs) name
      ≡ (if role == name then none else internal_get_role rs name)
unfolding internal_get_role drop_role
get-drop_role role [] name u = ground arith
get-drop_role role (r ∷ rs) name u = ground (
  arith,
  eq_iff r.name role,
  eq_iff r.name name,
  eq_iff role name,
  get-drop_role role rs name u.1,
)

-- Where role names are distinct, after remove_role the policy finds no role under the removed name,
-- and under every other name what it found before.
pub get-remove_role :
    (role : String) (policy : Policy) (name : String)
    → HasUniqueNames policy.roles
    → internal_get_role (remove_role role policy).roles name
      ≡ (if role == name then none else internal_get_role policy.roles name)
unfolding remove_role
get-remove_role role policy name u = get-drop_role role policy.roles name u

update_or_push-HasUniqueNames :
    (role : RolePermission) (rs : List RolePermission)
    → HasUniqueNames rs
    → HasUniqueNames (update_or_push role rs)
unfolding update_or_push internal_get_role
update_or_push-HasUniqueNames role [] u = ground arith
update_or_push-HasUniqueNames role (r ∷ rs) u = ground (
  arith,
  eq_iff r.name role.name,
  eq_iff role.name r.name,
  update_or_push-HasUniqueNames role rs u.1,
  get-update_or_push role rs r.name,
)

drop_role-HasUniqueNames :
    (role : String) (rs : List RolePermission)
    → HasUniqueNames rs
    → HasUniqueNames (drop_role role rs)
unfolding drop_role internal_get_role
drop_role-HasUniqueNames role [] u = tt
drop_role-HasUniqueNames role (r ∷ rs) u = ground (
  arith,
  eq_iff r.name role,
  drop_role-HasUniqueNames role rs u.1,
  get-drop_role role rs r.name u.1,
)

pub with_kind-name : (k : Option RoleKind) (r : RolePermission) → (with_kind k r).name ≡ r.name
unfolding with_kind
with_kind-name none r = refl
with_kind-name (some k) r = refl

abbrev pub edit_option :
    (RoleKind → Option RoleKind) → Option RolePermission → Option RolePermission
edit_option edit none = none
edit_option edit (some r) = some (with_kind (edit r.kind) r)

pub get-edit_kind :
    (edit : RoleKind → Option RoleKind) (role : String) (rs : List RolePermission) (name : String)
    → internal_get_role (edit_kind edit role rs) name ≡ (
        if role == name
        then edit_option edit (internal_get_role rs name)
        else internal_get_role rs name)
unfolding internal_get_role edit_kind
get-edit_kind edit role [] name = ground arith
get-edit_kind edit role (r ∷ rs) name = ground (
  arith,
  eq_iff r.name role,
  eq_iff r.name name,
  eq_iff role name,
  eq_iff (with_kind (edit r.kind) r).name name,
  with_kind-name (edit r.kind) r,
  get-edit_kind edit role rs name,
)

edit_kind-HasUniqueNames :
    (edit : RoleKind → Option RoleKind) (role : String) (rs : List RolePermission)
    → HasUniqueNames rs
    → HasUniqueNames (edit_kind edit role rs)
unfolding edit_kind internal_get_role
edit_kind-HasUniqueNames edit role [] u = tt
edit_kind-HasUniqueNames edit role (r ∷ rs) u = ground (
  arith,
  eq_iff r.name role,
  eq_iff role r.name,
  with_kind-name (edit r.kind) r,
  edit_kind-HasUniqueNames edit role rs u.1,
  get-edit_kind edit role rs r.name,
)

-- Adding or updating a role, removing a role, and adding or removing a member all keep the role
-- names of a policy distinct.
pub editing-HasUniqueNames :
    (policy : Policy) (new_role : RolePermission) (role account : String)
    → HasUniqueNames policy.roles
    → HasUniqueNames (add_or_update_role new_role policy).roles
      × HasUniqueNames (remove_role role policy).roles
      × HasUniqueNames (add_member_to_role role account policy).roles
      × HasUniqueNames (remove_member_from_role role account policy).roles
unfolding add_or_update_role remove_role add_member_to_role remove_member_from_role
editing-HasUniqueNames policy new_role role account u = (
  update_or_push-HasUniqueNames new_role policy.roles u,
  drop_role-HasUniqueNames role policy.roles u,
  edit_kind-HasUniqueNames (add_member_to_group account) role policy.roles u,
  edit_kind-HasUniqueNames (remove_member_from_group account) role policy.roles u,
)
