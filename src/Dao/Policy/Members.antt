-- ===== src/Dao/Policy/Members.antt =====
-- Who is in a role after its members were edited: sputnikdao2/src/policy.rs.
use sputnik_dao_contract.Base.{
  String, ◌≡◌, refl, Bool, true, false, Option, none, some, ◌==◌, string_key, contains,
  contains-set_insert, contains-set_remove, ◌||◌, ◌&&◌, not, if◌then◌else◌, arith, Option-cases,
  inl, inr,
}
use sputnik_dao_contract.Dao.Data.{RolePermission, RoleKind, everyone, member, group, Policy}
use sputnik_dao_contract.Dao.Policy.Roles.{
  with_kind, add_member_to_group, remove_member_from_group, add_member_to_role,
  remove_member_from_role,
}
use sputnik_dao_contract.Dao.Policy.Status.{internal_get_role}
use sputnik_dao_contract.Dao.Policy.Editing.{edit_option, get-edit_kind}

-- The accounts that are listed in a role; none where there is no such group.
abbrev pub listed_in : RoleKind → String → Bool
listed_in everyone account = false
listed_in (member amount) account = false
listed_in (group accounts) account = contains accounts account

abbrev pub listed : Option RolePermission → String → Bool
listed none account = false
listed (some r) account = listed_in r.kind account

abbrev pub is_group_kind : RoleKind → Bool
is_group_kind everyone = false
is_group_kind (member amount) = false
is_group_kind (group accounts) = true

abbrev pub is_group : Option RolePermission → Bool
is_group none = false
is_group (some r) = is_group_kind r.kind

listed_after : (RoleKind → Option RoleKind) → RoleKind → String → Bool
listed_after edit k account = elim (edit k) [
  | none ↦ listed_in k account
  | some k' ↦ listed_in k' account
]

listed-edit_option :
    (edit : RoleKind → Option RoleKind) (o : Option RolePermission) (account : String)
    → listed (edit_option edit o) account
      ≡ elim o [ none ↦ false | some r ↦ listed_after edit r.kind account ]
unfolding listed_after with_kind
listed-edit_option edit none account = refl
listed-edit_option edit (some r) account = ground arith

listed_after-add :
    (id account : String) (k : RoleKind)
    → listed_after (add_member_to_group id) k account
      ≡ (if is_group_kind k then id == account || listed_in k account else listed_in k account)
unfolding listed_after add_member_to_group
listed_after-add id account everyone = refl
listed_after-add id account (member amount) = refl
listed_after-add id account (group accounts) = contains-set_insert id account accounts

listed_after-remove :
    (id account : String) (k : RoleKind)
    → listed_after (remove_member_from_group id) k account
      ≡ (if id == account then false else listed_in k account)
unfolding listed_after remove_member_from_group
listed_after-remove id account everyone = ground arith
listed_after-remove id account (member amount) = ground arith
listed_after-remove id account (group accounts) = contains-set_remove id account accounts

-- Adding a member to a role lists that account in the first role of that name, if it is a group,
-- and changes no other account's and no other role's membership.
pub listed-add_member_to_role :
    (policy : Policy) (role id name account : String)
    → listed (internal_get_role (add_member_to_role role id policy).roles name) account ≡ (
        role == name && id == account && is_group (internal_get_role policy.roles name)
        || listed (internal_get_role policy.roles name) account)
unfolding add_member_to_role
listed-add_member_to_role policy role id name account =
    rw get-edit_kind (elim (Option-cases (internal_get_role policy.roles name)) [
      | inl missing ↦ rw missing (ground arith)
      | inr (r, found) ↦ rw found (
          ground (
            arith,
            listed-edit_option (add_member_to_group id) (some r) account,
            listed_after-add id account r.kind,
          ))
    ])

-- Removing a member from a role takes that account off the first role of that name, and changes no
-- other account's and no other role's membership.
pub listed-remove_member_from_role :
    (policy : Policy) (role id name account : String)
    → listed (internal_get_role (remove_member_from_role role id policy).roles name) account ≡ (
        not (role == name && id == account) && listed (internal_get_role policy.roles name) account)
unfolding remove_member_from_role
listed-remove_member_from_role policy role id name account =
    rw get-edit_kind (elim (Option-cases (internal_get_role policy.roles name)) [
      | inl missing ↦ rw missing (ground arith)
      | inr (r, found) ↦ rw found (
          ground (
            arith,
            listed-edit_option (remove_member_from_group id) (some r) account,
            listed_after-remove id account r.kind,
          ))
    ])
