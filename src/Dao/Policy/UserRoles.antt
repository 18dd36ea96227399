-- ===== src/Dao/Policy/UserRoles.antt =====
-- The steps of `can_execute_action` of sputnikdao2/src/policy.rs: the roles that a user matches, and
-- those of them whose permissions cover an action.
use Prim.Native.String.{◌++◌ as append}
use sputnik_dao_contract.Base.{
  String, ◌≡◌, refl, ◌∙◌, ap, ◌⊎◌, inl, inr, Bool, true, ◌||◌, none, some, List, [], ◌∷◌,
  string_key, eq_iff, In, contains-In, In-contains, if◌then◌else◌, arith, Bool-cases,
}
use sputnik_dao_contract.Map
use sputnik_dao_contract.Map.{Map, get-insert, get-insert_self}
use sputnik_dao_contract.Host.{Env}
use sputnik_dao_contract.Dao.Data.{UserInfo, RolePermission}
use sputnik_dao_contract.Dao.Policy.Roles.{match_user}
use sputnik_dao_contract.Dao.Policy.Permissions.{collect_user_roles, role_allows, filter_roles}
use sputnik_dao_contract.Dao.Policy.Status.{internal_get_role}
use sputnik_dao_contract.Dao.Policy.Editing.{HasUniqueNames}

abbrev pub Entry : Type 0
Entry = String × List String

-- The iteration over a `HashMap` visits exactly its entries.
pub record IsHashOrder (env : Env) : Type 0 where
  pub sound : (entries : List Entry) (x : Entry) → In x (env.hash_order entries) → In x entries
  pub complete : (entries : List Entry) (x : Entry) → In x entries → In x (env.hash_order entries)

-- A permission for the kind and the action, with `*` for either.
abbrev pub Permits : String → String → List String → Type 0
Permits kind_label action_label permissions =
    In (append kind_label (append ":" action_label)) permissions
    ⊎ In (append kind_label ":*") permissions
    ⊎ In (append "*:" action_label) permissions
    ⊎ In "*:*" permissions

pub role_allows-Permits :
    (k a : String) (permissions : List String)
    → role_allows k a permissions ≡ true
    → Permits k a permissions
unfolding role_allows
role_allows-Permits k a permissions h = ground (
  arith,
  contains-In permissions (append k (append ":" a)),
  contains-In permissions (append k ":*"),
  contains-In permissions (append "*:" a),
  contains-In permissions "*:*",
)

pub Permits-role_allows :
    (k a : String) (permissions : List String)
    → Permits k a permissions
    → role_allows k a permissions ≡ true
unfolding role_allows
Permits-role_allows k a permissions h = ground (
  arith,
  In-contains permissions (append k (append ":" a)),
  In-contains permissions (append k ":*"),
  In-contains permissions (append "*:" a),
  In-contains permissions "*:*",
)

In-insert :
    (k : String) (v : List String) (m : Map String (List String)) (x : Entry)
    → In x (Map.insert k v m)
    → (x ≡ (k, v)) ⊎ In x m
unfolding Map.insert
In-insert k v [] x h = h
In-insert k v ((j, w) ∷ m) x h = ground (arith, In-insert k v m x)

pub In-get :
    (k : String) (v : List String) (m : Map String (List String))
    → Map.get m k ≡ some v
    → In (let e : Entry = (k, v) in e) m
unfolding Map.get
In-get k v [] h = cc
In-get k v ((j, w) ∷ m) h = ground (arith, In-get k v m, eq_iff j k)

-- A role of the list that the user matches, with the name and the permissions of an entry.
abbrev pub Source : List RolePermission → UserInfo → Entry → Type 0
Source rs user x =
    (r : RolePermission) × In r rs
    × (match_user r.kind user ≡ true)
    × (r.name ≡ x.0)
    × (r.permissions ≡ x.1)

Source-cons :
    (r : RolePermission) (rs : List RolePermission) (user : UserInfo) (x : Entry)
    → Source rs user x
    → Source (r ∷ rs) user x
Source-cons r rs user x (s, m, matched, name, permissions) = (s, inr m, matched, name, permissions)

-- What one round adds to the entries stems from its role.
round_sound :
    (r : RolePermission) (rs : List RolePermission) (user : UserInfo)
    (roles : Map String (List String)) (x : Entry)
    → In x (if match_user r.kind user then Map.insert r.name r.permissions roles else roles)
    → Source (r ∷ rs) user x ⊎ In x roles
round_sound r rs user roles x h = elim (Bool-cases (match_user r.kind user)) [
  | inl matched ↦ elim (In-insert r.name r.permissions roles x (rw matched at h)) [
    | inl same ↦ inl (r, inl refl, matched, cc, cc)
    | inr old ↦ inr old
  ]
  | inr other ↦ inr (rw other at h)
]

pub collect_sound :
    (rs : List RolePermission) (user : UserInfo) (roles : Map String (List String)) (x : Entry)
    → In x (collect_user_roles rs user roles)
    → Source rs user x ⊎ In x roles
unfolding collect_user_roles
collect_sound [] user roles x h = inr h
collect_sound (r ∷ rs) user roles x h =
    elim (collect_sound rs user
      (if match_user r.kind user then Map.insert r.name r.permissions roles else roles) x h) [
        | inl later ↦ inl (Source-cons r rs user x later)
        | inr entry ↦ round_sound r rs user roles x entry
      ]

get-collect_other :
    (rs : List RolePermission) (user : UserInfo) (roles : Map String (List String)) (name : String)
    → internal_get_role rs name ≡ none
    → Map.get (collect_user_roles rs user roles) name ≡ Map.get roles name
unfolding collect_user_roles internal_get_role
get-collect_other [] user roles name h = refl
get-collect_other (r ∷ rs) user roles name h =
    get-collect_other rs user
      (if match_user r.kind user then Map.insert r.name r.permissions roles else roles) name
      (ground arith)
    ∙ ground (arith, get-insert r.name name r.permissions roles)

pub get-collect :
    (rs : List RolePermission) (user : UserInfo) (roles : Map String (List String))
    (r : RolePermission)
    → HasUniqueNames rs
    → In r rs
    → match_user r.kind user ≡ true
    → Map.get (collect_user_roles rs user roles) r.name ≡ some r.permissions
unfolding collect_user_roles internal_get_role
get-collect [] user roles r u i matched = absurd i
get-collect (s ∷ rs) user roles r u (inl same) matched =
    get-collect_other rs user
      (if match_user s.kind user then Map.insert s.name s.permissions roles else roles) r.name
      (ground arith)
    ∙ ground (arith, get-insert_self s.name s.permissions roles)
get-collect (s ∷ rs) user roles r u (inr rest) matched =
    get-collect rs user
      (if match_user s.kind user then Map.insert s.name s.permissions roles else roles) r u.1 rest
      matched

pub filter_sound :
    (k a : String) (entries : List Entry) (allowed : Bool) (name : String)
    → In name (filter_roles k a entries allowed).0
    → (permissions : List String) × In (let e : Entry = (name, permissions) in e) entries
      × (role_allows k a permissions ≡ true)
unfolding filter_roles
filter_sound k a [] allowed name h = absurd h
filter_sound k a ((role, p) ∷ rest) allowed name h = elim (Bool-cases (role_allows k a p)) [
  | inl allows ↦
      elim (let first : In name (role ∷ (filter_roles k a rest (allowed || role_allows k a p)).0) =
          ground arith in
        first) [
          | inl same ↦ (p, inl (ap (λ n. (n, p)) same), allows)
          | inr later ↦
              let (q, i, e) = filter_sound k a rest (allowed || role_allows k a p) name later in
              (q, inr i, e)
        ]
  | inr denies ↦
      let (q, i, e) = filter_sound k a rest (allowed || role_allows k a p) name (ground arith) in
      (q, inr i, e)
]

pub filter_complete :
    (k a : String) (entries : List Entry) (allowed : Bool) (name : String)
    (permissions : List String)
    → In (let e : Entry = (name, permissions) in e) entries
    → role_allows k a permissions ≡ true
    → In name (filter_roles k a entries allowed).0
unfolding filter_roles
filter_complete k a [] allowed name p i h = absurd i
filter_complete k a ((role, q) ∷ rest) allowed name p i h =
    ground (arith, filter_complete k a rest (allowed || role_allows k a q) name p)

-- `allowed` says whether a role was found.
pub filter-allowed :
    (k a : String) (entries : List Entry) (allowed : Bool)
    → (filter_roles k a entries allowed).1
      ≡ (elim (filter_roles k a entries allowed).0 [ [] ↦ allowed | _ ∷ _ ↦ true ])
unfolding filter_roles
filter-allowed k a [] allowed = refl
filter-allowed k a ((role, q) ∷ rest) allowed =
    ground (arith, filter-allowed k a rest (allowed || role_allows k a q))
