-- ===== src/System/Weights/Sending.antt =====
-- What each call of the staking contract tells its DAO: the promises of sputnik-staking/src to the
-- owner, read as messages, and the change of the users that they go with.
use sputnik_dao_contract.Base.{
  ℕ, ◌+◌, ◌-◌, ◌≤◌, ◌≡◌, refl, ap, subst, String, Option, none, some, List, [], ◌∷◌, ◌++◌, ◌==◌,
  string_key, if◌then◌else◌, nat_beq, beq_refl, arith, Option-cases, Bool-cases, inl, inr,
}
use sputnik_dao_contract.Map
use sputnik_dao_contract.Map.{Map, get-insert}
use sputnik_dao_contract.Result.{ok, Result-cases}
use sputnik_dao_contract.Host.{
  Env, Host, Promise, PromiseAction, function_call, CallArgs, account_args, delegation_args,
  PromiseResult, not_ready, successful, failed, ◌>>=◌,
}
use sputnik_dao_contract.Dao.Delegation.Ledger.{Message, register, give, take_back}
use sputnik_dao_contract.Staking.User
use sputnik_dao_contract.Staking.User.{
  User, new_user, find_delegate, remove_delegate, set_delegate, reduce,
}
use sputnik_dao_contract.Staking.Users.{IsCovered, WhenOk, operations-IsCovered}
use sputnik_dao_contract.Staking.Methods
use sputnik_dao_contract.Staking.Methods.{
  Contract, internal_delegate, internal_undelegate, internal_deposit, internal_withdraw,
  internal_get_user, save_user, internal_register_user, after_transfer,
}
use sputnik_dao_contract.Staking.Calls.{Method, dispatch, assert_no_deposit}
use sputnik_dao_contract.System.Weights.{AllCovered, Change, same, pays, gives, takes}

abbrev pub message_of : String → CallArgs → Option Message
message_of method (account_args a) =
    if method == "register_delegation" then some (register a) else none
message_of method (delegation_args a n) =
    if method == "delegate"
    then some (give a n)
    else if method == "undelegate"
    then some (take_back a n)
    else none
message_of method _ = none

abbrev pub action_messages : PromiseAction → List (Message × ℕ)
action_messages (function_call method args deposit gas) = elim (message_of method args) [
  | none ↦ []
  | some message ↦ (message, deposit) ∷ []
]
action_messages _ = []

unfoldable pub actions_messages : List PromiseAction → List (Message × ℕ)
actions_messages [] = []
actions_messages (action ∷ actions) = action_messages action ++ actions_messages actions

-- The messages that promises bring to an account, with their deposits.
unfoldable pub messages_to : String → List Promise → List (Message × ℕ)
messages_to owner [] = []
messages_to owner (p ∷ ps) =
    (if p.receiver_id == owner then actions_messages p.actions else []) ++ messages_to owner ps

IsCovered-user :
    (a : String) (users : Map String User) {u : User}
    → AllCovered users
    → Map.get users a ≡ some u
    → IsCovered u
unfolding Map.get
IsCovered-user a [] all e = cc
IsCovered-user a ((k, v) ∷ m) {u = u} all e = elim (Bool-cases (k == a)) [
  | inl here ↦ let q : v ≡ u = ground arith in subst IsCovered q all.0
  | inr other ↦ IsCovered-user a m {u = u} all.1 (ground arith)
]

delegate_gives :
    (env : Env) (id : String) (n : ℕ) (u : User) {v : User}
    → User.delegate env id n u ≡ ok v
    → v.delegated_amounts ≡ u.delegated_amounts ++ (id, n) ∷ []
unfolding User.delegate
delegate_gives env id n u e = ground arith

undelegate_takes :
    (env : Env) (id : String) (n period : ℕ) (u : User) {v : User}
    → User.undelegate env id n period u ≡ ok v
    → (e : ℕ) × (find_delegate id u.delegated_amounts ≡ some e)
      × (n ≤ e)
      × (v.delegated_amounts ≡ (
          if nat_beq e n
          then remove_delegate id u.delegated_amounts
          else set_delegate id (e - n) u.delegated_amounts))
unfolding User.undelegate reduce
undelegate_takes env id n period u made =
    elim (Option-cases (find_delegate id u.delegated_amounts)) [
      | inl missing ↦ ground arith
      | inr (e, found) ↦ (e, found, ground arith, ground arith)
    ]

withdraw_keeps :
    (env : Env) (n : ℕ) (u : User) {v : User}
    → User.withdraw env n u ≡ ok v
    → v.delegated_amounts ≡ u.delegated_amounts
unfolding User.withdraw
withdraw_keeps env n u e = ground arith

-- A receipt that starts from a state, with no promise yet.
abbrev pub start : Contract → Host Contract
start c = record { state = c; promises = [] }

-- What a receipt that returned did to the users and told the owner.
pub record Sends (byte_cost : ℕ) (c : Contract) (h : Host Contract) : Type 0 where
  pub change : Change byte_cost c.users h.state.users (messages_to c.owner_id h.promises)
  pub owner : h.state.owner_id ≡ c.owner_id

module _ (env : Env) (c : Contract) (all : AllCovered c.users) where
  pub delegate-Sends :
      (id : String) (n : ℕ) {h : Host Contract}
      → dispatch env (Method.delegate id n) (start c) ≡ ok (tt, h)
      → Sends env.storage_byte_cost c h
  unfolding dispatch assert_no_deposit Methods.delegate internal_delegate internal_get_user
      save_user ◌>>=◌ messages_to actions_messages
  delegate-Sends id n {h = h} e = elim (Option-cases (Map.get c.users env.predecessor_account_id)) [
    | inl missing ↦ ground arith
    | inr (u, found) ↦ elim (Option-cases (Map.get c.users id)) [
      | inl missing ↦ ground arith
      | inr (w, there) ↦ elim (Result-cases (User.delegate env id n u)) [
        | inr (code, failure) ↦ ground arith
        | inl (v, made) ↦ record {
          change =
              gives env.predecessor_account_id id n u v w found there
                (delegate_gives env id n u made)
                (subst (WhenOk IsCovered) made
                  (operations-IsCovered env id n 0 u
                    (IsCovered-user env.predecessor_account_id c.users all found)).0)
                (ground arith) (ground (arith, beq_refl c.owner_id));
          owner = ground arith;
        }
      ]
    ]
  ]

  pub undelegate-Sends :
      (id : String) (n : ℕ) {h : Host Contract}
      → dispatch env (Method.undelegate id n) (start c) ≡ ok (tt, h)
      → Sends env.storage_byte_cost c h
  unfolding dispatch assert_no_deposit Methods.undelegate internal_undelegate internal_get_user
      save_user ◌>>=◌ messages_to actions_messages
  undelegate-Sends id n {h = h} e =
      elim (Option-cases (Map.get c.users env.predecessor_account_id)) [
        | inl missing ↦ ground arith
        | inr (u, found) ↦ elim (Result-cases (User.undelegate env id n c.unstake_period u)) [
          | inr (code, failure) ↦ ground arith
          | inl (v, made) ↦
              let taken = undelegate_takes env id n c.unstake_period u made in
              record {
                change =
                    takes env.predecessor_account_id id n taken.0 u v found taken.1 taken.2 taken.3
                      (subst (WhenOk IsCovered) made
                        (operations-IsCovered env id n c.unstake_period u
                          (IsCovered-user env.predecessor_account_id c.users all found)).1)
                      (ground arith) (ground (arith, beq_refl c.owner_id));
                owner = ground arith;
              }
        ]
      ]

  pub withdraw-Sends :
      (n : ℕ) {h : Host Contract}
      → dispatch env (Method.withdraw n) (start c) ≡ ok (tt, h)
      → Sends env.storage_byte_cost c h
  unfolding dispatch assert_no_deposit Methods.withdraw internal_withdraw internal_get_user
      save_user ◌>>=◌ messages_to actions_messages
  withdraw-Sends n {h = h} e = elim (Option-cases (Map.get c.users env.predecessor_account_id)) [
    | inl missing ↦ ground arith
    | inr (u, found) ↦ elim (Result-cases (User.withdraw env n u)) [
      | inr (code, failure) ↦ ground arith
      | inl (v, made) ↦ record {
        change =
            pays env.predecessor_account_id u v found (withdraw_keeps env n u made)
              (subst (WhenOk IsCovered) made
                (operations-IsCovered env "" n 0 u
                  (IsCovered-user env.predecessor_account_id c.users all found)).2)
              (ground arith) (ground arith);
        owner = ground arith;
      }
    ]
  ]

  pub deposit-Sends :
      (account : String) (n : ℕ) {h : Host Contract}
      → internal_deposit account n (start c) ≡ ok (tt, h)
      → Sends env.storage_byte_cost c h
  unfolding internal_deposit internal_get_user save_user User.deposit ◌>>=◌ messages_to
  deposit-Sends account n {h = h} e = elim (Option-cases (Map.get c.users account)) [
    | inl missing ↦ ground arith
    | inr (u, found) ↦
        let covered : IsCovered u = IsCovered-user account c.users all found in
        record {
          change =
              pays account u (record u { vote_amount = u.vote_amount + n }) found refl (omega arith)
                (ground arith) (ground arith);
          owner = ground arith;
        }
  ]

  pub nothing-Sends : {h : Host Contract} → h ≡ start c → Sends env.storage_byte_cost c h
  unfolding messages_to
  nothing-Sends e = record {
    change = same (ap (λ h. h.state.users) e) (ap (λ h. messages_to c.owner_id h.promises) e);
    owner = ap (λ h. h.state.owner_id) e;
  }

  pub after_transfer-Sends :
      (results : List PromiseResult) (account : String) (n : ℕ) {h : Host Contract}
      → after_transfer results account n (start c) ≡ ok (tt, h)
      → Sends env.storage_byte_cost c h
  unfolding after_transfer ◌>>=◌
  after_transfer-Sends (not_ready ∷ []) account n e = cc
  after_transfer-Sends (successful bytes ∷ []) account n e = nothing-Sends (ground arith)
  after_transfer-Sends (failed ∷ []) account n e = deposit-Sends account n e
  after_transfer-Sends _ account n e = cc
