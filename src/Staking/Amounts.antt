-- ===== src/Staking/Amounts.antt =====
-- The staked amounts: what the methods of sputnik-staking/src keep of them.
use sputnik_dao_contract.Base.{
  ℕ, ◌+◌, ◌-◌, ◌≤◌, ◌<◌, ◌≡◌, String, Option, none, some, List, [], ◌∷◌, string_key, arith,
  Option-cases, inl, inr,
}
use sputnik_dao_contract.Map
use sputnik_dao_contract.Map.{Map}
use sputnik_dao_contract.Result.{ok, u128_mod, Result-cases}
use sputnik_dao_contract.Host.{Env, Host, PromiseResult, not_ready, successful, failed, ◌>>=◌}
use sputnik_dao_contract.Host.Keeps.{Keeps, keeps_rules}
use sputnik_dao_contract.Staking.User
use sputnik_dao_contract.Staking.User.{User, new_user, reduce}
use sputnik_dao_contract.Staking.Methods.{
  Contract, internal_get_user, save_user, internal_deposit, internal_withdraw, internal_delegate,
  internal_undelegate, withdraw, delegate, undelegate, ft_on_transfer, after_transfer,
  exchange_callback_post_withdraw,
}

-- The staked tokens of all users.
unfoldable pub sum_votes : Map String User → ℕ
sum_votes [] = 0
sum_votes ((account_id, user) ∷ users) = user.vote_amount + sum_votes users

abbrev pub votes_of : Option User → ℕ
votes_of none = 0
votes_of (some user) = user.vote_amount

pub sum_votes-insert :
    (k : String) (u : User) (m : Map String User)
    → sum_votes (Map.insert k u m) + votes_of (Map.get m k) ≡ sum_votes m + u.vote_amount
unfolding sum_votes Map.insert Map.get
sum_votes-insert k u [] = omega arith
sum_votes-insert k u ((j, v) ∷ m) = ground (arith, sum_votes-insert k u m)

-- The total is the sum of what the users have staked, and fits its type.
pub record IsExact (users : Map String User) (total : ℕ) : Type 0 where
  pub exact : total ≡ sum_votes users
  pub fits : total < u128_mod

abbrev pub HasExactTotal : Contract → Type 0
HasExactTotal c = IsExact c.users c.total_amount

internal_deposit-IsExact :
    (sender : String) (amount : ℕ) → Keeps HasExactTotal (internal_deposit sender amount)
unfolding internal_deposit internal_get_user save_user User.deposit ◌>>=◌
internal_deposit-IsExact sender amount = record {
  at = λ h s. elim (Option-cases (Map.get h.state.users sender)) [
    | inl missing ↦ ground arith
    | inr (u, found) ↦ ground (
      arith,
      sum_votes-insert sender (record u { vote_amount = u.vote_amount + amount }) h.state.users,
    )
  ];
}

withdraw_amount :
    (env : Env) (amount : ℕ) (u : User) {v : User}
    → User.withdraw env amount u ≡ ok v
    → (amount ≤ u.vote_amount) × (v ≡ record u { vote_amount = u.vote_amount - amount })
unfolding User.withdraw
withdraw_amount env amount u e = ground arith

delegate_amount :
    (env : Env) (id : String) (amount : ℕ) (u : User) {v : User}
    → User.delegate env id amount u ≡ ok v
    → v.vote_amount ≡ u.vote_amount
unfolding User.delegate
delegate_amount env id amount u e = ground arith

undelegate_amount :
    (env : Env) (id : String) (amount period : ℕ) (u : User) {v : User}
    → User.undelegate env id amount period u ≡ ok v
    → v.vote_amount ≡ u.vote_amount
unfolding User.undelegate reduce
undelegate_amount env id amount period u e = ground arith

internal_withdraw-IsExact :
    (env : Env) (sender : String) (amount : ℕ)
    → Keeps HasExactTotal (internal_withdraw env sender amount)
unfolding internal_withdraw internal_get_user save_user ◌>>=◌
internal_withdraw-IsExact env sender amount = record {
  at = λ h s. elim (Option-cases (Map.get h.state.users sender)) [
    | inl missing ↦ ground arith
    | inr (u, found) ↦ elim (Result-cases (User.withdraw env amount u)) [
      | inr (c, failure) ↦ ground arith
      | inl (v, rest) ↦
          ground (arith, withdraw_amount env amount u rest, sum_votes-insert sender v h.state.users)
    ]
  ];
}

internal_delegate-IsExact :
    (env : Env) (sender id : String) (amount : ℕ)
    → Keeps HasExactTotal (internal_delegate env sender id amount)
unfolding internal_delegate internal_get_user save_user ◌>>=◌
internal_delegate-IsExact env sender id amount = record {
  at = λ h s. elim (Option-cases (Map.get h.state.users sender)) [
    | inl missing ↦ ground arith
    | inr (u, found) ↦ elim (Result-cases (User.delegate env id amount u)) [
      | inr (c, failure) ↦ ground arith
      | inl (v, made) ↦
          ground
            (arith, delegate_amount env id amount u made, sum_votes-insert sender v h.state.users)
    ]
  ];
}

internal_undelegate-IsExact :
    (env : Env) (sender id : String) (amount : ℕ)
    → Keeps HasExactTotal (internal_undelegate env sender id amount)
unfolding internal_undelegate internal_get_user save_user ◌>>=◌
internal_undelegate-IsExact env sender id amount = record {
  at = λ h s. elim (Option-cases (Map.get h.state.users sender)) [
    | inl missing ↦ ground arith
    | inr (u, found) ↦
        elim (Result-cases (User.undelegate env id amount h.state.unstake_period u)) [
          | inr (c, failure) ↦ ground arith
          | inl (v, made) ↦ ground (
            arith,
            undelegate_amount env id amount h.state.unstake_period u made,
            sum_votes-insert sender v h.state.users,
          )
        ]
  ];
}

after_transfer-IsExact :
    (results : List PromiseResult) (account : String) (amount : ℕ)
    → Keeps HasExactTotal (after_transfer results account amount)
unfolding after_transfer
after_transfer-IsExact (not_ready ∷ []) account amount = search keeps_rules
after_transfer-IsExact (successful bytes ∷ []) account amount = search keeps_rules
after_transfer-IsExact (failed ∷ []) account amount = internal_deposit-IsExact account amount
after_transfer-IsExact _ account amount = search keeps_rules

-- Delegating, undelegating, withdrawing, depositing and the callback of a withdrawal keep the total
-- of the staking contract equal to the sum of what its users have staked.
pub methods-IsExact :
    (env : Env) (account message : String) (amount : ℕ)
    → Keeps HasExactTotal (delegate env account amount)
      × Keeps HasExactTotal (undelegate env account amount)
      × Keeps HasExactTotal (withdraw env amount)
      × Keeps HasExactTotal (exchange_callback_post_withdraw env account amount)
      × Keeps HasExactTotal (ft_on_transfer env account amount message)
unfolding delegate undelegate withdraw exchange_callback_post_withdraw ft_on_transfer
methods-IsExact env account message amount = (
  search (keeps_rules, internal_delegate-IsExact),
  search (keeps_rules, internal_undelegate-IsExact),
  search (keeps_rules, internal_withdraw-IsExact),
  search (keeps_rules, after_transfer-IsExact),
  search (keeps_rules, internal_deposit-IsExact),
)

votes-le-sum : (k : String) (m : Map String User) → votes_of (Map.get m k) ≤ sum_votes m
unfolding sum_votes Map.get
votes-le-sum k [] = omega arith
votes-le-sum k ((j, u) ∷ m) = ground (arith, votes-le-sum k m)

-- Where the total was exact, internal_deposit of what internal_withdraw just took out, which the
-- callback of a failed transfer runs, succeeds and restores the staking contract as it was before.
pub withdraw_reverted :
    (env : Env) (sender : String) (amount : ℕ) (h h' : Host Contract)
    → HasExactTotal h.state
    → internal_withdraw env sender amount h ≡ ok (tt, h')
    → internal_deposit sender amount h' ≡ ok (tt, h)
unfolding internal_withdraw internal_deposit internal_get_user save_user User.deposit ◌>>=◌
withdraw_reverted env sender amount h h' s e = elim (Option-cases (Map.get h.state.users sender)) [
  | inl missing ↦ ground arith
  | inr (u, found) ↦ elim (Result-cases (User.withdraw env amount u)) [
    | inr (c, failure) ↦ ground arith
    | inl (v, rest) ↦ ground (
      arith,
      withdraw_amount env amount u rest,
      votes-le-sum sender h.state.users,
      Map.get-insert_self sender v h.state.users,
      Map.insert-insert sender u v h.state.users,
      Map.insert-get sender u h.state.users found,
    )
  ]
]
