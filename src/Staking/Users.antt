-- ===== src/Staking/Users.antt =====
-- What a user of the staking contract may delegate: `User` of sputnik-staking/src/user.rs.
use sputnik_dao_contract.Base.{
  ℕ, ◌+◌, ◌-◌, ◌≤◌, ◌≡◌, String, some, List, [], ◌∷◌, ◌++◌, string_key, arith, Option-cases, inl,
  inr,
}
use sputnik_dao_contract.Result.{Result, ok, err, Result-cases}
use sputnik_dao_contract.Host.{Env}
use sputnik_dao_contract.Staking.User
use sputnik_dao_contract.Staking.User.{
  User, sum_from, delegated_amount, find_delegate, remove_delegate, set_delegate, reduce,
  assert_storage,
}

unfoldable pub sum_delegated : List (String × ℕ) → ℕ
sum_delegated [] = 0
sum_delegated ((account_id, amount) ∷ rest) = amount + sum_delegated rest

-- What a user delegated is covered by what the user staked.
abbrev pub IsCovered : User → Type 0
IsCovered u = sum_delegated u.delegated_amounts ≤ u.vote_amount

abbrev pub WhenOk : {A : Type 0} → (A → Type 0) → Result A → Type 0
WhenOk P (ok a) = P a
WhenOk P (err c) = Unit

sum_from_total :
    (total : ℕ) (xs : List (String × ℕ)) {n : ℕ}
    → sum_from total xs ≡ ok n
    → n ≡ total + sum_delegated xs
unfolding sum_from sum_delegated
sum_from_total total [] e = ground arith
sum_from_total total ((k, amount) ∷ xs) {n = n} e =
    ground (arith, sum_from_total (total + amount) xs {n = n})

pub sum_delegated-append :
    (xs : List (String × ℕ)) (k : String) (n : ℕ)
    → sum_delegated (xs ++ (k, n) ∷ []) ≡ sum_delegated xs + n
unfolding sum_delegated
sum_delegated-append [] k n = omega arith
sum_delegated-append ((j, m) ∷ xs) k n = ground (arith, sum_delegated-append xs k n)

pub sum_delegated-remove :
    (k : String) (xs : List (String × ℕ)) {n : ℕ}
    → find_delegate k xs ≡ some n
    → sum_delegated (remove_delegate k xs) + n ≡ sum_delegated xs
unfolding sum_delegated find_delegate remove_delegate
sum_delegated-remove k [] e = cc
sum_delegated-remove k ((j, m) ∷ xs) {n = n} e = ground (arith, sum_delegated-remove k xs {n = n})

pub sum_delegated-set :
    (k : String) (n' : ℕ) (xs : List (String × ℕ)) {n : ℕ}
    → find_delegate k xs ≡ some n
    → sum_delegated (set_delegate k n' xs) + n ≡ sum_delegated xs + n'
unfolding sum_delegated find_delegate set_delegate
sum_delegated-set k n' [] e = cc
sum_delegated-set k n' ((j, m) ∷ xs) {n = n} e = ground (arith, sum_delegated-set k n' xs {n = n})

delegate-IsCovered :
    (env : Env) (id : String) (amount : ℕ) (u : User)
    → WhenOk IsCovered (User.delegate env id amount u)
unfolding User.delegate delegated_amount
delegate-IsCovered env id amount u = elim (Result-cases (sum_from 0 u.delegated_amounts)) [
  | inr (c, failure) ↦ ground arith
  | inl (n, summed) ↦ ground (
    arith,
    sum_from_total 0 u.delegated_amounts summed,
    sum_delegated-append u.delegated_amounts id amount,
  )
]

undelegate-IsCovered :
    (env : Env) (id : String) (amount period : ℕ) (u : User)
    → IsCovered u
    → WhenOk IsCovered (User.undelegate env id amount period u)
unfolding User.undelegate reduce
undelegate-IsCovered env id amount period u covered =
    elim (Option-cases (find_delegate id u.delegated_amounts)) [
      | inl missing ↦ ground arith
      | inr (n, found) ↦ ground (
        arith,
        sum_delegated-remove id u.delegated_amounts found,
        sum_delegated-set id (n - amount) u.delegated_amounts found,
      )
    ]

withdraw-IsCovered :
    (env : Env) (amount : ℕ) (u : User) → WhenOk IsCovered (User.withdraw env amount u)
unfolding User.withdraw delegated_amount
withdraw-IsCovered env amount u = elim (Result-cases (sum_from 0 u.delegated_amounts)) [
  | inr (c, failure) ↦ ground arith
  | inl (n, summed) ↦ ground (arith, sum_from_total 0 u.delegated_amounts summed)
]

-- A user whose delegations are covered by the staked amount still has them covered after each
-- delegation, undelegation, withdrawal and deposit that succeeds.
pub operations-IsCovered :
    (env : Env) (id : String) (amount period : ℕ) (u : User)
    → IsCovered u
    → WhenOk IsCovered (User.delegate env id amount u)
      × WhenOk IsCovered (User.undelegate env id amount period u)
      × WhenOk IsCovered (User.withdraw env amount u)
      × WhenOk IsCovered (User.deposit amount u)
unfolding User.deposit
operations-IsCovered env id amount period u covered = (
  delegate-IsCovered env id amount u,
  undelegate-IsCovered env id amount period u covered,
  withdraw-IsCovered env amount u,
  ground arith,
)
