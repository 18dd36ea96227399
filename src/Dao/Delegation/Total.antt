-- ===== src/Dao/Delegation/Total.antt =====
-- The total of the delegated weights covers the weights of all accounts.
use sputnik_dao_contract.Base.{
  ℕ, ◌+◌, ◌-◌, ◌≤◌, ◌<◌, String, ◌≡◌, ◌≢◌, Option-cases, inl, inr, Option, none, some, [], ◌∷◌,
  string_key, eq_iff, beq_refl, arith,
}
use sputnik_dao_contract.Map
use sputnik_dao_contract.Map.{Map, get-insert_self}
use sputnik_dao_contract.Result.{Error, err_no_staking, err_invalid_caller, ok, err, u128_mod}
use sputnik_dao_contract.Host.{Env, Host, ◌>>=◌}
use sputnik_dao_contract.Host.Keeps.{Keeps}
use sputnik_dao_contract.Dao.Contract.{Contract}
use sputnik_dao_contract.Dao.Delegation.{
  unwrap_or_default, get_user_weight, require_staking, register_delegation, delegate, undelegate,
}

-- The sum of the weights of all accounts.
unfoldable pub sum_weights : Map String ℕ → ℕ
sum_weights [] = 0
sum_weights ((k, n) ∷ m) = n + sum_weights m

pub sum_weights-insert :
    (k : String) (n : ℕ) (m : Map String ℕ)
    → sum_weights (Map.insert k n m) + unwrap_or_default (Map.get m k) ≡ sum_weights m + n
unfolding sum_weights Map.insert Map.get
sum_weights-insert k n [] = omega arith
sum_weights-insert k n ((j, v) ∷ m) = ground (arith, sum_weights-insert k n m)

-- The weights of all accounts together are at most the total that quorums are measured by, and
-- the total fits its type.
pub record IsBacked (delegations : Map String ℕ) (total : ℕ) : Type 0 where
  pub backed : sum_weights delegations ≤ total
  pub fits : total < u128_mod

abbrev pub HasBackedWeights : Contract → Type 0
HasBackedWeights c = IsBacked c.delegations c.total_delegation_amount

module _ (env : Env) (account_id : String) where
  -- Registering keeps the total above the sum: it can only lower the account's weight.
  pub register_delegation-IsBacked : Keeps HasBackedWeights (register_delegation env account_id)
  unfolding register_delegation require_staking ◌>>=◌
  register_delegation-IsBacked = record {
    at = λ h b. ground (arith, sum_weights-insert account_id 0 h.state.delegations);
  }

  pub delegate-IsBacked : (amount : ℕ) → Keeps HasBackedWeights (delegate env account_id amount)
  unfolding delegate require_staking ◌>>=◌
  delegate-IsBacked amount = record {
    at = λ h b. ground (
      arith,
      sum_weights-insert account_id
          (unwrap_or_default (Map.get h.state.delegations account_id) + amount) h.state.delegations,
    );
  }

  pub undelegate-IsBacked : (amount : ℕ) → Keeps HasBackedWeights (undelegate env account_id amount)
  unfolding undelegate require_staking ◌>>=◌
  undelegate-IsBacked amount = record {
    at = λ h b. ground (
      arith,
      sum_weights-insert account_id
          (unwrap_or_default (Map.get h.state.delegations account_id) - amount) h.state.delegations,
    );
  }

weight-le-sum : (m : Map String ℕ) (k : String) → unwrap_or_default (Map.get m k) ≤ sum_weights m
unfolding sum_weights Map.get
weight-le-sum [] k = omega arith
weight-le-sum ((j, n) ∷ m) k = ground (arith, weight-le-sum m k)

-- The contract after `delegate` or `undelegate` set an account's weight and the total.
abbrev pub with_weight : String → ℕ → ℕ → Contract → Contract
with_weight account_id n total c = record c {
  delegations = Map.insert account_id n c.delegations;
  total_delegation_amount = total;
}

-- Where the weights add up to at most the total, the staking contract can take back any part of an
-- account's weight: no subtraction panics, and the weight and the total fall by the amount.
pub undelegate-succeeds :
    (env : Env) (account_id : String) (amount : ℕ) (h : Host Contract)
    → HasBackedWeights h.state
    → h.state.staking_id ≡ some env.predecessor_account_id
    → amount ≤ get_user_weight h.state account_id
    → undelegate env account_id amount h ≡ (
        let prev = get_user_weight h.state account_id in
        let total = h.state.total_delegation_amount - amount in
        ok (
          (prev, prev - amount, total),
          record h { state = with_weight account_id (prev - amount) total h.state },
        ))
unfolding undelegate require_staking get_user_weight ◌>>=◌
undelegate-succeeds env account_id amount h b caller le =
    ground
      (arith, weight-le-sum h.state.delegations account_id, beq_refl env.predecessor_account_id)

-- An undelegation of what was just delegated to an account succeeds and restores the contract as it
-- was before, from whatever state the delegation succeeded in.
pub undelegate-delegate :
    (env : Env) (account_id : String) (amount : ℕ) (h h' : Host Contract) (r : ℕ × ℕ × ℕ)
    → delegate env account_id amount h ≡ ok (r, h')
    → undelegate env account_id amount h' ≡ ok ((r.1, r.0, h.state.total_delegation_amount), h)
unfolding delegate undelegate require_staking ◌>>=◌
undelegate-delegate env account_id amount h h' r e =
    elim (Option-cases (Map.get h.state.delegations account_id)) [
      | inl unregistered ↦ ground arith
      | inr (prev, registered) ↦ ground (
        arith,
        get-insert_self account_id (prev + amount) h.state.delegations,
        Map.insert-insert account_id prev (prev + amount) h.state.delegations,
        Map.insert-get account_id prev h.state.delegations registered,
      )
    ]

abbrev pub staking_error : Option String → Error
staking_error none = err_no_staking
staking_error (some id) = err_invalid_caller

-- A caller that is not the staking contract cannot register, delegate or undelegate: each call
-- panics, with ERR_NO_STAKING where no staking contract is set and ERR_INVALID_CALLER otherwise.
pub delegation_needs_staking :
    (env : Env) (account_id : String) (amount : ℕ) (h : Host Contract)
    → h.state.staking_id ≢ some env.predecessor_account_id
    → (register_delegation env account_id h ≡ err (staking_error h.state.staking_id))
      × (delegate env account_id amount h ≡ err (staking_error h.state.staking_id))
      × (undelegate env account_id amount h ≡ err (staking_error h.state.staking_id))
unfolding register_delegation delegate undelegate require_staking ◌>>=◌
delegation_needs_staking env account_id amount h other = elim (Option-cases h.state.staking_id) [
  | inl unset ↦ ground arith
  | inr (id, set) ↦ ground (arith, eq_iff env.predecessor_account_id id)
]
