-- ===== src/Dao/Invariant/Reachable.antt =====
-- What a contract keeps over all calls: the weights are covered by the total, and the invariant.
use sputnik_dao_contract.Base.{ℕ, ◌+◌, ◌-◌, String, none, List, [], ◌∷◌, nat_key, string_key, arith}
use sputnik_dao_contract.Map
use sputnik_dao_contract.Host.{Env, ◌>>=◌}
use sputnik_dao_contract.Host.Keeps.{Keeps}
use sputnik_dao_contract.Dao.Types.{Config}
use sputnik_dao_contract.Dao.Data.{VersionedPolicy, default, current}
use sputnik_dao_contract.Dao.Contract.{Contract, new}
use sputnik_dao_contract.Dao.Policy.Roles.{upgrade}
use sputnik_dao_contract.Dao.Delegation.{
  unwrap_or_default, require_staking, register_delegation, delegate, undelegate,
}
use sputnik_dao_contract.Dao.Delegation.Total.{sum_weights, sum_weights-insert}
use sputnik_dao_contract.Dao.Calls.{Method, execute, run}
use sputnik_dao_contract.Dao.Invariant.{IsSound, claimed}
use sputnik_dao_contract.Dao.Delegation.Total.{IsBacked}
use sputnik_dao_contract.Dao.Invariant.Calls.{execute-IsSound}

abbrev pub IsBackedSound : ℕ → Contract → Type 0
IsBackedSound given c = IsSound IsBacked none given c

module _ {given : ℕ} where
  register_delegation-IsSound :
      (env : Env) (account : String) → Keeps (IsBackedSound given) (register_delegation env account)
  unfolding register_delegation require_staking ◌>>=◌
  register_delegation-IsSound env account = record {
    at = λ h s. ground (arith, sum_weights-insert account 0 h.state.delegations);
  }

  delegate-IsSound :
      (env : Env) (account : String) (amount : ℕ)
      → Keeps (IsBackedSound given) (delegate env account amount)
  unfolding delegate require_staking ◌>>=◌
  delegate-IsSound env account amount = record {
    at = λ h s. ground (
      arith,
      sum_weights-insert account (unwrap_or_default (Map.get h.state.delegations account) + amount)
          h.state.delegations,
    );
  }

  undelegate-IsSound :
      (env : Env) (account : String) (amount : ℕ)
      → Keeps (IsBackedSound given) (undelegate env account amount)
  unfolding undelegate require_staking ◌>>=◌
  undelegate-IsSound env account amount = record {
    at = λ h s. ground (
      arith,
      sum_weights-insert account (unwrap_or_default (Map.get h.state.delegations account) - amount)
          h.state.delegations,
    );
  }

pub execute-IsBackedSound :
    (given : ℕ) (env : Env) (method : Method) (c : Contract)
    → IsBackedSound given c
    → IsBackedSound given (execute env method c)
execute-IsBackedSound given env method c s =
    execute-IsSound env (register_delegation-IsSound env) (delegate-IsSound env)
      (undelegate-IsSound env) method c s

run-IsSound :
    (given : ℕ) (calls : List (Env × Method)) (c : Contract)
    → IsBackedSound given c
    → IsBackedSound given (run calls c)
unfolding run
run-IsSound given [] c s = s
run-IsSound given ((env, method) ∷ calls) c s =
    run-IsSound given calls (execute env method c) (execute-IsBackedSound given env method c s)

pub new-IsSound :
    (env : Env) (config : Config) (policy : VersionedPolicy)
    → IsBackedSound 0 (new env config policy)
unfolding new upgrade sum_weights claimed Map.get
new-IsSound env config (default council) = record {
  weights = omega arith;
  staking = tt;
  policy = tt;
  proposals = record { below = λ id p e. cc; kinds = λ id p e. cc };
  bounties = record { below = λ id b e. cc };
  claims = record { counted = λ id. omega arith };
  reached = omega arith;
}
new-IsSound env config (current policy) = record {
  weights = omega arith;
  staking = tt;
  policy = tt;
  proposals = record { below = λ id p e. cc; kinds = λ id p e. cc };
  bounties = record { below = λ id b e. cc };
  claims = record { counted = λ id. omega arith };
  reached = omega arith;
}

-- After any calls on a new contract, by any accounts and also where some of them panic, the weights
-- of all accounts add up to at most the total delegation amount, which fits in 128 bits, the policy
-- is of the current version, every stored proposal and bounty has an id below the number of ids
-- given out, every stored proposal to change the policy has one of the current version, and the
-- stored count of the claims of each bounty is no less than the number of its claims.
pub reachable-IsSound :
    (env : Env) (config : Config) (policy : VersionedPolicy) (calls : List (Env × Method))
    → IsBackedSound 0 (run calls (new env config policy))
reachable-IsSound env config policy calls = run-IsSound 0 calls _ (new-IsSound env config policy)
