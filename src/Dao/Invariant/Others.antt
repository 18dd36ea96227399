-- ===== src/Dao/Invariant/Others.antt =====
-- What the calls of the DAO contract by other accounts than its staking contract leave alone:
-- the weights of sputnikdao2/src/delegation.rs, their total and the staking contract.
use sputnik_dao_contract.Base.{ℕ, ◌≡◌, ◌≢◌, refl, sym, ◌∙◌, subst, String, some, string_key}
use sputnik_dao_contract.Map.{Map}
use sputnik_dao_contract.Result.{Error, Result, err}
use sputnik_dao_contract.Host.{Env, Host}
use sputnik_dao_contract.Host.Keeps.{After}
use sputnik_dao_contract.Dao.Contract.{Contract}
use sputnik_dao_contract.Dao.Delegation.Total.{delegation_needs_staking}
use sputnik_dao_contract.Dao.Calls.{Method, execute}
use sputnik_dao_contract.Dao.Invariant.{IsSound}
use sputnik_dao_contract.Dao.Invariant.Calls.{execute-IsSound}
use sputnik_dao_contract.Dao.Invariant.Reachable.{IsBackedSound}

-- The weights and the total are these.
record Holds (weights : Map String ℕ) (total : ℕ) (weights' : Map String ℕ) (total' : ℕ)
    : Type 0 where
  same_weights : weights' ≡ weights
  same_total : total' ≡ total

After-err :
    {S A : Type 0} (P : S → Type 0) {r : Result (A × Host S)} {c : Error} → r ≡ err c → After P r
After-err P e = subst (After P) (sym e) tt

module _ (weights : Map String ℕ) (total : ℕ) (staking_account : String) (env : Env)
    (other : env.predecessor_account_id ≢ staking_account) where
  abbrev HasLedger : Contract → Type 0
  HasLedger c = IsSound (Holds weights total) (some staking_account) 0 c

  refused : (c : Contract) → HasLedger c → c.staking_id ≢ some env.predecessor_account_id
  refused c s e = other (cc (sym e ∙ s.staking))

  execute-HasLedger :
      (method : Method) (c : Contract) → HasLedger c → HasLedger (execute env method c)
  execute-HasLedger method c s =
      execute-IsSound env
        (λ account. record {
          at = λ h s. After-err _ (delegation_needs_staking env account 0 h (refused h.state s)).0;
        })
        (λ account amount. record {
          at = λ h s.
              After-err _ (delegation_needs_staking env account amount h (refused h.state s)).1;
        })
        (λ account amount. record {
          at = λ h s.
              After-err _ (delegation_needs_staking env account amount h (refused h.state s)).2;
        })
        method c s

-- In a contract that has the invariant and a staking contract, any call by any other account, also
-- one that executes a proposal and one that panics, leaves the weights, their total and the staking
-- contract as they were.
pub others_keep_weights :
    (env : Env) (method : Method) (c : Contract) (staking_account : String)
    → env.predecessor_account_id ≢ staking_account
    → c.staking_id ≡ some staking_account
    → IsBackedSound 0 c
    → ((execute env method c).delegations ≡ c.delegations)
      × ((execute env method c).total_delegation_amount ≡ c.total_delegation_amount)
      × ((execute env method c).staking_id ≡ some staking_account)
others_keep_weights env method c staking_account other chosen s =
    let after : HasLedger c.delegations c.total_delegation_amount staking_account env other
        (execute env method c) =
      execute-HasLedger c.delegations c.total_delegation_amount staking_account env other method c
        (record {
          weights = record { same_weights = refl; same_total = refl };
          staking = chosen;
          policy = s.policy;
          proposals = s.proposals;
          bounties = s.bounties;
          claims = s.claims;
          reached = s.reached;
        }) in
    (after.weights.same_weights, after.weights.same_total, after.staking)
