-- ===== src/Dao/Tests/ContractCases.antt =====
-- The theorems on the contract's state, at a contract with a staking contract and a delegation.
use sputnik_dao_contract.Base.{◌≡◌, refl, none, some, [], ◌∷◌, string_key, nat_key}
use sputnik_dao_contract.Map
use sputnik_dao_contract.Result.{ok, err, err_invalid_caller}
use sputnik_dao_contract.Host.{Env, Host, ◌>>=◌}
use sputnik_dao_contract.Host.Keeps.{Keeps}
use sputnik_dao_contract.Dao.Data.{current}
use sputnik_dao_contract.Dao.Contract.{Contract, new}
use sputnik_dao_contract.Dao.Delegation.{register_delegation, delegate, undelegate, require_staking}
use sputnik_dao_contract.Dao.Delegation.Total.{
  HasBackedWeights, with_weight, delegate-IsBacked, register_delegation-IsBacked,
  undelegate-delegate, delegation_needs_staking,
}
use sputnik_dao_contract.Dao.Calls.{add_proposal, act_proposal, run}
use sputnik_dao_contract.Dao.Invariant.Reachable.{IsBackedSound, reachable-IsSound}
use sputnik_dao_contract.Dao.Types.{finalize}
use sputnik_dao_contract.Dao.Tests.{alice_env, small_policy, sample_config, poll_input}

abbrev fresh : Contract
fresh = new alice_env sample_config (current small_policy)

abbrev staking_env : Env
staking_env = record alice_env { predecessor_account_id = "staking" }

-- `carol` delegated 4 to herself.
abbrev delegated : Host Contract
delegated = record {
  state = record fresh {
    staking_id = some "staking";
    delegations = ("carol", 4) ∷ [];
    total_delegation_amount = 4;
  };
  promises = [];
}

delegate-IsBacked_example : Keeps HasBackedWeights (delegate staking_env "carol" 3)
delegate-IsBacked_example = delegate-IsBacked staking_env "carol" 3

register_delegation-IsBacked_example :
    Keeps HasBackedWeights (register_delegation staking_env "carol")
register_delegation-IsBacked_example = register_delegation-IsBacked staking_env "carol"

abbrev delegated_more : Host Contract
delegated_more = record delegated { state = with_weight "carol" 7 7 delegated.state }

delegate_more : delegate staking_env "carol" 3 delegated ≡ ok ((4, 7, 7), delegated_more)
unfolding delegate require_staking ◌>>=◌ Map.get Map.insert
delegate_more = refl

undelegate-delegate_example :
    undelegate staking_env "carol" 3 delegated_more ≡ ok ((7, 4, 4), delegated)
undelegate-delegate_example =
    undelegate-delegate staking_env "carol" 3 delegated delegated_more (4, 7, 7) delegate_more

not_staking : delegated.state.staking_id ≡ some alice_env.predecessor_account_id → ⊥
not_staking h = cc

delegation_needs_staking_example :
    (register_delegation alice_env "carol" delegated ≡ err err_invalid_caller)
    × (delegate alice_env "carol" 3 delegated ≡ err err_invalid_caller)
    × (undelegate alice_env "carol" 3 delegated ≡ err err_invalid_caller)
delegation_needs_staking_example =
    delegation_needs_staking alice_env "carol" 3 delegated not_staking

abbrev propose_env : Env
propose_env = record alice_env { attached_deposit = 3 }

reachable-IsSound_example : IsBackedSound 0 (
    run
      ((propose_env, add_proposal poll_input) ∷ (alice_env, act_proposal 0 finalize none) ∷ [])
      fresh)
reachable-IsSound_example =
    reachable-IsSound alice_env sample_config (current small_policy)
      ((propose_env, add_proposal poll_input) ∷ (alice_env, act_proposal 0 finalize none) ∷ [])
