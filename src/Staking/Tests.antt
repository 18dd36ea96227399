-- ===== src/Staking/Tests.antt =====
-- The theorems on the staking contract, at a contract with one user.
use sputnik_dao_contract.Base.{
  ℕ, ◌++◌, if◌then◌else◌, nat_beq, ◌≤◌, ◌≡◌, refl, true, none, some, [], ◌∷◌, string_key, arith,
}
use sputnik_dao_contract.Map
use sputnik_dao_contract.Result.{ok, err, err_storage_unregister_not_empty}
use sputnik_dao_contract.Host.{Env, Host, transfer_to, ◌>>=◌}
use sputnik_dao_contract.Host.Keeps.{Keeps}
use sputnik_dao_contract.Staking.User
use sputnik_dao_contract.Staking.User.{
  User, sum_from, delegated_amount, storage_cost, storage_available,
}
use sputnik_dao_contract.Staking.Methods.{
  Contract, internal_get_user, save_user, internal_deposit, internal_withdraw, withdraw, delegate,
  undelegate, ft_on_transfer, exchange_callback_post_withdraw,
}
use sputnik_dao_contract.Staking.Storage.{
  storage_withdraw, storage_balance_of, storage_unregister, or_available,
}
use sputnik_dao_contract.Staking.Refunds.{storage_unregister_lem, storage_withdraw_lem}
use sputnik_dao_contract.Staking.Amounts.{
  sum_votes, HasExactTotal, methods-IsExact, withdraw_reverted,
}
use sputnik_dao_contract.Staking.Users.{sum_delegated, IsCovered, WhenOk, operations-IsCovered}

abbrev pub dora_env : Env
dora_env = record {
  predecessor_account_id = "dora";
  current_account_id = "staking";
  attached_deposit = 0;
  block_timestamp = 10;
  storage_byte_cost = 1;
  storage_usage = 100;
  account_balance = 1000;
  prepaid_gas = 300;
  used_gas = 5;
  promise_results = [];
  promise_success = none;
  sha256 = λ bytes. 7;
  hash_order = λ entries. entries;
}

-- `dora` staked 9, and delegated 4 of it to `erin`.
abbrev dora : User
dora = record {
  storage_used = 164;
  near_amount = 500;
  vote_amount = 9;
  next_action_timestamp = 3;
  delegated_amounts = ("erin", 4) ∷ [];
}

abbrev yocto_env : Env
yocto_env = record dora_env { attached_deposit = 1 }

abbrev staked : ℕ → Host Contract
staked n = record {
  state = record {
    owner_id = "dao";
    vote_token_id = "token";
    users = ("dora", record dora { vote_amount = n }) ∷ [];
    total_amount = n;
    unstake_period = 60;
  };
  promises = [];
}

staked-HasExactTotal : HasExactTotal (staked 9).state
unfolding sum_votes
staked-HasExactTotal = record { exact = refl; fits = omega arith }

dora_withdraws : internal_withdraw dora_env "dora" 5 (staked 9) ≡ ok (tt, staked 4)
unfolding internal_withdraw internal_get_user save_user User.withdraw delegated_amount sum_from
    ◌>>=◌ Map.get Map.insert
dora_withdraws = refl

withdraw_reverted_example : internal_deposit "dora" 5 (staked 4) ≡ ok (tt, staked 9)
withdraw_reverted_example =
    withdraw_reverted dora_env "dora" 5 (staked 9) (staked 4) staked-HasExactTotal dora_withdraws

methods-IsExact_example :
    Keeps HasExactTotal (delegate dora_env "erin" 2)
    × Keeps HasExactTotal (undelegate dora_env "erin" 2)
    × Keeps HasExactTotal (withdraw dora_env 2)
    × Keeps HasExactTotal (exchange_callback_post_withdraw dora_env "erin" 2)
    × Keeps HasExactTotal (ft_on_transfer dora_env "erin" 2 "")
methods-IsExact_example = methods-IsExact dora_env "erin" "" 2

dora-IsCovered : IsCovered dora
unfolding sum_delegated
dora-IsCovered = omega arith

operations-IsCovered_example :
    WhenOk IsCovered (User.delegate dora_env "erin" 2 dora)
    × WhenOk IsCovered (User.undelegate dora_env "erin" 2 60 dora)
    × WhenOk IsCovered (User.withdraw dora_env 2 dora)
    × WhenOk IsCovered (User.deposit 2 dora)
operations-IsCovered_example = operations-IsCovered dora_env "erin" 2 60 dora dora-IsCovered

dora_stored : Map.get (staked 9).state.users "dora" ≡ some dora
unfolding Map.get
dora_stored = refl

storage_unregister_lem_example : storage_unregister yocto_env none (staked 9) ≡ (
    if nat_beq dora.vote_amount 0
    then err err_storage_unregister_not_empty
    else ok (
      true,
      record (staked 9) {
        state = record (staked 9).state { users = Map.remove "dora" (staked 9).state.users };
        promises = [] ++ transfer_to "dora" 500 ∷ [];
      },
    ))
storage_unregister_lem_example =
    storage_unregister_lem yocto_env none dora (staked 9) dora_stored refl

abbrev refunded : Host Contract
refunded = record (staked 9) { promises = transfer_to "dora" 300 ∷ [] }

dora_refunded :
    storage_withdraw yocto_env (some 300) (staked 9)
    ≡ ok (record { total = 500; available = 336 }, refunded)
unfolding storage_withdraw storage_balance_of internal_get_user storage_available storage_cost ◌>>=◌
    Map.get
dora_refunded = refl

storage_withdraw_lem_example :
    (user : User) × (available : ℕ) × (Map.get (staked 9).state.users "dora" ≡ some user)
    × (storage_available yocto_env user ≡ ok available)
    × (or_available (some 300) available ≤ available)
    × (refunded ≡ record (staked 9) {
      promises = [] ++ transfer_to "dora" (or_available (some 300) available) ∷ [];
    })
storage_withdraw_lem_example =
    storage_withdraw_lem yocto_env (some 300) (staked 9) refunded
      (record { total = 500; available = 336 }) dora_refunded
