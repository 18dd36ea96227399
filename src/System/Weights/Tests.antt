-- ===== src/System/Weights/Tests.antt =====
-- The theorems on the weights, at a user who stakes and delegates to another one.
use sputnik_dao_contract.Base.{ℕ, ◌≡◌, ◌≢◌, refl, none, some, [], ◌∷◌, ◌++◌, string_key, arith}
use sputnik_dao_contract.Map
use sputnik_dao_contract.Result.{ok, err}
use sputnik_dao_contract.Host.{Env, Host, ◌>>=◌}
use sputnik_dao_contract.Dao.Data.{current}
use sputnik_dao_contract.Dao.Contract as DaoContract
use sputnik_dao_contract.Dao.Calls as DaoCalls
use sputnik_dao_contract.Dao.Policy.Roles.{upgrade}
use sputnik_dao_contract.Dao.Delegation.Total.{sum_weights}
use sputnik_dao_contract.Dao.Invariant.{claimed}
use sputnik_dao_contract.Dao.Invariant.Reachable.{IsBackedSound}
use sputnik_dao_contract.Dao.Invariant.Others.{others_keep_weights}
use sputnik_dao_contract.Dao.Delegation.Ledger.{
  Ledger, Message, register, receive, ledger_of, with_ledger, method_of,
}
use sputnik_dao_contract.Dao.Tests.{small_policy, sample_config}
use sputnik_dao_contract.Staking.User
use sputnik_dao_contract.Staking.User.{
  User, new_user, min_storage, storage_cost, sum_from, delegated_amount, storage_available,
  assert_storage,
}
use sputnik_dao_contract.Staking.Methods
use sputnik_dao_contract.Staking.Methods.{
  Contract, internal_register_user, internal_deposit, internal_delegate, internal_get_user,
  save_user, after_transfer,
}
use sputnik_dao_contract.Staking.Storage
use sputnik_dao_contract.Staking.Calls.{Method, dispatch, assert_no_deposit}
use sputnik_dao_contract.Staking.Sums.{given_in, delegated, sum_by}
use sputnik_dao_contract.Staking.Tests.{dora_env}
use sputnik_dao_contract.System.Weights.{weight_of}
use sputnik_dao_contract.System.Weights.Sending.{messages_to, actions_messages, start}
use sputnik_dao_contract.System.Weights.States.{
  State, Reachable, initially, later, staking_call, Delivers, deliver_all, dao_host,
}
use sputnik_dao_contract.System.Weights.Delivery.{message_accepted, weights_arrive}

abbrev dao : DaoContract.Contract
dao = record (DaoContract.new dora_env sample_config (current small_policy)) {
  delegations = [];
  total_delegation_amount = 0;
  staking_id = some "staking";
}

dao-IsBackedSound : IsBackedSound 0 dao
unfolding sum_weights claimed Map.get DaoContract.new upgrade
dao-IsBackedSound = record {
  weights = omega arith;
  staking = tt;
  policy = tt;
  proposals = record { below = λ id p e. cc; kinds = λ id p e. cc };
  bounties = record { below = λ id b e. cc };
  claims = record { counted = λ id. omega arith };
  reached = omega arith;
}

abbrev before_all : State
before_all = record { staking = Methods.new "dao" "token" 60; queue = []; dao = dao }

-- `dora` pays for the storage of her own account, and `erin` for hers.
abbrev paying_env : Env
paying_env = record dora_env { attached_deposit = 500 }

abbrev erin_env : Env
erin_env = record paying_env { predecessor_account_id = "erin" }

abbrev token_env : Env
token_env = record dora_env { predecessor_account_id = "token" }

abbrev ran : Env → Method → Contract → Host Contract
ran env method c = elim (dispatch env method (start c)) [ err code ↦ start c | ok (result, h) ↦ h ]

abbrev next : Env → Method → State → State
next env method s = record s {
  staking = (ran env method s.staking).state;
  queue = s.queue ++ messages_to s.staking.owner_id (ran env method s.staking).promises;
}

abbrev two_users : State
two_users =
    next erin_env (Method.storage_deposit none none)
      (next paying_env (Method.storage_deposit none none) before_all)

abbrev delegating : State
delegating =
    next dora_env (Method.delegate "erin" 4)
      (next token_env (Method.ft_on_transfer "dora" 9 "") two_users)

delegating-Reachable : Reachable "staking" 1 delegating
unfolding dispatch assert_no_deposit Methods.new Methods.delegate Methods.ft_on_transfer
    Storage.storage_deposit Storage.register Storage.refund Storage.storage_balance_of
    internal_register_user internal_deposit internal_delegate internal_get_user save_user
    User.delegate User.deposit delegated_amount sum_from storage_cost storage_available
    assert_storage new_user ◌>>=◌ Map.get Map.insert
delegating-Reachable =
    later
      (later
        (later
          (later
            (initially (record {
              owner = "dao";
              token = "token";
              period = 60;
              fresh = refl;
              idle = refl;
              empty = refl;
              chosen = refl;
              sound = dao-IsBackedSound;
            }))
            (staking_call paying_env (Method.storage_deposit none none) _ refl tt refl))
          (staking_call erin_env (Method.storage_deposit none none) _ refl tt refl))
        (staking_call token_env (Method.ft_on_transfer "dora" 9 "") _ refl tt refl))
      (staking_call dora_env (Method.delegate "erin" 4) _ refl tt refl)

abbrev receipt_for : Message × ℕ → Env
receipt_for m = record dora_env { predecessor_account_id = "staking"; attached_deposit = m.1 }

receipts-Delivers : (m : Message × ℕ) → Delivers "staking" 1 m.1 (receipt_for m)
receipts-Delivers m = record { sender = refl; attached = refl; cost = refl }

weights_arrive_example :
    (Map.get (deliver_all receipt_for delegating.queue dao).delegations "erin"
      ≡ weight_of "erin" delegating.staking.users (Map.get delegating.staking.users "erin"))
    × ((deliver_all receipt_for delegating.queue dao).total_delegation_amount
        ≡ sum_by delegated delegating.staking.users)
weights_arrive_example =
    weights_arrive "staking" 1 (omega arith) receipt_for receipts-Delivers delegating "erin"
      delegating-Reachable

-- What the delegation weighs, in the DAO that has all the messages.
erin_weighs :
    weight_of "erin" delegating.staking.users (Map.get delegating.staking.users "erin") ≡ some 4
unfolding dispatch assert_no_deposit Methods.new Methods.delegate Methods.ft_on_transfer
    Storage.storage_deposit Storage.register Storage.refund Storage.storage_balance_of
    internal_register_user internal_deposit internal_delegate internal_get_user save_user
    User.delegate User.deposit delegated_amount sum_from storage_cost storage_available
    assert_storage new_user ◌>>=◌ Map.get Map.insert sum_by given_in
erin_weighs = refl

abbrev joined : State
joined = next paying_env (Method.storage_deposit none none) before_all

joined_queue : joined.queue ≡ (register "dora", 16) ∷ []
unfolding dispatch Methods.new Storage.storage_deposit Storage.register Storage.refund
    Storage.storage_balance_of internal_register_user save_user storage_cost storage_available
    new_user ◌>>=◌ Map.get Map.insert messages_to actions_messages
joined_queue = refl

joined-Reachable : Reachable "staking" 1 joined
unfolding dispatch Methods.new Storage.storage_deposit Storage.register Storage.refund
    Storage.storage_balance_of internal_register_user save_user storage_cost storage_available
    new_user ◌>>=◌ Map.get Map.insert
joined-Reachable =
    later
      (initially (record {
        owner = "dao";
        token = "token";
        period = 60;
        fresh = refl;
        idle = refl;
        empty = refl;
        chosen = refl;
        sound = dao-IsBackedSound;
      }))
      (staking_call paying_env (Method.storage_deposit none none) _ refl tt refl)

message_accepted_example :
    (l : Ledger) × (receive 1 (register "dora", 16) (ledger_of dao) ≡ some l)
    × (DaoCalls.dispatch
          (receipt_for (register "dora", 16))
          (method_of (register "dora"))
          (dao_host joined)
        ≡ ok (tt, record { state = with_ledger l dao; promises = [] }))
message_accepted_example =
    message_accepted "staking" 1 (omega arith) joined (receipt_for (register "dora", 16))
      (register "dora") 16 [] joined-Reachable joined_queue
      (receipts-Delivers (register "dora", 16))

different : dora_env.predecessor_account_id ≢ "staking"
different e = cc

others_keep_weights_example :
    ((DaoCalls.execute dora_env (DaoCalls.delegate "dora" 5) dao).delegations ≡ dao.delegations)
    × ((DaoCalls.execute dora_env (DaoCalls.delegate "dora" 5) dao).total_delegation_amount
        ≡ dao.total_delegation_amount)
    × ((DaoCalls.execute dora_env (DaoCalls.delegate "dora" 5) dao).staking_id ≡ some "staking")
others_keep_weights_example =
    others_keep_weights dora_env (DaoCalls.delegate "dora" 5) dao "staking" different refl
      dao-IsBackedSound
