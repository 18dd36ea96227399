-- ===== src/System/Weights/States.antt =====
-- The states of the staking contract with its DAO, and what leads from one to the next: calls of
-- sputnik-staking/src, the delivery of their messages to sputnikdao2/src/delegation.rs in the order
-- in which they were sent, and other calls of the DAO.
use sputnik_dao_contract.Base.{ℕ, ◌≡◌, ◌≢◌, String, some, List, [], ◌∷◌, ◌++◌, string_key}
use sputnik_dao_contract.Result.{ok}
use sputnik_dao_contract.Host.{Env, Host}
use sputnik_dao_contract.Dao.Contract as DaoContract
use sputnik_dao_contract.Dao.Calls as DaoCalls
use sputnik_dao_contract.Dao.Invariant.Reachable.{IsBackedSound}
use sputnik_dao_contract.Dao.Delegation.Ledger.{Message, ledger_of, method_of}
use sputnik_dao_contract.Staking.Methods as StakingMethods
use sputnik_dao_contract.Staking.Calls.{Method, dispatch}
use sputnik_dao_contract.Staking.Totals.{StaysRegistered}
use sputnik_dao_contract.System.Weights.Sending.{messages_to, start}

-- The two contracts, and the messages that are on the way with their deposits, the oldest first.
pub record State : Type 0 where
  pub staking : StakingMethods.Contract
  pub queue : List (Message × ℕ)
  pub dao : DaoContract.Contract

abbrev pub dao_host : State → Host DaoContract.Contract
dao_host s = record { state = s.dao; promises = [] }

-- The DAO after the messages, each in a receipt of its own.
unfoldable pub deliver_all :
    (Message × ℕ → Env) → List (Message × ℕ) → DaoContract.Contract → DaoContract.Contract
deliver_all receipt_for [] dao = dao
deliver_all receipt_for ((message, deposit) ∷ queue) dao =
    deliver_all receipt_for queue
      (DaoCalls.execute (receipt_for (message, deposit)) (method_of message) dao)

-- A receipt in which the DAO receives a message from the staking contract.
pub record Delivers (staking_account : String) (byte_cost deposit : ℕ) (env : Env) : Type 0 where
  pub sender : env.predecessor_account_id ≡ staking_account
  pub attached : env.attached_deposit ≡ deposit
  pub cost : env.storage_byte_cost ≡ byte_cost

module _ (staking_account : String) (byte_cost : ℕ) where
  -- A call of the staking contract that returns sends its messages, the oldest message arrives, or
  -- another account calls the DAO.
  pub data Step (s : State) : State → Type 0 where
    staking_call :
        (env : Env) (method : Method) (h : Host StakingMethods.Contract)
        → env.storage_byte_cost ≡ byte_cost
        → StaysRegistered method
        → dispatch env method (start s.staking) ≡ ok (tt, h)
        → Step s (record s {
          staking = h.state;
          queue = s.queue ++ messages_to s.staking.owner_id h.promises;
        })
    delivery :
        (env : Env) (message : Message) (deposit : ℕ) (queue : List (Message × ℕ))
        → s.queue ≡ (message, deposit) ∷ queue
        → Delivers staking_account byte_cost deposit env
        → Step s (record s { queue = queue; dao = DaoCalls.execute env (method_of message) s.dao })
    dao_call :
        (env : Env) (method : DaoCalls.Method)
        → env.predecessor_account_id ≢ staking_account
        → Step s (record s { dao = DaoCalls.execute env method s.dao })

  -- A new staking contract, and a DAO that has it as its staking contract and no weights yet.
  pub record Initial (s : State) : Type 0 where
    pub owner : String
    pub token : String
    pub period : ℕ
    pub fresh : s.staking ≡ StakingMethods.new owner token period
    pub idle : s.queue ≡ []
    pub empty : ledger_of s.dao ≡ record { weights = []; total = 0 }
    pub chosen : s.dao.staking_id ≡ some staking_account
    pub sound : IsBackedSound 0 s.dao

  pub data Reachable : State → Type 0 where
    initially : {s : State} → Initial s → Reachable s
    later : {s s' : State} → Reachable s → Step s s' → Reachable s'
