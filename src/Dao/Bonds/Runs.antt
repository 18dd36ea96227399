-- ===== src/Dao/Bonds/Runs.antt =====
-- The DAO with the callbacks of its proposals on the way: the receipts that the NEAR runtime brings
-- to the contract of sputnikdao2/src/lib.rs, in any order and by any accounts.
use sputnik_dao_contract.Base.{ℕ, ◌≡◌, true, List, [], ◌∷◌, ◌++◌, ◌==◌, string_key}
use sputnik_dao_contract.Result.{Result, ok, err}
use sputnik_dao_contract.Host.{Env, Host}
use sputnik_dao_contract.Dao.Types.{Config}
use sputnik_dao_contract.Dao.Data.{VersionedPolicy}
use sputnik_dao_contract.Dao.Contract.{Contract, new}
use sputnik_dao_contract.Dao.Calls.{Method, on_proposal_callback, dispatch}
use sputnik_dao_contract.Dao.Bonds.{callbacks}
use sputnik_dao_contract.Dao.Bonds.Balances.{AreBonds}

-- The contract, and the ids of the proposals whose callbacks are on the way.
pub record Running : Type 0 where
  pub dao : Contract
  pub on_the_way : List ℕ

abbrev pub start : Contract → Host Contract
start c = record { state = c; promises = [] }

-- The promises of a call that returns bring their callbacks, and a call that panics leaves everything
-- as it was.
unfoldable pub received : Result (Unit × Host Contract) → Running → Running
received (err code) s = s
received (ok (result, h)) s = record {
  dao = h.state;
  on_the_way = s.on_the_way ++ callbacks h.promises;
}

unfoldable pub receive : Env → Method → Running → Running
receive env method s = received (dispatch env method (start s.dao)) s

-- A call that is not the callback of a promise: where the contract itself calls its callback
-- directly, there are no results of promises.
abbrev pub IsDirect : Env → Method → Type 0
IsDirect env (on_proposal_callback id) =
    (env.predecessor_account_id == env.current_account_id) ≡ true → env.promise_results ≡ []
IsDirect env _ = Unit

pub data Step : Running → Running → Type 0 where
  call :
      (env : Env) (method : Method) (s : Running)
      → IsDirect env method
      → Step s (receive env method s)
  -- A callback that was on the way arrives.
  callback :
      (env : Env) (before after : List ℕ) (id : ℕ) (c : Contract)
      → Step
          (record { dao = c; on_the_way = before ++ id ∷ after })
          (receive env (on_proposal_callback id) (record { dao = c; on_the_way = before ++ after }))

-- What a new contract comes to while the policy asks for the bonds `b` and `k`.
pub data Reachable (b k : ℕ) : Running → Type 0 where
  created :
      (env : Env) (config : Config) (policy : VersionedPolicy)
      → AreBonds b k (new env config policy)
      → Reachable b k (record { dao = new env config policy; on_the_way = [] })
  next : {s t : Running} → Reachable b k s → Step s t → AreBonds b k t.dao → Reachable b k t
