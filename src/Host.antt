-- ===== src/Host.antt =====
-- The host of a contract: what near_sdk's `env` reports to a call, the promises that a call
-- schedules, and calls as functions from a state to a panic or a result with the next state.
-- A panic discards every change and every promise of its call, as the NEAR runtime does.
pub mod Keeps
pub mod Ensures
pub mod Panics
pub mod Reads
use sputnik_dao_contract.Base.{
  ℕ, String, Bool, true, false, Option, none, some, List, [], ◌∷◌, ◌++◌,
}
use sputnik_dao_contract.Result.{Error, Result, ok, err}

-- `env::promise_result`
pub data PromiseResult : Type 0 where
  not_ready failed : PromiseResult
  successful : List ℕ → PromiseResult

-- The `env` functions, as what they report during one call. `attached_deposit`, balances and costs
-- are in yoctoNEAR, times in nanoseconds. `hash_order` is the order in which `into_iter` visits the
-- entries of a `HashMap`, which the code does not control; `sha256` is the host's hash of a text.
pub record Env : Type 0 where
  pub predecessor_account_id : String
  pub current_account_id : String
  pub attached_deposit : ℕ
  pub block_timestamp : ℕ
  pub storage_byte_cost : ℕ
  pub storage_usage : ℕ
  pub account_balance : ℕ
  pub prepaid_gas : ℕ
  pub used_gas : ℕ
  pub promise_results : List PromiseResult
  pub promise_success : Option Bool
  pub sha256 : List ℕ → ℕ
  pub hash_order : List (String × List String) → List (String × List String)

-- The arguments of a function call: raw bytes, or the JSON object of a typed cross-contract call.
pub data CallArgs : Type 0 where
  raw : List ℕ → CallArgs
  ft_transfer_args : String → ℕ → Option String → CallArgs
  ft_transfer_call_args : String → ℕ → Option String → String → CallArgs
  delegation_args : String → ℕ → CallArgs
  account_args : String → CallArgs
  proposal_args : ℕ → CallArgs
  update_args : String → ℕ → CallArgs
  hash_args : ℕ → CallArgs
  create_args : String → ℕ → String → CallArgs

-- What a promise does at its receiver: `function_call` has the method, its arguments, the deposit
-- and the gas.
pub data PromiseAction : Type 0 where
  transfer : ℕ → PromiseAction
  function_call : String → CallArgs → ℕ → ℕ → PromiseAction
  deploy_contract : List ℕ → PromiseAction
  create_account : PromiseAction

-- A batch of actions at one account, with the callback that `then` attaches.
pub record Promise : Type 0 where
  pub receiver_id : String
  pub actions : List PromiseAction
  pub callback : Option (String × PromiseAction)

pub data PromiseOrValue : Type 0 where
  promise : Promise → PromiseOrValue
  value : PromiseOrValue

-- `Promise::new(receiver_id).transfer(amount)`
abbrev pub transfer_to : String → ℕ → Promise
transfer_to receiver_id amount = record {
  receiver_id = receiver_id;
  actions = transfer amount ∷ [];
  callback = none;
}

-- A contract's state and the promises that the call has scheduled so far, the first one first.
pub record Host (S : Type 0) : Type 0 where
  pub state : S
  pub promises : List Promise

abbrev pub Call : Type 0 → Type 0 → Type 0
Call S A = Host S → Result (A × Host S)

module _ {S : Type 0} where
  pub pure : {A : Type 0} → A → Call S A
  pure a h = ok (a, h)

  pub panic : {A : Type 0} → Error → Call S A
  panic c h = err c

  pub gets : {A : Type 0} → (S → A) → Call S A
  gets f h = ok (f h.state, h)

  pub modify : (S → S) → Call S Unit
  modify f h = ok (tt, record h { state = f h.state })

  -- `assert!`
  pub require : Bool → Error → Call S Unit
  require b c h = elim b [ true ↦ ok (tt, h) | false ↦ err c ]

  -- `expect`, `unwrap`
  pub expect : {A : Type 0} → Option A → Error → Call S A
  expect o c h = elim o [ none ↦ err c | some a ↦ ok (a, h) ]

  pub lift : {A : Type 0} → Result A → Call S A
  lift r h = elim r [ err c ↦ err c | ok a ↦ ok (a, h) ]

  -- A promise that a call creates is scheduled when the call ends. The balance and the gas that it
  -- takes are not modelled, so scheduling never fails.
  pub schedule : Promise → Call S Unit
  schedule p h = ok (tt, record h { promises = h.promises ++ p ∷ [] })

  pub drop_promise : PromiseOrValue → Call S Unit
  unfolding schedule
  drop_promise (promise p) h = schedule p h
  drop_promise value h = ok (tt, h)

infixl 5 ◌>>=◌ ◌>>◌
-- Opening this opens all of the above.
unfoldable pub ◌>>=◌ : {S A B : Type 0} → Call S A → (A → Call S B) → Call S B
unfolding pure panic gets modify require expect lift schedule drop_promise
◌>>=◌ m f h = elim (m h) [ err c ↦ err c | ok (a, h') ↦ f a h' ]

abbrev pub ◌>>◌ : {S A B : Type 0} → Call S A → Call S B → Call S B
m >> k = m >>= λ _. k
