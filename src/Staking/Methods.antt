-- ===== src/Staking/Methods.antt =====
-- The staking contract of sputnik-staking/src/lib.rs, with the internal operations of
-- sputnik-staking/src/user.rs.
use sputnik_dao_contract.Base.{
  ℕ, ◌+◌, ◌*◌, String, Bool, true, false, Option, none, some, List, [], ◌∷◌, ◌==◌, string_key, leb,
}
use sputnik_dao_contract.Map
use sputnik_dao_contract.Map.{Map}
use sputnik_dao_contract.Result.{
  checked, checked_sub, u128_mod, no_user, err_not_registered, err_internal, err_invalid_token,
  err_invalid_message, err_callback_post_withdraw_invalid, unreachable, private_method,
}
use sputnik_dao_contract.Host.{
  Env, Call, ◌>>=◌, ◌>>◌, pure, panic, gets, modify, require, expect, lift, schedule, Promise,
  function_call, CallArgs, delegation_args, account_args, ft_transfer_args, PromiseResult,
  successful, not_ready, failed,
}
use sputnik_dao_contract.Staking.User
use sputnik_dao_contract.Staking.User.{User, new_user, u128_len}

pub record Contract : Type 0 where
  pub owner_id : String
  pub vote_token_id : String
  pub users : Map String User
  pub total_amount : ℕ
  pub unstake_period : ℕ

-- `Contract::new`
unfoldable pub new : String → String → ℕ → Contract
new owner_id token_id unstake_period = record {
  owner_id = owner_id;
  vote_token_id = token_id;
  users = [];
  total_amount = 0;
  unstake_period = unstake_period;
}

abbrev pub gas_for_delegate : ℕ
gas_for_delegate = 10_000_000_000_000

abbrev pub gas_for_undelegate : ℕ
gas_for_undelegate = 10_000_000_000_000

abbrev pub gas_for_register : ℕ
gas_for_register = 10_000_000_000_000

abbrev pub gas_for_ft_transfer : ℕ
gas_for_ft_transfer = 10_000_000_000_000

unfoldable pub internal_get_user : String → Call Contract User
internal_get_user account_id = do user ← gets (λ c. Map.get c.users account_id); expect user no_user

unfoldable pub save_user : String → User → Call Contract Unit
save_user account_id user = modify (λ c. record c { users = Map.insert account_id user c.users })

-- A promise for one method of the account.
abbrev pub call_of : String → String → CallArgs → ℕ → ℕ → Promise
call_of receiver_id method args amount gas = record {
  receiver_id = receiver_id;
  actions = function_call method args amount gas ∷ [];
  callback = none;
}

unfoldable pub internal_register_user : Env → String → ℕ → Call Contract Unit
internal_register_user env sender_id near_amount = do
  save_user sender_id (new_user near_amount)
  owner_id ← gets (λ c. c.owner_id)
  cost ← lift (checked u128_mod (u128_len * env.storage_byte_cost))
  schedule (call_of owner_id "register_delegation" (account_args sender_id) cost gas_for_register)

unfoldable pub internal_deposit : String → ℕ → Call Contract Unit
internal_deposit sender_id amount = do
  sender ← internal_get_user sender_id
  paid ← lift (User.deposit amount sender)
  save_user sender_id paid
  total ← gets (λ c. c.total_amount)
  sum ← lift (checked u128_mod (total + amount))
  modify (λ c. record c { total_amount = sum })

unfoldable pub internal_withdraw : Env → String → ℕ → Call Contract Unit
internal_withdraw env sender_id amount = do
  sender ← internal_get_user sender_id
  rest ← lift (User.withdraw env amount sender)
  save_user sender_id rest
  total ← gets (λ c. c.total_amount)
  require (leb amount total) err_internal
  left ← lift (checked_sub total amount)
  modify (λ c. record c { total_amount = left })

abbrev pub has_user : Option User → Bool
has_user none = false
has_user (some user) = true

unfoldable pub internal_delegate : Env → String → String → ℕ → Call Contract Unit
internal_delegate env sender_id delegate_id amount = do
  sender ← internal_get_user sender_id
  found ← gets (λ c. Map.get c.users delegate_id)
  require (has_user found) err_not_registered
  delegating ← lift (User.delegate env delegate_id amount sender)
  save_user sender_id delegating

unfoldable pub internal_undelegate : Env → String → String → ℕ → Call Contract Unit
internal_undelegate env sender_id delegate_id amount = do
  sender ← internal_get_user sender_id
  unstake_period ← gets (λ c. c.unstake_period)
  undelegating ← lift (User.undelegate env delegate_id amount unstake_period sender)
  save_user sender_id undelegating

unfoldable pub delegate : Env → String → ℕ → Call Contract Unit
delegate env account_id amount = do
  internal_delegate env env.predecessor_account_id account_id amount
  owner_id ← gets (λ c. c.owner_id)
  schedule (call_of owner_id "delegate" (delegation_args account_id amount) 0 gas_for_delegate)

unfoldable pub undelegate : Env → String → ℕ → Call Contract Unit
undelegate env account_id amount = do
  internal_undelegate env env.predecessor_account_id account_id amount
  owner_id ← gets (λ c. c.owner_id)
  schedule (call_of owner_id "undelegate" (delegation_args account_id amount) 0 gas_for_undelegate)

unfoldable pub withdraw : Env → ℕ → Call Contract Unit
withdraw env amount = do
  internal_withdraw env env.predecessor_account_id amount
  token ← gets (λ c. c.vote_token_id)
  schedule (record {
    receiver_id = token;
    actions =
        function_call "ft_transfer" (ft_transfer_args env.predecessor_account_id amount none) 1
          gas_for_ft_transfer
        ∷ [];
    callback = some (
      env.current_account_id,
      function_call "exchange_callback_post_withdraw"
          (delegation_args env.predecessor_account_id amount) 0 gas_for_ft_transfer,
    );
  })

-- A failed transfer reverts the withdrawal.
unfoldable pub after_transfer : List PromiseResult → String → ℕ → Call Contract Unit
after_transfer (not_ready ∷ []) sender_id amount = panic unreachable
after_transfer (successful bytes ∷ []) sender_id amount = pure tt
after_transfer (failed ∷ []) sender_id amount = internal_deposit sender_id amount
after_transfer _ sender_id amount = panic err_callback_post_withdraw_invalid

unfoldable pub exchange_callback_post_withdraw : Env → String → ℕ → Call Contract Unit
exchange_callback_post_withdraw env sender_id amount = do
  require (env.predecessor_account_id == env.current_account_id) private_method
  after_transfer env.promise_results sender_id amount

-- The result is the amount that is not used, always 0.
unfoldable pub ft_on_transfer : Env → String → ℕ → String → Call Contract ℕ
ft_on_transfer env sender_id amount msg = do
  token ← gets (λ c. c.vote_token_id)
  require (token == env.predecessor_account_id) err_invalid_token
  require (msg == "") err_invalid_message
  internal_deposit sender_id amount
  pure 0
