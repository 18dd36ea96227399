-- ===== src/Staking/Calls.antt =====
-- The entry points of the staking contract of sputnik-staking/src. `#[near_bindgen]` refuses a
-- deposit to a method that is not `#[payable]`.
use sputnik_dao_contract.Base.{ℕ, String, Bool, Option, nat_beq}
use sputnik_dao_contract.Result.{not_payable}
use sputnik_dao_contract.Host.{Env, Call, ◌>>◌, pure, require}
use sputnik_dao_contract.Staking.Methods
use sputnik_dao_contract.Staking.Methods.{Contract}
use sputnik_dao_contract.Staking.Storage

pub data Method : Type 0 where
  delegate undelegate exchange_callback_post_withdraw : String → ℕ → Method
  withdraw : ℕ → Method
  ft_on_transfer : String → ℕ → String → Method
  storage_deposit : Option String → Option Bool → Method
  storage_withdraw : Option ℕ → Method
  storage_unregister : Option Bool → Method

abbrev pub done : {A : Type 0} → Call Contract A → Call Contract Unit
done m = do m; pure tt

unfoldable pub assert_no_deposit : Env → Call Contract Unit
assert_no_deposit env = require (nat_beq env.attached_deposit 0) not_payable

unfoldable pub dispatch : Env → Method → Call Contract Unit
dispatch env (delegate account_id amount) = do
  assert_no_deposit env
  Methods.delegate env account_id amount
dispatch env (undelegate account_id amount) = do
  assert_no_deposit env
  Methods.undelegate env account_id amount
dispatch env (exchange_callback_post_withdraw sender_id amount) = do
  assert_no_deposit env
  Methods.exchange_callback_post_withdraw env sender_id amount
dispatch env (withdraw amount) = do assert_no_deposit env; Methods.withdraw env amount
dispatch env (ft_on_transfer sender_id amount msg) = do
  assert_no_deposit env
  done (Methods.ft_on_transfer env sender_id amount msg)
dispatch env (storage_deposit account_id registration_only) =
    done (Storage.storage_deposit env account_id registration_only)
dispatch env (storage_withdraw amount) = done (Storage.storage_withdraw env amount)
dispatch env (storage_unregister force) = done (Storage.storage_unregister env force)
