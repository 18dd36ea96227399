-- ===== src/Staking/Views.antt =====
-- The views of the staking contract, sputnik-staking/src/lib.rs and storage_impl.rs.
use sputnik_dao_contract.Base.{ℕ, String, Option, none}
use sputnik_dao_contract.Result.{Result, ok, ◌>>=◌}
use sputnik_dao_contract.Host.{Env, Call, pure, gets}
use sputnik_dao_contract.Host as Host
use sputnik_dao_contract.Staking.User.{User, min_storage, storage_cost}
use sputnik_dao_contract.Staking.Methods.{Contract, internal_get_user}

-- `StorageBalanceBounds` of near_contract_standards
pub record StorageBalanceBounds : Type 0 where
  pub min : ℕ
  pub max : Option ℕ

unfoldable pub ft_total_supply : Contract → ℕ
ft_total_supply c = c.total_amount

unfoldable pub ft_balance_of : String → Call Contract ℕ
ft_balance_of account_id = Host.◌>>=◌ (internal_get_user account_id) (λ user. pure user.vote_amount)

unfoldable pub get_user : String → Call Contract User
get_user account_id = internal_get_user account_id

unfoldable pub storage_balance_bounds : Env → Result StorageBalanceBounds
storage_balance_bounds env = do
  cost ← storage_cost env min_storage
  ok (record { min = cost; max = none })
