-- ===== src/Dao/Contract.antt =====
-- The state of the DAO contract and its construction, sputnikdao2/src/lib.rs.
use sputnik_dao_contract.Base.{ℕ, String, Option, none, some, true, List, []}
use sputnik_dao_contract.Map.{Map}
use sputnik_dao_contract.Result.{unwrap_none}
use sputnik_dao_contract.Host.{Env, Call, ◌>>=◌, gets, expect, lift}
use sputnik_dao_contract.Dao.Types.{Config, FactoryInfo}
use sputnik_dao_contract.Dao.Data.{VersionedPolicy, Policy, Proposal, Bounty, BountyClaim}
use sputnik_dao_contract.Dao.Policy.Roles.{upgrade, to_policy}

-- The last two fields are the raw storage beside the contract's own: the blobs by their hash, and
-- what stands under the key `FACTORY`.
pub record Contract : Type 0 where
  pub config : Option Config
  pub policy : Option VersionedPolicy
  pub locked_amount : ℕ
  pub staking_id : Option String
  pub total_delegation_amount : ℕ
  pub delegations : Map String ℕ
  pub last_proposal_id : ℕ
  pub proposals : Map ℕ Proposal
  pub last_bounty_id : ℕ
  pub bounties : Map ℕ Bounty
  pub bounty_claimers : Map String (List BountyClaim)
  pub bounty_claims_count : Map ℕ ℕ
  pub blobs : Map ℕ String
  pub storage : Map ℕ (List ℕ)
  pub factory_info : Option FactoryInfo

-- `Contract::new`
unfoldable pub new : Env → Config → VersionedPolicy → Contract
new env config policy = record {
  config = some config;
  policy = some (upgrade policy);
  locked_amount = 0;
  staking_id = none;
  total_delegation_amount = 0;
  delegations = [];
  last_proposal_id = 0;
  proposals = [];
  last_bounty_id = 0;
  bounties = [];
  bounty_claimers = [];
  bounty_claims_count = [];
  blobs = [];
  storage = [];
  factory_info = some (record { factory_id = env.predecessor_account_id; auto_update = true });
}

-- `self.policy.get().unwrap().to_policy()`
unfoldable pub get_policy : Call Contract Policy
get_policy = do
  stored ← gets (λ c. c.policy)
  versioned ← expect stored unwrap_none
  lift (to_policy versioned)
