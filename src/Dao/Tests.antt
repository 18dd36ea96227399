-- ===== src/Dao/Tests.antt =====
-- Inputs for the theorems on the DAO contract: a council of two, its proposals and its calls.
pub mod PolicyCases
pub mod ContractCases
pub mod ProposalCases
pub mod ViewCases
use sputnik_dao_contract.Base.{ℕ, String, Option, none, some, List, [], ◌∷◌}
use sputnik_dao_contract.Host.{Env}
use sputnik_dao_contract.Dao.Types.{Config}
use sputnik_dao_contract.Dao.Data.{
  RoleKind, everyone, group, ratio, role_weight, VotePolicy, RolePermission, Policy,
  VersionedPolicy, ProposalKind, in_progress, Proposal, ProposalInput, approve, VoteCounts,
}

abbrev pub alice_env : Env
alice_env = record {
  predecessor_account_id = "alice";
  current_account_id = "dao";
  attached_deposit = 0;
  block_timestamp = 10;
  storage_byte_cost = 1;
  storage_usage = 100;
  account_balance = 1000;
  prepaid_gas = 300;
  used_gas = 5;
  promise_results = [];
  promise_success = none;
  sha256 = λ bytes. 7;
  hash_order = λ entries. entries;
}

abbrev pub majority : VotePolicy
majority = record { weight_kind = role_weight; quorum = 0; threshold = ratio 1 2 }

abbrev pub all : RolePermission
all = record { name = "all"; kind = everyone; permissions = "*:AddProposal" ∷ []; vote_policy = [] }

abbrev pub council : RolePermission
council = record {
  name = "council";
  kind = group ("alice" ∷ "bob" ∷ []);
  permissions = "*:VoteApprove" ∷ "*:Finalize" ∷ [];
  vote_policy = [];
}

abbrev pub small_policy : Policy
small_policy = record {
  roles = all ∷ council ∷ [];
  default_vote_policy = majority;
  proposal_bond = 3;
  proposal_period = 100;
  bounty_bond = 2;
  bounty_forgiveness_period = 20;
}

abbrev pub poll : Proposal
poll = record {
  proposer = "carol";
  description = "a poll";
  kind = ProposalKind.vote;
  status = in_progress;
  vote_counts = ("council", record { approve_count = 1; reject_count = 0; remove_count = 0 }) ∷ [];
  votes = ("bob", approve) ∷ [];
  submission_time = 5;
}

abbrev pub sample_config : Config
sample_config = record { name = "dao"; purpose = "tests"; metadata = [] }

abbrev pub poll_input : ProposalInput
poll_input = record { description = "a poll"; kind = ProposalKind.vote }
