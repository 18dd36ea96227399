-- ===== src/Dao/Data.antt =====
-- The data of the DAO contract: roles, permissions and voting policies of
-- sputnikdao2/src/policy.rs, bounties and claims of sputnikdao2/src/bounties.rs, proposals and
-- votes of sputnikdao2/src/proposals.rs.
-- A `HashSet` is a list without repetitions, a `HashMap` is a `Map`. The versioned wrappers of a
-- bounty and of a proposal have one variant each, and are read as what they hold.
use sputnik_dao_contract.Base.{ℕ, String, Bool, Option, List}
use sputnik_dao_contract.Map.{Map}
use sputnik_dao_contract.Dao.Types.{Config, FactoryInfo}

pub data RoleKind : Type 0 where
  everyone : RoleKind
  member : ℕ → RoleKind
  group : List String → RoleKind

pub record UserInfo : Type 0 where
  pub account_id : String
  pub amount : ℕ

pub data WeightOrRatio : Type 0 where
  weight : ℕ → WeightOrRatio
  ratio : ℕ → ℕ → WeightOrRatio

pub data WeightKind : Type 0 where
  token_weight role_weight : WeightKind

pub record VotePolicy : Type 0 where
  pub weight_kind : WeightKind
  pub quorum : ℕ
  pub threshold : WeightOrRatio

pub record RolePermission : Type 0 where
  pub name : String
  pub kind : RoleKind
  pub permissions : List String
  pub vote_policy : Map String VotePolicy

pub record Policy : Type 0 where
  pub roles : List RolePermission
  pub default_vote_policy : VotePolicy
  pub proposal_bond : ℕ
  pub proposal_period : ℕ
  pub bounty_bond : ℕ
  pub bounty_forgiveness_period : ℕ

pub data VersionedPolicy : Type 0 where
  default : List String → VersionedPolicy
  current : Policy → VersionedPolicy

pub record BountyClaim : Type 0 where
  pub bounty_id : ℕ
  pub start_time : ℕ
  pub deadline : ℕ
  pub completed : Bool

pub record Bounty : Type 0 where
  pub description : String
  pub token : String
  pub amount : ℕ
  pub times : ℕ
  pub max_deadline : ℕ

pub data ProposalStatus : Type 0 where
  in_progress approved rejected removed expired moved failed : ProposalStatus

pub record ActionCall : Type 0 where
  pub method_name : String
  pub args : List ℕ
  pub deposit : ℕ
  pub gas : ℕ

pub record PolicyParameters : Type 0 where
  pub proposal_bond : Option ℕ
  pub proposal_period : Option ℕ
  pub bounty_bond : Option ℕ
  pub bounty_forgiveness_period : Option ℕ

-- The fields of each variant stand in the source's order; a `Base58CryptoHash` is the number that
-- its 32 bytes spell.
pub data ProposalKind : Type 0 where
  change_config : Config → ProposalKind
  change_policy : VersionedPolicy → ProposalKind
  add_member_to_role : String → String → ProposalKind
  remove_member_from_role : String → String → ProposalKind
  function_call : String → List ActionCall → ProposalKind
  upgrade_self : ℕ → ProposalKind
  upgrade_remote : String → String → ℕ → ProposalKind
  transfer : String → String → ℕ → Option String → ProposalKind
  set_staking_contract : String → ProposalKind
  add_bounty : Bounty → ProposalKind
  bounty_done : ℕ → String → ProposalKind
  vote : ProposalKind
  factory_info_update : FactoryInfo → ProposalKind
  change_policy_add_or_update_role : RolePermission → ProposalKind
  change_policy_remove_role : String → ProposalKind
  change_policy_update_default_vote_policy : VotePolicy → ProposalKind
  change_policy_update_parameters : PolicyParameters → ProposalKind

pub data Vote : Type 0 where
  approve reject remove : Vote

-- `[Balance; 3]`, indexed by a `Vote`.
pub record VoteCounts : Type 0 where
  pub approve_count : ℕ
  pub reject_count : ℕ
  pub remove_count : ℕ

pub record Proposal : Type 0 where
  pub proposer : String
  pub description : String
  pub kind : ProposalKind
  pub status : ProposalStatus
  pub vote_counts : Map String VoteCounts
  pub votes : Map String Vote
  pub submission_time : ℕ

pub record ProposalInput : Type 0 where
  pub description : String
  pub kind : ProposalKind
