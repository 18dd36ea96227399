-- ===== src/Dao/Invariant.antt =====
-- The invariant of the DAO contract. Each part speaks of the fields that it is about.
pub mod Claims
pub mod Writes
pub mod Calls
pub mod Reachable
pub mod Others
pub mod Acting
pub mod Methods
use sputnik_dao_contract.Base.{
  ℕ, ◌≤◌, ◌<◌, ◌≡◌, string_key, String, Option, none, some, nat_key, ◌+◌, List, [], ◌∷◌, ◌==◌,
  if◌then◌else◌,
}
use sputnik_dao_contract.Map
use sputnik_dao_contract.Map.{Map}
use sputnik_dao_contract.Dao.Data.{
  VersionedPolicy, default, current, ProposalKind, Proposal, Bounty, BountyClaim,
}
use sputnik_dao_contract.Dao.Contract.{Contract}
use sputnik_dao_contract.Dao.Delegation.{unwrap_or_default}
use sputnik_dao_contract.Dao.Frame.{IsCurrent, HasCurrentPolicy}

-- Every stored proposal has an id that was given out, and does not break the policy's version.
pub record AreProposals (proposals : Map ℕ Proposal) (last_proposal_id : ℕ) : Type 0 where
  pub below : (id : ℕ) (p : Proposal) → Map.get proposals id ≡ some p → id < last_proposal_id
  pub kinds : (id : ℕ) (p : Proposal) → Map.get proposals id ≡ some p → HasCurrentPolicy p.kind

-- Every stored bounty has an id that was given out.
pub record AreBounties (bounties : Map ℕ Bounty) (last_bounty_id : ℕ) : Type 0 where
  pub below : (id : ℕ) (b : Bounty) → Map.get bounties id ≡ some b → id < last_bounty_id

-- Who the staking contract is, where it is known.
abbrev pub HasStaking : Option String → Option String → Type 0
HasStaking none staking_id = Unit
HasStaking (some known) staking_id = staking_id ≡ some known

-- The number of a claimer's claims of a bounty, and of all claims of it.
unfoldable pub claims_of : ℕ → List BountyClaim → ℕ
claims_of bounty_id [] = 0
claims_of bounty_id (claim ∷ claims) =
    (if claim.bounty_id == bounty_id then 1 else 0) + claims_of bounty_id claims

abbrev pub claims_by : ℕ → Option (List BountyClaim) → ℕ
claims_by bounty_id none = 0
claims_by bounty_id (some claims) = claims_of bounty_id claims

unfoldable pub claimed : ℕ → Map String (List BountyClaim) → ℕ
claimed bounty_id [] = 0
claimed bounty_id ((account, claims) ∷ claimers) =
    claims_of bounty_id claims + claimed bounty_id claimers

-- The stored count of each bounty is no less than the number of its claims.
pub record AreCounted (claimers : Map String (List BountyClaim)) (counts : Map ℕ ℕ) : Type 0 where
  pub counted : (id : ℕ) → claimed id claimers ≤ unwrap_or_default (Map.get counts id)

-- The invariant, with what is kept of the weights and their total, the staking contract if it is
-- known, and a number of proposal ids that were given out.
pub record IsSound (W : Map String ℕ → ℕ → Type 0) (known : Option String) (given : ℕ)
    (c : Contract) : Type 0 where
  pub weights : W c.delegations c.total_delegation_amount
  pub staking : HasStaking known c.staking_id
  pub policy : IsCurrent c.policy
  pub proposals : AreProposals c.proposals c.last_proposal_id
  pub bounties : AreBounties c.bounties c.last_bounty_id
  pub claims : AreCounted c.bounty_claimers c.bounty_claims_count
  pub reached : given ≤ c.last_proposal_id
