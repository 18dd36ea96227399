-- ===== src/Dao/Bonds.antt =====
-- What the DAO owes of the bonds that it locks: one for each open proposal, one for each claim of a
-- bounty, and those that the callbacks on the way are to return. It is about the locked amount of
-- sputnikdao2/src/proposals.rs and bounties.rs.
pub mod Sums
pub mod Spending
pub mod Execution
pub mod Settling
pub mod Balances
pub mod Acting
pub mod Methods
pub mod Others
pub mod Callbacks
pub mod Runs
pub mod Dispatching
pub mod Solvency
pub mod Refunds
pub mod Claims
pub mod Tests
use sputnik_dao_contract.Base.{
  ℕ, ◌+◌, ◌<◌, String, Bool, true, false, Option, none, some, List, [], ◌∷◌, ◌++◌, ◌==◌, nat_key,
  string_key, if◌then◌else◌,
}
use sputnik_dao_contract.Map
use sputnik_dao_contract.Map.{Map}
use sputnik_dao_contract.Host.{Host, Promise, PromiseAction, function_call, CallArgs, proposal_args}
use sputnik_dao_contract.Dao.Data.{ProposalKind, Proposal, ProposalStatus, BountyClaim}
use sputnik_dao_contract.Dao.Contract.{Contract}
use sputnik_dao_contract.Dao.Policy.Status.{is_open}

-- The proposals whose callbacks the promises bring.
abbrev pub callback_in : Option (String × PromiseAction) → List ℕ
callback_in (some (account, function_call method (proposal_args id) deposit gas)) =
    if method == "on_proposal_callback" then id ∷ [] else []
callback_in _ = []

unfoldable pub callbacks : List Promise → List ℕ
callbacks [] = []
callbacks (p ∷ ps) = callback_in p.callback ++ callbacks ps

-- Ids that were given out.
abbrev pub AllBelow : ℕ → List ℕ → Type 0
AllBelow last [] = Unit
AllBelow last (id ∷ ids) = (id < last) × AllBelow last ids

module _ (bond : ℕ) where
  abbrev pub bond_if_open : Option Proposal → ℕ
  bond_if_open none = 0
  bond_if_open (some p) = if is_open p.status then bond else 0

  unfoldable pub open_bonds : Map ℕ Proposal → ℕ
  open_bonds [] = 0
  open_bonds ((id, p) ∷ proposals) = bond_if_open (some p) + open_bonds proposals

module _ (bounty_bond : ℕ) where
  -- The bond of a claim goes with the proposal that reports it done.
  abbrev pub claim_bond : ProposalKind → ℕ
  claim_bond (ProposalKind.bounty_done id receiver) = bounty_bond
  claim_bond _ = 0

  unfoldable pub bonds_of_claims : List BountyClaim → ℕ
  bonds_of_claims [] = 0
  bonds_of_claims (claim ∷ claims) = bounty_bond + bonds_of_claims claims

  abbrev pub bonds_of_claimer : Option (List BountyClaim) → ℕ
  bonds_of_claimer none = 0
  bonds_of_claimer (some claims) = bonds_of_claims claims

  unfoldable pub claim_bonds : Map String (List BountyClaim) → ℕ
  claim_bonds [] = 0
  claim_bonds ((account, claims) ∷ claimers) = bonds_of_claims claims + claim_bonds claimers

module _ (bond bounty_bond : ℕ) where
  -- What the callback of a proposal returns, if the proposal is still stored.
  abbrev pub callback_bonds : Option Proposal → ℕ
  callback_bonds none = 0
  callback_bonds (some p) = bond + claim_bond bounty_bond p.kind

  unfoldable pub bonds_on_the_way : List ℕ → Map ℕ Proposal → ℕ
  bonds_on_the_way [] proposals = 0
  bonds_on_the_way (id ∷ ids) proposals =
      callback_bonds (Map.get proposals id) + bonds_on_the_way ids proposals

  -- The bonds that a contract owes with callbacks on the way.
  abbrev pub owed : List ℕ → Contract → ℕ
  owed ids c =
      open_bonds bond c.proposals
      + claim_bonds bounty_bond c.bounty_claimers
      + bonds_on_the_way ids c.proposals
