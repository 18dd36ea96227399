-- ===== src/Dao/Proposals/Unclaimed.antt =====
-- A claim that is gone: neither the payout of a bounty nor its rejection returns, in bounties.rs and
-- proposals.rs of sputnikdao2/src.
use sputnik_dao_contract.Base.{
  ℕ, ◌≡◌, sym, ◌∙◌, ap, subst, String, Bool, true, false, none, some, List, nat_key, string_key,
  if◌then◌else◌, Option-cases, inl, inr, arith,
}
use sputnik_dao_contract.Map
use sputnik_dao_contract.Map.{Map}
use sputnik_dao_contract.Result.{ok}
use sputnik_dao_contract.Host.{Env, Host, PromiseOrValue, pure, modify, schedule, ◌>>=◌}
use sputnik_dao_contract.Host.Keeps.{Keeps, Keeps-modify, After-ok, keeps_rules}
use sputnik_dao_contract.Host.Reads.{chain_ok, gets_then, expect_ok}
use sputnik_dao_contract.Dao.Data.{Policy, ProposalKind, Proposal, BountyClaim}
use sputnik_dao_contract.Dao.Contract.{Contract}
use sputnik_dao_contract.Dao.Bounties.{
  internal_find_claim, internal_get_claims, internal_remove_claim, internal_execute_bounty_payout,
}
use sputnik_dao_contract.Dao.Proposals.Execution.{
  unlock, return_bounty_bond, internal_return_bonds, execute_kind, internal_execute_proposal,
  reject_claim, internal_reject_proposal,
}

-- The account has no claim of the bounty.
abbrev pub IsUnclaimed : ℕ → String → Contract → Type 0
IsUnclaimed bounty_id account c =
    (claims : List BountyClaim)
    → Map.get c.bounty_claimers account ≡ some claims
    → internal_find_claim bounty_id claims ≡ none

module _ (bounty_id : ℕ) (receiver : String) where
  get_claims_panics :
      (h : Host Contract) {out : (List BountyClaim × ℕ) × Host Contract}
      → IsUnclaimed bounty_id receiver h.state
      → internal_get_claims bounty_id receiver h ≡ ok out
      → ⊥
  unfolding internal_get_claims ◌>>=◌
  get_claims_panics h unclaimed e = elim (Option-cases (Map.get h.state.bounty_claimers receiver)) [
    | inl missing ↦ ground (arith, missing)
    | inr (claims, stored) ↦ ground (arith, stored, unclaimed claims stored)
  ]

  payout_panics :
      (success : Bool) (h : Host Contract) {out : PromiseOrValue × Host Contract}
      → IsUnclaimed bounty_id receiver h.state
      → internal_execute_bounty_payout bounty_id receiver success h ≡ ok out
      → ⊥
  unfolding internal_execute_bounty_payout internal_remove_claim
  payout_panics success h unclaimed e =
      let (bounty, h1, e1, r1) = chain_ok _ _ h (gets_then _ _ h e) in
      let (_, h2, e2, r2) = chain_ok _ _ h1 r1 in
      let (found, h3, e3, r3) = chain_ok _ _ h1 e2 in
      get_claims_panics h1
        (subst (λ k. IsUnclaimed bounty_id receiver k.state) (sym (expect_ok _ _ h e1).1) unclaimed)
        e3

  unlock-Keeps : (n : ℕ) → Keeps (IsUnclaimed bounty_id receiver) (unlock n)
  unfolding unlock
  unlock-Keeps n =
      let written : (m : ℕ)
          → Keeps (IsUnclaimed bounty_id receiver) (modify (λ c. record c { locked_amount = m })) =
        λ m. Keeps-modify _ (λ c unclaimed. unclaimed) in
      search (keeps_rules, written)

  bounty_bond-Keeps :
      (policy : Policy) (proposal : Proposal) (kind : ProposalKind)
      → Keeps (IsUnclaimed bounty_id receiver) (return_bounty_bond policy proposal kind)
  unfolding return_bounty_bond
  bounty_bond-Keeps policy proposal (ProposalKind.bounty_done id account) =
      search (keeps_rules, unlock-Keeps)
  bounty_bond-Keeps policy proposal _ = search keeps_rules

  return_bonds-Keeps :
      (policy : Policy) (proposal : Proposal)
      → Keeps (IsUnclaimed bounty_id receiver) (internal_return_bonds policy proposal)
  unfolding internal_return_bonds
  return_bonds-Keeps policy proposal = search (keeps_rules, unlock-Keeps, bounty_bond-Keeps)

  module _ (env : Env) (policy : Policy) (proposal : Proposal)
      (reports : proposal.kind ≡ ProposalKind.bounty_done bounty_id receiver) where
    pub execute_panics :
        (id : ℕ) (h : Host Contract) {out : Unit × Host Contract}
        → IsUnclaimed bounty_id receiver h.state
        → internal_execute_proposal env policy proposal id h ≡ ok out
        → ⊥
    unfolding internal_execute_proposal execute_kind
    execute_panics id h unclaimed e =
        let (r, h1, e1, r1) = chain_ok _ _ h e in
        payout_panics true h unclaimed
          (ap (λ kind. execute_kind env policy proposal kind h) (sym reports) ∙ e1)

    pub reject_panics :
        (return_bonds : Bool) (h : Host Contract) {out : Unit × Host Contract}
        → IsUnclaimed bounty_id receiver h.state
        → internal_reject_proposal policy proposal return_bonds h ≡ ok out
        → ⊥
    unfolding internal_reject_proposal
    reject_panics return_bonds h unclaimed e =
        let (done, h1, e1, r1) = chain_ok _ _ h e in
        let (r, h2, e2, r2) = chain_ok _ _ h1 r1 in
        let first : Keeps (IsUnclaimed bounty_id receiver) (
            if return_bonds
            then (internal_return_bonds policy proposal >>= schedule)
            else pure tt) =
          search (keeps_rules, return_bonds-Keeps) in
        payout_panics false h1
          (After-ok (IsUnclaimed bounty_id receiver) _ done h1 e1 (first.at h unclaimed))
          (ap (λ kind. reject_claim kind h1) (sym reports) ∙ e2)
