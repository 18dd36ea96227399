-- ===== src/Dao/Proposals/Adding.antt =====
-- What `add_proposal` of sputnikdao2/src/proposals.rs does where it returns.
use sputnik_dao_contract.Base.{
  ℕ, ◌+◌, ◌≡◌, ◌∙◌, ap, subst, true, some, nat_beq_iff, nat_key, string_key, arith,
}
use sputnik_dao_contract.Map
use sputnik_dao_contract.Result.{ok}
use sputnik_dao_contract.Host.{Env, Host, ◌>>=◌}
use sputnik_dao_contract.Host.Reads.{chain_ok, require_ok, lift_ok, gets_ok, expect_ok}
use sputnik_dao_contract.Dao.Types.{add_proposal as adding}
use sputnik_dao_contract.Dao.Data.{
  Policy, VersionedPolicy, ProposalKind, ProposalInput, Proposal, default, current,
}
use sputnik_dao_contract.Dao.Contract.{Contract, get_policy}
use sputnik_dao_contract.Dao.Policy.Roles.{to_policy}
use sputnik_dao_contract.Dao.Policy.Permissions.{can_execute_action}
use sputnik_dao_contract.Dao.Proposals.Methods.{
  internal_user_info, proposal_from, validate, insert_proposal, add_proposal,
}

-- The policy that a contract is governed by.
abbrev pub Governs : Policy → Contract → Type 0
Governs policy c = c.policy ≡ some (current policy)

to_policy_current : (v : VersionedPolicy) {p : Policy} → to_policy v ≡ ok p → v ≡ current p
unfolding to_policy
to_policy_current (default accounts) e = cc
to_policy_current (current p) e = cc

pub get_policy_ok :
    (h : Host Contract) {out : Policy × Host Contract}
    → get_policy h ≡ ok out
    → Governs out.0 h.state × (out.1 ≡ h)
unfolding get_policy
get_policy_ok h e =
    let (stored, h1, first, e1) = chain_ok _ _ h e in
    let (versioned, h2, second, e2) = chain_ok _ _ h1 e1 in
    let (same1, old1) = gets_ok _ h first in
    let (same2, old2) = expect_ok _ _ h1 second in
    let (same3, old3) = lift_ok _ h2 e2 in (cc (to_policy_current versioned same3), cc)

validate_ok :
    (kind : ProposalKind) (h : Host Contract) {out : Unit × Host Contract}
    → validate kind h ≡ ok out
    → out.1 ≡ h
unfolding validate ◌>>=◌
validate_ok kind h e = ground arith

-- The contract with a new proposal and its bond.
abbrev pub with_proposal : Proposal → ℕ → Contract → Contract
with_proposal proposal bond c = record c {
  proposals = Map.insert c.last_proposal_id proposal c.proposals;
  last_proposal_id = c.last_proposal_id + 1;
  locked_amount = c.locked_amount + bond;
}

abbrev pub added : Env → ProposalInput → ℕ → Host Contract → Host Contract
added env input bond h = record h { state = with_proposal (proposal_from env input) bond h.state }

insert_proposal_ok :
    (env : Env) (input : ProposalInput) (h : Host Contract) {out : ℕ × Host Contract}
    → insert_proposal env input h ≡ ok out
    → (out.0 ≡ h.state.last_proposal_id) × (out.1 ≡ added env input env.attached_deposit h)
unfolding insert_proposal ◌>>=◌
insert_proposal_ok env input h e = ground arith

-- Where add_proposal returns, the attached deposit is the bond that the policy asks for, the caller
-- may add a proposal of the kind, and all that changes is that the new proposal stands under the
-- next id, that id is given out and the bond is locked.
pub add_proposal_ok :
    (env : Env) (input : ProposalInput) (h h' : Host Contract) (id : ℕ)
    → add_proposal env input h ≡ ok (id, h')
    → (policy : Policy) × Governs policy h.state
      × (env.attached_deposit ≡ policy.proposal_bond)
      × ((can_execute_action env policy (internal_user_info env h.state) input.kind adding).1
          ≡ true)
      × (id ≡ h.state.last_proposal_id)
      × (h' ≡ added env input policy.proposal_bond h)
unfolding add_proposal
add_proposal_ok env input h h' id e =
    let (policy, h1, e1, rest1) = chain_ok _ _ h e in
    let (bonded, h2, e2, rest2) = chain_ok _ _ h1 rest1 in
    let (valid, h3, e3, rest3) = chain_ok _ _ h2 rest2 in
    let (user, h4, e4, rest4) = chain_ok _ _ h3 rest3 in
    let (allowed, h5, e5, rest5) = chain_ok _ _ h4 rest4 in
    let (governed, same1) = get_policy_ok h e1 in
    let (bond, same2) = require_ok _ _ h1 e2 in
    let same3 = validate_ok input.kind h2 e3 in
    let (me, same4) = gets_ok _ h3 e4 in
    let (permitted, same5) = require_ok _ _ h4 e5 in
    let (given, made) = insert_proposal_ok env input h5 rest5 in
    let deposit : env.attached_deposit ≡ policy.proposal_bond = (nat_beq_iff _ _).0 bond in
    let before : h5 ≡ h = same5 ∙ same4 ∙ same3 ∙ same2 ∙ same1 in
    (
      policy,
      governed,
      deposit,
      subst (λ u. (can_execute_action env policy u input.kind adding).1 ≡ true)
          (me ∙ ap (λ k. internal_user_info env k.state) (same3 ∙ same2 ∙ same1)) permitted,
      given ∙ ap (λ k. k.state.last_proposal_id) before,
      made
          ∙ ap (added env input env.attached_deposit) before
          ∙ ap (λ bond. added env input bond h) deposit,
    )
