-- ===== src/Dao/Bonds/Refunds.antt =====
-- What the locked amount is there for: the bonds of a proposal can be returned. It is about
-- `act_proposal` and `on_proposal_callback` of sputnikdao2/src/proposals.rs.
use sputnik_dao_contract.Base.{
  ℕ, ◌+◌, ◌-◌, ◌≤◌, ◌<◌, ◌≡◌, refl, ◌∙◌, ap, subst, Option-cases, inl, inr, String, true, Option,
  some, List, [], ◌∷◌, ◌++◌, nat_key, string_key, arith,
}
use sputnik_dao_contract.Map
use sputnik_dao_contract.Map.{Map}
use sputnik_dao_contract.Result.{ok, u64_mod}
use sputnik_dao_contract.Host.{Env, Host, transfer_to, successful, ◌>>=◌}
use sputnik_dao_contract.Dao.Types.{finalize}
use sputnik_dao_contract.Dao.Data.{
  Policy, default, current, ProposalKind, Proposal, approved, expired,
}
use sputnik_dao_contract.Dao.Contract.{Contract, get_policy}
use sputnik_dao_contract.Dao.Policy.Roles.{to_policy}
use sputnik_dao_contract.Dao.Policy.Status.{is_open}
use sputnik_dao_contract.Dao.Policy.Permissions.{can_execute_action}
use sputnik_dao_contract.Dao.Proposals.Execution.{
  unlock, internal_return_bonds, count_payout, internal_callback_proposal_success,
}
use sputnik_dao_contract.Dao.Proposals.Methods.{
  internal_user_info, act_proposal, store, on_result, answer, on_proposal_callback,
}
use sputnik_dao_contract.Dao.Proposals.Adding.{Governs}
use sputnik_dao_contract.Dao.Proposals.Bonds.{callback_eq}
use sputnik_dao_contract.Dao.Proposals.Refund.{HasNoClaim, no_bounty_bond, finalize_refunds}
use sputnik_dao_contract.Dao.Frame.{IsCurrent}
use sputnik_dao_contract.Dao.Bonds.{bond_if_open, callback_bonds, bonds_on_the_way}
use sputnik_dao_contract.Dao.Bonds.Sums.{open_bonds-remove, on_the_way-append}
use sputnik_dao_contract.Dao.Bonds.Runs.{Running, start, Reachable}
use sputnik_dao_contract.Dao.Bonds.Solvency.{
  reachable_bonds, reachable-IsBackedSound, locked_covers,
}

-- In every state that a new contract comes to by calls of any accounts and by callbacks of its own
-- promises in any order, while the policy asks for the same bonds: Finalize of a stored proposal
-- that is open, past a deadline that fits in 64 bits and not a report of a done bounty returns,
-- where the caller may finalize it: the proposal is stored as Expired, its bond comes off the
-- locked amount, and just this bond is sent to the proposer.
pub expired_refund :
    (b k : ℕ) (s : Running) (env : Env) (id : ℕ) (memo : Option String) (policy : Policy)
    (proposal : Proposal)
    → Reachable b k s
    → Map.get s.dao.proposals id ≡ some proposal
    → Governs policy s.dao
    → (can_execute_action env policy (internal_user_info env s.dao) proposal.kind finalize).1 ≡ true
    → is_open proposal.status ≡ true
    → proposal.submission_time + policy.proposal_period < u64_mod
    → proposal.submission_time + policy.proposal_period < env.block_timestamp
    → HasNoClaim proposal.kind
    → act_proposal env id finalize memo (start s.dao)
      ≡ ok (
        tt,
        record {
          state =
              store id
                (record proposal { status = expired })
                (record s.dao { locked_amount = s.dao.locked_amount - b });
          promises = transfer_to proposal.proposer b ∷ [];
        },
      )
expired_refund b k s env id memo policy proposal r found governed allowed still_open fits late
      plain =
    let bond = (reachable_bonds b k r policy governed).0 in
    let covered : policy.proposal_bond ≤ s.dao.locked_amount = ground (
      arith,
      bond,
      still_open,
      locked_covers b k s r,
      open_bonds-remove b id s.dao.proposals,
      ap (bond_if_open b) found,
    ) in
    finalize_refunds env id memo policy proposal (start s.dao) found governed allowed still_open
      fits late plain covered
    ∙ ap
        (λ n. ok (
          tt,
          record {
            state =
                store id (record proposal { status = expired })
                  (record s.dao { locked_amount = s.dao.locked_amount - n });
            promises = transfer_to proposal.proposer n ∷ [];
          },
        ))
        bond

governing : (c : Contract) → IsCurrent c.policy → (policy : Policy) × Governs policy c
governing c valid = elim (Option-cases c.policy) [
  | inl missing ↦ elim (subst IsCurrent missing valid) [ ]
  | inr (default accounts, stored) ↦ elim (subst IsCurrent stored valid) [ ]
  | inr (current policy, stored) ↦ (policy, stored)
]

no_payout :
    (kind : ProposalKind) (h : Host Contract) → HasNoClaim kind → count_payout kind h ≡ ok (tt, h)
unfolding count_payout ◌>>=◌
no_payout (ProposalKind.bounty_done id receiver) h plain = elim plain [ ]
no_payout _ h plain = refl

-- In every state that a new contract comes to by calls of any accounts and by callbacks of its own
-- promises in any order, while the policy asks for the same bonds: the callback on the way of a
-- stored proposal that does not report a bounty done, with the result of a promise that succeeded,
-- returns: the proposal is stored as Approved, its bond comes off the locked amount, and just this
-- bond is sent to the proposer.
pub callback_returns :
    (b k : ℕ) (s : Running) (env : Env) (before after : List ℕ) (id : ℕ) (bytes : List ℕ)
    (proposal : Proposal)
    → Reachable b k s
    → s.on_the_way ≡ before ++ id ∷ after
    → Map.get s.dao.proposals id ≡ some proposal
    → env.promise_results ≡ successful bytes ∷ []
    → HasNoClaim proposal.kind
    → on_proposal_callback env id (start s.dao)
      ≡ ok (
        tt,
        record {
          state =
              store id
                (record proposal { status = approved })
                (record s.dao { locked_amount = s.dao.locked_amount - b });
          promises = transfer_to proposal.proposer b ∷ [];
        },
      )
unfolding answer on_result internal_callback_proposal_success internal_return_bonds unlock
    get_policy to_policy bonds_on_the_way ◌>>=◌
callback_returns b k s env before after id bytes proposal r pending found results plain =
    let (policy, governed) = governing s.dao (reachable-IsBackedSound b k r).policy in
    let bond = (reachable_bonds b k r policy governed).0 in
    let covered : b ≤ s.dao.locked_amount = omega (
      arith,
      locked_covers b k s r,
      ap (λ ids. bonds_on_the_way b k ids s.dao.proposals) pending,
      on_the_way-append b k before (id ∷ after) s.dao.proposals,
      ap (callback_bonds b k) found,
    ) in
    callback_eq env id (start s.dao) proposal found
    ∙ ground (
      arith,
      results,
      governed,
      bond,
      covered,
      no_payout proposal.kind (start s.dao) plain,
      no_bounty_bond policy (record proposal { status = approved }) proposal.kind (start s.dao)
          plain,
    )
