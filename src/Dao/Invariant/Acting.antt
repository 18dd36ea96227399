-- ===== src/Dao/Invariant/Acting.antt =====
-- What happens to a proposal that is stored keeps the invariant.
use mathlib.Core.Option.{some-injective}
use sputnik_dao_contract.Base.{
  ℕ, ◌+◌, ◌<◌, ◌≡◌, refl, sym, ◌∙◌, subst, ◌==◌, List, String, Bool, true, false, Option, some,
  List, nat_key, arith, if◌then◌else◌,
}
use sputnik_dao_contract.Map
use sputnik_dao_contract.Map.{Map, get-insert, get-remove}
use sputnik_dao_contract.Result.{ok}
use sputnik_dao_contract.Host.{Env, modify}
use sputnik_dao_contract.Host.Keeps.{Keeps, Keeps-modify, Keeps-bind, keeps_rules}
use sputnik_dao_contract.Host.Ensures.{
  Ensures, Ensures-pure, Ensures-bind, Ensures-bind-Ensures, Ensures-panic, Ensures-lift,
  Keeps-bind-Ensures,
}
use sputnik_dao_contract.Dao.Types.{
  Action, add_proposal as adding, remove_proposal, vote_approve, vote_reject, vote_remove, finalize,
  move_to_hub,
}
use sputnik_dao_contract.Dao.Data.{
  Policy, ProposalStatus, approved, rejected, removed, expired, Proposal, Vote,
}
use sputnik_dao_contract.Dao.Proposals.Votes.{update_votes}
use sputnik_dao_contract.Dao.Proposals.Methods.{
  remove_stored, after_vote, vote_on, after_finalize, finalize_proposal, act, store, act_on, answer,
}
use sputnik_dao_contract.Dao.Frame.{HasCurrentPolicy, get_policy-Keeps}
use sputnik_dao_contract.Dao.Frame.Execution.{
  internal_execute_proposal-Keeps, internal_reject_proposal-Keeps, on_result-Keeps,
}
use sputnik_dao_contract.Dao.Invariant.{AreProposals, IsSound}
use sputnik_dao_contract.Dao.Invariant.Writes.{frame-IsSound}

remove-AreProposals :
    (id last : ℕ) (proposals : Map ℕ Proposal)
    → AreProposals proposals last
    → AreProposals (Map.remove id proposals) last
remove-AreProposals id last proposals a = record {
  below = λ j p e. ground (arith, get-remove id j proposals, a.below j p);
  kinds = λ j p e. a.kinds j p (ground (arith, get-remove id j proposals));
}

-- What the lookup after an insertion finds is the new value or was there before.
found_after :
    (b : Bool) (new : Proposal) (o : Option Proposal) (p : Proposal)
    → (if b then some new else o) ≡ some p
    → HasCurrentPolicy new.kind
    → (o ≡ some p → HasCurrentPolicy p.kind)
    → HasCurrentPolicy p.kind
found_after true new o p e k f = subst (λ q. HasCurrentPolicy q.kind) (some-injective new p e) k
found_after false new o p e k f = f e

insert-AreProposals :
    (id last : ℕ) (proposal : Proposal) (proposals : Map ℕ Proposal)
    → id < last
    → HasCurrentPolicy proposal.kind
    → AreProposals proposals last
    → AreProposals (Map.insert id proposal proposals) last
insert-AreProposals id last proposal proposals lt k a = record {
  below = λ j p e. ground (arith, get-insert id j proposal proposals, a.below j p);
  kinds = λ j p e.
      found_after (id == j) proposal (Map.get proposals j) p
        (sym (get-insert id j proposal proposals) ∙ e) k (a.kinds j p);
}

pub push-AreProposals :
    (last : ℕ) (proposal : Proposal) (proposals : Map ℕ Proposal)
    → HasCurrentPolicy proposal.kind
    → AreProposals proposals last
    → AreProposals (Map.insert last proposal proposals) (last + 1)
push-AreProposals last proposal proposals k a =
    insert-AreProposals last (last + 1) proposal proposals (omega arith) k
      (record { below = λ j p e. omega (arith, a.below j p e); kinds = a.kinds })

update_votes-kind :
    (account : String) (roles : List String) (vote : Vote) (policy : Policy) (weight : ℕ)
    (proposal v : Proposal)
    → update_votes account roles vote policy weight proposal ≡ ok v
    → v.kind ≡ proposal.kind
unfolding update_votes
update_votes-kind account roles vote policy weight proposal v e = ground arith

module _ {W : Map String ℕ → ℕ → Type 0} {known : Option String} {given : ℕ} where
  remove_stored-IsSound : (id : ℕ) → Keeps (IsSound W known given) (modify (remove_stored id))
  remove_stored-IsSound id =
      Keeps-modify _
        λ c s. assumption (remove-AreProposals id c.last_proposal_id c.proposals s.proposals)

  after_vote-IsSound :
      (env : Env) (policy : Policy) (proposal : Proposal) (id : ℕ) (status : ProposalStatus)
      → HasCurrentPolicy proposal.kind
      → Keeps (IsSound W known given) (after_vote env policy proposal id status)
  unfolding after_vote
  after_vote-IsSound env policy proposal id approved k =
      search (keeps_rules, internal_execute_proposal-Keeps (frame-IsSound given))
  after_vote-IsSound env policy proposal id removed k =
      search
        (keeps_rules, internal_reject_proposal-Keeps (frame-IsSound given), remove_stored-IsSound)
  after_vote-IsSound env policy proposal id rejected k =
      search (keeps_rules, internal_reject_proposal-Keeps (frame-IsSound given))
  after_vote-IsSound env policy proposal id _ k = search keeps_rules

  after_finalize-IsSound :
      (env : Env) (policy : Policy) (proposal : Proposal) (id : ℕ) (status : ProposalStatus)
      → HasCurrentPolicy proposal.kind
      → Keeps (IsSound W known given) (after_finalize env policy proposal id status)
  unfolding after_finalize
  after_finalize-IsSound env policy proposal id approved k =
      internal_execute_proposal-Keeps (frame-IsSound given) env policy proposal id k
  after_finalize-IsSound env policy proposal id expired k =
      internal_reject_proposal-Keeps (frame-IsSound given) policy proposal true
  after_finalize-IsSound env policy proposal id _ k = search keeps_rules

  vote_on-IsSound :
      (env : Env) (policy : Policy) (proposal : Proposal) (id : ℕ) (roles : List String)
      (action : Action)
      → HasCurrentPolicy proposal.kind
      → Ensures
          (IsSound W known given)
          (λ r. r.0.kind ≡ proposal.kind)
          (vote_on env policy proposal id roles action)
  unfolding vote_on
  vote_on-IsSound env policy proposal id roles action k =
      Ensures-bind _ _ _ _ (search keeps_rules) λ _.
        Ensures-bind _ _ _ _ (search keeps_rules) λ vote.
          Ensures-bind _ _ _ _ (search keeps_rules) λ weight.
            Ensures-bind-Ensures _ _ _ _ _
              (Ensures-lift _ (λ v. v.kind ≡ proposal.kind) _ (update_votes-kind _ _ _ _ _ _))
              λ voted same.
                let kind : HasCurrentPolicy voted.kind = subst HasCurrentPolicy (sym same) k in
                search (keeps_rules, Ensures-bind, Ensures-pure, after_vote-IsSound)

  finalize_proposal-IsSound :
      (env : Env) (policy : Policy) (proposal : Proposal) (id : ℕ)
      → HasCurrentPolicy proposal.kind
      → Ensures
          (IsSound W known given)
          (λ r. r.0.kind ≡ proposal.kind)
          (finalize_proposal env policy proposal id)
  unfolding finalize_proposal
  finalize_proposal-IsSound env policy proposal id k =
      search (keeps_rules, Ensures-bind, Ensures-pure, after_finalize-IsSound)

  act-IsSound :
      (env : Env) (policy : Policy) (proposal : Proposal) (id : ℕ) (roles : List String)
      (action : Action)
      → HasCurrentPolicy proposal.kind
      → Ensures
          (IsSound W known given)
          (λ r. r.0.kind ≡ proposal.kind)
          (act env policy proposal id roles action)
  unfolding act
  act-IsSound env policy proposal id roles adding k = Ensures-panic _ _ _
  act-IsSound env policy proposal id roles remove_proposal k =
      Ensures-bind _ _ _ _ (remove_stored-IsSound id) (λ _. Ensures-pure _ _ _ refl)
  act-IsSound env policy proposal id roles vote_approve k =
      vote_on-IsSound env policy proposal id roles vote_approve k
  act-IsSound env policy proposal id roles vote_reject k =
      vote_on-IsSound env policy proposal id roles vote_reject k
  act-IsSound env policy proposal id roles vote_remove k =
      vote_on-IsSound env policy proposal id roles vote_remove k
  act-IsSound env policy proposal id roles finalize k =
      finalize_proposal-IsSound env policy proposal id k
  act-IsSound env policy proposal id roles move_to_hub k = Ensures-pure _ _ _ refl

  store-IsSound :
      (id : ℕ) (proposal : Proposal)
      → HasCurrentPolicy proposal.kind
      → id < given
      → Keeps (IsSound W known given) (modify (store id proposal))
  store-IsSound id proposal k lt = Keeps-modify _ λ c s.
      let below : id < c.last_proposal_id = omega (arith, s.reached) in
      assumption
        (insert-AreProposals id c.last_proposal_id proposal c.proposals below k s.proposals)

  pub act_on-IsSound :
      (env : Env) (id : ℕ) (action : Action) (proposal : Proposal)
      → HasCurrentPolicy proposal.kind
      → id < given
      → Keeps (IsSound W known given) (act_on env id action proposal)
  unfolding act_on
  act_on-IsSound env id action proposal k lt =
      Keeps-bind _ _ (get_policy-Keeps (frame-IsSound given)) λ policy.
        Keeps-bind _ _ (search keeps_rules) λ user. Keeps-bind _ _ (search keeps_rules) λ _.
          Keeps-bind-Ensures _ _ _ _ (act-IsSound env policy proposal id _ action k) λ acted same.
            let kind : HasCurrentPolicy acted.0.kind = subst HasCurrentPolicy (sym same) k in
            search (keeps_rules, store-IsSound)

  pub answer-IsSound :
      (env : Env) (id : ℕ) (proposal : Proposal)
      → HasCurrentPolicy proposal.kind
      → id < given
      → Keeps (IsSound W known given) (answer env id proposal)
  unfolding answer
  answer-IsSound env id proposal k lt =
      Keeps-bind-Ensures _ _ _ _
        (on_result-Keeps (frame-IsSound given) env.promise_results proposal)
        λ answered same. store-IsSound id answered (subst HasCurrentPolicy (sym same) k) lt
