-- ===== src/Dao/Proposals/Voting.antt =====
-- What a vote does where it returns: `act_proposal` of sputnikdao2/src/proposals.rs.
use sputnik_dao_contract.Base.{
  ℕ, ◌≡◌, refl, sym, ◌∙◌, ap, subst, Bool, true, false, String, List, nat_key, string_key,
  if◌then◌else◌,
}
use sputnik_dao_contract.Result.{ok}
use sputnik_dao_contract.Host.{Env, Host, modify, pure, ◌>>=◌}
use sputnik_dao_contract.Host.Reads.{
  chain_ok, require_then, lift_then, gets_then, require_ok, gets_ok, pure_ok,
}
use sputnik_dao_contract.Dao.Types.{Action, vote_approve, vote_reject, vote_remove}
use sputnik_dao_contract.Dao.Data.{Policy, Proposal, ProposalStatus, Vote}
use sputnik_dao_contract.Dao.Contract.{Contract}
use sputnik_dao_contract.Dao.Delegation.{get_user_weight}
use sputnik_dao_contract.Dao.Policy.Permissions.{can_execute_action}
use sputnik_dao_contract.Dao.Policy.Status.{proposal_status}
use sputnik_dao_contract.Dao.Proposals.Votes.{vote_from, update_votes}
use sputnik_dao_contract.Dao.Proposals.Methods.{
  internal_user_info, is_in_progress, after_vote, vote_on, act, store, act_on,
}
use sputnik_dao_contract.Dao.Proposals.Adding.{Governs, get_policy_ok}
use sputnik_dao_contract.Dao.Proposals.Lifecycle.{is_vote}

module _ (env : Env) (id : ℕ) (action : Action) where
  -- What an action passed, and what it left to be stored.
  pub record Acted (proposal : Proposal) (h h' : Host Contract) : Type 0 where
    pub policy : Policy
    pub governed : Governs policy h.state
    pub permitted :
        (can_execute_action env policy (internal_user_info env h.state) proposal.kind action).1
        ≡ true
    pub acted : Proposal
    pub update : Bool
    pub between : Host Contract
    pub ran :
        act env policy proposal id
          (can_execute_action env policy (internal_user_info env h.state) proposal.kind action).0
          action
          h
        ≡ ok ((acted, update), between)
    pub after :
        h' ≡ (if update then record between { state = store id acted between.state } else between)

  stored_ok :
      (acted : Proposal) (update : Bool) (h : Host Contract) {out : Unit × Host Contract}
      → (if update then modify (store id acted) else pure tt) h ≡ ok out
      → out.1 ≡ (if update then record h { state = store id acted h.state } else h)
  unfolding ◌>>=◌
  stored_ok acted true h e = cc
  stored_ok acted false h e = cc

  pub act_on_ok :
      (proposal : Proposal) (h h' : Host Contract)
      → act_on env id action proposal h ≡ ok (tt, h')
      → Acted proposal h h'
  unfolding act_on
  act_on_ok proposal h h' e =
      let (policy, h1, e1, rest1) = chain_ok _ _ h e in
      let (user, h2, e2, rest2) = chain_ok _ _ h1 rest1 in
      let (allowed, h3, e3, rest3) = chain_ok _ _ h2 rest2 in
      let ((acted, update), between, e4, rest4) = chain_ok _ _ h3 rest3 in
      let (governed, same1) = get_policy_ok h e1 in
      let (me, same2) = gets_ok _ h1 e2 in
      let (permitted, same3) = require_ok _ _ h2 e3 in
      let mine : user ≡ internal_user_info env h.state =
        me ∙ ap (λ k. internal_user_info env k.state) same1 in
      record {
        policy = policy;
        governed = governed;
        permitted =
            subst (λ u. (can_execute_action env policy u proposal.kind action).1 ≡ true) mine
              permitted;
        acted = acted;
        update = update;
        between = between;
        ran =
            subst
              (λ k.
                act env policy proposal id
                  (can_execute_action env policy (internal_user_info env h.state) proposal.kind
                    action).0
                  action k
                ≡ ok ((acted, update), between))
              (same3 ∙ same2 ∙ same1)
              (subst
                (λ u.
                  act env policy proposal id
                    (can_execute_action env policy u proposal.kind action).0 action h3
                  ≡ ok ((acted, update), between))
                mine e4);
        after = stored_ok acted update between rest4;
      }

module _ (env : Env) (policy : Policy) (proposal : Proposal) (id : ℕ) (roles : List String)
    (action : Action) where
  -- What a vote passed: the counted vote, and the status found for it.
  pub record Voted (h : Host Contract) (out : (Proposal × Bool) × Host Contract) : Type 0 where
    pub ready : is_in_progress proposal.status ≡ true
    pub vote : Vote
    pub cast : vote_from action ≡ ok vote
    pub counted : Proposal
    pub counting :
        update_votes env.predecessor_account_id roles vote policy
          (get_user_weight h.state env.predecessor_account_id)
          proposal
        ≡ ok counted
    pub status : ProposalStatus
    pub found : proposal_status env policy counted roles h.state.total_delegation_amount ≡ ok status
    pub decided : out.0.0 ≡ record counted { status = status }
    pub settled :
        after_vote env policy (record counted { status = status }) id status h ≡ ok (out.0.1, out.1)

  pub vote_on_ok :
      (h : Host Contract) {out : (Proposal × Bool) × Host Contract}
      → vote_on env policy proposal id roles action h ≡ ok out
      → Voted h out
  unfolding vote_on
  vote_on_ok h {out = out} e =
      let (open_yet, e1) = require_then _ _ _ h e in
      let (vote, cast, e2) = lift_then _ _ h e1 in
      let (counted, counting, e3) = lift_then _ _ h (gets_then _ _ h e2) in
      let (status, found, e4) = lift_then _ _ h (gets_then _ _ h e3) in
      let (update, h', e5, e6) = chain_ok _ _ h e4 in
      let returned = pure_ok _ h' e6 in
      record {
        ready = open_yet;
        vote = vote;
        cast = cast;
        counted = counted;
        counting = counting;
        status = status;
        found = found;
        decided = ap (λ o. o.0.0) returned;
        settled = e5 ∙ ap (λ o. ok (o.0.1, o.1)) (sym returned);
      }

  pub act-vote_on :
      (h : Host Contract)
      → is_vote action ≡ true
      → act env policy proposal id roles action h ≡ vote_on env policy proposal id roles action h
  unfolding act
  act-vote_on h i =
      elim action
          as (λ a.
            is_vote a ≡ true
            → act env policy proposal id roles a h ≡ vote_on env policy proposal id roles a h) [
              | vote_approve ↦ λ v. refl
              | vote_reject ↦ λ v. refl
              | vote_remove ↦ λ v. refl
              | _ ↦ λ v. cc
            ]
        i
