-- ===== src/Dao/Proposals/Lifecycle.antt =====
-- What can no longer be done to a proposal: `act_proposal` of sputnikdao2/src/proposals.rs.
use sputnik_dao_contract.Base.{
  ℕ, ◌≡◌, refl, Bool, true, false, String, Option, some, List, nat_key, string_key, arith,
}
use sputnik_dao_contract.Map
use sputnik_dao_contract.Result.{Result, ok, err, ◌>>=◌ as then}
use sputnik_dao_contract.Host.{Env, Host, ◌>>=◌}
use sputnik_dao_contract.Host.Panics.{
  IsPanic, Panics, Panics-require, Panics-lift, Panics-after, Panics-first,
}
use sputnik_dao_contract.Dao.Types.{Action, vote_approve, vote_reject, vote_remove, finalize}
use sputnik_dao_contract.Dao.Data.{Policy, Proposal, Vote}
use sputnik_dao_contract.Dao.Contract.{Contract}
use sputnik_dao_contract.Dao.Policy.Permissions.{kind_to_policy_label}
use sputnik_dao_contract.Dao.Policy.Status.{is_open, proposal_status}
use sputnik_dao_contract.Dao.Proposals.Votes.{update_votes, add_to_counts}
use sputnik_dao_contract.Dao.Proposals.Methods.{
  vote_on, finalize_proposal, act, act_on, act_proposal,
}

-- The actions that vote.
abbrev pub is_vote : Action → Bool
is_vote vote_approve = true
is_vote vote_reject = true
is_vote vote_remove = true
is_vote _ = false

-- The actions that may change the status.
abbrev pub is_deciding : Action → Bool
is_deciding finalize = true
is_deciding action = is_vote action

pub act_on-Panics :
    (env : Env) (id : ℕ) (action : Action) (proposal : Proposal)
    → ((policy : Policy) (roles : List String) → Panics (act env policy proposal id roles action))
    → Panics (act_on env id action proposal)
unfolding act_on
act_on-Panics env id action proposal p = Panics-after _ _ (λ policy.
    Panics-after _ _ (λ user. Panics-after _ _ (λ allowed. Panics-first _ _ (p policy _))))

pub act_proposal_eq :
    (env : Env) (id : ℕ) (action : Action) (memo : Option String) (h : Host Contract)
    (proposal : Proposal)
    → Map.get h.state.proposals id ≡ some proposal
    → act_proposal env id action memo h ≡ act_on env id action proposal h
unfolding act_proposal ◌>>=◌
act_proposal_eq env id action memo h proposal found = rw found refl

vote_on_closed :
    (env : Env) (policy : Policy) (proposal : Proposal) (id : ℕ) (roles : List String)
    (action : Action)
    → is_open proposal.status ≡ false
    → Panics (vote_on env policy proposal id roles action)
unfolding vote_on
vote_on_closed env policy proposal id roles action closed =
    Panics-first _ _ (Panics-require _ _ (ground arith))

finalize_proposal_closed :
    (env : Env) (policy : Policy) (proposal : Proposal) (id : ℕ)
    → is_open proposal.status ≡ false
    → Panics (finalize_proposal env policy proposal id)
unfolding finalize_proposal proposal_status
finalize_proposal_closed env policy proposal id closed =
    Panics-after _ _ (λ total. Panics-first _ _ (Panics-lift _ (rw closed tt)))

act_closed :
    (env : Env) (policy : Policy) (proposal : Proposal) (id : ℕ) (roles : List String)
    (action : Action)
    → is_deciding action ≡ true
    → is_open proposal.status ≡ false
    → Panics (act env policy proposal id roles action)
unfolding act
act_closed env policy proposal id roles vote_approve d c =
    vote_on_closed env policy proposal id roles vote_approve c
act_closed env policy proposal id roles vote_reject d c =
    vote_on_closed env policy proposal id roles vote_reject c
act_closed env policy proposal id roles vote_remove d c =
    vote_on_closed env policy proposal id roles vote_remove c
act_closed env policy proposal id roles finalize d c =
    finalize_proposal_closed env policy proposal id c
act_closed env policy proposal id roles _ d c = cc

-- A vote and Finalize on a stored proposal whose status is neither InProgress nor Failed panic,
-- whoever acts, whatever the policy and however often it is tried.
pub act_proposal_closed :
    (env : Env) (id : ℕ) (action : Action) (memo : Option String) (h : Host Contract)
    (proposal : Proposal)
    → Map.get h.state.proposals id ≡ some proposal
    → is_deciding action ≡ true
    → is_open proposal.status ≡ false
    → IsPanic (act_proposal env id action memo h)
act_proposal_closed env id action memo h proposal found d c =
    rw (act_proposal_eq env id action memo h proposal found) (
      (act_on-Panics env id action proposal
          (λ policy roles. act_closed env policy proposal id roles action d c)).at
        h)

IsPanic-then :
    {A B : Type 0} (r : Result A) (f : A → Result B)
    → ((a : A) → IsPanic (f a))
    → IsPanic (then r f)
IsPanic-then (ok a) f p = p a
IsPanic-then (err c) f p = tt

update_votes_again :
    (account : String) (roles : List String) (vote old : Vote) (policy : Policy) (weight : ℕ)
    (proposal : Proposal)
    → Map.get proposal.votes account ≡ some old
    → IsPanic (update_votes account roles vote policy weight proposal)
unfolding update_votes
update_votes_again account roles vote old policy weight proposal voted = rw voted (
    IsPanic-then
      (add_to_counts policy (kind_to_policy_label proposal.kind) vote weight roles
        proposal.vote_counts)
      _ (λ counts. tt))

vote_on_again :
    (env : Env) (policy : Policy) (proposal : Proposal) (id : ℕ) (roles : List String)
    (action : Action) (old : Vote)
    → Map.get proposal.votes env.predecessor_account_id ≡ some old
    → Panics (vote_on env policy proposal id roles action)
unfolding vote_on
vote_on_again env policy proposal id roles action old voted = Panics-after _ _ (λ ready.
    Panics-after _ _ (λ vote. Panics-after _ _ (λ weight. Panics-first _ _ (
      Panics-lift _ (
        update_votes_again env.predecessor_account_id roles vote old policy weight proposal
          voted)))))

act_again :
    (env : Env) (policy : Policy) (proposal : Proposal) (id : ℕ) (roles : List String)
    (action : Action) (old : Vote)
    → is_vote action ≡ true
    → Map.get proposal.votes env.predecessor_account_id ≡ some old
    → Panics (act env policy proposal id roles action)
unfolding act
act_again env policy proposal id roles vote_approve old i v =
    vote_on_again env policy proposal id roles vote_approve old v
act_again env policy proposal id roles vote_reject old i v =
    vote_on_again env policy proposal id roles vote_reject old v
act_again env policy proposal id roles vote_remove old i v =
    vote_on_again env policy proposal id roles vote_remove old v
act_again env policy proposal id roles _ old i v = cc

-- A second vote on a stored proposal by an account that the proposal has a vote of panics,
-- whichever way either of them goes.
pub act_proposal_voted :
    (env : Env) (id : ℕ) (action : Action) (memo : Option String) (h : Host Contract)
    (proposal : Proposal) (old : Vote)
    → Map.get h.state.proposals id ≡ some proposal
    → Map.get proposal.votes env.predecessor_account_id ≡ some old
    → is_vote action ≡ true
    → IsPanic (act_proposal env id action memo h)
act_proposal_voted env id action memo h proposal old found voted i =
    rw (act_proposal_eq env id action memo h proposal found) (
      (act_on-Panics env id action proposal
          (λ policy roles. act_again env policy proposal id roles action old i voted)).at
        h)
