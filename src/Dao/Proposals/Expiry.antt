-- ===== src/Dao/Proposals/Expiry.antt =====
-- What becomes of a proposal past its deadline: `act_proposal` of sputnikdao2/src/proposals.rs.
use sputnik_dao_contract.Base.{
  ℕ, ◌+◌, ◌<◌, ◌≡◌, sym, ◌∙◌, ap, subst, Bool, true, String, Option, none, some, List, inl, inr,
  nat_key, string_key, if◌then◌else◌, arith,
}
use sputnik_dao_contract.Map
use sputnik_dao_contract.Result.{ok}
use sputnik_dao_contract.Host.{Env, Host, ◌>>=◌}
use sputnik_dao_contract.Dao.Types.{Action}
use sputnik_dao_contract.Dao.Data.{Policy, Proposal, ProposalStatus, expired, Vote}
use sputnik_dao_contract.Dao.Contract.{Contract}
use sputnik_dao_contract.Dao.Delegation.{get_user_weight}
use sputnik_dao_contract.Dao.Policy.Status.{proposal_status}
use sputnik_dao_contract.Dao.Policy.Decision.{proposal_status_sound}
use sputnik_dao_contract.Dao.Proposals.Votes.{vote_from, add_to_counts, update_votes}
use sputnik_dao_contract.Dao.Policy.Permissions.{can_execute_action, kind_to_policy_label}
use sputnik_dao_contract.Dao.Proposals.Methods.{internal_user_info, after_vote, store, act_proposal}
use sputnik_dao_contract.Dao.Proposals.Adding.{Governs}
use sputnik_dao_contract.Dao.Proposals.Lifecycle.{is_vote, act_proposal_eq}
use sputnik_dao_contract.Dao.Proposals.Voting.{Acted, act_on_ok, Voted, vote_on_ok, act-vote_on}

-- A counted vote changes the counts and the votes only.
pub update_votes_submitted :
    (account : String) (roles : List String) (vote : Vote) (policy : Policy) (weight : ℕ)
    (proposal : Proposal) {counted : Proposal}
    → update_votes account roles vote policy weight proposal ≡ ok counted
    → (counted.submission_time ≡ proposal.submission_time)
      × (counted.proposer ≡ proposal.proposer)
      × (counted.kind ≡ proposal.kind)
      × (counted.status ≡ proposal.status)
      × (counted.votes ≡ Map.insert account vote proposal.votes)
unfolding update_votes
update_votes_submitted account roles vote policy weight proposal e = ground arith

-- The proposal is as it was but for the vote of an account that had not voted yet, and the status.
abbrev pub IsRecorded :
    Env → Policy → Action → ProposalStatus → Proposal → Contract → Proposal → Type 0
IsRecorded env policy action status proposal c p =
    (vote : Vote) × (vote_from action ≡ ok vote)
    × (Map.get proposal.votes env.predecessor_account_id ≡ none)
    × (add_to_counts policy (kind_to_policy_label proposal.kind) vote
          (get_user_weight c env.predecessor_account_id)
          (can_execute_action env policy (internal_user_info env c) proposal.kind action).0
          proposal.vote_counts
        ≡ ok p.vote_counts)
    × (p ≡ record proposal {
      status = status;
      vote_counts = p.vote_counts;
      votes = Map.insert env.predecessor_account_id vote proposal.votes;
    })

update_votes_recorded :
    (account : String) (roles : List String) (vote : Vote) (policy : Policy) (weight : ℕ)
    (proposal : Proposal) {counted : Proposal}
    → update_votes account roles vote policy weight proposal ≡ ok counted
    → (Map.get proposal.votes account ≡ none)
      × (add_to_counts policy
            (kind_to_policy_label proposal.kind)
            vote
            weight
            roles
            proposal.vote_counts
          ≡ ok counted.vote_counts)
      × (counted ≡ record proposal {
        vote_counts = counted.vote_counts;
        votes = Map.insert account vote proposal.votes;
      })
unfolding update_votes
update_votes_recorded account roles vote policy weight proposal e = ground arith

pub Voted-IsRecorded :
    (env : Env) (policy : Policy) (id : ℕ) (action : Action) (proposal : Proposal)
    (h : Host Contract) (status : ProposalStatus) {out : (Proposal × Bool) × Host Contract}
    → (v : Voted env policy proposal id
        (can_execute_action env policy (internal_user_info env h.state) proposal.kind action).0
        action
        h
        out)
    → v.status ≡ status
    → IsRecorded env policy action status proposal h.state out.0.0
Voted-IsRecorded env policy id action proposal h status {out = out} v same =
    let (new, counts, recorded) = update_votes_recorded _ _ _ _ _ _ v.counting in
    let counted_in = ap (λ p. p.vote_counts) v.decided in
    (
      v.vote,
      v.cast,
      new,
      counts ∙ ap ok (sym counted_in),
      v.decided
          ∙ ap {B = Proposal} (λ (p : Proposal). record p { status = v.status }) recorded
          ∙ ap {B = Proposal}
              (λ s. record proposal {
                status = s;
                vote_counts = v.counted.vote_counts;
                votes = Map.insert env.predecessor_account_id v.vote proposal.votes;
              })
              same
          ∙ ap {B = Proposal}
              (λ n. record proposal {
                status = status;
                vote_counts = n;
                votes = Map.insert env.predecessor_account_id v.vote proposal.votes;
              })
              (sym counted_in),
    )

after_vote_expired :
    (env : Env) (policy : Policy) (proposal : Proposal) (id : ℕ) (status : ProposalStatus)
    (h : Host Contract) {out : Bool × Host Contract}
    → status ≡ expired
    → after_vote env policy proposal id status h ≡ ok out
    → out ≡ (true, h)
unfolding after_vote ◌>>=◌
after_vote_expired env policy proposal id expired h late e = cc
after_vote_expired env policy proposal id _ h late e = cc

pub one_policy : (p q : Policy) (c : Contract) → Governs p c → Governs q c → p ≡ q
one_policy p q c a b = cc

late_status :
    (env : Env) (policy : Policy) (proposal : Proposal) (total : ℕ) (roles : List String)
    (s : ProposalStatus)
    → proposal_status env policy proposal roles total ≡ ok s
    → proposal.submission_time + policy.proposal_period < env.block_timestamp
    → s ≡ expired
late_status env policy proposal total roles s found late =
    elim (proposal_status_sound policy proposal total env roles s found) [
      | inl (after, same) ↦ same
      | inr (before, rest) ↦ absurd (omega arith)
    ]

vote_expires :
    (env : Env) (id : ℕ) (action : Action) (proposal : Proposal) (h h' : Host Contract)
    (a : Acted env id action proposal h h')
    → proposal.submission_time + a.policy.proposal_period < env.block_timestamp
    → Voted env a.policy proposal id
        (can_execute_action env a.policy (internal_user_info env h.state) proposal.kind action).0
        action
        h
        ((a.acted, a.update), a.between)
    → (p : Proposal) × IsRecorded env a.policy action expired proposal h.state p
      × (h' ≡ record h { state = store id p h.state })
vote_expires env id action proposal h h' a late v =
    let (submitted, _, _, _, _) = update_votes_submitted _ _ _ _ _ _ v.counting in
    let is_late =
      late_status env a.policy v.counted _ _ v.status v.found
        (subst (λ n. n + a.policy.proposal_period < env.block_timestamp) (sym submitted) late) in
    let settled =
      after_vote_expired env a.policy (record v.counted { status = v.status }) id v.status h is_late
        v.settled in
    (
      a.acted,
      Voted-IsRecorded env a.policy id action proposal h expired v is_late,
      a.after
          ∙ ap (λ o. if o.0 then record o.1 { state = store id a.acted o.1.state } else o.1)
              settled,
    )

-- A vote past the deadline that returns stores the proposal with status Expired, with the vote of
-- an account that had not voted yet counted for each role that lets it vote, and as it was in all
-- else; no bond is unlocked, no promise is scheduled and nothing else of the contract changes.
pub expired_vote :
    (env : Env) (id : ℕ) (action : Action) (memo : Option String) (policy : Policy)
    (proposal : Proposal) (h h' : Host Contract)
    → Map.get h.state.proposals id ≡ some proposal
    → Governs policy h.state
    → is_vote action ≡ true
    → proposal.submission_time + policy.proposal_period < env.block_timestamp
    → act_proposal env id action memo h ≡ ok (tt, h')
    → (p : Proposal) × IsRecorded env policy action expired proposal h.state p
      × (h' ≡ record h { state = store id p h.state })
expired_vote env id action memo policy proposal h h' found governed voting late e = acted_late (
    act_on_ok env id action proposal h h'
      (sym (act_proposal_eq env id action memo h proposal found) ∙ e))
  where
    acted_late :
        Acted env id action proposal h h'
        → (p : Proposal) × IsRecorded env policy action expired proposal h.state p
          × (h' ≡ record h { state = store id p h.state })
    acted_late a =
        let one = one_policy policy a.policy h.state governed a.governed in
        let (p, recorded, after) =
          vote_expires env id action proposal h h' a
            (subst (λ p. proposal.submission_time + p.proposal_period < env.block_timestamp) one
              late)
            (vote_on_ok env a.policy proposal id _ action h
              (sym (act-vote_on env a.policy proposal id _ action h voting) ∙ a.ran)) in
        (
          p,
          subst (λ q. IsRecorded env q action expired proposal h.state p) (sym one) recorded,
          after,
        )
