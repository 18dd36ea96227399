-- ===== src/Dao/Bonds/Acting.antt =====
-- Acting on a proposal keeps the locked amount above what is owed: `act_proposal` of
-- sputnikdao2/src/proposals.rs.
use sputnik_dao_contract.Base.{
  ℕ, ◌<◌, ◌≡◌, refl, sym, ◌∙◌, ap, subst, String, Bool, true, false, Option, some, List, nat_key,
  string_key, if◌then◌else◌, inl, inr, Option-cases, arith,
}
use sputnik_dao_contract.Map
use sputnik_dao_contract.Map.{Map}
use sputnik_dao_contract.Result.{ok}
use sputnik_dao_contract.Host.{Env, Host, modify, ◌>>=◌}
use sputnik_dao_contract.Host.Reads.{chain_ok, pure_ok, gets_then, lift_then}
use sputnik_dao_contract.Dao.Types.{
  Action, add_proposal as adding, remove_proposal, vote_approve, vote_reject, vote_remove, finalize,
  move_to_hub,
}
use sputnik_dao_contract.Dao.Data.{
  Policy, Proposal, ProposalStatus, approved, rejected, removed, expired,
}
use sputnik_dao_contract.Dao.Contract.{Contract}
use sputnik_dao_contract.Dao.Policy.Status.{is_open}
use sputnik_dao_contract.Dao.Policy.Decision.{proposal_status-open}
use sputnik_dao_contract.Dao.Proposals.Methods.{
  remove_stored, after_vote, vote_on, after_finalize, finalize_proposal, act, store, act_on,
  act_proposal,
}
use sputnik_dao_contract.Dao.Proposals.Execution.{
  internal_execute_proposal, internal_reject_proposal,
}
use sputnik_dao_contract.Dao.Proposals.Voting.{act_on_ok, vote_on_ok}
use sputnik_dao_contract.Dao.Proposals.Expiry.{update_votes_submitted}
use sputnik_dao_contract.Dao.Proposals.Bonds.{modify_ok}
use sputnik_dao_contract.Dao.Proposals.Lifecycle.{act_proposal_eq}
use sputnik_dao_contract.Dao.Bonds.Spending.{Spends, same-Spends}
use sputnik_dao_contract.Dao.Bonds.Settling.{execute_proposal-Spends, reject_proposal-Spends}
use sputnik_dao_contract.Dao.Bonds.Balances.{
  Balances, kept-Balances, stored-Balances, removed-Balances, AreBonds,
}

ok-injective : {A : Type 0} {a a' : A} → ok a ≡ ok a' → a ≡ a'
ok-injective e = cc

module _ (b k last : ℕ) (ids : List ℕ) (env : Env) (policy : Policy)
    (same_bond : policy.proposal_bond ≡ b) (same_bounty : policy.bounty_bond ≡ k) (id : ℕ)
    (lt : id < last) (p : Proposal) (h : Host Contract)
    (found : Map.get h.state.proposals id ≡ some p) where
  after_vote-Balances :
      (decided : Proposal) (status : ProposalStatus) {update : Bool} {between : Host Contract}
      → decided.status ≡ status
      → decided.kind ≡ p.kind
      → is_open p.status ≡ true
      → after_vote env policy decided id status h ≡ ok (update, between)
      → Balances b k last ids h
          (if update then record between { state = store id decided between.state } else between)
  unfolding after_vote
  after_vote-Balances decided approved {update = update} {between = between} is kind still_open e =
      let (_, h1, e1, r1) = chain_ok (internal_execute_proposal env policy decided id) _ h e in
      let returned = pure_ok true h1 r1 in
      let s : Spends b k last h.state.proposals b 0 h h1 =
        execute_proposal-Spends b k last h.state.proposals env policy decided p id h same_bond
          same_bounty lt found (sym kind) e1 in
      subst
        (λ o.
          Balances b k last ids h
            (if o.0 then record o.1 { state = store id decided o.1.state } else o.1))
        (sym returned)
        (stored-Balances b k last ids id p h h1 found decided b s kind (ground arith))
  after_vote-Balances decided rejected {update = update} {between = between} is kind still_open e =
      let (_, h1, e1, r1) = chain_ok (internal_reject_proposal policy decided true) _ h e in
      let returned = pure_ok true h1 r1 in
      let s : Spends b k last h.state.proposals b 0 h h1 =
        reject_proposal-Spends b k last h.state.proposals policy decided true h same_bond
          same_bounty e1 in
      subst
        (λ o.
          Balances b k last ids h
            (if o.0 then record o.1 { state = store id decided o.1.state } else o.1))
        (sym returned)
        (stored-Balances b k last ids id p h h1 found decided b s kind (ground arith))
  after_vote-Balances decided removed {update = update} {between = between} is kind still_open e =
      let (_, h1, e1, r1) = chain_ok (internal_reject_proposal policy decided false) _ h e in
      let (_, h2, e2, r2) = chain_ok (modify (remove_stored id)) _ h1 r1 in
      let returned = pure_ok false h2 r2 in
      let s : Spends b k last h.state.proposals 0 0 h h1 =
        reject_proposal-Spends b k last h.state.proposals policy decided false h same_bond
          same_bounty e1 in
      subst
        (λ o.
          Balances b k last ids h
            (if o.0 then record o.1 { state = store id decided o.1.state } else o.1))
        (sym returned)
        (subst (Balances b k last ids h) (sym (modify_ok (remove_stored id) h1 e2))
          (removed-Balances b k last ids id p h h1 found s))
  after_vote-Balances decided _ {update = update} {between = between} is kind still_open e =
      subst
        (λ o.
          Balances b k last ids h
            (if o.0 then record o.1 { state = store id decided o.1.state } else o.1))
        (sym (pure_ok true h e))
        (stored-Balances b k last ids id p h h found decided 0
          (same-Spends b k last h.state.proposals refl) kind (ground arith))

  after_finalize-Balances :
      (decided : Proposal) (status : ProposalStatus) {between : Host Contract}
      → decided.status ≡ status
      → decided.kind ≡ p.kind
      → is_open p.status ≡ true
      → after_finalize env policy decided id status h ≡ ok (tt, between)
      → Balances b k last ids h (record between { state = store id decided between.state })
  unfolding after_finalize ◌>>=◌
  after_finalize-Balances decided approved {between = between} is kind still_open e =
      stored-Balances b k last ids id p h between found decided b
        (execute_proposal-Spends b k last h.state.proposals env policy decided p id h same_bond
          same_bounty lt found (sym kind) e)
        kind (ground arith)
  after_finalize-Balances decided expired {between = between} is kind still_open e =
      stored-Balances b k last ids id p h between found decided b
        (reject_proposal-Spends b k last h.state.proposals policy decided true h same_bond
          same_bounty e)
        kind (ground arith)
  after_finalize-Balances decided _ is kind still_open e = cc

  finalize-Balances :
      {decided : Proposal} {update : Bool} {between : Host Contract}
      → finalize_proposal env policy p id h ≡ ok ((decided, update), between)
      → Balances b k last ids h
          (if update then record between { state = store id decided between.state } else between)
  unfolding finalize_proposal
  finalize-Balances e =
      let e1 = gets_then _ _ h e in
      let (status, now, e2) = lift_then _ _ h e1 in
      let (_, h1, e3, e4) =
        chain_ok (after_finalize env policy (record p { status = status }) id status) _ h e2 in
      let returned = pure_ok (record p { status = status }, true) h1 e4 in
      let still_open : is_open p.status ≡ true =
        elim (proposal_status-open policy p _ env _ status now) [
          | inl i ↦ ap is_open i
          | inr f ↦ ap is_open f
        ] in
      subst
        (λ o.
          Balances b k last ids h
            (if o.0.1 then record o.1 { state = store id o.0.0 o.1.state } else o.1))
        (sym returned)
        (after_finalize-Balances (record p { status = status }) status refl refl still_open e3)

  vote-Balances :
      (roles : List String) (action : Action) {decided : Proposal} {update : Bool}
      {between : Host Contract}
      → vote_on env policy p id roles action h ≡ ok ((decided, update), between)
      → Balances b k last ids h
          (if update then record between { state = store id decided between.state } else between)
  vote-Balances roles action {update = update} {between = between} e =
      let v = vote_on_ok env policy p id roles action h e in
      let (_, _, kind, _, _) = update_votes_submitted _ _ _ _ _ _ v.counting in
      subst
        (λ d.
          Balances b k last ids h
            (if update then record between { state = store id d between.state } else between))
        (sym v.decided)
        (after_vote-Balances (record v.counted { status = v.status }) v.status refl kind
          (ground (arith, v.ready)) v.settled)

  act-Balances :
      (roles : List String) (action : Action) {decided : Proposal} {update : Bool}
      {between : Host Contract}
      → act env policy p id roles action h ≡ ok ((decided, update), between)
      → Balances b k last ids h
          (if update then record between { state = store id decided between.state } else between)
  unfolding act ◌>>=◌
  act-Balances roles adding e = cc
  act-Balances roles remove_proposal e =
      subst
        (λ o.
          Balances b k last ids h
            (if o.0.1 then record o.1 { state = store id o.0.0 o.1.state } else o.1))
        (ok-injective e)
        (removed-Balances b k last ids id p h h found (same-Spends b k last h.state.proposals refl))
  act-Balances roles vote_approve e = vote-Balances roles vote_approve e
  act-Balances roles vote_reject e = vote-Balances roles vote_reject e
  act-Balances roles vote_remove e = vote-Balances roles vote_remove e
  act-Balances roles finalize e = finalize-Balances e
  act-Balances roles move_to_hub e =
      subst
        (λ o.
          Balances b k last ids h
            (if o.0.1 then record o.1 { state = store id o.0.0 o.1.state } else o.1))
        (ok-injective e) (kept-Balances b k last ids (same-Spends b k last h.state.proposals refl))

module _ (b k last : ℕ) (ids : List ℕ) (env : Env) (h : Host Contract)
    (bonds : AreBonds b k h.state) where
  act_on-Balances :
      (id : ℕ) (action : Action) (p : Proposal) {h' : Host Contract}
      → id < last
      → Map.get h.state.proposals id ≡ some p
      → act_on env id action p h ≡ ok (tt, h')
      → Balances b k last ids h h'
  act_on-Balances id action p {h' = h'} lt found e =
      let a = act_on_ok env id action p h h' e in
      let (same_bond, same_bounty) = bonds a.policy a.governed in
      subst (Balances b k last ids h) (sym a.after) (
        act-Balances b k last ids env a.policy same_bond same_bounty id lt p h found _ action a.ran)

  pub act_proposal-Balances :
      (id : ℕ) (action : Action) (memo : Option String) {h' : Host Contract}
      → ((p : Proposal) → Map.get h.state.proposals id ≡ some p → id < last)
      → act_proposal env id action memo h ≡ ok (tt, h')
      → Balances b k last ids h h'
  unfolding act_proposal ◌>>=◌
  act_proposal-Balances id action memo {h' = h'} below e =
      elim (Option-cases (Map.get h.state.proposals id)) [
        | inl missing ↦ ground arith
        | inr (p, found) ↦
            act_on-Balances id action p {h' = h'} (below p found) found
              (sym (act_proposal_eq env id action memo h p found) ∙ e)
      ]
