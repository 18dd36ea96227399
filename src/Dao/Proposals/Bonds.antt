-- ===== src/Dao/Proposals/Bonds.antt =====
-- What the callback of an executed proposal does with its bonds and its status:
-- `on_proposal_callback` of sputnikdao2/src/proposals.rs.
use sputnik_dao_contract.Base.{
  ℕ, ◌+◌, ◌≡◌, refl, sym, ◌∙◌, ap, String, some, List, [], ◌∷◌, ◌++◌, nat_key, string_key, arith,
}
use sputnik_dao_contract.Map
use sputnik_dao_contract.Map.{get-insert_self}
use sputnik_dao_contract.Result.{ok}
use sputnik_dao_contract.Host.{Env, Host, Promise, transfer_to, successful, schedule, modify, ◌>>=◌}
use sputnik_dao_contract.Host.Reads.{chain_ok, pure_ok}
use sputnik_dao_contract.Dao.Data.{Policy, ProposalKind, Proposal, approved}
use sputnik_dao_contract.Dao.Contract.{Contract}
use sputnik_dao_contract.Dao.Proposals.Execution.{
  unlock, return_bounty_bond, internal_return_bonds, count_payout,
  internal_callback_proposal_success,
}
use sputnik_dao_contract.Dao.Proposals.Methods.{store, on_result, answer, on_proposal_callback}
use sputnik_dao_contract.Dao.Proposals.Adding.{Governs, get_policy_ok}

-- What a proposal's kind has locked by the policy: its bond, and that of a claim reported done.
abbrev pub bonds_of : Policy → ProposalKind → ℕ
bonds_of policy (ProposalKind.bounty_done id receiver) = policy.bounty_bond + policy.proposal_bond
bonds_of policy _ = policy.proposal_bond

abbrev pub refunds : Policy → String → ProposalKind → List Promise
refunds policy proposer (ProposalKind.bounty_done id receiver) =
    transfer_to proposer policy.bounty_bond ∷ transfer_to proposer policy.proposal_bond ∷ []
refunds policy proposer _ = transfer_to proposer policy.proposal_bond ∷ []

unlock_ok :
    (amount : ℕ) (h : Host Contract) {out : Unit × Host Contract}
    → unlock amount h ≡ ok out
    → (out.1.state.locked_amount + amount ≡ h.state.locked_amount)
      × (out.1.promises ≡ h.promises)
      × (out.1.state.proposals ≡ h.state.proposals)
unfolding unlock ◌>>=◌
unlock_ok amount h e = ground arith

append_two : {A : Type 0} (xs : List A) (a b : A) → (xs ++ a ∷ []) ++ b ∷ [] ≡ xs ++ a ∷ b ∷ []
append_two [] a b = refl
append_two (x ∷ xs) a b = ap (λ ys. x ∷ ys) (append_two xs a b)

bounty_bond_ok :
    (policy : Policy) (proposal : Proposal) (kind : ProposalKind) (h : Host Contract)
    {out : Unit × Host Contract}
    → return_bounty_bond policy proposal kind h ≡ ok out
    → (out.1.state.locked_amount + bonds_of policy kind
        ≡ h.state.locked_amount + policy.proposal_bond)
      × (out.1.promises ++ transfer_to proposal.proposer policy.proposal_bond ∷ []
          ≡ h.promises ++ refunds policy proposal.proposer kind)
      × (out.1.state.proposals ≡ h.state.proposals)
unfolding return_bounty_bond unlock ◌>>=◌
bounty_bond_ok policy proposal (ProposalKind.bounty_done id receiver) h e = ground (
  arith,
  append_two h.promises (transfer_to proposal.proposer policy.bounty_bond)
      (transfer_to proposal.proposer policy.proposal_bond),
)
bounty_bond_ok policy proposal _ h e = ground arith

pub schedule_ok :
    (p : Promise) (h : Host Contract) {out : Unit × Host Contract}
    → schedule p h ≡ ok out
    → out.1 ≡ record h { promises = h.promises ++ p ∷ [] }
unfolding ◌>>=◌
schedule_ok p h e = cc

total_of : (a b c d m n : ℕ) → a ≡ b → b + n ≡ c → c + m ≡ d + n → a + m ≡ d
total_of a b c d m n e f g = omega arith

return_bonds_ok :
    (policy : Policy) (proposal : Proposal) (h h1 : Host Contract) (bond : Promise)
    {out : Unit × Host Contract}
    → internal_return_bonds policy proposal h ≡ ok (bond, h1)
    → schedule bond h1 ≡ ok out
    → (out.1.state.locked_amount + bonds_of policy proposal.kind ≡ h.state.locked_amount)
      × (out.1.promises ≡ h.promises ++ refunds policy proposal.proposer proposal.kind)
      × (out.1.state.proposals ≡ h.state.proposals)
unfolding internal_return_bonds
return_bonds_ok policy proposal h h1 bond {out = out} e1 e2 =
    let (_, h2, e3, e4) = chain_ok _ _ h e1 in
    let (_, h3, e5, e6) = chain_ok _ _ h2 e4 in
    let (l1, p1, s1) = bounty_bond_ok policy proposal proposal.kind h e3 in
    let (l2, p2, s2) = unlock_ok policy.proposal_bond h2 e5 in
    let returned = pure_ok _ h3 e6 in
    let scheduled = schedule_ok bond h1 e2 in
    let locked : out.1.state.locked_amount ≡ h3.state.locked_amount =
      ap (λ k. k.state.locked_amount) scheduled ∙ ap (λ o. o.1.state.locked_amount) returned in
    (
      total_of _ _ _ _ _ _ locked l2 l1,
      ap (λ k. k.promises) scheduled
          ∙ ap (λ o. o.1.promises ++ o.0 ∷ []) returned
          ∙ ap (λ ps. ps ++ transfer_to proposal.proposer policy.proposal_bond ∷ []) p2
          ∙ p1,
      ap (λ k. k.state.proposals) scheduled ∙ ap (λ o. o.1.state.proposals) returned ∙ s2 ∙ s1,
    )

count_payout_ok :
    (kind : ProposalKind) (h : Host Contract) {out : Unit × Host Contract}
    → count_payout kind h ≡ ok out
    → (out.1.state.locked_amount ≡ h.state.locked_amount)
      × (out.1.promises ≡ h.promises)
      × (out.1.state.policy ≡ h.state.policy)
unfolding count_payout ◌>>=◌
count_payout_ok kind h e = ground arith

success_ok :
    (proposal : Proposal) (policy : Policy) (h : Host Contract) {out : Proposal × Host Contract}
    → Governs policy h.state
    → internal_callback_proposal_success proposal h ≡ ok out
    → (out.0 ≡ record proposal { status = approved })
      × (out.1.state.locked_amount + bonds_of policy proposal.kind ≡ h.state.locked_amount)
      × (out.1.promises ≡ h.promises ++ refunds policy proposal.proposer proposal.kind)
unfolding internal_callback_proposal_success
success_ok proposal policy h {out = out} governed e =
    let (known, h1, e1, r1) = chain_ok _ _ h e in
    let (_, h2, e2, r2) = chain_ok _ _ h1 r1 in
    let (bond, h3, e3, r3) = chain_ok _ _ h2 r2 in
    let (_, h4, e4, r4) = chain_ok _ _ h3 r3 in
    settle known h1 h2 h3 h4 bond (get_policy_ok h e1) (count_payout_ok proposal.kind h1 e2) e3 e4
      (pure_ok _ h4 r4)
  where
    settle :
        (known : Policy) (h1 h2 h3 h4 : Host Contract) (bond : Promise)
        → Governs known h.state × (h1 ≡ h)
        → (h2.state.locked_amount ≡ h1.state.locked_amount)
          × (h2.promises ≡ h1.promises)
          × (h2.state.policy ≡ h1.state.policy)
        → internal_return_bonds known (record proposal { status = approved }) h2 ≡ ok (bond, h3)
        → schedule bond h3 ≡ ok (tt, h4)
        → out ≡ (record proposal { status = approved }, h4)
        → (out.0 ≡ record proposal { status = approved })
          × (out.1.state.locked_amount + bonds_of policy proposal.kind ≡ h.state.locked_amount)
          × (out.1.promises ≡ h.promises ++ refunds policy proposal.proposer proposal.kind)
    settle known h1 h2 h3 h4 bond (gov, same) (l, p, _) e3 e4 returned =
        let one : known ≡ policy = cc in
        let (l4, p4, _) =
          return_bonds_ok known (record proposal { status = approved }) h2 h3 bond e3 e4 in
        (
          ap (λ o. o.0) returned,
          ap (λ o. o.1.state.locked_amount + bonds_of policy proposal.kind) returned
              ∙ ap (λ q. h4.state.locked_amount + bonds_of q proposal.kind) (sym one)
              ∙ l4
              ∙ l
              ∙ ap (λ k. k.state.locked_amount) same,
          ap (λ o. o.1.promises) returned
              ∙ p4
              ∙ ap (λ ps. ps ++ refunds known proposal.proposer proposal.kind)
                  (p ∙ ap (λ k. k.promises) same)
              ∙ ap (λ q. h.promises ++ refunds q proposal.proposer proposal.kind) one,
        )

pub callback_eq :
    (env : Env) (id : ℕ) (h : Host Contract) (proposal : Proposal)
    → Map.get h.state.proposals id ≡ some proposal
    → on_proposal_callback env id h ≡ answer env id proposal h
unfolding on_proposal_callback ◌>>=◌
callback_eq env id h proposal found = rw found refl

pub modify_ok :
    (f : Contract → Contract) (h : Host Contract) {out : Unit × Host Contract}
    → modify f h ≡ ok out
    → out.1 ≡ record h { state = f h.state }
unfolding ◌>>=◌
modify_ok f h e = cc

-- Where the callback of a proposal whose promise succeeded returns, the proposal is approved, the
-- bonds that the policy asks for are unlocked, and just these are sent to the proposer.
pub callback_success_ok :
    (env : Env) (id : ℕ) (bytes : List ℕ) (policy : Policy) (proposal : Proposal)
    (h h' : Host Contract)
    → Map.get h.state.proposals id ≡ some proposal
    → Governs policy h.state
    → env.promise_results ≡ successful bytes ∷ []
    → on_proposal_callback env id h ≡ ok (tt, h')
    → (Map.get h'.state.proposals id ≡ some (record proposal { status = approved }))
      × (h'.state.locked_amount + bonds_of policy proposal.kind ≡ h.state.locked_amount)
      × (h'.promises ≡ h.promises ++ refunds policy proposal.proposer proposal.kind)
unfolding answer on_result
callback_success_ok env id bytes policy proposal h h' found governed results e =
    let (p, h1, e1, r1) =
      chain_ok (on_result env.promise_results proposal) (λ p. modify (store id p)) h
        (sym (callback_eq env id h proposal found) ∙ e) in
    let (same, l, ps) =
      success_ok proposal policy h governed (ap (λ r. on_result r proposal h) (sym results) ∙ e1) in
    let stored = modify_ok (store id p) h1 r1 in
    (
      ap (λ k. Map.get k.state.proposals id) stored
          ∙ get-insert_self id p h1.state.proposals
          ∙ ap some same,
      ap (λ k. k.state.locked_amount + bonds_of policy proposal.kind) stored ∙ l,
      ap (λ k. k.promises) stored ∙ ps,
    )
