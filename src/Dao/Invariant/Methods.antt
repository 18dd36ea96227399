-- ===== src/Dao/Invariant/Methods.antt =====
-- The methods on proposals keep the invariant.
use sputnik_dao_contract.Base.{ℕ, ◌≤◌, ◌<◌, ◌≡◌, String, Option, some, nat_key, arith, max, suc}
use sputnik_dao_contract.Map
use sputnik_dao_contract.Map.{Map, get-insert, get-remove}
use sputnik_dao_contract.Host.{Env, Host, Call, ◌>>=◌}
use sputnik_dao_contract.Host.Keeps.{Keeps, Keeps-bind, keeps_rules, After, After-map}
use sputnik_dao_contract.Host.Ensures.{
  Ensures, Ensures-pure, Ensures-panic, Ensures-any, Keeps-bind-Ensures, Keeps-load,
}
use sputnik_dao_contract.Dao.Types.{Action}
use sputnik_dao_contract.Dao.Data.{default, current, ProposalKind, Proposal, ProposalInput}
use sputnik_dao_contract.Dao.Contract.{Contract}
use sputnik_dao_contract.Dao.Proposals.Methods.{
  validate, insert_proposal, proposal_from, add_proposal, act_on, act_proposal, answer,
  on_proposal_callback,
}
use sputnik_dao_contract.Dao.Frame.{HasCurrentPolicy, get_policy-Keeps}
use sputnik_dao_contract.Dao.Invariant.{IsSound}
use sputnik_dao_contract.Dao.Invariant.Writes.{frame-IsSound}
use sputnik_dao_contract.Dao.Invariant.Acting.{push-AreProposals, act_on-IsSound, answer-IsSound}

-- The bound of the ids may be raised to one that is known of the state.
raise :
    {W : Map String ℕ → ℕ → Type 0} {known : Option String} (given id : ℕ) (c : Contract)
    → IsSound W known given c
    → id < c.last_proposal_id
    → IsSound W known (max given (suc id)) c
raise given id c s lt =
    let top : max given (suc id) ≤ c.last_proposal_id = omega (arith, s.reached) in assumption

lower :
    {W : Map String ℕ → ℕ → Type 0} {known : Option String} (given id : ℕ) (c : Contract)
    → IsSound W known (max given (suc id)) c
    → IsSound W known given c
lower given id c s = let top : given ≤ c.last_proposal_id = omega (arith, s.reached) in assumption

module _ {W : Map String ℕ → ℕ → Type 0} {known : Option String} {given : ℕ} where
  loaded-IsSound :
      (f : Proposal → Call Contract Unit) (id : ℕ)
      → ((p : Proposal)
          → HasCurrentPolicy p.kind
          → Keeps (IsSound W known (max given (suc id))) (f p))
      → (h : Host Contract) (p : Proposal) → IsSound W known given h.state
      → Map.get h.state.proposals id ≡ some p
      → After (IsSound W known given) (f p h)
  loaded-IsSound f id kf h p s found =
      After-map (IsSound W known (max given (suc id))) (IsSound W known given) (f p h)
        (lower given id)
        ((kf p (s.proposals.kinds id p found)).at h
          (raise given id h.state s (s.proposals.below id p found)))

  pub act_proposal-IsSound :
      (env : Env) (id : ℕ) (action : Action) (memo : Option String)
      → Keeps (IsSound W known given) (act_proposal env id action memo)
  unfolding act_proposal
  act_proposal-IsSound env id action memo = Keeps-load _ _ _ _ (
      loaded-IsSound (act_on env id action) id
        λ p k. act_on-IsSound env id action p k (omega arith))

  pub on_proposal_callback-IsSound :
      (env : Env) (id : ℕ) → Keeps (IsSound W known given) (on_proposal_callback env id)
  unfolding on_proposal_callback
  on_proposal_callback-IsSound env id =
      Keeps-load _ _ _ _
        (loaded-IsSound (answer env id) id λ p k. answer-IsSound env id p k (omega arith))

  -- Step 1 of `add_proposal` lets no policy of an old version through.
  validate-HasCurrentPolicy :
      (kind : ProposalKind)
      → Ensures (IsSound W known given) (λ _. HasCurrentPolicy kind) (validate kind)
  unfolding validate
  validate-HasCurrentPolicy (ProposalKind.change_policy (current policy)) = Ensures-pure _ _ _ tt
  validate-HasCurrentPolicy (ProposalKind.change_policy (default accounts)) = Ensures-panic _ _ _
  validate-HasCurrentPolicy _ = Ensures-any _ _ _ (λ _. tt) (search keeps_rules)

  insert_proposal-IsSound :
      (env : Env) (input : ProposalInput)
      → HasCurrentPolicy input.kind
      → Keeps (IsSound W known given) (insert_proposal env input)
  unfolding insert_proposal ◌>>=◌
  insert_proposal-IsSound env input k = record {
    at = λ h s.
        let last = h.state.last_proposal_id in
        let kind : HasCurrentPolicy (proposal_from env input).kind = unfold proposal_from in k in
        ground (
          arith,
          push-AreProposals last (proposal_from env input) h.state.proposals kind s.proposals,
        );
  }

  pub add_proposal-IsSound :
      (env : Env) (input : ProposalInput) → Keeps (IsSound W known given) (add_proposal env input)
  unfolding add_proposal
  add_proposal-IsSound env input = Keeps-bind _ _ (get_policy-Keeps (frame-IsSound given)) λ policy.
      Keeps-bind _ _ (search keeps_rules) λ _.
        Keeps-bind-Ensures _ _ _ _ (validate-HasCurrentPolicy input.kind)
          λ _ k. search (keeps_rules, insert_proposal-IsSound)
