-- ===== src/Dao/Invariant/Calls.antt =====
-- Every call of the DAO contract keeps the invariant, so every contract that calls can lead to has it.
use sputnik_dao_contract.Base.{
  ℕ, String, Option, none, some, List, [], ◌∷◌, nat_key, string_key, ◌≡◌, sym, ◌∙◌, ap, subst,
  arith, inl, inr, ltb,
}
use sputnik_dao_contract.Map
use sputnik_dao_contract.Map.{Map}
use sputnik_dao_contract.Result.{Result, ok, err}
use sputnik_dao_contract.Host.{
  Env, Host, PromiseResult, successful, not_ready, failed, modify, ◌>>=◌,
}
use sputnik_dao_contract.Host.Reads.{chain_ok, require_then, lift_then, expect_ok, if_ok}
use sputnik_dao_contract.Host.Keeps.{Keeps, Keeps-modify, keeps_rules, After, After-each, After-ok}
use sputnik_dao_contract.Dao.Types.{FactoryInfo}
use sputnik_dao_contract.Dao.Data.{BountyClaim}
use sputnik_dao_contract.Dao.Contract.{Contract, get_policy}
use sputnik_dao_contract.Dao.Policy.Roles.{to_policy}
use sputnik_dao_contract.Dao.Proposals.Adding.{add_proposal_ok}
use sputnik_dao_contract.Dao.Proposals.Bonds.{modify_ok}
use sputnik_dao_contract.Dao.Delegation.{register_delegation, delegate, undelegate}
use sputnik_dao_contract.Dao.Upgrade.{
  update, store_blob, remove_blob, blob_cost, internal_get_factory_info, or_default_factory,
  get_default_factory_id, callback_data, remaining_gas,
}
use sputnik_dao_contract.Dao.Bounties.{internal_get_claims, internal_remove_claim}
use sputnik_dao_contract.Dao.Proposals.Execution.{unlock}
use sputnik_dao_contract.Dao.Bounties.Methods.{
  new_claim, bounty_claim, bounty_done, report_done, complete_at, or_predecessor, bounty_giveup,
  forgive,
}
use sputnik_dao_contract.Dao.Calls.{
  Method, add_proposal, act_proposal, on_proposal_callback, bounty_claim as claim,
  bounty_done as report, bounty_giveup as giveup, register_delegation as register,
  delegate as delegating, undelegate as undelegating, remove_blob as removing,
  store_blob as storing, update as updating, assert_private, assert_no_deposit, dispatch, execute,
}
use sputnik_dao_contract.Dao.Frame.{get_policy-Keeps, unlock-Keeps, internal_get_claims-Keeps}
use sputnik_dao_contract.Dao.Invariant.{IsSound}
use sputnik_dao_contract.Dao.Invariant.Claims.{
  added-AreCounted, completed-AreCounted, get_claims_ok,
}
use sputnik_dao_contract.Dao.Invariant.Writes.{frame-IsSound}
use sputnik_dao_contract.Dao.Invariant.Methods.{
  add_proposal-IsSound, act_proposal-IsSound, on_proposal_callback-IsSound,
}

module _ {W : Map String ℕ → ℕ → Type 0} {known : Option String} {given : ℕ} where
  get_policy-IsSound : Keeps (IsSound W known given) get_policy
  get_policy-IsSound = get_policy-Keeps (frame-IsSound given)

  set_locked-IsSound :
      (n : ℕ) → Keeps (IsSound W known given) (modify (λ c. record c { locked_amount = n }))
  set_locked-IsSound n = (frame-IsSound given).locked n

  get_claims-IsSound :
      (id : ℕ) (account : String) → Keeps (IsSound W known given) (internal_get_claims id account)
  get_claims-IsSound id account = internal_get_claims-Keeps (frame-IsSound given) id account

  remove_claim-IsSound :
      (id : ℕ) (account : String) → Keeps (IsSound W known given) (internal_remove_claim id account)
  remove_claim-IsSound id account = (frame-IsSound given).claim id account

  unlock-IsSound : (amount : ℕ) → Keeps (IsSound W known given) (unlock amount)
  unlock-IsSound amount = unlock-Keeps (frame-IsSound given) amount

  add_blob-IsSound :
      (id : ℕ) (bytes : List ℕ) (owner : String)
      → Keeps (IsSound W known given) (
          modify (λ c. record c {
            storage = Map.insert id bytes c.storage;
            blobs = Map.insert id owner c.blobs;
          }))
  add_blob-IsSound id bytes owner = Keeps-modify _ (λ c s. assumption)

  drop_blob-IsSound :
      (id : ℕ)
      → Keeps (IsSound W known given) (
          modify
            (λ c. record c { blobs = Map.remove id c.blobs; storage = Map.remove id c.storage }))
  drop_blob-IsSound id = Keeps-modify _ (λ c s. assumption)

  bounty_claim-IsSound :
      (env : Env) (id deadline : ℕ) → Keeps (IsSound W known given) (bounty_claim env id deadline)
  unfolding bounty_claim new_claim get_policy to_policy ◌>>=◌
  bounty_claim-IsSound env id deadline = record {
    at = λ h s. ground (
      arith,
      added-AreCounted env.predecessor_account_id (new_claim env id deadline)
          h.state.bounty_claimers h.state.bounty_claims_count s.claims,
    );
  }

  report_done-IsSound :
      (env : Env) (id : ℕ) (sender : String) (claims : List BountyClaim) (i : ℕ)
      (description : String) (h : Host Contract) {h' : Host Contract}
      → Map.get h.state.bounty_claimers sender ≡ some claims
      → IsSound W known given h.state
      → report_done env id sender claims i description h ≡ ok (tt, h')
      → IsSound W known given h'.state
  unfolding report_done
  report_done-IsSound env id sender claims i description h {h' = h'} stored s e =
      let (self, e1) = require_then _ _ _ h e in
      let (n, h1, e2, r2) = chain_ok _ _ h e1 in
      let (policy, _, _, _, _, made) = add_proposal_ok env _ h h1 n e2 in
      let s1 : IsSound W known given h1.state =
        After-ok (IsSound W known given) _ n h1 e2 ((add_proposal-IsSound env _).at h s) in
      let marked =
        completed-AreCounted sender i claims h1.state.bounty_claimers h1.state.bounty_claims_count
          (ap (λ k. Map.get k.state.bounty_claimers sender) made ∙ stored) s1.claims in
      let written : IsSound W known given (record h1.state {
        bounty_claimers = Map.insert sender (complete_at i claims) h1.state.bounty_claimers;
      }) =
        assumption marked in
      subst (λ k. IsSound W known given k.state) (sym (modify_ok _ h1 r2)) written

  bounty_done-IsSound :
      (env : Env) (id : ℕ) (account : Option String) (description : String)
      → Keeps (IsSound W known given) (bounty_done env id account description)
  unfolding bounty_done
  bounty_done-IsSound env id account description = record {
    at = λ (h : Host Contract) (s : IsSound W known given h.state).
        After-each _ _
          λ (a : Unit) (h' : Host Contract)
              (e : bounty_done env id account description h ≡ ok (a, h')).
            let (found, h1, e1, r1) = chain_ok _ _ h e in
            let (promised, h2, e2, r2) = chain_ok _ _ h1 r1 in
            let (open_yet, r3) = require_then _ _ _ h2 r2 in
            let (due, _, r4) = lift_then _ _ h2 r3 in
            let (stored, same1) = get_claims_ok id _ h e1 in
            let same : h2 ≡ h = (expect_ok _ _ h1 e2).1 ∙ same1 in
            let s2 : IsSound W known given h2.state =
              subst (λ h0. IsSound W known given h0.state) (sym same) s in
            elim (if_ok (ltb due env.block_timestamp) _ _ h2 r4) [
              | inl late ↦
                  After-ok (IsSound W known given) _ a h' late
                    ((remove_claim-IsSound id _).at h2 s2)
              | inr early ↦
                  report_done-IsSound env id _ found.0 found.1 description h2
                    (ap (λ k. Map.get k.state.bounty_claimers (or_predecessor env account)) same
                      ∙ stored)
                    s2 early
            ];
  }

  forgive-IsSound :
      (env : Env) (elapsed period bond : ℕ)
      → Keeps (IsSound W known given) (forgive env elapsed period bond)
  unfolding forgive
  forgive-IsSound env elapsed period bond = search (keeps_rules, unlock-IsSound)

  bounty_giveup-IsSound :
      (env : Env) (id : ℕ) → Keeps (IsSound W known given) (bounty_giveup env id)
  unfolding bounty_giveup
  bounty_giveup-IsSound env id =
      search
        (keeps_rules, get_policy-IsSound, get_claims-IsSound, remove_claim-IsSound, forgive-IsSound)
        depth 12

  store_blob-IsSound :
      (env : Env) (input : Option (List ℕ)) → Keeps (IsSound W known given) (store_blob env input)
  unfolding store_blob blob_cost
  store_blob-IsSound env input = search (keeps_rules, add_blob-IsSound) depth 14

  remove_blob-IsSound :
      (env : Env) (hash : ℕ) → Keeps (IsSound W known given) (remove_blob env hash)
  unfolding remove_blob blob_cost
  remove_blob-IsSound env hash = search (keeps_rules, drop_blob-IsSound) depth 14

  or_default_factory-IsSound :
      (env : Env) (o : Option FactoryInfo)
      → Keeps (IsSound W known given) (or_default_factory env o)
  unfolding or_default_factory get_default_factory_id
  or_default_factory-IsSound env (some info) = search keeps_rules
  or_default_factory-IsSound env none = search keeps_rules

  callback_data-IsSound :
      (results : List PromiseResult) → Keeps (IsSound W known given) (callback_data results)
  unfolding callback_data
  callback_data-IsSound [] = search keeps_rules
  callback_data-IsSound (successful bytes ∷ rest) = search keeps_rules
  callback_data-IsSound (not_ready ∷ rest) = search keeps_rules
  callback_data-IsSound (failed ∷ rest) = search keeps_rules

  update-IsSound :
      (env : Env) (input : Option (List ℕ)) → Keeps (IsSound W known given) (update env input)
  unfolding update internal_get_factory_info remaining_gas
  update-IsSound env input =
      search (keeps_rules, or_default_factory-IsSound, callback_data-IsSound) depth 14

  -- Whatever method is called, and by whom, the invariant is kept where it is kept by the three
  -- methods that change the weights.
  dispatch-IsSound :
      (env : Env)
      → ((account : String) → Keeps (IsSound W known given) (register_delegation env account))
      → ((account : String) (amount : ℕ)
          → Keeps (IsSound W known given) (delegate env account amount))
      → ((account : String) (amount : ℕ)
          → Keeps (IsSound W known given) (undelegate env account amount))
      → (method : Method) → Keeps (IsSound W known given) (dispatch env method)
  unfolding dispatch assert_private assert_no_deposit
  dispatch-IsSound env kr kd ku (add_proposal input) = search (keeps_rules, add_proposal-IsSound)
  dispatch-IsSound env kr kd ku (act_proposal id action memo) =
      search (keeps_rules, act_proposal-IsSound)
  dispatch-IsSound env kr kd ku (on_proposal_callback id) =
      search (keeps_rules, on_proposal_callback-IsSound)
  dispatch-IsSound env kr kd ku (claim id deadline) = bounty_claim-IsSound env id deadline
  dispatch-IsSound env kr kd ku (report id account description) =
      bounty_done-IsSound env id account description
  dispatch-IsSound env kr kd ku (giveup id) = search (keeps_rules, bounty_giveup-IsSound)
  dispatch-IsSound env kr kd ku (register account) = kr account
  dispatch-IsSound env kr kd ku (delegating account amount) = search (keeps_rules, kd)
  dispatch-IsSound env kr kd ku (undelegating account amount) = search (keeps_rules, ku)
  dispatch-IsSound env kr kd ku (removing hash) = search (keeps_rules, remove_blob-IsSound)
  dispatch-IsSound env kr kd ku (storing input) = search (keeps_rules, store_blob-IsSound)
  dispatch-IsSound env kr kd ku (updating input) = update-IsSound env input

  state-After-IsSound :
      (c : Contract) (r : Result (Unit × Host Contract))
      → IsSound W known given c
      → After (IsSound W known given) r
      → IsSound W known given (elim r [ err code ↦ c | ok (result, h) ↦ h.state ])
  state-After-IsSound c (ok (a, h)) s p = p
  state-After-IsSound c (err code) s p = s

  pub execute-IsSound :
      (env : Env)
      → ((account : String) → Keeps (IsSound W known given) (register_delegation env account))
      → ((account : String) (amount : ℕ)
          → Keeps (IsSound W known given) (delegate env account amount))
      → ((account : String) (amount : ℕ)
          → Keeps (IsSound W known given) (undelegate env account amount))
      → (method : Method) (c : Contract) → IsSound W known given c
      → IsSound W known given (execute env method c)
  unfolding execute
  execute-IsSound env kr kd ku method c s =
      state-After-IsSound c (dispatch env method (record { state = c; promises = [] })) s
        ((dispatch-IsSound env kr kd ku method).at _ s)
