-- ===== src/Dao/Bonds/Methods.antt =====
-- The other methods keep the locked amount above what is owed: `add_proposal` of
-- sputnikdao2/src/proposals.rs and the methods of bounties.rs.
use sputnik_dao_contract.Base.{
  ℕ, ◌+◌, ◌≡◌, refl, sym, ◌∙◌, ap, subst, String, Option, some, List, [], ◌∷◌, ◌++◌, nat_key,
  string_key, Option-cases, inl, inr, arith, ltb,
}
use sputnik_dao_contract.Map
use sputnik_dao_contract.Map.{Map}
use sputnik_dao_contract.Result.{ok}
use sputnik_dao_contract.Host.{Env, Host, PromiseOrValue, promise, value, drop_promise, ◌>>=◌}
use sputnik_dao_contract.Host.Reads.{chain_ok, pure_ok, lift_then, require_then, expect_ok, if_ok}
use sputnik_dao_contract.Dao.Data.{default, current, ProposalInput, BountyClaim}
use sputnik_dao_contract.Dao.Contract.{Contract, get_policy}
use sputnik_dao_contract.Dao.Policy.Roles.{to_policy}
use sputnik_dao_contract.Dao.Bounties.Methods.{
  claims_or_default, new_claim, bounty_claim, complete_at, report_done, bounty_done, forgive,
  bounty_giveup, or_predecessor,
}
use sputnik_dao_contract.Dao.Proposals.Execution.{unlock}
use sputnik_dao_contract.Dao.Proposals.Methods.{proposal_from, add_proposal}
use sputnik_dao_contract.Dao.Proposals.Adding.{get_policy_ok, added, add_proposal_ok}
use sputnik_dao_contract.Dao.Proposals.Bonds.{modify_ok}
use sputnik_dao_contract.Dao.Invariant.Claims.{get_claims_ok}
use sputnik_dao_contract.Dao.Bonds.{
  AllBelow, callbacks, callback_in, bonds_of_claims, bonds_of_claimer, bonds_on_the_way, owed,
}
use sputnik_dao_contract.Dao.Bonds.Sums.{
  open_bonds-insert, claim_bonds-insert, claims-append, claims-complete_at, on_the_way-fresh,
}
use sputnik_dao_contract.Dao.Bonds.Spending.{
  Spends, same_promises, same-Spends, chain-Spends, weaken-Spends,
}
use sputnik_dao_contract.Dao.Bonds.Execution.{remove_claim-Spends, unlock-Spends, schedule-Spends}
use sputnik_dao_contract.Dao.Bonds.Balances.{Balances, kept-Balances, AreBonds}

-- A result that brings no callback of a proposal.
abbrev IsPlain : PromiseOrValue → Type 0
IsPlain value = Unit
IsPlain (promise p) = callback_in p.callback ≡ []

module _ (b k : ℕ) (ids : List ℕ) (env : Env) (h : Host Contract) (bonds : AreBonds b k h.state)
    (old : AllBelow h.state.last_proposal_id ids)
    (now : AllBelow h.state.last_proposal_id (callbacks h.promises)) where
  abbrev Fair : Host Contract → Type 0
  Fair h' = Balances b k h.state.last_proposal_id ids h h'

  added-Balances : (input : ProposalInput) → Fair (added env input b h)
  added-Balances input =
      let last = h.state.last_proposal_id in
      let p = proposal_from env input in
      record {
        fair = ground (
          arith,
          open_bonds-insert b last p h.state.proposals,
          on_the_way-fresh b k last p ids h.state.proposals old,
          on_the_way-fresh b k last p (callbacks h.promises) h.state.proposals now,
        );
        fresh = λ a. a;
      }

  pub add_proposal-Balances :
      (input : ProposalInput) {id : ℕ} {h' : Host Contract}
      → add_proposal env input h ≡ ok (id, h')
      → (h' ≡ added env input b h) × Fair h'
  add_proposal-Balances input {id = id} {h' = h'} e =
      let (policy, governed, _, _, _, made) = add_proposal_ok env input h h' id e in
      let done : h' ≡ added env input b h =
        made ∙ ap (λ n. added env input n h) (bonds policy governed).0 in
      (done, subst Fair (sym done) (added-Balances input))

  pub bounty_claim-Balances :
      (id deadline : ℕ) {h' : Host Contract}
      → bounty_claim env id deadline h ≡ ok (tt, h')
      → Fair h'
  unfolding bounty_claim get_policy to_policy ◌>>=◌ bonds_of_claims
  bounty_claim-Balances id deadline {h' = h'} e = elim (Option-cases h.state.policy) [
    | inl missing ↦ ground arith
    | inr (default accounts, stored) ↦ ground arith
    | inr (current policy, governed) ↦
        let a = env.predecessor_account_id in
        let claims = claims_or_default (Map.get h.state.bounty_claimers a) in
        record {
          fair = ground (
            arith,
            governed,
            bonds policy governed,
            claim_bonds-insert k a (claims ++ new_claim env id deadline ∷ [])
                h.state.bounty_claimers,
            claims-append k claims (new_claim env id deadline),
          );
          fresh =
              same_promises b k h.state.last_proposal_id h.state.proposals
                (ground (arith, governed));
        }
  ]

  report_done-Balances :
      (id : ℕ) (sender : String) (claims : List BountyClaim) (i : ℕ) (description : String)
      {h' : Host Contract}
      → Map.get h.state.bounty_claimers sender ≡ some claims
      → report_done env id sender claims i description h ≡ ok (tt, h')
      → Fair h'
  unfolding report_done
  report_done-Balances id sender claims i description {h' = h'} found e =
      let (self, e0) = require_then _ _ _ h e in
      let (n, h1, e1, r1) = chain_ok _ _ h e0 in
      let (made, f) = add_proposal-Balances _ e1 in
      let after = modify_ok _ h1 r1 in
      record {
        fair = omega (
          arith,
          f.fair,
          ap
              (λ h.
                owed b k ids h.state
                + bonds_on_the_way b k (callbacks h.promises) h.state.proposals)
              after,
          ap (λ h. h.state.locked_amount) after,
          claim_bonds-insert k sender (complete_at i claims) h1.state.bounty_claimers,
          claims-complete_at k i claims,
          ap (bonds_of_claimer k) (ap (λ h. Map.get h.state.bounty_claimers sender) made ∙ found),
        );
        fresh = λ below.
            same_promises b k h.state.last_proposal_id h.state.proposals
              (ap (λ h. h.promises) after) (f.fresh below);
      }

  forgiven :
      (elapsed period bond : ℕ) (h1 : Host Contract) {out : PromiseOrValue × Host Contract}
      → bond ≡ k
      → forgive env elapsed period bond h1 ≡ ok out
      → IsPlain out.0 × Spends b k h.state.last_proposal_id h.state.proposals k 0 h1 out.1
  unfolding forgive
  forgiven elapsed period bond h1 same e =
      let last = h.state.last_proposal_id in
      let m = h.state.proposals in
      elim (if_ok (ltb period elapsed) _ _ h1 e) [
        | inl late ↦
            let done = pure_ok value h1 late in
            (
              subst (λ o. IsPlain o.0) (sym done) tt,
              weaken-Spends b k last m (same-Spends b k last m (ap (λ o. o.1) done)) (omega arith),
            )
        | inr early ↦
            let (_, h2, e2, r2) = chain_ok (unlock bond) _ h1 early in
            let done = pure_ok _ h2 r2 in
            (
              subst (λ o. IsPlain o.0) (sym done) refl,
              weaken-Spends b k last m
                  (chain-Spends b k last m (unlock-Spends b k last m bond h1 e2)
                    (same-Spends b k last m (ap (λ o. o.1) done)))
                  (omega arith),
            )
      ]

  drop-Spends :
      (r : PromiseOrValue) (h1 : Host Contract) {out : Unit × Host Contract}
      → IsPlain r
      → drop_promise r h1 ≡ ok out
      → Spends b k h.state.last_proposal_id h.state.proposals 0 0 h1 out.1
  unfolding ◌>>=◌
  drop-Spends value h1 plain e =
      same-Spends b k h.state.last_proposal_id h.state.proposals (ap (λ o. o.1) (pure_ok tt h1 e))
  drop-Spends (promise p) h1 plain e =
      schedule-Spends b k h.state.last_proposal_id h.state.proposals p h1 plain e

  pub bounty_giveup-Balances :
      (id : ℕ) {h' : Host Contract} → bounty_giveup env id h ≡ ok (tt, h') → Fair h'
  unfolding bounty_giveup
  bounty_giveup-Balances id {h' = h'} e =
      let last = h.state.last_proposal_id in
      let m = h.state.proposals in
      let (policy, h1, e1, r1) = chain_ok _ _ h e in
      let (found, h2, e2, r2) = chain_ok _ _ h1 r1 in
      let (claim, h3, e3, r3) = chain_ok _ _ h2 r2 in
      let (elapsed, _, e4) = lift_then _ _ h3 r3 in
      let (result, h5, e5, r5) = chain_ok _ _ h3 e4 in
      let (_, h6, e6, r6) = chain_ok _ _ h5 r5 in
      let (governed, same1) = get_policy_ok h e1 in
      let (plain, s) = forgiven elapsed _ _ h3 (bonds policy governed).1 e5 in
      let old_host : h3 ≡ h = (expect_ok _ _ h2 e3).1 ∙ (get_claims_ok id _ h1 e2).1 ∙ same1 in
      kept-Balances b k last ids (
        weaken-Spends b k last m
          (chain-Spends b k last m (same-Spends b k last m old_host) (
            chain-Spends b k last m s (
              chain-Spends b k last m (remove_claim-Spends b k last m id _ h5 e6)
                (drop-Spends result h6 plain r6))))
          (omega arith))

  pub bounty_done-Balances :
      (id : ℕ) (account : Option String) (description : String) {h' : Host Contract}
      → bounty_done env id account description h ≡ ok (tt, h')
      → Fair h'
  unfolding bounty_done
  bounty_done-Balances id account description {h' = h'} e =
      let (found, h1, e1, r1) = chain_ok _ _ h e in
      let (claim, h2, e2, r2) = chain_ok _ _ h1 r1 in
      let (open_yet, e3) = require_then _ _ _ h2 r2 in
      let (due, _, e4) = lift_then _ _ h2 e3 in
      let (stored, same1) = get_claims_ok id _ h e1 in
      let old_host : h2 ≡ h = (expect_ok _ _ h1 e2).1 ∙ same1 in
      elim (if_ok (ltb due env.block_timestamp) _ _ h2 e4) [
        | inl late ↦
            let last = h.state.last_proposal_id in
            let m = h.state.proposals in
            kept-Balances b k last ids (
              weaken-Spends b k last m
                (chain-Spends b k last m (same-Spends b k last m old_host)
                  (remove_claim-Spends b k last m id _ h2 late))
                (omega arith))
        | inr early ↦
            report_done-Balances id (or_predecessor env account) found.0 found.1 description stored
              (subst
                (λ h0.
                  report_done env id (or_predecessor env account) found.0 found.1 description h0
                  ≡ ok (tt, h'))
                old_host early)
      ]
