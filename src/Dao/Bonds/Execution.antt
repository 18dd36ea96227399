-- ===== src/Dao/Bonds/Execution.antt =====
-- What the internal operations of sputnikdao2/src/proposals.rs spend of the locked amount.
use sputnik_dao_contract.Base.{
  ℕ, ◌+◌, ◌≤◌, ◌≡◌, refl, sym, ◌∙◌, ap, subst, String, Bool, true, false, List, [], ◌∷◌, ◌++◌,
  nat_key, string_key, Option-cases, inl, inr, arith,
}
use sputnik_dao_contract.Map
use sputnik_dao_contract.Map.{Map}
use sputnik_dao_contract.Result.{ok}
use sputnik_dao_contract.Host.{Env, Host, Promise, PromiseOrValue, value, pure, schedule, ◌>>=◌}
use sputnik_dao_contract.Host.Reads.{chain_ok, pure_ok, expect_ok, gets_ok, gets_then}
use sputnik_dao_contract.Dao.Data.{Policy, ProposalKind, Proposal, BountyClaim}
use sputnik_dao_contract.Dao.Contract.{Contract}
use sputnik_dao_contract.Dao.Bounties.{
  store_claims, internal_get_claims, internal_find_claim, remove_at, internal_remove_claim,
  internal_add_bounty, internal_execute_bounty_payout,
}
use sputnik_dao_contract.Dao.Upgrade.{
  internal_set_factory_info, upgrade_using_factory, upgrade_remote, get_default_factory_id,
  remaining_gas,
}
use sputnik_dao_contract.Dao.Proposals.Execution.{unlock, execute_kind, set_staking_id}
use sputnik_dao_contract.Dao.Bonds.{
  AllBelow, callbacks, callback_in, claim_bond, bonds_of_claims, bonds_of_claimer, claim_bonds,
  bonds_on_the_way,
}
use sputnik_dao_contract.Dao.Bonds.Sums.{
  callbacks-append, claim_bonds-insert, claim_bonds-remove, on_the_way-append, claims-removed,
}
use sputnik_dao_contract.Dao.Proposals.Bonds.{schedule_ok}
use sputnik_dao_contract.Dao.Bonds.Spending.{
  Spends, same_promises, added_call, chain-Spends, same-Spends,
}

store_claims-bonds :
    (bounty_bond : ℕ) (a : String) (claims : List BountyClaim) (c : Contract)
    → claim_bonds bounty_bond (store_claims a claims c).bounty_claimers
        + bonds_of_claimer bounty_bond (Map.get c.bounty_claimers a)
      ≤ claim_bonds bounty_bond c.bounty_claimers + bonds_of_claims bounty_bond claims
unfolding bonds_of_claims
store_claims-bonds k a [] c = omega (arith, claim_bonds-remove k a c.bounty_claimers)
store_claims-bonds k a (claim ∷ claims) c =
    omega (arith, claim_bonds-insert k a (claim ∷ claims) c.bounty_claimers)

pub factory_id_reads :
    (env : Env) (h : Host Contract) {out : String × Host Contract}
    → get_default_factory_id env h ≡ ok out
    → out.1 ≡ h
unfolding get_default_factory_id ◌>>=◌
factory_id_reads env h e = ground arith

pub remaining_gas_reads :
    (env : Env) (leftover : ℕ) (h : Host Contract) {out : ℕ × Host Contract}
    → remaining_gas env leftover h ≡ ok out
    → out.1 ≡ h
unfolding remaining_gas ◌>>=◌
remaining_gas_reads env leftover h e = ground arith

pub payout_value :
    (id : ℕ) (receiver : String) (h : Host Contract) {out : PromiseOrValue × Host Contract}
    → internal_execute_bounty_payout id receiver false h ≡ ok out
    → out.0 ≡ value
unfolding internal_execute_bounty_payout
payout_value id receiver h e =
    let (stored, h1, e1, r1) = chain_ok _ _ h e in
    let (bounty, h2, e2, r2) = chain_ok _ _ h1 r1 in
    let (_, h3, e3, r3) = chain_ok _ _ h2 r2 in ap (λ o. o.0) (pure_ok _ h3 r3)

module _ (b k last : ℕ) (m : Map ℕ Proposal) where
  pub unlock-Spends :
      (n : ℕ) (h : Host Contract) {out : Unit × Host Contract}
      → unlock n h ≡ ok out
      → Spends b k last m n 0 h out.1
  unfolding unlock ◌>>=◌
  unlock-Spends n h e = record {
    kept = ground arith;
    covered = ground arith;
    fresh = same_promises b k last m (ground arith);
  }

  -- A promise without a callback to a proposal.
  pub schedule-Spends :
      (p : Promise) (h : Host Contract) {out : Unit × Host Contract}
      → callback_in p.callback ≡ []
      → schedule p h ≡ ok out
      → Spends b k last m 0 0 h out.1
  unfolding ◌>>=◌ callbacks bonds_on_the_way
  schedule-Spends p h plain e = record {
    kept = ground arith;
    covered = ground (
      arith,
      callbacks-append h.promises (p ∷ []),
      on_the_way-append b k (callbacks h.promises) (callbacks (p ∷ [])) m,
    );
    fresh = λ a. same_promises b k last m (ap (λ k. k.promises) (schedule_ok p h e)) (
        added_call b k last m p h.promises (subst (λ l. AllBelow last (l ++ [])) (sym plain) tt) a);
  }

  pub remove_claim-Spends :
      (id : ℕ) (a : String) (h : Host Contract) {out : Unit × Host Contract}
      → internal_remove_claim id a h ≡ ok out
      → Spends b k last m 0 k h out.1
  unfolding internal_remove_claim internal_get_claims ◌>>=◌
  remove_claim-Spends id a h e = elim (Option-cases (Map.get h.state.bounty_claimers a)) [
    | inl missing ↦ ground arith
    | inr (claims, found) ↦ elim (Option-cases (internal_find_claim id claims)) [
      | inl missing ↦ ground arith
      | inr (i, at) ↦ record {
        kept = ground (arith, found, at);
        covered = ground (
          arith,
          found,
          at,
          store_claims-bonds k a (remove_at i claims) h.state,
          claims-removed k id i claims at,
        );
        fresh = same_promises b k last m (ground (arith, found, at));
      }
    ]
  ]

  pub payout-Spends :
      (id : ℕ) (receiver : String) (success : Bool) (h : Host Contract)
      {out : PromiseOrValue × Host Contract}
      → internal_execute_bounty_payout id receiver success h ≡ ok out
      → Spends b k last m 0 k h out.1
  unfolding internal_execute_bounty_payout
  payout-Spends id receiver success h e =
      let (stored, h1, e1, r1) = chain_ok _ _ h e in
      let (bounty, h2, e2, r2) = chain_ok _ _ h1 r1 in
      let (_, h3, e3, r3) = chain_ok _ _ h2 r2 in
      let old : h2 ≡ h = (expect_ok _ _ h1 e2).1 ∙ (gets_ok _ h e1).1 in
      let done = ap (λ o. o.1) (pure_ok _ h3 r3) in
      subst (λ k'. Spends b k last m 0 k h k') (sym done)
        (subst (λ h0. Spends b k last m 0 k h0 h3) old (remove_claim-Spends id receiver h2 e3))

  upgrade_using_factory-Spends :
      (env : Env) (hash : ℕ) (h : Host Contract) {out : Unit × Host Contract}
      → upgrade_using_factory env hash h ≡ ok out
      → Spends b k last m 0 0 h out.1
  unfolding upgrade_using_factory
  upgrade_using_factory-Spends env hash h e =
      let (account, h1, e1, r1) = chain_ok _ _ h e in
      let (gas, h2, e2, r2) = chain_ok _ _ h1 r1 in
      chain-Spends b k last m
        (same-Spends b k last m (remaining_gas_reads env _ h1 e2 ∙ factory_id_reads env h e1))
        (schedule-Spends _ h2 refl r2)

  upgrade_remote-Spends :
      (env : Env) (receiver method : String) (hash : ℕ) (h : Host Contract)
      {out : Unit × Host Contract}
      → upgrade_remote env receiver method hash h ≡ ok out
      → Spends b k last m 0 0 h out.1
  unfolding upgrade_remote
  upgrade_remote-Spends env receiver method hash h e =
      let rest = gets_then _ _ h e in
      let (code, h1, e1, r1) = chain_ok _ _ h rest in
      let (gas, h2, e2, r2) = chain_ok _ _ h1 r1 in
      chain-Spends b k last m
        (same-Spends b k last m (remaining_gas_reads env _ h1 e2 ∙ (expect_ok _ _ h e1).1))
        (schedule-Spends _ h2 refl r2)

  -- An operation whose result is nothing.
  then_value :
      {x y : ℕ} (h h1 : Host Contract) {out : PromiseOrValue × Host Contract}
      → Spends b k last m x y h h1
      → pure value h1 ≡ ok out
      → Spends b k last m x y h out.1
  then_value {x = x} {y = y} h h1 s e =
      subst (Spends b k last m x y h) (sym (ap (λ o. o.1) (pure_ok _ h1 e))) s

  pub execute_kind-Spends :
      (env : Env) (policy : Policy) (proposal : Proposal) (kind : ProposalKind) (h : Host Contract)
      {out : PromiseOrValue × Host Contract}
      → execute_kind env policy proposal kind h ≡ ok out
      → Spends b k last m 0 (claim_bond k kind) h out.1
  unfolding execute_kind internal_set_factory_info set_staking_id internal_add_bounty ◌>>=◌
  execute_kind-Spends env policy proposal (ProposalKind.bounty_done id receiver) h e =
      payout-Spends id receiver true h e
  execute_kind-Spends env policy proposal (ProposalKind.upgrade_self hash) h e =
      let (_, h1, e1, r1) = chain_ok (upgrade_using_factory env hash) _ h e in
      then_value h h1 (upgrade_using_factory-Spends env hash h e1) r1
  execute_kind-Spends env policy proposal (ProposalKind.upgrade_remote receiver method hash) h e =
      let (_, h1, e1, r1) = chain_ok (upgrade_remote env receiver method hash) _ h e in
      then_value h h1 (upgrade_remote-Spends env receiver method hash h e1) r1
  execute_kind-Spends env policy proposal _ h e = record {
    kept = ground arith;
    covered = ground arith;
    fresh = same_promises b k last m (ground arith);
  }
