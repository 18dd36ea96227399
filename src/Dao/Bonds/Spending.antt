-- ===== src/Dao/Bonds/Spending.antt =====
-- What a part of a call spends of the locked amount beyond what it pays off, with the stored
-- proposals as they are: the measure of sputnikdao2/src/proposals.rs and bounties.rs.
use sputnik_dao_contract.Base.{
  ℕ, ◌+◌, ◌≤◌, ◌≡◌, sym, ◌∙◌, ap, subst, List, [], ◌∷◌, ◌++◌, nat_key, string_key, arith,
}
use sputnik_dao_contract.Map.{Map}
use sputnik_dao_contract.Host.{Host, Promise}
use sputnik_dao_contract.Dao.Data.{Proposal}
use sputnik_dao_contract.Dao.Contract.{Contract}
use sputnik_dao_contract.Dao.Bonds.{AllBelow, callbacks, callback_in, claim_bonds, bonds_on_the_way}
use sputnik_dao_contract.Dao.Bonds.Sums.{callbacks-append, append-AllBelow}

module _ (bond bounty_bond last : ℕ) (m : Map ℕ Proposal) where
  -- The bonds of claims and of the callbacks that the call has scheduled so far.
  abbrev pub running : Host Contract → ℕ
  running h =
      claim_bonds bounty_bond h.state.bounty_claimers
      + bonds_on_the_way bond bounty_bond (callbacks h.promises) m

  pub record Spends (spent gained : ℕ) (h h' : Host Contract) : Type 0 where
    pub kept : h'.state.proposals ≡ h.state.proposals
    pub covered :
        running h' + h.state.locked_amount + gained ≤ running h + h'.state.locked_amount + spent
    pub fresh : AllBelow last (callbacks h.promises) → AllBelow last (callbacks h'.promises)

  pub chain-Spends :
      {x y x' y' : ℕ} {h h1 h2 : Host Contract}
      → Spends x y h h1
      → Spends x' y' h1 h2
      → Spends (x + x') (y + y') h h2
  chain-Spends s t = record {
    kept = t.kept ∙ s.kept;
    covered = omega (arith, s.covered, t.covered);
    fresh = λ a. t.fresh (s.fresh a);
  }

  pub weaken-Spends :
      {x y x' y' : ℕ} {h h' : Host Contract} → Spends x y h h' → x + y' ≤ x' + y → Spends x' y' h h'
  weaken-Spends s le = record { kept = s.kept; covered = omega (arith, s.covered); fresh = s.fresh }

  pub same_promises :
      {ps qs : List Promise} → qs ≡ ps → AllBelow last (callbacks ps) → AllBelow last (callbacks qs)
  same_promises e a = subst (λ ps. AllBelow last (callbacks ps)) (sym e) a

  pub added_call :
      (p : Promise) (ps : List Promise)
      → AllBelow last (callback_in p.callback ++ [])
      → AllBelow last (callbacks ps)
      → AllBelow last (callbacks (ps ++ p ∷ []))
  unfolding callbacks
  added_call p ps one a =
      subst (AllBelow last) (sym (callbacks-append ps (p ∷ [])))
        (append-AllBelow last (callbacks ps) (callback_in p.callback ++ []) a one)

  pub same-Spends : {h h' : Host Contract} → h' ≡ h → Spends 0 0 h h'
  same-Spends {h = h} e = record {
    kept = ap (λ k. k.state.proposals) e;
    covered = omega (arith, ap running e, ap (λ k. k.state.locked_amount) e);
    fresh = same_promises (ap (λ k. k.promises) e);
  }
