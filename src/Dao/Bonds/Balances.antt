-- ===== src/Dao/Bonds/Balances.antt =====
-- What a call owes against what is locked, with the callbacks that it brings: the comparison that every
-- method of the contract of sputnikdao2/src/lib.rs keeps.
use sputnik_dao_contract.Base.{ℕ, ◌+◌, ◌≤◌, ◌≡◌, ap, some, List, nat_key, string_key, arith}
use sputnik_dao_contract.Map
use sputnik_dao_contract.Map.{Map}
use sputnik_dao_contract.Host.{Host}
use sputnik_dao_contract.Dao.Data.{Policy, Proposal}
use sputnik_dao_contract.Dao.Contract.{Contract}
use sputnik_dao_contract.Dao.Proposals.Methods.{remove_stored, store}
use sputnik_dao_contract.Dao.Proposals.Adding.{Governs}
use sputnik_dao_contract.Dao.Bonds.{
  AllBelow, callbacks, open_bonds, bond_if_open, bonds_on_the_way, owed,
}
use sputnik_dao_contract.Dao.Bonds.Sums.{
  open_bonds-insert, open_bonds-remove, on_the_way-store, on_the_way-remove,
}
use sputnik_dao_contract.Dao.Bonds.Spending.{Spends}

module _ (b k last : ℕ) (ids : List ℕ) where
  -- What a contract owes with callbacks on the way, those of the running call among them.
  abbrev pub owed_now : Host Contract → ℕ
  owed_now h = owed b k ids h.state + bonds_on_the_way b k (callbacks h.promises) h.state.proposals

  -- What is locked falls by no more than what is owed.
  pub record Balances (h h' : Host Contract) : Type 0 where
    pub fair : owed_now h' + h.state.locked_amount ≤ owed_now h + h'.state.locked_amount
    pub fresh : AllBelow last (callbacks h.promises) → AllBelow last (callbacks h'.promises)

  pub kept-Balances :
      {h h' : Host Contract} → Spends b k last h.state.proposals 0 0 h h' → Balances h h'
  kept-Balances {h = h} {h' = h'} s = record {
    fair = omega (
      arith,
      s.covered,
      ap (open_bonds b) s.kept,
      ap (bonds_on_the_way b k ids) s.kept,
      ap (bonds_on_the_way b k (callbacks h'.promises)) s.kept,
    );
    fresh = s.fresh;
  }

  module _ (id : ℕ) (p : Proposal) (h between : Host Contract)
      (found : Map.get h.state.proposals id ≡ some p) where
    pub stored-Balances :
        (decided : Proposal) (x : ℕ)
        → Spends b k last h.state.proposals x 0 h between
        → decided.kind ≡ p.kind
        → x + bond_if_open b (some decided) ≤ bond_if_open b (some p)
        → Balances h (record between { state = store id decided between.state })
    stored-Balances decided x s same le =
        let after = ap (Map.insert id decided) s.kept in
        record {
          fair = omega (
            arith,
            s.covered,
            ap (open_bonds b) after,
            ap (bonds_on_the_way b k ids) after,
            ap (bonds_on_the_way b k (callbacks between.promises)) after,
            open_bonds-insert b id decided h.state.proposals,
            ap (bond_if_open b) found,
            on_the_way-store b k id p decided ids h.state.proposals found same,
            on_the_way-store b k id p decided (callbacks between.promises) h.state.proposals found
                same,
          );
          fresh = s.fresh;
        }

    pub removed-Balances :
        Spends b k last h.state.proposals 0 0 h between
        → Balances h (record between { state = remove_stored id between.state })
    removed-Balances s =
        let after = ap (Map.remove id) s.kept in
        record {
          fair = omega (
            arith,
            s.covered,
            ap (open_bonds b) after,
            ap (bonds_on_the_way b k ids) after,
            ap (bonds_on_the_way b k (callbacks between.promises)) after,
            open_bonds-remove b id h.state.proposals,
            on_the_way-remove b k id ids h.state.proposals,
            on_the_way-remove b k id (callbacks between.promises) h.state.proposals,
          );
          fresh = s.fresh;
        }

-- The bonds that the policy asks for.
abbrev pub AreBonds : ℕ → ℕ → Contract → Type 0
AreBonds b k c =
    (policy : Policy) → Governs policy c → (policy.proposal_bond ≡ b) × (policy.bounty_bond ≡ k)
