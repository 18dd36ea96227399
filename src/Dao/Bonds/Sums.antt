-- ===== src/Dao/Bonds/Sums.antt =====
-- How the sums of bonds change with the maps that they are over.
use sputnik_dao_contract.Base.{
  ℕ, suc, zero, ◌+◌, ◌≤◌, ◌<◌, ◌≡◌, refl, sym, ◌∙◌, ap, String, some, List, [], ◌∷◌, ◌++◌, nat_key,
  string_key, nat_beq_iff, length, arith,
}
use sputnik_dao_contract.Map
use sputnik_dao_contract.Map.{Map, get-insert, get-remove}
use sputnik_dao_contract.Host.{Promise}
use sputnik_dao_contract.Dao.Data.{Proposal, BountyClaim}
use sputnik_dao_contract.Dao.Bounties.{remove_at, find_claim_from, internal_find_claim}
use sputnik_dao_contract.Dao.Bounties.Methods.{complete_at}
use sputnik_dao_contract.Dao.Bonds.{
  AllBelow, callbacks, callback_in, bond_if_open, open_bonds, bonds_on_the_way, bonds_of_claims,
  bonds_of_claimer, claim_bonds, claim_bond,
}

append_assoc : {A : Type 0} (xs ys zs : List A) → (xs ++ ys) ++ zs ≡ xs ++ (ys ++ zs)
append_assoc [] ys zs = refl
append_assoc (x ∷ xs) ys zs = ap (λ l. x ∷ l) (append_assoc xs ys zs)

pub callbacks-append : (ps qs : List Promise) → callbacks (ps ++ qs) ≡ callbacks ps ++ callbacks qs
unfolding callbacks
callbacks-append [] qs = refl
callbacks-append (p ∷ ps) qs =
    ap (λ l. callback_in p.callback ++ l) (callbacks-append ps qs)
    ∙ sym (append_assoc (callback_in p.callback) (callbacks ps) (callbacks qs))

pub append-AllBelow :
    (last : ℕ) (ids jds : List ℕ)
    → AllBelow last ids
    → AllBelow last jds
    → AllBelow last (ids ++ jds)
append-AllBelow last [] jds a b = b
append-AllBelow last (id ∷ ids) jds a b = (a.0, append-AllBelow last ids jds a.1 b)

pub raise-AllBelow :
    (last last' : ℕ) (ids : List ℕ) → last ≤ last' → AllBelow last ids → AllBelow last' ids
raise-AllBelow last last' [] le a = tt
raise-AllBelow last last' (id ∷ ids) le a =
    (omega (arith, a.0), raise-AllBelow last last' ids le a.1)

-- One of them, taken out of the list.
pub pick-AllBelow :
    (last : ℕ) (before : List ℕ) (id : ℕ) (after : List ℕ)
    → AllBelow last (before ++ id ∷ after)
    → AllBelow last (id ∷ before ++ after)
pick-AllBelow last [] id after a = a
pick-AllBelow last (x ∷ before) id after a =
    let (lt, rest) = pick-AllBelow last before id after a.1 in (lt, (a.0, rest))

module _ (bond : ℕ) where
  pub open_bonds-insert :
      (id : ℕ) (p : Proposal) (m : Map ℕ Proposal)
      → open_bonds bond (Map.insert id p m) + bond_if_open bond (Map.get m id)
        ≡ open_bonds bond m + bond_if_open bond (some p)
  unfolding open_bonds Map.insert Map.get
  open_bonds-insert id p [] = omega arith
  open_bonds-insert id p ((j, q) ∷ m) = ground (arith, open_bonds-insert id p m)

  pub open_bonds-remove :
      (id : ℕ) (m : Map ℕ Proposal)
      → open_bonds bond (Map.remove id m) + bond_if_open bond (Map.get m id) ≤ open_bonds bond m
  unfolding open_bonds Map.remove Map.get
  open_bonds-remove id [] = omega arith
  open_bonds-remove id ((j, q) ∷ m) = ground (arith, open_bonds-remove id m)

found-lt :
    (from id : ℕ) (claims : List BountyClaim) {i : ℕ}
    → find_claim_from from id claims ≡ some i
    → i < from + length claims
unfolding find_claim_from
found-lt from id [] e = cc
found-lt from id (c ∷ claims) {i = i} e = ground (arith, found-lt (suc from) id claims {i = i})

module _ (bounty_bond : ℕ) where
  pub claim_bonds-insert :
      (a : String) (claims : List BountyClaim) (m : Map String (List BountyClaim))
      → claim_bonds bounty_bond (Map.insert a claims m) + bonds_of_claimer bounty_bond (Map.get m a)
        ≡ claim_bonds bounty_bond m + bonds_of_claims bounty_bond claims
  unfolding claim_bonds Map.insert Map.get
  claim_bonds-insert a claims [] = omega arith
  claim_bonds-insert a claims ((j, q) ∷ m) = ground (arith, claim_bonds-insert a claims m)

  pub claim_bonds-remove :
      (a : String) (m : Map String (List BountyClaim))
      → claim_bonds bounty_bond (Map.remove a m) + bonds_of_claimer bounty_bond (Map.get m a)
        ≤ claim_bonds bounty_bond m
  unfolding claim_bonds Map.remove Map.get
  claim_bonds-remove a [] = omega arith
  claim_bonds-remove a ((j, q) ∷ m) = ground (arith, claim_bonds-remove a m)

  claims-remove_at :
      (i : ℕ) (claims : List BountyClaim)
      → i < length claims
      → bonds_of_claims bounty_bond (remove_at i claims) + bounty_bond
        ≡ bonds_of_claims bounty_bond claims
  unfolding remove_at bonds_of_claims
  claims-remove_at i [] lt = omega arith
  claims-remove_at zero (c ∷ claims) lt = omega arith
  claims-remove_at (suc i) (c ∷ claims) lt = omega (arith, claims-remove_at i claims (omega arith))

  pub claims-removed :
      (id i : ℕ) (claims : List BountyClaim)
      → internal_find_claim id claims ≡ some i
      → bonds_of_claims bounty_bond (remove_at i claims) + bounty_bond
        ≡ bonds_of_claims bounty_bond claims
  unfolding internal_find_claim
  claims-removed id i claims e = claims-remove_at i claims (omega (arith, found-lt 0 id claims e))

  pub claims-complete_at :
      (i : ℕ) (claims : List BountyClaim)
      → bonds_of_claims bounty_bond (complete_at i claims) ≡ bonds_of_claims bounty_bond claims
  unfolding complete_at bonds_of_claims
  claims-complete_at i [] = refl
  claims-complete_at zero (c ∷ claims) = refl
  claims-complete_at (suc i) (c ∷ claims) = omega (arith, claims-complete_at i claims)

  pub claims-append :
      (claims : List BountyClaim) (c : BountyClaim)
      → bonds_of_claims bounty_bond (claims ++ c ∷ [])
        ≡ bonds_of_claims bounty_bond claims + bounty_bond
  unfolding bonds_of_claims
  claims-append [] c = omega arith
  claims-append (d ∷ claims) c = omega (arith, claims-append claims c)

module _ (bond bounty_bond : ℕ) where
  pub on_the_way-append :
      (ids jds : List ℕ) (m : Map ℕ Proposal)
      → bonds_on_the_way bond bounty_bond (ids ++ jds) m
        ≡ bonds_on_the_way bond bounty_bond ids m + bonds_on_the_way bond bounty_bond jds m
  unfolding bonds_on_the_way
  on_the_way-append [] jds m = omega arith
  on_the_way-append (id ∷ ids) jds m = ground (arith, on_the_way-append ids jds m)

  -- A stored proposal that keeps its kind keeps what its callback is to return.
  pub on_the_way-store :
      (id : ℕ) (p q : Proposal) (ids : List ℕ) (m : Map ℕ Proposal)
      → Map.get m id ≡ some p
      → q.kind ≡ p.kind
      → bonds_on_the_way bond bounty_bond ids (Map.insert id q m)
        ≡ bonds_on_the_way bond bounty_bond ids m
  unfolding bonds_on_the_way
  on_the_way-store id p q [] m found same = refl
  on_the_way-store id p q (j ∷ ids) m found same = ground (
    arith,
    get-insert id j q m,
    nat_beq_iff id j,
    found,
    ap (claim_bond bounty_bond) same,
    on_the_way-store id p q ids m found same,
  )

  pub on_the_way-remove :
      (id : ℕ) (ids : List ℕ) (m : Map ℕ Proposal)
      → bonds_on_the_way bond bounty_bond ids (Map.remove id m)
        ≤ bonds_on_the_way bond bounty_bond ids m
  unfolding bonds_on_the_way
  on_the_way-remove id [] m = omega arith
  on_the_way-remove id (j ∷ ids) m = ground (arith, get-remove id j m, on_the_way-remove id ids m)

  -- A proposal under the next id concerns no callback on the way.
  pub on_the_way-fresh :
      (last : ℕ) (q : Proposal) (ids : List ℕ) (m : Map ℕ Proposal)
      → AllBelow last ids
      → bonds_on_the_way bond bounty_bond ids (Map.insert last q m)
        ≡ bonds_on_the_way bond bounty_bond ids m
  unfolding bonds_on_the_way
  on_the_way-fresh last q [] m a = refl
  on_the_way-fresh last q (j ∷ ids) m a =
      ground (arith, get-insert last j q m, nat_beq_iff last j, on_the_way-fresh last q ids m a.1)
