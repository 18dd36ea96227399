-- ===== src/Dao/Invariant/Claims.antt =====
-- The claims of bounties and their counts, as the operations of sputnikdao2/src/bounties.rs change
-- them.
use sputnik_dao_contract.Base.{
  ℕ, suc, zero, ◌+◌, ◌-◌, ◌≤◌, ◌≡◌, refl, ap, String, some, List, [], ◌∷◌, ◌++◌, ◌==◌, nat_key,
  string_key, if◌then◌else◌, arith,
}
use sputnik_dao_contract.Map
use sputnik_dao_contract.Map.{Map, get-insert}
use sputnik_dao_contract.Result.{ok}
use sputnik_dao_contract.Host.{Host, ◌>>=◌}
use sputnik_dao_contract.Dao.Data.{BountyClaim}
use sputnik_dao_contract.Dao.Contract.{Contract}
use sputnik_dao_contract.Dao.Delegation.{unwrap_or_default}
use sputnik_dao_contract.Dao.Bounties.{
  find_claim_from, internal_find_claim, internal_get_claims, remove_at, store_claims,
}
use sputnik_dao_contract.Dao.Bounties.Methods.{complete_at, claims_or_default}
use sputnik_dao_contract.Dao.Invariant.{claims_of, claims_by, claimed, AreCounted}

pub claimed-insert :
    (id : ℕ) (a : String) (claims : List BountyClaim) (m : Map String (List BountyClaim))
    → claimed id (Map.insert a claims m) + claims_by id (Map.get m a)
      ≡ claimed id m + claims_of id claims
unfolding claimed Map.insert Map.get
claimed-insert id a claims [] = omega arith
claimed-insert id a claims ((j, q) ∷ m) = ground (arith, claimed-insert id a claims m)

pub claimed-remove :
    (id : ℕ) (a : String) (m : Map String (List BountyClaim))
    → claimed id (Map.remove a m) + claims_by id (Map.get m a) ≤ claimed id m
unfolding claimed Map.remove Map.get
claimed-remove id a [] = omega arith
claimed-remove id a ((j, q) ∷ m) = ground (arith, claimed-remove id a m)

pub claims_of-append :
    (id : ℕ) (claims : List BountyClaim) (c : BountyClaim)
    → claims_of id (claims ++ c ∷ []) ≡ claims_of id claims + claims_of id (c ∷ [])
unfolding claims_of
claims_of-append id [] c = omega arith
claims_of-append id (d ∷ claims) c = omega (arith, claims_of-append id claims c)

pub claims_of-complete_at :
    (id i : ℕ) (claims : List BountyClaim)
    → claims_of id (complete_at i claims) ≡ claims_of id claims
unfolding claims_of complete_at
claims_of-complete_at id i [] = refl
claims_of-complete_at id zero (c ∷ claims) = refl
claims_of-complete_at id (suc i) (c ∷ claims) = omega (arith, claims_of-complete_at id i claims)

found_from :
    (from id : ℕ) (claims : List BountyClaim) {k : ℕ}
    → find_claim_from from id claims ≡ some k
    → from ≤ k
unfolding find_claim_from
found_from from id [] e = cc
found_from from id (c ∷ claims) {k = k} e = ground (arith, found_from (suc from) id claims {k = k})

-- The claim that was found is one of the bounty.
pub claims_of-found :
    (from id j i : ℕ) (claims : List BountyClaim) {k : ℕ}
    → find_claim_from from id claims ≡ some k
    → k ≡ from + i
    → claims_of j (remove_at i claims) + (if id == j then 1 else 0) ≡ claims_of j claims
unfolding find_claim_from claims_of remove_at
claims_of-found from id j i [] e at = cc
claims_of-found from id j zero (c ∷ claims) {k = k} e at =
    ground (arith, nat_key.same_iff c.bounty_id id, found_from (suc from) id claims {k = k})
claims_of-found from id j (suc i) (c ∷ claims) {k = k} e at =
    ground (arith, claims_of-found (suc from) id j i claims {k = k})

store_claims-claimed :
    (j : ℕ) (a : String) (claims : List BountyClaim) (c : Contract)
    → claimed j (store_claims a claims c).bounty_claimers
        + claims_by j (Map.get c.bounty_claimers a)
      ≤ claimed j c.bounty_claimers + claims_of j claims
unfolding claims_of
store_claims-claimed j a [] c = omega (arith, claimed-remove j a c.bounty_claimers)
store_claims-claimed j a (claim ∷ claims) c =
    omega (arith, claimed-insert j a (claim ∷ claims) c.bounty_claimers)

-- A claim is taken out and counted down.
pub removed-AreCounted :
    (id i count : ℕ) (a : String) (claims : List BountyClaim) (c : Contract)
    → Map.get c.bounty_claimers a ≡ some claims
    → internal_find_claim id claims ≡ some i
    → Map.get c.bounty_claims_count id ≡ some count
    → AreCounted c.bounty_claimers c.bounty_claims_count
    → AreCounted
        (store_claims a (remove_at i claims) c).bounty_claimers
        (Map.insert id (count - 1) c.bounty_claims_count)
unfolding internal_find_claim
removed-AreCounted id i count a claims c stored found counted_as s = record {
  counted = λ j. ground (
    arith,
    stored,
    counted_as,
    s.counted j,
    get-insert id j (count - 1) c.bounty_claims_count,
    nat_key.same_iff id j,
    store_claims-claimed j a (remove_at i claims) c,
    claims_of-found 0 id j i claims found,
  );
}

-- A claim is added and counted.
pub added-AreCounted :
    (a : String) (claim : BountyClaim) (claimers : Map String (List BountyClaim)) (counts : Map ℕ ℕ)
    → AreCounted claimers counts
    → AreCounted
        (Map.insert a (claims_or_default (Map.get claimers a) ++ claim ∷ []) claimers)
        (Map.insert claim.bounty_id (unwrap_or_default (Map.get counts claim.bounty_id) + 1) counts)
unfolding claims_of
added-AreCounted a claim claimers counts s = record {
  counted = λ j.
      let claims = claims_or_default (Map.get claimers a) in
      ground (
        arith,
        s.counted j,
        get-insert claim.bounty_id j (unwrap_or_default (Map.get counts claim.bounty_id) + 1)
            counts,
        nat_key.same_iff claim.bounty_id j,
        claimed-insert j a (claims ++ claim ∷ []) claimers,
        claims_of-append j claims claim,
      );
}

-- A claim is marked as completed.
pub completed-AreCounted :
    (a : String) (i : ℕ) (claims : List BountyClaim) (claimers : Map String (List BountyClaim))
    (counts : Map ℕ ℕ)
    → Map.get claimers a ≡ some claims
    → AreCounted claimers counts
    → AreCounted (Map.insert a (complete_at i claims) claimers) counts
completed-AreCounted a i claims claimers counts stored s = record {
  counted = λ j. omega (
    arith,
    s.counted j,
    ap (claims_by j) stored,
    claimed-insert j a (complete_at i claims) claimers,
    claims_of-complete_at j i claims,
  );
}

-- Where a claim is found, it is one of the account's, and nothing has changed.
pub get_claims_ok :
    (id : ℕ) (a : String) (h : Host Contract) {out : (List BountyClaim × ℕ) × Host Contract}
    → internal_get_claims id a h ≡ ok out
    → (Map.get h.state.bounty_claimers a ≡ some out.0.0) × (out.1 ≡ h)
unfolding internal_get_claims ◌>>=◌
get_claims_ok id a h e = ground arith
