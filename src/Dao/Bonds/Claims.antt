-- ===== src/Dao/Bonds/Claims.antt =====
-- What the locked amount is there for: the bond of a claim can be returned. It is about
-- `bounty_giveup` of sputnikdao2/src/bounties.rs.
use sputnik_dao_contract.Base.{
  ℕ, ◌+◌, ◌-◌, ◌≤◌, ◌≡◌, refl, ap, some, String, List, [], ◌∷◌, nat_key, string_key, arith,
  get_elem?, Option-cases, inl, inr,
}
use sputnik_dao_contract.Map
use sputnik_dao_contract.Map.{Map}
use sputnik_dao_contract.Result.{ok}
use sputnik_dao_contract.Host.{Env, Host, transfer_to, ◌>>=◌}
use sputnik_dao_contract.Dao.Data.{Policy, BountyClaim}
use sputnik_dao_contract.Dao.Contract.{Contract, get_policy}
use sputnik_dao_contract.Dao.Policy.Roles.{to_policy}
use sputnik_dao_contract.Dao.Delegation.{unwrap_or_default}
use sputnik_dao_contract.Dao.Bounties.{
  store_claims, remove_at, internal_find_claim, internal_get_claims, internal_remove_claim,
}
use sputnik_dao_contract.Dao.Bounties.Methods.{forgive, bounty_giveup}
use sputnik_dao_contract.Dao.Proposals.Execution.{unlock}
use sputnik_dao_contract.Dao.Proposals.Adding.{Governs}
use sputnik_dao_contract.Dao.Invariant.{claims_by, AreCounted}
use sputnik_dao_contract.Dao.Invariant.Claims.{claimed-remove, claims_of-found}
use sputnik_dao_contract.Dao.Bonds.{bonds_of_claimer}
use sputnik_dao_contract.Dao.Bonds.Sums.{claim_bonds-remove, claims-removed}
use sputnik_dao_contract.Dao.Bonds.Runs.{Running, start, Reachable}
use sputnik_dao_contract.Dao.Bonds.Solvency.{
  reachable_bonds, reachable-IsBackedSound, locked_covers,
}

-- The contract without a claim.
abbrev pub without_claim : ℕ → String → ℕ → List BountyClaim → ℕ → Contract → Contract
without_claim id a i claims count c = record (store_claims a (remove_at i claims) c) {
  bounty_claims_count = Map.insert id (count - 1) c.bounty_claims_count;
}

same_counts :
    (a : String) (claims : List BountyClaim) (c : Contract)
    → (store_claims a claims c).bounty_claims_count ≡ c.bounty_claims_count
same_counts a [] c = refl
same_counts a (claim ∷ claims) c = refl

remove_claim_returns :
    (id : ℕ) (a : String) (i count : ℕ) (claims : List BountyClaim) (h : Host Contract)
    → Map.get h.state.bounty_claimers a ≡ some claims
    → internal_find_claim id claims ≡ some i
    → Map.get h.state.bounty_claims_count id ≡ some count
    → 1 ≤ count
    → internal_remove_claim id a h
      ≡ ok (tt, record h { state = without_claim id a i claims count h.state })
unfolding internal_remove_claim internal_get_claims ◌>>=◌
remove_claim_returns id a i count claims h stored found counted some_left =
    ground (arith, stored, found, counted, same_counts a (remove_at i claims) h.state)

-- A claim that is stored is counted.
count_of :
    (id : ℕ) (a : String) (i : ℕ) (claims : List BountyClaim) (c : Contract)
    → Map.get c.bounty_claimers a ≡ some claims
    → internal_find_claim id claims ≡ some i
    → AreCounted c.bounty_claimers c.bounty_claims_count
    → (count : ℕ) × (Map.get c.bounty_claims_count id ≡ some count) × (1 ≤ count)
unfolding internal_find_claim
count_of id a i claims c stored found s =
    let at_least : 1 ≤ unwrap_or_default (Map.get c.bounty_claims_count id) = ground (
      arith,
      s.counted id,
      ap (claims_by id) stored,
      nat_key.same_iff id id,
      claimed-remove id a c.bounty_claimers,
      claims_of-found 0 id id i claims found,
    ) in
    elim (Option-cases (Map.get c.bounty_claims_count id)) [
      | inl missing ↦ ground (arith, missing)
      | inr (count, stored_count) ↦ (count, stored_count, ground (arith, stored_count))
    ]

locked_covers_claim :
    (b k : ℕ) (s : Running) (id : ℕ) (a : String) (i : ℕ) (claims : List BountyClaim)
    → Reachable b k s
    → Map.get s.dao.bounty_claimers a ≡ some claims
    → internal_find_claim id claims ≡ some i
    → k ≤ s.dao.locked_amount
locked_covers_claim b k s id a i claims r stored found = omega (
  arith,
  locked_covers b k s r,
  ap (bonds_of_claimer k) stored,
  claim_bonds-remove k a s.dao.bounty_claimers,
  claims-removed k id i claims found,
)

-- In every state that a new contract comes to by calls of any accounts and by callbacks of its own
-- promises in any order, while the policy asks for the same bonds: bounty_giveup returns for an
-- account whose first claim of the bounty is not older than the policy's forgiveness period and
-- does not start in the future: that claim is removed and counted down, its bond comes off the
-- locked amount, and just this bond is sent to the account.
pub giveup_returns :
    (b k : ℕ) (s : Running) (env : Env) (id i : ℕ) (claims : List BountyClaim) (claim : BountyClaim)
    (policy : Policy)
    → Reachable b k s
    → Governs policy s.dao
    → Map.get s.dao.bounty_claimers env.predecessor_account_id ≡ some claims
    → internal_find_claim id claims ≡ some i
    → get_elem? claims i ≡ some claim
    → claim.start_time ≤ env.block_timestamp
    → env.block_timestamp ≤ claim.start_time + policy.bounty_forgiveness_period
    → (count : ℕ) × (Map.get s.dao.bounty_claims_count id ≡ some count)
      × (bounty_giveup env id (start s.dao)
          ≡ ok (
            tt,
            record {
              state =
                  without_claim id env.predecessor_account_id i claims count
                    (record s.dao { locked_amount = s.dao.locked_amount - k });
              promises = transfer_to env.predecessor_account_id k ∷ [];
            },
          ))
unfolding bounty_giveup get_policy to_policy internal_get_claims forgive unlock ◌>>=◌
giveup_returns b k s env id i claims claim policy r governed stored found at started in_time =
    let a = env.predecessor_account_id in
    let (count, counted, some_left) =
      count_of id a i claims s.dao stored found (reachable-IsBackedSound b k r).claims in
    let bond = (reachable_bonds b k r policy governed).1 in
    let unlocked : Host Contract = record (start s.dao) {
      state = record s.dao { locked_amount = s.dao.locked_amount - k };
    } in
    (
      count,
      counted,
      ground (
        arith,
        governed,
        stored,
        found,
        at,
        bond,
        locked_covers_claim b k s id a i claims r stored found,
        remove_claim_returns id a i count claims unlocked stored found counted some_left,
      ),
    )
