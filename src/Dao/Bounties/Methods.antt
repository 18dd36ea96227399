-- ===== src/Dao/Bounties/Methods.antt =====
-- The methods on bounties, sputnikdao2/src/bounties.rs.
use sputnik_dao_contract.Base.{
  ℕ, zero, suc, ◌+◌, String, true, false, not, Option, none, some, List, [], ◌∷◌, ◌++◌, ◌==◌,
  nat_key, nat_beq, string_key, ltb, leb, get_elem?, if◌then◌else◌,
}
use sputnik_dao_contract.Map
use sputnik_dao_contract.Result.{
  checked, checked_sub, u32_mod, u64_mod, u128_mod, err_no_bounty, err_bounty_wrong_bond,
  err_bounty_all_claimed, err_bounty_wrong_deadline, err_bounty_claim_completed,
  err_bounty_done_must_be_self, index_out_of_bounds,
}
use sputnik_dao_contract.Host.{
  Env, Call, ◌>>=◌, ◌>>◌, pure, gets, modify, require, expect, lift, PromiseOrValue, promise, value,
  drop_promise, transfer_to,
}
use sputnik_dao_contract.Dao.Data.{BountyClaim, ProposalKind}
use sputnik_dao_contract.Dao.Contract.{Contract, get_policy}
use sputnik_dao_contract.Dao.Delegation.{unwrap_or_default}
use sputnik_dao_contract.Dao.Bounties.{internal_get_claims, internal_remove_claim}
use sputnik_dao_contract.Dao.Proposals.Methods.{add_proposal}
use sputnik_dao_contract.Dao.Proposals.Execution.{unlock}

abbrev pub claims_or_default : Option (List BountyClaim) → List BountyClaim
claims_or_default none = []
claims_or_default (some claims) = claims

unfoldable pub new_claim : Env → ℕ → ℕ → BountyClaim
new_claim env id deadline = record {
  bounty_id = id;
  start_time = env.block_timestamp;
  deadline = deadline;
  completed = false;
}

unfoldable pub bounty_claim : Env → ℕ → ℕ → Call Contract Unit
bounty_claim env id deadline = do
  stored ← gets (λ c. Map.get c.bounties id)
  bounty ← expect stored err_no_bounty
  policy ← get_policy
  require (nat_beq env.attached_deposit policy.bounty_bond) err_bounty_wrong_bond
  claims_count ← gets (λ c. unwrap_or_default (Map.get c.bounty_claims_count id))
  require (ltb claims_count bounty.times) err_bounty_all_claimed
  require (leb deadline bounty.max_deadline) err_bounty_wrong_deadline
  new_count ← lift (checked u32_mod (claims_count + 1))
  modify (λ c. record c { bounty_claims_count = Map.insert id new_count c.bounty_claims_count })
  claims ← gets (λ c. claims_or_default (Map.get c.bounty_claimers env.predecessor_account_id))
  modify (λ c. record c {
    bounty_claimers =
        Map.insert env.predecessor_account_id (claims ++ new_claim env id deadline ∷ [])
          c.bounty_claimers;
  })
  locked ← gets (λ c. c.locked_amount)
  new_locked ← lift (checked u128_mod (locked + env.attached_deposit))
  modify (λ c. record c { locked_amount = new_locked })

-- `claims[claim_idx].completed = true`
unfoldable pub complete_at : ℕ → List BountyClaim → List BountyClaim
complete_at i [] = []
complete_at zero (claim ∷ claims) = record claim { completed = true } ∷ claims
complete_at (suc i) (claim ∷ claims) = claim ∷ complete_at i claims

abbrev pub or_predecessor : Env → Option String → String
or_predecessor env none = env.predecessor_account_id
or_predecessor env (some account_id) = account_id

-- The branch of `bounty_done` before the deadline.
unfoldable pub report_done : Env → ℕ → String → List BountyClaim → ℕ → String → Call Contract Unit
report_done env id sender_id claims claim_idx description = do
  require (sender_id == env.predecessor_account_id) err_bounty_done_must_be_self
  add_proposal env
      (record { description = description; kind = ProposalKind.bounty_done id sender_id })
  modify (λ c. record c {
    bounty_claimers = Map.insert sender_id (complete_at claim_idx claims) c.bounty_claimers;
  })

unfoldable pub bounty_done : Env → ℕ → Option String → String → Call Contract Unit
bounty_done env id account_id description = do
  let sender_id = or_predecessor env account_id
  found ← internal_get_claims id sender_id
  claim ← expect (get_elem? found.0 found.1) index_out_of_bounds
  require (not claim.completed) err_bounty_claim_completed
  due ← lift (checked u64_mod (claim.start_time + claim.deadline))
  if ltb due env.block_timestamp
      then internal_remove_claim id sender_id
      else report_done env id sender_id found.0 found.1 description

-- The bond goes back within the forgiveness period.
unfoldable pub forgive : Env → ℕ → ℕ → ℕ → Call Contract PromiseOrValue
forgive env elapsed forgiveness_period bounty_bond =
    if ltb forgiveness_period elapsed then pure value else (do
      unlock bounty_bond
      pure (promise (transfer_to env.predecessor_account_id bounty_bond)))

unfoldable pub bounty_giveup : Env → ℕ → Call Contract Unit
bounty_giveup env id = do
  policy ← get_policy
  found ← internal_get_claims id env.predecessor_account_id
  claim ← expect (get_elem? found.0 found.1) index_out_of_bounds
  elapsed ← lift (checked_sub env.block_timestamp claim.start_time)
  result ← forgive env elapsed policy.bounty_forgiveness_period policy.bounty_bond
  internal_remove_claim id env.predecessor_account_id
  drop_promise result
