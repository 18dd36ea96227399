-- ===== src/Dao/Bounties.antt =====
-- The internal operations of sputnikdao2/src/bounties.rs, with the payout of
-- sputnikdao2/src/proposals.rs that they call.
pub mod Methods
use Prim.Native.String.{◌++◌ as append}
use sputnik_dao_contract.Base.{
  ℕ, suc, zero, ◌+◌, String, Bool, true, false, Option, none, some, List, [], ◌∷◌, ◌==◌, nat_key,
  string_key, if◌then◌else◌, nat_beq,
}
use sputnik_dao_contract.Decimal.{u64_to_string}
use sputnik_dao_contract.Map
use sputnik_dao_contract.Result.{
  checked, checked_sub, u64_mod, unwrap_none, err_no_bounty, err_no_bounty_claims,
  err_no_bounty_claim,
}
use sputnik_dao_contract.Host.{
  Call, ◌>>=◌, ◌>>◌, pure, gets, modify, expect, lift, Promise, PromiseOrValue, promise, value,
  transfer_to, function_call, ft_transfer_args, ft_transfer_call_args,
}
use sputnik_dao_contract.Dao.Types.{one_yocto_near, gas_for_ft_transfer, convert_old_to_new_token}
use sputnik_dao_contract.Dao.Data.{Bounty, BountyClaim}
use sputnik_dao_contract.Dao.Contract.{Contract}

-- `internal_payout`: the promise that it makes, which its caller goes on with.
unfoldable pub internal_payout :
    Option String → String → ℕ → String → Option String → PromiseOrValue
internal_payout none receiver_id amount memo msg = promise (transfer_to receiver_id amount)
internal_payout (some token_id) receiver_id amount memo (some msg) = promise (record {
  receiver_id = token_id;
  actions =
      function_call "ft_transfer_call" (ft_transfer_call_args receiver_id amount (some memo) msg)
        one_yocto_near gas_for_ft_transfer
      ∷ [];
  callback = none;
})
internal_payout (some token_id) receiver_id amount memo none = promise (record {
  receiver_id = token_id;
  actions =
      function_call "ft_transfer" (ft_transfer_args receiver_id amount (some memo)) one_yocto_near
        gas_for_ft_transfer
      ∷ [];
  callback = none;
})

unfoldable pub internal_add_bounty : Bounty → Call Contract ℕ
internal_add_bounty bounty = do
  id ← gets (λ c. c.last_bounty_id)
  modify (λ c. record c { bounties = Map.insert id bounty c.bounties })
  next ← lift (checked u64_mod (id + 1))
  modify (λ c. record c { last_bounty_id = next })
  pure id

-- The index of the first claim of the bounty.
unfoldable pub find_claim_from : ℕ → ℕ → List BountyClaim → Option ℕ
find_claim_from i bounty_id [] = none
find_claim_from i bounty_id (claim ∷ claims) =
    if claim.bounty_id == bounty_id then some i else find_claim_from (suc i) bounty_id claims

unfoldable pub internal_find_claim : ℕ → List BountyClaim → Option ℕ
internal_find_claim = find_claim_from 0

unfoldable pub internal_get_claims : ℕ → String → Call Contract (List BountyClaim × ℕ)
internal_get_claims id sender_id = do
  stored ← gets (λ c. Map.get c.bounty_claimers sender_id)
  claims ← expect stored err_no_bounty_claims
  claim_idx ← expect (internal_find_claim id claims) err_no_bounty_claim
  pure (claims, claim_idx)

-- `Vec::remove`, at an index in range
unfoldable pub remove_at : ℕ → List BountyClaim → List BountyClaim
remove_at i [] = []
remove_at zero (claim ∷ claims) = claims
remove_at (suc i) (claim ∷ claims) = claim ∷ remove_at i claims

abbrev pub store_claims : String → List BountyClaim → Contract → Contract
store_claims claimer_id [] c = record c {
  bounty_claimers = Map.remove claimer_id c.bounty_claimers;
}
store_claims claimer_id (claim ∷ claims) c = record c {
  bounty_claimers = Map.insert claimer_id (claim ∷ claims) c.bounty_claimers;
}

unfoldable pub internal_remove_claim : ℕ → String → Call Contract Unit
internal_remove_claim bounty_id claimer_id = do
  found ← internal_get_claims bounty_id claimer_id
  modify (store_claims claimer_id (remove_at found.1 found.0))
  stored ← gets (λ c. Map.get c.bounty_claims_count bounty_id)
  old ← expect stored unwrap_none
  count ← lift (checked_sub old 1)
  modify (λ c. record c { bounty_claims_count = Map.insert bounty_id count c.bounty_claims_count })

-- The memo of a payout is `format!("Bounty {} payout", id)`.
unfoldable pub internal_execute_bounty_payout : ℕ → String → Bool → Call Contract PromiseOrValue
internal_execute_bounty_payout id receiver_id success = do
  stored ← gets (λ c. Map.get c.bounties id)
  bounty ← expect stored err_no_bounty
  internal_remove_claim id receiver_id
  pure (
      if success
      then internal_payout (convert_old_to_new_token bounty.token) receiver_id bounty.amount
          (append "Bounty " (append (u64_to_string id) " payout")) none
      else value)
