-- ===== src/Dao/Invariant/Writes.antt =====
-- The writes of the internal operations keep the invariant of the DAO contract.
use sputnik_dao_contract.Base.{
  ℕ, ◌+◌, ◌-◌, ◌≡◌, String, Option, none, some, nat_key, string_key, arith, Option-cases, inl, inr,
}
use sputnik_dao_contract.Map
use sputnik_dao_contract.Map.{Map, get-insert, get-remove}
use sputnik_dao_contract.Host.{Host, modify, ◌>>=◌}
use sputnik_dao_contract.Host.Keeps.{Keeps, Keeps-modify, keeps_rules}
use sputnik_dao_contract.Host.Ensures.{Keeps-load}
use sputnik_dao_contract.Dao.Data.{ProposalKind, Bounty}
use sputnik_dao_contract.Dao.Contract.{Contract}
use sputnik_dao_contract.Dao.Bounties.{
  internal_find_claim, internal_get_claims, internal_remove_claim, internal_add_bounty,
}
use sputnik_dao_contract.Dao.Proposals.Execution.{count_bounty, count_payout, set_staking_id}
use sputnik_dao_contract.Dao.Frame.{Frame}
use sputnik_dao_contract.Dao.Invariant.{AreBounties, IsSound}
use sputnik_dao_contract.Dao.Invariant.Claims.{removed-AreCounted}

below-insert :
    (id : ℕ) (bounty : Bounty) (bounties : Map ℕ Bounty)
    → AreBounties bounties id
    → AreBounties (Map.insert id bounty bounties) (id + 1)
below-insert id bounty bounties b = record {
  below = λ j x e. ground (arith, get-insert id j bounty bounties, b.below j x);
}

-- A payout counts a stored bounty down or drops it.
count_bounty-AreBounties :
    (id last : ℕ) (bounty : Bounty) (c : Contract)
    → AreBounties c.bounties last
    → Map.get c.bounties id ≡ some bounty
    → AreBounties (count_bounty id bounty c).bounties last
count_bounty-AreBounties id last bounty c b found = record {
  below = λ j x e. ground (
    arith,
    get-insert id j (record bounty { times = bounty.times - 1 }) c.bounties,
    get-remove id j c.bounties,
    b.below j x,
    b.below id bounty,
  );
}

staking_written :
    {W : Map String ℕ → ℕ → Type 0} {given : ℕ} (id : String)
    → Keeps (IsSound W none given) (modify (λ c. record c { staking_id = some id }))
staking_written id = Keeps-modify _ (λ c s. assumption)

-- A known staking contract stays.
set_staking_id-IsSound :
    {W : Map String ℕ → ℕ → Type 0} (known : Option String) {given : ℕ} (id : String)
    → Keeps (IsSound W known given) (set_staking_id id)
unfolding set_staking_id ◌>>=◌
set_staking_id-IsSound none id = search (keeps_rules, staking_written)
set_staking_id-IsSound (some k) id = record { at = λ h s. ground (arith, s.staking) }

module _ {W : Map String ℕ → ℕ → Type 0} {known : Option String} (given : ℕ) where
  remove_claim-IsSound :
      (id : ℕ) (account : String) → Keeps (IsSound W known given) (internal_remove_claim id account)
  unfolding internal_remove_claim internal_get_claims ◌>>=◌
  remove_claim-IsSound id account = record {
    at = λ (h : Host Contract) (s : IsSound W known given h.state).
        elim (Option-cases (Map.get h.state.bounty_claimers account)) [
          | inl missing ↦ ground arith
          | inr (claims, stored) ↦ elim (Option-cases (internal_find_claim id claims)) [
            | inl missing ↦ ground arith
            | inr (i, found) ↦ elim (Option-cases (Map.get h.state.bounty_claims_count id)) [
              | inl missing ↦ ground arith
              | inr (count, counted) ↦ ground (
                arith,
                stored,
                found,
                counted,
                removed-AreCounted id i count account claims h.state stored found counted s.claims,
              )
            ]
          ]
        ];
  }

  internal_add_bounty-IsSound :
      (bounty : Bounty) → Keeps (IsSound W known given) (internal_add_bounty bounty)
  unfolding internal_add_bounty ◌>>=◌
  internal_add_bounty-IsSound bounty = record {
    at = λ h s.
        ground (arith, below-insert h.state.last_bounty_id bounty h.state.bounties s.bounties);
  }

  count_payout-IsSound : (kind : ProposalKind) → Keeps (IsSound W known given) (count_payout kind)
  unfolding count_payout ◌>>=◌
  count_payout-IsSound (ProposalKind.bounty_done id receiver) =
      Keeps-load _ _ _ _
        λ (h : Host Contract) (bounty : Bounty) (s : IsSound W known given h.state)
            (found : Map.get h.state.bounties id ≡ some bounty).
          assumption
            (count_bounty-AreBounties id h.state.last_bounty_id bounty h.state s.bounties found)
  count_payout-IsSound _ = search keeps_rules

  pub frame-IsSound : Frame (IsSound W known given)
  frame-IsSound = record {
    locked = λ n. Keeps-modify _ (λ c s. assumption);
    config = λ config. Keeps-modify _ (λ c s. assumption);
    staking = set_staking_id-IsSound known;
    factory = λ info. Keeps-modify _ (λ c s. assumption);
    claim = remove_claim-IsSound;
    policy = λ policy valid. Keeps-modify _ (λ c s. assumption);
    bounty = internal_add_bounty-IsSound;
    payout = count_payout-IsSound;
  }
