-- ===== src/Dao/Tests/ViewCases.antt =====
-- The theorems on the views, at a contract with two proposals of three that were made.
use sputnik_dao_contract.Base.{
  ◌+◌, ◌≤◌, ◌<◌, ◌≡◌, refl, subst, ◌↔◌, none, some, [], ◌∷◌, In, nat_key, arith,
}
use sputnik_dao_contract.Map
use sputnik_dao_contract.Result.{ok}
use sputnik_dao_contract.Dao.Data.{Proposal, current}
use sputnik_dao_contract.Dao.Contract.{Contract, new}
use sputnik_dao_contract.Dao.Invariant.{AreProposals}
use sputnik_dao_contract.Dao.Frame.{HasCurrentPolicy}
use sputnik_dao_contract.Dao.Views.{
  ProposalOutput, get_proposals, page, range, filter_map, proposal_output,
}
use sputnik_dao_contract.Dao.Views.Pages.{get_proposals_lem}
use sputnik_dao_contract.Dao.Tests.{alice_env, small_policy, sample_config, poll}

abbrev listing : Contract
listing = record (new alice_env sample_config (current small_policy)) {
  proposals = (2, poll) ∷ (0, poll) ∷ [];
  last_proposal_id = 3;
}

abbrev last_output : ProposalOutput
last_output = record { id = 2; proposal = poll }

last_page : get_proposals listing 1 5 ≡ ok (last_output ∷ [])
unfolding get_proposals page range filter_map proposal_output Map.get
last_page = refl

kind_of_poll : (p : Proposal) → some poll ≡ some p → HasCurrentPolicy p.kind
kind_of_poll p e = subst (λ o. elim o [ none ↦ Unit | some q ↦ HasCurrentPolicy q.kind ]) e tt

listing-AreProposals : AreProposals listing.proposals 3
unfolding Map.get
listing-AreProposals = record {
  below = λ id p e. ground arith;
  kinds = λ id p e. ground (arith, kind_of_poll p);
}

get_proposals_lem_example :
    In last_output (last_output ∷ [])
    ↔ ((1 ≤ last_output.id) × (last_output.id < 1 + 5) × (Map.get listing.proposals 2 ≡ some poll))
get_proposals_lem_example =
    get_proposals_lem listing 1 5 (last_output ∷ []) last_output listing-AreProposals last_page
