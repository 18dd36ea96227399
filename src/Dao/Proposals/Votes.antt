-- ===== src/Dao/Proposals/Votes.antt =====
-- The recording of a vote, `Vote::from` and `Proposal::update_votes` of sputnikdao2/src/proposals.rs.
use sputnik_dao_contract.Base.{
  ℕ, ◌+◌, String, Option, none, some, List, [], ◌∷◌, string_key, if◌then◌else◌,
}
use sputnik_dao_contract.Map
use sputnik_dao_contract.Map.{Map}
use sputnik_dao_contract.Result.{
  Result, ok, err, ◌>>=◌, ◌>>◌, checked, u128_mod, unreachable, err_already_voted,
}
use sputnik_dao_contract.Dao.Types.{
  Action, add_proposal, remove_proposal, vote_approve, vote_reject, vote_remove, finalize,
  move_to_hub,
}
use sputnik_dao_contract.Dao.Data.{Policy, Vote, approve, reject, remove, VoteCounts, Proposal}
use sputnik_dao_contract.Dao.Policy.Permissions.{kind_to_policy_label}
use sputnik_dao_contract.Dao.Policy.Status.{is_token_weighted, counts_of}

-- `From<Action> for Vote`
unfoldable pub vote_from : Action → Result Vote
vote_from vote_approve = ok approve
vote_from vote_reject = ok reject
vote_from vote_remove = ok remove
vote_from add_proposal = err unreachable
vote_from remove_proposal = err unreachable
vote_from finalize = err unreachable
vote_from move_to_hub = err unreachable

-- `counts[vote as usize]`
unfoldable pub count_for : Vote → VoteCounts → ℕ
count_for approve counts = counts.approve_count
count_for reject counts = counts.reject_count
count_for remove counts = counts.remove_count

unfoldable pub set_count : Vote → ℕ → VoteCounts → VoteCounts
set_count approve n counts = record counts { approve_count = n }
set_count reject n counts = record counts { reject_count = n }
set_count remove n counts = record counts { remove_count = n }

-- The loop over the roles: each of them counts the vote, by the user's weight or by one.
unfoldable pub add_to_counts :
    Policy
    → String
    → Vote
    → ℕ
    → List String
    → Map String VoteCounts
    → Result (Map String VoteCounts)
add_to_counts policy label vote user_weight [] vote_counts = ok vote_counts
add_to_counts policy label vote user_weight (role ∷ roles) vote_counts = do
  weighted ← is_token_weighted policy role label
  let amount = if weighted then user_weight else 1
  let counts = counts_of vote_counts role
  n ← checked u128_mod (count_for vote counts + amount)
  add_to_counts policy label vote user_weight roles
      (Map.insert role (set_count vote n counts) vote_counts)

abbrev pub require_new : Option Vote → Result Unit
require_new none = ok tt
require_new (some vote) = err err_already_voted

unfoldable pub update_votes : String → List String → Vote → Policy → ℕ → Proposal → Result Proposal
update_votes account_id roles vote policy user_weight proposal = do
  vote_counts ←
      add_to_counts policy (kind_to_policy_label proposal.kind) vote user_weight roles
        proposal.vote_counts
  require_new (Map.get proposal.votes account_id)
  ok (record proposal {
    vote_counts = vote_counts;
    votes = Map.insert account_id vote proposal.votes;
  })
