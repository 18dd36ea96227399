-- ===== src/Dao/Policy/Decision.antt =====
-- When a proposal is decided: `Policy::proposal_status` of sputnikdao2/src/policy.rs.
use sputnik_dao_contract.Base.{
  ℕ, ◌+◌, ◌≤◌, ◌<◌, String, ◌≡◌, refl, sym, subst, ltb, ◌⊎◌, inl, inr, true, none, some, List, [],
  ◌∷◌, In, arith, Bool-cases, Option-cases,
}
use sputnik_dao_contract.Result.{ok, u64_mod, Result-cases}
use sputnik_dao_contract.Host.{Env}
use sputnik_dao_contract.Dao.Data.{
  Policy, Proposal, RolePermission, VoteCounts, ProposalStatus, in_progress, approved, rejected,
  removed, expired, moved, failed,
}
use sputnik_dao_contract.Dao.Policy.Permissions.{kind_to_policy_label}
use sputnik_dao_contract.Dao.Policy.Status.{
  internal_get_role, role_vote_policy, total_weight_of, threshold_of, counts_of, verdict,
  role_status, decide_status, is_open, proposal_status,
}

-- The counts decide for the status: approval comes before rejection, and that before removal.
abbrev pub Wins : ProposalStatus → VoteCounts → ℕ → Type 0
Wins approved counts t = t ≤ counts.approve_count
Wins rejected counts t = (counts.approve_count < t) × (t ≤ counts.reject_count)
Wins removed counts t =
    (counts.approve_count < t) × (counts.reject_count < t) × (t ≤ counts.remove_count)
Wins in_progress counts t = ⊥
Wins expired counts t = ⊥
Wins moved counts t = ⊥
Wins failed counts t = ⊥

-- The role has a threshold of votes on the proposal.
abbrev pub Threshold : Policy → Proposal → ℕ → RolePermission → ℕ → Type 0
Threshold policy proposal total_supply r t =
    let vote_policy = role_vote_policy policy r (kind_to_policy_label proposal.kind) in
    (total_weight : ℕ) × (total_weight_of r.kind vote_policy.weight_kind total_supply
      ≡ some total_weight)
    × (threshold_of vote_policy total_weight ≡ ok t)

verdict-Wins :
    (counts : VoteCounts) (t : ℕ) (s : ProposalStatus) → verdict counts t ≡ some s → Wins s counts t
unfolding verdict
verdict-Wins counts t approved h = ground arith
verdict-Wins counts t rejected h = ground arith
verdict-Wins counts t removed h = ground arith
verdict-Wins counts t _ h = ground arith

verdict-none :
    (counts : VoteCounts) (t : ℕ)
    → verdict counts t ≡ none
    → (counts.approve_count < t) × (counts.reject_count < t) × (counts.remove_count < t)
unfolding verdict
verdict-none counts t h = ground arith

-- No count decides for a status that leaves the proposal open.
no_open_win :
    (d : ProposalStatus) (counts : VoteCounts) (t : ℕ) → Wins d counts t → is_open d ≡ true → ⊥
no_open_win in_progress counts t w o = w
no_open_win failed counts t w o = w
no_open_win _ counts t w o = cc

module _ (policy : Policy) (proposal : Proposal) (total_supply : ℕ) where
  -- A role of the list whose threshold of votes decides for the status.
  abbrev pub DecidedBy : ProposalStatus → List String → Type 0
  DecidedBy s names =
      (name : String) × (r : RolePermission) × (t : ℕ) × In name names
      × (internal_get_role policy.roles name ≡ some r)
      × Threshold policy proposal total_supply r t
      × Wins s (counts_of proposal.vote_counts name) t

  role_status-Wins :
      (r : RolePermission) (name : String) (s : ProposalStatus)
      → role_status policy proposal r name total_supply ≡ ok (some s)
      → (t : ℕ) × Threshold policy proposal total_supply r t
        × Wins s (counts_of proposal.vote_counts name) t
  unfolding role_status
  role_status-Wins r name s h =
      let vote_policy = role_vote_policy policy r (kind_to_policy_label proposal.kind) in
      elim (Option-cases (total_weight_of r.kind vote_policy.weight_kind total_supply)) [
        | inl skipped ↦ ground arith
        | inr (w, weighted) ↦ elim (Result-cases (threshold_of vote_policy w)) [
          | inl (t, reached) ↦ (
            t,
            (w, weighted, reached),
            verdict-Wins (counts_of proposal.vote_counts name) t s (ground arith),
          )
          | inr (c, failure) ↦ ground arith
        ]
      ]

  later :
      (name : String) (names : List String) (s : ProposalStatus)
      → (s ≡ proposal.status) ⊎ DecidedBy s names
      → (s ≡ proposal.status) ⊎ DecidedBy s (name ∷ names)
  later name names s (inl same) = inl same
  later name names s (inr (n, r, t, i, found, threshold, wins)) =
      inr (n, r, t, inr i, found, threshold, wins)

  decide-DecidedBy :
      (names : List String) (s : ProposalStatus)
      → decide_status policy proposal names total_supply ≡ ok s
      → (s ≡ proposal.status) ⊎ DecidedBy s names
  unfolding decide_status
  decide-DecidedBy [] s h = inl (ground arith)
  decide-DecidedBy (name ∷ names) s h = elim (Option-cases (internal_get_role policy.roles name)) [
    | inl missing ↦ ground arith
    | inr (r, found) ↦ elim (Result-cases (role_status policy proposal r name total_supply)) [
      | inr (c, failure) ↦ ground arith
      | inl (none, undecided) ↦ later name names s (decide-DecidedBy names s (ground arith))
      | inl (some d, decided) ↦
          let e : d ≡ s = ground arith in
          let (t, threshold, wins) = role_status-Wins r name s (ground arith) in
          inr (name, r, t, inl refl, found, threshold, wins)
    ]
  ]

  -- The role does not decide: it is skipped, or every count is below its threshold.
  abbrev pub Undecided : String → Type 0
  Undecided name =
      (r : RolePermission) × (internal_get_role policy.roles name ≡ some r)
      × ((total_weight_of r.kind
              (role_vote_policy policy r (kind_to_policy_label proposal.kind)).weight_kind
              total_supply
            ≡ none)
          ⊎ ((t : ℕ) × Threshold policy proposal total_supply r t
              × ((counts_of proposal.vote_counts name).approve_count < t)
              × ((counts_of proposal.vote_counts name).reject_count < t)
              × ((counts_of proposal.vote_counts name).remove_count < t)))

  role_status-Undecided :
      (r : RolePermission) (name : String)
      → internal_get_role policy.roles name ≡ some r
      → role_status policy proposal r name total_supply ≡ ok none
      → Undecided name
  unfolding role_status
  role_status-Undecided r name found h =
      let vote_policy = role_vote_policy policy r (kind_to_policy_label proposal.kind) in
      elim (Option-cases (total_weight_of r.kind vote_policy.weight_kind total_supply)) [
        | inl skipped ↦ (r, found, inl skipped)
        | inr (w, weighted) ↦ elim (Result-cases (threshold_of vote_policy w)) [
          | inl (t, reached) ↦
              let (a, b, c) = verdict-none (counts_of proposal.vote_counts name) t (ground arith) in
              (r, found, inr (t, (w, weighted, reached), a, b, c))
          | inr (c, failure) ↦ ground arith
        ]
      ]

  decide-Undecided :
      (names : List String)
      → decide_status policy proposal names total_supply ≡ ok proposal.status
      → is_open proposal.status ≡ true
      → (name : String) → In name names
      → Undecided name
  unfolding decide_status
  decide-Undecided [] h o name i = absurd i
  decide-Undecided (n ∷ names) h o name i = elim (Option-cases (internal_get_role policy.roles n)) [
    | inl missing ↦ ground arith
    | inr (r, found) ↦ elim (Result-cases (role_status policy proposal r n total_supply)) [
      | inr (c, failure) ↦ ground arith
      | inl (some d, decided) ↦
          let (t, threshold, wins) = role_status-Wins r n d decided in
          absurd (no_open_win d (counts_of proposal.vote_counts n) t wins (ground arith))
      | inl (none, undecided) ↦ elim i [
        | inl same ↦ subst Undecided (sym same) (role_status-Undecided r n found undecided)
        | inr rest ↦ decide-Undecided names (ground arith) o name rest
      ]
    ]
  ]

  module _ (env : Env) (names : List String) where
    -- A status that proposal_status returns is Expired just after the deadline; up to the deadline
    -- it is the status that the proposal had, or one for which a role of the list has a count of
    -- votes at its threshold, with approval before rejection and rejection before removal.
    pub proposal_status_sound :
        (s : ProposalStatus)
        → proposal_status env policy proposal names total_supply ≡ ok s
        → ((proposal.submission_time + policy.proposal_period < env.block_timestamp)
            × (s ≡ expired))
          ⊎ ((env.block_timestamp ≤ proposal.submission_time + policy.proposal_period)
              × ((s ≡ proposal.status) ⊎ DecidedBy s names))
    unfolding proposal_status
    proposal_status_sound s h =
        elim (Bool-cases
          (ltb (proposal.submission_time + policy.proposal_period) env.block_timestamp)) [
            | inl late ↦ inl (ground arith, ground arith)
            | inr timely ↦ inr (ground arith, decide-DecidedBy names s (ground arith))
          ]

    -- Where proposal_status leaves the status as it is, every role of the list is in the policy,
    -- and is either skipped as it has no weight or has every count of votes below its threshold.
    pub proposal_status-unchanged :
        proposal_status env policy proposal names total_supply ≡ ok proposal.status
        → (name : String) → In name names
        → Undecided name
    unfolding proposal_status
    proposal_status-unchanged h name i = decide-Undecided names (ground arith) (ground arith) name i

    -- The status of a proposal is computed only while it is in progress or failed.
    pub proposal_status-open :
        (s : ProposalStatus)
        → proposal_status env policy proposal names total_supply ≡ ok s
        → (proposal.status ≡ in_progress) ⊎ (proposal.status ≡ failed)
    unfolding proposal_status
    proposal_status-open s h = ground arith

    -- An open proposal whose deadline fits in 64 bits and has passed is Expired, whatever its
    -- votes.
    pub proposal_status-expired :
        is_open proposal.status ≡ true
        → proposal.submission_time + policy.proposal_period < u64_mod
        → proposal.submission_time + policy.proposal_period < env.block_timestamp
        → proposal_status env policy proposal names total_supply ≡ ok expired
    unfolding proposal_status
    proposal_status-expired o fits late = ground arith
