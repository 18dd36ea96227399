-- ===== src/Dao/Types.antt =====
-- sputnikdao2/src/types.rs: the actions, the configuration, the constants and the conversion of
-- token ids, and the factory information of sputnikdao2/src/upgrade.rs.
use sputnik_dao_contract.Base.{
  ℕ, String, Bool, Option, none, some, List, ◌==◌, string_key, if◌then◌else◌,
}

-- The id of $NEAR as a token.
abbrev pub old_base_token : String
old_base_token = ""

abbrev pub one_yocto_near : ℕ
one_yocto_near = 1

abbrev pub gas_for_ft_transfer : ℕ
gas_for_ft_transfer = 10_000_000_000_000

pub record Config : Type 0 where
  pub name : String
  pub purpose : String
  pub metadata : List ℕ

pub data Action : Type 0 where
  add_proposal remove_proposal vote_approve vote_reject vote_remove finalize move_to_hub : Action

-- The derived `Debug` prints a variant's name.
unfoldable pub action_to_policy_label : Action → String
action_to_policy_label add_proposal = "AddProposal"
action_to_policy_label remove_proposal = "RemoveProposal"
action_to_policy_label vote_approve = "VoteApprove"
action_to_policy_label vote_reject = "VoteReject"
action_to_policy_label vote_remove = "VoteRemove"
action_to_policy_label finalize = "Finalize"
action_to_policy_label move_to_hub = "MoveToHub"

unfoldable pub convert_old_to_new_token : String → Option String
convert_old_to_new_token old_account_id =
    if old_account_id == old_base_token then none else some old_account_id

pub record FactoryInfo : Type 0 where
  pub factory_id : String
  pub auto_update : Bool
