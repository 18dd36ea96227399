-- ===== src/Dao/Calls.antt =====
-- The entry points of the DAO contract. `#[near_bindgen]` refuses a deposit to a method that is not
-- `#[payable]`, and `#[private]` refuses every caller but the contract itself. The exported
-- functions `store_blob` and `update` have no such wrapper.
use sputnik_dao_contract.Base.{ℕ, String, Option, List, [], ◌∷◌, ◌==◌, string_key, nat_beq}
use sputnik_dao_contract.Result.{private_method, not_payable}
use sputnik_dao_contract.Host.{Env, Call, ◌>>◌, pure, require}
use sputnik_dao_contract.Result.{ok, err}
use sputnik_dao_contract.Dao.Types.{Action}
use sputnik_dao_contract.Dao.Data.{ProposalInput}
use sputnik_dao_contract.Dao.Contract.{Contract}
use sputnik_dao_contract.Dao.Delegation
use sputnik_dao_contract.Dao.Upgrade
use sputnik_dao_contract.Dao.Proposals.Methods
use sputnik_dao_contract.Dao.Bounties.Methods as BountyMethods

pub data Method : Type 0 where
  add_proposal : ProposalInput → Method
  act_proposal : ℕ → Action → Option String → Method
  on_proposal_callback : ℕ → Method
  bounty_claim : ℕ → ℕ → Method
  bounty_done : ℕ → Option String → String → Method
  bounty_giveup : ℕ → Method
  register_delegation : String → Method
  delegate undelegate : String → ℕ → Method
  remove_blob : ℕ → Method
  store_blob : Option (List ℕ) → Method
  update : Option (List ℕ) → Method

abbrev pub done : {A : Type 0} → Call Contract A → Call Contract Unit
done m = do m; pure tt

unfoldable pub assert_private : Env → Call Contract Unit
assert_private env = require (env.predecessor_account_id == env.current_account_id) private_method

unfoldable pub assert_no_deposit : Env → Call Contract Unit
assert_no_deposit env = require (nat_beq env.attached_deposit 0) not_payable

unfoldable pub dispatch : Env → Method → Call Contract Unit
dispatch env (add_proposal proposal) = done (Methods.add_proposal env proposal)
dispatch env (act_proposal id action memo) = do
  assert_no_deposit env
  Methods.act_proposal env id action memo
dispatch env (on_proposal_callback proposal_id) = do
  assert_no_deposit env
  assert_private env
  Methods.on_proposal_callback env proposal_id
dispatch env (bounty_claim id deadline) = BountyMethods.bounty_claim env id deadline
dispatch env (bounty_done id account_id description) =
    BountyMethods.bounty_done env id account_id description
dispatch env (bounty_giveup id) = do assert_no_deposit env; BountyMethods.bounty_giveup env id
dispatch env (register_delegation account_id) = Delegation.register_delegation env account_id
dispatch env (delegate account_id amount) = do
  assert_no_deposit env
  done (Delegation.delegate env account_id amount)
dispatch env (undelegate account_id amount) = do
  assert_no_deposit env
  done (Delegation.undelegate env account_id amount)
dispatch env (remove_blob hash) = do assert_no_deposit env; Upgrade.remove_blob env hash
dispatch env (store_blob input) = done (Upgrade.store_blob env input)
dispatch env (update input) = Upgrade.update env input

-- One receipt: a call that panics leaves the contract as it was.
unfoldable pub execute : Env → Method → Contract → Contract
execute env method c = elim (dispatch env method (record { state = c; promises = [] })) [
  | err code ↦ c
  | ok (result, h) ↦ h.state
]

-- Receipts one after the other, by any accounts.
unfoldable pub run : List (Env × Method) → Contract → Contract
run [] c = c
run ((env, method) ∷ calls) c = run calls (execute env method c)
