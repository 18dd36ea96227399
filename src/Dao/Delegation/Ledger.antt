-- ===== src/Dao/Delegation/Ledger.antt =====
-- What the DAO promises the staking contract: a ledger of weights, and how each message of the
-- staking contract changes it. The methods of sputnikdao2/src/delegation.rs implement it.
use sputnik_dao_contract.Base.{
  ℕ, ◌+◌, ◌-◌, ◌*◌, ◌<◌, ◌≡◌, String, ◌&&◌, Option, none, some, string_key, nat_key, nat_beq, ltb,
  leb, if◌then◌else◌, beq_refl, Option-cases, inl, inr, arith,
}
use sputnik_dao_contract.Map
use sputnik_dao_contract.Map.{Map}
use sputnik_dao_contract.Result.{Result, ok, u128_mod}
use sputnik_dao_contract.Host.{Env, Host, ◌>>=◌}
use sputnik_dao_contract.Host.Panics.{IsPanic}
use sputnik_dao_contract.Dao.Contract.{Contract}
use sputnik_dao_contract.Dao.Delegation.{
  unwrap_or_default, require_staking, register_delegation, delegate, undelegate,
}
use sputnik_dao_contract.Dao.Calls.{Method, dispatch, assert_no_deposit}

pub record Ledger : Type 0 where
  pub weights : Map String ℕ
  pub total : ℕ

pub data Message : Type 0 where
  register : String → Message
  give take_back : String → ℕ → Message

-- `none` where the message is refused.
abbrev pub apply : Message → Ledger → Option Ledger
apply (register account) l = some (record l { weights = Map.insert account 0 l.weights })
apply (give account amount) l = elim (Map.get l.weights account) [
  | none ↦ none
  | some weight ↦
      if ltb (weight + amount) u128_mod && ltb (l.total + amount) u128_mod
      then some (record {
        weights = Map.insert account (weight + amount) l.weights;
        total = l.total + amount;
      })
      else none
]
apply (take_back account amount) l =
    let weight = unwrap_or_default (Map.get l.weights account) in
    if leb amount weight && leb amount l.total
    then some (record {
      weights = Map.insert account (weight - amount) l.weights;
      total = l.total - amount;
    })
    else none

-- The deposit that a message is to bring, at a cost of a byte of storage.
abbrev pub deposit_for : ℕ → Message → ℕ
deposit_for byte_cost (register account) = 16 * byte_cost
deposit_for byte_cost (give account amount) = 0
deposit_for byte_cost (take_back account amount) = 0

-- A message with its deposit.
abbrev pub receive : ℕ → Message × ℕ → Ledger → Option Ledger
receive byte_cost (message, deposit) l =
    if nat_beq deposit (deposit_for byte_cost message) then apply message l else none

abbrev pub ledger_of : Contract → Ledger
ledger_of c = record { weights = c.delegations; total = c.total_delegation_amount }

abbrev pub with_ledger : Ledger → Contract → Contract
with_ledger l c = record c { delegations = l.weights; total_delegation_amount = l.total }

abbrev pub method_of : Message → Method
method_of (register account) = Method.register_delegation account
method_of (give account amount) = Method.delegate account amount
method_of (take_back account amount) = Method.undelegate account amount

-- A call that returns with the ledger, or panics where there is none.
abbrev pub Agrees : Host Contract → Option Ledger → Result (Unit × Host Contract) → Type 0
Agrees h none r = IsPanic r
Agrees h (some l) r = r ≡ ok (tt, record h { state = with_ledger l h.state })

pub dispatch_refines :
    (env : Env) (message : Message) (h : Host Contract)
    → h.state.staking_id ≡ some env.predecessor_account_id
    → 16 * env.storage_byte_cost < u128_mod
    → Agrees h
        (receive env.storage_byte_cost (message, env.attached_deposit) (ledger_of h.state))
        (dispatch env (method_of message) h)
unfolding dispatch assert_no_deposit require_staking register_delegation delegate undelegate ◌>>=◌
dispatch_refines env (register account) h known fits =
    ground (arith, beq_refl env.predecessor_account_id)
dispatch_refines env (give account amount) h known fits =
    elim (Option-cases (Map.get h.state.delegations account)) [
      | inl missing ↦ ground (arith, beq_refl env.predecessor_account_id)
      | inr (w, found) ↦ ground (arith, beq_refl env.predecessor_account_id)
    ]
dispatch_refines env (take_back account amount) h known fits =
    ground (arith, beq_refl env.predecessor_account_id)
