-- ===== src/System/Weights.antt =====
-- The staking contract and its DAO: which ledger of weights the users of the staking contract ask
-- for, and how a call of the staking contract may change the users and what it tells the DAO.
pub mod Changes
pub mod Matching
pub mod Following
pub mod Sending
pub mod Receipts
pub mod States
pub mod Delivery
pub mod Tests
use sputnik_dao_contract.Base.{
  ℕ, ◌-◌, ◌*◌, ◌≤◌, ◌≡◌, String, Option, none, some, List, [], ◌∷◌, ◌++◌, string_key, if◌then◌else◌,
  nat_beq,
}
use sputnik_dao_contract.Map
use sputnik_dao_contract.Map.{Map}
use sputnik_dao_contract.Dao.Delegation.Ledger.{Ledger, Message, register, give, take_back, receive}
use sputnik_dao_contract.Staking.User.{User, find_delegate, remove_delegate, set_delegate}
use sputnik_dao_contract.Staking.Users.{IsCovered}
use sputnik_dao_contract.Staking.Amounts.{IsExact}
use sputnik_dao_contract.Staking.Sums.{given_to, entries_for, delegated, sum_by}

-- The weight that an account is to have: what all users delegated to it, if it is registered.
abbrev pub weight_of : String → Map String User → Option User → Option ℕ
weight_of a users none = none
weight_of a users (some u) = some (sum_by (given_to a) users)

pub record Matches (users : Map String User) (l : Ledger) : Type 0 where
  pub weights : (a : String) → Map.get l.weights a ≡ weight_of a users (Map.get users a)
  pub total : l.total ≡ sum_by delegated users

abbrev pub AllCovered : Map String User → Type 0
AllCovered [] = Unit
AllCovered ((account, u) ∷ users) = IsCovered u × AllCovered users

-- What the staking contract keeps as long as no user unregisters.
pub record IsCoherent (users : Map String User) (total : ℕ) : Type 0 where
  pub exact : IsExact users total
  pub covered : AllCovered users
  pub known : (a : String) → Map.get users a ≡ none → sum_by (entries_for a) users ≡ 0

-- What one call does to the users, and the messages to the DAO with their deposits.
pub data Change (byte_cost : ℕ) (users users' : Map String User) (messages : List (Message × ℕ))
    : Type 0 where
  same : users' ≡ users → messages ≡ [] → Change byte_cost users users' messages
  joins :
      (a : String) (u : User)
      → Map.get users a ≡ none
      → u.delegated_amounts ≡ []
      → users' ≡ Map.insert a u users
      → messages ≡ (register a, 16 * byte_cost) ∷ []
      → Change byte_cost users users' messages
  pays :
      (a : String) (u v : User)
      → Map.get users a ≡ some u
      → v.delegated_amounts ≡ u.delegated_amounts
      → IsCovered v
      → users' ≡ Map.insert a v users
      → messages ≡ []
      → Change byte_cost users users' messages
  gives :
      (a d : String) (n : ℕ) (u v w : User)
      → Map.get users a ≡ some u
      → Map.get users d ≡ some w
      → v.delegated_amounts ≡ u.delegated_amounts ++ (d, n) ∷ []
      → IsCovered v
      → users' ≡ Map.insert a v users
      → messages ≡ (give d n, 0) ∷ []
      → Change byte_cost users users' messages
  takes :
      (a d : String) (n e : ℕ) (u v : User)
      → Map.get users a ≡ some u
      → find_delegate d u.delegated_amounts ≡ some e
      → n ≤ e
      → v.delegated_amounts ≡ (
          if nat_beq e n
          then remove_delegate d u.delegated_amounts
          else set_delegate d (e - n) u.delegated_amounts)
      → IsCovered v
      → users' ≡ Map.insert a v users
      → messages ≡ (take_back d n, 0) ∷ []
      → Change byte_cost users users' messages

-- The DAO's ledger after the messages, `none` where one of them is refused.
unfoldable pub settle : ℕ → List (Message × ℕ) → Ledger → Option Ledger
settle byte_cost [] l = some l
settle byte_cost (m ∷ ms) l = elim (receive byte_cost m l) [
  | none ↦ none
  | some l' ↦ settle byte_cost ms l'
]
