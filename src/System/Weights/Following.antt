-- ===== src/System/Weights/Following.antt =====
-- The DAO's ledger follows every change of the staking contract's users.
use sputnik_dao_contract.Base.{
  ℕ, ◌+◌, ◌-◌, ◌*◌, ◌≤◌, ◌<◌, ◌≡◌, sym, ◌∙◌, ap, subst, String, none, some, List, [], ◌∷◌,
  string_key, arith, Option-cases, inl, inr, beq_refl,
}
use sputnik_dao_contract.Map
use sputnik_dao_contract.Map.{Map, get-insert}
use sputnik_dao_contract.Result.{u128_mod}
use sputnik_dao_contract.Dao.Delegation.Ledger.{Ledger, Message, register, give, take_back}
use sputnik_dao_contract.Staking.User.{User, find_delegate}
use sputnik_dao_contract.Staking.Sums.{
  given_to, entries_for, of_user, sum_by, user-le-sum, given-le-delegated, given-remove,
  find-entries,
}
use sputnik_dao_contract.System.Weights.{
  weight_of, Matches, IsCoherent, Change, same, joins, pays, gives, takes, settle,
}
use sputnik_dao_contract.System.Weights.Changes.{AllCovered-sum}
use sputnik_dao_contract.System.Weights.Matching.{
  paid-Matches, joined-Matches, gave-Matches, took-Matches,
}

registered :
    (a : String) (users : Map String User)
    → 0 < sum_by (entries_for a) users
    → ((b : String) → Map.get users b ≡ none → sum_by (entries_for b) users ≡ 0)
    → (w : User) × (Map.get users a ≡ some w)
registered a users more known = elim (Option-cases (Map.get users a)) [
  | inl missing ↦ ground (arith, known a missing)
  | inr known_user ↦ known_user
]

register_settles :
    (byte_cost : ℕ) (a : String) (l : Ledger)
    → settle byte_cost ((register a, 16 * byte_cost) ∷ []) l
      ≡ some (record l { weights = Map.insert a 0 l.weights })
unfolding settle
register_settles byte_cost a l = ground arith

give_settles :
    (byte_cost : ℕ) (d : String) (n g : ℕ) (l : Ledger)
    → Map.get l.weights d ≡ some g
    → g ≤ l.total
    → l.total + n < u128_mod
    → settle byte_cost ((give d n, 0) ∷ []) l
      ≡ some (record { weights = Map.insert d (g + n) l.weights; total = l.total + n })
unfolding settle
give_settles byte_cost d n g l found le fits = ground arith

take_settles :
    (byte_cost : ℕ) (d : String) (n g : ℕ) (l : Ledger)
    → Map.get l.weights d ≡ some g
    → n ≤ g
    → n ≤ l.total
    → settle byte_cost ((take_back d n, 0) ∷ []) l
      ≡ some (record { weights = Map.insert d (g - n) l.weights; total = l.total - n })
unfolding settle
take_settles byte_cost d n g l found le le_total = ground arith

module _ (users : Map String User) (l : Ledger) (m : Matches users l) where
  weight_found :
      (d : String) (w : User)
      → Map.get users d ≡ some w
      → Map.get l.weights d ≡ some (sum_by (given_to d) users)
  weight_found d w there = m.weights d ∙ ap (weight_of d users) there

  -- What the DAO's ledger says of a delegation that a user has.
  held :
      (a d : String) (n e : ℕ) (u : User)
      → Map.get users a ≡ some u
      → find_delegate d u.delegated_amounts ≡ some e
      → n ≤ e
      → (n ≤ sum_by (given_to d) users) × (n ≤ l.total)
  held a d n e u found had le =
      let given : given_to d u ≤ sum_by (given_to d) users =
        omega (arith, user-le-sum (given_to d) a users, ap (of_user (given_to d)) found) in
      let kept : e ≤ given_to d u =
        ground (arith, beq_refl d, given-remove d d u.delegated_amounts had) in
      (omega arith, omega (arith, m.total, given-le-delegated d users))

-- Once its messages have arrived, a call of the staking contract has left the DAO with the weights
-- and the total that the new users ask for, and none of the messages is refused.
pub Change-settles :
    {byte_cost : ℕ} {users users' : Map String User} {ms : List (Message × ℕ)} (total total' : ℕ)
    (l : Ledger)
    → Change byte_cost users users' ms
    → IsCoherent users total
    → IsCoherent users' total'
    → Matches users l
    → (l' : Ledger) × (settle byte_cost ms l ≡ some l') × Matches users' l'
unfolding settle
Change-settles {byte_cost = byte_cost} total total' l (same e sent) c c' m =
    (l, ap (λ ms. settle byte_cost ms l) sent, subst (λ us. Matches us l) (sym e) m)
Change-settles {byte_cost = byte_cost} {users = users} total total' l (joins a u new clear e sent) c
      c' m =
    let l' : Ledger = record l { weights = Map.insert a 0 l.weights } in
    (
      l',
      ap (λ ms. settle byte_cost ms l) sent ∙ register_settles byte_cost a l,
      subst (λ us. Matches us l') (sym e) (joined-Matches users l m a u new clear (c.known a new)),
    )
Change-settles {byte_cost = byte_cost} {users = users} total total' l
      (pays a u v found kept covered e sent) c c' m =
    (
      l,
      ap (λ ms. settle byte_cost ms l) sent,
      subst (λ us. Matches us l) (sym e) (paid-Matches users l m a u v found kept),
    )
Change-settles {byte_cost = byte_cost} {users = users} {users' = users'} total total' l
      (gives a d n u v w found there added covered e sent) c c' m =
    let l' : Ledger = record {
      weights = Map.insert d (sum_by (given_to d) users + n) l.weights;
      total = l.total + n;
    } in
    let m' : Matches users' l' =
      subst (λ us. Matches us l') (sym e) (gave-Matches users l m a d n u v w found there added) in
    (
      l',
      ap (λ ms. settle byte_cost ms l) sent
          ∙ give_settles byte_cost d n (sum_by (given_to d) users) l
              (weight_found users l m d w there)
              (omega (arith, m.total, given-le-delegated d users))
              (omega
                (arith, m'.total, AllCovered-sum users' c'.covered, c'.exact.exact, c'.exact.fits)),
      m',
    )
Change-settles {byte_cost = byte_cost} {users = users} total total' l
      (takes a d n f u v found had le left covered e sent) c c' m =
    let w : (w : User) × (Map.get users d ≡ some w) =
      registered d users
        (omega (
          arith,
          find-entries d u.delegated_amounts had,
          user-le-sum (entries_for d) a users,
          ap (of_user (entries_for d)) found,
        ))
        c.known in
    let fits : (n ≤ sum_by (given_to d) users) × (n ≤ l.total) =
      held users l m a d n f u found had le in
    let l' : Ledger = record {
      weights = Map.insert d (sum_by (given_to d) users - n) l.weights;
      total = l.total - n;
    } in
    (
      l',
      ap (λ ms. settle byte_cost ms l) sent
          ∙ take_settles byte_cost d n (sum_by (given_to d) users) l
              (weight_found users l m d w.0 w.1) fits.0 fits.1,
      subst (λ us. Matches us l') (sym e)
          (took-Matches users l m a d n f u v w.0 found w.1 had le left),
    )
