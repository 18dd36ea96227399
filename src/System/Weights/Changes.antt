-- ===== src/System/Weights/Changes.antt =====
-- Every change of the staking contract's users is one that the DAO can follow.
use sputnik_dao_contract.Base.{
  ℕ, ◌+◌, ◌-◌, ◌≤◌, ◌≡◌, sym, ap, subst, String, none, some, List, [], ◌∷◌, ◌++◌, ◌==◌, string_key,
  if◌then◌else◌, nat_beq, eq_iff, arith,
}
use sputnik_dao_contract.Map
use sputnik_dao_contract.Map.{Map, get-insert}
use sputnik_dao_contract.Dao.Delegation.Ledger.{Message}
use sputnik_dao_contract.Staking.User.{User, find_delegate, remove_delegate, set_delegate}
use sputnik_dao_contract.Staking.Users.{
  IsCovered, sum_delegated, sum_delegated-remove, sum_delegated-set,
}
use sputnik_dao_contract.Staking.Amounts.{sum_votes, IsExact}
use sputnik_dao_contract.Staking.Sums.{
  given_in, entries_in, entries_for, delegated, sum_by, sum_by-insert, given-remove, given-set,
  entries-append, entries-remove, entries-set,
}
use sputnik_dao_contract.System.Weights.{
  AllCovered, IsCoherent, Change, same, joins, pays, gives, takes,
}

insert-AllCovered :
    (k : String) (u : User) (m : Map String User)
    → IsCovered u
    → AllCovered m
    → AllCovered (Map.insert k u m)
unfolding Map.insert
insert-AllCovered k u [] c all = (c, tt)
insert-AllCovered k u ((j, v) ∷ m) c all = ground (arith, insert-AllCovered k u m c all.1)

pub AllCovered-sum : (m : Map String User) → AllCovered m → sum_by delegated m ≤ sum_votes m
unfolding sum_by sum_votes
AllCovered-sum [] all = omega arith
AllCovered-sum ((k, u) ∷ m) all = ground (arith, AllCovered-sum m all.1)

-- What a user took back is gone from the account that it was given to, and from no other.
pub took_given :
    (a d : String) (n e : ℕ) (xs : List (String × ℕ))
    → find_delegate d xs ≡ some e
    → n ≤ e
    → given_in a (if nat_beq e n then remove_delegate d xs else set_delegate d (e - n) xs)
        + (if d == a then n else 0)
      ≡ given_in a xs
took_given a d n e xs found le =
    ground (arith, given-remove a d xs found, given-set a d (e - n) xs found)

pub took_sum :
    (d : String) (n e : ℕ) (xs : List (String × ℕ))
    → find_delegate d xs ≡ some e
    → n ≤ e
    → sum_delegated (if nat_beq e n then remove_delegate d xs else set_delegate d (e - n) xs) + n
      ≡ sum_delegated xs
took_sum d n e xs found le =
    ground (arith, sum_delegated-remove d xs found, sum_delegated-set d (e - n) xs found)

took_entries :
    (a d : String) (n e : ℕ) (xs : List (String × ℕ))
    → entries_in a (if nat_beq e n then remove_delegate d xs else set_delegate d (e - n) xs)
      ≤ entries_in a xs
took_entries a d n e xs = ground (arith, entries-remove a d xs, entries-set a d (e - n) xs)

-- Known accounts after a registered user's delegations changed.
known_after :
    (k : String) (u v : User) (users : Map String User)
    → Map.get users k ≡ some u
    → ((a : String) → Map.get users a ≡ none → entries_for a v ≤ entries_for a u)
    → ((a : String) → Map.get users a ≡ none → sum_by (entries_for a) users ≡ 0)
    → (a : String) → Map.get (Map.insert k v users) a ≡ none
    → sum_by (entries_for a) (Map.insert k v users) ≡ 0
known_after k u v users found fewer known a missing = ground (
  arith,
  get-insert k a v users,
  sum_by-insert (entries_for a) k v users,
  fewer a,
  known a,
  found,
)

joined_known :
    (k : String) (u : User) (users : Map String User)
    → Map.get users k ≡ none
    → u.delegated_amounts ≡ []
    → ((a : String) → Map.get users a ≡ none → sum_by (entries_for a) users ≡ 0)
    → (a : String) → Map.get (Map.insert k u users) a ≡ none
    → sum_by (entries_for a) (Map.insert k u users) ≡ 0
unfolding entries_in
joined_known k u users new clear known a missing =
    let none_yet : entries_for a u ≡ 0 = ap (entries_in a) clear in
    ground (arith, get-insert k a u users, sum_by-insert (entries_for a) k u users, known a, new)

clear-IsCovered : (u : User) → u.delegated_amounts ≡ [] → IsCovered u
unfolding sum_delegated
clear-IsCovered u clear =
    let q : sum_delegated u.delegated_amounts ≡ 0 = ap sum_delegated clear in omega arith

pub Change-IsCoherent :
    {byte_cost : ℕ} {users users' : Map String User} {ms : List (Message × ℕ)} (total total' : ℕ)
    → Change byte_cost users users' ms
    → IsCoherent users total
    → IsExact users' total'
    → IsCoherent users' total'
Change-IsCoherent {users' = users'} total total' (same e m) c x = record {
  exact = x;
  covered = subst AllCovered (sym e) c.covered;
  known =
      subst (λ us. (a : String) → Map.get us a ≡ none → sum_by (entries_for a) us ≡ 0) (sym e)
        c.known;
}
Change-IsCoherent {users = users} total total' (joins k u new clear e m) c x = record {
  exact = x;
  covered =
      subst AllCovered (sym e) (insert-AllCovered k u users (clear-IsCovered u clear) c.covered);
  known =
      subst (λ us. (a : String) → Map.get us a ≡ none → sum_by (entries_for a) us ≡ 0) (sym e)
        (joined_known k u users new clear c.known);
}
Change-IsCoherent {users = users} total total' (pays k u v found kept covered e m) c x = record {
  exact = x;
  covered = subst AllCovered (sym e) (insert-AllCovered k v users covered c.covered);
  known =
      subst (λ us. (a : String) → Map.get us a ≡ none → sum_by (entries_for a) us ≡ 0) (sym e)
        (known_after k u v users found
          (λ a missing.
            let q : entries_for a v ≡ entries_for a u = ap (entries_in a) kept in omega arith)
          c.known);
}
Change-IsCoherent {users = users} total total' (gives k d n u v w found there added covered e m) c
      x =
    record {
      exact = x;
      covered = subst AllCovered (sym e) (insert-AllCovered k v users covered c.covered);
      known =
          subst (λ us. (a : String) → Map.get us a ≡ none → sum_by (entries_for a) us ≡ 0) (sym e)
            (known_after k u v users found (λ a missing. gave_entries a missing) c.known);
    }
  where
    gave_entries : (a : String) → Map.get users a ≡ none → entries_for a v ≤ entries_for a u
    gave_entries a missing =
        let q : entries_for a v ≡ entries_in a (u.delegated_amounts ++ (d, n) ∷ []) =
          ap (entries_in a) added in
        ground (arith, entries-append a d n u.delegated_amounts, eq_iff d a, there)
Change-IsCoherent {users = users} total total' (takes k d n f u v found had le left covered e m) c
      x =
    record {
      exact = x;
      covered = subst AllCovered (sym e) (insert-AllCovered k v users covered c.covered);
      known =
          subst (λ us. (a : String) → Map.get us a ≡ none → sum_by (entries_for a) us ≡ 0) (sym e)
            (known_after k u v users found
              (λ a missing.
                let q : entries_for a v
                    ≡ entries_in a (
                        if nat_beq f n
                        then remove_delegate d u.delegated_amounts
                        else set_delegate d (f - n) u.delegated_amounts) =
                  ap (entries_in a) left in
                omega (arith, took_entries a d n f u.delegated_amounts))
              c.known);
    }
