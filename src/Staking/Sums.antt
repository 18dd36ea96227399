-- ===== src/Staking/Sums.antt =====
-- Sums over the users of the staking contract and over the delegations of one user.
use sputnik_dao_contract.Base.{
  ℕ, ◌+◌, ◌≤◌, ◌<◌, ◌≡◌, refl, String, Option, none, some, List, [], ◌∷◌, ◌++◌, ◌==◌, string_key,
  if◌then◌else◌, eq_iff, arith,
}
use sputnik_dao_contract.Map
use sputnik_dao_contract.Map.{Map}
use sputnik_dao_contract.Staking.User.{User, find_delegate, remove_delegate, set_delegate}
use sputnik_dao_contract.Staking.Users.{sum_delegated}

-- Of one user.

unfoldable pub given_in : String → List (String × ℕ) → ℕ
given_in a [] = 0
given_in a ((account, amount) ∷ rest) = (if account == a then amount else 0) + given_in a rest

unfoldable pub entries_in : String → List (String × ℕ) → ℕ
entries_in a [] = 0
entries_in a ((account, amount) ∷ rest) = (if account == a then 1 else 0) + entries_in a rest

abbrev pub given_to : String → User → ℕ
given_to a u = given_in a u.delegated_amounts

abbrev pub entries_for : String → User → ℕ
entries_for a u = entries_in a u.delegated_amounts

abbrev pub delegated : User → ℕ
delegated u = sum_delegated u.delegated_amounts

abbrev pub staked : User → ℕ
staked u = u.vote_amount

given-le-sum : (a : String) (xs : List (String × ℕ)) → given_in a xs ≤ sum_delegated xs
unfolding given_in sum_delegated
given-le-sum a [] = omega arith
given-le-sum a ((k, n) ∷ xs) = ground (arith, given-le-sum a xs)

no_entries : (a : String) (xs : List (String × ℕ)) → entries_in a xs ≡ 0 → given_in a xs ≡ 0
unfolding given_in entries_in
no_entries a [] e = refl
no_entries a ((k, n) ∷ xs) e = ground (arith, no_entries a xs)

pub given-append :
    (a k : String) (n : ℕ) (xs : List (String × ℕ))
    → given_in a (xs ++ (k, n) ∷ []) ≡ given_in a xs + (if k == a then n else 0)
unfolding given_in
given-append a k n [] = ground arith
given-append a k n ((j, m) ∷ xs) = ground (arith, given-append a k n xs)

pub entries-append :
    (a k : String) (n : ℕ) (xs : List (String × ℕ))
    → entries_in a (xs ++ (k, n) ∷ []) ≡ entries_in a xs + (if k == a then 1 else 0)
unfolding entries_in
entries-append a k n [] = ground arith
entries-append a k n ((j, m) ∷ xs) = ground (arith, entries-append a k n xs)

-- A delegation that is there has an entry.
pub find-entries :
    (k : String) (xs : List (String × ℕ)) {n : ℕ}
    → find_delegate k xs ≡ some n
    → 0 < entries_in k xs
unfolding find_delegate entries_in
find-entries k [] e = cc
find-entries k ((j, m) ∷ xs) {n = n} e = ground (arith, find-entries k xs {n = n})

pub given-remove :
    (a k : String) (xs : List (String × ℕ)) {n : ℕ}
    → find_delegate k xs ≡ some n
    → given_in a (remove_delegate k xs) + (if k == a then n else 0) ≡ given_in a xs
unfolding given_in find_delegate remove_delegate
given-remove a k [] e = cc
given-remove a k ((j, m) ∷ xs) {n = n} e = ground (arith, eq_iff j k, given-remove a k xs {n = n})

pub given-set :
    (a k : String) (m : ℕ) (xs : List (String × ℕ)) {n : ℕ}
    → find_delegate k xs ≡ some n
    → given_in a (set_delegate k m xs) + (if k == a then n else 0)
      ≡ given_in a xs + (if k == a then m else 0)
unfolding given_in find_delegate set_delegate
given-set a k m [] e = cc
given-set a k m ((j, i) ∷ xs) {n = n} e = ground (arith, eq_iff j k, given-set a k m xs {n = n})

pub entries-remove :
    (a k : String) (xs : List (String × ℕ)) → entries_in a (remove_delegate k xs) ≤ entries_in a xs
unfolding entries_in remove_delegate
entries-remove a k [] = omega arith
entries-remove a k ((j, m) ∷ xs) = ground (arith, entries-remove a k xs)

pub entries-set :
    (a k : String) (n : ℕ) (xs : List (String × ℕ))
    → entries_in a (set_delegate k n xs) ≤ entries_in a xs
unfolding entries_in set_delegate
entries-set a k n [] = omega arith
entries-set a k n ((j, m) ∷ xs) = ground (arith, entries-set a k n xs)

-- Of all users.

abbrev pub of_user : (User → ℕ) → Option User → ℕ
of_user f none = 0
of_user f (some u) = f u

unfoldable pub sum_by : (User → ℕ) → Map String User → ℕ
sum_by f [] = 0
sum_by f ((account, u) ∷ users) = f u + sum_by f users

module _ (f : User → ℕ) where
  pub sum_by-insert :
      (k : String) (u : User) (m : Map String User)
      → sum_by f (Map.insert k u m) + of_user f (Map.get m k) ≡ sum_by f m + f u
  unfolding sum_by Map.insert Map.get
  sum_by-insert k u [] = omega arith
  sum_by-insert k u ((j, v) ∷ m) = ground (arith, sum_by-insert k u m)

  pub user-le-sum : (k : String) (m : Map String User) → of_user f (Map.get m k) ≤ sum_by f m
  unfolding sum_by Map.get
  user-le-sum k [] = omega arith
  user-le-sum k ((j, u) ∷ m) = ground (arith, user-le-sum k m)

  pub sum_by-le :
      (g : User → ℕ) (m : Map String User) → ((u : User) → f u ≤ g u) → sum_by f m ≤ sum_by g m
  unfolding sum_by
  sum_by-le g [] le = omega arith
  sum_by-le g ((j, u) ∷ m) le = ground (arith, sum_by-le g m le, le u)

pub given-le-delegated :
    (a : String) (m : Map String User) → sum_by (given_to a) m ≤ sum_by delegated m
given-le-delegated a m =
    sum_by-le (given_to a) delegated m (λ u. given-le-sum a u.delegated_amounts)

pub no_entries_sum :
    (a : String) (m : Map String User) → sum_by (entries_for a) m ≡ 0 → sum_by (given_to a) m ≡ 0
unfolding sum_by
no_entries_sum a [] e = refl
no_entries_sum a ((j, u) ∷ m) e =
    ground (arith, no_entries a u.delegated_amounts, no_entries_sum a m)
