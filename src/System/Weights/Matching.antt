-- ===== src/System/Weights/Matching.antt =====
-- What each change of the staking contract's users does to the weights that they ask for.
use sputnik_dao_contract.Base.{
  ℕ, ◌+◌, ◌-◌, ◌≤◌, ◌≡◌, sym, ◌∙◌, ap, String, Option, none, some, [], ◌∷◌, ◌++◌, ◌==◌, string_key,
  if◌then◌else◌, nat_beq, eq_iff, arith,
}
use sputnik_dao_contract.Map
use sputnik_dao_contract.Map.{Map, get-insert}
use sputnik_dao_contract.Dao.Delegation.Ledger.{Ledger}
use sputnik_dao_contract.Staking.User.{User, find_delegate, remove_delegate, set_delegate}
use sputnik_dao_contract.Staking.Users.{sum_delegated, sum_delegated-append}
use sputnik_dao_contract.Staking.Sums.{
  given_in, given_to, entries_for, delegated, of_user, sum_by, sum_by-insert, no_entries_sum,
  given-append,
}
use sputnik_dao_contract.System.Weights.{weight_of, Matches}
use sputnik_dao_contract.System.Weights.Changes.{took_given, took_sum}

abbrev some_if : Option User → ℕ → Option ℕ
some_if none g = none
some_if (some u) g = some g

-- The weight that an account is to have after a registered user's delegations changed.
weight_after :
    (a k : String) (u v : User) (users : Map String User) (g : ℕ)
    → Map.get users k ≡ some u
    → sum_by (given_to a) (Map.insert k v users) ≡ g
    → weight_of a (Map.insert k v users) (Map.get (Map.insert k v users) a)
      ≡ some_if (Map.get users a) g
weight_after a k u v users g found e = ground (arith, get-insert k a v users, found, eq_iff k a)

weight_before :
    (a : String) (users : Map String User)
    → weight_of a users (Map.get users a) ≡ some_if (Map.get users a) (sum_by (given_to a) users)
weight_before a users = ground arith

module _ (users : Map String User) (l : Ledger) (m : Matches users l) where
  pub paid-Matches :
      (k : String) (u v : User)
      → Map.get users k ≡ some u
      → v.delegated_amounts ≡ u.delegated_amounts
      → Matches (Map.insert k v users) l
  paid-Matches k u v found kept = record {
    weights = λ a.
        let q : given_to a v ≡ given_to a u = ap (given_in a) kept in
        m.weights a
        ∙ weight_before a users
        ∙ sym (
            weight_after a k u v users (sum_by (given_to a) users) found (
              omega
                (arith, sum_by-insert (given_to a) k v users, ap (of_user (given_to a)) found)));
    total =
        let q : delegated v ≡ delegated u = ap sum_delegated kept in
        omega (arith, m.total, sum_by-insert delegated k v users, ap (of_user delegated) found);
  }

  pub joined-Matches :
      (k : String) (u : User)
      → Map.get users k ≡ none
      → u.delegated_amounts ≡ []
      → sum_by (entries_for k) users ≡ 0
      → Matches (Map.insert k u users) (record l { weights = Map.insert k 0 l.weights })
  unfolding given_in sum_delegated
  joined-Matches k u new clear unknown = record {
    weights = λ a.
        let q : given_to a u ≡ 0 = ap (given_in a) clear in
        ground (
          arith,
          get-insert k a 0 l.weights,
          get-insert k a u users,
          m.weights a,
          sum_by-insert (given_to a) k u users,
          new,
          no_entries_sum k users unknown,
          eq_iff k a,
        );
    total =
        let q : delegated u ≡ 0 = ap sum_delegated clear in
        omega (arith, m.total, sum_by-insert delegated k u users, ap (of_user delegated) new);
  }

  pub gave-Matches :
      (k d : String) (n : ℕ) (u v w : User)
      → Map.get users k ≡ some u
      → Map.get users d ≡ some w
      → v.delegated_amounts ≡ u.delegated_amounts ++ (d, n) ∷ []
      → Matches (Map.insert k v users) (record {
        weights = Map.insert d (sum_by (given_to d) users + n) l.weights;
        total = l.total + n;
      })
  gave-Matches k d n u v w found there added = record {
    weights = λ a.
        let q : given_to a v ≡ given_in a (u.delegated_amounts ++ (d, n) ∷ []) =
          ap (given_in a) added in
        let given : sum_by (given_to a) (Map.insert k v users)
            ≡ sum_by (given_to a) users + (if d == a then n else 0) =
          omega (
            arith,
            sum_by-insert (given_to a) k v users,
            ap (of_user (given_to a)) found,
            given-append a d n u.delegated_amounts,
          ) in
        after a ∙ sym (weight_after a k u v users _ found given);
    total =
        let q : delegated v ≡ sum_delegated (u.delegated_amounts ++ (d, n) ∷ []) =
          ap sum_delegated added in
        omega (
          arith,
          m.total,
          sum_by-insert delegated k v users,
          ap (of_user delegated) found,
          sum_delegated-append u.delegated_amounts d n,
        );
  }
    where
      after :
          (a : String)
          → Map.get (Map.insert d (sum_by (given_to d) users + n) l.weights) a
            ≡ some_if (Map.get users a) (sum_by (given_to a) users + (if d == a then n else 0))
      after a = ground (
        arith,
        get-insert d a (sum_by (given_to d) users + n) l.weights,
        m.weights a,
        weight_before a users,
        there,
        eq_iff d a,
      )

  pub took-Matches :
      (k d : String) (n e : ℕ) (u v w : User)
      → Map.get users k ≡ some u
      → Map.get users d ≡ some w
      → find_delegate d u.delegated_amounts ≡ some e
      → n ≤ e
      → v.delegated_amounts ≡ (
          if nat_beq e n
          then remove_delegate d u.delegated_amounts
          else set_delegate d (e - n) u.delegated_amounts)
      → Matches (Map.insert k v users) (record {
        weights = Map.insert d (sum_by (given_to d) users - n) l.weights;
        total = l.total - n;
      })
  took-Matches k d n e u v w found there had le left = record {
    weights = λ a. after a ∙ sym (weight_after a k u v users _ found (given a));
    total =
        let q : delegated v ≡ _ = ap sum_delegated left in
        omega (
          arith,
          m.total,
          sum_by-insert delegated k v users,
          ap (of_user delegated) found,
          took_sum d n e u.delegated_amounts had le,
        );
  }
    where
      given :
          (a : String)
          → sum_by (given_to a) (Map.insert k v users)
            ≡ sum_by (given_to a) users - (if d == a then n else 0)
      given a =
          let q : given_to a v ≡ _ = ap (given_in a) left in
          omega (
            arith,
            sum_by-insert (given_to a) k v users,
            ap (of_user (given_to a)) found,
            took_given a d n e u.delegated_amounts had le,
          )

      after :
          (a : String)
          → Map.get (Map.insert d (sum_by (given_to d) users - n) l.weights) a
            ≡ some_if (Map.get users a) (sum_by (given_to a) users - (if d == a then n else 0))
      after a = ground (
        arith,
        get-insert d a (sum_by (given_to d) users - n) l.weights,
        m.weights a,
        weight_before a users,
        there,
        eq_iff d a,
      )
