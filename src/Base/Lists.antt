-- ===== src/Base/Lists.antt =====
-- Lists measured by native numbers, and lists read as sets.
use Prim.Native.Nat.{ℕ, zero, suc}
use mathlib.Core.Path.{◌≡◌, sym, ap}
use mathlib.Core.Logic.{◌⊎◌, inl, inr}
use mathlib.Core.Bool.{Bool, true, false, ◌||◌}
use mathlib.Core.Option.{Option, none, some}
use mathlib.Core.List.{List, [], ◌∷◌, map}
use native.Mathlib.Omega.{arith}
use sputnik_dao_contract.Base.Tests.{if◌then◌else◌, Bool-cases}
use sputnik_dao_contract.Base.Keys.{Key, ◌==◌, beq_true}

module _ {ℓ} {A : Type ℓ} where
  abbrev pub length : List A → ℕ
  length [] = 0
  length (x ∷ xs) = suc (length xs)

  abbrev pub get_elem? : List A → ℕ → Option A
  get_elem? [] i = none
  get_elem? (x ∷ xs) zero = some x
  get_elem? (x ∷ xs) (suc i) = get_elem? xs i

-- `HashSet`: a list without order that matters; an insertion of a member changes nothing.
module _ {ℓ} {A : Type ℓ} ⦃e : Key A⦄ where
  abbrev pub contains : List A → A → Bool
  contains [] a = false
  contains (x ∷ xs) a = x == a || contains xs a

  unfoldable pub set_insert : A → List A → List A
  set_insert a xs = if contains xs a then xs else a ∷ xs

  unfoldable pub set_remove : A → List A → List A
  set_remove a [] = []
  set_remove a (x ∷ xs) = if x == a then set_remove a xs else x ∷ set_remove a xs

  -- `into_iter().collect()`
  unfoldable pub collect_set : List A → List A
  unfolding set_insert
  collect_set [] = []
  collect_set (x ∷ xs) = set_insert x (collect_set xs)

  pub contains-set_insert :
      (a b : A) (xs : List A) → contains (set_insert a xs) b ≡ (a == b || contains xs b)
  unfolding set_insert
  contains-set_insert a b xs = ground (arith, e.same_iff a b)

  pub contains-set_remove :
      (a b : A) (xs : List A)
      → contains (set_remove a xs) b ≡ (if a == b then false else contains xs b)
  unfolding set_remove
  contains-set_remove a b [] = ground arith
  contains-set_remove a b (x ∷ xs) =
      ground (arith, e.same_iff x a, e.same_iff x b, e.same_iff a b, contains-set_remove a b xs)

-- Membership by recursion, which computes to sums of equations.
abbrev pub In : {A : Type 0} → A → List A → Type 0
In a [] = ⊥
In a (x ∷ xs) = (a ≡ x) ⊎ In a xs

module _ {A : Type 0} ⦃e : Key A⦄ where
  pub contains-In : (xs : List A) (a : A) → contains xs a ≡ true → In a xs
  contains-In [] a h = cc
  contains-In (x ∷ xs) a h = elim (Bool-cases (x == a)) [
    | inl same ↦ inl (sym (beq_true x a same))
    | inr other ↦ inr (contains-In xs a (ground arith))
  ]

  pub In-contains : (xs : List A) (a : A) → In a xs → contains xs a ≡ true
  In-contains [] a h = absurd h
  In-contains (x ∷ xs) a (inl same) = ground (arith, e.same_iff x a)
  In-contains (x ∷ xs) a (inr rest) = ground (arith, In-contains xs a rest)

module _ {A B : Type 0} where
  pub In-map : (f : A → B) (a : A) (xs : List A) → In a xs → In (f a) (map f xs)
  In-map f a [] h = absurd h
  In-map f a (x ∷ xs) (inl same) = inl (ap f same)
  In-map f a (x ∷ xs) (inr rest) = inr (In-map f a xs rest)
