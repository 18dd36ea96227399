-- ===== src/Map.antt =====
-- Finite maps: `LookupMap` of near_sdk and `HashMap` of std, as association lists. An insertion
-- writes over the entry of its key where there is one, and a removal drops it.
use sputnik_dao_contract.Base.{
  ◌≡◌, refl, Option, none, some, List, [], ◌∷◌, Key, ◌==◌, beq_refl, if◌then◌else◌, arith,
}

abbrev pub Map : Type 0 → Type 0 → Type 0
Map K V = List (K × V)

module _ {K V : Type 0} ⦃e : Key K⦄ where
  unfoldable pub get : Map K V → K → Option V
  get [] k = none
  get ((j, v) ∷ m) k = if j == k then some v else get m k

  unfoldable pub insert : K → V → Map K V → Map K V
  insert k v [] = (k, v) ∷ []
  insert k v ((j, w) ∷ m) = if j == k then (k, v) ∷ m else (j, w) ∷ insert k v m

  unfoldable pub remove : K → Map K V → Map K V
  remove k [] = []
  remove k ((j, w) ∷ m) = if j == k then remove k m else (j, w) ∷ remove k m

  pub get-insert :
      (k j : K) (v : V) (m : Map K V) → get (insert k v m) j ≡ (if k == j then some v else get m j)
  unfolding get insert
  get-insert k j v [] = refl
  get-insert k j v ((i, w) ∷ m) =
      ground (arith, e.same_iff i k, e.same_iff i j, e.same_iff k j, get-insert k j v m)

  pub get-remove : (k j : K) (m : Map K V) → get (remove k m) j ≡ (if k == j then none else get m j)
  unfolding get remove
  get-remove k j [] = ground arith
  get-remove k j ((i, w) ∷ m) =
      ground (arith, e.same_iff i k, e.same_iff i j, e.same_iff k j, get-remove k j m)

  pub get-empty : (k : K) → get (let m : Map K V = [] in m) k ≡ none
  unfolding get
  get-empty k = refl

  pub get-insert_self : (k : K) (v : V) (m : Map K V) → get (insert k v m) k ≡ some v
  get-insert_self k v m = ground (arith, get-insert k k v m, beq_refl k)

  pub get-remove_self : (k : K) (m : Map K V) → get (remove k m) k ≡ none
  get-remove_self k m = ground (arith, get-remove k k m, beq_refl k)

module _ {K V : Type 0} ⦃e : Key K⦄ where
  pub insert-insert : (k : K) (v w : V) (m : Map K V) → insert k v (insert k w m) ≡ insert k v m
  unfolding insert
  insert-insert k v w [] = ground (arith, beq_refl k)
  insert-insert k v w ((j, u) ∷ m) = ground (arith, beq_refl k, insert-insert k v w m)

  -- Writing what is there changes nothing.
  pub insert-get : (k : K) (v : V) (m : Map K V) → get m k ≡ some v → insert k v m ≡ m
  unfolding insert get
  insert-get k v [] h = cc
  insert-get k v ((j, u) ∷ m) h = ground (arith, e.same_iff j k, insert-get k v m)

pub ruleset map_laws = (get-insert, get-remove, get-empty)
