-- ===== src/Factory/Consistency.antt =====
-- When a factory is consistent, and its lists and codes: sputnikdao-factory2/src/lib.rs.
use sputnik_dao_contract.Base.{
  ℕ, ◌≡◌, refl, String, false, some, List, [], ◌∷◌, ◌++◌, nat_key, string_key, contains, Bool-cases,
  inl, inr, eq_iff, ◌==◌, ◌||◌, arith,
}
use sputnik_dao_contract.Map
use sputnik_dao_contract.Map.{Map, get-insert, get-remove}
use sputnik_dao_contract.Factory.Data.{SputnikDaoFactory}
use sputnik_dao_contract.Factory.Methods.{add_dao, new}

-- No account is listed twice.
abbrev pub HasNoRepeats : List String → Type 0
HasNoRepeats [] = Unit
HasNoRepeats (x ∷ xs) = (contains xs x ≡ false) × HasNoRepeats xs

-- Every stored code stands under its hash.
pub record AreCodes (hash : List ℕ → ℕ) (codes : Map ℕ (List ℕ)) : Type 0 where
  pub hashed : (k : ℕ) (code : List ℕ) → Map.get codes k ≡ some code → hash code ≡ k

pub record IsConsistent (hash : List ℕ → ℕ) (f : SputnikDaoFactory) : Type 0 where
  pub daos : HasNoRepeats f.daos
  pub codes : AreCodes hash f.codes

pub contains-append :
    (xs : List String) (a b : String) → contains (xs ++ a ∷ []) b ≡ (contains xs b || a == b)
contains-append [] a b = ground arith
contains-append (x ∷ xs) a b = ground (arith, contains-append xs a b)

append-HasNoRepeats :
    (xs : List String) (a : String)
    → contains xs a ≡ false
    → HasNoRepeats xs
    → HasNoRepeats (xs ++ a ∷ [])
append-HasNoRepeats [] a n u = (refl, tt)
append-HasNoRepeats (x ∷ xs) a n u = (
  ground (arith, contains-append xs a x, eq_iff a x, eq_iff x a),
  append-HasNoRepeats xs a (ground arith) u.1,
)

pub add_dao-HasNoRepeats :
    (a : String) (xs : List String) → HasNoRepeats xs → HasNoRepeats (add_dao a xs)
unfolding add_dao
add_dao-HasNoRepeats a xs u = elim (Bool-cases (contains xs a)) [
  | inl old ↦ rw old u
  | inr new ↦ rw new (append-HasNoRepeats xs a new u)
]

module _ (hash : List ℕ → ℕ) where
  pub insert-AreCodes :
      (code : List ℕ) (codes : Map ℕ (List ℕ))
      → AreCodes hash codes
      → AreCodes hash (Map.insert (hash code) code codes)
  insert-AreCodes code codes a = record {
    hashed = λ k c e. ground (arith, get-insert (hash code) k code codes, a.hashed k c);
  }

  pub remove-AreCodes :
      (k : ℕ) (codes : Map ℕ (List ℕ)) → AreCodes hash codes → AreCodes hash (Map.remove k codes)
  remove-AreCodes k codes a = record {
    hashed = λ j c e. ground (arith, get-remove k j codes, a.hashed j c);
  }
