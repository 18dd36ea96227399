-- ===== src/Dao/Policy/Thresholds.antt =====
-- How many votes the thresholds of sputnikdao2/src/policy.rs ask for.
use sputnik_dao_contract.Base.{ℕ, ◌+◌, ◌-◌, ◌*◌, ◌/◌, ◌≤◌, ◌<◌, min, ◌≡◌, ◌⊎◌, arith}
use sputnik_dao_contract.Result.{ok, err, u128_mod, div_by_zero}
use sputnik_dao_contract.Dao.Data.{WeightOrRatio, weight, ratio}
use sputnik_dao_contract.Dao.Policy.Status.{to_weight}

div-le_self : (a d : ℕ) → a / d ≤ a
div-le_self a d = grind arith

lt-div-suc : (a d : ℕ) → 0 < d → a < (a / d + 1) * d
lt-div-suc a d h = grind arith

lt_of_above :
    (a d q total n : ℕ) → a < (q + 1) * d → n ≡ min (q + 1) total → (n ≡ total) ⊎ (a < n * d)
lt_of_above a d q total n h e = grind arith

-- A ratio's threshold, where the product fits in 128 bits and the denominator is not zero.
pub to_weight-ratio :
    (num denom total : ℕ)
    → 0 < denom
    → num * total + 1 < u128_mod
    → to_weight (ratio num denom) total ≡ ok (min (num * total / denom + 1) total)
unfolding to_weight
to_weight-ratio num denom total pos fits = ground (arith, div-le_self (num * total) denom)

pub to_weight-zero_denom :
    (num total : ℕ) → num * total < u128_mod → to_weight (ratio num 0) total ≡ err div_by_zero
unfolding to_weight
to_weight-zero_denom num total fits = ground arith

-- No threshold asks for more than the total weight.
pub to_weight-le-total :
    (w : WeightOrRatio) (total : ℕ) {n : ℕ} → to_weight w total ≡ ok n → n ≤ total
unfolding to_weight
to_weight-le-total (weight w) total h = ground arith
to_weight-le-total (ratio num denom) total h = ground arith

one_less : (a d q total n : ℕ) → q * d ≤ a → n ≡ min (q + 1) total → (n - 1) * d ≤ a
one_less a d q total n h e = grind arith

div-mul-le : (a d : ℕ) → 0 < d → a / d * d ≤ a
div-mul-le a d h = grind arith

-- The number of votes that a ratio's threshold asks for is no more than the whole weight, and is
-- the whole weight or more than the ratio of it; one vote fewer is no more than the ratio.
pub to_weight-exceeds :
    (num denom total : ℕ) {n : ℕ}
    → to_weight (ratio num denom) total ≡ ok n
    → (n ≤ total) × ((n ≡ total) ⊎ (num * total < n * denom)) × ((n - 1) * denom ≤ num * total)
unfolding to_weight
to_weight-exceeds num denom total {n} h =
    let positive : 0 < denom = ground arith in
    let least : n ≡ min (num * total / denom + 1) total = ground arith in
    (
      omega (arith, least),
      lt_of_above (num * total) denom (num * total / denom) total n
          (lt-div-suc (num * total) denom positive) least,
      one_less (num * total) denom (num * total / denom) total n
          (div-mul-le (num * total) denom positive) least,
    )

-- A ratio of a positive weight asks for a vote at least.
pub to_weight-pos :
    (num denom total : ℕ) {n : ℕ} → to_weight (ratio num denom) total ≡ ok n → 0 < total → 0 < n
unfolding to_weight
to_weight-pos num denom total h p = ground arith
