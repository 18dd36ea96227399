-- ===== src/Decimal.antt =====
-- `Display` of a `u64`: its decimal digits, at most twenty.
use Prim.Native.Nat.{◌%◌}
use Prim.Native.String.{slice, ◌++◌ as append}
use sputnik_dao_contract.Base.{
  ℕ, zero, suc, ◌/◌, ◌*◌, ◌<◌, ◌≤◌, ◌≡◌, String, ltb, if◌then◌else◌, ap, arith,
}
use sputnik_dao_contract.Result.{u64_mod}

digit : ℕ → String
digit n = slice "0123456789" (n % 10) (suc (n % 10))

unfoldable pub decimal_from : ℕ → ℕ → String → String
unfolding digit
decimal_from zero n tail = tail
decimal_from (suc fuel) n tail =
    let rest = decimal_from fuel (n / 10) (append (digit n) tail) in
    if ltb n 10 then append (digit n) tail else rest

-- `10 * 10 * ...`
power_of_ten : ℕ → ℕ
power_of_ten zero = 1
power_of_ten (suc n) = 10 * power_of_ten n

-- With as many steps as a number has digits, further ones change nothing.
decimal_from_enough :
    (steps more n : ℕ) (tail : String)
    → steps ≤ more
    → n < power_of_ten (suc steps)
    → decimal_from (suc more) n tail ≡ decimal_from (suc steps) n tail
unfolding decimal_from power_of_ten
decimal_from_enough zero more n tail le lt = ground arith
decimal_from_enough (suc steps) zero n tail le lt = ground arith
decimal_from_enough (suc steps) (suc more) n tail le lt =
    ap (λ rest. if ltb n 10 then append (digit n) tail else rest)
      (decimal_from_enough steps more (n / 10) (append (digit n) tail) (omega (arith, le))
        (omega (arith, lt)))

unfoldable pub u64_to_string : ℕ → String
unfolding decimal_from
u64_to_string n = decimal_from 20 n ""

-- Twenty steps are enough for a 64-bit number: more of them give the same text.
u64_to_string_enough :
    (n steps : ℕ) → n < u64_mod → 20 ≤ steps → decimal_from steps n "" ≡ u64_to_string n
unfolding u64_to_string power_of_ten
u64_to_string_enough n zero lt le = ground arith
u64_to_string_enough n (suc more) lt le =
    decimal_from_enough 19 more n "" (omega (arith, le)) (omega (arith, lt))
