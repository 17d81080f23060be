-- ===== src/Throttle/Float64.antt =====
-- The float64 of the rate limiter: Go's arithmetic of IEEE 754, on numbers that are not negative and do
-- not overflow. A number is counted in units of 2 ^ -1074, the least float64, so that sums and
-- differences are those of ℕ before they are rounded. A product and a sum are rounded one after the
-- other, as on amd64; Go lets other machines fuse them.
use gin_di.Prelude.{
  ℕ, zero, suc, ◌+◌, ◌-◌, ◌*◌, ◌/◌, ◌%◌, ◌^◌, Bool, true, false, ltb, if◌then◌else◌,
}
mod Bounds
pub mod Seconds
pub mod Exact

-- The number 1.
unfoldable pub one : ℕ
one = 2 ^ 1_074

-- One more than the largest significand.
unfoldable pub significands : ℕ
significands = 2 ^ 53

-- The quotient's nearest whole number, and of two that are as near the even one.
unfoldable pub half_even : ℕ → ℕ → ℕ
half_even p q =
    if ltb (p % q * 2) q
    then p / q
    else (if ltb q (p % q * 2) then p / q + 1 else p / q + p / q % 2)

-- Rounds a quotient to 53 bits: the units double until it has no more. The fuel is the number of
-- exponents, so it lasts for every quotient below 2 ^ 1024.
unfoldable pub round_in : ℕ → ℕ → ℕ → ℕ
round_in zero p q = half_even p q
round_in (suc fuel) p q = elim (ltb p (significands * q)) [
  | true ↦ half_even p q
  | false ↦ round_in fuel p (q * 2) * 2
]

unfoldable pub round : ℕ → ℕ → ℕ
round p q = round_in 2_098 p q

-- `float64(n)`
unfoldable pub of_int : ℕ → ℕ
of_int n = round (n * one) 1

-- `a + b`, `a - b` of b not above a, `a * b` and `a / b`.
unfoldable pub add : ℕ → ℕ → ℕ
add a b = round (a + b) 1

unfoldable pub sub : ℕ → ℕ → ℕ
sub a b = round (a - b) 1

unfoldable pub mul : ℕ → ℕ → ℕ
mul a b = round (a * b) one

unfoldable pub div : ℕ → ℕ → ℕ
div a b = round (a * one) b

-- `math.Ceil` as a whole number, and the conversion to an integer, which truncates.
unfoldable pub ceil : ℕ → ℕ
ceil a = (a + one - 1) / one

unfoldable pub truncate : ℕ → ℕ
truncate a = a / one

-- `Duration.Seconds`
unfoldable pub seconds : ℕ → ℕ
seconds d =
    add (of_int (d / 1_000_000_000)) (div (of_int (d % 1_000_000_000)) (of_int 1_000_000_000))
