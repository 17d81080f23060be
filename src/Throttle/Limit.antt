-- ===== src/Throttle/Limit.antt =====
-- app/services/throttle/throttle.go: an allowance, and the outcome of spending from it.
-- Durations are nanoseconds, and a rate is a float64 in tokens per second.
use gin_di.Prelude.{ℕ, ◌<◌, Bool, Text, codes, ◌++◌, ◌||◌, if◌then◌else◌}
use gin_di.Throttle.Float64.{of_int, div, seconds}
use gin_di.Prelude.Int.{ℤ, pos_part, is_non_positive}

pub record Limit : Type 0 where
  pub name : Text
  pub requests : ℤ
  pub per : ℤ

unfoldable pub key : Limit → Text → Text
key limit identity = limit.name ++ codes "|" ++ identity

unfoldable pub refill_per_second : Limit → ℕ
refill_per_second limit =
    if is_non_positive limit.per || is_non_positive limit.requests
    then 0
    else div (of_int (pos_part limit.requests)) (seconds (pos_part limit.per))

-- A limit that the store spends from.
abbrev pub IsUsable : Limit → Type 0
IsUsable limit = 0 < refill_per_second limit

-- `float64(limit.Requests)`
abbrev pub burst : Limit → ℕ
burst limit = of_int (pos_part limit.requests)

pub record Decision : Type 0 where
  pub allowed : Bool
  pub limit : ℤ
  pub remaining : ℕ
  pub retry_after : ℤ
  pub reset_at : ℤ
