-- ===== src/Throttle/Float64/Seconds.antt =====
-- The sizes of whole numbers, of seconds and of rates: none is zero or huge.
use gin_di.Throttle.Float64.Bounds.{round_in-half, round-le}
use native.Mathlib.Nat.{le_of_mul-le-mul_right, mul-le-mul_right, le-div_iff_mul-le}
use gin_di.Prelude.{ℕ, ◌+◌, ◌*◌, ◌/◌, ◌%◌, ◌≤◌, ◌<◌, ◌≡◌, ap, Bool-cases, ltb, inl, inr, arith}
use gin_di.Throttle.Float64.{mul, ceil, one, round_in, round, of_int, add, div, seconds}

pub one-ge : 18_446_744_073_709_551_616 ≤ one
unfolding one
one-ge = omega arith

of_int-le : (n : ℕ) → of_int n ≤ n * one * 2 + 1
unfolding of_int
of_int-le n = omega (arith, round-le (n * one) 1 (omega arith))

of_int-half : (n : ℕ) → 0 < n → n * one ≤ of_int n * 2
unfolding of_int round
of_int-half n h = omega (
  arith,
  round_in-half 2_098 (n * one) 1 (omega arith)
      (omega (arith, one-ge, mul-le-mul_right {m = 1} {n = n} one h)),
)

-- A float64 that is not tiny, times 1, is above all that are not huge.
wide : (a b : ℕ) → one ≤ a * 2 → b ≤ 18_446_744_073_709_551_616 * one → b ≤ a * one * 2
wide a b h c = omega (
  arith,
  mul-le-mul_right {m = 18_446_744_073_709_551_616} {n = one} one one-ge,
  mul-le-mul_right {m = one} {n = a * 2} one h,
)

pub div-positive :
    (a b : ℕ) → one ≤ a * 2 → 0 < b → b * 2 ≤ 18_446_744_073_709_551_616 * one → 0 < div a b
unfolding div round
div-positive a b h p c = elim (Bool-cases (ltb 0 (round_in 2_098 (a * one) b))) [
  | inl d ↦ ground arith
  | inr d ↦
      let zero_it : round_in 2_098 (a * one) b ≡ 0 = ground arith in
      absurd (
        omega (
          arith,
          wide a (b * 2) h c,
          round_in-half 2_098 (a * one) b p (omega (arith, wide a (b * 2) h c)),
          ap (λ (r : ℕ). r * b) zero_it,
        ))
]

billion-positive : 0 < of_int 1_000_000_000
billion-positive = omega (arith, one-ge, of_int-half 1_000_000_000 (omega arith))

nanoseconds-le : (r : ℕ) → r < 1_000_000_000 → div (of_int r) (of_int 1_000_000_000) ≤ one * 8 + 1
unfolding div
nanoseconds-le r h = le_of_mul-le-mul_right {k = of_int 1_000_000_000} below billion-positive
  where
    share : of_int r ≤ of_int 1_000_000_000 * 4
    share = omega (
      arith,
      one-ge,
      of_int-le r,
      mul-le-mul_right {m = r + 1} {n = 1_000_000_000} one (omega arith),
      of_int-half 1_000_000_000 (omega arith),
    )

    below :
        round (of_int r * one) (of_int 1_000_000_000) * of_int 1_000_000_000
        ≤ (one * 8 + 1) * of_int 1_000_000_000
    below = omega (
      arith,
      round-le (of_int r * one) (of_int 1_000_000_000) billion-positive,
      mul-le-mul_right one share,
    )

seconds-le :
    (d : ℕ) → d < 9_223_372_036_854_775_808 → seconds d * 2 ≤ 18_446_744_073_709_551_616 * one
unfolding seconds add
seconds-le d h = omega (
  arith,
  one-ge,
  round-le (of_int (d / 1_000_000_000) + div (of_int (d % 1_000_000_000)) (of_int 1_000_000_000)) 1
      (omega arith),
  of_int-le (d / 1_000_000_000),
  mul-le-mul_right {m = d / 1_000_000_000} {n = 9_223_372_037} one (omega arith),
  nanoseconds-le (d % 1_000_000_000) (omega arith),
)

round-positive : (p : ℕ) → 0 < p → 0 < round p 1
unfolding round
round-positive p h = omega (arith, round_in-half 2_098 p 1 (omega arith) (omega arith))

of_int-positive : (n : ℕ) → 0 < n → 0 < of_int n
of_int-positive n h = omega (arith, one-ge, of_int-half n h, mul-le-mul_right {m = 1} {n = n} one h)

nanoseconds-positive : (r : ℕ) → 0 < r → 0 < div (of_int r) (of_int 1_000_000_000)
nanoseconds-positive r h =
    div-positive (of_int r) (of_int 1_000_000_000)
      (omega (arith, of_int-half r h, mul-le-mul_right {m = 1} {n = r} one h)) billion-positive
      (omega (arith, one-ge, of_int-le 1_000_000_000))

seconds-positive : (d : ℕ) → 0 < d → 0 < seconds d
unfolding seconds add
seconds-positive d h = elim (Bool-cases (ltb 0 (d % 1_000_000_000))) [
  | inl c ↦
      let part : 0 < div (of_int (d % 1_000_000_000)) (of_int 1_000_000_000) =
        nanoseconds-positive (d % 1_000_000_000) (ground arith) in
      round-positive _ (omega (arith, part))
  | inr c ↦
      let whole : 0 < of_int (d / 1_000_000_000) =
        of_int-positive (d / 1_000_000_000) (ground arith) in
      round-positive _ (omega (arith, whole))
]

-- The quotient of a positive whole number and of the seconds of a positive duration is positive.
pub div-seconds-positive :
    (n d : ℕ) → 0 < n → 0 < d → d < 9_223_372_036_854_775_808 → 0 < div (of_int n) (seconds d)
div-seconds-positive n d h p b =
    div-positive (of_int n) (seconds d)
      (omega (arith, of_int-half n h, mul-le-mul_right {m = 1} {n = n} one h))
      (seconds-positive d p) (seconds-le d b)

seconds-ge : (d : ℕ) → 1_000_000_000 ≤ d → one ≤ seconds d * 4
unfolding seconds add round
seconds-ge d h =
    let whole : one ≤ of_int (d / 1_000_000_000) * 2 = omega (
      arith,
      of_int-half (d / 1_000_000_000) (omega arith),
      mul-le-mul_right {m = 1} {n = d / 1_000_000_000} one (omega arith),
    ) in
    let some_time : 1
        ≤ of_int (d / 1_000_000_000) + div (of_int (d % 1_000_000_000)) (of_int 1_000_000_000) =
      omega (arith, one-ge, whole) in
    omega (
      arith,
      whole,
      round_in-half 2_098
          (of_int (d / 1_000_000_000) + div (of_int (d % 1_000_000_000)) (of_int 1_000_000_000)) 1
          (omega arith) some_time,
    )

-- A refill is not huge where the window is a second or longer.
pub div-seconds-le :
    (n d : ℕ)
    → n < 9_007_199_254_740_992
    → 1_000_000_000 ≤ d
    → div (of_int n) (seconds d) * 2 ≤ 18_446_744_073_709_551_616 * one
unfolding div
div-seconds-le n d b p =
    omega (arith, one-ge, le_of_mul-le-mul_right {k = seconds d} below positive)
  where
    positive : 0 < seconds d
    positive = seconds-positive d (omega arith)

    share : of_int n ≤ seconds d * 72_057_594_037_927_936
    share = omega (
      arith,
      one-ge,
      of_int-le n,
      mul-le-mul_right {m = n + 1} {n = 9_007_199_254_740_992} one (omega arith),
      seconds-ge d p,
    )

    below :
        round (of_int n * one) (seconds d) * seconds d
        ≤ (one * 144_115_188_075_855_872 + 1) * seconds d
    below =
        omega (arith, round-le (of_int n * one) (seconds d) positive, mul-le-mul_right one share)

-- Any time that is not none is rounded up to some nanoseconds.
pub ceil-mul-positive : (t : ℕ) → 0 < t → 0 < ceil (mul t (of_int 1_000_000_000))
unfolding ceil mul round
ceil-mul-positive t h =
    (le-div_iff_mul-le {k = one} {x = 1} (omega (arith, one-ge))).1 (omega (arith, some_part))
  where
    product : one ≤ t * of_int 1_000_000_000
    product = omega (
      arith,
      of_int-half 1_000_000_000 (omega arith),
      mul-le-mul_right {m = 1} {n = t} (of_int 1_000_000_000) h,
    )

    some_part : 0 < round_in 2_098 (t * of_int 1_000_000_000) one
    some_part = elim (Bool-cases (ltb 0 (round_in 2_098 (t * of_int 1_000_000_000) one))) [
      | inl d ↦ ground arith
      | inr d ↦
          let zero_it : round_in 2_098 (t * of_int 1_000_000_000) one ≡ 0 = ground arith in
          absurd (
            omega (
              arith,
              one-ge,
              product,
              round_in-half 2_098 (t * of_int 1_000_000_000) one (omega (arith, one-ge)) product,
              ap (λ (r : ℕ). r * one) zero_it,
            ))
    ]
