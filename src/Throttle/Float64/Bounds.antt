-- ===== src/Throttle/Float64/Bounds.antt =====
-- How far rounding goes: a quotient is not rounded below a power of two that it reaches, nor to more
-- than its double.
use native.Mathlib.Nat.{div-add-mod', add-mul, lt-div-mul-add, mul-le-mul_right, le-div_iff_mul-le}
use gin_di.Prelude.{
  ℕ, zero, suc, ◌+◌, ◌*◌, ◌/◌, ◌%◌, ◌≤◌, ◌<◌, ◌≡◌, refl, true, Bool-cases, ltb, inl, inr, ◌⊎◌,
  arith,
}
use gin_di.Throttle.Float64.{significands, half_even, round_in, round}

half_even-ge : (p q : ℕ) → p / q ≤ half_even p q
unfolding half_even
half_even-ge p q = ground arith

carried : (p q j : ℕ) → (j ≡ 0) ⊎ ((j ≡ 1) × (q ≤ p % q * 2)) → (p / q + j) * q * 2 ≤ p * 2 + q
carried p q j (inl e) = rw e (omega (arith, div-add-mod' p q))
carried p q j (inr (e, h)) = rw e (omega (arith, div-add-mod' p q, add-mul (p / q) 1 q))

half_even-cases :
    (p q : ℕ) → (j : ℕ) × (half_even p q ≡ p / q + j) × ((j ≡ 0) ⊎ ((j ≡ 1) × (q ≤ p % q * 2)))
unfolding half_even
half_even-cases p q = elim (Bool-cases (ltb (p % q * 2) q)) [
  | inl a ↦ (0, rw (half_even, a) (omega arith), inl refl)
  | inr a ↦ elim (Bool-cases (ltb q (p % q * 2))) [
    | inl b ↦ (1, rw (half_even, a, b) refl, inr (refl, ground arith))
    | inr b ↦ (p / q % 2, rw (half_even, a, b) refl, even_or_odd (p / q) (p % q * 2) (ground arith))
  ]
]
  where
    even_or_odd : (d r : ℕ) → q ≤ r → (d % 2 ≡ 0) ⊎ ((d % 2 ≡ 1) × (q ≤ r))
    even_or_odd d r h = elim (Bool-cases (ltb (d % 2) 1)) [
      | inl c ↦ inl (ground arith)
      | inr c ↦ inr (ground arith, h)
    ]

half_even-le : (p q : ℕ) → half_even p q * q * 2 ≤ p * 2 + q
half_even-le p q = let (j, e, h) = half_even-cases p q in rw e (carried p q j h)

round_in-le : (fuel p q : ℕ) → 0 < q → q ≤ p * 2 → round_in fuel p q * q ≤ p * 2
unfolding round_in significands
round_in-le zero p q h b = omega (arith, half_even-le p q)
round_in-le (suc fuel) p q h b = elim (Bool-cases (ltb p (significands * q))) [
  | inl c ↦ rw (round_in, c) (omega (arith, half_even-le p q))
  | inr c ↦ rw (round_in, c) (ground (arith, round_in-le fuel p (q * 2)))
]

-- And not to less than its half.
half_even-half : (p q : ℕ) → 0 < q → q ≤ p → p ≤ half_even p q * q * 2
half_even-half p q h b = omega (
  arith,
  lt-div-mul-add {a = p} {b = q} h,
  mul-le-mul_right {m = p / q} {n = half_even p q} q (half_even-ge p q),
  mul-le-mul_right {m = 1} {n = p / q} q
      ((le-div_iff_mul-le {k = q} {x = 1} {y = p} h).1 (omega arith)),
)

pub round_in-half : (fuel p q : ℕ) → 0 < q → q ≤ p → p ≤ round_in fuel p q * q * 2
unfolding round_in significands
round_in-half zero p q h b = half_even-half p q h b
round_in-half (suc fuel) p q h b = elim (Bool-cases (ltb p (significands * q))) [
  | inl c ↦ rw (round_in, c) (half_even-half p q h b)
  | inr c ↦ rw (round_in, c) (ground (arith, round_in-half fuel p (q * 2)))
]

-- Without a condition on the quotient there is one unit more.
round_in-small : (fuel p q : ℕ) → ltb (p * 2) q ≡ true → round_in fuel p q * q ≤ p * 2 + q
unfolding round_in significands
round_in-small zero p q c = omega (arith, half_even-le p q)
round_in-small (suc fuel) p q c = elim (Bool-cases (ltb p (significands * q))) [
  | inl d ↦ rw (round_in, d) (omega (arith, half_even-le p q))
  | inr d ↦ absurd (ground arith)
]

pub round-le : (p q : ℕ) → 0 < q → round p q * q ≤ p * 2 + q
unfolding round
round-le p q h = elim (Bool-cases (ltb (p * 2) q)) [
  | inl c ↦ round_in-small 2_098 p q c
  | inr c ↦ let unit : q ≤ p * 2 = ground arith in omega (arith, round_in-le 2_098 p q h unit)
]
