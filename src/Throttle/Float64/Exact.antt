-- ===== src/Throttle/Float64/Exact.antt =====
-- A number that has 53 bits is not rounded.
use native.Mathlib.Nat.{mul-sub, mul-mod_left, mul-div_cancel, mul-lt-mul_of_pos_right, pow-suc}
use gin_di.Prelude.{
  ℕ, zero, suc, ◌-◌, ◌*◌, ◌^◌, ◌≤◌, ◌<◌, ◌≡◌, refl, ◌∙◌, ap, true, Bool-cases, ltb, inl, inr, arith,
}
use gin_di.Throttle.Float64.{one, significands, half_even, round_in, round, of_int, sub}

half_even-exact : (p q x : ℕ) → 0 < q → p ≡ x * q → half_even p q ≡ x
unfolding half_even
half_even-exact p q x h e = rw (e, half_even, mul-mod_left x q, below) (mul-div_cancel x {n = q} h)
  where
    below : ltb (0 * 2) q ≡ true
    below = ground arith

-- The case of a quotient with more bits: it is even.
doubles :
    (j m q p : ℕ)
    → m < 9_007_199_254_740_992
    → 0 < q
    → 9_007_199_254_740_992 * q ≤ p
    → p ≡ m * 2 ^ j * q
    → (i : ℕ) × (j ≡ suc i) × (p ≡ m * 2 ^ i * (q * 2))
doubles zero m q p b h big e =
    absurd
      (omega (arith, e, mul-lt-mul_of_pos_right {m = m} {n = 9_007_199_254_740_992} {k = q} b h))
doubles (suc i) m q p b h big e =
    (i, refl, e ∙ omega (arith, ap (λ (x : ℕ). m * x * q) (pow-suc 2 i)))

round_in-exact :
    (fuel j m q p : ℕ)
    → m < 9_007_199_254_740_992
    → 0 < q
    → p ≡ m * 2 ^ j * q
    → round_in fuel p q ≡ m * 2 ^ j
unfolding round_in significands
round_in-exact zero j m q p b h e = half_even-exact p q (m * 2 ^ j) h e
round_in-exact (suc fuel) j m q p b h e = elim (Bool-cases (ltb p (significands * q))) [
  | inl c ↦ rw (round_in, c) (half_even-exact p q (m * 2 ^ j) h e)
  | inr c ↦
      let (i, even, half) = doubles j m q p b h (ground arith) e in
      rw (round_in, c, even, round_in-exact fuel i m (q * 2) p b (omega arith) half)
        (omega (arith, ap (λ (x : ℕ). m * x) (pow-suc 2 i)))
]

-- Whole numbers below 2 ^ 53 are float64 numbers, and taking 1 from one of them is exact.
pub of_int-exact : (n : ℕ) → n < 9_007_199_254_740_992 → of_int n ≡ n * one
unfolding of_int round one
of_int-exact n b = round_in-exact 2_098 1_074 n 1 (n * 2 ^ 1_074) b (omega arith) (omega arith)

pub sub-exact : (n m : ℕ) → n < 9_007_199_254_740_992 → sub (n * one) (m * one) ≡ (n - m) * one
unfolding sub round one
sub-exact n m b =
    round_in-exact 2_098 1_074 (n - m) 1 (n * 2 ^ 1_074 - m * 2 ^ 1_074) (omega arith) (omega arith)
      (apart (2 ^ 1_074))
  where
    apart : (u : ℕ) → n * u - m * u ≡ (n - m) * u * 1
    apart u = omega (arith, mul-sub u n m)
