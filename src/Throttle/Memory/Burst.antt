-- ===== src/Throttle/Memory/Burst.antt =====
-- How many requests a caller is granted at one instant.
use native.Mathlib.Nat.{mul-le-mul_right}
use gin_di.Prelude.{
  ℕ, zero, suc, ◌+◌, ◌-◌, ◌*◌, ◌≤◌, ◌<◌, min, Text, same, same_iff, lookup, Distinct, List, [], ◌∷◌,
  Option, none, some, Bool, true, false, Bool-cases, ltb, leb, if◌then◌else◌, ◌≡◌, ◌≢◌, refl, sym,
  ap, subst, ◌∙◌, ◌⊎◌, inl, inr, arith,
}
use gin_di.Prelude.Int.{pos_part}
use gin_di.Throttle.Float64.{
  one, add, sub, div, of_int, seconds, round, round_in, half_even, significands,
}
use gin_di.Throttle.Float64.Seconds.{div-positive, div-seconds-le, one-ge, ceil-mul-positive}
use gin_di.Throttle.Float64.Exact.{of_int-exact, sub-exact}
use gin_di.Throttle.Limit.{Limit, IsUsable, burst, refill_per_second}
use gin_di.Throttle.Memory.{Bucket, MemoryStore, since, reset_at, seconds_to_duration}
use gin_di.Throttle.Memory.Alone.{
  Request, answers, HasRoom, risen, risen_at, left, after, Alone, done, forgets, refuses, spends,
  passes, answers-Alone,
}

-- How many requests of a history are the caller's own, and how many answers are grants.
unfoldable pub own : Text → List Request → ℕ
own k [] = 0
own k (r ∷ rs) = (if same r.caller k then 1 else 0) + own k rs

unfoldable pub granted : List Bool → ℕ
granted [] = 0
granted (b ∷ bs) = (if b then 1 else 0) + granted bs

-- All requests come at one time, those of the caller under one limit.
abbrev pub AtOnce : Text → Limit → ℕ → List Request → Type 0
AtOnce k limit now [] = Unit
AtOnce k limit now (r ∷ rs) =
    (r.now ≡ now) × (r.caller ≡ k → r.limit ≡ limit) × AtOnce k limit now rs

-- A limit with a window of at least a second and fewer requests than a float64 counts exactly.
abbrev pub IsCounted : Limit → Type 0
IsCounted limit =
    (pos_part limit.requests < 9_007_199_254_740_992) × (1_000_000_000 ≤ pos_part limit.per)

refill-div :
    (limit : Limit)
    → IsUsable limit
    → (refill_per_second limit
        ≡ div (of_int (pos_part limit.requests)) (seconds (pos_part limit.per)))
unfolding refill_per_second
refill-div limit u = ground arith

seconds_to_duration-positive : (t : ℕ) → 0 < t → 0 < seconds_to_duration t
unfolding seconds_to_duration
seconds_to_duration-positive t h = ground (arith, ceil-mul-positive t h)

-- While tokens are missing it takes time until all are there.
now-lt-reset_at :
    (limit : Limit) (now m : ℕ)
    → IsUsable limit
    → IsCounted limit
    → m < pos_part limit.requests
    → now < reset_at limit now (m * one)
unfolding reset_at
now-lt-reset_at limit now m u (few, window) h = omega (arith, seconds_to_duration-positive _ time)
  where
    missing : sub (burst limit) (m * one) ≡ (pos_part limit.requests - m) * one
    missing =
        ap (λ (b : ℕ). sub b (m * one)) (of_int-exact (pos_part limit.requests) few)
        ∙ sub-exact (pos_part limit.requests) m few

    time : 0 < div (sub (burst limit) (m * one)) (refill_per_second limit)
    time =
        div-positive (sub (burst limit) (m * one)) (refill_per_second limit)
          (omega (
            arith,
            missing,
            mul-le-mul_right {m = 1} {n = pos_part limit.requests - m} one (omega arith),
          ))
          u
          (omega (
            arith,
            refill-div limit u,
            div-seconds-le (pos_part limit.requests) (pos_part limit.per) few window,
          ))

no_time : ltb 0 (seconds 0) ≡ false
unfolding seconds add div of_int round round_in half_even significands one
no_time = refl

still : (now t : ℕ) → t ≡ now → ltb 0 (seconds (since now t)) ≡ false
still now t h = rw (none_since) no_time
  where
    none_since : since now t ≡ 0
    none_since = omega arith

-- The caller holds so many tokens, all of them if it has no bucket, and a bucket that is not full is
-- not due to be.
abbrev Holds : Limit → ℕ → ℕ → Option Bucket → Type 0
Holds limit now m none = m ≡ pos_part limit.requests
Holds limit now m (some e) =
    (m ≤ pos_part limit.requests)
    × (e.tokens ≡ m * one)
    × (e.seen_at ≡ now)
    × (m < pos_part limit.requests → now < e.full_at)

same_after :
    {limit : Limit} {now : ℕ} (held : Option Bucket) (r : Request)
    → r.limit ≡ limit
    → r.now ≡ now
    → after r.limit r.now held ≡ after limit now held
same_after {limit} {now} held r l t =
    ap (λ x. after x r.now held) l ∙ ap (λ x. after limit x held) t

same_request :
    {limit : Limit} {now : ℕ} (held : Option Bucket) (r : Request)
    → r.limit ≡ limit
    → r.now ≡ now
    → risen r.limit r.now held ≡ risen limit now held
same_request {limit} {now} held r l t =
    ap (λ x. risen x r.now held) l ∙ ap (λ x. risen limit x held) t

not_own : {k : Text} (j : Text) → j ≢ k → same j k ≡ false
not_own {k} j e = elim (Bool-cases (same j k)) [
  | inr a ↦ a
  | inl a ↦ absurd (e ((same_iff j k).0 a))
]

module _ (k : Text) (limit : Limit) (now : ℕ) (u : IsUsable limit) (counted : IsCounted limit) where
  -- No time has passed, so nothing has risen.
  risen-now :
      (m : ℕ) (held : Option Bucket) → Holds limit now m held → risen limit now held ≡ m * one
  risen-now m none h =
      of_int-exact (pos_part limit.requests) counted.0 ∙ ap (λ (n : ℕ). n * one) (sym h)
  risen-now m (some e) (le, tokens, seen, due) = rw (still now e.seen_at seen) tokens

  risen_at-now : (m : ℕ) (held : Option Bucket) → Holds limit now m held → risen_at now held ≡ now
  risen_at-now m none h = refl
  risen_at-now m (some e) (le, tokens, seen, due) = rw (still now e.seen_at seen) seen

  Holds-le : (m : ℕ) (held : Option Bucket) → Holds limit now m held → m ≤ pos_part limit.requests
  Holds-le m none h = omega arith
  Holds-le m (some e) (le, tokens, seen, due) = le

  has_token :
      (m : ℕ) (held : Option Bucket)
      → Holds limit now (suc m) held
      → leb one (risen limit now held) ≡ true
  has_token m held h =
      ground
        (arith, risen-now (suc m) held h, mul-le-mul_right {m = 1} {n = suc m} one (omega arith))

  has_none :
      (held : Option Bucket) → Holds limit now 0 held → leb one (risen limit now held) ≡ false
  has_none held h = ground (arith, risen-now 0 held h, one-ge)

  after-left :
      (m : ℕ) (held : Option Bucket)
      → m ≤ pos_part limit.requests
      → Holds limit now (suc m) held ⊎ ((m ≡ 0) × Holds limit now 0 held)
      → left (risen limit now held) ≡ m * one
  after-left m held le (inl h) = rw (has_token m held h) (
      ap (λ (n : ℕ). sub n one) (risen-now (suc m) held h)
      ∙ ap (λ (n : ℕ). sub (suc m * one) n) (omega arith)
      ∙ sub-exact (suc m) 1 (omega (arith, Holds-le (suc m) held h, counted.0))
      ∙ ap (λ (n : ℕ). n * one) (omega arith))
  after-left m held le (inr (e, h)) =
      rw (has_none held h) (risen-now 0 held h ∙ ap (λ (n : ℕ). n * one) (sym e))

  after-Holds :
      (m : ℕ) (held : Option Bucket)
      → Holds limit now (suc m) held ⊎ ((m ≡ 0) × Holds limit now 0 held)
      → Holds limit now m (some (after limit now held))
  after-Holds m held h =
      let (le, seen) = before h in
      let tokens = after-left m held le h in
      (
        le,
        tokens,
        seen,
        λ missing.
            subst (λ n. now < reset_at limit now n) (sym tokens)
              (now-lt-reset_at limit now m u counted missing),
      )
    where
      before :
          Holds limit now (suc m) held ⊎ ((m ≡ 0) × Holds limit now 0 held)
          → (m ≤ pos_part limit.requests) × (risen_at now held ≡ now)
      before (inl g) = (omega (arith, Holds-le (suc m) held g), risen_at-now (suc m) held g)
      before (inr (e, g)) = (omega arith, risen_at-now 0 held g)

  -- A bucket that is forgotten was full.
  forgotten-Holds :
      (m : ℕ) (e : Bucket) (t : ℕ)
      → e.full_at ≤ t
      → t ≡ now
      → Holds limit now m (some e)
      → Holds limit now m none
  forgotten-Holds m e t due at (le, tokens, seen, full) =
      elim (Bool-cases (ltb m (pos_part limit.requests))) [
        | inl c ↦ let early : now < e.full_at = full (ground arith) in absurd (omega (arith, early))
        | inr c ↦ ground arith
      ]

  -- A run at one instant grants as many of the caller's requests as there are tokens.
  Alone-granted :
      (held : Option Bucket) (rs : List Request) (bs : List Bool) (m : ℕ)
      → Alone k held rs bs
      → Holds limit now m held
      → AtOnce k limit now rs
      → granted bs ≡ min (own k rs) m
  unfolding granted own
  Alone-granted _ _ _ m (done held) h at = omega arith
  Alone-granted _ _ _ m (forgets e r rs bs due run) h (t, l, at) =
      Alone-granted none (r ∷ rs) bs m run (forgotten-Holds m e r.now due t h) (t, l, at)
  Alone-granted _ _ _ m (refuses held r rs bs mine empty run) h (t, l, at) =
      absurd (omega (arith, u, empty, ap refill_per_second (l mine)))
  Alone-granted _ _ _ zero (spends held r rs bs mine usable run) h (t, l, at) =
      rw (same_request held r (l mine) t, has_none held h, (same_iff r.caller k).1 mine)
        (omega (
          arith,
          Alone-granted _ rs bs 0 run
              (subst (λ b. Holds limit now 0 (some b)) (sym (same_after held r (l mine) t))
                (after-Holds 0 held (inr (refl, h))))
              at,
        ))
  Alone-granted _ _ _ (suc m) (spends held r rs bs mine usable run) h (t, l, at) =
      rw (same_request held r (l mine) t, has_token m held h, (same_iff r.caller k).1 mine)
        (omega (
          arith,
          Alone-granted _ rs bs m run
              (subst (λ b. Holds limit now m (some b)) (sym (same_after held r (l mine) t))
                (after-Holds m held (inl h)))
              at,
        ))
  Alone-granted _ _ _ m (passes held r rs bs other run) h (t, l, at) =
      rw (not_own r.caller other) (omega (arith, Alone-granted held rs bs m run h at))

  -- For a usable limit with a window of at least a second and less than 2 ^ 53 requests: of the
  -- requests that a caller, which the store does not know yet, sends at one instant under this limit,
  -- as many are granted as the limit says, or all if they are fewer, whatever others send at this
  -- instant while the store has room for them. The store has one bucket for a key. No rounding adds or takes one.
  pub burst-granted :
      (store : MemoryStore) (rs : List Request)
      → Distinct store.buckets
      → lookup k store.buckets ≡ none
      → HasRoom k store rs
      → AtOnce k limit now rs
      → granted (answers k store rs) ≡ min (own k rs) (pos_part limit.requests)
  burst-granted store rs d new room at =
      Alone-granted none rs (answers k store rs) (pos_part limit.requests)
        (subst (λ o. Alone k o rs (answers k store rs)) new (answers-Alone k store rs d room)) refl
        at
