-- ===== src/Throttle/Config/Usable.antt =====
-- A configuration that passes is one that the store limits with.
use gin_di.Prelude.{◌<◌, same, none, some, false, Bool-cases, ◌≡◌, refl, ◌⊎◌, inl, inr, arith}
use gin_di.Throttle.Config.{ThrottleConfig, validate, global_enabled, memory_store_driver}
use gin_di.Throttle.Limit.{Limit, IsUsable, refill_per_second}
use gin_di.Throttle.Memory.{new_memory_store}
use gin_di.Throttle.Memory.Bounds.{IsBounded}
use gin_di.Throttle.Float64.Seconds.{div-seconds-positive}
use gin_di.Prelude.Int.{pos_part, ℤ, pos, negsuc, is_non_positive, is_negative}

by_sign : (n : ℤ) → is_non_positive n ≡ false → 0 < pos_part n
by_sign (pos n) h = ground arith
by_sign (negsuc n) h = cc

-- A number of nanoseconds that a duration holds.
abbrev pub IsDuration : ℤ → Type 0
IsDuration d = pos_part d < 9_223_372_036_854_775_808

positive_part :
    (limit : Limit)
    → IsDuration limit.per
    → is_non_positive limit.per ≡ false
    → is_non_positive limit.requests ≡ false
    → IsUsable limit
unfolding refill_per_second
positive_part limit d p r =
    rw (refill_per_second, p, r)
      (div-seconds-positive (pos_part limit.requests) (pos_part limit.per)
        (by_sign limit.requests r) (by_sign limit.per p) d)

refused : {A B : Type 0} {a : A} → some a ≡ none → B
refused h = cc

checks :
    (config : ThrottleConfig)
    → validate config ≡ none
    → (is_non_positive config.overall.per ≡ false)
      × (is_non_positive config.login.requests ≡ false)
      × (is_non_positive config.max_keys ≡ false)
unfolding validate
checks config h = elim (Bool-cases (same config.store memory_store_driver)) [
  | inr a ↦ refused (rw (validate, a) at h)
  | inl a ↦ elim (Bool-cases (is_negative config.overall.requests)) [
    | inl b ↦ refused (rw (validate, a, b) at h)
    | inr b ↦ elim (Bool-cases (is_non_positive config.overall.per)) [
      | inl c ↦ refused (rw (validate, a, b, c) at h)
      | inr c ↦ elim (Bool-cases (is_non_positive config.login.requests)) [
        | inl d ↦ refused (rw (validate, a, b, c, d) at h)
        | inr d ↦ elim (Bool-cases (is_non_positive config.max_keys)) [
          | inl e ↦ refused (rw (validate, a, b, c, d, e) at h)
          | inr e ↦ (c, d, e)
        ]
      ]
    ]
  ]
]

-- Settings that pass the validation give usable limits, if the window of the login limit, which is
-- a constant of the program, is positive and both windows are durations, which they are as int64: the global limit is usable or its middleware is not
-- installed, the login limit is usable, and the store made for them is bounded by the configured
-- number of callers.
pub validate-IsUsable :
    (config : ThrottleConfig)
    → IsDuration config.overall.per
    → IsDuration config.login.per
    → is_non_positive config.login.per ≡ false
    → validate config ≡ none
    → ((global_enabled config ≡ false) ⊎ IsUsable config.overall)
      × IsUsable config.login
      × (pos (new_memory_store config.max_keys).max_keys ≡ config.max_keys)
      × IsBounded (new_memory_store config.max_keys)
unfolding new_memory_store
validate-IsUsable config overall_fits login_fits w h =
    let (per, login, keys) = checks config h in
    (
      enabled per,
      positive_part config.login login_fits w login,
      (kept config.max_keys keys).0,
      (kept config.max_keys keys).1,
    )
  where
    enabled :
        is_non_positive config.overall.per ≡ false
        → (global_enabled config ≡ false) ⊎ IsUsable config.overall
    enabled per = elim (Bool-cases (is_non_positive config.overall.requests)) [
      | inl e ↦ inl (rw (e) refl)
      | inr e ↦ inr (positive_part config.overall overall_fits per e)
    ]

    kept :
        (n : ℤ)
        → is_non_positive n ≡ false
        → (pos (new_memory_store n).max_keys ≡ n) × IsBounded (new_memory_store n)
    kept (pos n) e = rw (e) (refl, (ground arith, omega arith))
    kept (negsuc n) e = cc
