-- ===== src/Settings/Jwt/Safe.antt =====
-- What the validation of the token settings accepts.
use gin_di.Prelude.{
  sym, ℕ, ◌*◌, ◌≤◌, Text, codes, same, same_iff, ne_of_same, [], Option, none, some, Option-cases,
  false, Bool-cases, ltb, ◌==◌, ◌≡◌, ◌≢◌, ◌↔◌, refl, subst, inl, inr, length, lookup, ok, ok_inj,
  err_not_ok, arith,
}
use gin_di.Http.Errors.{GoError}
use gin_di.Prelude.Int.{ℤ, pos, negsuc, pos_part, is_non_positive, mul_int64, to_int64}
use gin_di.Settings.Env.{Environment, env_int, atoi}
use gin_di.Settings.Jwt.{JwtConfig, check_jwt, read_jwt, new_jwt_config, checked}

-- A key of at least 256 bits, somebody who issues, and tokens that live.
abbrev pub IsSafe : JwtConfig → Type 0
IsSafe config = (32 ≤ length config.secret_key) × (config.issuer ≢ []) × (1 ≤ pos_part config.ttl)

refused : {A B : Type 0} {a : A} → some a ≡ none → B
refused h = cc

positive : (n : ℤ) → is_non_positive n ≡ false → 1 ≤ pos_part n
positive (pos n) h = ground arith
positive (negsuc n) h = cc

long_enough : (n : ℕ) → ltb n 32 ≡ false → 32 ≤ n
long_enough n h = ground arith

check_jwt-IsSafe : (config : JwtConfig) → check_jwt config ≡ none → IsSafe config
unfolding check_jwt
check_jwt-IsSafe config h = elim (Bool-cases (length config.secret_key == 0)) [
  | inl a ↦ refused (rw (check_jwt, a) at h)
  | inr a ↦ elim (Bool-cases (ltb (length config.secret_key) 32)) [
    | inl b ↦ refused (rw (check_jwt, a, b) at h)
    | inr b ↦ elim (Bool-cases (same config.issuer [])) [
      | inl c ↦ refused (rw (check_jwt, a, b, c) at h)
      | inr c ↦ elim (Bool-cases (is_non_positive config.ttl)) [
        | inl d ↦ refused (rw (check_jwt, a, b, c, d) at h)
        | inr d ↦ (
          long_enough (length config.secret_key) b,
          ne_of_same config.issuer [] c,
          positive config.ttl d,
        )
      ]
    ]
  ]
]

not_empty : (n : ℕ) → 32 ≤ n → (n == 0) ≡ false
not_empty n h = ground arith

not_short : (n : ℕ) → 32 ≤ n → ltb n 32 ≡ false
not_short n h = ground arith

filled : (s : Text) → s ≢ [] → same s [] ≡ false
filled s h = elim (Bool-cases (same s [])) [
  | inl e ↦ elim (h ((same_iff s []).0 e)) [ ]
  | inr e ↦ e
]

lives : (n : ℤ) → 1 ≤ pos_part n → is_non_positive n ≡ false
lives (pos n) h = ground arith
lives (negsuc n) h = ground arith

IsSafe-check_jwt : (config : JwtConfig) → IsSafe config → check_jwt config ≡ none
unfolding check_jwt
IsSafe-check_jwt config (long, issued, alive) =
    rw
      (
        check_jwt,
        not_empty (length config.secret_key) long,
        not_short (length config.secret_key) long,
        filled config.issuer issued,
        lives config.ttl alive,
      )
      refl

pub checked_ok :
    {A : Type 0} (check : A → Option GoError) (a b : A)
    → checked check a ≡ ok b
    → (check a ≡ none) × (a ≡ b)
checked_ok check a b h = elim (Option-cases (check a)) [
  | inl e ↦ (e, ok_inj (rw (checked, e) at h))
  | inr (x, e) ↦ err_not_ok (rw (checked, e) at h)
]

-- The token settings are the ones the environment gives, and they are accepted exactly if the key
-- has 32 bytes or more, the issuer is not empty and the lifetime is positive.
pub new_jwt_config_iff :
    (env : Environment) (config : JwtConfig)
    → (new_jwt_config env ≡ ok config) ↔ ((read_jwt env ≡ config) × IsSafe config)
unfolding new_jwt_config
new_jwt_config_iff env config = (λ h. safe (checked_ok check_jwt (read_jwt env) config h), accepted)
  where
    safe :
        (check_jwt (read_jwt env) ≡ none) × (read_jwt env ≡ config)
        → (read_jwt env ≡ config) × IsSafe config
    safe (passes, same_config) =
        (same_config, check_jwt-IsSafe config (subst (λ c. check_jwt c ≡ none) same_config passes))

    accepted : (read_jwt env ≡ config) × IsSafe config → new_jwt_config env ≡ ok config
    accepted (same_config, is_safe) =
        subst (λ c. checked check_jwt (read_jwt env) ≡ ok c) same_config
          (rw (checked, IsSafe-check_jwt (read_jwt env) (subst IsSafe (sym same_config) is_safe))
            refl)

small_product :
    (n : ℕ) → n ≤ 9_223_372_036 → mul_int64 (pos n) 1_000_000_000 ≡ pos (n * 1_000_000_000)
unfolding mul_int64 to_int64
small_product n h = ground arith

-- A lifetime that is configured as 0 to 9223372036 seconds is that number of seconds, without a wrap.
pub read_jwt_ttl :
    (env : Environment) (value : Text) (n : ℕ)
    → lookup (codes "JWT_TTL") env ≡ some value
    → atoi value ≡ some (pos n)
    → n ≤ 9_223_372_036
    → (read_jwt env).ttl ≡ pos (n * 1_000_000_000)
unfolding read_jwt env_int
read_jwt_ttl env value n found parses small =
    rw (read_jwt, env_int, found, parses) (small_product n small)
