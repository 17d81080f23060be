-- ===== src/Settings/Jwt.antt =====
-- configs/jwt.go.
use gin_di.Prelude.{
  ℕ, zero, suc, ◌+◌, ◌-◌, ◌*◌, ◌/◌, ◌%◌, ◌^◌, ◌≤◌, ◌<◌, Text, codes, same, same_refl, same_iff,
  ne_of_same, List, [], ◌∷◌, ◌++◌, map, append-nil, append_assoc, Option, none, some, Option-cases,
  Bool, true, false, not, ◌&&◌, ◌||◌, Bool-cases, ltb, leb, ◌==◌, if◌then◌else◌, ◌≡◌, ◌≢◌, ◌↔◌,
  refl, sym, ap, subst, ◌∙◌, ◌⊎◌, inl, inr, length, All, lookup, has, put, delete, lookup-put,
  Result, ok, err, Result-cases, ok_inj, err_not_ok, arith,
}
use gin_di.Http.Errors.{GoError, plain}
use gin_di.Prelude.Int.{ℤ, pos, negsuc, is_non_positive, mul_int64}
use gin_di.Settings.Env.{Environment, env_text, env_int}
pub mod Safe
mod Tests

abbrev pub min_secret_key_length : ℕ
min_secret_key_length = 32

abbrev pub missing_jwt_secret : GoError
missing_jwt_secret = plain (codes "JWT_SECRET is not set")

abbrev empty_jwt_issuer : GoError
empty_jwt_issuer = plain (codes "JWT_ISSUER must not be empty")

pub record JwtConfig : Type 0 where
  pub secret_key : Text
  pub issuer : Text
  -- A time.Duration: nanoseconds in an int of 64 bits.
  pub ttl : ℤ

-- `JwtConfig.validate`: the first problem, or none.
unfoldable pub check_jwt : JwtConfig → Option GoError
check_jwt config =
    if length config.secret_key == 0
    then some missing_jwt_secret
    else (if ltb (length config.secret_key) min_secret_key_length
        then some (plain (codes "JWT_SECRET must be at least 32 bytes"))
        else (if same config.issuer []
            then some empty_jwt_issuer
            else (if is_non_positive config.ttl
                then some (plain (codes "JWT_TTL must be a positive number of seconds"))
                else none)))

abbrev second : ℕ
second = 1_000_000_000

-- The settings before they are checked.
unfoldable pub read_jwt : Environment → JwtConfig
read_jwt env = record {
  secret_key = env_text env (codes "JWT_SECRET") [];
  issuer = env_text env (codes "JWT_ISSUER") (codes "github@islamsamy214");
  ttl = mul_int64 (env_int env (codes "JWT_TTL") (pos 86_400)) second;
}

abbrev pub checked : {A : Type 0} → (A → Option GoError) → A → Result GoError A
checked check config = elim (check config) [ some e ↦ err e | none ↦ ok config ]

unfoldable pub new_jwt_config : Environment → Result GoError JwtConfig
new_jwt_config env = checked check_jwt (read_jwt env)
