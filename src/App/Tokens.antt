-- ===== src/App/Tokens.antt =====
-- app/services/auth_service.go: access tokens. The JWT library is a parameter. Times are nanoseconds
-- from year one, the dates in a token are whole seconds.
use gin_di.Prelude.{
  ℕ, zero, suc, ◌+◌, ◌-◌, ◌*◌, ◌/◌, ◌%◌, ◌^◌, ◌≤◌, ◌<◌, Text, codes, same, same_refl, same_iff,
  ne_of_same, List, [], ◌∷◌, ◌++◌, map, append-nil, append_assoc, Option, none, some, Option-cases,
  Bool, true, false, not, ◌&&◌, ◌||◌, Bool-cases, ltb, leb, ◌==◌, if◌then◌else◌, ◌≡◌, ◌≢◌, ◌↔◌,
  refl, sym, ap, subst, ◌∙◌, ◌⊎◌, inl, inr, length, All, lookup, has, put, delete, lookup-put,
  Result, ok, err, Result-cases, ok_inj, err_not_ok, arith,
}
use gin_di.Http.Errors.{GoError, plain, wrap}
use gin_di.Http.Middlewares.{Claims}
use gin_di.Prelude.Int.{ℤ, pos, pos_part, ◌+ℤ◌}
use gin_di.Settings.Jwt.{JwtConfig}
pub mod Session
pub mod Sample
mod Tests

-- The claims of a token: `Claims` of the source, with the registered ones that are set.
pub record TokenClaims : Type 0 where
  pub user_id : ℤ
  pub username : Text
  pub expires_at : ℕ
  pub issued_at : ℕ
  pub issuer : Text

-- jwt.WithValidMethods, jwt.WithIssuer, jwt.WithExpirationRequired.
pub record ParserOptions : Type 0 where
  pub valid_methods : List Text
  pub issuer : Text
  pub expiration_required : Bool

-- golang-jwt: signing under a method with a key, and parsing at a time, where `none` says that the
-- token's claims are of another type. `encodable` is valid UTF-8, which JSON keeps.
pub record JwtLibrary : Type 0 where
  pub sign : Text → Text → TokenClaims → Result GoError Text
  pub parse : ParserOptions → Text → ℕ → Text → Result GoError (Option TokenClaims)
  pub encodable : Text → Bool

abbrev pub hs256 : Text
hs256 = codes "HS256"

abbrev second : ℕ
second = 1_000_000_000

-- jwt.NewNumericDate truncates to seconds.
abbrev pub numeric_date : ℕ → ℕ
numeric_date t = t / second

abbrev pub time_add : ℕ → ℤ → ℕ
time_add t d = pos_part (pos t +ℤ d)

abbrev pub token_claims : JwtConfig → ℕ → ℤ → Text → TokenClaims
token_claims config now user_id username = record {
  user_id = user_id;
  username = username;
  expires_at = numeric_date (time_add now config.ttl);
  issued_at = numeric_date now;
  issuer = config.issuer;
}

abbrev pub parser_options : JwtConfig → ParserOptions
parser_options config = record {
  valid_methods = hs256 ∷ [];
  issuer = config.issuer;
  expiration_required = true;
}

module _ (library : JwtLibrary) (config : JwtConfig) where
  -- `AuthService.GenerateToken`
  unfoldable pub generate_token : ℕ → ℤ → Text → Result GoError Text
  generate_token now user_id username =
      elim (library.sign hs256 config.secret_key (token_claims config now user_id username)) [
        | err e ↦ err (wrap (codes "signing token: ") e)
        | ok signed_token ↦ ok signed_token
      ]

  -- `AuthService.ParseToken`
  unfoldable pub parse_token : ℕ → Text → Result GoError Claims
  parse_token now token = elim (library.parse (parser_options config) config.secret_key now token) [
    | err e ↦ err (wrap (codes "parsing token: ") e)
    | ok parsed ↦ elim parsed [
      | none ↦ err (plain (codes "token has invalid claims"))
      | some claims ↦ ok (record { user_id = claims.user_id; username = claims.username })
    ]
  ]
