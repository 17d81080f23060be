-- ===== src/App/Tokens/Tests.antt =====
-- A token of an hour, within it.
use gin_di.Prelude.{
  ℕ, ◌*◌, ◌<◌, Text, codes, same, [], ◌∷◌, ◌++◌, none, false, ◌≡◌, refl, ◌⊎◌, arith,
}
use gin_di.Http.Context.{Ctx, finished}
use gin_di.Http.Errors.{GoError}
use gin_di.Http.Middlewares.{authenticate, set_user, reject}
use gin_di.Prelude.Int.{◌+ℤ◌, pos}
use gin_di.App.Tokens.{TokenClaims, generate_token, parse_token}
use gin_di.App.Tokens.Sample.{sample, sample_config, sample-IsJwt, sam}
use gin_di.App.Tokens.Session.{authenticate-generate_token, authenticate-current, IsVouched}

abbrev issued_at : ℕ
issued_at = 63_000_000_000_500_000_000

-- Half a second before the hour is over, the token is spent already.
abbrev expires : ℕ
expires = 63_000_003_600

abbrev the_token : Text
the_token = 0 ∷ 7 ∷ expires ∷ 63_000_000_000 ∷ []

abbrev a_request : Ctx ℕ
a_request = record {
  request_id_header = [];
  authorization = codes "Bearer " ++ the_token;
  client_ip = codes "10.0.0.1";
  now = 63_000_003_599_999_999_999;
  body_limit = none;
  request_id = codes "0af3";
  user_id = none;
  username = [];
  errors = [];
  aborted = false;
  headers = [];
  response = none;
  limiter = record { buckets = []; max_keys = 10; pruned_at = 0 };
  log = [];
}

authenticate-generate_token_example :
    authenticate (parse_token sample sample_config a_request.now) finished a_request
    ≡ finished (set_user (pos 7) sam a_request)
unfolding generate_token ◌+ℤ◌ same
authenticate-generate_token_example =
    authenticate-generate_token sample sample-IsJwt sample_config finished a_request issued_at
      (pos 7) sam the_token refl refl refl (omega arith) refl

authenticate-current_example :
    ((e : GoError) × (authenticate
          (parse_token sample sample_config a_request.now)
          finished
          a_request
        ≡ finished (reject e a_request)))
    ⊎ ((claims : TokenClaims) × IsVouched sample sample_config a_request.now a_request.authorization
          claims
        × (a_request.now < claims.expires_at * 1_000_000_000)
        × (claims.issuer ≡ sample_config.issuer)
        × (authenticate (parse_token sample sample_config a_request.now) finished a_request
            ≡ finished (set_user claims.user_id claims.username a_request)))
unfolding same
authenticate-current_example =
    authenticate-current sample sample-IsJwt sample_config finished a_request refl
