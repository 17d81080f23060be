-- ===== src/Http/Cors.antt =====
-- app/http/middlewares/cors_middleware.go: which origins the CORS middleware admits. `parse` is
-- url.Parse.
use gin_di.Prelude.{
  ℕ, zero, suc, ◌+◌, ◌-◌, ◌*◌, ◌/◌, ◌%◌, ◌^◌, ◌≤◌, ◌<◌, Text, codes, same, same_refl, same_iff,
  ne_of_same, List, [], ◌∷◌, ◌++◌, map, append-nil, append_assoc, Option, none, some, Option-cases,
  Bool, true, false, not, ◌&&◌, ◌||◌, Bool-cases, ltb, leb, ◌==◌, if◌then◌else◌, ◌≡◌, ◌≢◌, ◌↔◌,
  refl, sym, ap, subst, ◌∙◌, ◌⊎◌, inl, inr, length, All, lookup, has, put, delete, lookup-put,
  Result, ok, err, Result-cases, ok_inj, err_not_ok, arith,
}
use gin_di.Http.Errors.{GoError, plain, wrap}
use gin_di.Http.Exceptions.{to_lower}
use gin_di.Prelude.Trim.{trim_space}
pub mod Effective
mod Tests

-- url.URL, as far as it is read.
pub record Url : Type 0 where
  pub scheme : Text
  pub host : Text
  pub path : Text
  pub raw_query : Text
  pub fragment : Text
  pub has_user : Bool

abbrev pub wildcard_origin : Text
wildcard_origin = codes "*"

abbrev pub is_web_scheme : Text → Bool
is_web_scheme scheme = same scheme (codes "http") || same scheme (codes "https")

-- strings.EqualFold, on ASCII.
abbrev pub equal_fold : Text → Text → Bool
equal_fold a b = same (to_lower a) (to_lower b)

-- The configured origins that are not the application's own.
unfoldable pub others : Text → List Text → List Text
others self [] = []
others self (origin ∷ origins) =
    let rest = others self origins in if equal_fold origin self then rest else origin ∷ rest

abbrev pub is_wildcard : List Text → Bool
is_wildcard [] = false
is_wildcard (origin ∷ []) = same origin wildcard_origin
is_wildcard (origin ∷ next ∷ origins) = false

module _ (parse : Text → Result GoError Url) where
  -- The switch of `validateOrigin`, case by case.
  unfoldable pub validate_url : Text → Url → Option GoError
  validate_url origin url =
      if not (is_web_scheme url.scheme)
      then some (plain (codes "must start with http:// or https://"))
      else (if same url.host []
          then some (plain (codes "is missing a host"))
          else (if not (same url.path [])
              then some (plain (codes "must not include a path or trailing slash"))
              else (if not (same url.raw_query []) || (not (same url.fragment []) || url.has_user)
                  then some (plain (codes "must be only a scheme, host and optional port"))
                  else (if not (same origin (to_lower origin))
                      then some (plain (codes "must be lowercase"))
                      else none))))

  unfoldable pub validate_origin : Text → Option GoError
  validate_origin origin = elim (parse origin) [
    | err e ↦ some (wrap (codes "is not a valid origin: ") e)
    | ok url ↦ validate_url origin url
  ]

  -- The loop of `validateOrigins`, for a list with more than one entry or not.
  unfoldable pub validate_each : Bool → List Text → Option GoError
  validate_each many [] = none
  validate_each many (origin ∷ origins) =
      let rest = validate_each many origins in
      if same origin wildcard_origin
      then (if many then some (plain (codes "cannot be combined with named origins")) else rest)
      else elim (validate_origin origin) [
        | some e ↦ some (wrap (codes "cors origins: ") e)
        | none ↦ rest
      ]

  unfoldable pub validate_origins : List Text → Option GoError
  validate_origins origins = validate_each (ltb 1 (length origins)) origins

  unfoldable pub origin_from : Text → Result GoError Text
  origin_from raw_url =
      if same (trim_space raw_url) []
      then err (plain (codes "the application URL is empty"))
      else elim (parse (trim_space raw_url)) [
        | err e ↦ err (wrap (codes "is not a valid URL: ") e)
        | ok url ↦
            if not (is_web_scheme (to_lower url.scheme))
            then err (plain (codes "needs an http:// or https:// scheme"))
            else (if same url.host []
                then err (plain (codes "has no host"))
                else ok (to_lower url.scheme ++ codes "://" ++ to_lower url.host))
      ]

  unfoldable pub effective_origins : Text → List Text → Result GoError (List Text)
  effective_origins app_url [] = ok []
  effective_origins app_url (origin ∷ origins) =
      if is_wildcard (origin ∷ origins) then ok (origin ∷ origins) else elim (origin_from app_url) [
        | err e ↦ err (wrap (codes "cors origins: deriving this application's own origin: ") e)
        | ok self ↦ ok (self ∷ others self (origin ∷ origins))
      ]

-- cors.Config of gin-contrib.
pub record CorsSettings : Type 0 where
  pub allow_all_origins : Bool
  pub allow_origins : List Text
  pub allow_methods : List Text
  pub allow_headers : List Text
  pub expose_headers : List Text
  pub allow_credentials : Bool
  -- Seconds.
  pub max_age : ℕ

abbrev cors_allowed_methods : List Text
cors_allowed_methods =
    codes "GET" ∷ codes "POST" ∷ codes "PUT" ∷ codes "PATCH" ∷ codes "DELETE" ∷ codes "OPTIONS" ∷ []

abbrev cors_allowed_headers : List Text
cors_allowed_headers = codes "Authorization" ∷ codes "Content-Type" ∷ []

abbrev expose_headers : List Text
expose_headers =
    codes "X-Request-Id"
    ∷ codes "X-RateLimit-Limit"
    ∷ codes "X-RateLimit-Remaining"
    ∷ codes "X-RateLimit-Reset"
    ∷ codes "Retry-After"
    ∷ []

unfoldable pub cors_settings : List Text → CorsSettings
cors_settings origins = record {
  allow_all_origins = is_wildcard origins;
  allow_origins = if is_wildcard origins then [] else origins;
  allow_methods = cors_allowed_methods;
  allow_headers = cors_allowed_headers;
  expose_headers = expose_headers;
  allow_credentials = false;
  max_age = 43_200;
}

-- `CORS`, where `new` is cors.New.
unfoldable pub cors :
    {M : Type 0} → (Text → Result GoError Url) → (CorsSettings → M) → List Text → Result GoError M
cors parse new origins = elim (validate_origins parse origins) [
  | some e ↦ err e
  | none ↦ ok (new (cors_settings origins))
]
