-- ===== src/App/Tokens/Session.antt =====
-- A token that is issued lets its user in until it expires.
use gin_di.Prelude.{
  ℕ, ◌*◌, ◌<◌, Text, codes, same, List, [], ◌∷◌, ◌++◌, some, Option-cases, true, false, Bool-cases,
  ◌==◌, ◌≡◌, refl, ap, ◌∙◌, ◌⊎◌, inl, inr, ok, Result-cases, ok_inj, err_not_ok, arith,
}
use gin_di.Http.Context.{Ctx, Handler, finished}
use gin_di.Http.Errors.{GoError, plain, wrap}
use gin_di.Http.Middlewares.{missing_token, authenticate, cut_prefix, set_user, reject}
use gin_di.Prelude.Int.{ℤ}
use gin_di.Settings.Jwt.{JwtConfig}
use gin_di.App.Tokens.{
  plain, TokenClaims, JwtLibrary, hs256, token_claims, parser_options, generate_token, parse_token,
}

-- What the documentation of golang-jwt says: a signed token is not empty and parses to its claims
-- under the same key, if its method is among the valid ones, the issuer is the expected one and it has
-- not expired; and with the options of this application nothing parses that has expired or has
-- another issuer.
pub record IsJwt (library : JwtLibrary) : Type 0 where
  pub filled :
      (method key : Text) (claims : TokenClaims) (token : Text)
      → library.sign method key claims ≡ ok token
      → same token [] ≡ false
  pub keeps :
      (method key : Text) (claims : TokenClaims) (token : Text) (rest : List Text) (now : ℕ)
      → library.sign method key claims ≡ ok token
      → library.encodable claims.username ≡ true
      → library.encodable claims.issuer ≡ true
      → now < claims.expires_at * 1_000_000_000
      → library.parse
          (record {
            valid_methods = method ∷ rest;
            issuer = claims.issuer;
            expiration_required = true;
          })
          key
          now
          token
        ≡ ok (some claims)
  pub checks :
      (methods : List Text) (issuer key : Text) (now : ℕ) (token : Text) (claims : TokenClaims)
      → same issuer [] ≡ false
      → library.parse
          (record { valid_methods = methods; issuer = issuer; expiration_required = true })
          key
          now
          token
        ≡ ok (some claims)
      → (now < claims.expires_at * 1_000_000_000) × (claims.issuer ≡ issuer)

-- The token of the request parses to these claims, under the signing key, at the request's time, and
-- with the options that hold for this application.
abbrev pub IsVouched : JwtLibrary → JwtConfig → ℕ → Text → TokenClaims → Type 0
IsVouched library config now authorization claims =
    (token : Text) × (cut_prefix authorization (codes "Bearer ") ≡ some token)
    × (library.parse
          (record {
            valid_methods = codes "HS256" ∷ [];
            issuer = config.issuer;
            expiration_required = true;
          })
          config.secret_key now token
        ≡ ok (some claims))

cut_prefix-append : (p s : Text) → cut_prefix (p ++ s) p ≡ some s
unfolding cut_prefix
cut_prefix-append [] [] = refl
cut_prefix-append [] (c ∷ s) = refl
cut_prefix-append (c ∷ p) s = rw (cut_prefix, cut_prefix-append p s, self_equal c) refl
  where
    self_equal : (x : ℕ) → (x == x) ≡ true
    self_equal x = ground arith

module _ (library : JwtLibrary) (law : IsJwt library) (config : JwtConfig) where
  signed_by :
      (now : ℕ) (id : ℤ) (name token : Text)
      → generate_token library config now id name ≡ ok token
      → library.sign hs256 config.secret_key (token_claims config now id name) ≡ ok token
  unfolding generate_token
  signed_by now id name token h =
      elim (Result-cases (library.sign hs256 config.secret_key (token_claims config now id name))) [
        | inl (t, a) ↦ a ∙ ap ok (ok_inj (rw (generate_token, a) at h))
        | inr (e, a) ↦ err_not_ok (rw (generate_token, a) at h)
      ]

  parse_token-generate_token :
      (issued now : ℕ) (id : ℤ) (name token : Text)
      → generate_token library config issued id name ≡ ok token
      → library.encodable name ≡ true
      → library.encodable config.issuer ≡ true
      → now < (token_claims config issued id name).expires_at * 1_000_000_000
      → parse_token library config now token ≡ ok (record { user_id = id; username = name })
  unfolding parse_token
  parse_token-generate_token issued now id name token h u i early =
      rw
        (
          parse_token,
          law.keeps hs256 config.secret_key (token_claims config issued id name) token [] now
              (signed_by issued id name token h) u i early,
        )
        refl

  -- A token that was generated for a user with a name of valid UTF-8 authenticates that user: until
  -- the second in which it expires, a request that bears it reaches what stands behind the
  -- authentication, with that user's id and name set and nothing else changed.
  pub authenticate-generate_token :
      {D : Type 0} (next : Handler D) (ctx : Ctx D) (issued : ℕ) (id : ℤ) (name token : Text)
      → generate_token library config issued id name ≡ ok token
      → library.encodable name ≡ true
      → library.encodable config.issuer ≡ true
      → ctx.now < (token_claims config issued id name).expires_at * 1_000_000_000
      → ctx.authorization ≡ codes "Bearer " ++ token
      → authenticate (parse_token library config ctx.now) next ctx ≡ next (set_user id name ctx)
  unfolding authenticate
  authenticate-generate_token next ctx issued id name token h u i early bearer =
      rw
        (
          authenticate,
          ap (λ a. cut_prefix a (codes "Bearer ")) bearer
              ∙ cut_prefix-append (codes "Bearer ") token,
          law.filled hs256 config.secret_key (token_claims config issued id name) token
              (signed_by issued id name token h),
          parse_token-generate_token issued ctx.now id name token h u i early,
        )
        refl

  -- With an issuer configured, a request passes the authentication only as the user of the claims of
  -- its own token, which parses under the signing key and the options of the application, carries the
  -- issuer and has not expired; any other is refused where it stands.
  pub authenticate-current :
      {D : Type 0} (next : Handler D) (ctx : Ctx D)
      → same config.issuer [] ≡ false
      → ((e : GoError) × (authenticate (parse_token library config ctx.now) next ctx
            ≡ finished (reject e ctx)))
        ⊎ ((claims : TokenClaims) × IsVouched library config ctx.now ctx.authorization claims
            × (ctx.now < claims.expires_at * 1_000_000_000)
            × (claims.issuer ≡ config.issuer)
            × (authenticate (parse_token library config ctx.now) next ctx
                ≡ next (set_user claims.user_id claims.username ctx)))
  unfolding authenticate parse_token
  authenticate-current next ctx filled =
      elim (Option-cases (cut_prefix ctx.authorization (codes "Bearer "))) [
        | inl a ↦ inl (missing_token, rw (authenticate, a) refl)
        | inr (token, a) ↦ elim (Bool-cases (same token [])) [
          | inl b ↦ inl (missing_token, rw (authenticate, a, b) refl)
          | inr b ↦
              elim (Result-cases
                (library.parse (parser_options config) config.secret_key ctx.now token)) [
                  | inr (e, p) ↦ inl (
                    wrap (codes "rejecting token: ") (wrap (codes "parsing token: ") e),
                    rw (authenticate, a, b, parse_token, p) refl,
                  )
                  | inl (found, p) ↦ elim (Option-cases found) [
                    | inl f ↦ inl (
                      wrap (codes "rejecting token: ") (plain (codes "token has invalid claims")),
                      rw (authenticate, a, b, parse_token, p, f) refl,
                    )
                    | inr (claims, f) ↦
                        let (early, issued) =
                          law.checks (hs256 ∷ []) config.issuer config.secret_key ctx.now token
                            claims filled (p ∙ ap ok f) in
                        inr (
                          claims,
                          (token, a, p ∙ ap ok f),
                          early,
                          issued,
                          rw (authenticate, a, b, parse_token, p, f) refl,
                        )
                  ]
                ]
        ]
      ]
