-- ===== src/App/Tokens/Sample.antt =====
-- A small JWT library that keeps the laws: it signs for one user name and one issuer.
use gin_di.Prelude.{
  ℕ, zero, suc, ◌*◌, ◌<◌, Text, codes, same, same_iff, List, [], ◌∷◌, Option, some, Bool, true,
  false, ◌&&◌, Bool-cases, ltb, if◌then◌else◌, ◌≡◌, refl, sym, ap, subst, ◌∙◌, inl, inr, Result, ok,
  err, ok_inj, arith,
}
use gin_di.Http.Errors.{GoError, plain}
use gin_di.Prelude.Int.{ℤ, pos, negsuc}
use gin_di.Settings.Jwt.{JwtConfig}
use gin_di.App.Tokens.{TokenClaims, ParserOptions, JwtLibrary}
use gin_di.App.Tokens.Session.{IsJwt}

abbrev pub sam : Text
sam = codes "sam"

abbrev encode : ℤ → ℕ → ℕ → Text
encode (pos n) expires issued = 0 ∷ n ∷ expires ∷ issued ∷ []
encode (negsuc n) expires issued = 1 ∷ n ∷ expires ∷ issued ∷ []

abbrev decode_id : ℕ → ℕ → ℤ
decode_id zero n = pos n
decode_id (suc k) n = negsuc n

abbrev sign : Text → Text → TokenClaims → Result GoError Text
sign method key claims = ok (encode claims.user_id claims.expires_at claims.issued_at)

abbrev claims_of : ℕ → ℕ → ℕ → ℕ → TokenClaims
claims_of k n expires issued = record {
  user_id = decode_id k n;
  username = sam;
  expires_at = expires;
  issued_at = issued;
  issuer = sam;
}

abbrev parse : ParserOptions → Text → ℕ → Text → Result GoError (Option TokenClaims)
parse options key now (k ∷ n ∷ expires ∷ issued ∷ []) =
    if same sam options.issuer && ltb now (expires * 1_000_000_000)
    then ok (some (claims_of k n expires issued))
    else err (plain (codes "token is invalid"))
parse options key now token = err (plain (codes "token is malformed"))

abbrev pub sample : JwtLibrary
sample = record { sign = sign; parse = parse; encodable = λ name. same sam name }

and_true : (a b : Bool) → a ≡ true → b ≡ true → (a && b) ≡ true
and_true true true p q = refl
and_true true false p q = q
and_true false b p q = p

and_left : (a b : Bool) → (a && b) ≡ true → (a ≡ true) × (b ≡ true)
and_left true true h = (refl, refl)
and_left true false h = cc
and_left false b h = cc

before : (a b : ℕ) → a < b → ltb a b ≡ true
before a b h = ground arith

is_before : (a b : ℕ) → ltb a b ≡ true → a < b
is_before a b h = ground arith

not_invalid :
    {A : Type 0} {e : GoError} {c : TokenClaims}
    → ◌≡◌ {A = Result GoError (Option TokenClaims)} (err e) (ok (some c))
    → A
not_invalid h = cc

sample-filled :
    (method key : Text) (claims : TokenClaims) (token : Text)
    → sign method key claims ≡ ok token
    → same token [] ≡ false
unfolding same
sample-filled method key claims token h =
    subst (λ t. same t [] ≡ false) (ok_inj h) (some_bytes claims.user_id)
  where
    some_bytes : (id : ℤ) → same (encode id claims.expires_at claims.issued_at) [] ≡ false
    some_bytes (pos n) = refl
    some_bytes (negsuc n) = refl

sample-keeps :
    (method key : Text) (claims : TokenClaims) (token : Text) (rest : List Text) (now : ℕ)
    → sign method key claims ≡ ok token
    → same sam claims.username ≡ true
    → same sam claims.issuer ≡ true
    → now < claims.expires_at * 1_000_000_000
    → parse
        (record {
          valid_methods = method ∷ rest;
          issuer = claims.issuer;
          expiration_required = true;
        })
        key
        now
        token
      ≡ ok (some claims)
sample-keeps method key claims token rest now h u i early =
    subst (λ t. parse options key now t ≡ ok (some claims)) (ok_inj h) (decoded claims.user_id refl)
  where
    options : ParserOptions
    options = record {
      valid_methods = method ∷ rest;
      issuer = claims.issuer;
      expiration_required = true;
    }

    passes : (same sam claims.issuer && ltb now (claims.expires_at * 1_000_000_000)) ≡ true
    passes = and_true _ _ i (before now (claims.expires_at * 1_000_000_000) early)

    sams :
        (k n : ℕ)
        → decode_id k n ≡ claims.user_id
        → claims_of k n claims.expires_at claims.issued_at ≡ claims
    sams k n q =
        ap (λ x. record claims { user_id = x; username = sam; issuer = sam }) q
        ∙ ap (λ x. record claims { username = x; issuer = sam })
            ((same_iff sam claims.username).0 u)
        ∙ ap (λ x. record claims { issuer = x }) ((same_iff sam claims.issuer).0 i)

    decoded :
        (id : ℤ)
        → id ≡ claims.user_id
        → parse options key now (encode id claims.expires_at claims.issued_at) ≡ ok (some claims)
    decoded (pos n) q = rw (passes) (ap (λ c. ok (some c)) (sams 0 n q))
    decoded (negsuc n) q = rw (passes) (ap (λ c. ok (some c)) (sams 1 n q))

some_inj :
    {c d : TokenClaims}
    → ◌≡◌ {A = Result GoError (Option TokenClaims)} (ok (some c)) (ok (some d))
    → c ≡ d
some_inj h = cc

sample-checks :
    (methods : List Text) (issuer key : Text) (now : ℕ) (token : Text) (claims : TokenClaims)
    → same issuer [] ≡ false
    → parse
        (record { valid_methods = methods; issuer = issuer; expiration_required = true })
        key
        now
        token
      ≡ ok (some claims)
    → (now < claims.expires_at * 1_000_000_000) × (claims.issuer ≡ issuer)
sample-checks methods issuer key now (k ∷ n ∷ expires ∷ issued ∷ []) claims filled h =
    elim (Bool-cases (same sam issuer && ltb now (expires * 1_000_000_000))) [
      | inr a ↦ not_invalid (rw (a) at h)
      | inl a ↦
          let (named, early) = and_left (same sam issuer) (ltb now (expires * 1_000_000_000)) a in
          let found = some_inj (rw (a) at h) in
          (
            subst (λ c. now < c.expires_at * 1_000_000_000) found
                (is_before now (expires * 1_000_000_000) early),
            ap (λ c. c.issuer) (sym found) ∙ (same_iff sam issuer).0 named,
          )
    ]
sample-checks methods issuer key now [] claims filled h = not_invalid h
sample-checks methods issuer key now (k ∷ []) claims filled h = not_invalid h
sample-checks methods issuer key now (k ∷ n ∷ []) claims filled h = not_invalid h
sample-checks methods issuer key now (k ∷ n ∷ x ∷ []) claims filled h = not_invalid h
sample-checks methods issuer key now (k ∷ n ∷ x ∷ y ∷ z ∷ rest) claims filled h = not_invalid h

pub sample-IsJwt : IsJwt sample
sample-IsJwt = record { filled = sample-filled; keeps = sample-keeps; checks = sample-checks }

abbrev pub sample_config : JwtConfig
sample_config = record {
  secret_key = codes "0123456789abcdef0123456789abcdef";
  issuer = sam;
  ttl = pos 3_600_000_000_000;
}
