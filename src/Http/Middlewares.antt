-- ===== src/Http/Middlewares.antt =====
-- app/http/middlewares, and the chain that app/providers/http_service_provider.go builds of them.
pub mod Responds
pub mod Refusals
pub mod Ids
mod Tests
use gin_di.Http.Context.{
  Ctx, Run, Handler, finished, panicked, after, HeaderValue, LogEntry, fail_with, report, written,
}
use gin_di.Http.Errors.{GoError, as_type, plain, wrap}
use gin_di.Http.Exceptions.{
  message_not_found, message_not_allowed, HttpException, exception_here, new_internal,
  new_too_many_requests, new_unauthorized, to_error, message_internal,
}
use gin_di.Throttle.Limit.{Limit, Decision, key}
use gin_di.Throttle.Memory.{allow}
use gin_di.Prelude.Int.{ℤ, pos, negsuc, sub_ℕ}
use gin_di.Prelude.{
  put, ℕ, ◌+◌, ◌/◌, Text, codes, same, List, [], ◌∷◌, ◌++◌, Option, none, some, Bool, true, false,
  not, ◌&&◌, ◌||◌, ltb, leb, ◌==◌, if◌then◌else◌, length, Result, ok, err,
}

abbrev pub max_request_id_length : ℕ
max_request_id_length = 64

-- A byte beyond ASCII starts or continues a rune that the switch refuses.
abbrev pub is_id_character : ℕ → Bool
is_id_character c =
    (leb b'a' c && leb c b'z')
    || ((leb b'A' c && leb c b'Z')
        || ((leb b'0' c && leb c b'9') || (c == b'-' || (c == b'_' || c == b'.'))))

-- The loop of `validRequestID`.
unfoldable pub all_id_characters : Text → Bool
all_id_characters [] = true
all_id_characters (c ∷ id) =
    let rest = all_id_characters id in if is_id_character c then rest else false

unfoldable pub valid_request_id : Text → Bool
valid_request_id id =
    if same id [] || ltb max_request_id_length (length id) then false else all_id_characters id

-- The last error, which decides the response.
unfoldable pub last_error : List GoError → Option GoError
last_error [] = none
last_error (e ∷ []) = some e
last_error (e ∷ f ∷ es) = last_error (f ∷ es)

-- errors.AsType[*HTTPException], or an internal error around what was reported.
unfoldable pub classify : GoError → HttpException
classify reported = elim (as_type exception_here reported) [
  | some e ↦ e
  | none ↦ new_internal reported
]

-- The prefix behind `strings.CutPrefix`.
unfoldable pub cut_prefix : Text → Text → Option Text
cut_prefix s [] = some s
cut_prefix [] (p ∷ ps) = none
cut_prefix (c ∷ s) (p ∷ ps) = let rest = cut_prefix s ps in if c == p then rest else none

pub record Claims : Type 0 where
  pub user_id : ℤ
  pub username : Text

-- Whole seconds of a duration, rounded up, and at least one.
unfoldable pub retry_seconds : ℤ → ℕ
retry_seconds (pos n) =
    let seconds = (n + 999_999_999) / 1_000_000_000 in if ltb seconds 1 then 1 else seconds
retry_seconds (negsuc n) = 1

-- Seconds since 1970 of a time that is counted in nanoseconds from year one.
abbrev pub unix : ℤ → ℤ
unix (pos n) = sub_ℕ (n / 1_000_000_000) 62_135_596_800
unix (negsuc n) = negsuc (n / 1_000_000_000 + 62_135_596_800)

abbrev pub missing_token : GoError
missing_token = plain (codes "authorization header missing or not a Bearer scheme")

module _ {D : Type 0} where
  abbrev set_header : Text → HeaderValue → Ctx D → Ctx D
  set_header name value ctx = record ctx { headers = put name value ctx.headers }

  -- `fresh` is the id that `newRequestID` draws.
  unfoldable pub request_id : Text → Handler D → Handler D
  request_id fresh next ctx =
      let id = if valid_request_id ctx.request_id_header then ctx.request_id_header else fresh in
      next (record ctx {
        request_id = id;
        headers = put (codes "X-Request-Id") (HeaderValue.text id) ctx.headers;
      })

  -- The status of the response, 200 while none is written.
  abbrev status_of : Ctx D → ℕ
  status_of ctx = elim ctx.response [ none ↦ 200 | some r ↦ r.code ]

  unfoldable pub logger : Handler D → Handler D
  logger next ctx =
      after (next ctx)
        λ c. finished (record c { log = c.log ++ LogEntry.request c.request_id (status_of c) ∷ [] })

  -- What the recovery does with the context of a panic.
  unfoldable pub recover : Ctx D → Ctx D
  recover c =
      let logged : Ctx D = record c { log = c.log ++ LogEntry.panic c.request_id ∷ [] } in
      if written c
      then record logged { aborted = true }
      else fail_with 500 message_internal none logged

  unfoldable pub recovery : Handler D → Handler D
  recovery next ctx = elim (next ctx) [
    | finished c ↦ finished c
    | panicked c ↦ finished (recover c)
  ]

  unfoldable pub limit_body : ℕ → Handler D → Handler D
  limit_body max_bytes next ctx = next (record ctx { body_limit = some max_bytes })

  -- Logs the reported error and renders it, unless a response is out already.
  unfoldable pub render_error : GoError → Ctx D → Ctx D
  render_error reported c =
      let e = classify reported in
      let logged : Ctx D = record c {
        log = c.log ++ LogEntry.failed c.request_id e.status reported ∷ [];
      } in
      if written c then logged else fail_with e.status e.message e.errors logged

  unfoldable pub exception_handler : Handler D → Handler D
  exception_handler next ctx = after (next ctx) λ c. elim (last_error c.errors) [
    | none ↦ finished c
    | some reported ↦ finished (render_error reported c)
  ]

  abbrev pub rate_headers : Decision → Ctx D → Ctx D
  rate_headers d ctx =
      set_header (codes "X-RateLimit-Reset") (HeaderValue.number (unix d.reset_at)) (
        set_header (codes "X-RateLimit-Remaining") (HeaderValue.number (pos d.remaining))
          (set_header (codes "X-RateLimit-Limit") (HeaderValue.number d.limit) ctx))

  unfoldable pub refuse : Decision → Ctx D → Ctx D
  refuse d ctx =
      record (report (to_error new_too_many_requests) (
        set_header (codes "Retry-After") (HeaderValue.number (pos (retry_seconds d.retry_after)))
          ctx)) { aborted = true }

  unfoldable pub throttle : Limit → Handler D → Handler D
  throttle limit next ctx =
      let (store, d) = allow ctx.limiter (key limit ctx.client_ip) limit ctx.now in
      let counted : Ctx D = rate_headers d (record ctx { limiter = store }) in
      if d.allowed then next counted else finished (refuse d counted)

  unfoldable pub reject : GoError → Ctx D → Ctx D
  reject cause ctx = record (report (to_error (record new_unauthorized { cause = cause })) ctx) {
    aborted = true;
  }

  unfoldable pub set_user : ℤ → Text → Ctx D → Ctx D
  set_user id name ctx = record ctx { user_id = some id; username = name }

  -- `parse` is `AuthService.ParseToken`.
  unfoldable pub authenticate : (Text → Result GoError Claims) → Handler D → Handler D
  authenticate parse next ctx = elim (cut_prefix ctx.authorization (codes "Bearer ")) [
    | none ↦ finished (reject missing_token ctx)
    | some token ↦
        if same token [] then finished (reject missing_token ctx) else elim (parse token) [
          | err e ↦ finished (reject (wrap (codes "rejecting token: ") e) ctx)
          | ok claims ↦ next (set_user claims.user_id claims.username ctx)
        ]
  ]

  abbrev or_none : Option (Handler D → Handler D) → Handler D → Handler D
  or_none none next = next
  or_none (some middleware) next = middleware next

  abbrev throttle_if : Option Limit → Option (Handler D → Handler D)
  throttle_if none = none
  throttle_if (some l) = some (throttle l)

  -- `GlobalMiddleware`: the CORS middleware is there only if origins are configured, the throttle
  -- only if the global limit is positive.
  unfoldable pub global_middleware :
      Text → Option (Handler D → Handler D) → Option Limit → Handler D → Handler D
  global_middleware fresh cors limit handler = request_id fresh (
      logger (
        recovery (
          or_none cors
            (limit_body 1_048_576 (exception_handler (or_none (throttle_if limit) handler))))))

  -- `Fallbacks`
  unfoldable pub no_route : Handler D
  no_route ctx = finished (fail_with 404 message_not_found none ctx)

  unfoldable pub no_method : Handler D
  no_method ctx = finished (fail_with 405 message_not_allowed none ctx)
