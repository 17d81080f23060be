-- ===== src/Server/Routes/Protected.antt =====
-- The events are for authenticated callers.
use gin_di.Prelude.{◌*◌, ◌<◌, codes, same, [], none, some, false, ◌≡◌, refl, ap, ◌∙◌, ◌⊎◌, inl, inr}
use gin_di.Http.Context.{Ctx, Handler, Response, finished, fail_with}
use gin_di.Http.Errors.{GoError, as_type}
use gin_di.Http.Exceptions.{to_error, new_unauthorized}
use gin_di.Http.Middlewares.{exception_handler, reject, set_user, classify}
use gin_di.Http.Middlewares.Responds.{last_error-append}
use gin_di.Http.Middlewares.Refusals.{exception_handler-reported, render_error-unwritten}
use gin_di.App.Resources.{Payload}
use gin_di.App.Tokens.{TokenClaims}
use gin_di.App.Tokens.Session.{IsJwt, IsVouched, authenticate-current}
use gin_di.Server.Container.{Container}
use gin_di.Server.Routes.{Input, EventsRoute, events, events_controller, route_handler, protected}

-- The answer to a caller that is not authenticated.
abbrev pub unauthorized : Response Payload
unauthorized = record {
  code = 401;
  body = record {
    status = codes "error";
    message = codes "Unauthorized";
    payload = none;
    errors = none;
  };
}

rejected :
    (next : Handler Payload) (e : GoError) (ctx : Ctx Payload)
    → next ctx ≡ finished (reject e ctx)
    → ctx.response ≡ none
    → (d : Ctx Payload) × (exception_handler next ctx ≡ finished d)
      × (d.response ≡ some unauthorized)
unfolding reject classify as_type fail_with same
rejected next e ctx h w =
    let (log, rendered) =
      render_error-unwritten (to_error (record new_unauthorized { cause = e })) (reject e ctx) w in
    (
      _,
      exception_handler-reported next ctx (reject e ctx) _ h (last_error-append ctx.errors _)
          ∙ ap finished rendered,
      refl,
    )

-- With an issuer configured and nothing written yet, a request for the events is answered 401, or
-- it runs the controller as the user of the claims to which the token behind "Bearer " in its
-- Authorization header parses: by HS256, under the configured key and issuer, at the time of the
-- request and with an expiry required. They carry the configured issuer and have not expired.
pub route_handler-events :
    {Db : Type 0} (c : Container Db) (input : Input) (db : Db) (route : EventsRoute)
    (ctx : Ctx Payload)
    → IsJwt c.auth.library
    → same c.auth.jwt.issuer [] ≡ false
    → ctx.response ≡ none
    → ((d : Ctx Payload) × (exception_handler (route_handler c input db (events route)) ctx
          ≡ finished d)
        × (d.response ≡ some unauthorized))
      ⊎ ((claims : TokenClaims) × IsVouched c.auth.library c.auth.jwt ctx.now ctx.authorization
            claims
          × (ctx.now < claims.expires_at * 1_000_000_000)
          × (claims.issuer ≡ c.auth.jwt.issuer)
          × (route_handler c input db (events route) ctx
              ≡ events_controller c input db route (set_user claims.user_id claims.username ctx)))
unfolding route_handler protected
route_handler-events c input db route ctx law filled w =
    elim (authenticate-current c.auth.library law c.auth.jwt (events_controller c input db route)
      ctx filled) [
        | inl (e, h) ↦ inl (rejected (route_handler c input db (events route)) e ctx h w)
        | inr known ↦ inr known
      ]
