-- ===== src/Server/Routes/Tests.antt =====
-- A session of an hour.
use gin_di.App.Models.{first_row, find_by_username}
use gin_di.App.Login.{authenticate_user}
use gin_di.Throttle.Limit.{refill_per_second}
use gin_di.Throttle.Float64.{
  one, significands, half_even, round_in, round, of_int, add, sub, div, mul, seconds,
}
use gin_di.Throttle.Memory.{allow, decide, find_bucket, sweep, keep_after}
use gin_di.Prelude.{◌*◌, ◌<◌, same, [], some, ◌≡◌, refl, ◌⊎◌, lookup, arith}
use gin_di.Http.Context.{Ctx, finished}
use gin_di.Http.Middlewares.{exception_handler, set_user}
use gin_di.App.Resources.{Payload}
use gin_di.App.Tokens.{generate_token, TokenClaims}
use gin_di.App.Tokens.Session.{IsVouched}
use gin_di.App.Tokens.Sample.{sample-IsJwt, sample_config, sam}
use gin_di.Server.Routes.{
  route_handler, events, list_events, store_event, log_in, events_controller,
}
use gin_di.Server.Routes.Protected.{route_handler-events, unauthorized}
use gin_di.Server.Routes.Sessions.{login_opens_session, logged_in}
use gin_di.Server.Routes.Sample.{
  container, input, a_request, a_later_request, user, the_token, credentials,
}
use gin_di.Prelude.Int.{◌+ℤ◌, pos}

route_handler-events_example :
    ((d : Ctx Payload) × (exception_handler
          (route_handler container input [] (events store_event))
          a_request
        ≡ finished d)
      × (d.response ≡ some unauthorized))
    ⊎ ((claims : TokenClaims) × IsVouched container.auth.library sample_config a_request.now
          a_request.authorization claims
        × (a_request.now < claims.expires_at * 1_000_000_000)
        × (claims.issuer ≡ sample_config.issuer)
        × (route_handler container input [] (events store_event) a_request
            ≡ events_controller container input [] store_event
                (set_user claims.user_id claims.username a_request)))
unfolding same
route_handler-events_example =
    route_handler-events container input [] store_event a_request sample-IsJwt refl refl

login_opens_session_example :
    ((d : Ctx Payload) × (route_handler container input [] log_in a_request ≡ finished d)
      × (d.response ≡ some (logged_in the_token user)))
    × (route_handler container input [] (events list_events) a_later_request
        ≡ events_controller container input [] list_events (set_user (pos 7) sam a_later_request))
unfolding one significands half_even round_in round of_int add sub div mul seconds same allow
    refill_per_second decide find_bucket lookup sweep keep_after authenticate_user find_by_username
    first_row generate_token ◌+ℤ◌
login_opens_session_example =
    login_opens_session container input input [] [] a_request a_later_request credentials user
      the_token list_events sample-IsJwt refl refl refl refl refl refl refl (omega arith)
