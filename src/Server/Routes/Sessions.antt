-- ===== src/Server/Routes/Sessions.antt =====
-- A login opens a session: its token is good for the events.
use gin_di.Prelude.{◌*◌, ◌<◌, Text, codes, same, ◌++◌, none, some, true, ◌≡◌, refl, ok}
use gin_di.Http.Context.{Ctx, Response, finished, success}
use gin_di.Http.Middlewares.{set_user, throttle, rate_headers}
use gin_di.App.Models.{User}
use gin_di.App.Login.{LoginRequest, login, authenticate_user}
use gin_di.App.Resources.{Payload, session, new_session_resource}
use gin_di.App.Tokens.{token_claims, generate_token}
use gin_di.App.Tokens.Session.{IsJwt, authenticate-generate_token}
use gin_di.Server.Container.{Container}
use gin_di.Server.Routes.{
  Input, log_in, EventsRoute, events, events_controller, route_handler, protected, login_controller,
}
use gin_di.Throttle.Limit.{key}
use gin_di.Throttle.Memory.{allow}

-- The answer to a login.
abbrev pub logged_in : Text → User → Response Payload
logged_in token user = record {
  code = 200;
  body = record {
    status = codes "success";
    message = codes "Logged in";
    payload = some (session (new_session_resource token user));
    errors = none;
  };
}

login_answers :
    {Db : Type 0} (c : Container Db) (input : Input) (db : Db) (ctx : Ctx Payload)
    (request : LoginRequest) (user : User) (token : Text)
    → (allow ctx.limiter (key c.throttle.login ctx.client_ip) c.throttle.login ctx.now).1.allowed
      ≡ true
    → input.credentials ≡ ok request
    → authenticate_user c.users.read c.users.verify request.username request.password ≡ ok user
    → generate_token c.auth.library c.auth.jwt ctx.now user.id user.username ≡ ok token
    → (d : Ctx Payload) × (route_handler c input db log_in ctx ≡ finished d)
      × (d.response ≡ some (logged_in token user))
unfolding route_handler login_controller throttle login success same
login_answers c input db ctx request user token allowed bound known signed = (
  success 200 (codes "Logged in") (some (session (new_session_resource token user))) counted,
  rw (throttle, allowed, login, bound, known, signed) refl,
  refl,
)
  where
    counted : Ctx Payload
    counted =
        let (store, decision) =
          allow ctx.limiter (key c.throttle.login ctx.client_ip) c.throttle.login ctx.now in
        rate_headers decision (record ctx { limiter = store })

-- A login that the limit admits and whose credentials are right is answered with a token, and until
-- the second in which that expires, every request for the events that bears it runs the controller
-- as this user, if names are valid UTF-8.
pub login_opens_session :
    {Db : Type 0} (c : Container Db) (input later : Input) (db later_db : Db)
    (ctx after : Ctx Payload) (request : LoginRequest) (user : User) (token : Text)
    (route : EventsRoute)
    → IsJwt c.auth.library
    → c.auth.library.encodable user.username ≡ true
    → c.auth.library.encodable c.auth.jwt.issuer ≡ true
    → (allow ctx.limiter (key c.throttle.login ctx.client_ip) c.throttle.login ctx.now).1.allowed
      ≡ true
    → input.credentials ≡ ok request
    → authenticate_user c.users.read c.users.verify request.username request.password ≡ ok user
    → generate_token c.auth.library c.auth.jwt ctx.now user.id user.username ≡ ok token
    → after.authorization ≡ codes "Bearer " ++ token
    → after.now < (token_claims c.auth.jwt ctx.now user.id user.username).expires_at * 1_000_000_000
    → ((d : Ctx Payload) × (route_handler c input db log_in ctx ≡ finished d)
        × (d.response ≡ some (logged_in token user)))
      × (route_handler c later later_db (events route) after
          ≡ events_controller c later later_db route (set_user user.id user.username after))
unfolding route_handler protected
login_opens_session c input later db later_db ctx after request user token route law u i allowed
      bound known signed bearer early =
    (
      login_answers c input db ctx request user token allowed bound known signed,
      authenticate-generate_token c.auth.library law c.auth.jwt
          (events_controller c later later_db route) after ctx.now user.id user.username token
          signed u i early bearer,
    )
