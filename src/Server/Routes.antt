-- ===== src/Server/Routes.antt =====
-- routes/http: the table of routes, with the middlewares of each. gin picks the route of a request.
use gin_di.Prelude.{
  ℕ, zero, suc, ◌+◌, ◌-◌, ◌*◌, ◌/◌, ◌%◌, ◌^◌, ◌≤◌, ◌<◌, Text, codes, same, same_refl, same_iff,
  ne_of_same, List, [], ◌∷◌, ◌++◌, map, append-nil, append_assoc, Option, none, some, Option-cases,
  Bool, true, false, not, ◌&&◌, ◌||◌, Bool-cases, ltb, leb, ◌==◌, if◌then◌else◌, ◌≡◌, ◌≢◌, ◌↔◌,
  refl, sym, ap, subst, ◌∙◌, ◌⊎◌, inl, inr, length, All, lookup, has, put, delete, lookup-put,
  Result, ok, err, Result-cases, ok_inj, err_not_ok, arith,
}
use gin_di.Http.Errors.{GoError}
use gin_di.Http.Context.{Ctx, Run, Handler, finished, success}
use gin_di.Http.Middlewares.{authenticate, throttle, no_route, no_method}
use gin_di.App.Resources.{Payload}
use gin_di.App.Login.{LoginRequest, login, authenticate_user}
use gin_di.App.Events.{IndexRequest, StoreRequest, index, create}
use gin_di.App.Tokens.{generate_token, parse_token}
use gin_di.Server.Container.{Container}
pub mod Protected
pub mod Sessions
pub mod Sample
mod Tests

-- The routes of the events group.
pub data EventsRoute : Type 0 where
  list_events : EventsRoute
  store_event : EventsRoute

-- What gin's tree finds: a route, no route for the path, or none for the method.
pub data Route : Type 0 where
  home : Route
  log_in : Route
  events : EventsRoute → Route
  unknown_path : Route
  other_method : Route

-- What gin makes of the body or the query of a request, at each type that is bound.
pub record Input : Type 0 where
  pub credentials : Result GoError LoginRequest
  pub page : Result GoError IndexRequest
  pub event : Result GoError StoreRequest

unfoldable pub welcome : Handler Payload
welcome ctx = finished (success 200 (codes "Welcome to the home page") none ctx)

module _ {Db : Type 0} (c : Container Db) where
  -- `controller.Login`, with the time of the request for the token that is issued.
  unfoldable pub login_controller : Result GoError LoginRequest → Handler Payload
  login_controller bind ctx =
      login bind (authenticate_user c.users.read c.users.verify)
        (generate_token c.auth.library c.auth.jwt ctx.now) ctx

  -- The group of the authenticated surface.
  unfoldable pub protected : Handler Payload → Handler Payload
  protected next ctx = authenticate (parse_token c.auth.library c.auth.jwt ctx.now) next ctx

  unfoldable pub events_controller : Input → Db → EventsRoute → Handler Payload
  events_controller input db list_events = index input.page c.db.read
  events_controller input db store_event = λ ctx. (create input.event c.db.insert ctx db).1

  -- The handlers of a route, behind the global middleware, on the rows that are stored.
  unfoldable pub route_handler : Input → Db → Route → Handler Payload
  route_handler input db home = welcome
  route_handler input db log_in = throttle c.throttle.login (login_controller input.credentials)
  route_handler input db (events route) = protected (events_controller input db route)
  route_handler input db unknown_path = no_route
  route_handler input db other_method = no_method
