-- ===== src/Server/Engine.antt =====
-- app/providers/http_service_provider.go: building the router. url.Parse, cors.New and gin's check of
-- the trusted proxies are parameters.
use gin_di.Prelude.{
  ℕ, zero, suc, ◌+◌, ◌-◌, ◌*◌, ◌/◌, ◌%◌, ◌^◌, ◌≤◌, ◌<◌, Text, codes, same, same_refl, same_iff,
  ne_of_same, List, [], ◌∷◌, ◌++◌, map, append-nil, append_assoc, Option, none, some, Option-cases,
  Bool, true, false, not, ◌&&◌, ◌||◌, Bool-cases, ltb, leb, ◌==◌, if◌then◌else◌, ◌≡◌, ◌≢◌, ◌↔◌,
  refl, sym, ap, subst, ◌∙◌, ◌⊎◌, inl, inr, length, All, lookup, has, put, delete, lookup-put,
  Result, ok, err, Result-cases, ok_inj, err_not_ok, arith,
}
use gin_di.Http.Errors.{GoError, wrap}
use gin_di.Http.Context.{Handler}
use gin_di.Http.Cors.{Url, CorsSettings, cors, effective_origins}
use gin_di.Http.Middlewares.{global_middleware}
use gin_di.App.Resources.{Payload}
use gin_di.Server.Container.{Container}
use gin_di.Server.Routes.{Input, Route, route_handler}
use gin_di.Settings.App.{AppConfig}
use gin_di.Throttle.Config.{ThrottleConfig, global_enabled}
use gin_di.Throttle.Limit.{Limit}
pub mod Answers
mod Tests

abbrev pub Middleware : Type 0
Middleware = Handler Payload → Handler Payload

-- The libraries that the router is built with.
pub record Gin : Type 0 where
  pub parse : Text → Result GoError Url
  pub new_cors : CorsSettings → Middleware
  pub set_trusted_proxies : List Text → Option GoError

-- The CORS middleware, or none where no origin is configured.
unfoldable pub cors_middleware : Gin → AppConfig → Result GoError (Option Middleware)
cors_middleware gin app = elim (effective_origins gin.parse app.url app.cors_origins) [
  | err e ↦ err e
  | ok origins ↦ elim origins [
    | [] ↦ ok none
    | ◌∷◌ origin rest ↦ elim (cors gin.parse gin.new_cors (origin ∷ rest)) [
      | err e ↦ err e
      | ok middleware ↦ ok (some middleware)
    ]
  ]
]

abbrev pub global_limit : ThrottleConfig → Option Limit
global_limit config = if global_enabled config then some config.overall else none

-- `Engine`: the handler of each route, given the id that is drawn for the request.
abbrev pub Router : Type 0 → Type 0
Router Db = Text → Input → Db → Route → Handler Payload

unfoldable pub engine : {Db : Type 0} → Gin → Container Db → Result GoError (Router Db)
engine gin c = elim (gin.set_trusted_proxies c.app.trusted_proxies) [
  | some e ↦ err (wrap (codes "trusted proxies: ") e)
  | none ↦ elim (cors_middleware gin c.app) [
    | err e ↦ err e
    | ok middleware ↦ ok λ fresh input db route.
        global_middleware fresh middleware (global_limit c.throttle)
          (route_handler c input db route)
  ]
]
