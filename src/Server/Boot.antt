-- ===== src/Server/Boot.antt =====
-- app/providers/http_service_provider.go: booting and serving. What the libraries answer is in
-- `System`, what is done to the world is a trace.
use gin_di.Prelude.{
  ℕ, zero, suc, ◌+◌, ◌-◌, ◌*◌, ◌/◌, ◌%◌, ◌^◌, ◌≤◌, ◌<◌, Text, codes, same, same_refl, same_iff,
  ne_of_same, List, [], ◌∷◌, ◌++◌, map, append-nil, append_assoc, Option, none, some, Option-cases,
  Bool, true, false, not, ◌&&◌, ◌||◌, Bool-cases, ltb, leb, ◌==◌, if◌then◌else◌, ◌≡◌, ◌≢◌, ◌↔◌,
  refl, sym, ap, subst, ◌∙◌, ◌⊎◌, inl, inr, length, All, lookup, has, put, delete, lookup-put,
  Result, ok, err, Result-cases, ok_inj, err_not_ok, arith,
}
use gin_di.Http.Errors.{GoError, wrap}
use gin_di.Prelude.Int.{ℤ}
use gin_di.App.Tokens.{JwtLibrary}
use gin_di.Server.Container.{Container, UserService, Connection}
use gin_di.Server.Engine.{Gin, Router, engine}
use gin_di.Server.Pool.{
  Effect, Resource, log_file, pool, debug_mode, opened, closed, noted, trapped_signals,
  released_signals, listening, shut_down, Driver, new_postgres_service,
}
use gin_di.Settings.App.{AppConfig, new_app_config}
use gin_di.Settings.Env.{Environment}
use gin_di.Settings.Jwt.{JwtConfig, new_jwt_config}
use gin_di.Settings.Throttle.{new_throttle_config}
use gin_di.Throttle.Config.{ThrottleConfig}
pub mod Closes
pub mod Safe
mod Tests

-- How ListenAndServe or the wait for a signal ends: an error, http.ErrServerClosed, or a signal with
-- what Shutdown says.
pub data ServerEnd : Type 0 where
  listen_failed : GoError → ServerEnd
  server_closed : ServerEnd
  signalled : Option GoError → ServerEnd

pub record System (Db : Type 0) : Type 0 where
  -- NewLogger, and the file's Close.
  pub new_logger : AppConfig → Option GoError
  pub close_log : Option GoError
  pub driver : Driver
  -- NewValidationServiceProvider().Boot()
  pub boot_validation : Option GoError
  pub library : JwtLibrary
  pub users : UserService
  pub db : Connection Db
  pub gin : Gin
  pub join_host_port : Text → Text → Text
  pub server_end : ServerEnd

-- What was done, and the error that is returned.
abbrev pub Outcome : Type 0 → Type 0
Outcome Db = List (Effect Db) × Option GoError

abbrev pub emit : {Db : Type 0} → List (Effect Db) → Outcome Db → Outcome Db
emit first (rest, result) = (first ++ rest, result)

-- A deferred call runs last, whatever is returned.
abbrev pub deferred : {Db : Type 0} → List (Effect Db) → Outcome Db → Outcome Db
deferred last (first, result) = (first ++ last, result)

-- A deferred Close reports its own error and returns none.
abbrev pub close : {Db : Type 0} → Resource → Option GoError → List (Effect Db)
close resource none = closed resource ∷ []
close resource (some e) = closed resource ∷ noted (codes "closing") ∷ []

abbrev fail : {Db : Type 0} → Text → GoError → Outcome Db
fail context e = ([], some (wrap context e))

module _ {Db : Type 0} (system : System Db) where
  abbrev until_end : ServerEnd → Outcome Db
  until_end (listen_failed e) = (released_signals ∷ [], some (wrap (codes "http server: ") e))
  until_end server_closed = (released_signals ∷ [], none)
  until_end (signalled (some e)) = (
    released_signals ∷ noted (codes "shutting down") ∷ shut_down ∷ released_signals ∷ [],
    some (wrap (codes "forced shutdown: ") e),
  )
  until_end (signalled none) = (
    released_signals
        ∷ noted (codes "shutting down")
        ∷ shut_down
        ∷ noted (codes "shutdown complete")
        ∷ released_signals
        ∷ [],
    none,
  )

  unfoldable pub serve : Router Db → AppConfig → Outcome Db
  serve router app =
      emit
        (trapped_signals
          ∷ listening (system.join_host_port app.host app.port) router
          ∷ noted (codes "http server listening")
          ∷ [])
        (until_end system.server_end)

  abbrev pub container : AppConfig → JwtConfig → ThrottleConfig → Container Db
  container app jwt throttle = record {
    app = app;
    auth = record { library = system.library; jwt = jwt };
    users = system.users;
    db = system.db;
    throttle = throttle;
  }

  -- `Boot` from the container on.
  unfoldable pub boot_router : AppConfig → JwtConfig → ThrottleConfig → Outcome Db
  boot_router app jwt throttle =
      emit (noted (codes "rate limiting configured") ∷ [])
        (elim (engine system.gin (container app jwt throttle)) [
          | err e ↦ fail (codes "boot: ") e
          | ok router ↦ serve router app
        ])

  -- `Boot` once the pool is open.
  unfoldable pub boot_connected : Environment → AppConfig → JwtConfig → Outcome Db
  boot_connected env app jwt = elim system.boot_validation [
    | some e ↦ fail (codes "boot: ") e
    | none ↦ elim (new_throttle_config env) [
      | err e ↦ fail (codes "boot: throttle: ") e
      | ok throttle ↦ boot_router app jwt throttle
    ]
  ]

  abbrev connected : Environment → AppConfig → JwtConfig → Option GoError → Outcome Db
  connected env app jwt (some e) = fail (codes "boot: database: ") e
  connected env app jwt none =
      deferred (close pool system.driver.close_pool) (boot_connected env app jwt)

  -- `Boot` once the logger is there.
  unfoldable pub boot_logged : Environment → AppConfig → Outcome Db
  boot_logged env app = elim (new_jwt_config env) [
    | err e ↦ fail (codes "boot: jwt: ") e
    | ok jwt ↦
        let (trace, connection) = new_postgres_service system.driver env in
        emit trace (connected env app jwt connection)
  ]

  -- `Boot`
  unfoldable pub boot : Environment → Outcome Db
  boot env =
      emit (debug_mode (new_app_config env).debug ∷ [])
        (elim (system.new_logger (new_app_config env)) [
          | some e ↦ fail (codes "boot: logger: ") e
          | none ↦
              emit (opened log_file ∷ [])
                (deferred (close log_file system.close_log) (boot_logged env (new_app_config env)))
        ])
