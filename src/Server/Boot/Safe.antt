-- ===== src/Server/Boot/Safe.antt =====
-- What a boot serves.
use gin_di.Prelude.{
  Text, same, List, [], ◌∷◌, ◌++◌, append-nil, Option, none, some, Option-cases, Bool-cases, ◌≡◌,
  refl, sym, ap, subst, ◌∙◌, inl, inr, ok, Result-cases,
}
use gin_di.Http.Errors.{GoError, or_else}
use gin_di.Server.Engine.{Router, engine}
use gin_di.Server.Pool.{
  Effect, Resource, log_file, pool, opened, closed, noted, new_postgres_service, reach,
  data_source_name, debug_mode, sized, pinged, trapped_signals, released_signals, listening,
  shut_down,
}
use gin_di.Server.Boot.{
  System, Outcome, emit, deferred, close, boot, boot_logged, connected, boot_connected, boot_router,
  serve, container,
}
use gin_di.Settings.App.{AppConfig, new_app_config, new_database_config, postgres_connection}
use gin_di.Settings.Env.{Environment}
use gin_di.Settings.Jwt.{JwtConfig, new_jwt_config}
use gin_di.Settings.Jwt.Safe.{IsSafe, new_jwt_config_iff, checked_ok}
use gin_di.Settings.Throttle.{new_throttle_config, read_throttle}
use gin_di.Throttle.Config.{ThrottleConfig, validate}

-- The first address and handler of a server.
unfoldable pub listener : {Db : Type 0} → List (Effect Db) → Option (Text × Router Db)
listener [] = none
listener (effect ∷ rest) = elim effect [
  | listening address router ↦ some (address, router)
  | _ ↦ listener rest
]

not_some : {A B : Type 0} {a : A} → none ≡ some a → B
not_some h = cc

some_inj : {A : Type 0} {a b : A} → some a ≡ some b → a ≡ b
some_inj h = cc

module _ {Db : Type 0} where
  listener-append :
      (xs ys : List (Effect Db)) → listener (xs ++ ys) ≡ or_else (listener xs) (listener ys)
  unfolding listener
  listener-append [] ys = refl
  listener-append (debug_mode b ∷ xs) ys = listener-append xs ys
  listener-append (opened r ∷ xs) ys = listener-append xs ys
  listener-append (closed r ∷ xs) ys = listener-append xs ys
  listener-append (noted t ∷ xs) ys = listener-append xs ys
  listener-append (sized a b ∷ xs) ys = listener-append xs ys
  listener-append (pinged ∷ xs) ys = listener-append xs ys
  listener-append (trapped_signals ∷ xs) ys = listener-append xs ys
  listener-append (released_signals ∷ xs) ys = listener-append xs ys
  listener-append (listening a r ∷ xs) ys = refl
  listener-append (shut_down ∷ xs) ys = listener-append xs ys

  -- A deferred Close serves nothing.
  listener-deferred :
      (r : Resource) (e : Option GoError) (o : Outcome Db) (served : Text × Router Db)
      → listener (deferred (close r e) o).0 ≡ some served
      → listener o.0 ≡ some served
  unfolding listener
  listener-deferred r e (xs, result) served h = elim (Option-cases (listener xs)) [
    | inr (s, a) ↦
        a
        ∙ sym (ap (λ o. or_else o (listener (close r e))) a)
        ∙ sym (listener-append xs (close r e))
        ∙ h
    | inl a ↦ not_some (
        sym (silent e)
        ∙ sym (ap (λ o. or_else o (listener (close r e))) a)
        ∙ sym (listener-append xs (close r e))
        ∙ h)
  ]
    where
      silent : (o : Option GoError) → listener (close {Db = Db} r o) ≡ none
      silent none = refl
      silent (some x) = refl

module _ {Db : Type 0} (system : System Db) where
  -- The settings and the router that a server listens with.
  abbrev pub Serves : Environment → AppConfig → JwtConfig → Text × Router Db → Type 0
  Serves env app jwt (address, router) =
      (throttle : ThrottleConfig) × (new_throttle_config env ≡ ok throttle)
      × (engine system.gin (container system app jwt throttle) ≡ ok router)
      × (address ≡ system.join_host_port app.host app.port)

  boot_router-Serves :
      (env : Environment) (app : AppConfig) (jwt : JwtConfig) (throttle : ThrottleConfig)
      (served : Text × Router Db)
      → new_throttle_config env ≡ ok throttle
      → listener (boot_router system app jwt throttle).0 ≡ some served
      → Serves env app jwt served
  unfolding boot_router serve listener
  boot_router-Serves env app jwt throttle served t h =
      elim (Result-cases (engine system.gin (container system app jwt throttle))) [
        | inr (e, a) ↦ not_some (rw (boot_router, a) at h)
        | inl (router, a) ↦
            subst (Serves env app jwt) (some_inj (rw (boot_router, a) at h)) (throttle, t, a, refl)
      ]

  boot_connected-Serves :
      (env : Environment) (app : AppConfig) (jwt : JwtConfig) (served : Text × Router Db)
      → listener (boot_connected system env app jwt).0 ≡ some served
      → Serves env app jwt served
  unfolding boot_connected listener
  boot_connected-Serves env app jwt served h = elim (Option-cases system.boot_validation) [
    | inr (e, a) ↦ not_some (rw (boot_connected, a) at h)
    | inl a ↦ elim (Result-cases (new_throttle_config env)) [
      | inr (e, b) ↦ not_some (rw (boot_connected, a, b) at h)
      | inl (throttle, b) ↦
          boot_router-Serves env app jwt throttle served b (rw (boot_connected, a, b) at h)
    ]
  ]

  new_postgres_service-silent :
      (env : Environment) → listener (new_postgres_service {Db = Db} system.driver env).0 ≡ none
  unfolding new_postgres_service reach listener
  new_postgres_service-silent env =
      elim (Bool-cases (same (new_database_config env).connection postgres_connection)) [
        | inr a ↦ rw (new_postgres_service, a) refl
        | inl a ↦
            elim (Option-cases
              (system.driver.open_pool (data_source_name (new_database_config env)))) [
                | inr (e, b) ↦ rw (new_postgres_service, a, b) refl
                | inl b ↦ elim (Option-cases system.driver.ping) [
                  | inr (e, p) ↦ rw (new_postgres_service, a, b, reach, p) refl
                  | inl p ↦ rw (new_postgres_service, a, b, reach, p) refl
                ]
              ]
      ]

  connected-Serves :
      (env : Environment) (app : AppConfig) (jwt : JwtConfig)
      (r : List (Effect Db) × Option GoError) (served : Text × Router Db)
      → listener r.0 ≡ none
      → listener (emit r.0 (connected system env app jwt r.1)).0 ≡ some served
      → (r.1 ≡ none) × Serves env app jwt served
  unfolding listener
  connected-Serves env app jwt (trace, some e) served quiet h =
      not_some (sym quiet ∙ ap listener (sym (append-nil trace)) ∙ h)
  connected-Serves env app jwt (trace, none) served quiet h =
      let rest = boot_connected system env app jwt in
      let after = deferred (close pool system.driver.close_pool) rest in
      (
        refl,
        boot_connected-Serves env app jwt served (
            listener-deferred pool system.driver.close_pool rest served (
              sym (ap (λ o. or_else o (listener after.0)) quiet)
              ∙ sym (listener-append trace after.0)
              ∙ h)),
      )

  boot_logged-Serves :
      (env : Environment) (app : AppConfig) (served : Text × Router Db)
      → listener (boot_logged system env app).0 ≡ some served
      → (jwt : JwtConfig) × (new_jwt_config env ≡ ok jwt)
        × ((new_postgres_service {Db = Db} system.driver env).1 ≡ none)
        × Serves env app jwt served
  unfolding boot_logged listener
  boot_logged-Serves env app served h = elim (Result-cases (new_jwt_config env)) [
    | inr (e, a) ↦ not_some (rw (boot_logged, a) at h)
    | inl (jwt, a) ↦
        let (reached, serves) =
          connected-Serves env app jwt (new_postgres_service system.driver env) served
            (new_postgres_service-silent env) (rw (boot_logged, a) at h) in
        (jwt, a, reached, serves)
  ]

  IsSafe-jwt : (env : Environment) (jwt : JwtConfig) → new_jwt_config env ≡ ok jwt → IsSafe jwt
  IsSafe-jwt env jwt h = ((new_jwt_config_iff env jwt).0 h).1

  usable :
      (env : Environment) (throttle : ThrottleConfig)
      → new_throttle_config env ≡ ok throttle
      → validate throttle ≡ none
  unfolding new_throttle_config
  usable env throttle h =
      let (passes, same_config) = checked_ok validate (read_throttle env) throttle h in
      subst (λ c. validate c ≡ none) same_config passes

  -- A server that a boot starts listens on the configured address, the pool has been reached, and its
  -- router is the one that the engine builds of settings that have passed their checks: the key of
  -- the tokens has 32 bytes or more, there is an issuer, tokens live, and the limits are valid.
  pub boot-serves :
      (env : Environment) (address : Text) (router : Router Db)
      → listener (boot system env).0 ≡ some (address, router)
      → (jwt : JwtConfig) × (throttle : ThrottleConfig) × IsSafe jwt
        × (validate throttle ≡ none)
        × ((new_postgres_service {Db = Db} system.driver env).1 ≡ none)
        × (engine system.gin (container system (new_app_config env) jwt throttle) ≡ ok router)
        × (address ≡ system.join_host_port (new_app_config env).host (new_app_config env).port)
  unfolding boot listener
  boot-serves env address router h = elim (Option-cases (system.new_logger (new_app_config env))) [
    | inr (e, a) ↦ not_some (rw (boot, a) at h)
    | inl a ↦
        let (jwt, accepted, reached, (throttle, limited, built, bound)) =
          boot_logged-Serves env (new_app_config env) (address, router)
            (listener-deferred log_file system.close_log
              (boot_logged system env (new_app_config env)) (address, router)
              (rw (boot, a) at h)) in
        (
          jwt,
          throttle,
          IsSafe-jwt env jwt accepted,
          usable env throttle limited,
          reached,
          built,
          bound,
        )
  ]
