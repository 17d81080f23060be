-- ===== src/Server/Boot/Closes.antt =====
-- What is opened is closed.
use gin_di.Prelude.{
  codes, same, List, [], ◌∷◌, ◌++◌, Option, none, some, Option-cases, Bool-cases, ◌≡◌, refl, sym,
  subst, inl, inr, Result-cases,
}
use gin_di.Http.Errors.{GoError, plain, wrap}
use gin_di.Prelude.Int.{ℤ}
use gin_di.Server.Engine.{engine}
use gin_di.Server.Pool.{
  Effect, Resource, log_file, pool, opened, closed, noted, new_postgres_service, reach,
  data_source_name, sized, pinged, trapped_signals, listening,
}
use gin_di.Server.Boot.{
  System, Outcome, emit, close, boot, boot_logged, connected, boot_connected, boot_router, serve,
  until_end, container, ServerEnd, listen_failed, server_closed, signalled,
}
use gin_di.Settings.App.{AppConfig, new_app_config, new_database_config, postgres_connection}
use gin_di.Settings.Env.{Environment}
use gin_di.Settings.Jwt.{JwtConfig, new_jwt_config}
use gin_di.Settings.Throttle.{new_throttle_config}
use gin_di.Throttle.Config.{ThrottleConfig}

-- A resource that is closed is the one that was opened last.
abbrev pop : Resource → List Resource → Option (List Resource)
pop r [] = none
pop log_file (log_file ∷ held) = some held
pop pool (pool ∷ held) = some held
pop log_file (pool ∷ held) = none
pop pool (log_file ∷ held) = none

abbrev step : {Db : Type 0} → Effect Db → List Resource → Option (List Resource)
step (opened r) held = some (r ∷ held)
step (closed r) held = pop r held
step effect held = some held

abbrev continue_with : {A : Type 0} → Option A → (A → Option A) → Option A
continue_with none f = none
continue_with (some a) f = f a

-- The resources that are held after a trace, or none if one is closed out of order.
unfoldable pub held_after :
    {Db : Type 0} → List (Effect Db) → List Resource → Option (List Resource)
held_after [] held = some held
held_after (effect ∷ rest) held = continue_with (step effect held) (held_after rest)

abbrev Balanced : {Db : Type 0} → List (Effect Db) → Type 0
Balanced trace = (held : List Resource) → held_after trace held ≡ some held

module _ {Db : Type 0} where
  held_after-append :
      (xs ys : List (Effect Db)) (held : List Resource)
      → held_after (xs ++ ys) held ≡ continue_with (held_after xs held) (held_after ys)
  unfolding held_after
  held_after-append [] ys held = refl
  held_after-append (effect ∷ xs) ys held = elim (Option-cases (step effect held)) [
    | inl a ↦ rw (a) refl
    | inr (next, a) ↦ rw (a) (held_after-append xs ys next)
  ]

  Balanced-append : (xs ys : List (Effect Db)) → Balanced xs → Balanced ys → Balanced (xs ++ ys)
  Balanced-append xs ys h k held = rw (held_after-append xs ys held, h held) (k held)

  -- What runs between the opening and the deferred Close of a resource.
  Balanced-deferred :
      (r : Resource) (e : Option GoError) (xs : List (Effect Db))
      → Balanced xs
      → Balanced (opened r ∷ (xs ++ close r e))
  unfolding held_after
  Balanced-deferred r e xs h held =
      rw (held_after-append xs (close r e) (r ∷ held), h (r ∷ held)) (ends r e)
    where
      ends :
          (s : Resource) (o : Option GoError)
          → held_after (close {Db = Db} s o) (s ∷ held) ≡ some held
      ends log_file none = refl
      ends log_file (some x) = refl
      ends pool none = refl
      ends pool (some x) = refl

  Balanced-emit :
      (first : List (Effect Db)) (o : Outcome Db)
      → Balanced first
      → Balanced o.0
      → Balanced (emit first o).0
  Balanced-emit first (rest, result) h k = Balanced-append first rest h k

-- The constructor of the pool leaves an open pool, or fails and leaves none.
abbrev Leaves : {Db : Type 0} → List (Effect Db) × Option GoError → Type 0
Leaves (trace, none) =
    (first : ℤ) × (second : ℤ) × (trace ≡ opened pool ∷ sized first second ∷ pinged ∷ [])
Leaves (trace, some e) = Balanced trace

module _ {Db : Type 0} (system : System Db) where
  new_postgres_service-Leaves :
      (env : Environment) → Leaves (new_postgres_service {Db = Db} system.driver env)
  unfolding new_postgres_service reach held_after
  new_postgres_service-Leaves env =
      elim (Bool-cases (same (new_database_config env).connection postgres_connection)) [
        | inr a ↦
            is ([], some (plain (codes "unsupported DB_CONNECTION")))
              (rw (new_postgres_service, a) refl) (λ held. refl)
        | inl a ↦
            elim (Option-cases
              (system.driver.open_pool (data_source_name (new_database_config env)))) [
                | inr (e, b) ↦
                    is ([], some (wrap (codes "opening database connection: ") e))
                      (rw (new_postgres_service, a, b) refl) (λ held. refl)
                | inl b ↦ elim (Option-cases system.driver.ping) [
                  | inr (e, p) ↦
                      is
                        (
                          opened pool ∷ sized first second ∷ pinged ∷ closed pool ∷ [],
                          some (wrap (codes "reaching database: ") e),
                        )
                        (rw (new_postgres_service, a, b, reach, p) refl) (λ held. refl)
                  | inl p ↦
                      is (opened pool ∷ sized first second ∷ pinged ∷ [], none)
                        (rw (new_postgres_service, a, b, reach, p) refl) (first, second, refl)
                ]
              ]
      ]
    where
      first : ℤ
      first = (new_database_config env).max_open_conns

      second : ℤ
      second = (new_database_config env).max_idle_conns

      is :
          (r : List (Effect Db) × Option GoError)
          → new_postgres_service {Db = Db} system.driver env ≡ r
          → Leaves r
          → Leaves (new_postgres_service {Db = Db} system.driver env)
      is r q h = subst Leaves (sym q) h

  until_end-Balanced : (end : ServerEnd) → Balanced (until_end system end).0
  unfolding held_after
  until_end-Balanced (listen_failed e) held = refl
  until_end-Balanced server_closed held = refl
  until_end-Balanced (signalled none) held = refl
  until_end-Balanced (signalled (some e)) held = refl

  boot_router-Balanced :
      (app : AppConfig) (jwt : JwtConfig) (throttle : ThrottleConfig)
      → Balanced (boot_router system app jwt throttle).0
  unfolding boot_router serve held_after
  boot_router-Balanced app jwt throttle =
      elim (Result-cases (engine system.gin (container system app jwt throttle))) [
        | inr (e, a) ↦ rw (boot_router, a) (λ held. refl)
        | inl (router, a) ↦
            rw (boot_router, a)
              (Balanced-emit (noted (codes "rate limiting configured") ∷ [])
                (serve system router app) (λ held. refl)
                (Balanced-emit
                  (trapped_signals
                    ∷ listening (system.join_host_port app.host app.port) router
                    ∷ noted (codes "http server listening")
                    ∷ [])
                  (until_end system system.server_end) (λ held. refl)
                  (until_end-Balanced system.server_end)))
      ]

  boot_connected-Balanced :
      (env : Environment) (app : AppConfig) (jwt : JwtConfig)
      → Balanced (boot_connected system env app jwt).0
  unfolding boot_connected held_after
  boot_connected-Balanced env app jwt = elim (Option-cases system.boot_validation) [
    | inr (e, a) ↦ rw (boot_connected, a) (λ held. refl)
    | inl a ↦ elim (Result-cases (new_throttle_config env)) [
      | inr (e, b) ↦ rw (boot_connected, a, b) (λ held. refl)
      | inl (throttle, b) ↦ rw (boot_connected, a, b) (boot_router-Balanced app jwt throttle)
    ]
  ]

  connected-Balanced :
      (env : Environment) (app : AppConfig) (jwt : JwtConfig)
      (r : List (Effect Db) × Option GoError)
      → Leaves r
      → Balanced (emit r.0 (connected system env app jwt r.1)).0
  unfolding held_after
  connected-Balanced env app jwt (trace, some e) h = Balanced-append trace [] h (λ held. refl)
  connected-Balanced env app jwt (trace, none) (first, second, q) =
      subst (λ t. Balanced (emit t (connected system env app jwt none)).0) (sym q)
        (Balanced-deferred pool system.driver.close_pool (boot_connected system env app jwt).0
          (boot_connected-Balanced env app jwt))

  boot_logged-Balanced :
      (env : Environment) (app : AppConfig) → Balanced (boot_logged system env app).0
  unfolding boot_logged held_after
  boot_logged-Balanced env app = elim (Result-cases (new_jwt_config env)) [
    | inr (e, a) ↦ rw (boot_logged, a) (λ held. refl)
    | inl (jwt, a) ↦
        rw (boot_logged, a)
          (connected-Balanced env app jwt (new_postgres_service system.driver env)
            (new_postgres_service-Leaves env))
  ]

  -- On every path of a boot, with or without an error, each resource that is opened is closed again, the
  -- one that was opened last first: at the end none is held.
  pub boot-closes : (env : Environment) → held_after (boot system env).0 [] ≡ some []
  unfolding boot held_after
  boot-closes env = elim (Option-cases (system.new_logger (new_app_config env))) [
    | inr (e, a) ↦ rw (boot, a) refl
    | inl a ↦
        rw (boot, a)
          (Balanced-deferred log_file system.close_log
            (boot_logged system env (new_app_config env)).0
            (boot_logged-Balanced env (new_app_config env)) [])
  ]
