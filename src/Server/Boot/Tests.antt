-- ===== src/Server/Boot/Tests.antt =====
-- A boot that serves, and one whose database is down.
use gin_di.Prelude.{
  same, lookup, codes, List, [], ◌∷◌, ◌++◌, Option, none, some, ◌≡◌, refl, ok, err,
}
use gin_di.Http.Errors.{GoError, plain}
use gin_di.Prelude.Int.{ℤ, mul_int64, to_int64}
use gin_di.Http.Cors.{effective_origins}
use gin_di.App.Tokens.Sample.{sample}
use gin_di.Server.Boot.{
  System, boot, container, signalled, boot_logged, boot_connected, boot_router, serve,
}
use gin_di.Server.Boot.Closes.{held_after, boot-closes}
use gin_di.Server.Boot.Safe.{listener, boot-serves}
use gin_di.Server.Engine.{Router, engine, cors_middleware}
use gin_di.Server.Pool.{reach, new_postgres_service}
use gin_di.Server.Routes.Sample
use gin_di.Settings.App.{new_app_config, new_database_config}
use gin_di.Settings.Env.{Environment, env_text, env_int, env_bool, env_slice}
use gin_di.Settings.Jwt.{JwtConfig, check_jwt, read_jwt, new_jwt_config}
use gin_di.Settings.Jwt.Safe.{IsSafe}
use gin_di.Settings.Throttle.{new_throttle_config, read_throttle}
use gin_di.Throttle.Config.{ThrottleConfig, validate}

abbrev environment : Environment
environment =
    (codes "JWT_SECRET", codes "0123456789abcdef0123456789abcdef")
    ∷ (codes "APP_PORT", codes "80")
    ∷ []

abbrev system : Option GoError → System (List ℤ)
system ping = record {
  new_logger = λ app. none;
  close_log = none;
  driver = record { open_pool = λ dsn. none; ping = ping; close_pool = none };
  boot_validation = none;
  library = sample;
  users = Sample.container.users;
  db = Sample.container.db;
  gin = record {
    parse = λ s. err (plain s);
    new_cors = λ settings next. next;
    set_trusted_proxies = λ proxies. none;
  };
  join_host_port = λ host port. host ++ codes ":" ++ port;
  server_end = signalled none;
}

boot-closes_example :
    held_after (boot (system (some (plain (codes "down")))) environment).0 [] ≡ some []
boot-closes_example = boot-closes (system (some (plain (codes "down")))) environment

served :
    (router : Router (List ℤ)) × (listener (boot (system none) environment).0
      ≡ some (codes "127.0.0.1:80", router))
unfolding listener boot boot_logged new_jwt_config check_jwt read_jwt env_text lookup same mul_int64
    env_int to_int64 new_postgres_service new_database_config reach boot_connected
    new_throttle_config validate read_throttle boot_router engine cors_middleware serve
    new_app_config effective_origins env_bool env_slice
served = (_, refl)

boot-serves_example :
    (jwt : JwtConfig) × (throttle : ThrottleConfig) × IsSafe jwt
    × (validate throttle ≡ none)
    × ((new_postgres_service {Db = List ℤ} (system none).driver environment).1 ≡ none)
    × (engine (system none).gin (container (system none) (new_app_config environment) jwt throttle)
        ≡ ok served.0)
    × (codes "127.0.0.1:80"
        ≡ (system none).join_host_port
            (new_app_config environment).host
            (new_app_config environment).port)
boot-serves_example = boot-serves (system none) environment (codes "127.0.0.1:80") served.0 served.1
