-- ===== src/Server/Pool.antt =====
-- app/services/core/pgsql_service.go: opening the pool. The driver is a parameter, and what is done to
-- the world is a trace.
use gin_di.Prelude.{Text, codes, same, List, [], ◌∷◌, Option, none, some, Bool, not, if◌then◌else◌}
use gin_di.Http.Errors.{GoError, plain, wrap}
use gin_di.Prelude.Int.{ℤ}
use gin_di.Server.Engine.{Router}
use gin_di.Settings.App.{DatabaseConfig, new_database_config, postgres_connection}
use gin_di.Settings.Env.{Environment}
mod Once

pub data Resource : Type 0 where
  log_file : Resource
  pool : Resource

pub data Effect (Db : Type 0) : Type 0 where
  debug_mode : Bool → Effect Db
  opened : Resource → Effect Db
  closed : Resource → Effect Db
  -- A message to the log or to stderr.
  noted : Text → Effect Db
  sized : ℤ → ℤ → Effect Db
  pinged : Effect Db
  trapped_signals : Effect Db
  released_signals : Effect Db
  -- The address and the handler of the server.
  listening : Text → Router Db → Effect Db
  shut_down : Effect Db

-- url.URL and net.JoinHostPort as the DSN is built of them.
pub record Dsn : Type 0 where
  pub scheme : Text
  pub username : Text
  pub password : Text
  pub host : Text
  pub port : Text
  pub path : Text
  pub ssl_mode : Text

unfoldable pub data_source_name : DatabaseConfig → Dsn
data_source_name config = record {
  scheme = codes "postgres";
  username = config.username;
  password = config.password;
  host = config.host;
  port = config.port;
  path = config.database;
  ssl_mode = config.ssl_mode;
}

-- sql.Open, PingContext within its time, and Close: the error of each, or none.
pub record Driver : Type 0 where
  pub open_pool : Dsn → Option GoError
  pub ping : Option GoError
  pub close_pool : Option GoError

module _ {Db : Type 0} (driver : Driver) where
  -- The ping decides whether the pool outlives its constructor.
  unfoldable pub reach : DatabaseConfig → List (Effect Db) × Option GoError
  reach config = elim driver.ping [
    | some e ↦ (
      opened pool ∷ sized config.max_open_conns config.max_idle_conns ∷ pinged ∷ closed pool ∷ [],
      some (wrap (codes "reaching database: ") e),
    )
    | none ↦ (opened pool ∷ sized config.max_open_conns config.max_idle_conns ∷ pinged ∷ [], none)
  ]

  unfoldable pub new_postgres_service : Environment → List (Effect Db) × Option GoError
  new_postgres_service env =
      if not (same (new_database_config env).connection postgres_connection)
      then ([], some (plain (codes "unsupported DB_CONNECTION")))
      else elim (driver.open_pool (data_source_name (new_database_config env))) [
        | some e ↦ ([], some (wrap (codes "opening database connection: ") e))
        | none ↦ reach (new_database_config env)
      ]

  -- `connection` is a sync.OnceValues: what is kept of the first call is answered from then on.
  abbrev kept :
      List (Effect Db) × Option GoError
      → (List (Effect Db) × Option GoError) × Option (Option GoError)
  kept (effects, outcome) = ((effects, outcome), some outcome)

  -- `Connection`, with what is kept before and after the call.
  unfoldable pub connection :
      Environment
      → Option (Option GoError)
      → (List (Effect Db) × Option GoError) × Option (Option GoError)
  connection env none = kept (new_postgres_service env)
  connection env (some outcome) = (([], outcome), some outcome)
