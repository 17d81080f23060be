-- ===== src/Settings/App.antt =====
-- configs/app.go and configs/database.go.
use gin_di.Prelude.{Text, codes, List, [], Bool, false}
use gin_di.Prelude.Int.{ℤ, pos}
use gin_di.Settings.Env.{Environment, env_text, env_int, env_bool, env_slice}

pub record AppConfig : Type 0 where
  pub name : Text
  pub env : Text
  pub debug : Bool
  pub url : Text
  pub host : Text
  pub port : Text
  pub log_level : Text
  pub trusted_proxies : List Text
  pub cors_origins : List Text

unfoldable pub new_app_config : Environment → AppConfig
new_app_config env = record {
  name = env_text env (codes "APP_NAME") [];
  env = env_text env (codes "APP_ENV") (codes "production");
  debug = env_bool env (codes "APP_DEBUG") false;
  url = env_text env (codes "APP_URL") [];
  host = env_text env (codes "APP_HOST") (codes "127.0.0.1");
  port = env_text env (codes "APP_PORT") (codes "8000");
  log_level = env_text env (codes "APP_LOG_LEVEL") (codes "info");
  trusted_proxies = env_slice env (codes "APP_TRUSTED_PROXIES") [];
  cors_origins = env_slice env (codes "APP_CORS_ORIGINS") [];
}

abbrev pub postgres_connection : Text
postgres_connection = codes "pgsql"

abbrev default_max_open_conns : ℤ
default_max_open_conns = pos 10

abbrev default_max_idle_conns : ℤ
default_max_idle_conns = pos 5

pub record DatabaseConfig : Type 0 where
  pub connection : Text
  pub host : Text
  pub port : Text
  pub database : Text
  pub username : Text
  pub password : Text
  pub ssl_mode : Text
  pub max_open_conns : ℤ
  pub max_idle_conns : ℤ

unfoldable pub new_database_config : Environment → DatabaseConfig
new_database_config env = record {
  connection = env_text env (codes "DB_CONNECTION") postgres_connection;
  host = env_text env (codes "DB_HOST") (codes "127.0.0.1");
  port = env_text env (codes "DB_PORT") (codes "5432");
  database = env_text env (codes "DB_DATABASE") (codes "homestead");
  username = env_text env (codes "DB_USERNAME") (codes "root");
  password = env_text env (codes "DB_PASSWORD") [];
  ssl_mode = env_text env (codes "DB_SSLMODE") (codes "prefer");
  max_open_conns = env_int env (codes "DB_MAX_OPEN_CONNS") default_max_open_conns;
  max_idle_conns = env_int env (codes "DB_MAX_IDLE_CONNS") default_max_idle_conns;
}
