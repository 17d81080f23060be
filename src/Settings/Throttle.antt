-- ===== src/Settings/Throttle.antt =====
-- configs/throttle.go: the limits that are configured; Throttle/Config.antt has their checks.
use gin_di.Prelude.{codes, Result}
use gin_di.Http.Errors.{GoError}
use gin_di.Prelude.Int.{pos, mul_int64}
use gin_di.Settings.Env.{Environment, env_text, env_int}
use gin_di.Settings.Jwt.{checked}
use gin_di.Throttle.Config.{ThrottleConfig, validate, memory_store_driver}
use gin_di.Throttle.Memory.{default_max_keys}

-- The limits before they are checked: a window is configured in seconds, the one of a login is a
-- minute.
unfoldable pub read_throttle : Environment → ThrottleConfig
read_throttle env = record {
  store = env_text env (codes "THROTTLE_STORE") memory_store_driver;
  overall = record {
    name = codes "global";
    requests = env_int env (codes "THROTTLE_LIMIT") (pos 60);
    per = mul_int64 (env_int env (codes "THROTTLE_WINDOW") (pos 60)) 1_000_000_000;
  };
  login = record {
    name = codes "login";
    requests = env_int env (codes "THROTTLE_LOGIN_LIMIT") (pos 5);
    per = pos 60_000_000_000;
  };
  max_keys = env_int env (codes "THROTTLE_MAX_KEYS") (pos default_max_keys);
}

unfoldable pub new_throttle_config : Environment → Result GoError ThrottleConfig
new_throttle_config env = checked validate (read_throttle env)
