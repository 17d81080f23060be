-- ===== src/Server/Container.antt =====
-- app/container: the resolved collaborators of the routes.
use gin_di.Prelude.{Text, Bool, Result}
use gin_di.Http.Errors.{GoError}
use gin_di.Prelude.Int.{ℤ}
use gin_di.App.Models.{User, Event, Cursor}
use gin_di.App.Tokens.{JwtLibrary}
use gin_di.Settings.App.{AppConfig}
use gin_di.Settings.Jwt.{JwtConfig}
use gin_di.Throttle.Config.{ThrottleConfig}

-- `AuthService`: the settings, and the library that it calls.
pub record AuthService : Type 0 where
  pub library : JwtLibrary
  pub jwt : JwtConfig

-- `UserService`: the query of FindByUsername, and hash.Check behind the semaphore.
pub record UserService : Type 0 where
  pub read : Text → Result GoError (Cursor User)
  pub verify : Text → Text → Result GoError Bool

-- `PostgresService` as the events use it: the query of a page, and the insert on the stored rows.
pub record Connection (Db : Type 0) : Type 0 where
  pub read : ℤ → ℤ → ℤ → Result GoError (Cursor Event)
  pub insert : Text → Text → ℤ → Db → Db × Result GoError (Result GoError (ℤ × Text))

-- `Container`. The logger and the counters of the limiter are in the context of a request.
pub record Container (Db : Type 0) : Type 0 where
  pub app : AppConfig
  pub auth : AuthService
  pub users : UserService
  pub db : Connection Db
  pub throttle : ThrottleConfig
