-- ===== src/Lib.antt =====
-- Verification of gin-di, a web application on gin with a rate limiter, a migrator and a console.
--
-- The program and its model:
--   Settings       configs and app/helpers. Settings/Env.antt is app/helpers/general.go, the typed reading
--                  of environment variables; Settings/App.antt is configs/app.go and configs/database.go,
--                  Settings/Jwt.antt configs/jwt.go, and Settings/Throttle.antt the reading in
--                  configs/throttle.go, whose checks are Throttle/Config.antt.
--   Throttle       app/services/throttle. Throttle/Limit.antt has Limit with its key and rate,
--                  Throttle/Memory.antt the store in memory: Allow, Len, sweep and makeRoom. The mutex
--                  makes each call one step, and a history is a list of calls. Throttle/Float64.antt
--                  is the arithmetic of its tokens, and Throttle/Memory/Alone.antt describes the runs of
--                  one caller with a bucket and no map, and Throttle/Memory/Burst.antt counts its grants.
--   Database       database. Database/Interface.antt is the database behind the application, a record
--                  of operations and of the laws of its transactions; Database/Service.antt is Begin
--                  and Read of app/services/core/pgsql_service.go; Database/Migrator.antt is
--                  database/migrator.go: Run, Fresh, Refresh and Reset with all they call.
--                  Database/Factory.antt is database/factories, Database/Seeder.antt
--                  database/seeder.go with database/seeders.
--   Http           Http/Errors.antt is Go's errors with the chains that wrapping builds.
--                  Http/Exceptions.antt is app/exceptions, Http/Context.antt gin's context as far as
--                  the application uses it with app/http/responses, and Http/Middlewares.antt is
--                  app/http/middlewares with GlobalMiddleware and Fallbacks of
--                  app/providers/http_service_provider.go. A middleware takes the rest of the chain,
--                  which is what Next calls, and a run of the chain finishes or panics.
--                  Http/Cors.antt is cors_middleware.go up to the call of gin-contrib.
--   App            App/Models.antt is app/models, with the methods that change a row and the Create,
--                  Update and Delete of pgsql_service.go in App/Models/Writes.antt; App/Resources.antt is
--                  app/http/resources, App/Hash.antt app/services/hash, App/Tokens.antt
--                  app/services/auth_service.go, App/Login.antt app/services/user_service.go and the login
--                  handler, App/Verifications.antt the slots of its verify as a relation of steps, and
--                  App/Events.antt the handlers of the events with their requests.
--   Server         Server/Container.antt is app/container, Server/Routes.antt routes/http,
--                  Server/Engine.antt and Server/Boot.antt are the building of the router, the boot and
--                  the serving in http_service_provider.go, Server/Pool.antt the opening of the pool in
--                  pgsql_service.go, Server/Rules.antt validation_service_provider.go, and
--                  Server/Main.antt main.go with routes/console and console_service_provider.go.
--   Console        app/console. Console/LineFilter.antt, Console/Reporter.antt and
--                  Console/TestCommand.antt are app/console/test, Console/EnvFile.antt and
--                  Console/SecretCommand.antt are app/console/jwt/secret.go, Console/Confirm.antt is
--                  confirm.go, and Console/Commands.antt the commands of app/console/migrations.
--   Logs           app/services/core/log_service.go: levels, the daily files and their pruning.
--   Prelude        Shared names and lemmas: texts as lists of bytes, maps, results, actions.
--
-- The boot reads the settings, opens the log and the pool, builds the router of the settings and serves it.
-- The router composes the global middlewares, which share the store of the throttle and the exceptions,
-- with the middlewares and the handler of the route that gin picks; the handlers use the tokens, the models
-- and the resources. The commands of the console use the settings, the migrator and the seeders.
--
-- How the source is read:
--   A duration and a time are native numbers of nanoseconds, and a limit's window and count are signed.
--   Products of an int64 wrap around as they do in Go.
--   A float64 of the rate limiter is a natural number of 2 ^ -1074, the least one, and each operation
--   rounds to 53 bits, half to even; numbers are neither negative nor too large for a float64. A product
--   and a sum are rounded one after the other, as on amd64. The doubling that finds the 53 bits runs on
--   fuel, one for each exponent. The store's clock is an argument of each call.
--   A text is the list of its bytes. Spaces and letters are those of ASCII.
--   A missing value is none, a nil error of an exception is nil, and a method that fails returns the
--   state that it had reached together with the error. The boot and the test command return a trace of
--   what they did to the world.
--   The loop of the line filter runs on fuel: one more than the number of the pending bytes, of which
--   each round takes at least one. The digits of a sequence number run on fuel as well, one more than
--   the number. All other loops are structural.
--
-- Parameters, for code that is not in the repository: the database and its queries with the laws of
-- transactions and of a WHERE clause, the driver that opens the pool, the CORS middleware of
-- gin-contrib, gin's choice of a route and its binding of a request, the JWT library with the laws of its
-- documentation, argon2 and the Base64 of a password's hash, url.Parse, what the flag package makes of
-- the arguments, the process of the toolchain, the fake names and days of the factories, the writer
-- behind the line filter, and the operations on files.
--
-- Not modelled: the SQL of the schema's migrations; the lifetimes of connections; the timeouts of the
-- server; the colours of the test report; the sample service. Log lines are left out but for those of
-- a request and of the boot.
mod Prelude
pub mod Throttle
pub mod Database
pub mod Http
pub mod Settings
pub mod App
pub mod Server
pub mod Logs
pub mod Console
