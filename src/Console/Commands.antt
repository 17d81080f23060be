-- ===== src/Console/Commands.antt =====
-- app/console/migrations: the commands that change the database, over what flag.Parse, the terminal
-- and the connection give.
use gin_di.Prelude.{
  ℕ, zero, suc, ◌+◌, ◌-◌, ◌*◌, ◌/◌, ◌%◌, ◌^◌, ◌≤◌, ◌<◌, Text, codes, same, same_refl, same_iff,
  ne_of_same, List, [], ◌∷◌, ◌++◌, map, append-nil, append_assoc, Option, none, some, Option-cases,
  Bool, true, false, not, ◌&&◌, ◌||◌, Bool-cases, ltb, leb, ◌==◌, if◌then◌else◌, ◌≡◌, ◌≢◌, ◌↔◌,
  refl, sym, ap, subst, ◌∙◌, ◌⊎◌, inl, inr, length, All, lookup, has, put, delete, lookup-put,
  Result, ok, err, Result-cases, ok_inj, err_not_ok, arith,
}
use gin_di.Prelude.{Action, ◌>>=◌, ◌>>◌, and_then, done, fail}
use gin_di.Http.Errors.{GoError}
use gin_di.Console.Confirm.{Answer, confirm}
use gin_di.Database.Interface.{Database, Failure}
use gin_di.Database.Migrator
use gin_di.Database.Migrator.{RegisteredMigration}
use gin_di.Database.Seeder.{RegisteredSeeder, run_seeders, run_class}
pub mod Asks
mod Tests

-- What flag.Parse makes of the arguments: -h, an error, or the flags.
pub data Flags (A E : Type 0) : Type 0 where
  help : Flags A E
  invalid : E → Flags A E
  given : A → Flags A E

-- What the operator is asked: the error of writing the prompt, and the answer.
pub record Terminal (E : Type 0) : Type 0 where
  pub writing : Option E
  pub answer : Answer E

module _ {S E : Type 0} (context : Text → E → E) where
  -- The flags of a command, and then what it does with them.
  unfoldable pub with_flags :
      {A : Type 0} → Flags A E → (A → Action S E (Unit {0})) → Action S E (Unit {0})
  with_flags help body = done
  with_flags (invalid e) body = fail (context (codes "parsing flags: ") e)
  with_flags (given a) body = body a

  -- `if !*force { … }`: whether to ask, and what is approved.
  unfoldable pub unless_refused : Bool → Terminal E → Action S E (Unit {0}) → Action S E (Unit {0})
  unless_refused false terminal body = body
  unless_refused true terminal body = elim (confirm context terminal.writing terminal.answer) [
    | err e ↦ fail e
    | ok confirmed ↦ if confirmed then body else done
  ]

  unfoldable pub connected : Option E → Action S E (Unit {0}) → Action S E (Unit {0})
  connected none body = body
  connected (some e) body = fail (context (codes "connecting to the database: ") e)

abbrev failure : {E : Type 0} → Text → Failure E → Failure E
failure = Failure.wrap

module _ (d : Database) where
  abbrev Command : Type 0
  Command = Action d.Db (Failure d.Error) (Unit {0})

  abbrev Wrapped : Type 0
  Wrapped = Failure d.Error

  -- `MigrateCommand.Handle`
  unfoldable pub migrate_command : Option Wrapped → List (RegisteredMigration d) → Command
  migrate_command connection migrations = connected failure connection (Migrator.run d migrations)

  -- `MigrateFreshCommand.Handle`
  unfoldable pub migrate_fresh_command :
      Flags Bool Wrapped
      → Terminal Wrapped
      → Option Wrapped
      → List (RegisteredMigration d)
      → Command
  migrate_fresh_command flags terminal connection migrations = with_flags failure flags λ force.
      unless_refused failure (not force) terminal
        (connected failure connection (Migrator.fresh d migrations))

  -- `MigrateRefreshCommand.Handle`
  unfoldable pub migrate_refresh_command :
      Flags Bool Wrapped
      → Terminal Wrapped
      → Option Wrapped
      → List (RegisteredMigration d)
      → Command
  migrate_refresh_command flags terminal connection migrations = with_flags failure flags λ force.
      unless_refused failure (not force) terminal
        (connected failure connection (Migrator.refresh d migrations))

pub record SeedFlags : Type 0 where
  pub class_name : Text
  pub force : Bool

abbrev pub production_env : Text
production_env = codes "production"

-- `SeedCommand.Handle`: `env` is APP_ENV.
unfoldable pub seed_command :
    {S : Type 0}
    → Text
    → Flags SeedFlags GoError
    → Terminal GoError
    → List (RegisteredSeeder S)
    → Action S GoError (Unit {0})
seed_command env flags terminal seeders = with_flags GoError.wrap flags λ asked.
    unless_refused GoError.wrap (same env production_env && not asked.force) terminal
      (if same asked.class_name [] then run_seeders seeders else run_class seeders asked.class_name)
