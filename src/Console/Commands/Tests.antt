-- ===== src/Console/Commands/Tests.antt =====
-- Commands that are refused and approved, over a small table.
use gin_di.Prelude.Trim.{trim_left, trim_right, trim_space}
use gin_di.Http.Exceptions.{to_lower}
use gin_di.Prelude.{
  Text, codes, same, List, [], ◌∷◌, ◌++◌, map, Option, none, Bool, true, false, not, ◌≡◌, refl, ◌⊎◌,
  ok,
}
use gin_di.Console.Confirm.{confirm}
use gin_di.Console.Commands.{
  with_flags, unless_refused, Flags, given, Terminal, migrate_fresh_command,
  migrate_refresh_command, SeedFlags, seed_command, production_env,
}
use gin_di.Console.Commands.Asks.{IsApproved, destructive_commands_ask}
use gin_di.Database.Interface.{
  Database, Failure, Records, Statement, create_repository, insert_migration, delete_migration,
  drop_table, without,
}
use gin_di.Database.Migrator
use gin_di.Database.Migrator.{RegisteredMigration}
use gin_di.Database.Seeder.{call, run_named, RegisteredSeeder, run_class}

abbrev execute : Statement → Records → Records × Option Text
execute create_repository rows = (rows, none)
execute (insert_migration name batch) rows = (rows ++ (name, batch) ∷ [], none)
execute (delete_migration name) rows = (without name rows, none)
execute (drop_table name) rows = ([], none)

abbrev small : Database
small = record {
  Db = Records;
  Tx = Records;
  Error = Text;
  begin = λ rows. ok rows;
  exec = execute;
  commit = λ tx rows. (tx, none);
  rollback = λ tx rows. rows;
  select_names = λ rows. ok (record { scans = map ok (map (λ r. r.0) rows); stopped = none });
  select_last_batch = λ rows. ok (record { scans = ok 1 ∷ []; stopped = none });
  select_tables = λ rows. ok (record { scans = ok (codes "migrations") ∷ []; stopped = none });
}

abbrev rows : Records
rows = (codes "users", 1) ∷ []

abbrev types : {E : Type 0} → Text → Terminal E
types text = record { writing = none; answer = record { text = text; interruption = none } }

abbrev users : RegisteredMigration small
users = record { name = codes "users"; up = λ tx. (tx, none); down = λ tx. (tx, none) }

destructive_commands_ask_example :
    (((migrate_fresh_command small (given false) (types (codes " YES ")) none (users ∷ []) rows).0
        ≡ rows)
      ⊎ ((force : Bool) × (◌≡◌ {A = Flags Bool (Failure Text)} (given false) (given force))
          × IsApproved {E = Failure Text} (not force) (types (codes " YES "))
          × (migrate_fresh_command small
                (given false)
                (types (codes " YES "))
                none
                (users ∷ [])
                rows
              ≡ Migrator.fresh small (users ∷ []) rows)))
    × (((migrate_refresh_command small
            (given false)
            (types (codes " YES "))
            none
            (users ∷ [])
            rows).0
          ≡ rows)
        ⊎ ((force : Bool) × (◌≡◌ {A = Flags Bool (Failure Text)} (given false) (given force))
            × IsApproved {E = Failure Text} (not force) (types (codes " YES "))
            × (migrate_refresh_command small
                  (given false)
                  (types (codes " YES "))
                  none
                  (users ∷ [])
                  rows
                ≡ Migrator.refresh small (users ∷ []) rows)))
destructive_commands_ask_example =
    destructive_commands_ask small (given false) (types (codes " YES ")) none (users ∷ []) rows

-- "y" is not enough.
refused :
    migrate_fresh_command small (given false) (types (codes "y")) none (users ∷ []) rows
    ≡ (rows, ok tt)
unfolding migrate_fresh_command with_flags unless_refused confirm same to_lower trim_space
    trim_right trim_left
refused = refl

abbrev noting : Text → RegisteredSeeder (List Text)
noting name = record { name = name; seed = λ s. (name ∷ s, ok tt) }

abbrev seeders : List (RegisteredSeeder (List Text))
seeders = noting (codes "users") ∷ noting (codes "events") ∷ []

abbrev events_only : SeedFlags
events_only = record { class_name = codes "events"; force = true }

seeded :
    seed_command production_env (given events_only) (types []) seeders []
    ≡ (codes "events" ∷ [], ok tt)
unfolding seed_command with_flags unless_refused same run_class run_named call
seeded = refl
