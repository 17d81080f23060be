-- ===== src/Console/Commands/Asks.antt =====
-- Nothing is destroyed without a flag or an answer.
use gin_di.Prelude.{
  Text, same, List, [], Option, none, some, Bool, true, false, not, ◌&&◌, Bool-cases, if◌then◌else◌,
  ◌≡◌, refl, ap, ◌∙◌, ◌⊎◌, inl, inr, ok, Result-cases,
}
use gin_di.Prelude.{Action}
use gin_di.Http.Errors.{GoError}
use gin_di.Console.Confirm.{confirm, confirm_yes, is_confirmation}
use gin_di.Console.Commands.{
  Flags, help, invalid, given, Terminal, with_flags, unless_refused, connected, failure,
  migrate_fresh_command, migrate_refresh_command, SeedFlags, seed_command, production_env,
}
use gin_di.Database.Interface.{Database, Failure}
use gin_di.Database.Migrator
use gin_di.Database.Migrator.{RegisteredMigration}
use gin_di.Database.Seeder.{RegisteredSeeder, run_seeders, run_class}

-- Nobody has to be asked, or the operator typed the word.
abbrev pub IsApproved : {E : Type 0} → Bool → Terminal E → Type 0
IsApproved ask terminal = (ask ≡ false) ⊎ (is_confirmation terminal.answer.text ≡ true)

module _ {S E : Type 0} (context : Text → E → E) where
  unless_refused-cases :
      (ask : Bool) (terminal : Terminal E) (body : Action S E (Unit {0})) (s : S)
      → ((unless_refused context ask terminal body s).0 ≡ s)
        ⊎ (IsApproved ask terminal × (unless_refused context ask terminal body s ≡ body s))
  unfolding unless_refused
  unless_refused-cases false terminal body s = inr (inl refl, refl)
  unless_refused-cases true terminal body s =
      elim (Result-cases (confirm context terminal.writing terminal.answer)) [
        | inr (e, a) ↦ inl (rw (unless_refused, a) refl)
        | inl (confirmed, a) ↦ elim (Bool-cases confirmed) [
          | inr b ↦ inl (rw (unless_refused, a, b) refl)
          | inl b ↦ inr (
            inr (confirm_yes context terminal.writing terminal.answer (a ∙ ap ok b)),
            rw (unless_refused, a, b) refl,
          )
        ]
      ]

  connected-cases :
      (connection : Option E) (body : Action S E (Unit {0})) (s : S)
      → ((connected context connection body s).0 ≡ s)
        ⊎ ((connection ≡ none) × (connected context connection body s ≡ body s))
  unfolding connected
  connected-cases none body s = inr (refl, refl)
  connected-cases (some e) body s = inl refl

  -- A command that asks before it runs its body on a connection.
  asked-cases :
      (flags : Flags Bool E) (terminal : Terminal E) (connection : Option E)
      (body : Action S E (Unit {0})) (s : S)
      → let run = with_flags context flags λ force.
        unless_refused context (not force) terminal (connected context connection body) in
        ((run s).0 ≡ s)
        ⊎ ((force : Bool) × (flags ≡ given force)
            × IsApproved (not force) terminal
            × (run s ≡ body s))
  unfolding with_flags
  asked-cases help terminal connection body s = inl refl
  asked-cases (invalid e) terminal connection body s = inl refl
  asked-cases (given force) terminal connection body s =
      elim (unless_refused-cases (not force) terminal (connected context connection body) s) [
        | inl kept ↦ inl kept
        | inr (approved, runs) ↦ elim (connected-cases connection body s) [
          | inl kept ↦ inl (ap (λ r. r.0) runs ∙ kept)
          | inr (open_pool, works) ↦ inr (force, refl, approved, runs ∙ works)
        ]
      ]

-- Dropping every table and rolling every migration back leave the database alone, or they were
-- started with --force or after the operator typed yes, and do what the migrator does.
pub destructive_commands_ask :
    (d : Database) (flags : Flags Bool (Failure d.Error)) (terminal : Terminal (Failure d.Error))
    (connection : Option (Failure d.Error)) (migrations : List (RegisteredMigration d)) (db : d.Db)
    → (((migrate_fresh_command d flags terminal connection migrations db).0 ≡ db)
        ⊎ ((force : Bool) × (flags ≡ given force)
            × IsApproved (not force) terminal
            × (migrate_fresh_command d flags terminal connection migrations db
                ≡ Migrator.fresh d migrations db)))
      × (((migrate_refresh_command d flags terminal connection migrations db).0 ≡ db)
          ⊎ ((force : Bool) × (flags ≡ given force)
              × IsApproved (not force) terminal
              × (migrate_refresh_command d flags terminal connection migrations db
                  ≡ Migrator.refresh d migrations db)))
unfolding migrate_fresh_command migrate_refresh_command
destructive_commands_ask d flags terminal connection migrations db = (
  asked-cases failure flags terminal connection (Migrator.fresh d migrations) db,
  asked-cases failure flags terminal connection (Migrator.refresh d migrations) db,
)

-- Seeding leaves everything alone, or outside production, with --force or after the operator typed
-- yes it does what the seeder does: all the seeders, or the one of the class.
pub seed_command_asks :
    {S : Type 0} (env : Text) (flags : Flags SeedFlags GoError) (terminal : Terminal GoError)
    (seeders : List (RegisteredSeeder S)) (s : S)
    → ((seed_command env flags terminal seeders s).0 ≡ s)
      ⊎ ((asked : SeedFlags) × (flags ≡ given asked)
          × IsApproved (same env production_env && not asked.force) terminal
          × (seed_command env flags terminal seeders s
              ≡ (if same asked.class_name []
                    then run_seeders seeders
                    else run_class seeders asked.class_name)
                  s))
unfolding seed_command with_flags
seed_command_asks env help terminal seeders s = inl refl
seed_command_asks env (invalid e) terminal seeders s = inl refl
seed_command_asks env (given asked) terminal seeders s =
    elim (unless_refused-cases GoError.wrap (same env production_env && not asked.force) terminal
      (if same asked.class_name [] then run_seeders seeders else run_class seeders asked.class_name)
      s) [ inl kept ↦ inl kept | inr (approved, runs) ↦ inr (asked, refl, approved, runs) ]
