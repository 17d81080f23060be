-- ===== src/Database/Migrator.antt =====
-- database/migrator.go: applying, recording and rolling back migrations. A method takes the
-- committed database and returns it with its error; what it logs is left out.
pub mod Atomic
pub mod Reads
pub mod Run
pub mod Settled
pub mod Reset
pub mod Fresh
mod Tests
use gin_di.Database.Interface.{
  Database, Failure, cause, wrap, Rows, Statement, create_repository, insert_migration,
  delete_migration, drop_table,
}
use gin_di.Database.Service
use gin_di.Prelude.{
  ℕ, ◌+◌, Text, codes, Bool, not, if◌then◌else◌, Option, none, some, List, [], ◌∷◌, ◌++◌, reverse,
  Result, ok, err, Action, ◌>>=◌, ◌>>◌, and_then, reading, done, put, has,
}

-- `fmt.Errorf("…: %w", err)` on the error of an action.
abbrev under :
    {S E : Type 0} → Text → S × Result (Failure E) (Unit {0}) → S × Result (Failure E) (Unit {0})
under context (s, ok a) = (s, ok a)
under context (s, err e) = (s, err (wrap context e))

-- The rows of a cursor, or the first error: of a scan, or of the iteration.
collect : {E A : Type 0} → Text → Text → List (Result E A) → Option E → Result (Failure E) (List A)
collect scanning iterating [] none = ok []
collect scanning iterating [] (some e) = err (wrap iterating (cause e))
collect scanning iterating (err e ∷ rest) stopped = err (wrap scanning (cause e))
collect scanning iterating (ok a ∷ rest) stopped = elim (collect scanning iterating rest stopped) [
  | err e ↦ err e
  | ok as' ↦ ok (a ∷ as')
]

-- A set of names, as the keys of a map.
name_set : List Text → List (Text × Unit {0})
name_set [] = []
name_set (n ∷ ns) = put n tt (name_set ns)

module _ (d : Database) where
  open d use {Db, Tx, Error, exec, commit, rollback}

  -- A migration with the name under which it is recorded.
  pub record RegisteredMigration : Type 0 where
    pub name : Text
    pub up : Tx → Tx × Option Error
    pub down : Tx → Tx × Option Error

  abbrev Method : Type 0 → Type 0
  Method A = Action Db (Failure Error) A

  committed : Db × Option Error → Db × Result (Failure Error) (Unit {0})
  committed (db, none) = (db, ok tt)
  committed (db, some e) = (db, err (wrap (codes "committing transaction: ") (cause e)))

  -- A statement that is the last before the commit.
  seal : Tx × Option Error → Text → Method (Unit {0})
  seal (tx, some e) context db = (rollback tx db, err (wrap context (cause e)))
  seal (tx, none) context db = committed (commit tx db)

  -- A migration's own step, and the statement that records it, in one transaction.
  change : Tx × Option Error → Statement → Text → Method (Unit {0})
  change (tx, some e) statement context db = (rollback tx db, err (cause e))
  change (tx, none) statement context db = seal (exec statement tx) context db

  in_transaction : (Tx → Method (Unit {0})) → Method (Unit {0})
  in_transaction body db = elim (Service.begin d db) [
    | err e ↦ (db, err (wrap (codes "beginning transaction: ") e))
    | ok tx ↦ body tx db
  ]

  -- The bodies of the three transactions.
  apply_in : RegisteredMigration → ℕ → Tx → Method (Unit {0})
  apply_in registered batch tx =
      change (registered.up tx) (insert_migration registered.name batch)
        (codes "recording migration: ")

  revert_in : RegisteredMigration → Tx → Method (Unit {0})
  revert_in registered tx =
      change (registered.down tx) (delete_migration registered.name)
        (codes "forgetting migration: ")

  create_in : Tx → Method (Unit {0})
  create_in tx = seal (exec create_repository tx) (codes "creating migrations table: ")

  pub apply : RegisteredMigration → ℕ → Method (Unit {0})
  apply registered batch = in_transaction (apply_in registered batch)

  pub revert : RegisteredMigration → Method (Unit {0})
  revert registered = in_transaction (revert_in registered)

  pub ensure_repository : Method (Unit {0})
  ensure_repository = in_transaction create_in

  applied_of :
      Result (Failure Error) (Rows Error Text) → Result (Failure Error) (List (Text × Unit {0}))
  applied_of (err e) = err (wrap (codes "reading applied migrations: ") e)
  applied_of (ok rows) =
      elim (collect (codes "scanning applied migration: ") (codes "iterating applied migrations: ")
        rows.scans rows.stopped) [ err e ↦ err e | ok names ↦ ok (name_set names) ]

  pub applied_migrations : Method (List (Text × Unit {0}))
  applied_migrations = reading (λ db. applied_of (Service.read d d.select_names db))

  -- `if rows.Next() { rows.Scan(&batch) }`, then `rows.Err()`.
  batch_of : List (Result Error ℕ) → Option Error → Result (Failure Error) ℕ
  batch_of (err e ∷ rest) stopped = err (wrap (codes "scanning the last batch: ") (cause e))
  batch_of scans (some e) = err (wrap (codes "iterating the last batch: ") (cause e))
  batch_of [] none = ok 1
  batch_of (ok batch ∷ rest) none = ok (batch + 1)

  next_batch_of : Result (Failure Error) (Rows Error ℕ) → Result (Failure Error) ℕ
  next_batch_of (err e) = err (wrap (codes "reading the last batch: ") e)
  next_batch_of (ok rows) = batch_of rows.scans rows.stopped

  pub next_batch : Method ℕ
  next_batch = reading (λ db. next_batch_of (Service.read d d.select_last_batch db))

  -- The loop of `Run`.
  apply_all : List RegisteredMigration → List (Text × Unit {0}) → ℕ → Method (Unit {0})
  apply_all [] applied batch db = (db, ok tt)
  apply_all (m ∷ ms) applied batch db =
      let rest = apply_all ms applied batch in
      if has m.name applied
      then rest db
      else and_then (under (codes "migrating " ++ m.name ++ codes ": ") (apply m batch db))
          (λ _. rest)

  pub run : List RegisteredMigration → Method (Unit {0})
  run migrations = do
    ensure_repository
    applied ← applied_migrations
    batch ← next_batch
    apply_all migrations applied batch

  -- The loop of `Reset`, over the migrations newest first.
  revert_all : List RegisteredMigration → List (Text × Unit {0}) → Method (Unit {0})
  revert_all [] applied db = (db, ok tt)
  revert_all (m ∷ ms) applied db =
      let rest = revert_all ms applied in
      if not (has m.name applied)
      then rest db
      else and_then (under (codes "rolling back " ++ m.name ++ codes ": ") (revert m db))
          (λ _. rest)

  pub reset : List RegisteredMigration → Method (Unit {0})
  reset migrations = do
    ensure_repository
    applied ← applied_migrations
    revert_all (reverse migrations) applied

  pub refresh : List RegisteredMigration → Method (Unit {0})
  refresh migrations = do reset migrations; run migrations

  names_of : Result (Failure Error) (Rows Error Text) → Result (Failure Error) (List Text)
  names_of (err e) = err (wrap (codes "listing tables: ") e)
  names_of (ok rows) =
      collect (codes "scanning table name: ") (codes "iterating tables: ") rows.scans rows.stopped

  pub table_names : Method (List Text)
  table_names = reading (λ db. names_of (Service.read d d.select_tables db))

  dropped : Text → Tx × Option Error → (Tx → Method (Unit {0})) → Method (Unit {0})
  dropped table (tx, some e) rest db =
      (rollback tx db, err (wrap (codes "dropping " ++ table ++ codes ": ") (cause e)))
  dropped table (tx, none) rest db = rest tx db

  -- The loop of `dropAllTables`, and the commit behind it.
  drop_each : List Text → Tx → Method (Unit {0})
  drop_each [] tx db = committed (commit tx db)
  drop_each (table ∷ tables) tx db =
      dropped table (exec (drop_table table) tx) (drop_each tables) db

  drop_tables : List Text → Method (Unit {0})
  drop_tables [] = done
  drop_tables (table ∷ tables) = in_transaction (drop_each (table ∷ tables))

  pub drop_all_tables : Method (Unit {0})
  drop_all_tables = do tables ← table_names; drop_tables tables

  pub fresh : List RegisteredMigration → Method (Unit {0})
  fresh migrations = do drop_all_tables; run migrations
