-- ===== src/Database/Interface.antt =====
-- What the application relies on of database/sql, lib/pq and the PostgreSQL server behind them. It
-- is not code of the repository, so it is a parameter: operations, and laws that state the
-- documented behaviour of transactions and of the statements that the migrator sends.
use gin_di.Prelude.{
  ◌≢◌, same, if◌then◌else◌, ℕ, Text, List, [], ◌∷◌, ◌++◌, Option, none, some, Result, ok, ◌≡◌, ◌≤◌,
  map, All,
}

-- The errors of the driver under the contexts that `fmt.Errorf("…: %w", err)` puts before them.
pub data Failure (E : Type 0) : Type 0 where
  cause : E → Failure E
  wrap : Text → Failure E → Failure E
  message : Text → Failure E

-- A cursor: what each `Scan` gives, and what `Err` says behind the last row.
pub record Rows (E : Type 0) (A : Type 0) : Type 0 where
  pub scans : List (Result E A)
  pub stopped : Option E

-- The statements of the migrator: CREATE TABLE IF NOT EXISTS migrations, INSERT INTO migrations,
-- DELETE FROM migrations, and DROP TABLE IF EXISTS … CASCADE.
pub data Statement : Type 0 where
  create_repository : Statement
  insert_migration : Text → ℕ → Statement
  delete_migration : Text → Statement
  drop_table : Text → Statement

pub record Database : Type 1 where
  -- The committed state, a transaction in progress, and the driver's errors.
  pub Db : Type 0
  pub Tx : Type 0
  pub Error : Type 0
  pub begin : Db → Result Error Tx
  pub exec : Statement → Tx → Tx × Option Error
  pub commit : Tx → Db → Db × Option Error
  pub rollback : Tx → Db → Db
  -- SELECT name, SELECT COALESCE(MAX(batch), 0), and the base tables of the catalogue.
  pub select_names : Db → Result Error (Rows Error Text)
  pub select_last_batch : Db → Result Error (Rows Error ℕ)
  pub select_tables : Db → Result Error (Rows Error Text)

-- The rows of the migrations table.
abbrev pub Records : Type 0
Records = List (Text × ℕ)

-- DELETE … WHERE name = $1
unfoldable pub without : Text → Records → Records
without name [] = []
without name ((n, b) ∷ rows) =
    let rest = without name rows in if same n name then rest else (n, b) ∷ rest

-- Transactions are atomic, and the statements on the migrations table do what they say. A table that
-- does not exist yet counts as empty.
pub record IsTransactional (d : Database) : Type 0 where
  pub recorded : d.Db → Records
  pub seen : d.Tx → Records
  pub begin_sees : (db : d.Db) (tx : d.Tx) → d.begin db ≡ ok tx → seen tx ≡ recorded db
  pub create_sees :
      (tx : d.Tx)
      → (d.exec create_repository tx).1 ≡ none
      → seen (d.exec create_repository tx).0 ≡ seen tx
  pub insert_sees :
      (name : Text) (batch : ℕ) (tx : d.Tx)
      → (d.exec (insert_migration name batch) tx).1 ≡ none
      → seen (d.exec (insert_migration name batch) tx).0 ≡ seen tx ++ (name, batch) ∷ []
  pub delete_sees :
      (name : Text) (tx : d.Tx)
      → (d.exec (delete_migration name) tx).1 ≡ none
      → seen (d.exec (delete_migration name) tx).0 ≡ without name (seen tx)
  pub commit_publishes :
      (tx : d.Tx) (db : d.Db) → (d.commit tx db).1 ≡ none → recorded (d.commit tx db).0 ≡ seen tx
  pub commit_fails :
      (tx : d.Tx) (db : d.Db) (e : d.Error) → (d.commit tx db).1 ≡ some e → (d.commit tx db).0 ≡ db
  pub rollback_keeps : (tx : d.Tx) (db : d.Db) → d.rollback tx db ≡ db
  -- A cursor that neither fails a scan nor stops with an error gave every row.
  pub names_complete :
      (db : d.Db) (names : List Text)
      → d.select_names db ≡ ok (record { scans = map ok names; stopped = none })
      → names ≡ map (λ r. r.0) (recorded db)
  pub last_batch_bounds :
      (db : d.Db) (rows : Rows d.Error ℕ) (last : ℕ) (rest : List (Result d.Error ℕ))
      → d.select_last_batch db ≡ ok rows
      → rows.scans ≡ ok last ∷ rest
      → All (λ r. r.1 ≤ last) (recorded db)
  -- The query for the largest batch is an aggregate: it has a row, or the cursor an error.
  pub last_batch_row :
      (db : d.Db) (rows : Rows d.Error ℕ)
      → d.select_last_batch db ≡ ok rows
      → rows.scans ≡ []
      → rows.stopped ≢ none
