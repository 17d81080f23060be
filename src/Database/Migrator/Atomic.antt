-- ===== src/Database/Migrator/Atomic.antt =====
-- One migration is applied, or rolled back, together with its row, or nothing happens.
use gin_di.Prelude.{
  ℕ, ◌≡◌, refl, inl, inr, ◌⊎◌, Option, none, some, [], ◌∷◌, ◌++◌, Result, ok, err, Text,
  Result-cases,
}
use gin_di.Prelude.{◌∙◌, ap}
use gin_di.Database.Interface.{
  wrap, Database, Failure, cause, Statement, Records, without, IsTransactional, insert_migration,
  delete_migration, create_repository,
}
use gin_di.Database.Service
use gin_di.Database.Migrator.{
  codes, revert_in, create_in, apply_in, RegisteredMigration, committed, seal, change,
  in_transaction, apply, revert, ensure_repository,
}

module _ (d : Database) (laws : IsTransactional d) where
  open d use {Db, Tx, Error, exec, commit, rollback}
  open laws use {recorded, seen}

  -- A migration whose steps leave the migrations table alone.
  pub record IsOrdinary (m : RegisteredMigration d) : Type 0 where
    pub up_keeps : (tx : Tx) → (m.up tx).1 ≡ none → seen (m.up tx).0 ≡ seen tx
    pub down_keeps : (tx : Tx) → (m.down tx).1 ≡ none → seen (m.down tx).0 ≡ seen tx

  -- A method from `db` that ends with these rows, or fails and changes nothing.
  abbrev pub IsAtomic : Db → Records → Db × Result (Failure Error) (Unit {0}) → Type 0
  IsAtomic db rows r =
      ((r.1 ≡ ok tt) × (recorded r.0 ≡ rows)) ⊎ ((e : Failure Error) × (r ≡ (db, err e)))

  -- The step of a migration and the statement on its row went through in one transaction, which was
  -- committed and leaves these rows; or the call fails and the database is as before.
  abbrev pub IsCommitted :
      Db
      → (Tx → Tx × Option Error)
      → Statement
      → Records
      → Db × Result (Failure Error) (Unit {0})
      → Type 0
  IsCommitted db step statement rows r =
      ((tx : Tx) × (d.begin db ≡ ok tx)
        × ((step tx).1 ≡ none)
        × ((exec statement (step tx).0).1 ≡ none)
        × (r ≡ ((commit (exec statement (step tx).0).0 db).0, ok tt))
        × (recorded r.0 ≡ rows))
      ⊎ ((e : Failure Error) × (r ≡ (db, err e)))

  committed_rule :
      (P : Db × Result (Failure Error) (Unit {0}) → Type 0) (db : Db) (r : Db × Option Error)
      → ((e : Error) → r.1 ≡ some e → r.0 ≡ db)
      → (r.1 ≡ none → P (r.0, ok tt))
      → ((e : Failure Error) → P (db, err e))
      → P (committed d r)
  unfolding committed
  committed_rule P db (db', none) kept went failed = went refl
  committed_rule P db (db', some e) kept went failed =
      rw (kept e refl) (failed (wrap (codes "committing transaction: ") (cause e)))

  seal_rule :
      (P : Db × Result (Failure Error) (Unit {0}) → Type 0) (db : Db) (context : Text)
      (r : Tx × Option Error)
      → (r.1 ≡ none → (commit r.0 db).1 ≡ none → P ((commit r.0 db).0, ok tt))
      → ((e : Failure Error) → P (db, err e))
      → P (seal d r context db)
  unfolding seal
  seal_rule P db context (tx, none) went failed =
      committed_rule P db (commit tx db) (laws.commit_fails tx db) (went refl) failed
  seal_rule P db context (tx, some e) went failed =
      rw (laws.rollback_keeps tx db) (failed (wrap context (cause e)))

  change_rule :
      (P : Db × Result (Failure Error) (Unit {0}) → Type 0) (db : Db) (statement : Statement)
      (context : Text) (r : Tx × Option Error)
      → (r.1 ≡ none
          → (exec statement r.0).1 ≡ none
          → (commit (exec statement r.0).0 db).1 ≡ none
          → P ((commit (exec statement r.0).0 db).0, ok tt))
      → ((e : Failure Error) → P (db, err e))
      → P (change d r statement context db)
  unfolding change
  change_rule P db statement context (tx, none) went failed =
      seal_rule P db context (exec statement tx) (went refl) failed
  change_rule P db statement context (tx, some e) went failed =
      rw (laws.rollback_keeps tx db) (failed (cause e))

  in_transaction_rule :
      (P : Db × Result (Failure Error) (Unit {0}) → Type 0) (db : Db)
      (body : Tx → Db → Db × Result (Failure Error) (Unit {0}))
      → ((tx : Tx) → d.begin db ≡ ok tx → P (body tx db))
      → ((e : Failure Error) → P (db, err e))
      → P (in_transaction d body db)
  unfolding in_transaction Service.begin
  in_transaction_rule P db body run failed = elim (Result-cases (d.begin db)) [
    | inl (tx, e) ↦ rw (e, in_transaction) (run tx e)
    | inr (x, e) ↦
        rw (e, in_transaction)
          (failed (
            wrap (codes "beginning transaction: ")
              (wrap (codes "beginning transaction: ") (cause x))))
  ]

  -- A change of the migrations table behind a step that leaves it alone.
  change-IsCommitted :
      (step : Tx → Tx × Option Error) (statement : Statement) (context : Text)
      (rows : Records → Records) (db : Db)
      → ((tx : Tx) → (step tx).1 ≡ none → seen (step tx).0 ≡ seen tx)
      → ((tx : Tx) → (exec statement tx).1 ≡ none → seen (exec statement tx).0 ≡ rows (seen tx))
      → IsCommitted db step statement
          (rows (recorded db))
          (in_transaction d (λ tx. change d (step tx) statement context) db)
  change-IsCommitted step statement context rows db keeps writes =
      in_transaction_rule P db (λ tx. change d (step tx) statement context)
        (λ tx begun.
          change_rule P db statement context (step tx)
            (λ stepped written gone. inl (
              tx,
              begun,
              stepped,
              written,
              refl,
              laws.commit_publishes (exec statement (step tx).0).0 db gone
                  ∙ writes (step tx).0 written
                  ∙ ap rows (keeps tx stepped ∙ laws.begin_sees db tx begun),
            ))
            failed)
        failed
    where
      P : Db × Result (Failure Error) (Unit {0}) → Type 0
      P = IsCommitted db step statement (rows (recorded db))

      failed : (e : Failure Error) → P (db, err e)
      failed e = inr (e, refl)

  -- An ordinary migration, one that does not touch the rows itself, is applied together with its
  -- row: its Up and the insert of its row, both without an error, make up the transaction that is
  -- committed, and the row stands behind those that there were; or the call fails and the database
  -- is as before.
  pub apply-IsCommitted :
      (m : RegisteredMigration d) (batch : ℕ) (db : Db)
      → IsOrdinary m
      → IsCommitted db m.up
          (insert_migration m.name batch)
          (recorded db ++ (m.name, batch) ∷ [])
          (apply d m batch db)
  unfolding apply apply_in
  apply-IsCommitted m batch db h =
      change-IsCommitted m.up (insert_migration m.name batch) (codes "recording migration: ")
        (λ rows. rows ++ (m.name, batch) ∷ []) db h.up_keeps (laws.insert_sees m.name batch)

  -- An ordinary migration is rolled back together with its row, or the call fails and the
  -- database is as before.
  pub revert-IsCommitted :
      (m : RegisteredMigration d) (db : Db)
      → IsOrdinary m
      → IsCommitted db m.down
          (delete_migration m.name)
          (without m.name (recorded db))
          (revert d m db)
  unfolding revert revert_in
  revert-IsCommitted m db h =
      change-IsCommitted m.down (delete_migration m.name) (codes "forgetting migration: ")
        (without m.name) db h.down_keeps (laws.delete_sees m.name)

  pub apply-IsAtomic :
      (m : RegisteredMigration d) (batch : ℕ) (db : Db)
      → IsOrdinary m
      → IsAtomic db (recorded db ++ (m.name, batch) ∷ []) (apply d m batch db)
  apply-IsAtomic m batch db h = elim (apply-IsCommitted m batch db h) [
    | inl (tx, begun, stepped, written, went, rows) ↦ inl (ap (λ r. r.1) went, rows)
    | inr failed ↦ inr failed
  ]

  pub ensure_repository-IsAtomic : (db : Db) → IsAtomic db (recorded db) (ensure_repository d db)
  unfolding ensure_repository create_in
  ensure_repository-IsAtomic db =
      in_transaction_rule P db (create_in d)
        (λ tx begun.
          seal_rule P db (codes "creating migrations table: ") (exec create_repository tx)
            (λ made gone. inl (
              refl,
              laws.commit_publishes (exec create_repository tx).0 db gone
                  ∙ laws.create_sees tx made
                  ∙ laws.begin_sees db tx begun,
            ))
            failed)
        failed
    where
      P : Db × Result (Failure Error) (Unit {0}) → Type 0
      P = IsAtomic db (recorded db)

      failed : (e : Failure Error) → P (db, err e)
      failed e = inr (e, refl)

  -- Creating the table anew changes no row, whether it succeeds or not.
  pub ensure_repository-recorded : (db : Db) → recorded (ensure_repository d db).0 ≡ recorded db
  ensure_repository-recorded db = elim (ensure_repository-IsAtomic db) [
    | inl (_, same_rows) ↦ same_rows
    | inr (e, same_db) ↦ ap (λ r. recorded r.0) same_db
  ]
