-- ===== src/Database/Migrator/Fresh.antt =====
-- `Fresh`: dropping every table is one transaction.
use gin_di.Prelude.{
  and_then_rule, and_then, Action-cases, subst, ap, ◌∙◌, ◌++◌, ◌≡◌, refl, inl, inr, ◌⊎◌, sym, List,
  [], ◌∷◌, Option, none, some, Result, ok, err, Result-cases, Text, codes,
}
use gin_di.Database.Interface.{Database, Failure, IsTransactional, drop_table, wrap, cause}
use gin_di.Database.Service
use gin_di.Database.Migrator.{
  RegisteredMigration, committed, dropped, drop_each, drop_tables, drop_all_tables, table_names,
  in_transaction, fresh, run,
}
use gin_di.Database.Migrator.Reads.{err≢ok}

module _ (d : Database) (laws : IsTransactional d) where
  open d use {Db, Tx, Error, exec, commit, rollback}

  -- A method that fails without a trace, or does not fail.
  abbrev pub KeepsOnError : Db → Db × Result (Failure Error) (Unit {0}) → Type 0
  KeepsOnError db r = (r.1 ≡ ok tt) ⊎ ((e : Failure Error) × (r ≡ (db, err e)))

  committed-Keeps :
      (db : Db) (r : Db × Option Error)
      → ((e : Error) → r.1 ≡ some e → r.0 ≡ db)
      → KeepsOnError db (committed d r)
  unfolding committed
  committed-Keeps db (db', none) failed = inl refl
  committed-Keeps db (db', some e) failed =
      inr (wrap (codes "committing transaction: ") (cause e), rw (failed e refl))

  dropped-Keeps :
      (db : Db) (table : Text) (r : Tx × Option Error)
      (rest : Tx → Db → Db × Result (Failure Error) (Unit {0}))
      → ((tx : Tx) → KeepsOnError db (rest tx db))
      → KeepsOnError db (dropped d table r rest db)
  unfolding dropped
  dropped-Keeps db table (tx, none) rest h = h tx
  dropped-Keeps db table (tx, some e) rest h =
      inr
        (wrap (codes "dropping " ++ table ++ codes ": ") (cause e), rw (laws.rollback_keeps tx db))

  drop_each-Keeps :
      (tables : List Text) (tx : Tx) (db : Db) → KeepsOnError db (drop_each d tables tx db)
  unfolding drop_each
  drop_each-Keeps [] tx db = committed-Keeps db (commit tx db) (laws.commit_fails tx db)
  drop_each-Keeps (table ∷ tables) tx db =
      dropped-Keeps db table (exec (drop_table table) tx) (drop_each d tables)
        (λ tx'. drop_each-Keeps tables tx' db)

  drop_tables-Keeps : (tables : List Text) (db : Db) → KeepsOnError db (drop_tables d tables db)
  unfolding drop_tables in_transaction Service.begin
  drop_tables-Keeps [] db = inl refl
  drop_tables-Keeps (table ∷ tables) db = elim (Result-cases (d.begin db)) [
    | inl (tx, e) ↦ rw (e, in_transaction) (drop_each-Keeps (table ∷ tables) tx db)
    | inr (x, e) ↦
        rw (e, in_transaction)
          (inr (
            wrap (codes "beginning transaction: ")
                (wrap (codes "beginning transaction: ") (cause x)),
            refl,
          ))
  ]

  -- Either every table is dropped, or the call fails and the database is as before.
  pub drop_all_tables-Keeps : (db : Db) → KeepsOnError db (drop_all_tables d db)
  unfolding drop_all_tables table_names
  drop_all_tables-Keeps db =
      and_then_rule (KeepsOnError db) (table_names d db) _
        (λ db' tables read.
          subst (λ s. KeepsOnError s (drop_tables d tables db')) (sym (ap (λ r. r.0) read))
            (drop_tables-Keeps tables db'))
        (λ db' e unread. inr (e, sym (ap (λ r. (r.0, err e)) unread)))

  -- A rebuild fails while it drops the tables, and leaves the database as it was, or it drops them and
  -- is a run on the database that this leaves.
  pub fresh-cases :
      (ms : List (RegisteredMigration d)) (db : Db)
      → ((e : Failure Error) × (fresh d ms db ≡ (db, err e)))
        ⊎ ((db' : Db) × (drop_all_tables d db ≡ (db', ok tt)) × (fresh d ms db ≡ run d ms db'))
  unfolding fresh
  fresh-cases ms db = elim (Action-cases (drop_all_tables d db)) [
    | inl (db', _, e) ↦ inr (db', e, ap (λ r. and_then r (λ _. run d ms)) e)
    | inr (db', x, e) ↦ elim (drop_all_tables-Keeps db) [
      | inl never ↦ absurd (err≢ok (sym (ap (λ r. r.1) e) ∙ never))
      | inr (y, kept) ↦ inl (y, ap (λ r. and_then r (λ _. run d ms)) kept)
    ]
  ]
