-- ===== src/Database/Service.antt =====
-- app/services/core/pgsql_service.go: what the service adds to the driver's calls.
use gin_di.Prelude.{Text, codes, Result, ok, err}
use gin_di.Database.Interface.{Database, Failure, cause, wrap, Rows}

-- The calls' own context, put before a driver's error.
abbrev pub wrap_error : {E A : Type 0} → Text → Result E A → Result (Failure E) A
wrap_error context (ok a) = ok a
wrap_error context (err e) = err (wrap context (cause e))

module _ (d : Database) where
  open d use {Db, Tx, Error}

  unfoldable pub begin : Db → Result (Failure Error) Tx
  begin db = wrap_error (codes "beginning transaction: ") (d.begin db)

  -- `Read`, over one of the queries.
  unfoldable pub read :
      {A : Type 0} → (Db → Result Error (Rows Error A)) → Db → Result (Failure Error) (Rows Error A)
  read query db = wrap_error (codes "executing query: ") (query db)
