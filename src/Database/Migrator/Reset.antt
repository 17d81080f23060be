-- ===== src/Database/Migrator/Reset.antt =====
-- `Reset`: which migrations are rolled back, in which order, also when it fails on the way.
use gin_di.Prelude.{
  All-reverse, ◌≡◌, ◌≢◌, refl, inl, inr, ◌⊎◌, ◌∙◌, ap, sym, subst, List, [], ◌∷◌, ◌++◌, reverse,
  Result, ok, err, All, has, and_then, and_then_rule, Bool-cases, Text, codes, if◌then◌else◌,
}
use gin_di.Database.Interface.{
  Database, Failure, Records, without, IsTransactional, wrap, delete_migration,
}
use gin_di.Database.Migrator.{
  none, RegisteredMigration, under, revert, revert_all, reset, ensure_repository,
  applied_migrations,
}
use gin_di.Database.Migrator.Atomic.{
  IsOrdinary, IsCommitted, revert-IsCommitted, ensure_repository-recorded,
}
use gin_di.Database.Migrator.Reads.{applied_migrations-eq-ok, err≢ok}

module _ (d : Database) where
  -- The migrations that a map names, in their order.
  abbrev pub applied_of {ℓ} :
      {V : Type ℓ} → List (Text × V) → List (RegisteredMigration d) → List (RegisteredMigration d)
  applied_of applied [] = []
  applied_of applied (m ∷ ms) =
      if has m.name applied then m ∷ applied_of applied ms else applied_of applied ms

  -- The rows that stay when these migrations are forgotten, one after the other.
  abbrev pub forget : Records → List (RegisteredMigration d) → Records
  forget rows [] = rows
  forget rows (m ∷ ms) = forget (without m.name rows) ms

module _ (d : Database) (laws : IsTransactional d) where
  open d use {Db, Tx, Error}
  open laws use {recorded}

  -- These migrations were rolled back, in their order: for each the Down and the delete of its row, both
  -- without an error, make up a transaction that was committed.
  abbrev pub Reverted : Db → List (RegisteredMigration d) → Db → Type 0
  Reverted db [] later = later ≡ db
  Reverted db (m ∷ ms) later =
      (tx : Tx) × (d.begin db ≡ ok tx)
      × ((m.down tx).1 ≡ none)
      × ((d.exec (delete_migration m.name) (m.down tx).0).1 ≡ none)
      × Reverted (d.commit (d.exec (delete_migration m.name) (m.down tx).0).0 db).0 ms later

  -- The front of the migrations is rolled back from `db` on and forgotten, in their order; all of them,
  -- unless there is an error.
  pub record RevertsFront (db : Db) (rows : Records) (ms : List (RegisteredMigration d))
      (r : Db × Result (Failure Error) (Unit {0})) : Type 0 where
    pub front : List (RegisteredMigration d)
    pub back : List (RegisteredMigration d)
    pub split : ms ≡ front ++ back
    pub reverted : Reverted db front r.0
    pub forgotten : recorded r.0 ≡ forget d rows front
    pub ended : ((r.1 ≡ ok tt) × (back ≡ [])) ⊎ ((e : Failure Error) × (r.1 ≡ err e) × (back ≢ []))

  reverted_here :
      (rows : Records) (m : RegisteredMigration d) (ms : List (RegisteredMigration d)) (db : Db)
      (context : Text) (rest : Db → Db × Result (Failure Error) (Unit {0}))
      (r : Db × Result (Failure Error) (Unit {0}))
      → recorded db ≡ rows
      → IsCommitted d laws db m.down (delete_migration m.name) (without m.name rows) r
      → ((db' : Db) → RevertsFront db' (recorded db') ms (rest db'))
      → RevertsFront db rows (m ∷ ms) (and_then (under context r) (λ _. rest))
  reverted_here rows m ms db context rest (db', ok a) same_rows
        (inl (tx, begun, stepped, written, went, new)) h =
      let later = h db' in
      record {
        front = m ∷ later.front;
        back = later.back;
        split = ap (◌∷◌ m) later.split;
        reverted = (
          tx,
          begun,
          stepped,
          written,
          subst (λ s. Reverted s later.front (rest db').0) (ap (λ r. r.0) went) later.reverted,
        );
        forgotten = later.forgotten ∙ ap (λ rows'. forget d rows' later.front) new;
        ended = later.ended;
      }
  reverted_here rows m ms db context rest (db', ok a) same_rows (inr (e, never)) h =
      absurd (err≢ok (sym (ap (λ r. r.1) never)))
  reverted_here rows m ms db context rest (db', err e) same_rows
        (inl (tx, begun, stepped, written, never, new)) h =
      absurd (err≢ok (ap (λ r. r.1) never))
  reverted_here rows m ms db context rest (db', err e) same_rows (inr (x, kept)) h = record {
    front = [];
    back = m ∷ ms;
    split = refl;
    reverted = ap (λ r. r.0) kept;
    forgotten = ap (λ r. recorded r.0) kept ∙ same_rows;
    ended = inr (wrap context e, refl, λ n. cc);
  }

  revert_all-RevertsFront :
      (applied : List (Text × Unit {0})) (ms : List (RegisteredMigration d)) (db : Db)
      → All (IsOrdinary d laws) ms
      → RevertsFront db (recorded db) (applied_of d applied ms) (revert_all d ms applied db)
  unfolding revert_all
  revert_all-RevertsFront applied [] db h = record {
    front = [];
    back = [];
    split = refl;
    reverted = refl;
    forgotten = refl;
    ended = inl (refl, refl);
  }
  revert_all-RevertsFront applied (m ∷ ms) db (plain, h) =
      let rest = λ (db' : Db). revert_all-RevertsFront applied ms db' h in
      elim (Bool-cases (has m.name applied)) [
        | inl e ↦ rw e (
            reverted_here (recorded db) m (applied_of d applied ms) db
              (codes "rolling back " ++ m.name ++ codes ": ") (revert_all d ms applied)
              (revert d m db) refl (revert-IsCommitted d laws m db plain) rest)
        | inr e ↦ rw e (rest db)
      ]

  applied_of-eq :
      (applied : List (Text × Unit {0})) (rows : Records) (ms : List (RegisteredMigration d))
      → ((n : Text) → has n applied ≡ has n rows)
      → applied_of d applied ms ≡ applied_of d rows ms
  applied_of-eq applied rows [] h = refl
  applied_of-eq applied rows (m ∷ ms) h = rw (h m.name, applied_of-eq applied rows ms h)

  -- How a reset ends: before its first rollback, with an error and the rows that there were; or with a
  -- front of the recorded migrations, newest first, rolled back and forgotten.
  abbrev pub ResetOutcome :
      Db → List (RegisteredMigration d) → Db × Result (Failure Error) (Unit {0}) → Type 0
  ResetOutcome db ms r =
      ((e : Failure Error) × (r.1 ≡ err e) × (recorded r.0 ≡ recorded db))
      ⊎ RevertsFront (ensure_repository d db).0 (recorded db)
          (applied_of d (recorded db) (reverse ms)) r

  -- A reset of ordinary migrations, from a database in any state, either fails before it rolls any
  -- back and leaves the rows as they were, or it rolls back a front of those that are recorded, from
  -- the last registered on, all of them unless it ends with an error: for each, its Down and the
  -- delete of its row, both without an error, make up a transaction that is committed, in this order,
  -- and their rows are forgotten.
  pub reset-ResetOutcome :
      (ms : List (RegisteredMigration d)) (db : Db)
      → All (IsOrdinary d laws) ms
      → ResetOutcome db ms (reset d ms db)
  unfolding reset applied_migrations
  reset-ResetOutcome ms db h =
      and_then_rule P (ensure_repository d db) _
        (λ db1 _ made.
          and_then_rule P (applied_migrations d db1) _
            (λ db2 applied read.
              loop db2 applied (ap (λ r. r.0) made ∙ ap (λ r. r.0) read)
                (same_rows db1 db2 (ap (λ r. r.0) made) (ap (λ r. r.0) read))
                (subst (λ s. (applied_migrations d s).1 ≡ ok applied) (ap (λ r. r.0) read)
                  (ap (λ r. r.1) read)))
            (λ db2 e unread.
              inl (e, refl, same_rows db1 db2 (ap (λ r. r.0) made) (ap (λ r. r.0) unread))))
        (λ db1 e unmade. inl (e, refl, same_rows db1 db1 (ap (λ r. r.0) unmade) refl))
    where
      P : Db × Result (Failure Error) (Unit {0}) → Type 0
      P = ResetOutcome db ms

      same_rows :
          (db1 db2 : Db) → (ensure_repository d db).0 ≡ db1 → db1 ≡ db2 → recorded db2 ≡ recorded db
      same_rows db1 db2 made read =
          ap recorded (sym read) ∙ ap recorded (sym made) ∙ ensure_repository-recorded d laws db

      loop :
          (db' : Db) (applied : List (Text × Unit {0}))
          → (ensure_repository d db).0 ≡ db'
          → recorded db' ≡ recorded db
          → (applied_migrations d db').1 ≡ ok applied
          → P (revert_all d (reverse ms) applied db')
      loop db' applied made same_db read = inr (
          rw
            (
              made,
              ← same_db,
              ← applied_of-eq applied (recorded db') (reverse ms)
                  (applied_migrations-eq-ok d laws db' applied read),
            )
            (revert_all-RevertsFront applied (reverse ms) db'
              (All-reverse (IsOrdinary d laws) ms h)))
