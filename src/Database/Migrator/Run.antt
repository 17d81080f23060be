-- ===== src/Database/Migrator/Run.antt =====
-- `Run`: which migrations a run applies and records, also when it fails on the way.
use gin_di.Prelude.{
  and_then_rule, subst, ◌≢◌, if◌then◌else◌, ℕ, ◌≡◌, refl, inl, inr, ◌⊎◌, ◌<◌, ◌∙◌, ap, sym, List,
  [], ◌∷◌, ◌++◌, Result, ok, err, All, has, Bool-cases, Text, map, append-nil, append_assoc,
}
use gin_di.Database.Interface.{Database, Failure, Records, IsTransactional, wrap}
use gin_di.Database.Migrator.{
  codes, and_then, RegisteredMigration, under, apply, apply_all, run, ensure_repository,
  applied_migrations, next_batch,
}
use gin_di.Database.Migrator.Atomic.{
  ensure_repository-recorded, IsOrdinary, IsAtomic, apply-IsAtomic,
}
use gin_di.Database.Migrator.Reads.{err≢ok, applied_migrations-eq-ok, next_batch-eq-ok}

module _ (d : Database) where
  -- The migrations that a map does not name, in their order.
  abbrev pub pending {ℓ} :
      {V : Type ℓ} → List (Text × V) → List (RegisteredMigration d) → List (RegisteredMigration d)
  pending applied [] = []
  pending applied (m ∷ ms) =
      if has m.name applied then pending applied ms else m ∷ pending applied ms

  abbrev pub rows_of : ℕ → List (RegisteredMigration d) → Records
  rows_of batch = map (λ m. (m.name, batch))

module _ (d : Database) (laws : IsTransactional d) where
  open d use {Db, Tx, Error}
  open laws use {recorded}

  -- The front of the migrations is recorded in one batch, behind the rows that there were; all of
  -- them, unless there is an error.
  pub record AppliesFront (rows : Records) (batch : ℕ) (ms : List (RegisteredMigration d))
      (r : Db × Result (Failure Error) (Unit {0})) : Type 0 where
    pub front : List (RegisteredMigration d)
    pub back : List (RegisteredMigration d)
    pub split : ms ≡ front ++ back
    pub recorded_front : recorded r.0 ≡ rows ++ rows_of d batch front
    pub ended : ((r.1 ≡ ok tt) × (back ≡ [])) ⊎ ((e : Failure Error) × (r.1 ≡ err e) × (back ≢ []))

  AppliesFront-cons :
      {rows : Records} {batch : ℕ} {m : RegisteredMigration d} {ms : List (RegisteredMigration d)}
      {r : Db × Result (Failure Error) (Unit {0})}
      → AppliesFront (rows ++ (m.name, batch) ∷ []) batch ms r
      → AppliesFront rows batch (m ∷ ms) r
  AppliesFront-cons {rows} {batch} {m} a = record {
    front = m ∷ a.front;
    back = a.back;
    split = ap (◌∷◌ m) a.split;
    recorded_front = a.recorded_front ∙ append_assoc rows _ _;
    ended = a.ended;
  }

  applied_here :
      (rows : Records) (batch : ℕ) (m : RegisteredMigration d) (ms : List (RegisteredMigration d))
      (db : Db) (context : Text) (rest : Db → Db × Result (Failure Error) (Unit {0}))
      (r : Db × Result (Failure Error) (Unit {0}))
      → recorded db ≡ rows
      → IsAtomic d laws db (rows ++ (m.name, batch) ∷ []) r
      → ((db' : Db) → AppliesFront (recorded db') batch ms (rest db'))
      → AppliesFront rows batch (m ∷ ms) (and_then (under context r) (λ _. rest))
  applied_here rows batch m ms db context rest (db', ok a) same (inl (_, new)) h =
      AppliesFront-cons (subst (λ rows'. AppliesFront rows' batch ms (rest db')) new (h db'))
  applied_here rows batch m ms db context rest (db', ok a) same (inr (e, never)) h =
      absurd (err≢ok (sym (ap (λ r. r.1) never)))
  applied_here rows batch m ms db context rest (db', err e) same (inl (never, _)) h =
      absurd (err≢ok never)
  applied_here rows batch m ms db context rest (db', err e) same (inr (x, kept)) h = record {
    front = [];
    back = m ∷ ms;
    split = refl;
    recorded_front = ap (λ r. recorded r.0) kept ∙ same ∙ sym (append-nil rows);
    ended = inr (wrap context e, refl, λ n. cc);
  }

  apply_all-AppliesFront :
      (applied : List (Text × Unit {0})) (batch : ℕ) (ms : List (RegisteredMigration d)) (db : Db)
      → All (IsOrdinary d laws) ms
      → AppliesFront (recorded db) batch (pending d applied ms) (apply_all d ms applied batch db)
  unfolding apply_all
  apply_all-AppliesFront applied batch [] db h = record {
    front = [];
    back = [];
    split = refl;
    recorded_front = sym (append-nil _);
    ended = inl (refl, refl);
  }
  apply_all-AppliesFront applied batch (m ∷ ms) db (plain, h) =
      let rest = λ (db' : Db). apply_all-AppliesFront applied batch ms db' h in
      elim (Bool-cases (has m.name applied)) [
        | inl e ↦ rw e (rest db)
        | inr e ↦ rw e (
            applied_here (recorded db) batch m (pending d applied ms) db
              (codes "migrating " ++ m.name ++ codes ": ") (apply_all d ms applied batch)
              (apply d m batch db) refl (apply-IsAtomic d laws m batch db plain) rest)
      ]

  pending-eq :
      (applied : List (Text × Unit {0})) (rows : Records) (ms : List (RegisteredMigration d))
      → ((n : Text) → has n applied ≡ has n rows)
      → pending d applied ms ≡ pending d rows ms
  pending-eq applied rows [] h = refl
  pending-eq applied rows (m ∷ ms) h = rw (h m.name, pending-eq applied rows ms h)

  -- How a run ends: before its first migration, with an error and the rows that there were; or in a
  -- batch above all others, with a front of the unrecorded migrations recorded in their order.
  abbrev pub RunOutcome :
      Db → List (RegisteredMigration d) → Db × Result (Failure Error) (Unit {0}) → Type 0
  RunOutcome db ms r =
      ((e : Failure Error) × (r.1 ≡ err e) × (recorded r.0 ≡ recorded db))
      ⊎ ((batch : ℕ) × All (λ row. row.1 < batch) (recorded db)
          × AppliesFront (recorded db) batch (pending d (recorded db) ms) r)

  -- A run of ordinary migrations, from a database in any state, either fails before it applies
  -- any and leaves the rows as they were, or it records a front of those that have no row, in
  -- their order and in one batch above all others, behind the rows that there were: all of them,
  -- unless it ends with an error.
  pub run-RunOutcome :
      (ms : List (RegisteredMigration d)) (db : Db)
      → All (IsOrdinary d laws) ms
      → RunOutcome db ms (run d ms db)
  unfolding run applied_migrations next_batch
  run-RunOutcome ms db h =
      and_then_rule P (ensure_repository d db) _
        (λ db1 _ made.
          and_then_rule P (applied_migrations d db1) _
            (λ db2 applied read.
              and_then_rule P (next_batch d db2) _
                (λ db3 batch numbered.
                  loop db3 applied batch
                    (ap (λ r. recorded r.0) (sym numbered)
                      ∙ ap (λ r. recorded r.0) (sym read)
                      ∙ kept db1 made)
                    (subst (λ s. (next_batch d s).1 ≡ ok batch) (ap (λ r. r.0) numbered)
                      (ap (λ r. r.1) numbered))
                    (subst (λ s. (applied_migrations d s).1 ≡ ok applied)
                      (ap (λ r. r.0) read ∙ ap (λ r. r.0) numbered) (ap (λ r. r.1) read)))
                (λ db3 e unread. inl (
                  e,
                  refl,
                  ap (λ r. recorded r.0) (sym unread)
                      ∙ ap (λ r. recorded r.0) (sym read)
                      ∙ kept db1 made,
                )))
            (λ db2 e unread. inl (e, refl, ap (λ r. recorded r.0) (sym unread) ∙ kept db1 made)))
        (λ db1 e unmade. inl (e, refl, lost db1 e unmade))
    where
      P : Db × Result (Failure Error) (Unit {0}) → Type 0
      P = RunOutcome db ms

      kept : (db1 : Db) → ensure_repository d db ≡ (db1, ok tt) → recorded db1 ≡ recorded db
      kept db1 made = ap (λ r. recorded r.0) (sym made) ∙ ensure_repository-recorded d laws db

      lost :
          (db1 : Db) (e : Failure Error)
          → ensure_repository d db ≡ (db1, err e)
          → recorded db1 ≡ recorded db
      lost db1 e unmade = ap (λ r. recorded r.0) (sym unmade) ∙ ensure_repository-recorded d laws db

      loop :
          (db' : Db) (applied : List (Text × Unit {0})) (batch : ℕ)
          → recorded db' ≡ recorded db
          → (next_batch d db').1 ≡ ok batch
          → (applied_migrations d db').1 ≡ ok applied
          → P (apply_all d ms applied batch db')
      loop db' applied batch same numbered read = inr (
        batch,
        rw (← same) (next_batch-eq-ok d laws db' batch numbered),
        rw
            (
              ← same,
              ← pending-eq applied (recorded db') ms
                  (applied_migrations-eq-ok d laws db' applied read),
            )
            (apply_all-AppliesFront applied batch ms db' h),
      )
