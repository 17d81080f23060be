-- ===== src/Database/Migrator/Tests.antt =====
-- Runs over a concrete database, whose state is the migrations table itself.
use gin_di.Database.Migrator.Reads.{ok-injective}
use gin_di.Prelude.{
  ◌≢◌, true, subst, ℕ, ◌≤◌, ◌≡◌, refl, sym, ap, List, [], ◌∷◌, ◌++◌, map, Result, ok, Option, none,
  some, Text, codes, All, All-weaken, has, same, arith, if◌then◌else◌, leb,
}
use gin_di.Database.Interface.{
  Database, Rows, Records, without, IsTransactional, Statement, create_repository, insert_migration,
  delete_migration, drop_table,
}
use gin_di.Database.Service
use gin_di.Database.Migrator.{
  RegisteredMigration, run, reset, apply, ensure_repository, applied_migrations, next_batch,
  apply_all, in_transaction, apply_in, create_in, seal, change, committed, applied_of,
  next_batch_of, batch_of, collect, name_set,
}
use gin_di.Database.Migrator.Atomic.{IsOrdinary, IsCommitted, apply-IsCommitted}
use gin_di.Database.Migrator.Run.{RunOutcome, run-RunOutcome}
use gin_di.Database.Migrator.Settled.{run-settles}
use gin_di.Database.Migrator.Reset.{ResetOutcome, reset-ResetOutcome}

data Trouble : Type 0 where
  duplicate refused : Trouble

abbrev execute : Statement → Records → Records × Option Trouble
execute create_repository rows = (rows, none)
execute (insert_migration name batch) rows =
    if has name rows then (rows, some duplicate) else (rows ++ (name, batch) ∷ [], none)
execute (delete_migration name) rows = (without name rows, none)
execute (drop_table name) rows = ([], none)

abbrev largest : Records → ℕ
largest [] = 0
largest ((n, b) ∷ rows) = let rest = largest rows in if leb rest b then b else rest

abbrev table : Database
table = record {
  Db = Records;
  Tx = Records;
  Error = Trouble;
  begin = λ rows. ok rows;
  exec = execute;
  commit = λ tx rows. (tx, none);
  rollback = λ tx rows. rows;
  select_names = λ rows. ok (record { scans = map ok (map (λ r. r.0) rows); stopped = none });
  select_last_batch = λ rows. ok (record { scans = ok (largest rows) ∷ []; stopped = none });
  select_tables = λ rows. ok (record { scans = ok (codes "migrations") ∷ []; stopped = none });
}

largest-bounds : (rows : Records) → All (λ r. r.1 ≤ largest rows) rows
largest-bounds [] = tt
largest-bounds ((n, b) ∷ rows) = (
  ground arith,
  All-weaken (λ r. r.1 ≤ largest rows) _ rows (λ r h. ground arith) (largest-bounds rows),
)

map-ok-injective :
    (xs ys : List Text) → ◌≡◌ {A = List (Result Trouble Text)} (map ok xs) (map ok ys) → xs ≡ ys
map-ok-injective [] [] h = refl
map-ok-injective [] (y ∷ ys) h = cc
map-ok-injective (x ∷ xs) [] h = cc
map-ok-injective (x ∷ xs) (y ∷ ys) h = ground (arith, map-ok-injective xs ys)

insert_lem :
    (name : Text) (batch : ℕ) (rows : Records)
    → (execute (insert_migration name batch) rows).1 ≡ none
    → (execute (insert_migration name batch) rows).0 ≡ rows ++ (name, batch) ∷ []
insert_lem name batch rows h = ground arith

largest_lem :
    (rows : Records) (cursor : Rows Trouble ℕ) (last : ℕ) (rest : List (Result Trouble ℕ))
    → ◌≡◌ {A = Result Trouble (Rows Trouble ℕ)}
        (ok (record { scans = ok (largest rows) ∷ []; stopped = none }))
        (ok cursor)
    → cursor.scans ≡ ok last ∷ rest
    → All (λ r. r.1 ≤ last) rows
largest_lem rows cursor last rest h first =
    subst (λ n. All (λ r. r.1 ≤ n) rows) same_number (largest-bounds rows)
  where
    same_number : largest rows ≡ last
    same_number = ground arith

row_lem :
    (rows : Records) (cursor : Rows Trouble ℕ)
    → ◌≡◌ {A = Result Trouble (Rows Trouble ℕ)}
        (ok (record { scans = ok (largest rows) ∷ []; stopped = none }))
        (ok cursor)
    → cursor.scans ≡ []
    → cursor.stopped ≢ none
row_lem rows cursor h empty never = ground arith

abbrev table_laws : IsTransactional table
table_laws = record {
  recorded = λ rows. rows;
  seen = λ rows. rows;
  begin_sees = λ rows tx h. sym (ok-injective h);
  create_sees = λ tx h. refl;
  insert_sees = insert_lem;
  delete_sees = λ name tx h. refl;
  commit_publishes = λ tx db h. refl;
  commit_fails = λ tx db e h. cc;
  rollback_keeps = λ tx db. refl;
  names_complete = λ db names h.
      sym (map-ok-injective _ names (ap (λ (c : Rows Trouble Text). c.scans) (ok-injective h)));
  last_batch_bounds = largest_lem;
  last_batch_row = row_lem;
}

abbrev creating : Text → RegisteredMigration table
creating name = record { name = name; up = λ tx. (tx, none); down = λ tx. (tx, none) }

-- A migration whose `Up` fails.
abbrev broken : RegisteredMigration table
broken = record { name = codes "broken"; up = λ tx. (tx, some refused); down = λ tx. (tx, none) }

abbrev users : RegisteredMigration table
users = creating (codes "users")

abbrev events : RegisteredMigration table
events = creating (codes "events")

creating-IsOrdinary : (name : Text) → IsOrdinary table table_laws (creating name)
creating-IsOrdinary name = record { up_keeps = λ tx h. refl; down_keeps = λ tx h. refl }

broken-IsOrdinary : IsOrdinary table table_laws broken
broken-IsOrdinary = record { up_keeps = λ tx h. refl; down_keeps = λ tx h. refl }

abbrev migrations : List (RegisteredMigration table)
migrations = users ∷ broken ∷ events ∷ []

-- The run stops at the second migration and has recorded the first.
run_stops : (run table migrations []).0 ≡ (codes "users", 1) ∷ []
unfolding run ensure_repository applied_migrations next_batch apply_all in_transaction apply
    apply_in create_in seal change committed applied_of next_batch_of batch_of collect name_set
    Service.begin Service.read has same
run_stops = refl

run-RunOutcome_example : RunOutcome table table_laws [] migrations (run table migrations [])
run-RunOutcome_example = run-RunOutcome table table_laws migrations [] (
  creating-IsOrdinary (codes "users"),
  (broken-IsOrdinary, (creating-IsOrdinary (codes "events"), tt)),
)

apply-IsCommitted_example :
    IsCommitted table table_laws [] users.up
      (insert_migration (codes "users") 4)
      ((codes "users", 4) ∷ [])
      (apply table users 4 [])
apply-IsCommitted_example =
    apply-IsCommitted table table_laws users 4 [] (creating-IsOrdinary (codes "users"))

run-settles_example :
    All (λ m. has m.name (run table (users ∷ events ∷ []) []).0 ≡ true) (users ∷ events ∷ [])
    × ((run table (users ∷ events ∷ []) (run table (users ∷ events ∷ []) []).0).0
        ≡ (run table (users ∷ events ∷ []) []).0)
unfolding run ensure_repository applied_migrations next_batch apply_all in_transaction apply
    apply_in create_in seal change committed applied_of next_batch_of batch_of collect name_set
    Service.begin Service.read has same
run-settles_example =
    run-settles table table_laws (users ∷ events ∷ []) []
      (creating-IsOrdinary (codes "users"), (creating-IsOrdinary (codes "events"), tt)) refl

abbrev both : Records
both = (codes "users", 1) ∷ (codes "events", 1) ∷ []

reset-ResetOutcome_example :
    ResetOutcome table table_laws both
      (users ∷ events ∷ [])
      (reset table (users ∷ events ∷ []) both)
reset-ResetOutcome_example =
    reset-ResetOutcome table table_laws (users ∷ events ∷ []) both
      (creating-IsOrdinary (codes "users"), (creating-IsOrdinary (codes "events"), tt))
