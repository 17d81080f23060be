-- ===== src/Database/Migrator/Settled.antt =====
-- What a successful run leaves: every migration recorded, and nothing for another run to do.
use gin_di.Prelude.{
  subst, false, append-nil, ◌||◌, ℕ, ◌≡◌, refl, inl, inr, ◌∙◌, ap, sym, List, [], ◌∷◌, ◌++◌, ok,
  All, All-weaken, has, Bool-cases, true, Text, arith, same_refl,
}
use gin_di.Database.Interface.{Database, Records, IsTransactional}
use gin_di.Database.Migrator.{RegisteredMigration, run}
use gin_di.Database.Migrator.Atomic.{IsOrdinary}
use gin_di.Database.Migrator.Reads.{err≢ok}
use gin_di.Database.Migrator.Run.{pending, rows_of, run-RunOutcome}

has-append : (n : Text) (xs ys : Records) → has n (xs ++ ys) ≡ (has n xs || has n ys)
unfolding has
has-append n [] ys = refl
has-append n ((k, b) ∷ xs) ys = ground (arith, has-append n xs ys)

module _ (d : Database) where
  pending_named :
      (rows : Records) (batch : ℕ) (ms : List (RegisteredMigration d))
      → All (λ m. has m.name (rows ++ rows_of d batch (pending d rows ms)) ≡ true) ms
  unfolding has
  pending_named rows batch [] = tt
  pending_named rows batch (m ∷ ms) = elim (Bool-cases (has m.name rows)) [
    | inl e ↦
        subst Named (sym (skipped e))
          (rw (has-append m.name rows _, e) refl, pending_named rows batch ms)
    | inr e ↦ subst Named (sym (kept e)) (
      rw (has-append m.name rows _, e, same_refl m.name) refl,
      All-weaken _ _ ms (λ m'. longer m'.name) (pending_named rows batch ms),
    )
  ]
    where
      Named : List (RegisteredMigration d) → Type 0
      Named p = All (λ m'. has m'.name (rows ++ rows_of d batch p) ≡ true) (m ∷ ms)

      skipped : has m.name rows ≡ true → pending d rows (m ∷ ms) ≡ pending d rows ms
      skipped e = rw e

      kept : has m.name rows ≡ false → pending d rows (m ∷ ms) ≡ m ∷ pending d rows ms
      kept e = rw e

      longer :
          (n : Text)
          → has n (rows ++ rows_of d batch (pending d rows ms)) ≡ true
          → has n (rows ++ rows_of d batch (m ∷ pending d rows ms)) ≡ true
      longer n h = ground (
        arith,
        has-append n rows (rows_of d batch (pending d rows ms)),
        has-append n rows (rows_of d batch (m ∷ pending d rows ms)),
      )

  append-eq-nil : (front back : List (RegisteredMigration d)) → [] ≡ front ++ back → front ≡ []
  append-eq-nil [] back h = refl
  append-eq-nil (m ∷ front) back h = cc

  pending_of_named :
      (rows : Records) (ms : List (RegisteredMigration d))
      → All (λ m. has m.name rows ≡ true) ms
      → pending d rows ms ≡ []
  pending_of_named rows [] h = refl
  pending_of_named rows (m ∷ ms) (e, h) = rw e (pending_of_named rows ms h)

module _ (d : Database) (laws : IsTransactional d) where
  open d use {Db}
  open laws use {recorded}

  -- After a run without an error every migration is recorded.
  run_complete :
      (ms : List (RegisteredMigration d)) (db : Db)
      → All (IsOrdinary d laws) ms
      → (run d ms db).1 ≡ ok tt
      → All (λ m. has m.name (recorded (run d ms db).0) ≡ true) ms
  run_complete ms db h done = elim (run-RunOutcome d laws ms db h) [
    | inl (e, failed, _) ↦ absurd (err≢ok (sym failed ∙ done))
    | inr (batch, _, a) ↦ elim a.ended [
      | inl (_, none_left) ↦
          rw (a.recorded_front, ← whole a.front a.back a.split none_left)
            (pending_named d (recorded db) batch ms)
      | inr (e, failed, _) ↦ absurd (err≢ok (sym failed ∙ done))
    ]
  ]
    where
      whole :
          (front back : List (RegisteredMigration d))
          → pending d (recorded db) ms ≡ front ++ back
          → back ≡ []
          → pending d (recorded db) ms ≡ front
      whole front back split none_left =
          split ∙ ap (λ rest. front ++ rest) none_left ∙ append-nil front

  -- Whatever another run does, it records nothing more.
  run-idle :
      (ms : List (RegisteredMigration d)) (db : Db)
      → All (IsOrdinary d laws) ms
      → All (λ m. has m.name (recorded db) ≡ true) ms
      → recorded (run d ms db).0 ≡ recorded db
  run-idle ms db h all = elim (run-RunOutcome d laws ms db h) [
    | inl (e, _, same_rows) ↦ same_rows
    | inr (batch, _, a) ↦
        let idle : [] ≡ a.front ++ a.back =
          sym (pending_of_named d (recorded db) ms all) ∙ a.split in
        rw (a.recorded_front, append-eq-nil d a.front a.back idle) (append-nil (recorded db))
  ]

  -- A run of ordinary migrations that ends without an error has every migration recorded, and a
  -- run after it records nothing more.
  pub run-settles :
      (ms : List (RegisteredMigration d)) (db : Db)
      → All (IsOrdinary d laws) ms
      → (run d ms db).1 ≡ ok tt
      → All (λ m. has m.name (recorded (run d ms db).0) ≡ true) ms
        × (recorded (run d ms (run d ms db).0).0 ≡ recorded (run d ms db).0)
  run-settles ms db h done =
      let all = run_complete ms db h done in (all, run-idle ms (run d ms db).0 h all)
