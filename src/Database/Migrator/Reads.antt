-- ===== src/Database/Migrator/Reads.antt =====
-- What the migrator learns from its queries, when they succeed.
use gin_di.Prelude.{
  ◌≤◌, ◌+◌, All-weaken, sym, ◌⊎◌, ◌∙◌, ap, inr, inl, has-put, Result-cases, ℕ, ◌≡◌, ◌≢◌, ◌<◌, refl,
  Option, none, some, List, [], ◌∷◌, map, Result, ok, err, arith, Text, All, has,
}
use gin_di.Database.Interface.{Database, Rows, IsTransactional, Records}
use gin_di.Database.Service
use gin_di.Database.Migrator.{
  codes, collect, name_set, applied_of, applied_migrations, batch_of, next_batch_of, next_batch,
}

pub ok-injective : {E A : Type 0} {a b : A} → ◌≡◌ {A = Result E A} (ok a) (ok b) → a ≡ b
ok-injective h = cc

pub err≢ok : {E A : Type 0} {e : E} {a : A} → ◌≢◌ {A = Result E A} (err e) (ok a)
err≢ok h = cc

-- A cursor is collected only if every scan and the iteration succeeded.
collect-eq-ok :
    {E A : Type 0} (scanning iterating : Text) (scans : List (Result E A)) (stopped : Option E)
    (as' : List A)
    → collect scanning iterating scans stopped ≡ ok as'
    → (scans ≡ map ok as') × (stopped ≡ none)
unfolding collect
collect-eq-ok scanning iterating [] none as' h = ground arith
collect-eq-ok scanning iterating [] (some e) as' h = cc
collect-eq-ok scanning iterating (err e ∷ rest) stopped as' h = cc
collect-eq-ok scanning iterating (ok a ∷ rest) stopped as' h =
    elim (Result-cases (collect scanning iterating rest stopped)) [
      | inl (bs, e) ↦
          let (front, last) = collect-eq-ok scanning iterating rest stopped bs e in
          let whole : a ∷ bs ≡ as' = ok-injective (rw e at h) in
          rw (← whole) (ap (◌∷◌ (ok a)) front, last)
      | inr (x, e) ↦ let never : err x ≡ ok as' = rw e at h in cc
    ]

has-name_set : (n : Text) (rows : Records) → has n (name_set (map (λ r. r.0) rows)) ≡ has n rows
unfolding name_set has
has-name_set n [] = refl
has-name_set n ((m, b) ∷ rows) =
    rw (has-put m n tt (name_set (map (λ r. r.0) rows)), has-name_set n rows) refl

applied_of-eq-ok :
    (d : Database) (rows : Rows d.Error Text) (applied : List (Text × Unit {0}))
    → applied_of d (ok rows) ≡ ok applied
    → (names : List Text) × (rows ≡ record { scans = map ok names; stopped = none })
      × (applied ≡ name_set names)
unfolding applied_of
applied_of-eq-ok d rows applied h =
    elim (Result-cases (
      collect (codes "scanning applied migration: ") (codes "iterating applied migrations: ")
        rows.scans rows.stopped)) [
          | inl (names, e) ↦
              let (scans, stopped) = collect-eq-ok _ _ rows.scans rows.stopped names e in
              let set : name_set names ≡ applied = ok-injective (rw (e, applied_of) at h) in
              (names, ground arith, sym set)
          | inr (x, e) ↦ let never : err x ≡ ok applied = rw (e, applied_of) at h in cc
        ]

-- The batch is one more than the first row, if the cursor has one.
batch_of-eq-ok :
    (d : Database) (scans : List (Result d.Error ℕ)) (stopped : Option d.Error) (batch : ℕ)
    → batch_of d scans stopped ≡ ok batch
    → (stopped ≡ none)
      × ((scans ≡ [])
          ⊎ ((last : ℕ) × (rest : List (Result d.Error ℕ)) × (scans ≡ ok last ∷ rest)
              × (batch ≡ last + 1)))
unfolding batch_of
batch_of-eq-ok d [] none batch h = (refl, inl refl)
batch_of-eq-ok d [] (some e) batch h = cc
batch_of-eq-ok d (err e ∷ rest) none batch h = cc
batch_of-eq-ok d (err e ∷ rest) (some x) batch h = cc
batch_of-eq-ok d (ok last ∷ rest) none batch h =
    (refl, inr (last, rest, refl, sym (ok-injective h)))
batch_of-eq-ok d (ok last ∷ rest) (some e) batch h = cc

module _ (d : Database) (laws : IsTransactional d) where
  open d use {Db, Error}
  open laws use {recorded}

  -- The names that are read are those of the rows.
  pub applied_migrations-eq-ok :
      (db : Db) (applied : List (Text × Unit {0}))
      → (applied_migrations d db).1 ≡ ok applied
      → (n : Text) → has n applied ≡ has n (recorded db)
  unfolding applied_migrations applied_of Service.read
  applied_migrations-eq-ok db applied h n = elim (Result-cases (d.select_names db)) [
    | inr (x, e) ↦ failed x e
    | inl (rows, e) ↦
        let (names, whole, set) = applied_of-eq-ok d rows applied (rw e at h) in
        let same_names = laws.names_complete db names (e ∙ ap ok whole) in
        rw (set, same_names) (has-name_set n (recorded db))
  ]
    where
      failed : (x : Error) → d.select_names db ≡ err x → has n applied ≡ has n (recorded db)
      failed x e = absurd (err≢ok (rw (e, applied_of) at h))

  -- The new batch is above every batch that is recorded.
  pub next_batch-eq-ok :
      (db : Db) (batch : ℕ) → (next_batch d db).1 ≡ ok batch → All (λ r. r.1 < batch) (recorded db)
  unfolding next_batch next_batch_of Service.read
  next_batch-eq-ok db batch h = elim (Result-cases (d.select_last_batch db)) [
    | inr (x, e) ↦ absurd (err≢ok (rw (e, next_batch_of) at h))
    | inl (rows, e) ↦
        let (stopped, scanned) = batch_of-eq-ok d rows.scans rows.stopped batch (rw e at h) in
        elim scanned [
          | inl empty ↦ absurd (laws.last_batch_row db rows e empty stopped)
          | inr (last, rest, first, above) ↦
              All-weaken (λ r. r.1 ≤ last) (λ r. r.1 < batch) (recorded db)
                (λ r le. rw above (omega arith)) (laws.last_batch_bounds db rows last rest e first)
        ]
  ]
