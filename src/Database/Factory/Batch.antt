-- ===== src/Database/Factory/Batch.antt =====
-- What a batch holds, and how far a failed one got.
use gin_di.Prelude.{
  ℕ, zero, suc, Action-cases, codes, List, [], ◌∷◌, ◌≡◌, refl, sym, ap, subst, ◌∙◌, ◌⊎◌, inl, inr,
  length, Result, ok, err, Result-cases, ok_inj, err_not_ok,
}
use gin_di.Database.Factory.{Factory, apply_states, make_from, make, save_all, create}
use gin_di.Http.Errors.{GoError, wrap}
use gin_di.Prelude.Int.{ℤ, pos, negsuc}

-- Instances built for consecutive sequence numbers, each with all states applied.
pub data Built {T : Type 0} (factory : Factory T) : ℕ → List T → Type 0 where
  none_left : {sequence : ℕ} → Built factory sequence []
  next_built :
      {sequence : ℕ} {instances : List T} (built : T)
      → factory.definition sequence ≡ ok built
      → Built factory (suc sequence) instances
      → Built factory sequence (apply_states factory.states built ∷ instances)

make_from-Built :
    {T : Type 0} (factory : Factory T) (sequence n : ℕ) (instances : List T)
    → make_from factory sequence n ≡ ok instances
    → Built factory sequence instances × (length instances ≡ n)
unfolding make_from
make_from-Built factory sequence zero instances h =
    subst (λ xs. Built factory sequence xs × (length xs ≡ 0)) (ok_inj h) (none_left, refl)
make_from-Built factory sequence (suc n) instances h =
    elim (Result-cases (factory.definition sequence)) [
      | inr (e, a) ↦ err_not_ok (rw (make_from, a) at h)
      | inl (built, a) ↦ elim (Result-cases (make_from factory (suc sequence) n)) [
        | inr (e, b) ↦ err_not_ok (rw (make_from, a, b) at h)
        | inl (rest, b) ↦
            let (tail, number) = make_from-Built factory (suc sequence) n rest b in
            subst (λ xs. Built factory sequence xs × (length xs ≡ suc n))
              (ok_inj (rw (make_from, a, b) at h)) (next_built built a tail, ap suc number)
      ]
    ]

-- A batch that is returned has the number of instances that was asked for, built for the sequence
-- numbers from 1 on, in their order, with all states applied to each in the order they were added.
pub make-Built :
    {T : Type 0} (factory : Factory T) (instances : List T)
    → make factory ≡ ok instances
    → Built factory 1 instances × (factory.count ≡ pos (length instances))
unfolding make
make-Built factory instances h = counted factory.count refl
  where
    counted :
        (c : ℤ)
        → factory.count ≡ c
        → Built factory 1 instances × (factory.count ≡ pos (length instances))
    counted (pos n) q =
        let (built, number) = make_from-Built factory 1 n instances (rw (make, q) at h) in
        (built, q ∙ ap pos (sym number))
    counted (negsuc n) q = err_not_ok (rw (make, q) at h)

module _ {T Db : Type 0} (save : T → Db → Db × Result GoError T) where
  -- Instances saved one after the other from one state to another.
  pub data Saves : Db → List T → Db → List T → Type 0 where
    no_more : {db : Db} → Saves db [] db []
    one_saved :
        {db after last : Db} {rest stored : List T} (instance_ with_id : T)
        → save instance_ db ≡ (after, ok with_id)
        → Saves after rest last stored
        → Saves db (instance_ ∷ rest) last (with_id ∷ stored)

  -- The instances before the one that failed are saved.
  pub data StopsAt : Db → List T → Db → GoError → Type 0 where
    failed_here :
        {db after : Db} {rest : List T} (instance_ : T) (e : GoError)
        → save instance_ db ≡ (after, err e)
        → StopsAt db (instance_ ∷ rest) after (wrap (codes "saving instance: ") e)
    failed_later :
        {db after last : Db} {rest : List T} {e : GoError} (instance_ with_id : T)
        → save instance_ db ≡ (after, ok with_id)
        → StopsAt after rest last e
        → StopsAt db (instance_ ∷ rest) last e

  save_all-outcome :
      (instances : List T) (db : Db)
      → ((last : Db) × (stored : List T) × (save_all save instances db ≡ (last, ok stored))
          × Saves db instances last stored)
        ⊎ ((last : Db) × (e : GoError) × (save_all save instances db ≡ (last, err e))
            × StopsAt db instances last e)
  unfolding save_all
  save_all-outcome [] db = inl (db, [], refl, no_more)
  save_all-outcome (instance_ ∷ rest) db = elim (Action-cases (save instance_ db)) [
    | inr (after, e, a) ↦ inr (
      after,
      wrap (codes "saving instance: ") e,
      rw (save_all, a) refl,
      failed_here instance_ e a,
    )
    | inl (after, with_id, a) ↦ elim (save_all-outcome rest after) [
      | inl (last, stored, b, s) ↦
          inl (last, with_id ∷ stored, rw (save_all, a, b) refl, one_saved instance_ with_id a s)
      | inr (last, e, b, s) ↦
          inr (last, e, rw (save_all, a, b) refl, failed_later instance_ with_id a s)
    ]
  ]

  -- Creating a batch either fails before anything is saved, or saves the built instances in their
  -- order, all of them or those before the first that fails, whose error is the one returned.
  pub create-outcome :
      (factory : Factory T) (db : Db)
      → ((e : GoError) × (make factory ≡ err e) × (create save factory db ≡ (db, err e)))
        ⊎ ((instances : List T) × (make factory ≡ ok instances)
            × (((last : Db) × (stored : List T) × (create save factory db ≡ (last, ok stored))
                  × Saves db instances last stored)
                ⊎ ((last : Db) × (e : GoError) × (create save factory db ≡ (last, err e))
                    × StopsAt db instances last e)))
  unfolding create
  create-outcome factory db = elim (Result-cases (make factory)) [
    | inr (e, a) ↦ inl (e, a, rw (create, a) refl)
    | inl (instances, a) ↦ inr (instances, a, rw (create, a) (save_all-outcome instances db))
  ]
