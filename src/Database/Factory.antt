-- ===== src/Database/Factory.antt =====
-- database/factories/factory.go: models built in batches, for seeders and tests.
use gin_di.Prelude.{
  ℕ, zero, suc, ◌+◌, ◌-◌, ◌*◌, ◌/◌, ◌%◌, ◌^◌, ◌≤◌, ◌<◌, Text, codes, same, same_refl, same_iff,
  ne_of_same, List, [], ◌∷◌, ◌++◌, map, append-nil, append_assoc, Option, none, some, Option-cases,
  Bool, true, false, not, ◌&&◌, ◌||◌, Bool-cases, ltb, leb, ◌==◌, if◌then◌else◌, ◌≡◌, ◌≢◌, ◌↔◌,
  refl, sym, ap, subst, ◌∙◌, ◌⊎◌, inl, inr, length, All, lookup, has, put, delete, lookup-put,
  Result, ok, err, Result-cases, ok_inj, err_not_ok, arith,
}
use gin_di.Http.Errors.{GoError, plain, wrap}
use gin_di.Prelude.Int.{ℤ, pos, negsuc}
pub mod Batch
pub mod Models
mod Tests

-- A definition of instances, the number of them, and the states in the order they were added.
-- A state mutates the instance that it is given.
pub record Factory (T : Type 0) : Type 0 where
  pub definition : ℕ → Result GoError T
  pub count : ℤ
  pub states : List (T → T)

unfoldable pub new : {T : Type 0} → (ℕ → Result GoError T) → Factory T
new definition = record { definition = definition; count = pos 1; states = [] }

-- `Count`.
unfoldable pub with_count : {T : Type 0} → ℤ → Factory T → Factory T
with_count n factory = record {
  definition = factory.definition;
  count = n;
  states = factory.states;
}

-- `State`.
unfoldable pub with_state : {T : Type 0} → (T → T) → Factory T → Factory T
with_state state factory = record {
  definition = factory.definition;
  count = factory.count;
  states = factory.states ++ state ∷ [];
}

unfoldable pub apply_states : {T : Type 0} → List (T → T) → T → T
apply_states [] instance_ = instance_
apply_states (state ∷ states) instance_ = apply_states states (state instance_)

-- The loop of `Make` from one sequence number on, for so many instances.
unfoldable pub make_from : {T : Type 0} → Factory T → ℕ → ℕ → Result GoError (List T)
make_from factory sequence zero = ok []
make_from factory sequence (suc n) =
    let rest = make_from factory (suc sequence) n in
    elim (factory.definition sequence) [
      | err e ↦ err (wrap (codes "building instance: ") e)
      | ok built ↦ elim rest [
        | err e ↦ err e
        | ok instances ↦ ok (apply_states factory.states built ∷ instances)
      ]
    ]

unfoldable pub make : {T : Type 0} → Factory T → Result GoError (List T)
make factory = elim factory.count [
  | pos n ↦ make_from factory 1 n
  | negsuc n ↦ err (plain (codes "count must not be negative"))
]

-- `MakeOne` on what `Make` returned.
unfoldable pub only : {T : Type 0} → List T → Result GoError T
only [] = err (plain (codes "MakeOne needs a count of 1"))
only (instance_ ∷ []) = ok instance_
only (instance_ ∷ next ∷ instances) = err (plain (codes "MakeOne needs a count of 1"))

unfoldable pub make_one : {T : Type 0} → Factory T → Result GoError T
make_one factory = elim (make factory) [ err e ↦ err e | ok instances ↦ only instances ]

-- `save` is the model's Create: the new state, and the instance with what the insert returned.
module _ {T Db : Type 0} (save : T → Db → Db × Result GoError T) where
  abbrev saved :
      Db × Result GoError T → (T → Db → Db × Result GoError (List T)) → Db × Result GoError (List T)
  saved (db, err e) k = (db, err (wrap (codes "saving instance: ") e))
  saved (db, ok instance_) k = k instance_ db

  abbrev add : T → Db × Result GoError (List T) → Db × Result GoError (List T)
  add instance_ (db, err e) = (db, err e)
  add instance_ (db, ok instances) = (db, ok (instance_ ∷ instances))

  -- The loop of `Create`.
  unfoldable pub save_all : List T → Db → Db × Result GoError (List T)
  save_all [] db = (db, ok [])
  save_all (instance_ ∷ instances) db =
      let rest = save_all instances in saved (save instance_ db) (λ s after. add s (rest after))

  unfoldable pub create : Factory T → Db → Db × Result GoError (List T)
  create factory db = elim (make factory) [
    | err e ↦ (db, err e)
    | ok instances ↦ save_all instances db
  ]

  abbrev saved_one : Db × Result GoError T → Db × Result GoError T
  saved_one (db, err e) = (db, err (wrap (codes "saving instance: ") e))
  saved_one (db, ok instance_) = (db, ok instance_)

  unfoldable pub create_one : Factory T → Db → Db × Result GoError T
  create_one factory db = elim (make_one factory) [
    | err e ↦ (db, err e)
    | ok instance_ ↦ saved_one (save instance_ db)
  ]
