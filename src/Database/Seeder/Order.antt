-- ===== src/Database/Seeder/Order.antt =====
-- Seeders run in their order, up to the first that fails.
use gin_di.Prelude.{
  Text, same, same_iff, ne_of_same, List, [], ◌∷◌, Bool-cases, ◌≡◌, ◌≢◌, refl, ◌⊎◌, inl, inr, All,
  Result, ok, err,
}
use gin_di.Prelude.{In, Action-cases}
use gin_di.Http.Errors.{GoError}
use gin_di.Database.Seeder.{RegisteredSeeder, call, run_seeders, run_named, run_class, names}

-- How a run ends: all seeders ran, or a front of them did and the next one failed.
pub data Ran {S : Type 0}
    : List (RegisteredSeeder S) → S → S × Result GoError (Unit {0}) → Type 0 where
  all_ran : (s : S) → Ran [] s (s, ok tt)
  failed :
      (m : RegisteredSeeder S) (ms : List (RegisteredSeeder S)) (s t : S) (e : GoError)
      → call m s ≡ (t, err e)
      → Ran (m ∷ ms) s (t, err e)
  ran :
      (m : RegisteredSeeder S) (ms : List (RegisteredSeeder S)) (s t : S)
      (r : S × Result GoError (Unit {0}))
      → call m s ≡ (t, ok tt)
      → Ran ms t r
      → Ran (m ∷ ms) s r

module _ {S : Type 0} where
  -- A run of the seeders calls them in their order, each in the state that the one before left, and
  -- ends with the first error, after which no other is called.
  pub run_seeders-Ran :
      (seeders : List (RegisteredSeeder S)) (s : S) → Ran seeders s (run_seeders seeders s)
  unfolding run_seeders
  run_seeders-Ran [] s = all_ran s
  run_seeders-Ran (m ∷ ms) s = elim (Action-cases (call m s)) [
    | inl (t, u, a) ↦ rw (a) (ran m ms s t _ a (run_seeders-Ran ms t))
    | inr (t, e, a) ↦ rw (a) (failed m ms s t e a)
  ]

  named :
      (known : List Text) (name : Text) (ms : List (RegisteredSeeder S)) (s : S)
      → ((m : RegisteredSeeder S) × In m ms
          × (m.name ≡ name)
          × (run_named known name ms s ≡ call m s))
        ⊎ ((e : GoError) × All (λ m. m.name ≢ name) ms × (run_named known name ms s ≡ (s, err e)))
  unfolding run_named
  named known name [] s = inr (_, tt, refl)
  named known name (m ∷ ms) s = elim (Bool-cases (same m.name name)) [
    | inl a ↦ inl (m, inl refl, (same_iff m.name name).0 a, rw (run_named, a) refl)
    | inr a ↦ elim (named known name ms s) [
      | inl (n, inside, q, runs) ↦ inl (n, inr inside, q, rw (run_named, a) runs)
      | inr (e, others, fails) ↦
          inr (e, (ne_of_same m.name name a, others), rw (run_named, a) fails)
    ]
  ]

  -- A name that selects a seeder runs the first one of that name, and another one is an error that
  -- changes nothing.
  pub run_class-cases :
      (seeders : List (RegisteredSeeder S)) (name : Text) (s : S)
      → ((m : RegisteredSeeder S) × In m seeders
          × (m.name ≡ name)
          × (run_class seeders name s ≡ call m s))
        ⊎ ((e : GoError) × All (λ m. m.name ≢ name) seeders
            × (run_class seeders name s ≡ (s, err e)))
  unfolding run_class
  run_class-cases seeders name s = named (names seeders) name seeders s
