-- ===== src/Database/Seeder/Tests.antt =====
-- Three seeders, of which the second fails.
use gin_di.Prelude.{Text, codes, same, List, [], ◌∷◌, ◌≡◌, refl, ok, err}
use gin_di.Http.Errors.{no_rows}
use gin_di.Database.Seeder.{run_named, RegisteredSeeder, run_seeders, run_class, call}

abbrev noting : Text → RegisteredSeeder (List Text)
noting name = record { name = name; seed = λ s. (name ∷ s, ok tt) }

abbrev broken : RegisteredSeeder (List Text)
broken = record { name = codes "broken"; seed = λ s. (s, err no_rows) }

abbrev seeders : List (RegisteredSeeder (List Text))
seeders = noting (codes "users") ∷ broken ∷ noting (codes "events") ∷ []

stops : (run_seeders seeders []).0 ≡ codes "users" ∷ []
unfolding run_seeders call
stops = refl

one : run_class seeders (codes "events") [] ≡ (codes "events" ∷ [], ok tt)
unfolding run_class run_named same call
one = refl
