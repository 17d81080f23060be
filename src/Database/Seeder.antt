-- ===== src/Database/Seeder.antt =====
-- database/seeder.go and database/seeders: seeding in order. A seeder changes a state and may fail.
use gin_di.Prelude.{
  ℕ, zero, suc, ◌+◌, ◌-◌, ◌*◌, ◌/◌, ◌%◌, ◌^◌, ◌≤◌, ◌<◌, Text, codes, same, same_refl, same_iff,
  ne_of_same, List, [], ◌∷◌, ◌++◌, map, append-nil, append_assoc, Option, none, some, Option-cases,
  Bool, true, false, not, ◌&&◌, ◌||◌, Bool-cases, ltb, leb, ◌==◌, if◌then◌else◌, ◌≡◌, ◌≢◌, ◌↔◌,
  refl, sym, ap, subst, ◌∙◌, ◌⊎◌, inl, inr, length, All, lookup, has, put, delete, lookup-put,
  Result, ok, err, Result-cases, ok_inj, err_not_ok, arith,
}
use gin_di.Prelude.{Action, ◌>>=◌, ◌>>◌, and_then, done, fail}
use gin_di.Http.Errors.{GoError, plain, wrap}
use gin_di.Prelude.Int.{ℤ, pos}
use gin_di.App.Models.{User, Event, is_zero}
pub mod Order
mod Tests

abbrev pub Method : Type 0 → Type 0
Method S = Action S GoError (Unit {0})

pub record RegisteredSeeder (S : Type 0) : Type 0 where
  pub name : Text
  pub seed : Method S

module _ {S : Type 0} where
  -- `fmt.Errorf("seeding %s: %w", …)`
  abbrev seeding : Text → S × Result GoError (Unit {0}) → S × Result GoError (Unit {0})
  seeding name (s, ok u) = (s, ok u)
  seeding name (s, err e) = (s, err (wrap (codes "seeding " ++ name ++ codes ": ") e))

  unfoldable pub call : RegisteredSeeder S → Method S
  call registered s = seeding registered.name (registered.seed s)

  -- `DatabaseSeeder.Run`
  unfoldable pub run_seeders : List (RegisteredSeeder S) → Method S
  run_seeders [] = done
  run_seeders (registered ∷ rest) = call registered >> run_seeders rest

  unfoldable pub names : List (RegisteredSeeder S) → List Text
  names [] = []
  names (registered ∷ rest) = registered.name ∷ names rest

  -- The loop of `RunClass`, among all the seeders.
  unfoldable pub run_named : List Text → Text → List (RegisteredSeeder S) → Method S
  run_named known name [] = fail (plain (codes "seeder is not registered"))
  run_named known name (registered ∷ rest) =
      let others = run_named known name rest in
      if same registered.name name then call registered else others

  unfoldable pub run_class : List (RegisteredSeeder S) → Text → Method S
  run_class seeders name = run_named (names seeders) name seeders

abbrev seed_username : Text
seed_username = codes "islacks"

abbrev seed_event_count : ℤ
seed_event_count = pos 3

-- A result that is dropped, with the context of its error.
abbrev dropped : {S A : Type 0} → Text → S × Result GoError A → S × Result GoError (Unit {0})
dropped context (s, ok a) = (s, ok tt)
dropped context (s, err e) = (s, err (wrap context e))

-- `UserSeeder.Run`: `found_id` is the id that FindByUsername leaves in the model, whatever its error,
-- and `create` is the factory's CreateOne with the pinned name.
unfoldable pub seed_users :
    {S : Type 0} → (Text → S → ℤ) → (Text → Action S GoError User) → Action S GoError (Unit {0})
seed_users found_id create s =
    if is_zero (found_id seed_username s)
    then dropped (codes "creating user islacks: ") (create seed_username s)
    else (s, ok tt)

-- `EventSeeder.Run`: `create` is the factory's Create of so many events for their owner.
unfoldable pub seed_events :
    {S : Type 0}
    → (Text → S → Result GoError User)
    → (ℤ → User → Action S GoError (List Event))
    → Action S GoError (Unit {0})
seed_events find create s = elim (find seed_username s) [
  | err e ↦ (s, err (wrap (codes "finding user islacks to own the seeded events: ") e))
  | ok owner ↦ dropped (codes "creating events for islacks: ") (create seed_event_count owner s)
]
