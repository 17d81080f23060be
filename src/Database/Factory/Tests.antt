-- ===== src/Database/Factory/Tests.antt =====
-- Three numbers, the second of which is refused.
use gin_di.Prelude.{
  ℕ, ◌+◌, ◌*◌, codes, List, [], ◌∷◌, ◌==◌, if◌then◌else◌, ◌≡◌, refl, ◌⊎◌, Result, ok, err,
}
use gin_di.Database.Factory.Models.{user_factory, decimal, decimal_in}
use gin_di.Database.Factory.{Factory, new, make_from, make, apply_states, create, save_all}
use gin_di.Database.Factory.Batch.{Saves, StopsAt, create-outcome}
use gin_di.Http.Errors.{GoError, plain}
use gin_di.Prelude.Int.{pos}

abbrev numbers : Factory ℕ
numbers = record {
  definition = λ n. ok n;
  count = pos 3;
  states = (λ n. n * 10) ∷ (λ n. n + 1) ∷ [];
}

abbrev save : ℕ → List ℕ → List ℕ × Result GoError ℕ
save n db = if n == 21 then (db, err (plain (codes "duplicate"))) else (n ∷ db, ok n)

create-outcome_example :
    ((e : GoError) × (make numbers ≡ err e) × (create save numbers [] ≡ ([], err e)))
    ⊎ ((instances : List ℕ) × (make numbers ≡ ok instances)
        × (((last : List ℕ) × (stored : List ℕ) × (create save numbers [] ≡ (last, ok stored))
              × Saves save [] instances last stored)
            ⊎ ((last : List ℕ) × (e : GoError) × (create save numbers [] ≡ (last, err e))
                × StopsAt save [] instances last e)))
create-outcome_example = create-outcome save numbers []

stopped : (create save numbers []).0 ≡ 11 ∷ []
unfolding create make make_from apply_states save_all
stopped = refl

-- The twelfth user of a factory whose names are all Ann.
numbered :
    (user_factory (ok (codes "hash")) (λ n. codes "Ann")).definition 12
    ≡ ok record { id = pos 0; username = codes "ann12"; password = codes "hash"; created_at = [] }
unfolding user_factory new decimal decimal_in
numbered = refl
