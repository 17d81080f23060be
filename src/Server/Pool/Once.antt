-- ===== src/Server/Pool/Once.antt =====
-- app/services/core/pgsql_service.go: the one pool behind `Connection`.
use gin_di.Prelude.{
  ℕ, zero, suc, List, [], ◌∷◌, ◌++◌, append-nil, Option, none, some, ◌≡◌, refl, ap, ◌∙◌,
}
use gin_di.Http.Errors.{GoError}
use gin_di.Settings.Env.{Environment}
use gin_di.Server.Pool.{Effect, Driver, connection, new_postgres_service}

-- So many copies of a value.
unfoldable replicate : {A : Type 0} → ℕ → A → List A
replicate zero a = []
replicate (suc n) a = a ∷ replicate n a

module _ {Db : Type 0} (driver : Driver) where
  -- The outcomes of so many calls, and all that they did.
  unfoldable connections :
      Environment → ℕ → Option (Option GoError) → List (Effect Db) × List (Option GoError)
  connections env zero memo = ([], [])
  connections env (suc n) memo =
      let rest = connections env n in
      let step = connection driver env memo in
      let later = rest step.1 in (step.0.0 ++ later.0, step.0.1 ∷ later.1)

  -- Of calls that follow a first one, each answers what the first did, and none does anything.
  connections-kept :
      (env : Environment) (n : ℕ) (outcome : Option GoError)
      → connections env n (some outcome) ≡ ([], replicate n outcome)
  unfolding connections connection replicate
  connections-kept env zero outcome = refl
  connections-kept env (suc n) outcome =
      ap (λ r. (r.0, outcome ∷ r.1)) (connections-kept env n outcome)

  -- However often the connection is asked for, the pool is opened as by one call, and every caller is
  -- told the outcome of it.
  connections-once :
      (env : Environment) (n : ℕ)
      → connections env (suc n) none ≡ (
        (new_postgres_service {Db = Db} driver env).0,
        replicate (suc n) (new_postgres_service {Db = Db} driver env).1,
      )
  unfolding connections connection replicate
  connections-once env n =
      ap
        (λ r. (
          (new_postgres_service {Db = Db} driver env).0 ++ r.0,
          (new_postgres_service {Db = Db} driver env).1 ∷ r.1,
        ))
        (connections-kept env n (new_postgres_service {Db = Db} driver env).1)
      ∙ ap
          (λ l. (
            l,
            (new_postgres_service {Db = Db} driver env).1
                ∷ replicate n (new_postgres_service {Db = Db} driver env).1,
          ))
          (append-nil (new_postgres_service {Db = Db} driver env).0)
