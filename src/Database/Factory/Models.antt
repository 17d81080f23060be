-- ===== src/Database/Factory/Models.antt =====
-- database/factories/user_factory.go and event_factory.go. The fake names and the clock's days are
-- parameters.
use gin_di.Prelude.{
  ℕ, zero, suc, ◌+◌, ◌/◌, ◌%◌, Text, codes, [], ◌∷◌, ◌++◌, map, ltb, if◌then◌else◌, Result, ok, err,
}
use gin_di.Http.Errors.{GoError, wrap}
use gin_di.Prelude.Int.{pos}
use gin_di.App.Models.{User, Event}
use gin_di.Database.Factory.{Factory, new}
use gin_di.Console.Reporter.{lower}

abbrev pub factory_password : Text
factory_password = codes "password"

-- The digits of a number, the last one first split off; the fuel bounds how many there are.
unfoldable pub decimal_in : ℕ → ℕ → Text
decimal_in zero n = []
decimal_in (suc fuel) n =
    let rest = decimal_in fuel (n / 10) in
    if ltb n 10 then (b'0' + n) ∷ [] else rest ++ ((b'0' + n % 10) ∷ [])

-- What %d prints of a sequence number, which has no more digits than its value and one.
unfoldable pub decimal : ℕ → Text
decimal n = decimal_in (suc n) n

-- `hashed` is what hashing the factory's password gave, once for the process, and `first_name` the
-- name drawn for an instance.
unfoldable pub user_factory : Result GoError Text → (ℕ → Text) → Factory User
user_factory hashed first_name = new λ sequence. elim hashed [
  | err e ↦ err (wrap (codes "hashing the factory password: ") e)
  | ok password ↦ ok record {
    id = pos 0;
    username = map lower (first_name sequence) ++ decimal sequence;
    password = password;
    created_at = [];
  }
]

unfoldable pub with_username : Text → User → User
with_username username user = record {
  id = user.id;
  username = username;
  password = user.password;
  created_at = user.created_at;
}

-- `dinner` is the name drawn for an instance, `day` the date so many days from now.
unfoldable pub event_factory : (ℕ → Text) → (ℕ → Text) → Factory Event
event_factory dinner day = new λ sequence. ok record {
  id = pos 0;
  name = dinner sequence;
  date = day sequence;
  created_at = [];
  user_id = pos 0;
}

unfoldable pub for_user : User → Event → Event
for_user user event = record {
  id = event.id;
  name = event.name;
  date = event.date;
  created_at = event.created_at;
  user_id = user.id;
}
