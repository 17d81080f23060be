-- ===== src/App/Login/Tests.antt =====
-- A login that fails and one that succeeds.
use gin_di.Prelude.{
  Text, codes, same, [], ◌∷◌, none, some, Bool, true, false, if◌then◌else◌, ◌≡◌, refl, Result, ok,
}
use gin_di.App.Models.{User, Cursor, find_by_username, first_row}
use gin_di.App.Resources.{Payload}
use gin_di.App.Login.{LoginRequest, authenticate_user, login, invalid_credentials}
use gin_di.App.Login.Outcome.{authenticate_user-eq-ok, login-refused}
use gin_di.Http.Context.{Ctx, finished}
use gin_di.Http.Errors.{GoError}
use gin_di.Http.Middlewares.{exception_handler}
use gin_di.Prelude.Int.{ℤ, pos}

abbrev a_request : Ctx Payload
a_request = record {
  request_id_header = [];
  authorization = [];
  client_ip = codes "10.0.0.1";
  now = 63_000_000_000_000_000_000;
  body_limit = none;
  request_id = codes "0af3";
  user_id = none;
  username = [];
  errors = [];
  aborted = false;
  headers = [];
  response = none;
  limiter = record { buckets = []; max_keys = 10; pruned_at = 0 };
  log = [];
}

abbrev sam : User
sam = record {
  id = pos 7;
  username = codes "sam";
  password = codes "secret";
  created_at = codes "2024";
}

abbrev read : Text → Result GoError (Cursor User)
read name =
    ok (record { scans = if same name (codes "sam") then ok sam ∷ [] else []; stopped = none })

abbrev verify : Text → Text → Result GoError Bool
verify hashed password = ok (same hashed password)

abbrev generate : ℤ → Text → Result GoError Text
generate id name = ok (codes "token")

abbrev credentials : LoginRequest
credentials = record { username = codes "sam"; password = codes "secret" }

abbrev wrong : LoginRequest
wrong = record { username = codes "sam"; password = codes "guess" }

authenticate_user-eq-ok_example :
    (find_by_username read (codes "sam") ≡ ok sam)
    × (verify sam.password (codes "secret") ≡ ok true)
unfolding authenticate_user find_by_username first_row same
authenticate_user-eq-ok_example =
    authenticate_user-eq-ok read verify (codes "sam") (codes "secret") sam refl

login-refused_example :
    (c : Ctx Payload) × (exception_handler
        (login (ok wrong) (authenticate_user read verify) generate)
        a_request
      ≡ finished c)
    × (c.response
        ≡ some (record {
          code = 401;
          body = record {
            status = codes "error";
            message = codes "Invalid credentials";
            payload = none;
            errors = none;
          };
        }))
unfolding authenticate_user find_by_username first_row same
login-refused_example =
    login-refused wrong (authenticate_user read verify) generate invalid_credentials a_request refl
      refl
