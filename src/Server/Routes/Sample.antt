-- ===== src/Server/Routes/Sample.antt =====
-- An application with one user and an empty table of events.
use gin_di.Prelude.{Text, codes, same, List, [], ◌∷◌, ◌++◌, none, false, if◌then◌else◌, Result, ok}
use gin_di.Http.Context.{Ctx}
use gin_di.Http.Errors.{GoError}
use gin_di.Prelude.Int.{ℤ, pos}
use gin_di.App.Login.{LoginRequest}
use gin_di.App.Models.{User, Event, Cursor}
use gin_di.App.Resources.{Payload}
use gin_di.App.Tokens.Sample.{sample, sample_config, sam}
use gin_di.Server.Container.{Container}
use gin_di.Server.Routes.{Input}
use gin_di.Settings.App.{AppConfig}
use gin_di.Throttle.Config.{ThrottleConfig}

abbrev pub app : AppConfig
app = record {
  name = codes "gin";
  env = codes "local";
  debug = false;
  url = codes "http://localhost";
  host = codes "127.0.0.1";
  port = codes "8000";
  log_level = codes "info";
  trusted_proxies = [];
  cors_origins = codes "*" ∷ [];
}

abbrev limits : ThrottleConfig
limits = record {
  store = codes "memory";
  overall = record { name = codes "global"; requests = pos 60; per = pos 60_000_000_000 };
  login = record { name = codes "login"; requests = pos 5; per = pos 60_000_000_000 };
  max_keys = pos 10;
}

abbrev pub user : User
user = record { id = pos 7; username = sam; password = codes "secret"; created_at = codes "2024" }

abbrev find : Text → Result GoError (Cursor User)
find name = ok (record { scans = if same name sam then ok user ∷ [] else []; stopped = none })

abbrev no_events : ℤ → ℤ → ℤ → Result GoError (Cursor Event)
no_events user_id limit offset = ok (record { scans = []; stopped = none })

-- A table that keeps the owners.
abbrev insert : Text → Text → ℤ → List ℤ → List ℤ × Result GoError (Result GoError (ℤ × Text))
insert name date user_id db = (user_id ∷ db, ok (ok (pos 1, codes "now")))

abbrev pub container : Container (List ℤ)
container = record {
  app = app;
  auth = record { library = sample; jwt = sample_config };
  users = record { read = find; verify = λ hashed password. ok (same hashed password) };
  db = record { read = no_events; insert = insert };
  throttle = limits;
}

abbrev pub credentials : LoginRequest
credentials = record { username = sam; password = codes "secret" }

abbrev pub input : Input
input = record {
  credentials = ok credentials;
  page = ok (record { page = pos 1; per_page = pos 10 });
  event = ok (record { name = codes "party"; date = codes "2030-01-01" });
}

abbrev pub a_request : Ctx Payload
a_request = record {
  request_id_header = [];
  authorization = [];
  client_ip = codes "10.0.0.1";
  now = 63_000_000_000_500_000_000;
  body_limit = none;
  request_id = codes "0af3";
  user_id = none;
  username = [];
  errors = [];
  aborted = false;
  headers = [];
  response = none;
  limiter = record { buckets = []; max_keys = 10; pruned_at = 0 };
  log = [];
}

abbrev pub the_token : Text
the_token = 0 ∷ 7 ∷ 63_000_003_600 ∷ 63_000_000_000 ∷ []

abbrev pub a_later_request : Ctx Payload
a_later_request = record a_request {
  authorization = codes "Bearer " ++ the_token;
  now = 63_000_003_599_000_000_000;
}
