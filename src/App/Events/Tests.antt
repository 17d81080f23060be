-- ===== src/App/Events/Tests.antt =====
-- The events of user 7.
use gin_di.Prelude.{
  Text, codes, List, [], ◌∷◌, map, none, some, false, ◌≡◌, ap, ◌∙◌, ◌⊎◌, length, All, Result, ok,
  ok_inj,
}
use gin_di.App.Models.{Cursor, Event}
use gin_di.App.Resources.{EventResource, Meta, Payload, page_of}
use gin_di.App.Events.{IndexRequest, StoreRequest, current_user, index, create}
use gin_di.App.Events.Ownership.{ReadsOwned, index-owned, create-owned}
use gin_di.Http.Context.{Ctx, finished, report, success}
use gin_di.Http.Errors.{GoError}
use gin_di.Prelude.Int.{ℤ, pos}

abbrev a_request : Ctx Payload
a_request = record {
  request_id_header = [];
  authorization = [];
  client_ip = codes "10.0.0.1";
  now = 63_000_000_000_000_000_000;
  body_limit = none;
  request_id = codes "0af3";
  user_id = some (pos 7);
  username = codes "sam";
  errors = [];
  aborted = false;
  headers = [];
  response = none;
  limiter = record { buckets = []; max_keys = 10; pruned_at = 0 };
  log = [];
}

abbrev party : ℤ → Event
party user_id = record {
  id = pos 1;
  name = codes "party";
  date = [];
  created_at = [];
  user_id = user_id;
}

abbrev read : ℤ → ℤ → ℤ → Result GoError (Cursor Event)
read user_id limit offset = ok (record { scans = ok (party user_id) ∷ []; stopped = none })

one_row :
    (user_id : ℤ) (found : List Event)
    → ◌≡◌ {A = List (Result GoError Event)} (ok (party user_id) ∷ []) (map ok found)
    → All (λ e. e.user_id ≡ user_id) found
one_row user_id [] h = tt
one_row user_id (e ∷ []) h = (ap (λ x. x.user_id) same_event, tt)
  where
    same_event : e ≡ party user_id
    same_event = cc
one_row user_id (e ∷ f ∷ found) h = absurd two
  where
    two : ⊥
    two = cc

read-ReadsOwned : ReadsOwned read
read-ReadsOwned user_id limit offset cursor found h s =
    one_row user_id found (ap (λ c. c.scans) (ok_inj h) ∙ s)

abbrev asked : IndexRequest
asked = record { page = pos 0; per_page = pos 5 }

index-owned_example :
    ((e : GoError) × (index (ok asked) read a_request ≡ finished (report e a_request)))
    ⊎ ((id : ℤ) × (events : List EventResource) × (meta : Meta) × (current_user a_request ≡ some id)
        × (index (ok asked) read a_request
            ≡ finished (success 200 [] (some (page_of events meta)) a_request))
        × All (λ e. e.user_id ≡ id) events
        × (meta.count ≡ length events))
index-owned_example = index-owned (ok asked) read a_request read-ReadsOwned

abbrev stored : StoreRequest
stored = record { name = codes "party"; date = codes "2030-01-01" }

-- A table that keeps the owners.
abbrev insert : Text → Text → ℤ → List ℤ → List ℤ × Result GoError (Result GoError (ℤ × Text))
insert name date user_id db = (user_id ∷ db, ok (ok (pos 1, codes "now")))

create-owned_example :
    ((e : GoError) × (create (ok stored) insert a_request [] ≡ ([], finished (report e a_request))))
    ⊎ ((id : ℤ) × (request : StoreRequest) × (current_user a_request ≡ some id)
        × (◌≡◌ {A = Result GoError StoreRequest} (ok stored) (ok request))
        × ((create (ok stored) insert a_request []).0 ≡ (insert request.name request.date id []).0))
create-owned_example = create-owned (ok stored) insert a_request []
