-- ===== src/Http/Middlewares/Tests.antt =====
-- Concrete requests through the middlewares.
use gin_di.Http.Context.{Ctx, Handler, Response, HeaderValue, finished, panicked, report}
use gin_di.Http.Errors.{pq, GoError, plain, wrap, validation, FieldError, as_type}
use gin_di.Http.Exceptions.{
  messages_at, to_error, new_internal, from_database_error, from_bind_error,
}
use gin_di.Http.Exceptions.Translation.{
  scrub, RendersAs, messages_for, from_database_error-scrub, from_bind_error-messages,
}
use gin_di.Http.Middlewares.{retry_seconds, global_middleware, render_error, Claims}
use gin_di.Http.Middlewares.Refusals.{render_error-scrub, global_middleware-throttled}
use gin_di.Throttle.Limit.{Limit, key, refill_per_second}
use gin_di.Throttle.Memory.{
  allow, find_bucket, sweep, keep_after, make_room, top_up, settle, decide, spend, retry_after,
  reset_at, seconds_to_duration,
}
use gin_di.Prelude.Int.{pos}
use gin_di.Prelude.{
  ℕ, Text, codes, same, List, [], ◌∷◌, none, some, false, ◌≡◌, refl, lookup, put, Result, ok,
}

abbrev a_request : Ctx ℕ
a_request = record {
  request_id_header = codes "bad id";
  authorization = codes "Bearer abc";
  client_ip = codes "10.0.0.1";
  now = 63_000_000_000_000_000_000;
  body_limit = none;
  request_id = [];
  user_id = none;
  username = [];
  errors = [];
  aborted = false;
  headers = [];
  response = none;
  limiter = record { buckets = []; max_keys = 10; pruned_at = 0 };
  log = [];
}

-- A handler that panics after it has reported an error.
abbrev failing : Handler ℕ
failing ctx = panicked (report (plain (codes "boom")) ctx)

abbrev per_minute : Limit
per_minute = record { name = codes "global"; requests = pos 60; per = pos 60_000_000_000 }

abbrev no_budget : Limit
no_budget = record { name = codes "global"; requests = pos 0; per = pos 60_000_000_000 }

render_error-scrub_example :
    (render_error (scrub (to_error (new_internal (plain (codes "dial tcp"))))) a_request).response
    ≡ (render_error (to_error (new_internal (plain (codes "dial tcp")))) a_request).response
render_error-scrub_example =
    render_error-scrub (to_error (new_internal (plain (codes "dial tcp")))) a_request

abbrev short_password : FieldError
short_password = record { field = codes "password"; tag = codes "min"; param = codes "8" }

from_database_error-scrub_example :
    RendersAs
      (from_database_error (scrub (pq (codes "23") (codes "duplicate key"))))
      (from_database_error (pq (codes "23") (codes "duplicate key")))
from_database_error-scrub_example =
    from_database_error-scrub (pq (codes "23") (codes "duplicate key"))

from_bind_error-messages_example :
    ((from_bind_error (wrap [] (validation (short_password ∷ [])))).status ≡ 422)
    × ((fields : List (Text × List Text)) × ((from_bind_error
            (wrap [] (validation (short_password ∷ [])))).errors
          ≡ some fields)
        × ((name : Text) → messages_at name fields ≡ messages_for name (short_password ∷ [])))
unfolding as_type
from_bind_error-messages_example =
    from_bind_error-messages (wrap [] (validation (short_password ∷ []))) (short_password ∷ []) refl

abbrev accepting : Text → Result GoError Claims
accepting token = ok (record { user_id = pos 7; username = codes "sam" })

global_middleware-throttled_example :
    let (store, d) =
      allow a_request.limiter (key no_budget a_request.client_ip) no_budget a_request.now in
    (c : Ctx ℕ) × (global_middleware (codes "0af3") none (some no_budget) failing a_request
      ≡ finished c)
    × (c.limiter ≡ store)
    × (lookup (codes "Retry-After") c.headers
        ≡ some (HeaderValue.number (pos (retry_seconds d.retry_after))))
    × ((r : Response ℕ) × (c.response ≡ some r)
        × (r.code ≡ 429)
        × (r.body.message ≡ codes "Too many requests"))
unfolding same allow find_bucket sweep keep_after make_room top_up settle decide spend retry_after
    reset_at seconds_to_duration refill_per_second lookup put
global_middleware-throttled_example =
    global_middleware-throttled (codes "0af3") no_budget failing a_request refl refl
