-- ===== src/Http/Context.antt =====
-- One request as it goes through gin: what the application reads from the context and sets on it.
-- gin calls a handler with the context; `Next` is the call of the rest of the chain, an argument of
-- each middleware. A handler may panic. `D` is the type of the payloads of the envelope.
use gin_di.Prelude.{
  ℕ, Text, codes, List, [], ◌∷◌, ◌++◌, Option, none, some, Bool, true, false, same, if◌then◌else◌,
  ◌==◌,
}
use gin_di.Prelude.Int.{ℤ}
use gin_di.Http.Errors.{GoError, FieldMessages}
use gin_di.Throttle.Memory.{MemoryStore}

-- app/http/responses/envelope.go
pub record Envelope (D : Type 0) : Type 0 where
  pub status : Text
  pub message : Text
  pub payload : Option D
  pub errors : FieldMessages

pub record Response (D : Type 0) : Type 0 where
  pub code : ℕ
  pub body : Envelope D

-- A header's value: a text, or the number that strconv prints.
pub data HeaderValue : Type 0 where
  text : Text → HeaderValue
  number : ℤ → HeaderValue

-- What is logged: the access line, a reported failure with its cause, and a recovered panic.
pub data LogEntry : Type 0 where
  request : Text → ℕ → LogEntry
  failed : Text → ℕ → GoError → LogEntry
  panic : Text → LogEntry

pub record Ctx (D : Type 0) : Type 0 where
  -- The request: its correlation header, its Authorization header, the client's address and the time.
  pub request_id_header : Text
  pub authorization : Text
  pub client_ip : Text
  pub now : ℕ
  pub body_limit : Option ℕ
  -- The keys that the application sets; a missing text reads as "".
  pub request_id : Text
  pub user_id : Option ℤ
  pub username : Text
  -- What is reported and answered. `errors` is in order, `response` what has been written.
  pub errors : List GoError
  pub aborted : Bool
  pub headers : List (Text × HeaderValue)
  pub response : Option (Response D)
  -- The state outside the request: the shared counter and the log.
  pub limiter : MemoryStore
  pub log : List LogEntry

pub data Run (D : Type 0) : Type 0 where
  finished : Ctx D → Run D
  panicked : Ctx D → Run D

abbrev pub Handler : Type 0 → Type 0
Handler D = Ctx D → Run D

-- What stands behind a call of `Next` runs only if that returns.
abbrev pub after : {D : Type 0} → Run D → (Ctx D → Run D) → Run D
after (finished c) f = f c
after (panicked c) f = panicked c

-- http.StatusText, for the statuses of this application.
abbrev pub status_text : ℕ → Text
status_text n =
    if n == 400
    then codes "Bad Request"
    else (if n == 401
        then codes "Unauthorized"
        else (if n == 403
            then codes "Forbidden"
            else (if n == 404
                then codes "Not Found"
                else (if n == 405
                    then codes "Method Not Allowed"
                    else (if n == 409
                        then codes "Conflict"
                        else (if n == 422
                            then codes "Unprocessable Entity"
                            else (if n == 429
                                then codes "Too Many Requests"
                                else (if n == 500 then codes "Internal Server Error" else []))))))))

-- `responses.Success`
unfoldable pub success : {D : Type 0} → ℕ → Text → Option D → Ctx D → Ctx D
success code message payload ctx = record ctx {
  response = some (record {
    code = code;
    body = record {
      status = codes "success";
      message = if same message [] then codes "ok" else message;
      payload = payload;
      errors = none;
    };
  });
}

-- `responses.Fail`
unfoldable pub fail_with : {D : Type 0} → ℕ → Text → FieldMessages → Ctx D → Ctx D
fail_with code message errors ctx = record ctx {
  aborted = true;
  response = some (record {
    code = code;
    body = record {
      status = codes "error";
      message = if same message [] then status_text code else message;
      payload = none;
      errors = errors;
    };
  });
}

-- `ctx.Error`, and `ctx.Writer.Written`.
abbrev pub report : {D : Type 0} → GoError → Ctx D → Ctx D
report e ctx = record ctx { errors = ctx.errors ++ e ∷ [] }

abbrev pub written : {D : Type 0} → Ctx D → Bool
written ctx = elim ctx.response [ none ↦ false | some r ↦ true ]
