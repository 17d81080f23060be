-- ===== src/Http/Exceptions.antt =====
-- app/exceptions: the errors that the HTTP layer renders, and how others become them.
pub mod Translation
use gin_di.Prelude.{
  ◌+◌, leb, ℕ, Text, codes, same, ◌++◌, List, [], ◌∷◌, Option, none, some, if◌then◌else◌, lookup,
  put, ◌&&◌,
}
use gin_di.Http.Errors.{
  GoError, nil, plain, http, FieldError, FieldMessages, as_type, is_some, validation_here, pq_here,
  malformed_here, no_rows_here,
}

-- An HTTPException: `cause` is logged and never sent.
pub record HttpException : Type 0 where
  pub status : ℕ
  pub message : Text
  pub errors : FieldMessages
  pub cause : GoError

-- The exception as the error that it is.
abbrev pub to_error : HttpException → GoError
to_error e = http e.status e.message e.errors e.cause

abbrev pub message_bad_request : Text
message_bad_request = codes "The request could not be read"

abbrev pub message_unauthorized : Text
message_unauthorized = codes "Unauthorized"

abbrev pub message_not_found : Text
message_not_found = codes "Not found"

abbrev pub message_not_allowed : Text
message_not_allowed = codes "Method not allowed"

abbrev pub message_conflict : Text
message_conflict = codes "The request conflicts with existing data"

abbrev pub message_validation : Text
message_validation = codes "The given data was invalid."

abbrev pub message_too_many : Text
message_too_many = codes "Too many requests"

abbrev pub message_internal : Text
message_internal = codes "Something went wrong"

abbrev exception : ℕ → Text → FieldMessages → GoError → HttpException
exception status message errors cause = record {
  status = status;
  message = message;
  errors = errors;
  cause = cause;
}

unfoldable pub new_bad_request : Text → GoError → HttpException
new_bad_request message cause =
    exception 400 (if same message [] then message_bad_request else message) none cause

abbrev pub new_unauthorized : HttpException
new_unauthorized = exception 401 message_unauthorized none nil

abbrev pub new_forbidden : HttpException
new_forbidden = exception 403 (codes "Forbidden") none nil

abbrev pub new_not_found : GoError → HttpException
new_not_found cause = exception 404 message_not_found none cause

abbrev pub new_method_not_allowed : HttpException
new_method_not_allowed = exception 405 message_not_allowed none nil

abbrev pub new_conflict : GoError → HttpException
new_conflict cause = exception 409 message_conflict none cause

abbrev pub new_validation : FieldMessages → GoError → HttpException
new_validation fields cause = exception 422 message_validation fields cause

abbrev pub new_too_many_requests : HttpException
new_too_many_requests = exception 429 message_too_many none nil

abbrev pub new_internal : GoError → HttpException
new_internal cause = exception 500 message_internal none cause

-- errors.AsType[*HTTPException].
abbrev pub exception_here : GoError → Option HttpException
exception_here (http status message errors cause) = some (exception status message errors cause)
exception_here e = none

unfoldable pub describe : FieldError → Text
describe f =
    if same f.tag (codes "required")
    then f.field ++ codes " is required"
    else (if same f.tag (codes "min")
        then f.field ++ codes " must be at least " ++ f.param ++ codes " characters"
        else (if same f.tag (codes "max")
            then f.field ++ codes " must be at most " ++ f.param ++ codes " characters"
            else (if same f.tag (codes "email")
                then f.field ++ codes " must be a valid email address"
                else (if same f.tag (codes "eventdate")
                    then f.field ++ codes " must be a valid date in YYYY-MM-DD format"
                    else f.field ++ codes " is invalid"))))

-- `fields[name]`, where a missing key reads as the nil slice.
abbrev pub messages_at : Text → List (Text × List Text) → List Text
messages_at name fields = elim (lookup name fields) [ none ↦ [] | some ms ↦ ms ]

-- The loop over the validation errors.
unfoldable pub add_messages : List (Text × List Text) → List FieldError → List (Text × List Text)
add_messages fields [] = fields
add_messages fields (f ∷ fs) =
    add_messages (put f.field (messages_at f.field fields ++ describe f ∷ []) fields) fs

unfoldable pub from_bind_error : GoError → HttpException
from_bind_error err = elim (as_type validation_here err) [
  | some fs ↦ new_validation (some (add_messages [] fs)) err
  | none ↦
      if is_some (as_type malformed_here err)
      then new_bad_request (codes "Malformed JSON body") err
      else new_bad_request message_bad_request err
]

unfoldable pub from_class : Text → GoError → HttpException
from_class c err =
    if same c (codes "23")
    then new_conflict err
    else (if same c (codes "22") then new_validation none err else new_internal err)

unfoldable pub from_database_error : GoError → HttpException
from_database_error err =
    if is_some (as_type no_rows_here err) then new_not_found err else elim (as_type pq_here err) [
      | some (class, text) ↦ from_class class err
      | none ↦ new_internal err
    ]

-- strings.ToLower on an ASCII message.
unfoldable pub to_lower : Text → Text
to_lower [] = []
to_lower (c ∷ s) = (if leb b'A' c && leb c b'Z' then c + 32 else c) ∷ to_lower s

unfoldable pub field_errors : Text → Text → HttpException
field_errors field message =
    new_validation (some ((field, message ∷ []) ∷ [])) (plain (to_lower message))
