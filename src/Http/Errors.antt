-- ===== src/Http/Errors.antt =====
-- Go's `error` values as far as the application tells them apart, with the chains that
-- `fmt.Errorf` and `Unwrap` build, and the searches of package errors through them.
use gin_di.Prelude.{ℕ, Text, List, Option, none, some, Bool, true, false}

-- validator.FieldError: the field's wire name, the tag that failed and its parameter.
pub record FieldError : Type 0 where
  pub field : Text
  pub tag : Text
  pub param : Text

-- map[string][]string, where `none` is the nil map.
abbrev pub FieldMessages : Type 0
FieldMessages = Option (List (Text × List Text))

pub data GoError : Type 0 where
  -- The nil error, which an exception without a cause carries.
  nil : GoError
  -- errors.New, and any error that nothing here looks into.
  plain : Text → GoError
  -- fmt.Errorf("…: %w", err), and fmt.Errorf("%w: %w", err, err).
  wrap : Text → GoError → GoError
  join : GoError → GoError → GoError
  -- *exceptions.HTTPException: status, message, field messages, cause.
  http : ℕ → Text → FieldMessages → GoError → GoError
  -- validator.ValidationErrors.
  validation : List FieldError → GoError
  json_syntax : GoError
  json_type : GoError
  eof : GoError
  unexpected_eof : GoError
  -- sql.ErrNoRows, and *pq.Error: the class of its SQLSTATE, as lib/pq gives it, and its text.
  no_rows : GoError
  pq : Text → Text → GoError

-- The first of two results of a search.
abbrev pub or_else {ℓ} : {A : Type ℓ} → Option A → Option A → Option A
or_else (some a) o = some a
or_else none o = o

-- errors.As, depth first, through what an error unwraps to.
module _ {ℓ} {A : Type ℓ} (here : GoError → Option A) where
  unfoldable pub as_type : GoError → Option A
  as_type (wrap s e) = or_else (here (wrap s e)) (as_type e)
  as_type (join a b) = or_else (here (join a b)) (or_else (as_type a) (as_type b))
  as_type (http n m f e) = or_else (here (http n m f e)) (as_type e)
  as_type e = here e

abbrev pub is_some {ℓ} : {A : Type ℓ} → Option A → Bool
is_some none = false
is_some (some a) = true

abbrev pub validation_here : GoError → Option (List FieldError)
validation_here (validation fs) = some fs
validation_here e = none

abbrev pub pq_here : GoError → Option (Text × Text)
pq_here (pq class text) = some (class, text)
pq_here e = none

-- errors.Is against one of the sentinels or the JSON errors.
abbrev pub malformed_here : GoError → Option (Unit {0})
malformed_here json_syntax = some tt
malformed_here json_type = some tt
malformed_here eof = some tt
malformed_here unexpected_eof = some tt
malformed_here e = none

abbrev pub no_rows_here : GoError → Option (Unit {0})
no_rows_here no_rows = some tt
no_rows_here e = none
