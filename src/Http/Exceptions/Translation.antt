-- ===== src/Http/Exceptions/Translation.antt =====
-- What a caller learns from a failure: messages about its own fields, and nothing of a driver's text.
use mathlib.Core.Path.{ap₂}
use gin_di.Prelude.{
  inr, inl, ◌≡◌, refl, sym, ◌∙◌, ap, Text, List, [], ◌∷◌, ◌++◌, append-nil, append_assoc, Option,
  none, some, Option-cases, Bool-cases, same, same_iff, if◌then◌else◌, lookup, put, lookup-put,
  arith,
}
use gin_di.Http.Errors.{
  GoError, plain, wrap, join, http, pq, FieldError, as_type, is_some, or_else, validation_here,
  pq_here, malformed_here, no_rows_here,
}
use gin_di.Http.Exceptions.{
  HttpException, describe, messages_at, add_messages, from_bind_error, from_database_error,
  from_class, new_bad_request,
}

-- The messages of the failures on one field, in their order.
pub messages_for : Text → List FieldError → List Text
messages_for name [] = []
messages_for name (f ∷ fs) =
    let rest = messages_for name fs in if same f.field name then describe f ∷ rest else rest

messages_at-put :
    (name other : Text) (ms : List Text) (fields : List (Text × List Text))
    → messages_at name (put other ms fields)
      ≡ (if same other name then ms else messages_at name fields)
messages_at-put name other ms fields =
    rw (lookup-put other name ms fields, messages_at) (ground arith)

messages_at-add :
    (name : Text) (fields : List (Text × List Text)) (fs : List FieldError)
    → messages_at name (add_messages fields fs) ≡ messages_at name fields ++ messages_for name fs
unfolding add_messages messages_for
messages_at-add name fields [] = sym (append-nil _)
messages_at-add name fields (f ∷ fs) =
    let added = messages_at f.field fields ++ describe f ∷ [] in
    messages_at-add name (put f.field added fields) fs
    ∙ ap (λ ms. ms ++ messages_for name fs) (messages_at-put name f.field added fields)
    ∙ split
  where
    split :
        (if same f.field name
            then messages_at f.field fields ++ describe f ∷ []
            else messages_at name fields)
          ++ messages_for name fs
        ≡ messages_at name fields ++ messages_for name (f ∷ fs)
    split = elim (Bool-cases (same f.field name)) [
      | inl e ↦ rw (e, (same_iff _ _).0 e) (append_assoc (messages_at name fields) _ _)
      | inr e ↦ rw e
    ]

-- An error with every text taken out that is not the application's own.
unfoldable pub scrub : GoError → GoError
scrub (plain s) = plain []
scrub (wrap s e) = wrap [] (scrub e)
scrub (join a b) = join (scrub a) (scrub b)
scrub (http n m f e) = http n m f (scrub e)
scrub (pq class text) = pq class []
scrub e = e

abbrev pub over : {A B : Type 0} → (A → B) → Option A → Option B
over f none = none
over f (some a) = some (f a)

over-or_else :
    {A B : Type 0} (f : A → B) (a b : Option A)
    → over f (or_else a b) ≡ or_else (over f a) (over f b)
over-or_else f none b = refl
over-or_else f (some a) b = refl

module _ {A B : Type 0} (here : GoError → Option A) (there : GoError → Option B) (f : A → B) where
  pub as_type-scrub :
      ((e : GoError) → there (scrub e) ≡ over f (here e))
      → (e : GoError) → as_type there (scrub e) ≡ over f (as_type here e)
  unfolding as_type scrub
  as_type-scrub h (wrap s e) =
      ap₂ or_else (h (wrap s e)) (as_type-scrub h e)
      ∙ sym (over-or_else f (here (wrap s e)) (as_type here e))
  as_type-scrub h (join a b) =
      ap₂ or_else (h (join a b)) (
        ap₂ or_else (as_type-scrub h a) (as_type-scrub h b)
        ∙ sym (over-or_else f (as_type here a) (as_type here b)))
      ∙ sym (over-or_else f (here (join a b)) (or_else (as_type here a) (as_type here b)))
  as_type-scrub h (http n m fields e) =
      ap₂ or_else (h (http n m fields e)) (as_type-scrub h e)
      ∙ sym (over-or_else f (here (http n m fields e)) (as_type here e))
  as_type-scrub h e = h _

-- Two exceptions that render alike: the cause, which is logged, may differ.
abbrev pub RendersAs : HttpException → HttpException → Type 0
RendersAs a b = (a.status ≡ b.status) × (a.message ≡ b.message) × (a.errors ≡ b.errors)

over-same : {A : Type 0} (o : Option A) → over (λ a. a) o ≡ o
over-same none = refl
over-same (some a) = refl

-- A search that looks at no text finds the same in a scrubbed error.
search-scrub :
    {A : Type 0} (here : GoError → Option A)
    → ((e : GoError) → here (scrub e) ≡ here e)
    → (e : GoError) → as_type here (scrub e) ≡ as_type here e
search-scrub here h e =
    as_type-scrub here here (λ a. a) (λ x. h x ∙ sym (over-same (here x))) e
    ∙ over-same (as_type here e)

no_rows-here : (e : GoError) → no_rows_here (scrub e) ≡ no_rows_here e
unfolding scrub
no_rows-here (plain s) = refl
no_rows-here _ = refl

malformed-here : (e : GoError) → malformed_here (scrub e) ≡ malformed_here e
unfolding scrub
malformed-here (plain s) = refl
malformed-here _ = refl

validation-here : (e : GoError) → validation_here (scrub e) ≡ validation_here e
unfolding scrub
validation-here (plain s) = refl
validation-here _ = refl

pq-here : (e : GoError) → pq_here (scrub e) ≡ over (λ c. (c.0, [])) (pq_here e)
unfolding scrub
pq-here (plain s) = refl
pq-here _ = refl

-- A database failure renders the same whatever the driver's and the server's messages say.
pub from_database_error-scrub :
    (e : GoError) → RendersAs (from_database_error (scrub e)) (from_database_error e)
unfolding from_database_error from_class
from_database_error-scrub e = elim (Bool-cases (is_some (as_type no_rows_here e))) [
  | inl c ↦ rw (search-scrub no_rows_here no_rows-here e, c) (refl, refl, refl)
  | inr c ↦ elim (Option-cases (as_type pq_here e)) [
    | inl q ↦
        rw
          (
            search-scrub no_rows_here no_rows-here e,
            c,
            as_type-scrub pq_here pq_here (λ t. (t.0, [])) pq-here e,
            q,
          )
          (refl, refl, refl)
    | inr (t, q) ↦
        rw
          (
            search-scrub no_rows_here no_rows-here e,
            c,
            as_type-scrub pq_here pq_here (λ t. (t.0, [])) pq-here e,
            q,
          )
          (ground arith)
  ]
]

-- So does a request that could not be bound.
pub from_bind_error-scrub :
    (e : GoError) → RendersAs (from_bind_error (scrub e)) (from_bind_error e)
unfolding from_bind_error new_bad_request
from_bind_error-scrub e = elim (Option-cases (as_type validation_here e)) [
  | inl q ↦
      rw
        (
          search-scrub validation_here validation-here e,
          q,
          from_bind_error,
          search-scrub malformed_here malformed-here e,
        )
        (ground arith)
  | inr (fs, q) ↦
      rw (search-scrub validation_here validation-here e, q, from_bind_error) (refl, refl, refl)
]

-- A request that breaks rules is a 422 whose messages on each field are those of the field's
-- failures, in their order, and on no other field.
pub from_bind_error-messages :
    (e : GoError) (fs : List FieldError)
    → as_type validation_here e ≡ some fs
    → ((from_bind_error e).status ≡ 422)
      × ((fields : List (Text × List Text)) × ((from_bind_error e).errors ≡ some fields)
          × ((name : Text) → messages_at name fields ≡ messages_for name fs))
unfolding from_bind_error lookup
from_bind_error-messages e fs h = (
  rw (h, from_bind_error),
  (add_messages [] fs, rw (h, from_bind_error), λ name. messages_at-add name [] fs),
)
