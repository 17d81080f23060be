-- ===== src/App/Events.antt =====
-- app/http/controllers/v1/events with its requests and resources: the events of the caller.
use gin_di.Prelude.{
  ℕ, zero, suc, ◌+◌, ◌-◌, ◌*◌, ◌/◌, ◌%◌, ◌^◌, ◌≤◌, ◌<◌, Text, codes, same, same_refl, same_iff,
  ne_of_same, List, [], ◌∷◌, ◌++◌, map, append-nil, append_assoc, Option, none, some, Option-cases,
  Bool, true, false, not, ◌&&◌, ◌||◌, Bool-cases, ltb, leb, ◌==◌, if◌then◌else◌, ◌≡◌, ◌≢◌, ◌↔◌,
  refl, sym, ap, subst, ◌∙◌, ◌⊎◌, inl, inr, length, All, lookup, has, put, delete, lookup-put,
  Result, ok, err, Result-cases, arith,
}
use gin_di.Http.Errors.{GoError, plain, wrap}
use gin_di.Http.Context.{Ctx, Run, Handler, finished, report, success}
use gin_di.Http.Exceptions.{to_error, from_bind_error, from_database_error, new_unauthorized}
use gin_di.App.Models.{Cursor, Event, paginate_for_user, create_event}
use gin_di.Prelude.Int.{ℤ, pos, negsuc, is_non_positive}
use gin_di.App.Resources.{Payload, single, new_event_resource, new_event_page}
pub mod Ownership
mod Tests

pub record IndexRequest : Type 0 where
  pub page : ℤ
  pub per_page : ℤ

-- There is no owner in the request.
pub record StoreRequest : Type 0 where
  pub name : Text
  pub date : Text

abbrev pub defaults : IndexRequest → IndexRequest
defaults request = record {
  page = if is_non_positive request.page then pos 1 else request.page;
  per_page = if is_non_positive request.per_page then pos 10 else request.per_page;
}

-- `auth.ID`: an id of zero is nobody.
unfoldable pub current_user : {D : Type 0} → Ctx D → Option ℤ
current_user ctx = elim ctx.user_id [
  | none ↦ none
  | some id ↦ elim id [ pos n ↦ if n == 0 then none else some (pos n) | negsuc n ↦ some (negsuc n) ]
]

-- `Index`
unfoldable pub index :
    Result GoError IndexRequest → (ℤ → ℤ → ℤ → Result GoError (Cursor Event)) → Handler Payload
index bind read ctx = elim (current_user ctx) [
  | none ↦ finished (report (to_error new_unauthorized) ctx)
  | some user_id ↦ elim bind [
    | err e ↦ finished (report (to_error (from_bind_error e)) ctx)
    | ok request ↦
        let asked = defaults request in
        elim (paginate_for_user read user_id asked.per_page asked.page) [
          | err e ↦ finished (report (to_error (from_database_error e)) ctx)
          | ok found ↦ finished (
              success 200 []
                (some (new_event_page (map new_event_resource found) asked.page asked.per_page))
                ctx)
        ]
  ]
]

-- A model before it is stored.
abbrev pub new_event : StoreRequest → ℤ → Event
new_event request user_id = record {
  id = pos 0;
  name = request.name;
  date = request.date;
  created_at = [];
  user_id = user_id;
}

-- What the end of `Create` answers.
abbrev pub respond_created :
    {Db : Type 0} → Ctx Payload → Db × Result GoError Event → Db × Run Payload
respond_created ctx (db, err e) = (db, finished (report (to_error (from_database_error e)) ctx))
respond_created ctx (db, ok event) = (
  db,
  finished (success 201 (codes "Event created") (some (single (new_event_resource event))) ctx),
)

-- `Create`, with the state of the database.
unfoldable pub create :
    {Db : Type 0}
    → Result GoError StoreRequest
    → (Text → Text → ℤ → Db → Db × Result GoError (Result GoError (ℤ × Text)))
    → Ctx Payload
    → Db
    → Db × Run Payload
create bind insert ctx db = elim (current_user ctx) [
  | none ↦ (db, finished (report (to_error new_unauthorized) ctx))
  | some user_id ↦ elim bind [
    | err e ↦ (db, finished (report (to_error (from_bind_error e)) ctx))
    | ok request ↦ respond_created ctx (create_event insert (new_event request user_id) db)
  ]
]
