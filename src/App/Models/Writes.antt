-- ===== src/App/Models/Writes.antt =====
-- app/models and app/services/core/pgsql_service.go: the methods that change a row. A statement is a
-- parameter: what it does to the database, and its error.
use gin_di.Prelude.{
  Text, codes, List, Option, none, some, false, if◌then◌else◌, ◌≡◌, refl, Result, ok, err,
}
use gin_di.Http.Errors.{GoError, plain, wrap}
use gin_di.Prelude.Int.{ℤ}
use gin_di.App.Models.{User, Event, Cursor, is_zero, page_bounds, scan_all}

abbrev pub Statement : Type 0 → Type 0
Statement Db = Db → Db × Option GoError

-- The results of `PostgresService.Create` and `Update`: QueryRow keeps the error of the statement for
-- the Scan of its row.
pub record Row (A : Type 0) : Type 0 where
  pub scan : Result GoError A

abbrev pub query_row : {Db A : Type 0} → Db × Result GoError A → Db × Result GoError (Row A)
query_row (db, scan) = (db, ok (record { scan = scan }))

-- `PostgresService.Update`; the row of a statement without RETURNING has nothing but its error.
unfoldable pub service_update :
    {Db : Type 0} → Statement Db → Db → Db × Result GoError (Row (Option GoError))
service_update statement db =
    let (after, e) = statement db in
    query_row (after, elim e [ some cause ↦ err cause | none ↦ ok none ])

-- `PostgresService.Delete`
unfoldable pub service_delete : {Db : Type 0} → Statement Db → Db → Db × Option GoError
service_delete statement db =
    let (after, e) = statement db in
    (after, elim e [ some cause ↦ some (wrap (codes "executing statement: ") cause) | none ↦ none ])

abbrev id_required : GoError
id_required = plain (codes "id is required")

abbrev row_dropped : {Db A : Type 0} → Text → Db × Result GoError (Row A) → Db × Option GoError
row_dropped context (db, err e) = (db, some (wrap context e))
row_dropped context (db, ok row) = (db, none)

abbrev context_of : {Db : Type 0} → Text → Db × Option GoError → Db × Option GoError
context_of context (db, some e) = (db, some (wrap context e))
context_of context (db, none) = (db, none)

module _ {Db : Type 0} where
  -- `User.Update` and `User.Delete`
  unfoldable pub update_user : (User → Statement Db) → User → Db → Db × Option GoError
  update_user statement user db =
      if is_zero user.id
      then (db, some id_required)
      else row_dropped (codes "updating user: ") (service_update (statement user) db)

  unfoldable pub delete_user : (ℤ → Statement Db) → User → Db → Db × Option GoError
  delete_user statement user db =
      if is_zero user.id
      then (db, some id_required)
      else context_of (codes "deleting user: ") (service_delete (statement user.id) db)

  -- `Event.Update` and `Event.Delete`
  unfoldable pub update_event : (Event → Statement Db) → Event → Db → Db × Option GoError
  update_event statement event db =
      if is_zero event.id
      then (db, some id_required)
      else row_dropped (codes "updating event: ") (service_update (statement event) db)

  unfoldable pub delete_event : (ℤ → Statement Db) → Event → Db → Db × Option GoError
  delete_event statement event db =
      if is_zero event.id
      then (db, some id_required)
      else context_of (codes "deleting event: ") (service_delete (statement event.id) db)

  abbrev user_created : User → Db × Result GoError (Row ℤ) → Db × Result GoError User
  user_created user (db, err e) = (db, err (wrap (codes "creating user: ") e))
  user_created user (db, ok row) = elim row.scan [
    | err e ↦ (db, err (wrap (codes "scanning created user: ") e))
    | ok id ↦ (db, ok (record user { id = id }))
  ]

  -- `User.Create`, where `insert` runs the statement and returns the new id or the error.
  unfoldable pub create_user :
      (Text → Text → Db → Db × Result GoError ℤ) → User → Db → Db × Result GoError User
  create_user insert user db = user_created user (query_row (insert user.username user.password db))

-- `Event.Paginate`: every event, with the bounds of the page.
unfoldable pub paginate_events :
    (ℤ → ℤ → Result GoError (Cursor Event)) → ℤ → ℤ → Result GoError (List Event)
paginate_events read limit page =
    let (size, offset) = page_bounds limit page in
    elim (read size offset) [
      | err e ↦ err (wrap (codes "paginating events: ") e)
      | ok cursor ↦ scan_all (codes "scanning event: ") (codes "iterating events: ") cursor
    ]

-- The error of an update is lost: with an id, both methods report success whatever the statement said,
-- though what it did to the database stays done.
pub update_reports_success :
    {Db : Type 0} (users : User → Statement Db) (events : Event → Statement Db) (user : User)
    (event : Event) (db : Db)
    → is_zero user.id ≡ false
    → is_zero event.id ≡ false
    → (update_user users user db ≡ ((users user db).0, none))
      × (update_event events event db ≡ ((events event db).0, none))
unfolding update_user update_event service_update
update_reports_success users events user event db h k =
    (rw (update_user, h) refl, rw (update_event, k) refl)
