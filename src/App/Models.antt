-- ===== src/App/Models.antt =====
-- app/models: the rows of the tables and the methods that read them. The queries are parameters.
use gin_di.Prelude.{
  ℕ, zero, suc, ◌+◌, ◌-◌, ◌*◌, ◌/◌, ◌%◌, ◌^◌, ◌≤◌, ◌<◌, Text, codes, same, same_refl, same_iff,
  ne_of_same, List, [], ◌∷◌, ◌++◌, map, append-nil, append_assoc, Option, none, some, Option-cases,
  Bool, true, false, not, ◌&&◌, ◌||◌, Bool-cases, ltb, leb, ◌==◌, if◌then◌else◌, ◌≡◌, ◌≢◌, ◌↔◌,
  refl, sym, ap, subst, ◌∙◌, ◌⊎◌, inl, inr, length, All, lookup, has, put, delete, lookup-put,
  Result, ok, err, Result-cases, arith,
}
use gin_di.Http.Errors.{GoError, plain, wrap, no_rows}
use gin_di.Prelude.Int.{to_int64, ℤ, pos, negsuc, is_non_positive}
pub mod Pages
pub mod Rows
pub mod Writes
mod Tests

pub record User : Type 0 where
  pub id : ℤ
  pub username : Text
  -- The stored hash.
  pub password : Text
  pub created_at : Text

pub record Event : Type 0 where
  pub id : ℤ
  pub name : Text
  pub date : Text
  pub created_at : Text
  pub user_id : ℤ

-- *sql.Rows: what each Scan gives, and what Err says once Next is false.
pub record Cursor (A : Type 0) : Type 0 where
  pub scans : List (Result GoError A)
  pub stopped : Option GoError

-- The first row, as Find reads it: `subject` is the word in the messages.
unfoldable pub first_row : {A : Type 0} → Text → Text → Cursor A → Result GoError A
first_row scanning iterating cursor = elim cursor.scans [
  | ◌∷◌ (ok a) rest ↦ ok a
  | ◌∷◌ (err e) rest ↦ err (wrap scanning e)
  | [] ↦ elim cursor.stopped [ some e ↦ err (wrap iterating e) | none ↦ err no_rows ]
]

-- `User.FindByUsername`, where `read` runs the query.
unfoldable pub find_by_username : (Text → Result GoError (Cursor User)) → Text → Result GoError User
find_by_username read username =
    if same username [] then err (plain (codes "username is required")) else elim (read username) [
      | err e ↦ err (wrap (codes "finding user: ") e)
      | ok cursor ↦ first_row (codes "scanning user: ") (codes "iterating users: ") cursor
    ]

abbrev pub is_zero : ℤ → Bool
is_zero (pos n) = n == 0
is_zero (negsuc n) = false

-- `Event.Find`
unfoldable pub find_event : (ℤ → Result GoError (Cursor Event)) → ℤ → Result GoError Event
find_event read id = if is_zero id then err (plain (codes "id is required")) else elim (read id) [
  | err e ↦ err (wrap (codes "finding event: ") e)
  | ok cursor ↦ first_row (codes "scanning event: ") (codes "iterating events: ") cursor
]

-- The loop over the rows of a page: an error of a scan ends it.
unfoldable pub scan_rows : {A : Type 0} → Text → List (Result GoError A) → Result GoError (List A)
scan_rows scanning [] = ok []
scan_rows scanning (err e ∷ rest) = err (wrap scanning e)
scan_rows scanning (ok a ∷ rest) = elim (scan_rows scanning rest) [
  | ok found ↦ ok (a ∷ found)
  | err e ↦ err e
]

-- A page that stops early is an error, though every scan was good.
unfoldable pub scan_all : {A : Type 0} → Text → Text → Cursor A → Result GoError (List A)
scan_all scanning iterating cursor = elim (scan_rows scanning cursor.scans) [
  | err e ↦ err e
  | ok found ↦ elim cursor.stopped [ some e ↦ err (wrap iterating e) | none ↦ ok found ]
]

abbrev default_page_size : ℕ
default_page_size = 10

-- The positive value, or the default.
unfoldable pub or_default : ℕ → ℤ → ℕ
or_default d (pos n) = if n == 0 then d else n
or_default d (negsuc n) = d

unfoldable pub page_bounds : ℤ → ℤ → ℤ × ℤ
page_bounds limit page =
    let size = or_default default_page_size limit in
    (pos size, to_int64 ((or_default 1 page - 1) * size))

-- `Event.PaginateForUser` and `User.Paginate`: the owner, the limit and the offset go to the query.
unfoldable pub paginate_for_user :
    (ℤ → ℤ → ℤ → Result GoError (Cursor Event)) → ℤ → ℤ → ℤ → Result GoError (List Event)
paginate_for_user read user_id limit page =
    let (size, offset) = page_bounds limit page in
    elim (read user_id size offset) [
      | err e ↦ err (wrap (codes "paginating events for user: ") e)
      | ok cursor ↦ scan_all (codes "scanning event: ") (codes "iterating events: ") cursor
    ]

unfoldable pub paginate_users :
    (ℤ → ℤ → Result GoError (Cursor User)) → ℤ → ℤ → Result GoError (List User)
paginate_users read limit page =
    let (size, offset) = page_bounds limit page in
    elim (read size offset) [
      | err e ↦ err (wrap (codes "paginating users: ") e)
      | ok cursor ↦ scan_all (codes "scanning user: ") (codes "iterating users: ") cursor
    ]

-- What `Event.Create` makes of the returned row: an error of Create, or one that Scan reports.
abbrev pub created :
    {Db : Type 0}
    → Event
    → Db × Result GoError (Result GoError (ℤ × Text))
    → Db × Result GoError Event
created event (db, err e) = (db, err (wrap (codes "creating event: ") e))
created event (db, ok (err e)) = (db, err (wrap (codes "scanning created event: ") e))
created event (db, ok (ok (id, created_at))) =
    (db, ok (record event { id = id; created_at = created_at }))

-- `Event.Create`: the row that is inserted carries the model's fields, and the generated columns
-- are read back.
unfoldable pub create_event :
    {Db : Type 0}
    → (Text → Text → ℤ → Db → Db × Result GoError (Result GoError (ℤ × Text)))
    → Event
    → Db
    → Db × Result GoError Event
create_event insert event db = created event (insert event.name event.date event.user_id db)
