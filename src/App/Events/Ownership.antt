-- ===== src/App/Events/Ownership.antt =====
-- A caller sees and creates its own events.
use gin_di.Prelude.{
  Text, List, [], ◌∷◌, map, some, Option-cases, ◌≡◌, refl, ◌⊎◌, inl, inr, length, All, Result, ok,
  err, Result-cases, err_not_ok,
}
use gin_di.App.Models.{Cursor, Event, paginate_for_user, create_event, created, page_bounds}
use gin_di.App.Models.Rows.{scan_all-eq-ok}
use gin_di.App.Resources.{EventResource, Meta, Payload, page_of, new_event_resource}
use gin_di.App.Events.{
  from_database_error, from_bind_error, new_unauthorized, to_error, IndexRequest, StoreRequest,
  new_event, current_user, index, create, defaults, respond_created,
}
use gin_di.Http.Context.{Ctx, finished, report, success}
use gin_di.Http.Errors.{GoError}
use gin_di.Prelude.Int.{ℤ}

-- What the query promises: `WHERE user_id = $1`.
abbrev pub ReadsOwned : (ℤ → ℤ → ℤ → Result GoError (Cursor Event)) → Type 0
ReadsOwned read =
    (user_id limit offset : ℤ) (cursor : Cursor Event) (found : List Event)
    → read user_id limit offset ≡ ok cursor
    → cursor.scans ≡ map ok found
    → All (λ e. e.user_id ≡ user_id) found

resources_owned :
    (id : ℤ) (found : List Event)
    → All (λ e. e.user_id ≡ id) found
    → All (λ e. e.user_id ≡ id) (map new_event_resource found)
resources_owned id [] h = tt
resources_owned id (e ∷ found) (o, h) = (o, resources_owned id found h)

paginate_for_user-owned :
    (read : ℤ → ℤ → ℤ → Result GoError (Cursor Event)) (id limit page : ℤ) (found : List Event)
    → ReadsOwned read
    → paginate_for_user read id limit page ≡ ok found
    → All (λ e. e.user_id ≡ id) found
unfolding paginate_for_user
paginate_for_user-owned read id limit page found law h =
    elim (Result-cases (read id (page_bounds limit page).0 (page_bounds limit page).1)) [
      | inr (e, a) ↦ err_not_ok (rw (paginate_for_user, a) at h)
      | inl (cursor, a) ↦
          law id _ _ cursor found a
            (scan_all-eq-ok _ _ cursor found (rw (paginate_for_user, a) at h)).0
    ]

-- If the query reads rows of the owner it is asked for only, the listing either reports an error
-- and changes nothing else, or it answers the authenticated caller a page with events of that
-- caller only and their number.
pub index-owned :
    (bind : Result GoError IndexRequest) (read : ℤ → ℤ → ℤ → Result GoError (Cursor Event))
    (ctx : Ctx Payload)
    → ReadsOwned read
    → ((e : GoError) × (index bind read ctx ≡ finished (report e ctx)))
      ⊎ ((id : ℤ) × (events : List EventResource) × (meta : Meta) × (current_user ctx ≡ some id)
          × (index bind read ctx ≡ finished (success 200 [] (some (page_of events meta)) ctx))
          × All (λ e. e.user_id ≡ id) events
          × (meta.count ≡ length events))
unfolding index
index-owned bind read ctx law = elim (Option-cases (current_user ctx)) [
  | inl a ↦ inl (to_error new_unauthorized, rw (index, a) refl)
  | inr (id, a) ↦ elim (Result-cases bind) [
    | inr (e, b) ↦ inl (to_error (from_bind_error e), rw (index, a, b) refl)
    | inl (request, b) ↦
        elim (Result-cases
          (paginate_for_user read id (defaults request).per_page (defaults request).page)) [
            | inr (e, c) ↦ inl (to_error (from_database_error e), rw (index, a, b, c) refl)
            | inl (found, c) ↦ inr (
              id,
              map new_event_resource found,
              record {
                page = (defaults request).page;
                per_page = (defaults request).per_page;
                count = length (map new_event_resource found);
              },
              a,
              rw (index, a, b, c) refl,
              resources_owned id found (paginate_for_user-owned read id _ _ found law c),
              refl,
            )
          ]
  ]
]

-- Creating either reports an error and leaves the database alone, or it runs the insert with the
-- body's name and date and the authenticated caller as the owner.
pub create-owned :
    {Db : Type 0} (bind : Result GoError StoreRequest)
    (insert : Text → Text → ℤ → Db → Db × Result GoError (Result GoError (ℤ × Text)))
    (ctx : Ctx Payload) (db : Db)
    → ((e : GoError) × (create bind insert ctx db ≡ (db, finished (report e ctx))))
      ⊎ ((id : ℤ) × (request : StoreRequest) × (current_user ctx ≡ some id)
          × (bind ≡ ok request)
          × ((create bind insert ctx db).0 ≡ (insert request.name request.date id db).0))
unfolding create create_event
create-owned {Db = Db} bind insert ctx db = elim (Option-cases (current_user ctx)) [
  | inl a ↦ inl (to_error new_unauthorized, rw (create, a) refl)
  | inr (id, a) ↦ elim (Result-cases bind) [
    | inr (e, b) ↦ inl (to_error (from_bind_error e), rw (create, a, b) refl)
    | inl (request, b) ↦ inr (
      id,
      request,
      a,
      b,
      rw (create, a, b) (kept (new_event request id) (insert request.name request.date id db)),
    )
  ]
]
  where
    kept :
        (event : Event) (r : Db × Result GoError (Result GoError (ℤ × Text)))
        → (respond_created ctx (created event r)).0 ≡ r.0
    kept event (db', err e) = refl
    kept event (db', ok (err e)) = refl
    kept event (db', ok (ok (i, t))) = refl
