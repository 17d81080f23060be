-- ===== src/Server/Engine/Answers.antt =====
-- Every request is answered, whichever route it takes.
use gin_di.Prelude.{
  ℕ, Text, codes, same, List, [], ◌∷◌, Option, Option-cases, true, Bool-cases, ◌≡◌, refl, subst,
  inl, inr, Result, ok, err, Result-cases, ok_inj, err_not_ok,
}
use gin_di.Http.Context.{Ctx, Handler, finished, report, success, written, fail_with}
use gin_di.Http.Errors.{GoError, FieldMessages}
use gin_di.Http.Middlewares.{authenticate, cut_prefix, reject, Claims, no_route, no_method}
use gin_di.Http.Middlewares.Responds.{
  Replies, PassesOrAnswers, IsCors, last_error-append, throttle-Replies, global_middleware-responds,
}
use gin_di.Http.Cors.{CorsSettings, cors, cors_settings, validate_origins, effective_origins}
use gin_di.App.Resources.{Payload}
use gin_di.App.Models.{User, Cursor, Event, create_event, paginate_for_user}
use gin_di.App.Login.{LoginRequest, login}
use gin_di.App.Events.{
  IndexRequest, StoreRequest, index, create, current_user, respond_created, defaults, new_event,
}
use gin_di.Server.Container.{Container}
use gin_di.Server.Routes.{
  Input, Route, route_handler, home, log_in, EventsRoute, events, events_controller, list_events,
  store_event, unknown_path, other_method, welcome, login_controller, protected,
}
use gin_di.Settings.App.{AppConfig}
use gin_di.Prelude.Int.{ℤ}
use gin_di.Server.Engine.{Gin, Middleware, Router, engine, cors_middleware, global_limit}

module _ {D : Type 0} where
  -- An error that is reported last.
  report-Replies : (e : GoError) (ctx : Ctx D) → Replies (finished (report e ctx))
  report-Replies e ctx = inr (e, last_error-append ctx.errors e)

  success-Replies :
      (n : ℕ) (message : Text) (payload : Option D) (ctx : Ctx D)
      → Replies (finished (success n message payload ctx))
  unfolding success
  success-Replies n message payload ctx = inl refl

  fail_with-Replies :
      (n : ℕ) (message : Text) (errors : FieldMessages) (ctx : Ctx D)
      → Replies (finished (fail_with n message errors ctx))
  unfolding fail_with
  fail_with-Replies n message errors ctx = inl refl

  reject-Replies : (e : GoError) (ctx : Ctx D) → Replies (finished (reject e ctx))
  unfolding reject
  reject-Replies e ctx = inr (_, last_error-append ctx.errors _)

  authenticate-Replies :
      (parse : Text → Result GoError Claims) (next : Handler D) (ctx : Ctx D)
      → ((c : Ctx D) → Replies (next c))
      → Replies (authenticate parse next ctx)
  unfolding authenticate
  authenticate-Replies parse next ctx h =
      elim (Option-cases (cut_prefix ctx.authorization (codes "Bearer "))) [
        | inl a ↦ rw (authenticate, a) (reject-Replies _ ctx)
        | inr (token, a) ↦ elim (Bool-cases (same token [])) [
          | inl b ↦ rw (authenticate, a, b) (reject-Replies _ ctx)
          | inr b ↦ elim (Result-cases (parse token)) [
            | inr (e, p) ↦ rw (authenticate, a, b, p) (reject-Replies _ ctx)
            | inl (claims, p) ↦ rw (authenticate, a, b, p) (h _)
          ]
        ]
      ]

login-Replies :
    (bind : Result GoError LoginRequest) (check : Text → Text → Result GoError User)
    (generate : ℤ → Text → Result GoError Text) (ctx : Ctx Payload)
    → Replies (login bind check generate ctx)
unfolding login
login-Replies bind check generate ctx = elim (Result-cases bind) [
  | inr (e, a) ↦ rw (login, a) (report-Replies _ ctx)
  | inl (request, a) ↦ elim (Result-cases (check request.username request.password)) [
    | inr (e, b) ↦ rw (login, a, b) (report-Replies _ ctx)
    | inl (user, b) ↦ elim (Result-cases (generate user.id user.username)) [
      | inr (e, p) ↦ rw (login, a, b, p) (report-Replies _ ctx)
      | inl (token, p) ↦ rw (login, a, b, p) (success-Replies _ _ _ ctx)
    ]
  ]
]

index-Replies :
    (bind : Result GoError IndexRequest) (read : ℤ → ℤ → ℤ → Result GoError (Cursor Event))
    (ctx : Ctx Payload)
    → Replies (index bind read ctx)
unfolding index
index-Replies bind read ctx = elim (Option-cases (current_user ctx)) [
  | inl a ↦ rw (index, a) (report-Replies _ ctx)
  | inr (id, a) ↦ elim (Result-cases bind) [
    | inr (e, b) ↦ rw (index, a, b) (report-Replies _ ctx)
    | inl (request, b) ↦
        elim (Result-cases
          (paginate_for_user read id (defaults request).per_page (defaults request).page)) [
            | inr (e, p) ↦ rw (index, a, b, p) (report-Replies _ ctx)
            | inl (found, p) ↦ rw (index, a, b, p) (success-Replies _ _ _ ctx)
          ]
  ]
]

respond_created-Replies :
    {Db : Type 0} (ctx : Ctx Payload) (r : Db × Result GoError Event)
    → Replies (respond_created ctx r).1
respond_created-Replies ctx (db, err e) = report-Replies _ ctx
respond_created-Replies ctx (db, ok event) = success-Replies _ _ _ ctx

create-Replies :
    {Db : Type 0} (bind : Result GoError StoreRequest)
    (insert : Text → Text → ℤ → Db → Db × Result GoError (Result GoError (ℤ × Text)))
    (ctx : Ctx Payload) (db : Db)
    → Replies (create bind insert ctx db).1
unfolding create
create-Replies bind insert ctx db = elim (Option-cases (current_user ctx)) [
  | inl a ↦ rw (create, a) (report-Replies _ ctx)
  | inr (id, a) ↦ elim (Result-cases bind) [
    | inr (e, b) ↦ rw (create, a, b) (report-Replies _ ctx)
    | inl (request, b) ↦
        rw (create, a, b)
          (respond_created-Replies ctx (create_event insert (new_event request id) db))
  ]
]

module _ {Db : Type 0} (c : Container Db) (input : Input) (db : Db) where
  events_controller-Replies :
      (route : EventsRoute) (ctx : Ctx Payload) → Replies (events_controller c input db route ctx)
  unfolding events_controller
  events_controller-Replies list_events ctx = index-Replies input.page c.db.read ctx
  events_controller-Replies store_event ctx = create-Replies input.event c.db.insert ctx db

  route_handler-Replies :
      (route : Route) (ctx : Ctx Payload) → Replies (route_handler c input db route ctx)
  unfolding route_handler login_controller protected welcome no_route no_method
  route_handler-Replies home ctx = success-Replies _ _ _ ctx
  route_handler-Replies log_in ctx =
      throttle-Replies c.throttle.login _ ctx λ d. login-Replies input.credentials _ _ d
  route_handler-Replies (events route) ctx =
      authenticate-Replies _ _ ctx λ d. events_controller-Replies route d
  route_handler-Replies unknown_path ctx = fail_with-Replies 404 _ _ ctx
  route_handler-Replies other_method ctx = fail_with-Replies 405 _ _ ctx

-- What cors.New gives: a middleware that answers a request or passes it on.
abbrev pub MakesCors : Gin → Type 0
MakesCors gin = (settings : CorsSettings) → PassesOrAnswers (gin.new_cors settings)

cors_middleware-IsCors :
    (gin : Gin) (app : AppConfig) (middleware : Option Middleware)
    → MakesCors gin
    → cors_middleware gin app ≡ ok middleware
    → IsCors middleware
unfolding cors_middleware cors
cors_middleware-IsCors gin app middleware law h =
    elim (Result-cases (effective_origins gin.parse app.url app.cors_origins)) [
      | inr (e, a) ↦ err_not_ok (rw (cors_middleware, a) at h)
      | inl (origins, a) ↦ chosen origins a
    ]
  where
    chosen :
        (origins : List Text)
        → effective_origins gin.parse app.url app.cors_origins ≡ ok origins
        → IsCors middleware
    chosen [] a = subst IsCors (ok_inj (rw (cors_middleware, a) at h)) tt
    chosen (origin ∷ rest) a = elim (Option-cases (validate_origins gin.parse (origin ∷ rest))) [
      | inr (e, b) ↦ err_not_ok (rw (cors_middleware, a, cors, b) at h)
      | inl b ↦
          subst IsCors (ok_inj (rw (cors_middleware, a, cors, b) at h))
            (law (cors_settings (origin ∷ rest)))
    ]

-- A router that was built answers every request, on every route and whatever is stored or sent, if
-- what cors.New gives answers a request or passes it on: there is a response in the end, and no panic.
pub engine-answers :
    {Db : Type 0} (gin : Gin) (c : Container Db) (router : Router Db)
    → MakesCors gin
    → engine gin c ≡ ok router
    → (fresh : Text) (input : Input) (db : Db) (route : Route) (ctx : Ctx Payload)
    → (d : Ctx Payload) × (router fresh input db route ctx ≡ finished d) × (written d ≡ true)
unfolding engine
engine-answers gin c router law h fresh input db route ctx =
    elim (Option-cases (gin.set_trusted_proxies c.app.trusted_proxies)) [
      | inr (e, a) ↦ err_not_ok (rw (engine, a) at h)
      | inl a ↦ elim (Result-cases (cors_middleware gin c.app)) [
        | inr (e, b) ↦ err_not_ok (rw (engine, a, b) at h)
        | inl (middleware, b) ↦
            subst
              (λ r.
                (d : Ctx Payload) × (r fresh input db route ctx ≡ finished d) × (written d ≡ true))
              (ok_inj (rw (engine, a, b) at h))
              (global_middleware-responds fresh middleware (global_limit c.throttle)
                (route_handler c input db route) (cors_middleware-IsCors gin c.app middleware law b)
                (route_handler-Replies c input db route) ctx)
      ]
    ]
