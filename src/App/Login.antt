-- ===== src/App/Login.antt =====
-- app/services/user_service.go, app/http/controllers/v1/auth and app/http/resources: logging in.
use gin_di.Prelude.{
  ℕ, zero, suc, ◌+◌, ◌-◌, ◌*◌, ◌/◌, ◌%◌, ◌^◌, ◌≤◌, ◌<◌, Text, codes, same, same_refl, same_iff,
  ne_of_same, List, [], ◌∷◌, ◌++◌, map, append-nil, append_assoc, Option, none, some, Option-cases,
  Bool, true, false, not, ◌&&◌, ◌||◌, Bool-cases, ltb, leb, ◌==◌, if◌then◌else◌, ◌≡◌, ◌≢◌, ◌↔◌,
  refl, sym, ap, subst, ◌∙◌, ◌⊎◌, inl, inr, length, All, lookup, has, put, delete, lookup-put,
  Result, ok, err, Result-cases, arith,
}
use gin_di.Http.Errors.{GoError, plain, wrap, join}
use gin_di.Http.Context.{Ctx, Run, Handler, finished, report, success}
use gin_di.Http.Exceptions.{
  HttpException, to_error, from_bind_error, new_unauthorized, new_internal,
}
use gin_di.App.Models.{User, Cursor, Event, find_by_username}
use gin_di.Prelude.Int.{ℤ, pos, negsuc}
use gin_di.App.Resources.{Payload, session, new_session_resource}
pub mod Outcome
mod Tests

abbrev pub invalid_credentials : GoError
invalid_credentials = plain (codes "invalid credentials")

pub record LoginRequest : Type 0 where
  pub username : Text
  pub password : Text

-- `UserService.Authenticate`: `verify` is hash.Check behind the semaphore.
module _ (read : Text → Result GoError (Cursor User))
    (verify : Text → Text → Result GoError Bool) where
  unfoldable pub authenticate_user : Text → Text → Result GoError User
  authenticate_user username password = elim (find_by_username read username) [
    | err e ↦ err (join invalid_credentials e)
    | ok user ↦ elim (verify user.password password) [
      | err e ↦ err (wrap (codes "verifying password: ") e)
      | ok match ↦ if match then ok user else err invalid_credentials
    ]
  ]

-- The exception of a failed login, whatever the cause.
abbrev pub login_refused : GoError → HttpException
login_refused cause = record new_unauthorized {
  message = codes "Invalid credentials";
  cause = cause;
}

-- `Login`: `bind` is what ShouldBindJSON makes of the body, `generate` is GenerateToken.
unfoldable pub login :
    Result GoError LoginRequest
    → (Text → Text → Result GoError User)
    → (ℤ → Text → Result GoError Text)
    → Handler Payload
login bind authenticate generate ctx = elim bind [
  | err e ↦ finished (report (to_error (from_bind_error e)) ctx)
  | ok request ↦ elim (authenticate request.username request.password) [
    | err e ↦ finished (report (to_error (login_refused e)) ctx)
    | ok user ↦ elim (generate user.id user.username) [
      | err e ↦ finished (report (to_error (new_internal e)) ctx)
      | ok token ↦
          finished
            (success 200 (codes "Logged in") (some (session (new_session_resource token user))) ctx)
    ]
  ]
]
