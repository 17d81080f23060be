-- ===== src/App/Login/Outcome.antt =====
-- What a login tells, and whom it lets in.
use gin_di.Prelude.{
  Text, codes, same, none, some, Bool, true, Bool-cases, ◌≡◌, refl, sym, ap, ◌∙◌, inl, inr, Result,
  ok, err, Result-cases, ok_inj, err_not_ok,
}
use gin_di.App.Models.{User, Cursor, find_by_username}
use gin_di.App.Resources.{Payload}
use gin_di.App.Login.{LoginRequest, authenticate_user, login, login_refused}
use gin_di.Http.Context.{Ctx, finished, report, fail_with}
use gin_di.Http.Errors.{GoError, as_type}
use gin_di.Http.Exceptions.{to_error}
use gin_di.Http.Middlewares.{exception_handler, classify}
use gin_di.Http.Middlewares.Responds.{last_error-append}
use gin_di.Http.Middlewares.Refusals.{exception_handler-reported, render_error-unwritten}
use gin_di.Prelude.Int.{ℤ}

-- A user is returned only if the row of the name was found and its hash verifies the password.
pub authenticate_user-eq-ok :
    (read : Text → Result GoError (Cursor User)) (verify : Text → Text → Result GoError Bool)
    (username password : Text) (user : User)
    → authenticate_user read verify username password ≡ ok user
    → (find_by_username read username ≡ ok user) × (verify user.password password ≡ ok true)
unfolding authenticate_user
authenticate_user-eq-ok read verify username password user h =
    elim (Result-cases (find_by_username read username)) [
      | inr (e, a) ↦ err_not_ok (rw (authenticate_user, a) at h)
      | inl (u, a) ↦ elim (Result-cases (verify u.password password)) [
        | inr (e, b) ↦ err_not_ok (rw (authenticate_user, a, b) at h)
        | inl (match, b) ↦ elim (Bool-cases match) [
          | inr c ↦ err_not_ok (rw (authenticate_user, a, b, c) at h)
          | inl c ↦
              let found = ok_inj (rw (authenticate_user, a, b, c) at h) in
              (a ∙ ap ok found, ap (λ x. verify x.password password) (sym found) ∙ b ∙ ap ok c)
        ]
      ]
    ]

-- With nothing written yet, whatever the cause of a failed authentication, the answer is the same
-- 401.
pub login-refused :
    (request : LoginRequest) (authenticate : Text → Text → Result GoError User)
    (generate : ℤ → Text → Result GoError Text) (cause : GoError) (ctx : Ctx Payload)
    → authenticate request.username request.password ≡ err cause
    → ctx.response ≡ none
    → (c : Ctx Payload) × (exception_handler (login (ok request) authenticate generate) ctx
        ≡ finished c)
      × (c.response
          ≡ some (record {
            code = 401;
            body = record {
              status = codes "error";
              message = codes "Invalid credentials";
              payload = none;
              errors = none;
            };
          }))
unfolding login classify as_type fail_with same
login-refused request authenticate generate cause ctx h w =
    let (log, rendered) =
      render_error-unwritten (to_error (login_refused cause))
        (report (to_error (login_refused cause)) ctx) w in
    (
      _,
      exception_handler-reported _ ctx (report (to_error (login_refused cause)) ctx)
            (to_error (login_refused cause)) (rw (login, h) refl) (last_error-append ctx.errors _)
          ∙ ap finished rendered,
      refl,
    )

-- Two stores that differ in the hash of a user answer that user's login alike.
pub login_hides_password :
    (request : LoginRequest) (one other : Text → Text → Result GoError User)
    (generate : ℤ → Text → Result GoError Text) (user : User) (hashed : Text) (ctx : Ctx Payload)
    → one request.username request.password ≡ ok user
    → other request.username request.password ≡ ok (record user { password = hashed })
    → login (ok request) one generate ctx ≡ login (ok request) other generate ctx
unfolding login
login_hides_password request one other generate user hashed ctx h k = rw (login, h, k) refl
