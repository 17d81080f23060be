-- ===== src/Http/Middlewares/Responds.antt =====
-- Every request is answered, whatever the handler behind the global middleware does.
use gin_di.Prelude.{
  Text, List, [], ◌∷◌, ◌++◌, Option, none, some, true, Bool-cases, ◌≡◌, refl, sym, subst, ◌⊎◌, inl,
  inr,
}
use gin_di.Http.Context.{Ctx, Run, Handler, finished, panicked, after, fail_with, written}
use gin_di.Http.Errors.{GoError}
use gin_di.Http.Middlewares.{
  last_error, refuse, render_error, recover, exception_handler, throttle, limit_body, recovery,
  logger, request_id, global_middleware, or_none, throttle_if,
}
use gin_di.Throttle.Limit.{Limit, key}
use gin_di.Throttle.Memory.{allow}

pub last_error-append : (es : List GoError) (e : GoError) → last_error (es ++ e ∷ []) ≡ some e
unfolding last_error
last_error-append [] e = refl
last_error-append (d ∷ []) e = refl
last_error-append (d ∷ f ∷ es) e = last_error-append (f ∷ es) e

module _ {D : Type 0} where
  -- What a handler owes: a response, a reported error, or a panic.
  abbrev pub Replies : Run D → Type 0
  Replies (finished c) = (written c ≡ true) ⊎ ((e : GoError) × (last_error c.errors ≡ some e))
  Replies (panicked c) = Unit

  -- A panic, or an end with a response.
  abbrev pub Settles : Run D → Type 0
  Settles (finished c) = written c ≡ true
  Settles (panicked c) = Unit

  -- What gin-contrib/cors does: it answers the request or passes it on.
  abbrev pub PassesOrAnswers : (Handler D → Handler D) → Type 0
  PassesOrAnswers cors =
      (next : Handler D) (ctx : Ctx D)
      → ((c : Ctx D) × (cors next ctx ≡ finished c) × (written c ≡ true))
        ⊎ ((c : Ctx D) × (cors next ctx ≡ next c))

  abbrev pub IsCors : Option (Handler D → Handler D) → Type 0
  IsCors none = Unit
  IsCors (some cors) = PassesOrAnswers cors

  render_error-written : (e : GoError) (c : Ctx D) → written (render_error e c) ≡ true
  unfolding render_error fail_with
  render_error-written e c = elim (Bool-cases (written c)) [ inl w ↦ rw (w) w | inr w ↦ rw w refl ]

  recover-written : (c : Ctx D) → written (recover c) ≡ true
  unfolding recover fail_with
  recover-written c = elim (Bool-cases (written c)) [ inl w ↦ rw (w) w | inr w ↦ rw w refl ]

  exception_handler-Settles :
      (next : Handler D) (ctx : Ctx D) → Replies (next ctx) → Settles (exception_handler next ctx)
  unfolding exception_handler
  exception_handler-Settles next ctx h = handled (next ctx) h
    where
      rendered :
          (c : Ctx D) (o : Option GoError)
          → (written c ≡ true) ⊎ ((e : GoError) × (o ≡ some e))
          → Settles
              (elim o [ none ↦ finished c | some reported ↦ finished (render_error reported c) ])
      rendered c none (inl w) = w
      rendered c none (inr (e, q)) = cc
      rendered c (some e) w = render_error-written e c

      handled :
          (r : Run D)
          → Replies r
          → Settles (
              after r λ c. elim (last_error c.errors) [
                | none ↦ finished c
                | some reported ↦ finished (render_error reported c)
              ])
      handled (finished c) h = rendered c (last_error c.errors) h
      handled (panicked c) h = tt

  pub throttle-Replies :
      (limit : Limit) (next : Handler D) (ctx : Ctx D)
      → ((c : Ctx D) → Replies (next c))
      → Replies (throttle limit next ctx)
  unfolding throttle refuse
  throttle-Replies limit next ctx h =
      elim (Bool-cases (allow ctx.limiter (key limit ctx.client_ip) limit ctx.now).1.allowed) [
        | inl e ↦ rw (e) (h _)
        | inr e ↦ rw (e) (inr (_, last_error-append ctx.errors _))
      ]

  cors-Settles :
      (cors : Option (Handler D → Handler D)) (next : Handler D) (ctx : Ctx D)
      → IsCors cors
      → ((c : Ctx D) → Settles (next c))
      → Settles (or_none cors next ctx)
  cors-Settles none next ctx law h = h ctx
  cors-Settles (some cors) next ctx law h = elim (law next ctx) [
    | inl (c, q, w) ↦ subst Settles (sym q) w
    | inr (c, q) ↦ subst Settles (sym q) (h c)
  ]

  -- The recovery and the logger let no panic and no silence through.
  recovery-written :
      (next : Handler D) (ctx : Ctx D)
      → Settles (next ctx)
      → (c : Ctx D) × (logger (recovery next) ctx ≡ finished c) × (written c ≡ true)
  unfolding logger recovery
  recovery-written next ctx h = caught (next ctx) h
    where
      caught :
          (r : Run D)
          → Settles r
          → (c : Ctx D) × (logger
                (λ x. elim r [ finished d ↦ finished d | panicked d ↦ finished (recover d) ])
                ctx
              ≡ finished c)
            × (written c ≡ true)
      caught (finished d) w = (_, refl, w)
      caught (panicked d) w = (_, refl, recover-written d)

  -- If the CORS middleware, where there is one, answers a request or passes it on, and each run
  -- of the handler writes a response, reports an error or panics, then every request ends without
  -- a panic and with a response.
  pub global_middleware-responds :
      (fresh : Text) (cors : Option (Handler D → Handler D)) (limit : Option Limit)
      (handler : Handler D)
      → IsCors cors
      → ((c : Ctx D) → Replies (handler c))
      → (ctx : Ctx D)
      → (c : Ctx D) × (global_middleware fresh cors limit handler ctx ≡ finished c)
        × (written c ≡ true)
  unfolding global_middleware request_id limit_body
  global_middleware-responds fresh cors limit handler law h ctx =
      recovery-written _ _
        (cors-Settles cors _ _ law λ c. exception_handler-Settles _ _ (limited limit _))
    where
      limited : (l : Option Limit) (c : Ctx D) → Replies (or_none (throttle_if l) handler c)
      limited none c = h c
      limited (some l) c = throttle-Replies l handler c h
