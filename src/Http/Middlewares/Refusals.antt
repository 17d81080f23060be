-- ===== src/Http/Middlewares/Refusals.antt =====
-- What a refused request is answered, and what a failure gives away.
use gin_di.Prelude.{
  ◌⊎◌, lookup-put, ℕ, ◌-◌, ◌*◌, ◌≤◌, ◌<◌, Text, codes, same, List, [], ◌∷◌, ◌++◌, Option, none,
  some, Option-cases, false, Bool-cases, if◌then◌else◌, ◌≡◌, refl, sym, ap, ◌∙◌, inl, inr, lookup,
  put, arith,
}
use gin_di.Http.Context.{
  Ctx, Handler, Response, HeaderValue, LogEntry, finished, fail_with, written,
}
use gin_di.Http.Errors.{GoError, as_type, http}
use gin_di.Http.Exceptions.{
  HttpException, exception_here, message_too_many, to_error, new_too_many_requests,
}
use gin_di.Http.Exceptions.Translation.{scrub, as_type-scrub, over}
use gin_di.Http.Middlewares.{
  last_error, classify, refuse, render_error, exception_handler, throttle, limit_body, recovery,
  logger, request_id, global_middleware, retry_seconds, rate_headers, valid_request_id, status_of,
}
use gin_di.Http.Middlewares.Responds.{last_error-append}
use gin_di.Throttle.Limit.{Limit, Decision, key}
use gin_di.Throttle.Memory.{allow, MemoryStore}
use gin_di.Prelude.Int.{pos}

abbrev over_cause : HttpException → HttpException
over_cause e = record e { cause = scrub e.cause }

exception-scrub : (e : GoError) → exception_here (scrub e) ≡ over over_cause (exception_here e)
unfolding scrub
exception-scrub (http n m f e) = refl
exception-scrub _ = refl

module _ {D : Type 0} where
  -- What an exception makes of the response.
  abbrev answer : HttpException → Ctx D → Option (Response D)
  answer e c = if written c then c.response else (fail_with e.status e.message e.errors c).response

  render_error-answer :
      (e : GoError) (c : Ctx D) → (render_error e c).response ≡ answer (classify e) c
  unfolding render_error fail_with
  render_error-answer e c = elim (Bool-cases (written c)) [
    | inl w ↦ rw (w) refl
    | inr w ↦ rw (w) refl
  ]

  classify-scrub : (e : GoError) (c : Ctx D) → answer (classify (scrub e)) c ≡ answer (classify e) c
  unfolding classify fail_with
  classify-scrub e c = elim (Option-cases (as_type exception_here e)) [
    | inl q ↦
        rw (classify, as_type-scrub exception_here exception_here over_cause exception-scrub e, q)
          refl
    | inr (x, q) ↦
        rw (classify, as_type-scrub exception_here exception_here over_cause exception-scrub e, q)
          refl
  ]

  -- The response to a reported error is the same when every text in it that is not the
  -- application's own is taken out.
  pub render_error-scrub :
      (e : GoError) (c : Ctx D) → (render_error (scrub e) c).response ≡ (render_error e c).response
  render_error-scrub e c =
      render_error-answer (scrub e) c ∙ classify-scrub e c ∙ sym (render_error-answer e c)

  pub exception_handler-reported :
      (next : Handler D) (ctx c : Ctx D) (e : GoError)
      → next ctx ≡ finished c
      → last_error c.errors ≡ some e
      → exception_handler next ctx ≡ finished (render_error e c)
  unfolding exception_handler
  exception_handler-reported next ctx c e h l = rw (h) (
      ap (λ o. elim o [ none ↦ finished c | some reported ↦ finished (render_error reported c) ]) l)

  pub render_error-unwritten :
      (e : GoError) (c : Ctx D)
      → c.response ≡ none
      → (log : List LogEntry) × (render_error e c
          ≡ fail_with
              (classify e).status
              (classify e).message
              (classify e).errors
              (record c { log = log }))
  unfolding render_error
  render_error-unwritten e c w =
      (c.log ++ LogEntry.failed c.request_id (classify e).status e ∷ [], rw (render_error, w) refl)

  logger-recovery :
      (next : Handler D) (ctx c : Ctx D)
      → next ctx ≡ finished c
      → (log : List LogEntry) × (logger (recovery next) ctx ≡ finished (record c { log = log }))
  unfolding logger recovery
  logger-recovery next ctx c h =
      (c.log ++ LogEntry.request c.request_id (status_of c) ∷ [], rw (logger, recovery, h) refl)

  -- Without a CORS middleware and with nothing written yet, a request that the store refuses
  -- under the global limit is answered 429 with Retry-After in whole seconds and the store keeps
  -- the refused call, whatever the handler is.
  pub global_middleware-throttled :
      (fresh : Text) (limit : Limit) (handler : Handler D) (ctx : Ctx D)
      → (allow ctx.limiter (key limit ctx.client_ip) limit ctx.now).1.allowed ≡ false
      → ctx.response ≡ none
      → let (store, d) = allow ctx.limiter (key limit ctx.client_ip) limit ctx.now in
        (c : Ctx D) × (global_middleware fresh none (some limit) handler ctx ≡ finished c)
        × (c.limiter ≡ store)
        × (lookup (codes "Retry-After") c.headers
            ≡ some (HeaderValue.number (pos (retry_seconds d.retry_after))))
        × ((r : Response D) × (c.response ≡ some r)
            × (r.code ≡ 429)
            × (r.body.message ≡ codes "Too many requests"))
  unfolding global_middleware request_id limit_body throttle refuse classify as_type fail_with put
      lookup same
  global_middleware-throttled fresh limit handler ctx e w =
      let (log, q) = logged in
      (
        _,
        q,
        refl,
        lookup-put (codes "Retry-After") (codes "Retry-After") _ counted.headers,
        (_, refl, refl, refl),
      )
    where
      -- The context as the throttle gets it.
      entered : Ctx D
      entered = record ctx {
        request_id =
            if valid_request_id ctx.request_id_header then ctx.request_id_header else fresh;
        headers =
            put (codes "X-Request-Id")
              (HeaderValue.text
                (if valid_request_id ctx.request_id_header then ctx.request_id_header else fresh))
              ctx.headers;
        body_limit = some 1_048_576;
      }

      decision : MemoryStore × Decision
      decision = allow ctx.limiter (key limit ctx.client_ip) limit ctx.now

      counted : Ctx D
      counted = rate_headers decision.1 (record entered { limiter = decision.0 })

      refused : Ctx D
      refused = refuse decision.1 counted

      stopped : throttle limit handler entered ≡ finished refused
      stopped = rw (e) refl

      rendered :
          (log : List LogEntry) × (exception_handler (throttle limit handler) entered
            ≡ finished (fail_with 429 message_too_many none (record refused { log = log })))
      rendered =
          let (log, q) = render_error-unwritten (to_error new_too_many_requests) refused w in
          (
            log,
            exception_handler-reported _ entered refused _ stopped (last_error-append ctx.errors _)
                ∙ ap finished q,
          )

      logged :
          (log : List LogEntry) × (global_middleware fresh none (some limit) handler ctx
            ≡ finished
                (record (fail_with 429 message_too_many none
                  (record refused { log = rendered.0 })) { log = log }))
      logged = logger-recovery _ _ _ rendered.1

-- Retry-After counts whole seconds, at least one, that cover the wait, and no second more.
pub retry_seconds-exact :
    (n : ℕ)
    → (1 ≤ retry_seconds (pos n))
      × (n ≤ retry_seconds (pos n) * 1_000_000_000)
      × ((retry_seconds (pos n) ≡ 1) ⊎ ((retry_seconds (pos n) - 1) * 1_000_000_000 < n))
unfolding retry_seconds
retry_seconds-exact n = (ground arith, ground arith, ground arith)
