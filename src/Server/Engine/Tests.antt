-- ===== src/Server/Engine/Tests.antt =====
-- A router whose CORS middleware passes everything on.
use gin_di.Prelude.{codes, same, List, [], none, true, ◌≡◌, refl, inr, ok, err}
use gin_di.Http.Context.{Ctx, finished, written}
use gin_di.Http.Errors.{plain}
use gin_di.Http.Cors.{effective_origins, validate_origins, validate_each, cors}
use gin_di.App.Resources.{Payload}
use gin_di.Server.Engine.{cors_middleware, Gin, Router, engine}
use gin_di.Server.Engine.Answers.{engine-answers}
use gin_di.Server.Routes.{events, store_event}
use gin_di.Server.Routes.Sample.{container, input, a_request}
use gin_di.Prelude.Int.{ℤ}

abbrev gin : Gin
gin = record {
  parse = λ s. err (plain s);
  new_cors = λ settings next. next;
  set_trusted_proxies = λ proxies. none;
}

built : (router : Router (List ℤ)) × (engine gin container ≡ ok router)
unfolding engine cors_middleware effective_origins same cors validate_origins validate_each
built = (_, refl)

engine-answers_example :
    (d : Ctx Payload) × (built.0 (codes "0af3") input [] (events store_event) a_request
      ≡ finished d)
    × (written d ≡ true)
engine-answers_example =
    engine-answers gin container built.0 (λ settings next ctx. inr (ctx, refl)) built.1
      (codes "0af3") input [] (events store_event) a_request
