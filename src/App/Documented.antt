-- ===== src/App/Documented.antt =====
-- The routes of cmd/app/routes.go with the handlers of internal/api, against the API document.
use exchange_rate_quote_serv.Prelude.{
  ℕ, Text, codes, text_eq, Bool, true, false, ◌&&◌, any, all, List, [], ◌∷◌, ◌++◌, All, All-append,
  Option, none, some, ◌≡◌, ◌⊎◌, inl, inr, refl, if◌then◌else◌,
}
use exchange_rate_quote_serv.Errors.{Result}
use exchange_rate_quote_serv.World.{World}
use exchange_rate_quote_serv.Config.{ServerConfig}
use exchange_rate_quote_serv.Api.Response.{Response}
use exchange_rate_quote_serv.Api.Quotes.{
  QuoteServiceInterface, handle_request_update, handle_get_quote_by_id, handle_get_latest_quote,
}
use exchange_rate_quote_serv.Api.Health.{Ping, handle_healthz, handle_readyz}
use exchange_rate_quote_serv.Api.Document.{Verb, Operation}
use exchange_rate_quote_serv.Api.Document.Operations.{
  paths, healthz_operation, latest_operation, update_operation, by_id_operation, readyz_operation,
}
use exchange_rate_quote_serv.Api.Document.Answers.{
  Conforms, request_update-Conforms, by_id-Conforms, latest-Conforms, readyz-Conforms,
  healthz-Conforms,
}
use exchange_rate_quote_serv.App.Routes.{
  Endpoint, Route, quote_routes, swagger_routes, asynqmon_routes, init_http,
}

-- What a handler reads: the decoded body, the URL's parameter, those of the query, and what the
-- three connections answer.
pub record Request : Type 0 where
  pub body : Result Text
  pub update_id : Text
  pub base : Text
  pub quote : Text
  pub db : Ping
  pub cache : Option Ping
  pub asynq_redis : Option Ping

-- What the handler of an endpoint answers; `none` for the pages of packages outside and the
-- redirect to the document.
unfoldable pub answer_of :
    {S : Type 0}
    → QuoteServiceInterface S
    → (ℕ → ℕ)
    → Endpoint
    → Request
    → World S
    → Option Response
answer_of svc upper Endpoint.request_update q w = some (handle_request_update svc q.body w).0
answer_of svc upper Endpoint.quote_by_id q w = some (handle_get_quote_by_id svc q.update_id w).0
answer_of svc upper Endpoint.latest_quote q w =
    some (handle_get_latest_quote svc upper q.base q.quote w).0
answer_of svc upper Endpoint.healthz q w = some handle_healthz
answer_of svc upper Endpoint.readyz q w = some (handle_readyz q.db q.cache q.asynq_redis)
answer_of svc upper _ q w = none

abbrev pub verb_name : Verb → Text
verb_name Verb.get = codes "GET"
verb_name Verb.post = codes "POST"

abbrev pub describes : Route → Operation → Bool
describes r op = text_eq (verb_name op.verb) r.method && text_eq op.path r.pattern

-- The operation of the document with the method and the path of a route.
abbrev pub find_operation : Route → List Operation → Option Operation
find_operation r [] = none
find_operation r (op ∷ ops) =
    let rest = find_operation r ops in if describes r op then some op else rest

module _ {S : Type 0} (svc : QuoteServiceInterface S) (upper : ℕ → ℕ) where
  -- The document has the route, and every answer of its handler is one that the document lists.
  abbrev pub IsDocumented : Route → Type 0
  IsDocumented r =
      (op : Operation) × (find_operation r paths ≡ some op)
      × ((q : Request) (w : World S)
          → (response : Response) × (answer_of svc upper r.endpoint q w ≡ some response)
            × Conforms op response)

  -- The document does not have the route, and its handler is none of internal/api's five.
  abbrev pub IsTool : Route → Type 0
  IsTool r =
      (find_operation r paths ≡ none)
      × ((q : Request) (w : World S) → answer_of svc upper r.endpoint q w ≡ none)

  abbrev pub IsServed : Route → Type 0
  IsServed r = IsDocumented r ⊎ IsTool r

  quote_routes-IsServed : All IsServed quote_routes
  unfolding text_eq answer_of
  quote_routes-IsServed = (
    inl (update_operation, refl, λ q w. (_, refl, request_update-Conforms svc w q.body)),
    (
      inl (by_id_operation, refl, λ q w. (_, refl, by_id-Conforms svc w q.update_id)),
      (
        inl (latest_operation, refl, λ q w. (_, refl, latest-Conforms svc w upper q.base q.quote)),
        (
          inl (healthz_operation, refl, λ q w. (_, refl, healthz-Conforms)),
          (
            inl (
              readyz_operation,
              refl,
              λ q w. (_, refl, readyz-Conforms q.db q.cache q.asynq_redis),
            ),
            tt,
          ),
        ),
      ),
    ),
  )

  swagger_routes-IsServed : (on : Bool) → All IsServed (swagger_routes on)
  unfolding text_eq answer_of
  swagger_routes-IsServed true = (inr (refl, λ q w. refl), (inr (refl, λ q w. refl), tt))
  swagger_routes-IsServed false = tt

  asynqmon_routes-IsServed : (on : Bool) → All IsServed (asynqmon_routes on)
  unfolding text_eq answer_of
  asynqmon_routes-IsServed true = (inr (refl, λ q w. refl), tt)
  asynqmon_routes-IsServed false = tt

  paths_registered :
      (rest : List Route)
      → all (λ op. any (λ r. describes r op) (quote_routes ++ rest)) paths ≡ true
  unfolding text_eq
  paths_registered rest = refl

  -- Whatever the configuration, each route that `initHTTP` registers is of one of two kinds.
  -- Either the API document has an operation with its method and path, and to every request, with
  -- any service, the handler answers with a status that the operation lists, with a media type
  -- that it produces, and with a body of the type of the schema for this status, whose JSON keys
  -- are properties there. Or the document has no such operation, and the handler is none of those
  -- for quotes and health. And each operation of the document is registered.
  pub init_http-IsServed :
      (cfg : ServerConfig) (mon : Bool)
      → All IsServed (init_http cfg mon).routes
        × (all (λ op. any (λ r. describes r op) (init_http cfg mon).routes) paths ≡ true)
  unfolding init_http
  init_http-IsServed cfg mon = (
    All-append IsServed quote_routes _ quote_routes-IsServed (
        All-append IsServed (swagger_routes cfg.serve_swagger) _
          (swagger_routes-IsServed cfg.serve_swagger)
          (asynqmon_routes-IsServed (cfg.serve_asynqmon && mon))),
    paths_registered
        (swagger_routes cfg.serve_swagger ++ asynqmon_routes (cfg.serve_asynqmon && mon)),
  )
