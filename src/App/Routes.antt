-- ===== src/App/Routes.antt =====
-- cmd/app/routes.go and internal/api/swagger.go: what the HTTP server serves, and how.
use exchange_rate_quote_serv.Prelude.{
  ℕ, Text, codes, text_eq, Bool, true, false, ◌&&◌, not, any, List, [], ◌∷◌, ◌++◌, ◌≡◌, refl,
}
use exchange_rate_quote_serv.Prelude.Int.{signed_decimal}
use exchange_rate_quote_serv.Config.{ServerConfig}

-- The handlers that are registered.
pub data Endpoint : Type 0 where
  request_update quote_by_id latest_quote healthz readyz swagger_ui openapi_spec asynqmon : Endpoint

pub data Middleware : Type 0 where
  id_middleware logging_middleware recoverer : Middleware

-- A method and a pattern of package chi; `MOUNT` is a handler of every method below a path.
pub record Route : Type 0 where
  pub method : Text
  pub pattern : Text
  pub endpoint : Endpoint

-- The fields of `http.Server` that are set; the timeouts are in nanoseconds.
pub record HttpServer : Type 0 where
  pub addr : Text
  pub middlewares : List Middleware
  pub routes : List Route
  pub read_header_timeout : ℕ
  pub write_timeout : ℕ
  pub idle_timeout : ℕ

abbrev route : Text → Text → Endpoint → Route
route method pattern endpoint = record { method = method; pattern = pattern; endpoint = endpoint }

abbrev pub quote_routes : List Route
quote_routes =
    route (codes "POST") (codes "/quotes/update") Endpoint.request_update
    ∷ route (codes "GET") (codes "/quotes/{update_id}") Endpoint.quote_by_id
    ∷ route (codes "GET") (codes "/quotes/latest") Endpoint.latest_quote
    ∷ route (codes "GET") (codes "/healthz") Endpoint.healthz
    ∷ route (codes "GET") (codes "/readyz") Endpoint.readyz
    ∷ []

abbrev pub swagger_routes : Bool → List Route
swagger_routes true =
    route (codes "GET") (codes "/swagger/*") Endpoint.swagger_ui
    ∷ route (codes "GET") (codes "/openapi.json") Endpoint.openapi_spec
    ∷ []
swagger_routes false = []

abbrev pub asynqmon_routes : Bool → List Route
asynqmon_routes true = route (codes "MOUNT") (codes "/asynq") Endpoint.asynqmon ∷ []
asynqmon_routes false = []

-- `initHTTP`; `asynq_mon` is `app.asynqMon != nil`.
unfoldable pub init_http : ServerConfig → (asynq_mon : Bool) → HttpServer
init_http cfg asynq_mon = record {
  addr = b':' ∷ signed_decimal cfg.port;
  middlewares =
      Middleware.id_middleware ∷ Middleware.logging_middleware ∷ Middleware.recoverer ∷ [];
  routes =
      quote_routes
      ++ (swagger_routes cfg.serve_swagger ++ asynqmon_routes (cfg.serve_asynqmon && asynq_mon));
  read_header_timeout = 5000000000;
  write_timeout = 15000000000;
  idle_timeout = 60000000000;
}

-- `http.Redirect`
pub record Redirect : Type 0 where
  pub url : Text
  pub status : ℕ

-- `OpenAPISpecHandler`
unfoldable pub openapi_spec_handler : Redirect
openapi_spec_handler = record { url = codes "/swagger/doc.json"; status = 307 }

abbrev same_route : Route → Route → Bool
same_route r s = text_eq r.method s.method && text_eq r.pattern s.pattern

abbrev pub are_distinct : List Route → Bool
are_distinct [] = true
are_distinct (r ∷ rs) = not (any (same_route r) rs) && are_distinct rs

both_distinct :
    (swagger mon : Bool)
    → are_distinct (quote_routes ++ (swagger_routes swagger ++ asynqmon_routes mon)) ≡ true
unfolding text_eq
both_distinct true true = refl
both_distinct true false = refl
both_distinct false true = refl
both_distinct false false = refl

-- No configuration registers two handlers for the same method and pattern.
pub init_http-distinct :
    (cfg : ServerConfig) (mon : Bool) → are_distinct (init_http cfg mon).routes ≡ true
unfolding init_http
init_http-distinct cfg mon = both_distinct cfg.serve_swagger (cfg.serve_asynqmon && mon)
