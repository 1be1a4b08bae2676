-- ===== src/Api/Document/Operations.antt =====
-- internal/api/docs/docs.go: the paths of the API document.
use exchange_rate_quote_serv.Prelude.{ℕ, Text, codes, true, List, [], ◌∷◌, none, some}
use exchange_rate_quote_serv.Api.Document.{Verb, Schema, Place, Answer, Operation}

abbrev listed : ℕ → Text → Schema → Answer
listed status description schema = record {
  status = status;
  description = description;
  schema = schema;
}

abbrev error_schema : Schema
error_schema = Schema.ref (codes "api.ErrorResponse")

abbrev pub healthz_operation : Operation
healthz_operation = record {
  path = codes "/healthz";
  verb = Verb.get;
  description = codes "Always returns 200 OK if the service is running. Used for liveness probes.";
  consumes = [];
  produces = (codes "text/plain") ∷ [];
  tags = (codes "health") ∷ [];
  summary = codes "Health check (liveness)";
  parameters = [];
  responses = listed 200 (codes "OK") Schema.string ∷ [];
}

abbrev pub latest_operation : Operation
latest_operation = record {
  path = codes "/quotes/latest";
  verb = Verb.get;
  description =
      codes
        "Returns the most recent successful quote for the given currency pair. Does NOT trigger a new fetch - only returns cached/stored data.";
  consumes = (codes "application/json") ∷ [];
  produces = (codes "application/json") ∷ [];
  tags = (codes "quotes") ∷ [];
  summary = codes "Get latest quote for a currency pair";
  parameters =
      (record {
        name = codes "base";
        place = Place.query;
        required = true;
        description = codes "Base currency code (3 letters)";
        schema = Schema.string;
        length = some (3, 3);
        format = none;
      })
      ∷ (record {
        name = codes "quote";
        place = Place.query;
        required = true;
        description = codes "Quote currency code (3 letters)";
        schema = Schema.string;
        length = some (3, 3);
        format = none;
      })
      ∷ [];
  responses =
      listed 200 (codes "Latest quote found") (Schema.ref (codes "api.LatestResponse"))
      ∷ listed 400 (codes "Invalid currency code format") error_schema
      ∷ listed 404 (codes "No quote available for the given pair") error_schema
      ∷ listed 500 (codes "Internal error") error_schema
      ∷ [];
}

abbrev pub update_operation : Operation
update_operation = record {
  path = codes "/quotes/update";
  verb = Verb.post;
  description =
      codes
        "Initiates an asynchronous update for a currency pair. Returns immediately with an update_id for tracking. Does not block on external fetch.";
  consumes = (codes "application/json") ∷ [];
  produces = (codes "application/json") ∷ [];
  tags = (codes "quotes") ∷ [];
  summary = codes "Request asynchronous quote update";
  parameters =
      (record {
        name = codes "request";
        place = Place.body;
        required = true;
        description = codes "Currency pair in format XXX/YYY";
        schema = (Schema.ref (codes "api.UpdateRequest"));
        length = none;
        format = none;
      })
      ∷ [];
  responses =
      listed 202 (codes "Update request accepted") (Schema.ref (codes "api.UpdateResponse"))
      ∷ listed 400 (codes "Invalid currency code format") error_schema
      ∷ listed 500 (codes "Internal error") error_schema
      ∷ [];
}

abbrev pub by_id_operation : Operation
by_id_operation = record {
  path = codes "/quotes/{update_id}";
  verb = Verb.get;
  description =
      codes
        "Retrieves the status and result of a quote update request by its update_id. Returns price and timestamp when status is SUCCESS.";
  consumes = (codes "application/json") ∷ [];
  produces = (codes "application/json") ∷ [];
  tags = (codes "quotes") ∷ [];
  summary = codes "Get quote update status and result by ID";
  parameters =
      (record {
        name = codes "update_id";
        place = Place.path;
        required = true;
        description = codes "Update ID (UUID)";
        schema = Schema.string;
        length = none;
        format = some (codes "uuid");
      })
      ∷ [];
  responses =
      listed 200 (codes "Quote found") (Schema.ref (codes "api.QuoteResponse"))
      ∷ listed 400 (codes "Invalid update_id format") error_schema
      ∷ listed 404 (codes "Unknown update_id") error_schema
      ∷ listed 500 (codes "Internal error") error_schema
      ∷ [];
}

abbrev pub readyz_operation : Operation
readyz_operation = record {
  path = codes "/readyz";
  verb = Verb.get;
  description =
      codes
        "Checks connectivity to critical dependencies (Postgres, cache Redis, and asynq Redis). Returns 200 only when all dependencies are reachable.";
  consumes = [];
  produces = (codes "application/json") ∷ [];
  tags = (codes "health") ∷ [];
  summary = codes "Readiness check";
  parameters = [];
  responses =
      listed 200 (codes "All dependencies ready") (Schema.ref (codes "api.ReadyResponse"))
      ∷ listed 503 (codes "At least one dependency unavailable") error_schema
      ∷ [];
}

abbrev pub paths : List Operation
paths =
    healthz_operation ∷ latest_operation ∷ update_operation ∷ by_id_operation ∷ readyz_operation
    ∷ []
