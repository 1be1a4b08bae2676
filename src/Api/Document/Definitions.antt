-- ===== src/Api/Document/Definitions.antt =====
-- internal/api/docs/docs.go: the definitions of the API document.
use exchange_rate_quote_serv.Prelude.{Text, codes, List, [], ◌∷◌}
use exchange_rate_quote_serv.Api.Document.{Property, Definition}

abbrev property : Text → Text → Property
property name example = record { name = name; example = example }

abbrev error_response_definition : Definition
error_response_definition = record {
  name = codes "api.ErrorResponse";
  properties = property (codes "error") (codes "Invalid currency code format") ∷ [];
}

abbrev latest_response_definition : Definition
latest_response_definition = record {
  name = codes "api.LatestResponse";
  properties =
      property (codes "base") (codes "EUR")
      ∷ property (codes "price") (codes "18.7543")
      ∷ property (codes "quote") (codes "MXN")
      ∷ property (codes "updated_at") (codes "2025-12-01T10:15:30Z")
      ∷ [];
}

abbrev pub quote_response_definition : Definition
quote_response_definition = record {
  name = codes "api.QuoteResponse";
  properties =
      property (codes "base") (codes "EUR")
      ∷ property (codes "error") (codes "Failed to fetch from provider")
      ∷ property (codes "price") (codes "18.7543")
      ∷ property (codes "quote") (codes "MXN")
      ∷ property (codes "status") (codes "SUCCESS")
      ∷ property (codes "update_id") (codes "123e4567-e89b-12d3-a456-426614174000")
      ∷ property (codes "updated_at") (codes "2025-12-01T10:15:30Z")
      ∷ [];
}

abbrev ready_response_definition : Definition
ready_response_definition = record {
  name = codes "api.ReadyResponse";
  properties = property (codes "status") (codes "ready") ∷ [];
}

abbrev update_request_definition : Definition
update_request_definition = record {
  name = codes "api.UpdateRequest";
  properties = property (codes "pair") (codes "EUR/MXN") ∷ [];
}

abbrev update_response_definition : Definition
update_response_definition = record {
  name = codes "api.UpdateResponse";
  properties = property (codes "update_id") (codes "123e4567-e89b-12d3-a456-426614174000") ∷ [];
}

abbrev pub definitions : List Definition
definitions =
    error_response_definition ∷ latest_response_definition ∷ quote_response_definition
    ∷ ready_response_definition ∷ update_request_definition ∷ update_response_definition ∷ []
