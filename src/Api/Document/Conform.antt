-- ===== src/Api/Document/Conform.antt =====
-- Whether a response is one that the API document allows.
use exchange_rate_quote_serv.Prelude.{
  ℕ, Text, codes, text_eq, Bool, false, ◌&&◌, any, all, List, [], ◌∷◌, ◌++◌, Option, none, some,
  ◌==◌, if◌then◌else◌,
}
use exchange_rate_quote_serv.Api.Response.{
  QuoteResponse, Body, error_response, update_response, quote_response, latest_response,
  ready_response, plain, set_header, Response, sent_status, sent_body,
}
use exchange_rate_quote_serv.Api.Document.{Schema, Answer, Operation, Property, Definition}
use exchange_rate_quote_serv.Api.Document.Definitions.{definitions}

-- A key of the tag `omitempty`: a `string`, and a pointer.
abbrev pub omit_empty : Text → Text → List Text
omit_empty key [] = []
omit_empty key (_ ∷ _) = key ∷ []

abbrev pub omit_nil : Text → Option Text → List Text
omit_nil key none = []
omit_nil key (some _) = key ∷ []

-- The keys of the JSON object of a body, by the tags of its type.
abbrev pub quote_keys : QuoteResponse → List Text
quote_keys q =
    omit_empty (codes "update_id") q.update_id
    ++ (codes "base"
        ∷ codes "quote"
        ∷ codes "status"
        ∷ (omit_nil (codes "price") q.price
            ++ (omit_nil (codes "updated_at") q.updated_at ++ omit_nil (codes "error") q.error)))

unfoldable pub json_keys : Body → List Text
json_keys (error_response _) = codes "error" ∷ []
json_keys (update_response _) = codes "update_id" ∷ []
json_keys (quote_response q) = quote_keys q
json_keys (latest_response _) =
    codes "base" ∷ codes "quote" ∷ codes "price" ∷ codes "updated_at" ∷ []
json_keys (ready_response _) = codes "status" ∷ []
json_keys (plain _) = []

-- The Go type of a body by its name in the document.
abbrev pub type_name : Body → Text
type_name (error_response _) = codes "api.ErrorResponse"
type_name (update_response _) = codes "api.UpdateResponse"
type_name (quote_response _) = codes "api.QuoteResponse"
type_name (latest_response _) = codes "api.LatestResponse"
type_name (ready_response _) = codes "api.ReadyResponse"
type_name (plain _) = codes "string"

-- The value of the header `Content-Type` when the status or the body is written.
unfoldable pub content_type : Text → Response → Text
content_type value [] = value
content_type value (set_header name v ∷ ws) =
    let is = text_eq name (codes "Content-Type") in content_type (if is then v else value) ws
content_type value (_ ∷ ws) = value

abbrev pub find_answer : ℕ → List Answer → Option Answer
find_answer status [] = none
find_answer status (a ∷ rest) =
    let later = find_answer status rest in if a.status == status then some a else later

abbrev pub find_definition : Text → List Definition → Option Definition
find_definition name [] = none
find_definition name (d ∷ ds) =
    let rest = find_definition name ds in if text_eq d.name name then some d else rest

abbrev pub has_property : Definition → Text → Bool
has_property d key = any (λ (p : Property). text_eq p.name key) d.properties

abbrev pub fits_definition : Body → Option Definition → Bool
fits_definition body none = false
fits_definition body (some d) =
    text_eq d.name (type_name body) && all (has_property d) (json_keys body)

-- A body that a schema describes.
unfoldable pub fits : Schema → Option Body → Bool
fits _ none = false
fits Schema.string (some body) = text_eq (type_name body) (codes "string")
fits (Schema.ref name) (some body) = fits_definition body (find_definition name definitions)

abbrev pub is_answer : Operation → Response → Option Answer → Bool
is_answer op r none = false
is_answer op r (some a) =
    any (text_eq (content_type [] r)) op.produces && fits a.schema (sent_body r)

-- The operation lists the status of the response, produces its media type, and describes its
-- body for this status.
unfoldable pub conforms : Operation → Response → Bool
conforms op r = is_answer op r (find_answer (sent_status r) op.responses)
