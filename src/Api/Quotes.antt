-- ===== src/Api/Quotes.antt =====
-- handlers_quotes.go: the three handlers of quotes, over any service.
use exchange_rate_quote_serv.Prelude.{ℕ, Text, codes, Bool, true, false, ◌||◌, [], ◌∷◌, ◌++◌}
use exchange_rate_quote_serv.Prelude.Unicode.{trim_space, to_upper}
use exchange_rate_quote_serv.Errors.{Error, error_text, Result, ok, err}
use exchange_rate_quote_serv.World.{World, Action}
use exchange_rate_quote_serv.Service.QuoteResult.{QuoteResult}
use exchange_rate_quote_serv.Api.Response.{
  error_response, update_response, quote_response, latest_response, set_header, write_header, write,
  Response, write_json, deref_str,
}

-- `service.QuoteServiceInterface`
pub record QuoteServiceInterface (S : Type 0) : Type 0 where
  pub request_quote_update : Text → Action S (Text × Text)
  pub get_quote_result : Text → Action S QuoteResult
  pub get_latest_quote : Text → Text → Action S QuoteResult
  pub process_update : Text → Text → Text → Action S (Unit {0})

abbrev pub status_ok : ℕ
status_ok = 200

abbrev pub status_accepted : ℕ
status_accepted = 202

abbrev pub status_bad_request : ℕ
status_bad_request = 400

abbrev pub status_not_found : ℕ
status_not_found = 404

abbrev pub status_internal_server_error : ℕ
status_internal_server_error = 500

abbrev pub status_service_unavailable : ℕ
status_service_unavailable = 503

abbrev pub Handler : Type 0 → Type 0
Handler S = World S → Response × World S

abbrev pub is_empty : Text → Bool
is_empty [] = true
is_empty (_ ∷ _) = false

unfoldable pub internal_error : Response
internal_error = write_json status_internal_server_error (error_response (codes "Internal error"))

-- The `switch` of `HandleRequestUpdate`.
unfoldable pub update_error : Error → Response
update_error Error.invalid_pair_format =
    write_json status_bad_request (error_response (error_text Error.invalid_pair_format))
update_error Error.unsupported_currency =
    write_json status_bad_request (error_response (error_text Error.unsupported_currency))
update_error _ = internal_error

-- The `switch` of `HandleGetQuoteByID`.
unfoldable pub by_id_error : Error → Response
by_id_error Error.invalid_update_id =
    write_json status_bad_request (error_response (error_text Error.invalid_update_id))
by_id_error Error.not_found =
    write_json status_not_found (error_response (codes "Unknown update_id"))
by_id_error _ = internal_error

-- The `switch` of `HandleGetLatestQuote`.
unfoldable pub latest_error : (ℕ → ℕ) → Text → Text → Error → Response
latest_error upper base quote Error.invalid_pair_format =
    write_json status_bad_request (error_response (error_text Error.invalid_pair_format))
latest_error upper base quote Error.not_found = write_json status_not_found (
    error_response
      (codes "No quote available for " ++ (to_upper upper base ++ b'/' ∷ to_upper upper quote)))
latest_error upper base quote _ = internal_error

unfoldable pub accepted : Text → Response
accepted id =
    set_header (codes "Content-Type") (codes "application/json")
    ∷ write_header status_accepted
    ∷ write (update_response id)
    ∷ []

unfoldable pub quote_found : QuoteResult → Response
quote_found q = write_json status_ok (
    quote_response (record {
      update_id = q.id;
      base = q.base;
      quote = q.quote;
      status = q.status;
      price = q.price;
      updated_at = q.updated_at;
      error = q.error_msg;
    }))

unfoldable pub latest_found : QuoteResult → Response
latest_found q = write_json status_ok (
    latest_response (record {
      base = q.base;
      quote = q.quote;
      price = deref_str q.price;
      updated_at = deref_str q.updated_at;
    }))

-- `if err != nil { … return }`, and the answer otherwise.
abbrev pub answer : {A : Type 0} → (A → Response) → (Error → Response) → Result A → Response
answer good bad (ok a) = good a
answer good bad (err e) = bad e

module _ {S : Type 0} (svc : QuoteServiceInterface S) where
  abbrev respond : {A : Type 0} → Action S A → (A → Response) → (Error → Response) → Handler S
  respond m good bad w = let (r, w') = m w in (answer good bad r, w')

  abbrev refuse : ℕ → Text → Handler S
  refuse status msg w = (write_json status (error_response msg), w)

  abbrev pub update_pair : Text → Handler S
  update_pair pair =
      let call = respond (svc.request_quote_update pair) (λ r. accepted r.0) update_error in
      elim (is_empty pair) [
        | true ↦ refuse status_bad_request (codes "pair is required")
        | false ↦ call
      ]

  -- `HandleRequestUpdate`; the argument is the decoded body's pair.
  unfoldable pub handle_request_update : Result Text → Handler S
  handle_request_update (err _) = refuse status_bad_request (codes "invalid JSON")
  handle_request_update (ok pair) = update_pair (trim_space pair)

  -- `HandleGetQuoteByID`; the argument is the URL's parameter.
  unfoldable pub handle_get_quote_by_id : Text → Handler S
  handle_get_quote_by_id id =
      let call = respond (svc.get_quote_result id) quote_found by_id_error in
      elim (is_empty id) [
        | true ↦ refuse status_bad_request (codes "update_id is required")
        | false ↦ call
      ]

  -- `HandleGetLatestQuote`; the arguments are those of the query.
  unfoldable pub handle_get_latest_quote : (ℕ → ℕ) → Text → Text → Handler S
  handle_get_latest_quote upper base quote =
      let call =
        respond (svc.get_latest_quote base quote) latest_found (latest_error upper base quote) in
      elim (is_empty base || is_empty quote) [
        | true ↦ refuse status_bad_request (codes "base and quote query params are required")
        | false ↦ call
      ]
