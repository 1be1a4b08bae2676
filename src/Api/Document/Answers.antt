-- ===== src/Api/Document/Answers.antt =====
-- The answers of the handlers of internal/api, against the API document.
use exchange_rate_quote_serv.Prelude.{ℕ, Text, text_eq, true, [], ◌∷◌, Option, ◌≡◌, refl, arith}
use exchange_rate_quote_serv.Prelude.Unicode.{trim_space}
use exchange_rate_quote_serv.Errors.{Error, Result, ok, err}
use exchange_rate_quote_serv.World.{World}
use exchange_rate_quote_serv.Service.QuoteResult.{QuoteResult}
use exchange_rate_quote_serv.Api.Response.{Response, sent_status, sent_body, write_json}
use exchange_rate_quote_serv.Api.Quotes.{
  QuoteServiceInterface, answer, accepted, quote_found, latest_found, update_error, by_id_error,
  latest_error, internal_error, handle_request_update, handle_get_quote_by_id,
  handle_get_latest_quote, update_pair,
}
use exchange_rate_quote_serv.Api.Health.{Ping, handle_healthz, handle_readyz}
use exchange_rate_quote_serv.Api.Document.{Operation}
use exchange_rate_quote_serv.Api.Document.Operations.{
  healthz_operation, latest_operation, update_operation, by_id_operation, readyz_operation,
}
use exchange_rate_quote_serv.Api.Document.Conform.{content_type, fits, conforms, json_keys}

-- The response is one of those that the document lists for the operation.
abbrev pub Conforms : Operation → Response → Type 0
Conforms op r = conforms op r ≡ true

update_error-Conforms : (e : Error) → Conforms update_operation (update_error e)
unfolding conforms content_type fits json_keys sent_status sent_body update_error internal_error
    write_json text_eq
update_error-Conforms e = ground arith

by_id_error-Conforms : (e : Error) → Conforms by_id_operation (by_id_error e)
unfolding conforms content_type fits json_keys sent_status sent_body by_id_error internal_error
    write_json text_eq
by_id_error-Conforms e = ground arith

latest_error-Conforms :
    (upper : ℕ → ℕ) (b q : Text) (e : Error) → Conforms latest_operation (latest_error upper b q e)
unfolding conforms content_type fits json_keys sent_status sent_body latest_error internal_error
    write_json text_eq
latest_error-Conforms upper b q e = ground arith

quote_found-Conforms : (q : QuoteResult) → Conforms by_id_operation (quote_found q)
unfolding conforms content_type fits json_keys sent_status sent_body quote_found write_json text_eq
quote_found-Conforms q = ground arith

answer-Conforms :
    {A : Type 0} (op : Operation) (good : A → Response) (bad : Error → Response) (r : Result A)
    → ((a : A) → Conforms op (good a))
    → ((e : Error) → Conforms op (bad e))
    → Conforms op (answer good bad r)
answer-Conforms op good bad (ok a) g b = g a
answer-Conforms op good bad (err e) g b = b e

pub readyz-Conforms :
    (db : Ping) (cache asynq_redis : Option Ping)
    → Conforms readyz_operation (handle_readyz db cache asynq_redis)
unfolding conforms content_type fits json_keys sent_status sent_body handle_readyz write_json
    text_eq
readyz-Conforms db cache asynq_redis = ground arith

pub healthz-Conforms : Conforms healthz_operation handle_healthz
unfolding conforms content_type fits json_keys sent_status sent_body handle_healthz text_eq
healthz-Conforms = refl

module _ {S : Type 0} (svc : QuoteServiceInterface S) (w : World S) where
  pair-Conforms : (pair : Text) → Conforms update_operation (update_pair svc pair w).0
  unfolding conforms content_type fits json_keys sent_status sent_body accepted write_json text_eq
  pair-Conforms [] = refl
  pair-Conforms (c ∷ pair) =
      answer-Conforms update_operation (λ (r : Text × Text). accepted r.0) update_error
        (svc.request_quote_update (c ∷ pair) w).0 (λ r. refl) update_error-Conforms

  pub request_update-Conforms :
      (body : Result Text) → Conforms update_operation (handle_request_update svc body w).0
  unfolding conforms content_type fits json_keys sent_status sent_body handle_request_update
      write_json text_eq
  request_update-Conforms (err e) = refl
  request_update-Conforms (ok pair) = pair-Conforms (trim_space pair)

  pub by_id-Conforms : (id : Text) → Conforms by_id_operation (handle_get_quote_by_id svc id w).0
  unfolding conforms content_type fits json_keys sent_status sent_body handle_get_quote_by_id
      write_json text_eq
  by_id-Conforms [] = refl
  by_id-Conforms (c ∷ id) =
      answer-Conforms by_id_operation quote_found by_id_error (svc.get_quote_result (c ∷ id) w).0
        quote_found-Conforms by_id_error-Conforms

  pub latest-Conforms :
      (upper : ℕ → ℕ) (b q : Text)
      → Conforms latest_operation (handle_get_latest_quote svc upper b q w).0
  unfolding conforms content_type fits json_keys sent_status sent_body handle_get_latest_quote
      latest_found write_json text_eq
  latest-Conforms upper [] q = refl
  latest-Conforms upper (c ∷ b) [] = refl
  latest-Conforms upper (c ∷ b) (d ∷ q) =
      answer-Conforms latest_operation latest_found (latest_error upper (c ∷ b) (d ∷ q))
        (svc.get_latest_quote (c ∷ b) (d ∷ q) w).0 (λ r. refl)
        (latest_error-Conforms upper (c ∷ b) (d ∷ q))
