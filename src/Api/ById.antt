-- ===== src/Api/ById.antt =====
-- GET /quotes/{update_id} over the service and the table.
use exchange_rate_quote_serv.Prelude.{
  ℕ, Text, codes, Option, true, false, [], ◌∷◌, none, some, ◌≡◌, ◌≢◌, ◌⊎◌, inl, inr, refl, arith,
  Bool-cases, Option-cases,
}
use exchange_rate_quote_serv.Errors.{Error, ok, err}
use exchange_rate_quote_serv.Repository.Table.{Time, Status, Quote, find, has_id, select_by_id}
use exchange_rate_quote_serv.Repository.Methods.{Link, up, lost, unacknowledged, get_by_id}
use exchange_rate_quote_serv.World.{Env, World}
use exchange_rate_quote_serv.Provider.Http.{RatesProvider}
use exchange_rate_quote_serv.Service.QuoteResult.{status_text, quote_result_from_repo}
use exchange_rate_quote_serv.Service.Cache.{QuoteService}
use exchange_rate_quote_serv.Service.Operations.{TaskEnqueuer, get_quote_result}
use exchange_rate_quote_serv.Api.Response.{
  quote_response, Response, sent_status, sent_body, write_json,
}
use exchange_rate_quote_serv.Api.Quotes.{
  internal_error, by_id_error, quote_found, handle_get_quote_by_id,
}
use exchange_rate_quote_serv.Api.Endpoints.{service}

data Seen (s : Status) : Type 0 where
  is_pending : s ≡ Status.pending → Seen s
  is_running : s ≡ Status.running → Seen s
  is_success : s ≡ Status.success → Seen s
  is_failed : s ≡ Status.failed → Seen s

status_cases : (s : Status) → Seen s
status_cases Status.pending = Seen.is_pending refl
status_cases Status.running = Seen.is_running refl
status_cases Status.success = Seen.is_success refl
status_cases Status.failed = Seen.is_failed refl

module _ {S F : Type 0} (env : Env S F) (enqueuer : TaskEnqueuer S) (svc : QuoteService)
    (provider : RatesProvider S) where
  abbrev pub status_name : Status → Text
  status_name Status.pending = codes "PENDING"
  status_name Status.running = codes "RUNNING"
  status_name Status.success = codes "SUCCESS"
  status_name Status.failed = codes "FAILED"

  abbrev pub printed : Option Time → Option Text
  printed none = none
  printed (some t) = some (env.format_rfc3339 t)

  -- What is shown of a row: the price and the time of a SUCCESS, the error of a FAILED.
  pub data IsShown (r : Quote) : (price at error : Option Text) → Type 0 where
    shown_success : r.status ≡ Status.success → IsShown r r.price (printed r.updated_at) none
    shown_failed : r.status ≡ Status.failed → IsShown r none none r.error_msg
    shown_open :
        (r.status ≡ Status.pending) ⊎ (r.status ≡ Status.running) → IsShown r none none none

  pub data ByIdOutcome (id : Text) (w : World S) (resp : Response) : Type 0 where
    bad_request :
        (id ≡ []) ⊎ (env.parses_uuid id ≡ false) → sent_status resp ≡ 400 → ByIdOutcome id w resp
    found :
        (u : Text) (r : Quote)
        → env.pg.uuid id ≡ some u
        → find (has_id u) w.rows ≡ some r
        → (price at error : Option Text) → IsShown r price at error
        → sent_status resp ≡ 200
        → sent_body resp
          ≡ some (
              quote_response (record {
                update_id = r.id;
                base = r.base;
                quote = r.quote;
                status = status_name r.status;
                price = price;
                updated_at = at;
                error = error;
              }))
        → ByIdOutcome id w resp
    unknown :
        (u : Text)
        → env.pg.uuid id ≡ some u
        → find (has_id u) w.rows ≡ none
        → sent_status resp ≡ 404
        → ByIdOutcome id w resp
    broken :
        (env.db_link w.tick ≢ up) ⊎ (env.pg.uuid id ≡ none)
        → sent_status resp ≡ 500
        → ByIdOutcome id w resp

  unparsed :
      (id : Text) (w : World S)
      → env.parses_uuid id ≡ false
      → (get_quote_result env id w).0 ≡ err Error.invalid_update_id
  unfolding get_quote_result
  unparsed id w h = ground arith

  parsed_result :
      (id u : Text) (w : World S)
      → env.parses_uuid id ≡ true
      → env.db_link w.tick ≡ up
      → env.pg.uuid id ≡ some u
      → ((find (has_id u) w.rows ≡ none) × ((get_quote_result env id w).0 ≡ err Error.not_found))
        ⊎ ((r : Quote) × (find (has_id u) w.rows ≡ some r)
            × ((get_quote_result env id w).0 ≡ ok (quote_result_from_repo env.format_rfc3339 r)))
  unfolding get_quote_result get_by_id select_by_id
  parsed_result id u w h live cast = elim (Option-cases (find (has_id u) w.rows)) [
    | inl none_found ↦ inl (none_found, ground arith)
    | inr (r, there) ↦ inr (r, there, ground arith)
  ]

  refused_result :
      (id : Text) (w : World S)
      → env.parses_uuid id ≡ true
      → (env.db_link w.tick ≢ up) ⊎ (env.pg.uuid id ≡ none)
      → (get_quote_result env id w).0 ≡ err Error.internal
  unfolding get_quote_result get_by_id select_by_id
  refused_result id w h bad = ground arith

  is_up : (l : Link) → (l ≡ up) ⊎ (l ≢ up)
  is_up up = inl refl
  is_up (lost why) = inr (λ h. ground arith)
  is_up (unacknowledged why) = inr (λ h. ground arith)

  shown :
      (id u : Text) (w : World S) (r : Quote) (resp : Response)
      → env.pg.uuid id ≡ some u
      → find (has_id u) w.rows ≡ some r
      → resp ≡ quote_found (quote_result_from_repo env.format_rfc3339 r)
      → ByIdOutcome id w resp
  unfolding quote_found write_json sent_status sent_body quote_result_from_repo status_text
  shown id u w r resp cast there same = elim (status_cases r.status) [
    | Seen.is_pending h ↦
        found u r cast there none none none (shown_open (inl h)) (ground arith) (ground arith)
    | Seen.is_running h ↦
        found u r cast there none none none (shown_open (inr h)) (ground arith) (ground arith)
    | Seen.is_success h ↦
        found u r cast there r.price (printed r.updated_at) none (shown_success h) (ground arith)
          (ground arith)
    | Seen.is_failed h ↦
        found u r cast there none none r.error_msg (shown_failed h) (ground arith) (ground arith)
  ]

  looked_up :
      (c : ℕ) (id : Text) (w : World S)
      → env.parses_uuid (c ∷ id) ≡ true
      → env.db_link w.tick ≡ up
      → (u : Text) → env.pg.uuid (c ∷ id) ≡ some u
      → ByIdOutcome
          (c ∷ id)
          w
          (handle_get_quote_by_id (service env enqueuer svc provider) (c ∷ id) w).0
  unfolding handle_get_quote_by_id by_id_error sent_status write_json
  looked_up c id w h live u cast = elim (parsed_result (c ∷ id) u w h live cast) [
    | inl (absent, res) ↦ unknown u cast absent (ground arith)
    | inr (r, there, res) ↦ shown (c ∷ id) u w r _ cast there (ground arith)
  ]

  failed :
      (c : ℕ) (id : Text) (w : World S)
      → env.parses_uuid (c ∷ id) ≡ true
      → (env.db_link w.tick ≢ up) ⊎ (env.pg.uuid (c ∷ id) ≡ none)
      → ByIdOutcome
          (c ∷ id)
          w
          (handle_get_quote_by_id (service env enqueuer svc provider) (c ∷ id) w).0
  unfolding handle_get_quote_by_id by_id_error internal_error sent_status write_json
  failed c id w h bad = let res = refused_result (c ∷ id) w h bad in broken bad (ground arith)

  -- GET /quotes/{update_id} answers with 400 if the id is empty or no UUID; with 200 if the table
  -- has a row of the id, and a body with the row's id, its pair, the name of its status, the
  -- price and the printed time of a SUCCESS, and the error of a FAILED; with 404 if it has none;
  -- and with 500 if the database was not reached or refused the id.
  pub handle_get_quote_by_id-ByIdOutcome :
      (id : Text) (w : World S)
      → ByIdOutcome id w (handle_get_quote_by_id (service env enqueuer svc provider) id w).0
  unfolding handle_get_quote_by_id by_id_error sent_status write_json
  handle_get_quote_by_id-ByIdOutcome [] w = bad_request (inl refl) refl
  handle_get_quote_by_id-ByIdOutcome (c ∷ id) w = elim (Bool-cases (env.parses_uuid (c ∷ id))) [
    | inr bad ↦ let res = unparsed (c ∷ id) w bad in bad_request (inr bad) (ground arith)
    | inl fine ↦ elim (is_up (env.db_link w.tick)) [
      | inr down ↦ failed c id w fine (inl down)
      | inl live ↦ elim (Option-cases (env.pg.uuid (c ∷ id))) [
        | inl bad ↦ failed c id w fine (inr bad)
        | inr (u, cast) ↦ looked_up c id w fine live u cast
      ]
    ]
  ]
