-- ===== src/Api/Endpoints.antt =====
-- The handlers over the operations of internal/service, as cmd/app/app.go puts them together.
use exchange_rate_quote_serv.Prelude.{Text, codes, [], ◌∷◌, some, ◌≡◌, ◌⊎◌, inl, inr, refl, arith}
use exchange_rate_quote_serv.Prelude.Unicode.{trim_space, split}
use exchange_rate_quote_serv.Errors.{Error, ok, err, Result-cases}
use exchange_rate_quote_serv.Currency.{Pair, parse_pair, parse_parts, validate_pair, validate}
use exchange_rate_quote_serv.World.{Env, World}
use exchange_rate_quote_serv.Provider.Http.{RatesProvider}
use exchange_rate_quote_serv.Service.Cache.{QuoteService}
use exchange_rate_quote_serv.Service.Operations.{
  TaskEnqueuer, request_quote_update, get_quote_result, get_latest_quote, process_update,
  enqueue_update_task, service_mark_failed,
}
use exchange_rate_quote_serv.Api.Response.{
  error_response, update_response, Response, sent_status, sent_body, write_json,
}
use exchange_rate_quote_serv.Api.Quotes.{
  QuoteServiceInterface, internal_error, update_error, accepted, answer, handle_request_update,
  update_pair,
}

module _ {S F : Type 0} (env : Env S F) (enqueuer : TaskEnqueuer S) (svc : QuoteService)
    (provider : RatesProvider S) where
  -- `*service.QuoteService` as the interface of the handlers.
  abbrev pub service : QuoteServiceInterface S
  service = record {
    request_quote_update = request_quote_update env enqueuer;
    get_quote_result = get_quote_result env;
    get_latest_quote = get_latest_quote env svc;
    process_update = process_update env svc provider;
  }

  -- A pair that is not two codes, or not of supported currencies.
  abbrev pub IsRejected : Text → Type 0
  IsRejected pair =
      (parse_pair env.upper pair ≡ err Error.invalid_pair_format)
      ⊎ ((p : Pair) × (parse_pair env.upper pair ≡ ok p)
          × (validate_pair env.upper p.0 p.1 ≡ err Error.unsupported_currency))

  abbrev pub IsPassed : Text → Type 0
  IsPassed pair =
      (p : Pair) × (parse_pair env.upper pair ≡ ok p) × (validate_pair env.upper p.0 p.1 ≡ ok tt)

  -- The three answers to a POST.
  pub data PostOutcome (pair : Text) (w : World S) (done : Response × World S) : Type 0 where
    bad_request : IsRejected pair → sent_status done.0 ≡ 400 → done.1 ≡ w → PostOutcome pair w done
    queued :
        (id status : Text)
        → IsPassed pair
        → (request_quote_update env enqueuer pair w).0 ≡ ok (id, status)
        → sent_status done.0 ≡ 202
        → sent_body done.0 ≡ some (update_response id)
        → PostOutcome pair w done
    broken :
        (e : Error)
        → IsPassed pair
        → (request_quote_update env enqueuer pair w).0 ≡ err e
        → (e ≡ Error.internal) ⊎ (e ≡ Error.internal_queue)
        → sent_status done.0 ≡ 500
        → sent_body done.0 ≡ some (error_response (codes "Internal error"))
        → PostOutcome pair w done

  parse_pair_error :
      (pair : Text) (e : Error) → parse_pair env.upper pair ≡ err e → e ≡ Error.invalid_pair_format
  unfolding parse_pair parse_parts
  parse_pair_error pair e h = ground arith

  pub validate_pair_error :
      (b q : Text) (e : Error)
      → validate_pair env.upper b q ≡ err e
      → e ≡ Error.unsupported_currency
  unfolding validate_pair validate
  validate_pair_error b q e h = ground arith

  -- Behind the two checks, the errors are the two internal ones.
  passed_error :
      (pair : Text) (w : World S) (p : Pair) (e : Error)
      → parse_pair env.upper pair ≡ ok p
      → validate_pair env.upper p.0 p.1 ≡ ok tt
      → (request_quote_update env enqueuer pair w).0 ≡ err e
      → (e ≡ Error.internal) ⊎ (e ≡ Error.internal_queue)
  unfolding request_quote_update enqueue_update_task service_mark_failed
  passed_error pair w p e parsed valid h = ground arith

  rejected_result :
      (pair : Text) (w : World S)
      → IsRejected pair
      → ((request_quote_update env enqueuer pair w).1 ≡ w)
        × (((request_quote_update env enqueuer pair w).0 ≡ err Error.invalid_pair_format)
            ⊎ ((request_quote_update env enqueuer pair w).0 ≡ err Error.unsupported_currency))
  unfolding request_quote_update
  rejected_result pair w h = ground arith

  empty-IsRejected : IsRejected []
  unfolding parse_pair parse_parts split
  empty-IsRejected = inl refl

  classify : (pair : Text) → IsRejected pair ⊎ IsPassed pair
  classify pair = elim (Result-cases (parse_pair env.upper pair)) [
    | inr (e, bad) ↦ inl (inl (rw (parse_pair_error pair e bad) at bad))
    | inl (p, parsed) ↦ elim (Result-cases (validate_pair env.upper p.0 p.1)) [
      | inr (e, bad) ↦ inl (inr (p, parsed, rw (validate_pair_error p.0 p.1 e bad) at bad))
      | inl (u, valid) ↦ inr (p, parsed, valid)
    ]
  ]

  answered :
      (pair : Text) (w : World S)
      → let (r, w') = request_quote_update env enqueuer pair w in
        PostOutcome pair w (answer (λ (r : Text × Text). accepted r.0) update_error r, w')
  unfolding update_error internal_error accepted write_json sent_status sent_body
  answered pair w = elim (classify pair) [
    | inl bad ↦ let (same, what) = rejected_result pair w bad in bad_request bad (ground arith) same
    | inr passed ↦ elim (Result-cases (request_quote_update env enqueuer pair w).0) [
      | inl (r, done) ↦ queued r.0 r.1 passed done (ground arith) (ground arith)
      | inr (e, failed) ↦
          let which = passed_error pair w passed.0 e passed.1 passed.2 failed in
          broken e passed failed which (ground arith) (ground arith)
    ]
  ]

  pair_outcome : (pair : Text) (w : World S) → PostOutcome pair w (update_pair service pair w)
  unfolding write_json sent_status
  pair_outcome [] w = bad_request empty-IsRejected refl refl
  pair_outcome (c ∷ pair) w = answered (c ∷ pair) w

  -- POST /quotes/update with a body that decodes answers in one of three ways. The status is 400
  -- and nothing changes if the trimmed pair is not two codes or not supported. The status is 202
  -- and the body has the id that `RequestQuoteUpdate` returned. Or the status is 500 with the
  -- text "Internal error", and `RequestQuoteUpdate` returned one of the two internal errors. In
  -- the last two cases the pair is well formed and supported.
  pub handle_request_update-PostOutcome :
      (body : Text) (w : World S)
      → PostOutcome (trim_space body) w (handle_request_update service (ok body) w)
  unfolding handle_request_update
  handle_request_update-PostOutcome body w = pair_outcome (trim_space body) w
