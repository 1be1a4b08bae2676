-- ===== src/Api/Lookups.antt =====
-- The two GET handlers over the operations of internal/service.
use exchange_rate_quote_serv.Prelude.{
  Text, false, ◌||◌, [], ◌∷◌, Option, none, some, ◌≡◌, ◌⊎◌, inl, inr, refl, sym, ap, ◌∙◌, arith,
}
use exchange_rate_quote_serv.Prelude.Unicode.{len}
use exchange_rate_quote_serv.Errors.{Error, Result, ok, err, Result-cases}
use exchange_rate_quote_serv.Currency.{Pair, normalize_pair, validate_pair, is_valid_currency_code}
use exchange_rate_quote_serv.Repository.Table.{Quote}
use exchange_rate_quote_serv.World.{Env, World}
use exchange_rate_quote_serv.Provider.Http.{RatesProvider}
use exchange_rate_quote_serv.Service.QuoteResult.{QuoteResult}
use exchange_rate_quote_serv.Service.Cache.{QuoteService}
use exchange_rate_quote_serv.Service.Operations.{TaskEnqueuer, get_latest_quote}
use exchange_rate_quote_serv.Service.Latest.{
  outcome_of, read, Answered, from_cache, from_rows, get_latest_quote-Answered,
}
use exchange_rate_quote_serv.Api.Response.{
  latest_response, Response, sent_status, sent_body, write_json, deref_str,
}
use exchange_rate_quote_serv.Api.Quotes.{
  is_empty, internal_error, latest_error, latest_found, handle_get_latest_quote,
}
use exchange_rate_quote_serv.Api.Endpoints.{service, validate_pair_error}

-- The text that is there, or the empty one.
abbrev pub text_of : Option Text → Text
text_of none = []
text_of (some t) = t

module _ {S F : Type 0} (env : Env S F) (enqueuer : TaskEnqueuer S) (svc : QuoteService)
    (provider : RatesProvider S) where
  -- The answers to GET /quotes/latest. The codes of `unsupported` are well formed.
  pub data LatestOutcome (base quote : Text) (w : World S) (done : Response × World S)
      : Type 0 where
    bad_request :
        normalize_pair env.upper base quote ≡ err Error.invalid_pair_format
        → sent_status done.0 ≡ 400
        → done.1 ≡ w
        → LatestOutcome base quote w done
    unsupported :
        (p : Pair)
        → normalize_pair env.upper base quote ≡ ok p
        → validate_pair env.upper p.0 p.1 ≡ err Error.unsupported_currency
        → sent_status done.0 ≡ 500
        → done.1 ≡ w
        → LatestOutcome base quote w done
    found :
        (q : QuoteResult)
        → (get_latest_quote env svc base quote w).0 ≡ ok q
        → sent_status done.0 ≡ 200
        → sent_body done.0
          ≡ some (
              latest_response (record {
                base = q.base;
                quote = q.quote;
                price = text_of q.price;
                updated_at = text_of q.updated_at;
              }))
        → LatestOutcome base quote w done
    missing :
        (get_latest_quote env svc base quote w).0 ≡ err Error.not_found
        → sent_status done.0 ≡ 404
        → LatestOutcome base quote w done
    broken :
        (get_latest_quote env svc base quote w).0 ≡ err Error.internal
        → sent_status done.0 ≡ 500
        → LatestOutcome base quote w done

  normalize_pair_error :
      (b q : Text) (e : Error)
      → normalize_pair env.upper b q ≡ err e
      → e ≡ Error.invalid_pair_format
  unfolding normalize_pair
  normalize_pair_error b q e h = ground arith

  outcome_error :
      (r : Result (Option Quote)) (e : Error)
      → outcome_of env svc r ≡ err e
      → (e ≡ Error.not_found) ⊎ (e ≡ Error.internal)
  outcome_error r e h = ground arith

  Answered-error :
      (b q : Text) (w : World S) (r : Result QuoteResult) (e : Error)
      → Answered env svc b q w r
      → r ≡ err e
      → (e ≡ Error.not_found) ⊎ (e ≡ Error.internal)
  Answered-error b q w r e (from_cache x there same) h = absurd (ground arith)
  Answered-error b q w r e (from_rows w' miss kept same) h =
      outcome_error (read env svc b q w') e (sym same ∙ h)

  normalized_lengths :
      (b q : Text) (p : Pair)
      → normalize_pair env.upper b q ≡ ok p
      → (is_empty b || is_empty q) ≡ false
  unfolding normalize_pair is_valid_currency_code len
  normalized_lengths [] q p h = cc
  normalized_lengths (c ∷ b) [] p h = ground arith
  normalized_lengths (c ∷ b) (d ∷ q) p h = refl

  malformed :
      (b q : Text) (w : World S)
      → normalize_pair env.upper b q ≡ err Error.invalid_pair_format
      → (get_latest_quote env svc b q w).0 ≡ err Error.invalid_pair_format
        × ((get_latest_quote env svc b q w).1 ≡ w)
  unfolding get_latest_quote
  malformed b q w h = ground arith

  refused :
      (b q : Text) (w : World S) (p : Pair)
      → normalize_pair env.upper b q ≡ ok p
      → validate_pair env.upper p.0 p.1 ≡ err Error.unsupported_currency
      → (get_latest_quote env svc b q w).0 ≡ err Error.unsupported_currency
        × ((get_latest_quote env svc b q w).1 ≡ w)
  unfolding get_latest_quote
  refused b q w p h k = ground arith

  classified :
      (b q : Text) (w : World S) (p : Pair)
      → normalize_pair env.upper b q ≡ ok p
      → LatestOutcome b q w
          (handle_get_latest_quote (service env enqueuer svc provider) env.upper b q w)
  unfolding handle_get_latest_quote latest_error internal_error latest_found deref_str write_json
      sent_status sent_body
  classified b q w p normal =
      let some_text = normalized_lengths b q p normal in
      elim (Result-cases (validate_pair env.upper p.0 p.1)) [
        | inr (e, bad) ↦
            let bad' = rw (validate_pair_error env enqueuer svc provider p.0 p.1 e bad) at bad in
            let (res, same) = refused b q w p normal bad' in
            unsupported p normal bad' (ground arith) (ground arith)
        | inl (u, valid) ↦
            let (ans, _) = get_latest_quote-Answered env svc b q p w normal valid in
            elim (Result-cases (get_latest_quote env svc b q w).0) [
              | inl (x, done) ↦ found x done (ground arith) (ground arith)
              | inr (e, failed) ↦
                  elim (Answered-error p.0 p.1 w (get_latest_quote env svc b q w).0 e ans failed) [
                    | inl lost ↦ missing (failed ∙ ap err lost) (ground arith)
                    | inr bad ↦ broken (failed ∙ ap err bad) (ground arith)
                  ]
            ]
      ]

  -- GET /quotes/latest answers with 400 and changes nothing if a code is not well formed, and
  -- with 500, changing nothing, if the codes are well formed but not supported. Otherwise it
  -- answers with what `GetLatestQuote` returns: 200 and a body with its codes, its price and its
  -- time, where a field that is not there is the empty text; 404 if there is none; or 500 if the
  -- database failed.
  pub handle_get_latest_quote-LatestOutcome :
      (b q : Text) (w : World S)
      → LatestOutcome b q w
          (handle_get_latest_quote (service env enqueuer svc provider) env.upper b q w)
  unfolding handle_get_latest_quote latest_error internal_error write_json sent_status
  handle_get_latest_quote-LatestOutcome b q w = elim (Result-cases (normalize_pair env.upper b q)) [
    | inl (p, normal) ↦ classified b q w p normal
    | inr (e, bad) ↦
        let bad' = rw (normalize_pair_error b q e bad) at bad in
        let (res, same) = malformed b q w bad' in bad_request bad' (ground arith) (ground arith)
  ]
