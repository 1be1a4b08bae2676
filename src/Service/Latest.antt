-- ===== src/Service/Latest.antt =====
-- `GetLatestQuote`: its two sources.
use exchange_rate_quote_serv.Prelude.{
  Text, codes, [], ◌∷◌, true, false, Option, none, some, ◌≡◌, inl, inr, arith, Bool-cases,
  Option-cases,
}
use exchange_rate_quote_serv.Errors.{Error, Result, ok, err, Result-cases}
use exchange_rate_quote_serv.Currency.{Pair, normalize_pair, validate_pair}
use exchange_rate_quote_serv.Repository.Table.{Time, Quote}
use exchange_rate_quote_serv.Repository.Methods.{get_latest_success}
use exchange_rate_quote_serv.World.{Env, World, str, resume, advance}
use exchange_rate_quote_serv.Service.QuoteResult.{QuoteResult, status_text, quote_result_from_repo}
use exchange_rate_quote_serv.Service.Cache.{
  QuoteService, latest_cache_key, as_string, cached_quote, read_latest, cache_get_latest,
  cache_set_latest, cache_set_latest_from_quote,
}
use exchange_rate_quote_serv.Service.Operations.{hit_or, latest_from_rows, get_latest_quote}

module _ {S F : Type 0} (env : Env S F) (svc : QuoteService) where
  -- The row that the cache stands for, if there is a cache and it has one.
  abbrev pub hit : Text → Text → World S → Option Quote
  hit b q w = elim svc.has_cache [
    | true ↦ read_latest env svc b q (env.hmget w.tick (latest_cache_key b q) w.cache)
    | false ↦ none
  ]

  cache_get_latest_ok :
      (b q : Text) (w : World S)
      → ((cache_get_latest env svc b q w).0 ≡ ok (hit b q w))
        × ((cache_get_latest env svc b q w).1.rows ≡ w.rows)
  unfolding cache_get_latest
  cache_get_latest_ok b q w = elim (Bool-cases svc.has_cache) [
    | inl yes_cache ↦ ground arith
    | inr no_cache ↦ ground arith
  ]

  cache_set_latest_from_quote_ok :
      (q : Quote) (w : World S)
      → ((cache_set_latest_from_quote env svc q w).0 ≡ ok tt)
        × ((cache_set_latest_from_quote env svc q w).1.rows ≡ w.rows)
  unfolding cache_set_latest_from_quote cache_set_latest
  cache_set_latest_from_quote_ok q w = ground arith

  -- The reading of the table behind a miss, in the world that the cache has left.
  abbrev pub read : Text → Text → World S → Result (Option Quote)
  read b q w = get_latest_success env.pg (env.db_link w.tick) b q w.rows

  abbrev pub result_of : Quote → QuoteResult
  result_of = quote_result_from_repo env.format_rfc3339

  -- What the table's answer becomes.
  abbrev pub outcome_of : Result (Option Quote) → Result QuoteResult
  outcome_of (ok (some q)) = ok (result_of q)
  outcome_of (ok none) = err Error.not_found
  outcome_of (err e) = err Error.internal

  latest_from_rows_outcome :
      (b q : Text) (w : World S)
      → ((latest_from_rows env svc b q w).0 ≡ outcome_of (read b q w))
        × ((latest_from_rows env svc b q w).1.rows ≡ w.rows)
  unfolding latest_from_rows
  latest_from_rows_outcome b q w = elim (Result-cases (read b q w)) [
    | inr (e, failed) ↦ ground arith
    | inl (o, done) ↦ elim (Option-cases o) [
      | inl none_found ↦ ground arith
      | inr (r, found) ↦
          let (fine, kept) = cache_set_latest_from_quote_ok r (advance w) in
          ground (arith, fine, kept)
    ]
  ]

  -- A pair that is valid and supported: its price from the cache, or from the table.
  pub data Answered (b q : Text) (w : World S) (r : Result QuoteResult) : Type 0 where
    from_cache : (x : Quote) → hit b q w ≡ some x → r ≡ ok (result_of x) → Answered b q w r
    from_rows :
        (w' : World S)
        → hit b q w ≡ none
        → w'.rows ≡ w.rows
        → r ≡ outcome_of (read b q w')
        → Answered b q w r

  looked_up :
      (b q : Text) (p : Pair) (w : World S)
      → normalize_pair env.upper b q ≡ ok p
      → validate_pair env.upper p.0 p.1 ≡ ok tt
      → get_latest_quote env svc b q w
        ≡ resume
            (λ o. hit_or env svc o (latest_from_rows env svc p.0 p.1))
            (ok (hit p.0 p.1 w))
            (cache_get_latest env svc p.0 p.1 w).1
  unfolding get_latest_quote
  looked_up b q p w normal valid = ground (arith, cache_get_latest_ok p.0 p.1 w)

  pub get_latest_quote-Answered :
      (b q : Text) (p : Pair) (w : World S)
      → normalize_pair env.upper b q ≡ ok p
      → validate_pair env.upper p.0 p.1 ≡ ok tt
      → Answered p.0 p.1 w (get_latest_quote env svc b q w).0
        × ((get_latest_quote env svc b q w).1.rows ≡ w.rows)
  get_latest_quote-Answered b q p w normal valid =
      let whole = looked_up b q p w normal valid in
      let w' = (cache_get_latest env svc p.0 p.1 w).1 in
      let (_, kept) = cache_get_latest_ok p.0 p.1 w in
      elim (Option-cases (hit p.0 p.1 w)) [
        | inr (x, there) ↦ (from_cache x there (ground arith), ground arith)
        | inl miss ↦
            let (res, rows) = latest_from_rows_outcome p.0 p.1 w' in
            (from_rows w' miss kept (ground arith), ground arith)
      ]

  -- As long as Redis has the price and the time that were stored of a pair, and the time parses,
  -- the result for the pair is that price and time.
  pub get_latest_quote-cached :
      (b q rate : Text) (p : Pair) (t t' : Time) (w : World S)
      → normalize_pair env.upper b q ≡ ok p
      → validate_pair env.upper p.0 p.1 ≡ ok tt
      → svc.has_cache ≡ true
      → env.hmget w.tick (latest_cache_key p.0 p.1) w.cache
        ≡ some (str rate ∷ str (env.format_rfc3339 t) ∷ [])
      → env.parse_rfc3339 (env.format_rfc3339 t) ≡ some t'
      → (get_latest_quote env svc b q w).0
        ≡ ok (record {
          id = [];
          base = p.0;
          quote = p.1;
          price = some rate;
          status = codes "SUCCESS";
          error_msg = none;
          updated_at = some (env.format_rfc3339 t');
        })
  unfolding read_latest as_string quote_result_from_repo status_text
  get_latest_quote-cached b q rate p t t' w normal valid on kept read =
      let there : hit p.0 p.1 w ≡ some (cached_quote p.0 p.1 rate t') = ground arith in
      let whole = looked_up b q p w normal valid in ground arith
