-- ===== src/System/Stores.antt =====
-- From `ProcessUpdate` through the cache to `GetLatestQuote`.
use exchange_rate_quote_serv.Prelude.{
  ℕ, suc, Text, codes, true, [], ◌∷◌, none, some, ◌≡◌, inl, inr, sym, ap, ◌∙◌, arith,
}
use exchange_rate_quote_serv.Errors.{Result, ok, Result-cases}
use exchange_rate_quote_serv.Currency.{Pair, normalize_pair, validate_pair}
use exchange_rate_quote_serv.Repository.Table.{Time}
use exchange_rate_quote_serv.World.{Env, World, str, ◌>>=◌}
use exchange_rate_quote_serv.Provider.Http.{Rate, RatesProvider}
use exchange_rate_quote_serv.Service.QuoteResult.{QuoteResult}
use exchange_rate_quote_serv.Service.Cache.{QuoteService, latest_cache_key, cache_set_latest}
use exchange_rate_quote_serv.Service.Operations.{
  service_mark_running, repo_mark_success, fetch_and_complete, process_update, get_latest_quote,
}
use exchange_rate_quote_serv.Service.Latest.{get_latest_quote-cached}
use exchange_rate_quote_serv.System.Processing.{
  fetched, stored, fetch_ok, fetch_err, process_valid, process_ok_pair,
}

module _ {S F : Type 0} (env : Env S F) (svc : QuoteService) (provider : RatesProvider S) where
  -- Redis as the storing of a rate leaves it.
  abbrev pub kept : Text → Text → Rate → World S → S
  kept b q rate w =
      (env.hset_expire (suc w.tick) (latest_cache_key b q) rate.0 (env.format_rfc3339 rate.1)
        svc.latest_price_ttl w.cache).1

  store_cache :
      (id b q : Text) (rate : Rate) (w : World S)
      → svc.has_cache ≡ true
      → (stored env svc provider id rate.0 w).0 ≡ ok tt
      → ((repo_mark_success env id rate.0 >>= λ _. cache_set_latest env svc b q rate.0 rate.1)
          w).1.cache
        ≡ kept b q rate w
  unfolding cache_set_latest
  store_cache id b q rate w on done = ground arith

  fetch_cache :
      (id b q : Text) (w w' : World S) (rate : Rate)
      → svc.has_cache ≡ true
      → fetched env svc provider id b q w ≡ (ok rate, w')
      → (stored env svc provider id rate.0 w').0 ≡ ok tt
      → (fetch_and_complete env svc provider id b q w).1.cache ≡ kept b q rate w'
  unfolding fetch_and_complete service_mark_running
  fetch_cache id b q w w' rate on h done = rw h (store_cache id b q rate w' on done)

  process_ok_inverse :
      (id base quote : Text) (w : World S)
      → (process_update env svc provider id base quote w).0 ≡ ok tt
      → (p : Pair) × (normalize_pair env.upper base quote ≡ ok p)
        × (validate_pair env.upper p.0 p.1 ≡ ok tt)
        × ((rate : Rate) × ((fetched env svc provider id p.0 p.1 w).0 ≡ ok rate)
            × ((stored env svc provider id rate.0 (fetched env svc provider id p.0 p.1 w).1).0
                ≡ ok tt))
  process_ok_inverse id base quote w h =
      let (p, normal, supported) = process_ok_pair env svc provider id base quote w h in
      let whole = process_valid env svc provider id base quote w p normal supported in
      let fine = ap (λ (x : Result (Unit {0}) × World S). x.0) (sym whole) ∙ h in
      let w1 = (fetched env svc provider id p.0 p.1 w).1 in
      elim (Result-cases (fetched env svc provider id p.0 p.1 w).0) [
        | inr (e, failed) ↦
            let (bad, _) = fetch_err env svc provider id p.0 p.1 w w1 e (λ i. (failed i, w1)) in
            absurd (ground arith)
        | inl (rate, given) ↦
            let (res, _) = fetch_ok env svc provider id p.0 p.1 w w1 rate (λ i. (given i, w1)) in
            (p, normal, supported, (rate, given, sym res ∙ fine))
      ]

  -- Redis has what was stored last when it is asked in the world `w`.
  pub record Remembers (w : World S) : Type 0 where
    pub back :
        (key price ts : Text) (k : ℕ) (s : S)
        → w.cache ≡ (env.hset_expire k key price ts svc.latest_price_ttl s).1
        → env.hmget w.tick key w.cache ≡ some (str price ∷ str ts ∷ [])

  -- The provider has given a rate of the pair, and the result is that rate with its time.
  pub record IsShown (id base quote : Text) (w : World S) (r : Result QuoteResult) : Type 0 where
    pub pair : Pair
    pub normal : normalize_pair env.upper base quote ≡ ok pair
    pub rate : Rate
    pub given : (fetched env svc provider id pair.0 pair.1 w).0 ≡ ok rate
    pub time : Time
    pub read : env.parse_rfc3339 (env.format_rfc3339 rate.1) ≡ some time
    pub shown :
        r
        ≡ ok (record {
          id = [];
          base = pair.0;
          quote = pair.1;
          price = some rate.0;
          status = codes "SUCCESS";
          error_msg = none;
          updated_at = some (env.format_rfc3339 time);
        })

  -- Let the service have a cache, let a printed time parse, and let Redis have what was stored
  -- last when it is asked next. If `ProcessUpdate` returns no error, then `GetLatestQuote` of the
  -- same codes, called next, returns the price that the provider gave for the pair in capitals,
  -- with its time as it is printed and parsed, and the status SUCCESS.
  pub process_update-get_latest_quote :
      (id base quote : Text) (w : World S)
      → svc.has_cache ≡ true
      → ((t : Time) → (t' : Time) × (env.parse_rfc3339 (env.format_rfc3339 t) ≡ some t'))
      → Remembers (process_update env svc provider id base quote w).1
      → (process_update env svc provider id base quote w).0 ≡ ok tt
      → IsShown id base quote w
          (get_latest_quote env svc base quote
            (process_update env svc provider id base quote w).1).0
  process_update-get_latest_quote id base quote w on times redis h =
      let (p, normal, supported, (rate, given, done)) = process_ok_inverse id base quote w h in
      let w1 = (fetched env svc provider id p.0 p.1 w).1 in
      let w' = (process_update env svc provider id base quote w).1 in
      let whole = process_valid env svc provider id base quote w p normal supported in
      let (t, read) = times rate.1 in
      let cache =
        ap (λ (x : Result (Unit {0}) × World S). x.1.cache) whole
        ∙ fetch_cache id p.0 p.1 w w1 rate on (λ i. (given i, w1)) done in
      record {
        pair = p;
        normal = normal;
        rate = rate;
        given = given;
        time = t;
        read = read;
        shown =
            get_latest_quote-cached env svc base quote rate.0 p rate.1 t w' normal supported on
              (redis.back (latest_cache_key p.0 p.1) rate.0 (env.format_rfc3339 rate.1)
                (suc w1.tick) w1.cache cache)
              read;
      }
