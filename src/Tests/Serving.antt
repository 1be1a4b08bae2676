-- ===== src/Tests/Serving.antt =====
-- The providers, the operations that read, and the handlers.
use exchange_rate_quote_serv.Prelude.{codes, text_eq, [], ◌∷◌, none, some, ◌≡◌, refl, arith}
use exchange_rate_quote_serv.Prelude.Unicode.{trim_space, len, rune_len, to_upper}
use exchange_rate_quote_serv.Prelude.Decimal.{decimal, value_from}
use exchange_rate_quote_serv.Errors.{ok}
use exchange_rate_quote_serv.Repository.Invariant.{IsFit}
use exchange_rate_quote_serv.Currency.{is_valid_currency_code, normalize_pair, validate_pair}
use exchange_rate_quote_serv.Repository.Table.{Status, Quote}
use exchange_rate_quote_serv.World.{World}
use exchange_rate_quote_serv.Provider.Cached.{cache_key}
use exchange_rate_quote_serv.Provider.Facade.{facade_get_rate}
use exchange_rate_quote_serv.Provider.Order.{FacadeOutcome, facade_get_rate-FacadeOutcome}
use exchange_rate_quote_serv.Provider.Hits.{CachedOutcome, cached_get_rate-CachedOutcome}
use exchange_rate_quote_serv.Service.QuoteResult.{
  status_text, Documented, status_text, quote_result_from_repo, quote_result_from_repo-Documented,
}
use exchange_rate_quote_serv.Service.Cache.{
  latest_cache_key, cache_get_latest, read_latest, as_string,
}
use exchange_rate_quote_serv.Service.Operations.{get_latest_quote}
use exchange_rate_quote_serv.Worker.{asynq_enqueue_update_task}
use exchange_rate_quote_serv.Api.Response.{
  error_response, set_header, write_header, write, Response,
}
use exchange_rate_quote_serv.Api.Quotes.{
  handle_request_update, handle_get_quote_by_id, handle_get_latest_quote,
}
use exchange_rate_quote_serv.Api.Logging.{is_orderly, IsLogged, handlers-IsLogged}
use exchange_rate_quote_serv.Api.Endpoints.{service, PostOutcome, handle_request_update-PostOutcome}
use exchange_rate_quote_serv.Api.Lookups.{LatestOutcome, handle_get_latest_quote-LatestOutcome}
use exchange_rate_quote_serv.Api.ById.{ByIdOutcome, handle_get_quote_by_id-ByIdOutcome}
use exchange_rate_quote_serv.Tests.Fixtures.{
  env, Store, svc, enqueuer, provider, frankfurter, decorator, nobody, upper,
}

go : Unit {0}
unfolding is_valid_currency_code normalize_pair validate_pair len rune_len to_upper text_eq
    cache_key latest_cache_key decimal value_from is_orderly trim_space
go = tt

abbrev done : Quote
done = record {
  id = codes "a";
  base = codes "EUR";
  quote = codes "MXN";
  price = some (codes "3");
  status = Status.success;
  error_msg = none;
  requested_at = 50;
  updated_at = some 51;
}

-- A finished row, and a cache that has the pair EUR/USD of the provider.
abbrev world : World Store
world = record {
  rows = done ∷ [];
  cache = (codes "provider_cache:frankfurter:{EUR:USD}", codes "2", decimal 7) ∷ [];
  tasks = [];
  tick = 0;
}

facade_get_rate-FacadeOutcome_example :
    FacadeOutcome
      (codes "EUR")
      (codes "USD")
      (nobody ∷ frankfurter ∷ [])
      world
      (facade_get_rate (nobody ∷ frankfurter ∷ []) (codes "EUR") (codes "USD") world)
facade_get_rate-FacadeOutcome_example =
    facade_get_rate-FacadeOutcome (codes "EUR") (codes "USD") (nobody ∷ frankfurter ∷ []) world

cached_get_rate-CachedOutcome_example :
    CachedOutcome env decorator frankfurter
      (codes "EUR")
      (codes "USD")
      world
      (provider (codes "EUR") (codes "USD") world)
cached_get_rate-CachedOutcome_example =
    cached_get_rate-CachedOutcome env decorator frankfurter (codes "EUR") (codes "USD") world

done-IsFit : IsFit done
done-IsFit = ground arith

quote_result_from_repo-Documented_example :
    Documented decimal Status.success (quote_result_from_repo decimal done)
quote_result_from_repo-Documented_example =
    quote_result_from_repo-Documented decimal done done-IsFit

handle_request_update-PostOutcome_example :
    PostOutcome env
      (asynq_enqueue_update_task env enqueuer)
      svc
      provider
      (trim_space (codes " eur/mxn "))
      world
      (handle_request_update
        (service env (asynq_enqueue_update_task env enqueuer) svc provider)
        (ok (codes " eur/mxn "))
        world)
handle_request_update-PostOutcome_example =
    handle_request_update-PostOutcome env (asynq_enqueue_update_task env enqueuer) svc provider
      (codes " eur/mxn ") world

handle_get_latest_quote-LatestOutcome_example :
    LatestOutcome env
      (asynq_enqueue_update_task env enqueuer)
      svc
      provider
      (codes "ABC")
      (codes "USD")
      world
      (handle_get_latest_quote
        (service env (asynq_enqueue_update_task env enqueuer) svc provider)
        upper
        (codes "ABC")
        (codes "USD")
        world)
handle_get_latest_quote-LatestOutcome_example =
    handle_get_latest_quote-LatestOutcome env (asynq_enqueue_update_task env enqueuer) svc provider
      (codes "ABC") (codes "USD") world

handle_get_quote_by_id-ByIdOutcome_example :
    ByIdOutcome env
      (asynq_enqueue_update_task env enqueuer)
      svc
      provider
      (codes "a")
      world
      (handle_get_quote_by_id
        (service env (asynq_enqueue_update_task env enqueuer) svc provider)
        (codes "a")
        world).0
handle_get_quote_by_id-ByIdOutcome_example =
    handle_get_quote_by_id-ByIdOutcome env (asynq_enqueue_update_task env enqueuer) svc provider
      (codes "a") world

abbrev teapot : Response
teapot = set_header (codes "A") (codes "B") ∷ write_header 418 ∷ write (error_response []) ∷ []

handlers-IsLogged_example :
    let api = service env (asynq_enqueue_update_task env enqueuer) svc provider in
    IsLogged api world (handle_request_update api (ok (codes "eur/mxn")) world).0
    × (IsLogged api world (handle_get_quote_by_id api (codes "a") world).0
        × IsLogged api world
            (handle_get_latest_quote api upper (codes "EUR") (codes "MXN") world).0)
handlers-IsLogged_example =
    handlers-IsLogged (service env (asynq_enqueue_update_task env enqueuer) svc provider) world
      (ok (codes "eur/mxn")) (codes "a") (codes "EUR") (codes "MXN") upper

-- The cache of the service has a price that the table has not.
abbrev cached_world : World Store
cached_world = record world { cache = (codes "latest:{EUR:MXN}", codes "2.5", decimal 9) ∷ [] }

latest_from_cache :
    (get_latest_quote env svc (codes "eur") (codes "MXN") cached_world).0
    ≡ ok (record {
      id = [];
      base = codes "EUR";
      quote = codes "MXN";
      price = some (codes "2.5");
      status = codes "SUCCESS";
      error_msg = none;
      updated_at = some (decimal 9);
    })
unfolding go get_latest_quote cache_get_latest read_latest as_string quote_result_from_repo
    status_text
latest_from_cache = refl
