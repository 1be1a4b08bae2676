-- ===== src/Threads/Providers.antt =====
-- cached.go, facade.go and `newRateProvider` of cmd/app/app.go as threads: each call of Redis and
-- of an HTTP API is one step.
use exchange_rate_quote_serv.Prelude.{
  Text, codes, Bool, true, false, not, ◌&&◌, List, [], ◌∷◌, ◌++◌, Option, none, some,
}
use exchange_rate_quote_serv.Errors.{error_text, Result, ok, err}
use exchange_rate_quote_serv.World.{Env}
use exchange_rate_quote_serv.Config.{Config, is_empty}
use exchange_rate_quote_serv.Provider.Http.{
  Rate, RatesProvider, new_exchange_rate_host, new_frankfurter, er_host_get_rate,
  frankfurter_get_rate,
}
use exchange_rate_quote_serv.Provider.Cached.{
  CachedRatesProviderDecorator, cache_key, cached_rate, hmget_at, hset_expire_at,
}
use exchange_rate_quote_serv.Provider.Facade.{all_failed}
use exchange_rate_quote_serv.Prelude.Int.{seconds}
use exchange_rate_quote_serv.App.Providers.{no_providers}
use exchange_rate_quote_serv.Threads.Program.{Program, pure, raise, atom, attempt, run, ◌>>=◌, ◌>>◌}
use exchange_rate_quote_serv.Threads.Operations.{RatesProgram}

-- A provider that makes one call.
abbrev pub one_call : {S : Type 0} → RatesProvider S → RatesProgram S
one_call p base quote = atom (p base quote)

-- The provider of the sequential model that a thread is when it is alone.
abbrev pub provider_of : {S : Type 0} → RatesProgram S → RatesProvider S
provider_of f base quote = run (f base quote)

module _ {S F : Type 0} (env : Env S F) where
  abbrev pub store_thread : CachedRatesProviderDecorator → RatesProgram S → RatesProgram S
  store_thread p inner base quote = do
    rate ← inner base quote
    atom (hset_expire_at env (cache_key p base quote) rate.0 (env.format_rfc3339 rate.1) p.ttl)
    pure rate

  abbrev pub hit_or_thread : Option Rate → Program S Rate → Program S Rate
  hit_or_thread (some rate) fetch = pure rate
  hit_or_thread none fetch = fetch

  abbrev pub if_cache_thread : Bool → Program S Rate → Program S Rate → Program S Rate
  if_cache_thread true with_cache without = with_cache
  if_cache_thread false with_cache without = without

  -- `CachedRatesProviderDecorator.GetRate`
  unfoldable pub cached_thread : CachedRatesProviderDecorator → RatesProgram S → RatesProgram S
  cached_thread p inner base quote =
      if_cache_thread p.has_cache
        (atom (hmget_at env (cache_key p base quote)) >>= λ vals.
          hit_or_thread (cached_rate env vals) (store_thread p inner base quote))
        (inner base quote)

module _ {S : Type 0} where
  abbrev pub rate_or : Result Rate → (Text → Program S Rate) → Program S Rate
  rate_or (ok rate) next = pure rate
  rate_or (err e) next = next (error_text e)

  -- The loop of `ExchangeProviderFacade.GetRate`, with the texts of the errors so far.
  unfoldable pub facade_thread : List (RatesProgram S) → List Text → RatesProgram S
  facade_thread [] errs base quote = raise (all_failed errs)
  facade_thread (p ∷ ps) errs base quote =
      attempt (p base quote) >>= λ r. rate_or r (λ t. facade_thread ps (errs ++ t ∷ []) base quote)

module _ {S F : Type 0} (env : Env S F) (has_cache : Bool) (cfg : Config) where
  abbrev pub decorator : Text → CachedRatesProviderDecorator
  decorator name = record {
    has_cache = has_cache;
    ttl = seconds cfg.cache.exchange_provider_price_ttl_sec;
    provider_name = name;
  }

  abbrev pub cached_call : Text → RatesProvider S → RatesProgram S
  cached_call name p = cached_thread env (decorator name) (one_call p)

  abbrev pub host_api : RatesProvider S
  host_api = er_host_get_rate env (
      new_exchange_rate_host cfg.exchange_rate_host.base_url cfg.exchange_rate_host.api_key
        cfg.exchange_rate_host.timeout)

  abbrev pub frankfurter_api : RatesProvider S
  frankfurter_api =
      frankfurter_get_rate env (new_frankfurter cfg.frankfurter.base_url cfg.frankfurter.timeout)

  abbrev pub host_threads : Bool → List (RatesProgram S)
  host_threads true = cached_call (codes "exchangerate_host") host_api ∷ []
  host_threads false = []

  abbrev pub frankfurter_threads : Bool → List (RatesProgram S)
  frankfurter_threads true = cached_call (codes "frankfurter") frankfurter_api ∷ []
  frankfurter_threads false = []

  abbrev pub combine_threads : List (RatesProgram S) → Result (RatesProgram S)
  combine_threads [] = err no_providers
  combine_threads (p ∷ []) = ok p
  combine_threads (p ∷ q ∷ ps) = ok (facade_thread (p ∷ q ∷ ps) [])

  abbrev pub provider_threads : List (RatesProgram S)
  provider_threads =
      host_threads (
        not (is_empty cfg.exchange_rate_host.base_url)
        && not (is_empty cfg.exchange_rate_host.api_key))
      ++ frankfurter_threads (not (is_empty cfg.frankfurter.base_url))

  -- `newRateProvider`
  unfoldable pub new_rate_thread : Result (RatesProgram S)
  new_rate_thread = combine_threads provider_threads
