-- ===== src/App/Providers.antt =====
-- `newRateProvider` of cmd/app/app.go.
use exchange_rate_quote_serv.Prelude.{
  Text, codes, Bool, true, false, not, ◌&&◌, List, [], ◌∷◌, ◌++◌, ◌≡◌, arith, All-append,
}
use mathlib.Core.Path.{subst}
use exchange_rate_quote_serv.Prelude.Int.{seconds}
use exchange_rate_quote_serv.Errors.{Error, Result, ok, err}
use exchange_rate_quote_serv.World.{Env}
use exchange_rate_quote_serv.Config.{Config, is_empty}
use exchange_rate_quote_serv.Provider.Http.{
  RatesProvider, new_exchange_rate_host, new_frankfurter, er_host_get_rate, frankfurter_get_rate,
}
use exchange_rate_quote_serv.Provider.Cached.{cached_get_rate}
use exchange_rate_quote_serv.Provider.Facade.{facade_get_rate}
use exchange_rate_quote_serv.Provider.Quiet.{
  IsQuiet, AreQuiet, er_host_get_rate-Quiet, frankfurter_get_rate-Quiet, cached_get_rate-Quiet,
  facade_get_rate-Quiet,
}

unfoldable pub no_providers : Error
no_providers = Error.failure (
    codes
      "no exchange rate providers are correctly configured: frankfurter requires base_url, exchangerate_host requires base_url and api_key")

module _ {S F : Type 0} (env : Env S F) (has_cache : Bool) (cfg : Config) where
  abbrev pub cached : Text → RatesProvider S → RatesProvider S
  cached name = cached_get_rate env (record {
    has_cache = has_cache;
    ttl = seconds cfg.cache.exchange_provider_price_ttl_sec;
    provider_name = name;
  })

  abbrev pub host_providers : Bool → List (RatesProvider S)
  host_providers true =
      cached (codes "exchangerate_host") (
        er_host_get_rate env (
          new_exchange_rate_host cfg.exchange_rate_host.base_url cfg.exchange_rate_host.api_key
            cfg.exchange_rate_host.timeout))
      ∷ []
  host_providers false = []

  abbrev pub frankfurter_providers : Bool → List (RatesProvider S)
  frankfurter_providers true =
      cached (codes "frankfurter") (
        frankfurter_get_rate env (new_frankfurter cfg.frankfurter.base_url cfg.frankfurter.timeout))
      ∷ []
  frankfurter_providers false = []

  abbrev pub providers : List (RatesProvider S)
  providers =
      host_providers (
        not (is_empty cfg.exchange_rate_host.base_url)
        && not (is_empty cfg.exchange_rate_host.api_key))
      ++ frankfurter_providers (not (is_empty cfg.frankfurter.base_url))

  -- The two tests on `len(providers)`.
  abbrev pub combine : List (RatesProvider S) → Result (RatesProvider S)
  combine [] = err no_providers
  combine (p ∷ []) = ok p
  combine ps = ok (facade_get_rate ps)

  unfoldable pub new_rate_provider : Result (RatesProvider S)
  new_rate_provider = combine providers

  host-AreQuiet : (b : Bool) → AreQuiet (host_providers b)
  host-AreQuiet true = (cached_get_rate-Quiet env _ _ (er_host_get_rate-Quiet env _), tt)
  host-AreQuiet false = tt

  frankfurter-AreQuiet : (b : Bool) → AreQuiet (frankfurter_providers b)
  frankfurter-AreQuiet true = (cached_get_rate-Quiet env _ _ (frankfurter_get_rate-Quiet env _), tt)
  frankfurter-AreQuiet false = tt

  combine-IsQuiet :
      (ps : List (RatesProvider S)) (p : RatesProvider S)
      → AreQuiet ps
      → combine ps ≡ ok p
      → IsQuiet p
  combine-IsQuiet [] p h e = absurd (ground arith)
  combine-IsQuiet (x ∷ []) p (h, _) e = subst IsQuiet (ground arith) h
  combine-IsQuiet (x ∷ y ∷ ps) p h e =
      subst IsQuiet (ground arith) (facade_get_rate-Quiet (x ∷ y ∷ ps) h)

  -- A provider that `newRateProvider` makes of any configuration never changes the table or the
  -- queue, whatever its HTTP calls and its cache do.
  pub new_rate_provider-IsQuiet : (p : RatesProvider S) → new_rate_provider ≡ ok p → IsQuiet p
  unfolding new_rate_provider
  new_rate_provider-IsQuiet p e =
      combine-IsQuiet providers p
        (All-append IsQuiet (host_providers _) (frankfurter_providers _) (host-AreQuiet _)
          (frankfurter-AreQuiet _))
        e
