-- ===== src/Provider/Cached.antt =====
-- cached_provider.go: a provider behind a cache in Redis.
use exchange_rate_quote_serv.Prelude.{
  ℕ, suc, Text, codes, Bool, true, false, List, [], ◌∷◌, ◌++◌, Option, none, some,
}
use exchange_rate_quote_serv.Errors.{ok}
use exchange_rate_quote_serv.World.{Env, Value, str, Action, pure, advance, ◌>>=◌, ◌>>◌}
use exchange_rate_quote_serv.Provider.Http.{Rate, RatesProvider}

-- The decorator's own fields; `has_cache` is `p.cache != nil`, and the TTL is in nanoseconds.
pub record CachedRatesProviderDecorator : Type 0 where
  pub has_cache : Bool
  pub ttl : ℕ
  pub provider_name : Text

unfoldable pub cache_key : CachedRatesProviderDecorator → Text → Text → Text
cache_key p base quote =
    codes "provider_cache:"
    ++ (p.provider_name ++ (codes ":{" ++ (base ++ (codes ":" ++ (quote ++ codes "}")))))

module _ {S F : Type 0} (env : Env S F) where
  -- The two elements of a reply where both are strings and the second is a time.
  unfoldable pub cached_rate : Option (List Value) → Option Rate
  cached_rate (some (str price ∷ str ts ∷ [])) = elim (env.parse_rfc3339 ts) [
    | none ↦ none
    | some t ↦ some (price, t)
  ]
  cached_rate _ = none

  abbrev pub hmget_at : Text → Action S (Option (List Value))
  hmget_at key w = (ok (env.hmget w.tick key w.cache), advance w)

  -- `pipe.HSet`, `pipe.Expire` and `pipe.Exec`: whether all went well.
  abbrev pub hset_expire_at : Text → Text → Text → ℕ → Action S Bool
  hset_expire_at key price ts ttl w =
      let (done, s) = env.hset_expire w.tick key price ts ttl w.cache in
      (ok done, record w { cache = s; tick = suc w.tick })

  -- A hit is returned; a miss calls the provider and caches what it returns.
  abbrev pub hit_or : Option Rate → Action S Rate → Action S Rate
  hit_or (some rate) fetch = pure rate
  hit_or none fetch = fetch

  abbrev pub fetch_and_store : CachedRatesProviderDecorator → RatesProvider S → RatesProvider S
  fetch_and_store p inner base quote = do
    rate ← inner base quote
    hset_expire_at (cache_key p base quote) rate.0 (env.format_rfc3339 rate.1) p.ttl
    pure rate

  -- `if p.cache == nil`
  abbrev pub if_cache : Bool → Action S Rate → Action S Rate → Action S Rate
  if_cache true with_cache without = with_cache
  if_cache false with_cache without = without

  -- `CachedRatesProviderDecorator.GetRate`
  unfoldable pub cached_get_rate : CachedRatesProviderDecorator → RatesProvider S → RatesProvider S
  cached_get_rate p inner base quote =
      let with_cache : Action S Rate = hmget_at (cache_key p base quote) >>= λ vals.
      hit_or (cached_rate vals) (fetch_and_store p inner base quote) in
      if_cache p.has_cache with_cache (inner base quote)
