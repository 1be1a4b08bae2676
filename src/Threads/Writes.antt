-- ===== src/Threads/Writes.antt =====
-- What one call of a thread writes into Redis.
use exchange_rate_quote_serv.Prelude.{ℕ, Text, ◌≡◌}
use exchange_rate_quote_serv.Repository.Table.{Table}
use exchange_rate_quote_serv.Repository.Prices.{HasPrice}
use exchange_rate_quote_serv.World.{Env}
use exchange_rate_quote_serv.Provider.Cached.{CachedRatesProviderDecorator, cache_key}
use exchange_rate_quote_serv.Service.Cache.{latest_cache_key}

module _ {S F : Type 0} (env : Env S F) where
  -- The content is `s` before the call and `s'` behind it: nothing is written, or a rate under a
  -- key of a provider, or a price of the table under the key of the latest price of a pair.
  pub data Writes (t : Table) (s s' : S) : Type 0 where
    nothing : s' ≡ s → Writes t s s'
    rate_written :
        (p : CachedRatesProviderDecorator) (base quote price ts : Text) (tick ttl : ℕ)
        → s' ≡ (env.hset_expire tick (cache_key p base quote) price ts ttl s).1
        → Writes t s s'
    latest_written :
        (base quote price ts : Text) (tick ttl : ℕ)
        → HasPrice env.pg price t
        → s' ≡ (env.hset_expire tick (latest_cache_key base quote) price ts ttl s).1
        → Writes t s s'
