-- ===== src/Service/Cache.antt =====
-- quote_service_cache.go: the latest price of each pair, in Redis.
use exchange_rate_quote_serv.Prelude.{
  ℕ, Text, codes, Bool, true, false, List, [], ◌∷◌, ◌++◌, Option, none, some,
}
use exchange_rate_quote_serv.Prelude.Int.{ℤ, seconds}
use exchange_rate_quote_serv.Repository.Table.{Time, Status, Quote}
use exchange_rate_quote_serv.World.{Env, Value, str, bytes, Action, pure, ◌>>=◌}
use exchange_rate_quote_serv.Provider.Cached.{hmget_at, hset_expire_at}

-- The fields of `QuoteService` that are not an interface: `has_cache` is `s.cache != nil`, and
-- the TTL is in nanoseconds.
pub record QuoteService : Type 0 where
  pub has_cache : Bool
  pub latest_price_ttl : ℕ

unfoldable pub new_quote_service : Bool → ℤ → QuoteService
new_quote_service has_cache ttl = record { has_cache = has_cache; latest_price_ttl = seconds ttl }

unfoldable pub latest_cache_key : Text → Text → Text
latest_cache_key base quote =
    codes "latest:" ++ (codes "{" ++ (base ++ (codes ":" ++ (quote ++ codes "}"))))

unfoldable pub as_string : Value → Option Text
as_string (str t) = some t
as_string (bytes t) = some t
as_string _ = none

-- The row that a cached price stands for: no id, and no time of request.
abbrev pub cached_quote : Text → Text → Text → Time → Quote
cached_quote base quote price t = record {
  id = [];
  base = base;
  quote = quote;
  price = some price;
  status = Status.success;
  error_msg = none;
  requested_at = 0;
  updated_at = some t;
}

module _ {S F : Type 0} (env : Env S F) (svc : QuoteService) where
  abbrev read_strings : Text → Text → Option Text → Option Text → Option Quote
  read_strings base quote (some price) (some ts) = elim (env.parse_rfc3339 ts) [
    | none ↦ none
    | some t ↦ some (cached_quote base quote price t)
  ]
  read_strings base quote _ _ = none

  -- A reply of two elements that are there, are strings, and end in a time.
  unfoldable pub read_latest : Text → Text → Option (List Value) → Option Quote
  unfolding as_string
  read_latest base quote (some (a ∷ b ∷ [])) = read_strings base quote (as_string a) (as_string b)
  read_latest base quote _ = none

  -- `cacheGetLatest`; `none` is a miss.
  unfoldable pub cache_get_latest : Text → Text → Action S (Option Quote)
  unfolding read_latest latest_cache_key
  cache_get_latest base quote =
      let look : Action S (Option Quote) =
        hmget_at env (latest_cache_key base quote) >>= λ vals. pure (read_latest base quote vals) in
      elim svc.has_cache [ true ↦ look | false ↦ pure none ]

  -- `cacheSetLatest`: a failure is logged only.
  unfoldable pub cache_set_latest : Text → Text → Text → Time → Action S (Unit {0})
  unfolding latest_cache_key
  cache_set_latest base quote rate t =
      let store : Action S (Unit {0}) =
        hset_expire_at env (latest_cache_key base quote) rate (env.format_rfc3339 t)
          svc.latest_price_ttl
        >>= λ _. pure tt in
      elim svc.has_cache [ true ↦ store | false ↦ pure tt ]

  abbrev set_present : Quote → Option Text → Option Time → Action S (Unit {0})
  set_present q (some price) (some t) = cache_set_latest q.base q.quote price t
  set_present q _ _ = pure tt

  -- `cacheSetLatestFromQuote`
  unfoldable pub cache_set_latest_from_quote : Quote → Action S (Unit {0})
  cache_set_latest_from_quote q = set_present q q.price q.updated_at
