-- ===== src/Provider/Hits.antt =====
-- cached_provider.go: the branches of `GetRate`.
use exchange_rate_quote_serv.Prelude.{
  suc, Text, codes, ◌++◌, true, false, [], ◌∷◌, List, Option, none, some, ◌≡◌, inl, inr, arith,
  Bool-cases, Option-cases,
}
use exchange_rate_quote_serv.Errors.{Error, Result, ok, err, Result-cases}
use exchange_rate_quote_serv.Repository.Table.{Time}
use exchange_rate_quote_serv.World.{Env, World, Value, str, advance}
use exchange_rate_quote_serv.Provider.Http.{Rate, RatesProvider}
use exchange_rate_quote_serv.Provider.Cached.{
  CachedRatesProviderDecorator, cache_key, cached_rate, cached_get_rate,
}

module _ {S F : Type 0} (env : Env S F) (p : CachedRatesProviderDecorator)
    (inner : RatesProvider S) where
  -- The key of a pair, with the provider's name.
  abbrev pub key_text : Text → Text → Text
  key_text base quote =
      codes "provider_cache:"
      ++ (p.provider_name ++ (codes ":{" ++ (base ++ (codes ":" ++ (quote ++ codes "}")))))

  -- The reply of Redis for the key: the two fields as texts, of which the second is a time.
  abbrev pub IsHit : Text → Text → World S → Rate → Type 0
  IsHit base quote w rate =
      (ts : Text) × (env.hmget w.tick (key_text base quote) w.cache
        ≡ some (str rate.0 ∷ str ts ∷ []))
      × (env.parse_rfc3339 ts ≡ some rate.1)

  -- The world behind the storing of a rate.
  abbrev pub stored : Text → Text → Rate → World S → World S
  stored base quote rate w = record w {
    cache =
        (env.hset_expire w.tick (key_text base quote) rate.0 (env.format_rfc3339 rate.1) p.ttl
          w.cache).1;
    tick = suc w.tick;
  }

  pub data CachedOutcome (base quote : Text) (w : World S) (done : Result Rate × World S)
      : Type 0 where
    no_cache : p.has_cache ≡ false → done ≡ inner base quote w → CachedOutcome base quote w done
    hit :
        (rate : Rate)
        → p.has_cache ≡ true
        → IsHit base quote w rate
        → done ≡ (ok rate, advance w)
        → CachedOutcome base quote w done
    fetched :
        (rate : Rate) (w' : World S)
        → p.has_cache ≡ true
        → ((hit : Rate) → ¬ IsHit base quote w hit)
        → inner base quote (advance w) ≡ (ok rate, w')
        → done ≡ (ok rate, stored base quote rate w')
        → CachedOutcome base quote w done
    failed :
        (e : Error)
        → p.has_cache ≡ true
        → ((hit : Rate) → ¬ IsHit base quote w hit)
        → (inner base quote (advance w)).0 ≡ err e
        → done ≡ inner base quote (advance w)
        → CachedOutcome base quote w done

  abbrev looked_up : Text → Text → World S → Option Rate
  looked_up base quote w = cached_rate env (env.hmget w.tick (cache_key p base quote) w.cache)

  timed :
      (price ts : Text) (rate : Rate)
      → cached_rate env (some (str price ∷ str ts ∷ [])) ≡ some rate
      → (price ≡ rate.0) × (env.parse_rfc3339 ts ≡ some rate.1)
  unfolding cached_rate
  timed price ts rate h = ground arith

  cached_rate_inverse :
      (reply : Option (List Value)) (rate : Rate)
      → cached_rate env reply ≡ some rate
      → (ts : Text) × (reply ≡ some (str rate.0 ∷ str ts ∷ []))
        × (env.parse_rfc3339 ts ≡ some rate.1)
  unfolding cached_rate
  cached_rate_inverse (some (str price ∷ str ts ∷ [])) rate h =
      let (same, read) = timed price ts rate h in (ts, ground arith, read)
  cached_rate_inverse none rate h = absurd (ground arith)
  cached_rate_inverse (some []) rate h = absurd (ground arith)
  cached_rate_inverse (some (a ∷ [])) rate h = absurd (ground arith)
  cached_rate_inverse (some (a ∷ b ∷ c ∷ xs)) rate h = absurd (ground arith)
  cached_rate_inverse (some (a ∷ b ∷ [])) rate h = absurd (ground arith)

  looked_up-IsHit :
      (base quote : Text) (w : World S) (rate : Rate)
      → looked_up base quote w ≡ some rate
      → IsHit base quote w rate
  unfolding cached_rate cache_key
  looked_up-IsHit base quote w rate h =
      cached_rate_inverse (env.hmget w.tick (cache_key p base quote) w.cache) rate h

  IsHit-looked_up :
      (base quote : Text) (w : World S) (rate : Rate)
      → IsHit base quote w rate
      → looked_up base quote w ≡ some rate
  unfolding cached_rate cache_key
  IsHit-looked_up base quote w rate (ts, there, read) = ground arith

  missed :
      (base quote : Text) (w : World S)
      → looked_up base quote w ≡ none
      → (rate : Rate) → ¬ IsHit base quote w rate
  missed base quote w miss rate h =
      let there = IsHit-looked_up base quote w rate h in absurd (ground arith)

  -- Without a cache the decorator is the provider. With one, Redis is asked under the key of the
  -- provider's name and the pair. Two texts of which the second is a time are a hit, which is
  -- returned, and the provider is not asked; otherwise what the provider gives is returned and
  -- stored under that key with its printed time; and an error of the provider is returned and not
  -- stored.
  pub cached_get_rate-CachedOutcome :
      (base quote : Text) (w : World S)
      → CachedOutcome base quote w (cached_get_rate env p inner base quote w)
  unfolding cached_get_rate cache_key
  cached_get_rate-CachedOutcome base quote w = elim (Bool-cases p.has_cache) [
    | inr off ↦ no_cache off (ground arith)
    | inl on ↦ elim (Option-cases (looked_up base quote w)) [
      | inr (rate, there) ↦ hit rate on (looked_up-IsHit base quote w rate there) (ground arith)
      | inl miss ↦ elim (Result-cases (inner base quote (advance w)).0) [
        | inl (rate, given) ↦
            let w' = (inner base quote (advance w)).1 in
            fetched rate w' on (missed base quote w miss) (λ i. (given i, w')) (ground arith)
        | inr (e, lost) ↦ failed e on (missed base quote w miss) lost (ground arith)
      ]
    ]
  ]

  -- As long as Redis has the two fields that the decorator has stored of a rate, and the stored
  -- time parses, the decorator returns the rate's price with that time, and asks no provider.
  pub cached_get_rate-again :
      (base quote : Text) (rate : Rate) (t : Time) (w : World S)
      → p.has_cache ≡ true
      → env.hmget w.tick (cache_key p base quote) w.cache
        ≡ some (str rate.0 ∷ str (env.format_rfc3339 rate.1) ∷ [])
      → env.parse_rfc3339 (env.format_rfc3339 rate.1) ≡ some t
      → cached_get_rate env p inner base quote w ≡ (ok (rate.0, t), advance w)
  unfolding cached_get_rate cached_rate
  cached_get_rate-again base quote rate t w on kept read = ground arith
