-- ===== src/Threads/Rates/Cached.antt =====
-- cached.go as a thread.
use exchange_rate_quote_serv.Prelude.{
  ℕ, Text, Bool, true, false, Option, none, some, ◌+◌, refl, arith, ◌≡◌,
}
use exchange_rate_quote_serv.World.{Env, World, Action}
use exchange_rate_quote_serv.Repository.Table.{Table}
use exchange_rate_quote_serv.Provider.Http.{Rate, RatesProvider}
use exchange_rate_quote_serv.Provider.Cached.{
  CachedRatesProviderDecorator, cached_get_rate, cached_rate, fetch_and_store, hit_or, if_cache,
  cache_key, hmget_at, hset_expire_at,
}
use exchange_rate_quote_serv.Provider.Quiet.{IsQuiet}
use exchange_rate_quote_serv.Threads.Program.{Program, atom}
use exchange_rate_quote_serv.Threads.Operations.{RatesProgram}
use exchange_rate_quote_serv.Threads.Alone.{
  IsAlone, bind-IsAlone, atom-IsAlone, pure-IsAlone, own-IsAlone,
}
use exchange_rate_quote_serv.Threads.Keeps.{quiet_keeps, quiet_writes}
use exchange_rate_quote_serv.Threads.Ensures.{
  IsSafe, IsSafe-Ensures, bind-IsSafe, atom-IsSafe, done-IsSafe,
}
use exchange_rate_quote_serv.Threads.Writes.{rate_written}
use exchange_rate_quote_serv.Threads.Idle.{IsIdle, bind-IsIdle, done-IsIdle, atom-IsIdle}
use exchange_rate_quote_serv.Threads.Ends.{
  EndsIn, bind-EndsIn, done-EndsIn, atom-EndsIn, more_EndsIn,
}
use exchange_rate_quote_serv.Threads.Providers.{
  provider_of, one_call, store_thread, hit_or_thread, if_cache_thread, cached_thread,
}

-- A provider that leaves Redis alone.
abbrev pub IsApart : {S : Type 0} → RatesProvider S → Type 0
IsApart {S = S} p = (b q : Text) (w : World S) → (p b q w).1.cache ≡ w.cache

module _ {S F : Type 0} (env : Env S F) where
  pub one_call-IsSafe :
      (p : RatesProvider S)
      → IsQuiet p
      → IsApart p
      → (b q : Text) (t : Table) → IsSafe env t (one_call p b q)
  one_call-IsSafe p quiet apart b q t = atom-IsSafe env (p b q) t λ w reach sound.
      quiet_keeps env ((quiet b q).rows w) ((quiet b q).tasks w) (apart b q w) sound

  module _ (p : CachedRatesProviderDecorator) (inner : RatesProgram S) where
    store-IsAlone :
        (b q : Text)
        → IsAlone (store_thread env p inner b q) (fetch_and_store env p (provider_of inner) b q)
    store-IsAlone b q = bind-IsAlone (own-IsAlone (inner b q)) λ rate.
        bind-IsAlone (atom-IsAlone (hset_expire_at env _ rate.0 (env.format_rfc3339 rate.1) p.ttl))
          λ _. pure-IsAlone rate

    hit_or-IsAlone :
        (o : Option Rate) (b q : Text)
        → IsAlone
            (hit_or_thread env o (store_thread env p inner b q))
            (hit_or env o (fetch_and_store env p (provider_of inner) b q))
    hit_or-IsAlone none b q = store-IsAlone b q
    hit_or-IsAlone (some rate) b q = pure-IsAlone rate

    if_cache-IsAlone :
        (on : Bool) {with_cache without : Program S Rate} {with_cache' without' : Action S Rate}
        → IsAlone with_cache with_cache'
        → IsAlone without without'
        → IsAlone (if_cache_thread env on with_cache without) (if_cache env on with_cache' without')
    if_cache-IsAlone true h k = h
    if_cache-IsAlone false h k = k

    pub cached_thread-IsAlone :
        (b q : Text)
        → IsAlone (cached_thread env p inner b q) (cached_get_rate env p (provider_of inner) b q)
    unfolding cached_thread cached_get_rate
    cached_thread-IsAlone b q =
        if_cache-IsAlone p.has_cache
          (bind-IsAlone (atom-IsAlone (hmget_at env (cache_key p b q)))
            λ vals. hit_or-IsAlone (cached_rate env vals) b q)
          (own-IsAlone (inner b q))

    module _ (safe : (b q : Text) (t : Table) → IsSafe env t (inner b q)) where
      hset-IsSafe :
          (b q : Text) (rate : Rate) (t : Table)
          → IsSafe env t
              (atom (hset_expire_at env (cache_key p b q) rate.0 (env.format_rfc3339 rate.1) p.ttl))
      hset-IsSafe b q r t = atom-IsSafe env _ t λ w reach sound.
          quiet_writes env refl refl
            (rate_written p b q r.0 (env.format_rfc3339 r.1) w.tick p.ttl refl) sound

      store-IsSafe : (b q : Text) (t : Table) → IsSafe env t (store_thread env p inner b q)
      store-IsSafe b q t = bind-IsSafe env (IsSafe-Ensures env (safe b q t)) λ t' rate _.
          bind-IsSafe env (IsSafe-Ensures env (hset-IsSafe b q rate t'))
            (λ _ _ _. done-IsSafe env _)

      hit_or-IsSafe :
          (o : Option Rate) (b q : Text) (t : Table)
          → IsSafe env t (hit_or_thread env o (store_thread env p inner b q))
      hit_or-IsSafe none b q t = store-IsSafe b q t
      hit_or-IsSafe (some rate) b q t = done-IsSafe env _

      look-IsSafe : (b q : Text) (t : Table) → IsSafe env t (atom (hmget_at env (cache_key p b q)))
      look-IsSafe b q t = atom-IsSafe env _ t λ w reach sound. quiet_keeps env refl refl refl sound

      if_cache-IsSafe :
          (on : Bool) (t : Table) {with_cache without : Program S Rate}
          → IsSafe env t with_cache
          → IsSafe env t without
          → IsSafe env t (if_cache_thread env on with_cache without)
      if_cache-IsSafe true t h k = h
      if_cache-IsSafe false t h k = k

      pub cached_thread-IsSafe :
          (b q : Text) (t : Table) → IsSafe env t (cached_thread env p inner b q)
      unfolding cached_thread
      cached_thread-IsSafe b q t =
          if_cache-IsSafe p.has_cache t
            (bind-IsSafe env (IsSafe-Ensures env (look-IsSafe b q t))
              (λ t' vals _. hit_or-IsSafe (cached_rate env vals) b q t'))
            (safe b q t)

    module _ (idle : (b q : Text) → IsIdle (inner b q)) where
      hit_or-IsIdle :
          (o : Option Rate) (b q : Text)
          → IsIdle (hit_or_thread env o (store_thread env p inner b q))
      hit_or-IsIdle none b q = bind-IsIdle (idle b q) λ rate.
          bind-IsIdle
            (atom-IsIdle
              (hset_expire_at env (cache_key p b q) rate.0 (env.format_rfc3339 rate.1) p.ttl)
              (λ w. (refl, refl)))
            (λ _. done-IsIdle _)
      hit_or-IsIdle (some rate) b q = done-IsIdle _

      if_cache-IsIdle :
          (on : Bool) {with_cache without : Program S Rate}
          → IsIdle with_cache
          → IsIdle without
          → IsIdle (if_cache_thread env on with_cache without)
      if_cache-IsIdle true h k = h
      if_cache-IsIdle false h k = k

      pub cached_thread-IsIdle : (b q : Text) → IsIdle (cached_thread env p inner b q)
      unfolding cached_thread
      cached_thread-IsIdle b q =
          if_cache-IsIdle p.has_cache
            (bind-IsIdle (atom-IsIdle (hmget_at env (cache_key p b q)) (λ w. (refl, refl)))
              (λ vals. hit_or-IsIdle (cached_rate env vals) b q))
            (idle b q)

    module _ (k : ℕ) (bound : (b q : Text) → EndsIn k (inner b q)) where
      hit_or-EndsIn :
          (o : Option Rate) (b q : Text)
          → EndsIn (k + (1 + 0)) (hit_or_thread env o (store_thread env p inner b q))
      hit_or-EndsIn none b q = bind-EndsIn (bound b q) λ rate.
          bind-EndsIn (atom-EndsIn (hset_expire_at env _ rate.0 (env.format_rfc3339 rate.1) p.ttl))
            (λ _. done-EndsIn 0 _)
      hit_or-EndsIn (some rate) b q = done-EndsIn _ _

      if_cache-EndsIn :
          (on : Bool) (n : ℕ) {with_cache without : Program S Rate}
          → EndsIn n with_cache
          → EndsIn n without
          → EndsIn n (if_cache_thread env on with_cache without)
      if_cache-EndsIn true n h h' = h
      if_cache-EndsIn false n h h' = h'

      pub cached_thread-EndsIn : (b q : Text) → EndsIn (k + 2) (cached_thread env p inner b q)
      unfolding cached_thread
      cached_thread-EndsIn b q =
          if_cache-EndsIn p.has_cache (k + 2)
            (more_EndsIn (k + 2) (ground arith) (
              bind-EndsIn (atom-EndsIn (hmget_at env (cache_key p b q)))
                (λ vals. hit_or-EndsIn (cached_rate env vals) b q)))
            (more_EndsIn (k + 2) (ground arith) (bound b q))
