-- ===== src/Threads/Rates/Configured.antt =====
-- `newRateProvider` of cmd/app/app.go as a thread.
use exchange_rate_quote_serv.Prelude.{
  ℕ, Text, codes, Bool, true, false, not, ◌&&◌, List, [], ◌∷◌, ◌++◌, ◌≡◌, ◌≤◌, ◌*◌, refl, sym, ap,
  ◌∙◌, arith, map, All, All-append, length,
}
use mathlib.Core.Path.{subst}
use exchange_rate_quote_serv.Errors.{ok}
use exchange_rate_quote_serv.World.{Env}
use exchange_rate_quote_serv.Config.{Config, is_empty}
use exchange_rate_quote_serv.Repository.Table.{Table}
use exchange_rate_quote_serv.Provider.Http.{
  RatesProvider, ExchangeRateHostProvider, FrankfurterProvider, er_host_get_rate,
  frankfurter_get_rate,
}
use exchange_rate_quote_serv.Provider.Facade.{facade_get_rate}
use exchange_rate_quote_serv.Provider.Quiet.{
  IsQuiet, er_host_get_rate-Quiet, frankfurter_get_rate-Quiet,
}
use exchange_rate_quote_serv.App.Providers.{
  cached, host_providers, frankfurter_providers, combine, new_rate_provider,
}
use exchange_rate_quote_serv.Threads.Program.{run}
use exchange_rate_quote_serv.Threads.Operations.{RatesProgram}
use exchange_rate_quote_serv.Threads.Ensures.{IsSafe}
use exchange_rate_quote_serv.Threads.Idle.{IsIdle, atom-IsIdle}
use exchange_rate_quote_serv.Threads.Ends.{EndsIn, more_EndsIn, atom-EndsIn}
use exchange_rate_quote_serv.Threads.Providers.{
  one_call, provider_of, decorator, host_api, frankfurter_api, cached_call, host_threads,
  frankfurter_threads, provider_threads, combine_threads, facade_thread, new_rate_thread,
}
use exchange_rate_quote_serv.Threads.Rates.Facade.{
  facade_thread-alone, facade_thread-EndsIn, facade_thread-IsSafe, facade_thread-IsIdle,
}
use exchange_rate_quote_serv.Threads.Rates.Cached.{
  IsApart, one_call-IsSafe, cached_thread-IsAlone, cached_thread-IsSafe, cached_thread-EndsIn,
  cached_thread-IsIdle,
}

module _ {S F : Type 0} (env : Env S F) where
  -- A provider's thread: alone it is the provider `p`, each of its calls leaves the
  -- table and the queue as they are, beside others it is safe, and it makes `n` calls at most.
  pub record IsThreadOf (n : ℕ) (f : RatesProgram S) (p : RatesProvider S) : Type 0 where
    pub alone : provider_of f ≡ p
    pub safe : (b q : Text) (t : Table) → IsSafe env t (f b q)
    pub idle : (b q : Text) → IsIdle (f b q)
    pub ends : (b q : Text) → EndsIn n (f b q)

  -- What is wanted of each provider behind the facade.
  abbrev AreThreads : ℕ → List (RatesProgram S) → Type 0
  AreThreads n ps = All (λ f. IsThreadOf n f (provider_of f)) ps

  IsSafe-All :
      (n : ℕ) (ps : List (RatesProgram S))
      → AreThreads n ps
      → All (λ f. (b q : Text) (t : Table) → IsSafe env t (f b q)) ps
  IsSafe-All n [] h = tt
  IsSafe-All n (p ∷ ps) (h, hs) = (h.safe, IsSafe-All n ps hs)

  IsIdle-All :
      (n : ℕ) (ps : List (RatesProgram S))
      → AreThreads n ps
      → All (λ f. (b q : Text) → IsIdle (f b q)) ps
  IsIdle-All n [] h = tt
  IsIdle-All n (p ∷ ps) (h, hs) = (h.idle, IsIdle-All n ps hs)

  EndsIn-All :
      (n : ℕ) (ps : List (RatesProgram S))
      → AreThreads n ps
      → All (λ f. (b q : Text) → EndsIn n (f b q)) ps
  EndsIn-All n [] h = tt
  EndsIn-All n (p ∷ ps) (h, hs) = (h.ends, EndsIn-All n ps hs)

  facade-IsThreadOf :
      (n : ℕ) (ps : List (RatesProgram S))
      → AreThreads n ps
      → IsThreadOf (n * length ps) (facade_thread ps []) (facade_get_rate (map provider_of ps))
  unfolding facade_get_rate
  facade-IsThreadOf n ps h = record {
    alone = λ i b q w. facade_thread-alone ps [] b q w i;
    safe = facade_thread-IsSafe env ps (IsSafe-All n ps h) [];
    idle = facade_thread-IsIdle ps (IsIdle-All n ps h) [];
    ends = facade_thread-EndsIn n ps (EndsIn-All n ps h) [];
  }

  er_host-IsApart : (p : ExchangeRateHostProvider) → IsApart (er_host_get_rate env p)
  unfolding er_host_get_rate
  er_host-IsApart p b q w = ground arith

  frankfurter-IsApart : (p : FrankfurterProvider) → IsApart (frankfurter_get_rate env p)
  unfolding frankfurter_get_rate
  frankfurter-IsApart p b q w = ground arith

  module _ (has_cache : Bool) (cfg : Config) where
    combined :
        (n : ℕ) (ps : List (RatesProgram S)) (f : RatesProgram S)
        → length ps ≤ 2
        → AreThreads n ps
        → combine_threads env has_cache cfg ps ≡ ok f
        → (p : RatesProvider S) × (combine env has_cache cfg (map provider_of ps) ≡ ok p)
          × IsThreadOf (n * 2) f p
    combined n [] f le h e = absurd (ground arith)
    combined n (x ∷ []) f le (h, _) e =
        let same : x ≡ f = ground arith in
        (
          provider_of x,
          refl,
          subst (λ g. IsThreadOf (n * 2) g (provider_of x)) same
              (record {
                alone = h.alone;
                safe = h.safe;
                idle = h.idle;
                ends = λ b q. more_EndsIn (n * 2) (ground arith) (h.ends b q);
              }),
        )
    combined n (x ∷ y ∷ ps) f le h e =
        let same : facade_thread (x ∷ y ∷ ps) [] ≡ f = ground arith in
        let all_of = facade-IsThreadOf n (x ∷ y ∷ ps) h in
        (
          facade_get_rate (map provider_of (x ∷ y ∷ ps)),
          refl,
          subst (λ g. IsThreadOf (n * 2) g (facade_get_rate (map provider_of (x ∷ y ∷ ps)))) same
              (record {
                alone = all_of.alone;
                safe = all_of.safe;
                idle = all_of.idle;
                ends = λ b q. more_EndsIn (n * 2) (ground arith) (all_of.ends b q);
              }),
        )

    cached-IsThreadOf :
        (name : Text) (p : RatesProvider S)
        → IsQuiet p
        → IsApart p
        → IsThreadOf 3 (cached_call env has_cache cfg name p) (cached env has_cache cfg name p)
    unfolding run
    cached-IsThreadOf name p quiet apart =
        let d = decorator env has_cache cfg name in
        record {
          alone = λ i b q. (cached_thread-IsAlone env d (one_call p) b q).same i;
          safe = cached_thread-IsSafe env d (one_call p) (one_call-IsSafe env p quiet apart);
          idle =
              cached_thread-IsIdle env d (one_call p)
                (λ b q. atom-IsIdle (p b q) (λ w. ((quiet b q).rows w, (quiet b q).tasks w)));
          ends = cached_thread-EndsIn env d (one_call p) 1 (λ b q. atom-EndsIn (p b q));
        }

    own :
        (f : RatesProgram S) (p : RatesProvider S)
        → IsThreadOf 3 f p
        → IsThreadOf 3 f (provider_of f)
    own f p h = record { alone = refl; safe = h.safe; idle = h.idle; ends = h.ends }

    host-IsThreadOf :
        let name = codes "exchangerate_host" in
        let p = host_api env has_cache cfg in
        IsThreadOf 3 (cached_call env has_cache cfg name p) (cached env has_cache cfg name p)
    host-IsThreadOf = cached-IsThreadOf _ _ (er_host_get_rate-Quiet env _) (er_host-IsApart _)

    frankfurter-IsThreadOf :
        let name = codes "frankfurter" in
        let p = frankfurter_api env has_cache cfg in
        IsThreadOf 3 (cached_call env has_cache cfg name p) (cached env has_cache cfg name p)
    frankfurter-IsThreadOf =
        cached-IsThreadOf _ _ (frankfurter_get_rate-Quiet env _) (frankfurter-IsApart _)

    host-AreThreads : (on : Bool) → AreThreads 3 (host_threads env has_cache cfg on)
    host-AreThreads true = (own _ _ host-IsThreadOf, tt)
    host-AreThreads false = tt

    frankfurter-AreThreads : (on : Bool) → AreThreads 3 (frankfurter_threads env has_cache cfg on)
    frankfurter-AreThreads true = (own _ _ frankfurter-IsThreadOf, tt)
    frankfurter-AreThreads false = tt

    both_map :
        (h f : Bool)
        → map provider_of
            (host_threads env has_cache cfg h ++ frankfurter_threads env has_cache cfg f)
          ≡ host_providers env has_cache cfg h ++ frankfurter_providers env has_cache cfg f
    both_map true true i = host-IsThreadOf.alone i ∷ frankfurter-IsThreadOf.alone i ∷ []
    both_map true false i = host-IsThreadOf.alone i ∷ []
    both_map false true i = frankfurter-IsThreadOf.alone i ∷ []
    both_map false false i = []

    at_most_two :
        (h f : Bool)
        → length (host_threads env has_cache cfg h ++ frankfurter_threads env has_cache cfg f) ≤ 2
    at_most_two true true = ground arith
    at_most_two true false = ground arith
    at_most_two false true = ground arith
    at_most_two false false = ground arith

    -- The provider's thread that `newRateProvider` makes of a configuration is, alone, the
    -- provider that it makes. Each of its calls leaves the table and the queue as it finds them,
    -- beside other threads it keeps the table and the queue sound, and it makes six calls at
    -- most.
    pub new_rate_thread-IsThreadOf :
        (f : RatesProgram S)
        → new_rate_thread env has_cache cfg ≡ ok f
        → (p : RatesProvider S) × (new_rate_provider env has_cache cfg ≡ ok p) × IsThreadOf 6 f p
    unfolding new_rate_thread new_rate_provider
    new_rate_thread-IsThreadOf f e =
        let host =
          not (is_empty cfg.exchange_rate_host.base_url)
          && not (is_empty cfg.exchange_rate_host.api_key) in
        let frankfurter = not (is_empty cfg.frankfurter.base_url) in
        let (p, made, whole) =
          combined 3 (provider_threads env has_cache cfg) f (at_most_two host frankfurter)
            (All-append (λ f. IsThreadOf 3 f (provider_of f)) (host_threads env has_cache cfg host)
              (frankfurter_threads env has_cache cfg frankfurter) (host-AreThreads host)
              (frankfurter-AreThreads frankfurter))
            e in
        (p, ap (combine env has_cache cfg) (sym (both_map host frankfurter)) ∙ made, whole)
