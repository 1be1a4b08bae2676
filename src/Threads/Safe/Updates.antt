-- ===== src/Threads/Safe/Updates.antt =====
-- `ProcessUpdate` as a thread.
use exchange_rate_quote_serv.Prelude.{Text}
use exchange_rate_quote_serv.Errors.{Result, ok, err}
use exchange_rate_quote_serv.Currency.{normalize_pair, validate_pair}
use exchange_rate_quote_serv.Repository.Table.{Table}
use exchange_rate_quote_serv.World.{Env}
use exchange_rate_quote_serv.Service.Cache.{QuoteService}
use exchange_rate_quote_serv.Threads.Program.{Program}
use exchange_rate_quote_serv.Threads.Operations.{
  RatesProgram, or_complete, fetch_thread, process_thread,
}
use exchange_rate_quote_serv.Threads.Ensures.{
  IsSafe, IsSafe-Ensures, attempt-Ensures, done-IsSafe, lift-Ensures, bind-IsSafe,
}
use exchange_rate_quote_serv.Threads.Safe.Calls.{
  complete_failure-IsSafe, mark_running-IsSafe, mark_success-Ensures, cache_set_latest-IsSafe,
}

module _ {S F : Type 0} (env : Env S F) where
  module _ (svc : QuoteService) where
    complete-IsSafe :
        {A B : Type 0} (id : Text) (r : Result A) (t : Table) {k : A → Program S B}
        → ((a : A) → IsSafe env t (k a))
        → IsSafe env t (or_complete env svc id r k)
    complete-IsSafe id (ok a) t h = h a
    complete-IsSafe id (err x) t h =
        bind-IsSafe env (IsSafe-Ensures env (complete_failure-IsSafe env id x t))
          (λ _ _ _. done-IsSafe env _)

    module _ (fetch : RatesProgram S)
        (quiet : (b q : Text) (t : Table) → IsSafe env t (fetch b q)) where
      fetch-IsSafe : (id b q : Text) (t : Table) → IsSafe env t (fetch_thread env svc fetch id b q)
      fetch-IsSafe id b q t =
          bind-IsSafe env (IsSafe-Ensures env (mark_running-IsSafe env id t)) λ t1 _ _.
            bind-IsSafe env (attempt-Ensures env (quiet b q t1)) λ t2 r _.
              complete-IsSafe id r t2 λ rate.
                bind-IsSafe env (mark_success-Ensures env id rate.0 t2)
                  λ t3 _ has. cache_set_latest-IsSafe env svc b q rate.0 rate.1 t3 has

      pub process_thread-IsSafe :
          (id b q : Text) (t : Table) → IsSafe env t (process_thread env svc fetch id b q)
      unfolding process_thread
      process_thread-IsSafe id b q t =
          bind-IsSafe env (lift-Ensures env (normalize_pair env.upper b q)) λ t1 p _.
            complete-IsSafe id (validate_pair env.upper p.0 p.1) t1
              (λ _. fetch-IsSafe id p.0 p.1 t1)
