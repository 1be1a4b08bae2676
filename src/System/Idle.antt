-- ===== src/System/Idle.antt =====
-- `ProcessUpdate` and the queue.
use exchange_rate_quote_serv.Prelude.{Text, ◌≡◌, inl, inr, arith}
use exchange_rate_quote_serv.Errors.{Result-cases}
use exchange_rate_quote_serv.Currency.{normalize_pair}
use exchange_rate_quote_serv.World.{Env, World}
use exchange_rate_quote_serv.Provider.Http.{RatesProvider}
use exchange_rate_quote_serv.Provider.Quiet.{IsQuiet}
use exchange_rate_quote_serv.Service.Cache.{QuoteService, cache_set_latest}
use exchange_rate_quote_serv.Service.Operations.{
  service_mark_running, complete_failure, fetch_and_complete, process_update,
}
use exchange_rate_quote_serv.System.Processing.{started, fetched}

module _ {S F : Type 0} (env : Env S F) (svc : QuoteService) (provider : RatesProvider S)
    (quiet : IsQuiet provider) where
  fetch_and_complete_tasks :
      (id b q : Text) (w : World S)
      → (fetch_and_complete env svc provider id b q w).1.tasks ≡ w.tasks
  unfolding fetch_and_complete service_mark_running complete_failure cache_set_latest
  fetch_and_complete_tasks id b q w =
      let kept = (quiet b q).tasks (started env svc provider id w) in
      elim (Result-cases (fetched env svc provider id b q w).0) [
        | inl (rate, given) ↦ ground (arith, kept)
        | inr (e, failed) ↦ ground (arith, kept)
      ]

  pub process_update_tasks :
      (id b q : Text) (w : World S) → (process_update env svc provider id b q w).1.tasks ≡ w.tasks
  unfolding process_update complete_failure
  process_update_tasks id b q w = elim (Result-cases (normalize_pair env.upper b q)) [
    | inr (x, bad) ↦ ground arith
    | inl (p, normal) ↦ ground (arith, fetch_and_complete_tasks id p.0 p.1 w)
  ]
