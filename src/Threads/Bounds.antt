-- ===== src/Threads/Bounds.antt =====
-- The calls of each operation.
use exchange_rate_quote_serv.Prelude.{ℕ, Text, Bool, true, false, Option, none, some, ◌+◌, arith}
use exchange_rate_quote_serv.Errors.{Error, Result, ok, err}
use exchange_rate_quote_serv.Currency.{parse_pair, normalize_pair, validate_pair}
use exchange_rate_quote_serv.Repository.Table.{Quote}
use exchange_rate_quote_serv.World.{Env, ask}
use exchange_rate_quote_serv.Service.Cache.{
  QuoteService, cache_get_latest, cache_set_latest, cache_set_latest_from_quote,
}
use exchange_rate_quote_serv.Service.Operations.{
  TaskEnqueuer, service_mark_failed, service_mark_running, complete_failure, repo_create_update,
  repo_mark_success, repo_get_by_id, repo_get_latest_success,
}
use exchange_rate_quote_serv.Threads.Program.{Program}
use exchange_rate_quote_serv.Threads.Operations.{
  RatesProgram, failed_enqueue_thread, enqueue_thread, enqueue_new, request_thread,
  or_not_found_thread, result_thread, rows_thread, hit_or_rows, latest_thread, or_complete,
  fetch_thread, process_thread,
}
use exchange_rate_quote_serv.Threads.Ends.{
  EndsIn, more_EndsIn, bind-EndsIn, attempt-EndsIn, or_error-EndsIn, done-EndsIn, atom-EndsIn,
}

module _ {S F : Type 0} (env : Env S F) where
  failed-EndsIn : (id : Text) (r : Result (Unit {0})) → EndsIn 1 (failed_enqueue_thread env id r)
  failed-EndsIn id (ok _) = done-EndsIn 1 _
  failed-EndsIn id (err _) =
      bind-EndsIn (atom-EndsIn (service_mark_failed env id _)) (λ _. done-EndsIn 0 _)

  module _ (enqueuer : TaskEnqueuer S) where
    enqueue-EndsIn : (id b q : Text) → EndsIn 2 (enqueue_thread env enqueuer id b q)
    enqueue-EndsIn id b q =
        bind-EndsIn (attempt-EndsIn (atom-EndsIn (enqueuer _))) (failed-EndsIn id)

    new-EndsIn : (fresh : Bool) (id b q : Text) → EndsIn 2 (enqueue_new env enqueuer fresh id b q)
    new-EndsIn true id b q = bind-EndsIn (enqueue-EndsIn id b q) (λ _. done-EndsIn 0 _)
    new-EndsIn false id b q = done-EndsIn 2 _

    pub request_thread-EndsIn : (pair : Text) → EndsIn 4 (request_thread env enqueuer pair)
    unfolding request_thread
    request_thread-EndsIn pair = bind-EndsIn (done-EndsIn 0 (parse_pair env.upper pair)) λ p.
        bind-EndsIn (done-EndsIn 0 (validate_pair env.upper p.0 p.1)) λ _.
          bind-EndsIn (atom-EndsIn (ask env.new_uuid)) λ uid.
            bind-EndsIn
              (or_error-EndsIn Error.internal (atom-EndsIn (repo_create_update env p.0 p.1 uid)))
              λ id. new-EndsIn _ id p.0 p.1

  or_not_found-EndsIn : (o : Option Quote) → EndsIn 0 (or_not_found_thread env o)
  or_not_found-EndsIn none = done-EndsIn 0 _
  or_not_found-EndsIn (some q) = done-EndsIn 0 _

  pub result_thread-EndsIn : (id : Text) → EndsIn 1 (result_thread env id)
  unfolding result_thread
  result_thread-EndsIn id = bind-EndsIn (done-EndsIn 0 _) λ _.
      bind-EndsIn (or_error-EndsIn Error.internal (atom-EndsIn (repo_get_by_id env id)))
        λ found. bind-EndsIn (or_not_found-EndsIn found) (λ _. done-EndsIn 0 _)

  module _ (svc : QuoteService) where
    rows-EndsIn : (b q : Text) → EndsIn 2 (rows_thread env svc b q)
    rows-EndsIn b q =
        bind-EndsIn (or_error-EndsIn Error.internal (atom-EndsIn (repo_get_latest_success env b q)))
          λ found. bind-EndsIn (or_not_found-EndsIn found) λ r.
            bind-EndsIn (atom-EndsIn (cache_set_latest_from_quote env svc r)) (λ _. done-EndsIn 0 _)

    hit-EndsIn : (o : Option Quote) (b q : Text) → EndsIn 2 (hit_or_rows env svc o b q)
    hit-EndsIn none b q = rows-EndsIn b q
    hit-EndsIn (some r) b q = done-EndsIn 2 _

    pub latest_thread-EndsIn : (b q : Text) → EndsIn 3 (latest_thread env svc b q)
    unfolding latest_thread
    latest_thread-EndsIn b q = bind-EndsIn (done-EndsIn 0 (normalize_pair env.upper b q)) λ p.
        bind-EndsIn (done-EndsIn 0 (validate_pair env.upper p.0 p.1)) λ _.
          bind-EndsIn (atom-EndsIn (cache_get_latest env svc p.0 p.1)) λ o. hit-EndsIn o p.0 p.1

    complete-EndsIn :
        {A B : Type 0} (n : ℕ) (id : Text) (r : Result A) {k : A → Program S B}
        → ((a : A) → EndsIn (1 + n) (k a))
        → EndsIn (1 + n) (or_complete env svc id r k)
    complete-EndsIn n id (ok a) h = h a
    complete-EndsIn n id (err x) h =
        bind-EndsIn (atom-EndsIn (complete_failure env id x)) (λ _. done-EndsIn n _)

    module _ (k : ℕ) (fetch : RatesProgram S) (bound : (b q : Text) → EndsIn k (fetch b q)) where
      fetch-EndsIn : (id b q : Text) → EndsIn (1 + (k + 2)) (fetch_thread env svc fetch id b q)
      fetch-EndsIn id b q = bind-EndsIn (atom-EndsIn (service_mark_running env id)) λ _.
          bind-EndsIn (attempt-EndsIn (bound b q)) λ r. complete-EndsIn 1 id r λ rate.
            bind-EndsIn (atom-EndsIn (repo_mark_success env id rate.0))
              λ _. atom-EndsIn (cache_set_latest env svc b q rate.0 rate.1)

      pub process_thread-EndsIn :
          (id b q : Text) → EndsIn (k + 3) (process_thread env svc fetch id b q)
      unfolding process_thread
      process_thread-EndsIn id b q = more_EndsIn (k + 3) (ground arith) (
          bind-EndsIn (done-EndsIn 0 (normalize_pair env.upper b q)) λ p.
            complete-EndsIn (k + 2) id (validate_pair env.upper p.0 p.1)
              (λ _. fetch-EndsIn id p.0 p.1))
