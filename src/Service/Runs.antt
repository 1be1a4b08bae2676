-- ===== src/Service/Runs.antt =====
-- The operations of the service as steps of the table.
use exchange_rate_quote_serv.Prelude.{ℕ, Text, text_eq, Bool, true, false}
use exchange_rate_quote_serv.Errors.{Error, error_text, Result, ok, err}
use exchange_rate_quote_serv.Currency.{parse_pair, normalize_pair, validate_pair}
use exchange_rate_quote_serv.Repository.Table.{Time, Postgres}
use exchange_rate_quote_serv.Repository.Steps.{Reach, here, reach_trans}
use exchange_rate_quote_serv.Repository.Calls.{
  create_update-Reach, mark_running-Reach, mark_success-Reach, mark_failed-Reach,
}
use exchange_rate_quote_serv.World.{
  Env, World, UpdateQuotePayload, Action, pure, raise, lift, attempt, or_error, resume, ask, ◌>>=◌,
}
use exchange_rate_quote_serv.Provider.Http.{RatesProvider}
use exchange_rate_quote_serv.Service.Cache.{QuoteService, cache_get_latest, cache_set_latest}
use exchange_rate_quote_serv.Service.Operations.{
  TaskEnqueuer, requested, failed_enqueue, or_complete_failure, repo_create_update,
  repo_mark_success, service_mark_failed, service_mark_running, complete_failure,
  enqueue_update_task, request_quote_update, fetch_and_complete, process_update,
}

pub record Runs {S A : Type 0} (pg : Postgres) (m : Action S A) : Type 0 where
  pub run : (w : World S) → Reach pg w.rows (m w).1.rows

module _ {S : Type 0} (pg : Postgres) where
  after :
      {A B : Type 0} (f : A → Action S B) (r : Result A) (w w' : World S)
      → Reach pg w.rows w'.rows
      → ((a : A) → Runs pg (f a))
      → Reach pg w.rows (resume f r w').1.rows
  after f (ok a) w w' h k = reach_trans h ((k a).run w')
  after f (err e) w w' h k = h

  pub bind-Runs :
      {A B : Type 0} {m : Action S A} {f : A → Action S B}
      → Runs pg m
      → ((a : A) → Runs pg (f a))
      → Runs pg (m >>= f)
  bind-Runs {m = m} {f = f} h k = record { run = λ w. after f (m w).0 w (m w).1 (h.run w) k }

  pub pure-Runs : {A : Type 0} (a : A) → Runs pg (pure {S = S} a)
  pure-Runs a = record { run = λ w. here }

  raise-Runs : {A : Type 0} (e : Error) → Runs pg (raise {S = S} {A = A} e)
  raise-Runs e = record { run = λ w. here }

  pub if_Runs :
      {A : Type 0} {m n : Action S A} (b : Bool)
      → Runs pg m
      → Runs pg n
      → Runs pg (elim b [ true ↦ m | false ↦ n ])
  if_Runs true h k = h
  if_Runs false h k = k

  lift-Runs : {A : Type 0} (r : Result A) → Runs pg (lift {S = S} r)
  lift-Runs r = record { run = λ w. here }

  ask-Runs : {A : Type 0} (f : ℕ → A) → Runs pg (ask {S = S} f)
  ask-Runs f = record { run = λ w. here }

  attempt-Runs : {A : Type 0} {m : Action S A} → Runs pg m → Runs pg (attempt m)
  attempt-Runs h = record { run = h.run }

  or_error-Runs : {A : Type 0} {m : Action S A} (e : Error) → Runs pg m → Runs pg (or_error m e)
  or_error-Runs e h = record { run = h.run }

module _ {S F : Type 0} (env : Env S F) where
  repo_create_update-Runs : (b q id : Text) → Runs env.pg (repo_create_update env b q id)
  repo_create_update-Runs b q id = record {
    run = λ w. create_update-Reach env.pg (env.db_link w.tick) (env.db_now w.tick) b q id w.rows;
  }

  repo_mark_success-Runs : (id price : Text) → Runs env.pg (repo_mark_success env id price)
  repo_mark_success-Runs id price = record {
    run = λ w. mark_success-Reach env.pg (env.db_link w.tick) (env.db_now w.tick) id price w.rows;
  }

  service_mark_failed-Runs : (id reason : Text) → Runs env.pg (service_mark_failed env id reason)
  unfolding service_mark_failed
  service_mark_failed-Runs id reason = record {
    run = λ w. mark_failed-Reach env.pg (env.db_link w.tick) (env.db_now w.tick) id reason w.rows;
  }

  service_mark_running-Runs : (id : Text) → Runs env.pg (service_mark_running env id)
  unfolding service_mark_running
  service_mark_running-Runs id = record {
    run = λ w. mark_running-Reach env.pg (env.db_link w.tick) (env.db_now w.tick) id w.rows;
  }

  complete_failure-Runs : (id : Text) (e : Error) → Runs env.pg (complete_failure env id e)
  unfolding complete_failure
  complete_failure-Runs id e = record {
    run = λ w.
        mark_failed-Reach env.pg (env.db_link w.tick) (env.db_now w.tick) id (error_text e) w.rows;
  }

  failed_enqueue-Runs : (id : Text) (r : Result (Unit {0})) → Runs env.pg (failed_enqueue env id r)
  failed_enqueue-Runs id (ok _) = pure-Runs env.pg tt
  failed_enqueue-Runs id (err e) =
      bind-Runs env.pg (service_mark_failed-Runs id _) (λ _. raise-Runs env.pg _)

  module _ (enqueuer : TaskEnqueuer S)
      (quiet : (p : UpdateQuotePayload) → Runs env.pg (enqueuer p)) where
    pub enqueue_update_task-Runs :
        (id base quote : Text) → Runs env.pg (enqueue_update_task env enqueuer id base quote)
    unfolding enqueue_update_task
    enqueue_update_task-Runs id base quote =
        bind-Runs env.pg (attempt-Runs env.pg (quiet _)) (λ r. failed_enqueue-Runs id r)

    pub request_quote_update-Runs :
        (pair : Text) → Runs env.pg (request_quote_update env enqueuer pair)
    unfolding request_quote_update
    request_quote_update-Runs pair =
        bind-Runs env.pg (lift-Runs env.pg (parse_pair env.upper pair)) λ p.
          bind-Runs env.pg (lift-Runs env.pg (validate_pair env.upper p.0 p.1)) λ _.
            bind-Runs env.pg (ask-Runs env.pg env.new_uuid) λ uid.
              bind-Runs env.pg
                (or_error-Runs env.pg Error.internal (repo_create_update-Runs p.0 p.1 uid))
                λ id.
                  if_Runs env.pg (text_eq id uid)
                    (bind-Runs env.pg (enqueue_update_task-Runs id p.0 p.1)
                      (λ _. pure-Runs env.pg (requested id)))
                    (pure-Runs env.pg (requested id))

  module _ (svc : QuoteService) where
    cache_get_latest-Runs : (b q : Text) → Runs env.pg (cache_get_latest env svc b q)
    unfolding cache_get_latest
    cache_get_latest-Runs b q =
        if_Runs env.pg svc.has_cache (record { run = λ w. here }) (pure-Runs env.pg _)

    cache_set_latest-Runs :
        (b q rate : Text) (t : Time) → Runs env.pg (cache_set_latest env svc b q rate t)
    unfolding cache_set_latest
    cache_set_latest-Runs b q rate t =
        if_Runs env.pg svc.has_cache (record { run = λ w. here }) (pure-Runs env.pg _)

    or_complete_failure-Runs :
        {A B : Type 0} (id : Text) (r : Result A) {k : A → Action S B}
        → ((a : A) → Runs env.pg (k a))
        → Runs env.pg (or_complete_failure env svc id r k)
    or_complete_failure-Runs id (ok a) h = h a
    or_complete_failure-Runs id (err e) h =
        bind-Runs env.pg (complete_failure-Runs id e) (λ _. raise-Runs env.pg e)

    module _ (provider : RatesProvider S) (quiet : (b q : Text) → Runs env.pg (provider b q)) where
      fetch_and_complete-Runs :
          (id b q : Text) → Runs env.pg (fetch_and_complete env svc provider id b q)
      unfolding fetch_and_complete
      fetch_and_complete-Runs id b q = bind-Runs env.pg (service_mark_running-Runs id) λ _.
          bind-Runs env.pg (attempt-Runs env.pg (quiet b q)) λ r.
            or_complete_failure-Runs id r λ rate.
              bind-Runs env.pg (repo_mark_success-Runs id rate.0)
                λ _. cache_set_latest-Runs b q rate.0 rate.1

      pub process_update-Runs :
          (id b q : Text) → Runs env.pg (process_update env svc provider id b q)
      unfolding process_update
      process_update-Runs id b q =
          bind-Runs env.pg (lift-Runs env.pg (normalize_pair env.upper b q)) λ p.
            bind-Runs env.pg
              (attempt-Runs env.pg (lift-Runs env.pg (validate_pair env.upper p.0 p.1)))
              λ v. or_complete_failure-Runs id v (λ _. fetch_and_complete-Runs id p.0 p.1)
