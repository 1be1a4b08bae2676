-- ===== src/Threads/Alone.antt =====
-- A thread that no other interrupts, and the operation of Service/Operations.antt.
use exchange_rate_quote_serv.Prelude.{
  Text, text_eq, Bool, true, false, Option, none, some, ◌≡◌, refl, ap, ◌∙◌,
}
use exchange_rate_quote_serv.Errors.{Error, Result, ok, err}
use exchange_rate_quote_serv.Currency.{parse_pair, normalize_pair, validate_pair}
use exchange_rate_quote_serv.Repository.Table.{Quote}
use exchange_rate_quote_serv.World.{Env, Action, ask}
use exchange_rate_quote_serv.World
use exchange_rate_quote_serv.Service.Cache.{
  QuoteService, cache_get_latest, cache_set_latest, cache_set_latest_from_quote,
}
use exchange_rate_quote_serv.Service.Operations.{
  TaskEnqueuer, requested, enqueue_update_task, request_quote_update, get_quote_result,
  latest_from_rows, get_latest_quote, fetch_and_complete, process_update, service_mark_failed,
  service_mark_running, complete_failure, repo_create_update, repo_mark_success, repo_get_by_id,
  repo_get_latest_success, hit_or, or_complete_failure, failed_enqueue, or_not_found,
}
use exchange_rate_quote_serv.Threads.Program.{
  Program, pure, raise, lift, atom, attempt, or_error, ◌>>=◌, run, run-atom, run-attempt,
  run-or_error, run-bind,
}
use exchange_rate_quote_serv.Threads.Operations.{
  RatesProgram, enqueue_thread, enqueue_new, request_thread, result_thread, rows_thread,
  hit_or_rows, latest_thread, or_complete, fetch_thread, failed_enqueue_thread, or_not_found_thread,
  process_thread,
}

-- A thread does, alone, what the operation does.
pub record IsAlone {S A : Type 0} (m : Program S A) (m' : Action S A) : Type 0 where
  pub same : run m ≡ m'

module _ {S : Type 0} where
  pub bind-IsAlone :
      {A B : Type 0} {m : Program S A} {f : A → Program S B} {m' : Action S A} {f' : A → Action S B}
      → IsAlone m m'
      → ((a : A) → IsAlone (f a) (f' a))
      → IsAlone (m >>= f) (World.◌>>=◌ m' f')
  bind-IsAlone {m = m} {f = f} h k = record {
    same = run-bind m f ∙ (λ i. World.◌>>=◌ (h.same i) (λ a. (k a).same i));
  }

  pub attempt-IsAlone :
      {A : Type 0} {m : Program S A} {m' : Action S A}
      → IsAlone m m'
      → IsAlone (attempt m) (World.attempt m')
  attempt-IsAlone {m = m} h = record { same = run-attempt m ∙ ap World.attempt h.same }

  pub or_error-IsAlone :
      {A : Type 0} {m : Program S A} {m' : Action S A} (e : Error)
      → IsAlone m m'
      → IsAlone (or_error m e) (World.or_error m' e)
  or_error-IsAlone {m = m} e h = record {
    same = run-or_error m e ∙ ap (λ x. World.or_error x e) h.same;
  }

  pub lift-IsAlone : {A : Type 0} (r : Result A) → IsAlone (lift {S = S} r) (World.lift r)
  unfolding run
  lift-IsAlone r = record { same = refl }

  pub pure-IsAlone : {A : Type 0} (a : A) → IsAlone (pure {S = S} a) (World.pure a)
  unfolding run
  pure-IsAlone a = record { same = refl }

  pub raise-IsAlone : {A : Type 0} (e : Error) → IsAlone (raise {S = S} {A = A} e) (World.raise e)
  unfolding run
  raise-IsAlone e = record { same = refl }

  pub atom-IsAlone : {A : Type 0} (m : Action S A) → IsAlone (atom m) m
  atom-IsAlone m = record { same = run-atom m }

  pub own-IsAlone : {A : Type 0} (m : Program S A) → IsAlone m (run m)
  own-IsAlone m = record { same = refl }

module _ {S F : Type 0} (env : Env S F) where
  failed-IsAlone :
      (id : Text) (r : Result (Unit {0}))
      → IsAlone (failed_enqueue_thread env id r) (failed_enqueue env id r)
  failed-IsAlone id (ok _) = pure-IsAlone tt
  failed-IsAlone id (err _) =
      bind-IsAlone (atom-IsAlone (service_mark_failed env id _)) (λ _. raise-IsAlone _)

  module _ (enqueuer : TaskEnqueuer S) where
    enqueue-IsAlone :
        (id b q : Text)
        → IsAlone (enqueue_thread env enqueuer id b q) (enqueue_update_task env enqueuer id b q)
    unfolding enqueue_update_task
    enqueue-IsAlone id b q =
        bind-IsAlone (attempt-IsAlone (atom-IsAlone (enqueuer _))) (failed-IsAlone id)

    new-IsAlone :
        (fresh : Bool) (id b q : Text)
        → IsAlone (enqueue_new env enqueuer fresh id b q) (elim fresh [
          | true ↦
              World.◌>>=◌ (enqueue_update_task env enqueuer id b q) (λ _. World.pure (requested id))
          | false ↦ World.pure (requested id)
        ])
    new-IsAlone true id b q = bind-IsAlone (enqueue-IsAlone id b q) (λ _. pure-IsAlone _)
    new-IsAlone false id b q = pure-IsAlone _

    request_thread-IsAlone :
        (pair : Text)
        → IsAlone (request_thread env enqueuer pair) (request_quote_update env enqueuer pair)
    unfolding request_thread request_quote_update
    request_thread-IsAlone pair = bind-IsAlone (lift-IsAlone (parse_pair env.upper pair)) λ p.
        bind-IsAlone (lift-IsAlone (validate_pair env.upper p.0 p.1)) λ _.
          bind-IsAlone (atom-IsAlone (ask env.new_uuid)) λ uid.
            bind-IsAlone
              (or_error-IsAlone Error.internal (atom-IsAlone (repo_create_update env p.0 p.1 uid)))
              λ id. new-IsAlone (text_eq id uid) id p.0 p.1

  or_not_found-IsAlone :
      (o : Option Quote) → IsAlone (or_not_found_thread env o) (or_not_found env o)
  or_not_found-IsAlone none = raise-IsAlone _
  or_not_found-IsAlone (some q) = pure-IsAlone q

  result_thread-IsAlone : (id : Text) → IsAlone (result_thread env id) (get_quote_result env id)
  unfolding result_thread get_quote_result
  result_thread-IsAlone id = bind-IsAlone (lift-IsAlone _) λ _.
      bind-IsAlone (or_error-IsAlone Error.internal (atom-IsAlone (repo_get_by_id env id)))
        λ found. bind-IsAlone (or_not_found-IsAlone found) λ q. pure-IsAlone _

  module _ (svc : QuoteService) where
    rows-IsAlone : (b q : Text) → IsAlone (rows_thread env svc b q) (latest_from_rows env svc b q)
    unfolding latest_from_rows
    rows-IsAlone b q =
        bind-IsAlone
          (or_error-IsAlone Error.internal (atom-IsAlone (repo_get_latest_success env b q)))
          λ found. bind-IsAlone (or_not_found-IsAlone found) λ r.
            bind-IsAlone (atom-IsAlone (cache_set_latest_from_quote env svc r)) λ _. pure-IsAlone _

    hit-IsAlone :
        (o : Option Quote) (b q : Text)
        → IsAlone (hit_or_rows env svc o b q) (hit_or env svc o (latest_from_rows env svc b q))
    hit-IsAlone none b q = rows-IsAlone b q
    hit-IsAlone (some r) b q = pure-IsAlone _

    latest_thread-IsAlone :
        (b q : Text) → IsAlone (latest_thread env svc b q) (get_latest_quote env svc b q)
    unfolding latest_thread get_latest_quote
    latest_thread-IsAlone b q = bind-IsAlone (lift-IsAlone (normalize_pair env.upper b q)) λ p.
        bind-IsAlone (lift-IsAlone (validate_pair env.upper p.0 p.1)) λ _.
          bind-IsAlone (atom-IsAlone (cache_get_latest env svc p.0 p.1)) λ o. hit-IsAlone o p.0 p.1

    complete-IsAlone :
        {A B : Type 0} (id : Text) (r : Result A) {k : A → Program S B} {k' : A → Action S B}
        → ((a : A) → IsAlone (k a) (k' a))
        → IsAlone (or_complete env svc id r k) (or_complete_failure env svc id r k')
    complete-IsAlone id (ok a) h = h a
    complete-IsAlone id (err x) h =
        bind-IsAlone (atom-IsAlone (complete_failure env id x)) λ _. raise-IsAlone x

    module _ (fetch : RatesProgram S) where
      fetch-IsAlone :
          (id b q : Text)
          → IsAlone
              (fetch_thread env svc fetch id b q)
              (fetch_and_complete env svc (λ b q. run (fetch b q)) id b q)
      unfolding fetch_and_complete
      fetch-IsAlone id b q = bind-IsAlone (atom-IsAlone (service_mark_running env id)) λ _.
          bind-IsAlone (attempt-IsAlone (own-IsAlone (fetch b q))) λ r.
            complete-IsAlone id r λ rate.
              bind-IsAlone (atom-IsAlone (repo_mark_success env id rate.0))
                λ _. atom-IsAlone (cache_set_latest env svc b q rate.0 rate.1)

      process_thread-IsAlone :
          (id b q : Text)
          → IsAlone
              (process_thread env svc fetch id b q)
              (process_update env svc (λ b q. run (fetch b q)) id b q)
      unfolding process_thread process_update
      process_thread-IsAlone id b q =
          bind-IsAlone (lift-IsAlone (normalize_pair env.upper b q))
            λ p. complete-IsAlone id (validate_pair env.upper p.0 p.1) λ _. fetch-IsAlone id p.0 p.1
