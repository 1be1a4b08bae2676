-- ===== src/Service/Operations.antt =====
-- quote_service.go: the four operations of `QuoteService`, with the repository, the validator, the
-- provider and the queue behind them. Log lines are left out.
use exchange_rate_quote_serv.Prelude.{
  suc, Text, codes, text_eq, true, false, Option, none, some, if◌then◌else◌,
}
use exchange_rate_quote_serv.Errors.{Error, error_text, Result, ok, err}
use exchange_rate_quote_serv.Currency.{parse_pair, normalize_pair, validate_pair}
use exchange_rate_quote_serv.Repository.Table.{Time, Status, Quote, Table, Statement}
use exchange_rate_quote_serv.Repository.Methods.{
  Link, create_update, mark_running, mark_success, mark_failed, get_by_id, get_latest_success,
}
use exchange_rate_quote_serv.World.{
  Env, UpdateQuotePayload, Action, pure, raise, lift, attempt, or_error, ask, advance, ◌>>=◌, ◌>>◌,
}
use exchange_rate_quote_serv.Provider.Http.{RatesProvider}
use exchange_rate_quote_serv.Service.QuoteResult.{QuoteResult, status_text, quote_result_from_repo}
use exchange_rate_quote_serv.Service.Cache.{
  QuoteService, cache_get_latest, cache_set_latest, cache_set_latest_from_quote,
}

-- `TaskTypeUpdateQuote`
abbrev pub task_type_update_quote : Text
task_type_update_quote = codes "quote:update"

-- The interface `TaskEnqueuer`.
abbrev pub TaskEnqueuer : Type 0 → Type 0
TaskEnqueuer S = UpdateQuotePayload → Action S (Unit {0})

-- What `RequestQuoteUpdate` returns with a `nil` error.
abbrev pub requested : Text → Text × Text
requested id = (id, status_text Status.pending)

module _ {S F : Type 0} (env : Env S F) where
  -- A method of the repository that writes, as one outside call.
  abbrev pub write_rows : {A : Type 0} → (Link → Time → Statement A) → Action S A
  write_rows f w =
      let (r, rows') = f (env.db_link w.tick) (env.db_now w.tick) w.rows in
      (r, record w { rows = rows'; tick = suc w.tick })

  abbrev pub read_rows : {A : Type 0} → (Link → Table → Result A) → Action S A
  read_rows f w = (f (env.db_link w.tick) w.rows, advance w)

  abbrev pub repo_create_update : Text → Text → Text → Action S Text
  repo_create_update base quote id =
      write_rows (λ link now. create_update env.pg link now base quote id)

  abbrev pub repo_mark_running : Text → Action S (Unit {0})
  repo_mark_running id = write_rows (λ link now. mark_running env.pg link now id)

  abbrev pub repo_mark_success : Text → Text → Action S (Unit {0})
  repo_mark_success id price = write_rows (λ link now. mark_success env.pg link now id price)

  abbrev pub repo_mark_failed : Text → Text → Action S (Unit {0})
  repo_mark_failed id msg = write_rows (λ link now. mark_failed env.pg link now id msg)

  abbrev pub repo_get_by_id : Text → Action S (Option Quote)
  repo_get_by_id id = read_rows (λ link. get_by_id env.pg link id)

  abbrev pub repo_get_latest_success : Text → Text → Action S (Option Quote)
  repo_get_latest_success base quote = read_rows (λ link. get_latest_success env.pg link base quote)

  -- `markFailed`, `markRunning` and `completeFailure`: an error is logged only.
  unfoldable pub service_mark_failed : Text → Text → Action S (Unit {0})
  service_mark_failed id reason = attempt (repo_mark_failed id reason) >>= λ _. pure tt

  unfoldable pub service_mark_running : Text → Action S (Unit {0})
  service_mark_running id = attempt (repo_mark_running id) >>= λ _. pure tt

  unfoldable pub complete_failure : Text → Error → Action S (Unit {0})
  complete_failure id cause = attempt (repo_mark_failed id (error_text cause)) >>= λ _. pure tt

  abbrev pub failed_enqueue : Text → Result (Unit {0}) → Action S (Unit {0})
  failed_enqueue id (ok _) = pure tt
  failed_enqueue id (err _) =
      service_mark_failed id (codes "enqueue error") >>= λ _. raise Error.internal_queue

  module _ (enqueuer : TaskEnqueuer S) where
    -- `enqueueUpdateTask`
    unfoldable pub enqueue_update_task : Text → Text → Text → Action S (Unit {0})
    unfolding service_mark_failed
    enqueue_update_task id base quote = do
      let payload : UpdateQuotePayload = record { update_id = id; base = base; quote = quote }
      r ← attempt (enqueuer payload)
      failed_enqueue id r

    -- `RequestQuoteUpdate`: the id and its status.
    unfoldable pub request_quote_update : Text → Action S (Text × Text)
    unfolding enqueue_update_task
    request_quote_update pair = do
      p ← lift (parse_pair env.upper pair)
      lift (validate_pair env.upper p.0 p.1)
      uid ← ask env.new_uuid
      id ← or_error (repo_create_update p.0 p.1 uid) Error.internal
      let fresh : Action S (Text × Text) =
          enqueue_update_task id p.0 p.1 >>= λ _. pure (requested id)
      elim (text_eq id uid) [ true ↦ fresh | false ↦ pure (requested id) ]

  abbrev pub or_not_found : Option Quote → Action S Quote
  or_not_found none = raise Error.not_found
  or_not_found (some q) = pure q

  -- `GetQuoteResult`
  unfoldable pub get_quote_result : Text → Action S QuoteResult
  get_quote_result id = do
    lift (if env.parses_uuid id then ok tt else err Error.invalid_update_id)
    found ← or_error (repo_get_by_id id) Error.internal
    q ← or_not_found found
    pure (quote_result_from_repo env.format_rfc3339 q)

  module _ (svc : QuoteService) where
    -- The end of `GetLatestQuote`: what the table says, which the cache keeps.
    unfoldable pub latest_from_rows : Text → Text → Action S QuoteResult
    latest_from_rows base quote = do
      found ← or_error (repo_get_latest_success base quote) Error.internal
      q ← or_not_found found
      cache_set_latest_from_quote env svc q
      pure (quote_result_from_repo env.format_rfc3339 q)

    abbrev pub hit_or : Option Quote → Action S QuoteResult → Action S QuoteResult
    hit_or (some q) other = pure (quote_result_from_repo env.format_rfc3339 q)
    hit_or none other = other

    -- `GetLatestQuote`
    unfoldable pub get_latest_quote : Text → Text → Action S QuoteResult
    unfolding latest_from_rows
    get_latest_quote base quote = do
      p ← lift (normalize_pair env.upper base quote)
      lift (validate_pair env.upper p.0 p.1)
      cached ← cache_get_latest env svc p.0 p.1
      hit_or cached (latest_from_rows p.0 p.1)

    -- `completeFailure(…, err)` and `return err`, where there is an error.
    abbrev pub or_complete_failure :
        {A B : Type 0} → Text → Result A → (A → Action S B) → Action S B
    or_complete_failure id (ok a) k = k a
    or_complete_failure id (err e) k = complete_failure id e >>= λ _. raise e

    module _ (provider : RatesProvider S) where
      -- The end of `ProcessUpdate`, with a pair that is supported.
      unfoldable pub fetch_and_complete : Text → Text → Text → Action S (Unit {0})
      unfolding complete_failure service_mark_running
      fetch_and_complete id base quote = do
        service_mark_running id
        fetched ← attempt (provider base quote)
        or_complete_failure id fetched λ rate.
            repo_mark_success id rate.0 >>= λ _. cache_set_latest env svc base quote rate.0 rate.1

      -- `ProcessUpdate`
      unfoldable pub process_update : Text → Text → Text → Action S (Unit {0})
      unfolding fetch_and_complete complete_failure
      process_update id base quote = do
        p ← lift (normalize_pair env.upper base quote)
        valid ← attempt (lift (validate_pair env.upper p.0 p.1))
        or_complete_failure id valid λ _. fetch_and_complete id p.0 p.1
