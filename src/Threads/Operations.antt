-- ===== src/Threads/Operations.antt =====
-- quote_service.go once more, now as threads: the four operations with the same steps as in
-- Service/Operations.antt, where each call of the repository, the queue and Redis is one step.
use exchange_rate_quote_serv.Prelude.{
  Text, codes, text_eq, Bool, true, false, Option, none, some, if◌then◌else◌,
}
use exchange_rate_quote_serv.Errors.{Error, Result, ok, err}
use exchange_rate_quote_serv.Currency.{parse_pair, normalize_pair, validate_pair}
use exchange_rate_quote_serv.Repository.Table.{Quote}
use exchange_rate_quote_serv.World.{Env, UpdateQuotePayload, ask}
use exchange_rate_quote_serv.Provider.Http.{Rate}
use exchange_rate_quote_serv.Service.QuoteResult.{QuoteResult, quote_result_from_repo}
use exchange_rate_quote_serv.Service.Cache.{
  QuoteService, cache_get_latest, cache_set_latest, cache_set_latest_from_quote,
}
use exchange_rate_quote_serv.Service.Operations.{
  TaskEnqueuer, requested, service_mark_failed, service_mark_running, complete_failure,
  repo_create_update, repo_mark_success, repo_get_by_id, repo_get_latest_success,
}
use exchange_rate_quote_serv.Threads.Program.{
  Program, pure, raise, lift, atom, attempt, or_error, ◌>>=◌, ◌>>◌,
}

-- A provider whose calls are steps of the thread.
abbrev pub RatesProgram : Type 0 → Type 0
RatesProgram S = (base quote : Text) → Program S Rate

module _ {S F : Type 0} (env : Env S F) where
  abbrev pub failed_enqueue_thread : Text → Result (Unit {0}) → Program S (Unit {0})
  failed_enqueue_thread id (ok _) = pure tt
  failed_enqueue_thread id (err _) =
      atom (service_mark_failed env id (codes "enqueue error")) >>= λ _. raise Error.internal_queue

  module _ (enqueuer : TaskEnqueuer S) where
    abbrev pub enqueue_thread : Text → Text → Text → Program S (Unit {0})
    enqueue_thread id base quote = do
      let payload : UpdateQuotePayload = record { update_id = id; base = base; quote = quote }
      r ← attempt (atom (enqueuer payload))
      failed_enqueue_thread id r

    abbrev pub enqueue_new : Bool → Text → Text → Text → Program S (Text × Text)
    enqueue_new true id base quote = enqueue_thread id base quote >>= λ _. pure (requested id)
    enqueue_new false id base quote = pure (requested id)

    -- `RequestQuoteUpdate`
    unfoldable pub request_thread : Text → Program S (Text × Text)
    request_thread pair = do
      p ← lift (parse_pair env.upper pair)
      lift (validate_pair env.upper p.0 p.1)
      uid ← atom (ask env.new_uuid)
      id ← or_error (atom (repo_create_update env p.0 p.1 uid)) Error.internal
      enqueue_new (text_eq id uid) id p.0 p.1

  abbrev pub or_not_found_thread : Option Quote → Program S Quote
  or_not_found_thread none = raise Error.not_found
  or_not_found_thread (some q) = pure q

  -- `GetQuoteResult`
  unfoldable pub result_thread : Text → Program S QuoteResult
  result_thread id = do
    lift (if env.parses_uuid id then ok tt else err Error.invalid_update_id)
    found ← or_error (atom (repo_get_by_id env id)) Error.internal
    q ← or_not_found_thread found
    pure (quote_result_from_repo env.format_rfc3339 q)

  module _ (svc : QuoteService) where
    abbrev pub rows_thread : Text → Text → Program S QuoteResult
    rows_thread base quote = do
      found ← or_error (atom (repo_get_latest_success env base quote)) Error.internal
      q ← or_not_found_thread found
      atom (cache_set_latest_from_quote env svc q)
      pure (quote_result_from_repo env.format_rfc3339 q)

    abbrev pub hit_or_rows : Option Quote → Text → Text → Program S QuoteResult
    hit_or_rows (some q) base quote = pure (quote_result_from_repo env.format_rfc3339 q)
    hit_or_rows none base quote = rows_thread base quote

    -- `GetLatestQuote`
    unfoldable pub latest_thread : Text → Text → Program S QuoteResult
    latest_thread base quote = do
      p ← lift (normalize_pair env.upper base quote)
      lift (validate_pair env.upper p.0 p.1)
      cached ← atom (cache_get_latest env svc p.0 p.1)
      hit_or_rows cached p.0 p.1

    abbrev pub or_complete : {A B : Type 0} → Text → Result A → (A → Program S B) → Program S B
    or_complete id (ok a) k = k a
    or_complete id (err e) k = atom (complete_failure env id e) >>= λ _. raise e

    module _ (fetch : RatesProgram S) where
      abbrev pub fetch_thread : Text → Text → Text → Program S (Unit {0})
      fetch_thread id base quote = do
        atom (service_mark_running env id)
        fetched ← attempt (fetch base quote)
        or_complete id fetched λ rate. atom (repo_mark_success env id rate.0) >>= λ _.
            atom (cache_set_latest env svc base quote rate.0 rate.1)

      -- `ProcessUpdate`
      unfoldable pub process_thread : Text → Text → Text → Program S (Unit {0})
      process_thread id base quote = do
        p ← lift (normalize_pair env.upper base quote)
        or_complete id (validate_pair env.upper p.0 p.1) λ _. fetch_thread id p.0 p.1
