-- ===== src/Tests/Requesting.antt =====
-- A pair from its request to its price, and the theorems along the way.
use exchange_rate_quote_serv.Prelude.{
  inr, ℕ, ◌==◌, if◌then◌else◌, codes, text_eq, List, [], ◌∷◌, none, some, ◌≡◌, refl,
}
use exchange_rate_quote_serv.Prelude.Unicode.{trim_right, len, rune_len, to_upper, split}
use exchange_rate_quote_serv.Prelude.Decimal.{decimal}
use exchange_rate_quote_serv.Errors.{Error, error_text, ok, err}
use exchange_rate_quote_serv.Currency.{
  is_valid_currency_code, parse_pair, normalize_pair, validate_pair, is_supported,
}
use exchange_rate_quote_serv.Repository.Table.{
  Status, Quote, has_id, has_pair, find, char3, pad3, update_where, count_where, insert_row,
  selects, is_rival, collides, insert_update, update_running, update_success, update_failed,
}
use exchange_rate_quote_serv.Repository.Methods.{
  up, lost, create_update, mark_running, mark_success, mark_failed,
}
use exchange_rate_quote_serv.Repository.Updates.{AreOthersKept}
use exchange_rate_quote_serv.World.{Env, World, Task}
use exchange_rate_quote_serv.Provider.Http.{frankfurter_get_rate, frankfurter_url, body_of}
use exchange_rate_quote_serv.Provider.Cached.{cached_get_rate, cached_rate, cache_key}
use exchange_rate_quote_serv.Provider.Facade.{facade_get_rate, facade_from, all_failed}
use exchange_rate_quote_serv.Service.QuoteResult.{status_text}
use exchange_rate_quote_serv.Service.Operations.{
  request_quote_update, enqueue_update_task, get_latest_quote, process_update, fetch_and_complete,
  service_mark_running, complete_failure,
}
use exchange_rate_quote_serv.Service.Cache.{cache_set_latest, latest_cache_key}
use exchange_rate_quote_serv.Worker.{asynq_enqueue_update_task, handle_update_task}
use exchange_rate_quote_serv.System.Requests.{request, IsAnswered, request-IsAnswered}
use exchange_rate_quote_serv.System.Processing.{started}
use exchange_rate_quote_serv.System.Outcomes.{
  IsCompleted, process_update-IsCompleted, process_update-fails,
}
use exchange_rate_quote_serv.System.Stores.{IsShown, process_update-get_latest_quote}
use exchange_rate_quote_serv.System.Held.{request-held, process_update-lost}
use exchange_rate_quote_serv.System.Tasks.{IsTask}
use exchange_rate_quote_serv.System.Schedule.{
  Event, posted, delivered, evicted, run_event, run_events, IsSound, run_events-IsSound,
  deliver-fetch,
}
use exchange_rate_quote_serv.Tests.Fixtures.{
  upper-IsCaseTable, env, Store, empty_world, env-MakesUuids, env-RoundTrips, env-Remembers,
  read_back, svc, enqueuer, provider, provider-IsQuiet, nobody, nobody-IsQuiet,
}

go : Unit {0}
unfolding is_valid_currency_code parse_pair normalize_pair validate_pair is_supported len rune_len
    to_upper split trim_right text_eq create_update mark_running mark_success mark_failed
    insert_update update_running update_success update_failed find has_id has_pair char3 pad3
    update_where count_where insert_row selects is_rival collides frankfurter_get_rate
    frankfurter_url body_of cached_get_rate cached_rate cache_key facade_get_rate facade_from
    all_failed error_text status_text request_quote_update enqueue_update_task process_update
    fetch_and_complete service_mark_running complete_failure cache_set_latest latest_cache_key
    asynq_enqueue_update_task handle_update_task run_event run_events decimal
go = tt

abbrev asked : World Store
asked = (request env enqueuer (codes "eur/mxn") empty_world).1

request-IsAnswered_example :
    IsAnswered env enqueuer (codes "eur/mxn") empty_world (codes "a", codes "PENDING") asked
unfolding go
request-IsAnswered_example =
    request-IsAnswered env enqueuer env-MakesUuids (codes "eur/mxn") empty_world
      (codes "a", codes "PENDING") upper-IsCaseTable tt refl

abbrev pending : Quote
pending = record {
  id = codes "a";
  base = codes "EUR";
  quote = codes "MXN";
  price = none;
  status = Status.pending;
  error_msg = none;
  requested_at = 51;
  updated_at = none;
}

-- Two requests, and a task that is delivered twice.
abbrev twice : List (Event Store)
twice =
    posted (codes "eur/mxn")
    ∷ delivered 0
    ∷ posted (codes "EUR/USD")
    ∷ evicted []
    ∷ delivered 0
    ∷ []

sound :
    IsSound env (run_events env enqueuer svc provider (posted (codes "eur/mxn") ∷ []) empty_world)
sound =
    run_events-IsSound env enqueuer svc provider provider-IsQuiet upper-IsCaseTable
      (posted (codes "eur/mxn") ∷ []) empty_world (tt, tt)

abbrev queued : World Store
queued = run_events env enqueuer svc provider (posted (codes "eur/mxn") ∷ []) empty_world

abbrev the_task : Task
the_task = record {
  kind = codes "quote:update";
  payload = codes "EURMXNa";
  max_retry = 3;
  timeout = 30;
}

deliver-fetch_example :
    (t : IsTask env queued.rows the_task) × (handle_update_task env
        (process_update env svc provider)
        the_task
        queued
      ≡ fetch_and_complete env svc provider t.payload.update_id t.payload.base t.payload.quote
          queued)
unfolding go
deliver-fetch_example = deliver-fetch env svc provider env-RoundTrips queued 0 the_task sound.1 refl

process_update-IsCompleted_example :
    IsCompleted env svc provider
      (codes "a")
      (codes "EUR")
      (codes "MXN")
      queued
      (process_update env svc provider (codes "a") (codes "EUR") (codes "MXN") queued).1
unfolding go
process_update-IsCompleted_example =
    process_update-IsCompleted env svc provider provider-IsQuiet (codes "a") (codes "EUR")
      (codes "MXN") queued sound.0 refl

abbrev running : Quote
running = record pending { status = Status.running; updated_at = some 53 }

process_update-fails_example :
    let done = process_update env svc nobody (codes "a") (codes "EUR") (codes "MXN") queued in
    (done.0 ≡ err (all_failed []))
    × ((find (has_id (codes "a")) done.1.rows
          ≡ some (record running {
            status = Status.failed;
            price = none;
            error_msg = some (error_text (all_failed []));
            updated_at = some 54;
          }))
        × AreOthersKept (codes "a") (started env svc nobody (codes "a") queued).rows done.1.rows)
unfolding go
process_update-fails_example =
    process_update-fails env svc nobody nobody-IsQuiet (codes "a") (codes "EUR") (codes "MXN")
      (codes "a") queued (codes "EUR", codes "MXN") (all_failed []) running sound.0 refl refl refl
      refl refl refl (inr refl)

process_update-get_latest_quote_example :
    IsShown env svc provider
      (codes "a")
      (codes "eur")
      (codes "mxn")
      queued
      (get_latest_quote env svc
        (codes "eur")
        (codes "mxn")
        (process_update env svc provider (codes "a") (codes "eur") (codes "mxn") queued).1).0
unfolding go
process_update-get_latest_quote_example =
    process_update-get_latest_quote env svc provider (codes "a") (codes "eur") (codes "mxn") queued
      refl read_back
      (env-Remembers
        (process_update env svc provider (codes "a") (codes "eur") (codes "mxn") queued).1)
      refl

request-held_example :
    request env enqueuer (codes "EUR/MXN") queued
    ≡ (ok (codes "a", codes "PENDING"), record queued { tick = 5 })
unfolding go
request-held_example =
    request-held env enqueuer env-MakesUuids (codes "EUR/MXN") (codes "EUR") (codes "MXN")
      (codes "a") queued upper-IsCaseTable sound.0 refl refl (pending, refl, refl) refl refl

-- The database is away when the price is there.
abbrev cut : Env Store ℕ
cut = record env { db_link = λ k. if k == 8 then lost (codes "down") else up }

process_update-lost_example :
    let done = process_update cut svc provider (codes "a") (codes "EUR") (codes "MXN") queued in
    (done.0 ≡ err (Error.failure (codes "down")))
    × (done.1.rows ≡ (started cut svc provider (codes "a") queued).rows)
unfolding go
process_update-lost_example =
    process_update-lost cut svc provider provider-IsQuiet (codes "a") (codes "EUR") (codes "MXN")
      (codes "down") queued (codes "EUR", codes "MXN") (codes "3", 106) refl refl refl refl
