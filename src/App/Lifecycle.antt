-- ===== src/App/Lifecycle.antt =====
-- cmd/app/app.go: `NewApp`, `close`, `initStorage`, `initServices` and `shutdown`, as the events
-- that they leave behind. `true` is a field that is not `nil`.
use exchange_rate_quote_serv.Prelude.{
  Text, codes, Bool, true, false, List, [], ◌∷◌, ◌++◌, Option, none, some, if◌then◌else◌,
}
use exchange_rate_quote_serv.Errors.{Error, error_text, join_lines, Result, ok, err}

pub data Resource : Type 0 where
  asynq_client asynq_server asynq_mon rdb_asynq rdb_cache db : Resource

pub data Event : Type 0 where
  opened closed : Resource → Event
  http_stopped worker_stopped : Event

-- The fields of `App` that hold a connection. `asynq.NewServer` makes a client of Redis of its
-- own, which only the server's own `Shutdown` is to close.
pub record App : Type 0 where
  pub asynq_client : Bool
  pub asynq_server : Bool
  pub asynq_mon : Bool
  pub rdb_asynq : Bool
  pub rdb_cache : Bool
  pub db : Bool

-- How the calls of the other parts end: `none` is a `nil` error.
pub record Outcomes : Type 0 where
  pub cache_addr : Text
  pub connect : Option Error
  pub migrations : Option Error
  pub ping : Option Error
  pub serve_asynqmon : Bool
  pub provider : Option Error
  pub closing : Resource → Option Error
  pub http_shutdown : Option Error

abbrev pub nothing : App
nothing = record {
  asynq_client = false;
  asynq_server = false;
  asynq_mon = false;
  rdb_asynq = false;
  rdb_cache = false;
  db = false;
}

abbrev pub explain : Text → Error → Error
explain what e = Error.failure (what ++ (codes ": " ++ error_text e))

-- `errs = append(errs, fmt.Errorf(…))`
abbrev pub note : Text → Option Error → List Text → List Text
note what none rest = rest
note what (some e) rest = error_text (explain what e) ∷ rest

abbrev pub texts : Option Error → List Text
texts none = []
texts (some e) = error_text e ∷ []

-- `errors.Join`
abbrev pub join : List Text → Option Error
join [] = none
join (t ∷ ts) = some (Error.failure (join_lines (t ∷ ts)))

module _ (o : Outcomes) where
  abbrev pub close_one : Resource → Text → Bool → List Text × List Event → List Text × List Event
  close_one r what false (errs, events) = (errs, events)
  close_one r what true (errs, events) =
      (note (what ++ codes " close") (o.closing r) errs, closed r ∷ events)

  abbrev pub close_all : App → List Text × List Event
  close_all app = close_one Resource.asynq_client (codes "asynq client") app.asynq_client (
      close_one Resource.asynq_mon (codes "asynqmon") app.asynq_mon (
        close_one Resource.rdb_asynq (codes "redis asynq") app.rdb_asynq (
          close_one Resource.rdb_cache (codes "redis cache") app.rdb_cache
            (close_one Resource.db (codes "db") app.db ([], [])))))

  -- `close`: every connection that there is, whatever the others' errors.
  unfoldable pub close : App → Option Error × List Event
  close app = let (errs, events) = close_all app in (join errs, events)

  -- What a part of `NewApp` comes to: its error, the fields so far, and its events.
  abbrev pub Init : Type 0
  Init = Option Error × App × List Event

  abbrev pub ping_cache : Option Error → Init
  ping_cache none = (
    none,
    record nothing { db = true; rdb_cache = true },
    opened Resource.db ∷ opened Resource.rdb_cache ∷ [],
  )
  ping_cache (some e) = (
    some (explain (codes "connect to Redis (cache, " ++ (o.cache_addr ++ codes ")")) e),
    record nothing { db = true; rdb_cache = true },
    opened Resource.db ∷ opened Resource.rdb_cache ∷ [],
  )

  abbrev pub migrate : Option Error → Init
  migrate none = ping_cache o.ping
  migrate (some e) = (
    some (explain (codes "run DB migrations") e),
    record nothing { db = true },
    opened Resource.db ∷ [],
  )

  abbrev pub connect : Option Error → Init
  connect none = migrate o.migrations
  connect (some e) = (some (explain (codes "connect to Postgres") e), nothing, [])

  -- `initStorage`
  unfoldable pub init_storage : Init
  init_storage = connect o.connect

  -- `initServices`; the provider's error comes behind the connections of the queue.
  unfoldable pub init_services : App → Init
  init_services app = (
    o.provider,
    record app {
      rdb_asynq = true;
      asynq_client = true;
      asynq_server = true;
      asynq_mon = o.serve_asynqmon;
    },
    opened Resource.rdb_asynq
        ∷ opened Resource.asynq_client
        ∷ opened Resource.asynq_server
        ∷ (if o.serve_asynqmon then opened Resource.asynq_mon ∷ [] else []),
  )

  -- `if err != nil { _ = app.close(); return nil, err }`
  abbrev pub or_close :
      Init → (App → List Event → Result App × List Event) → Result App × List Event
  or_close (some e, app, events) next = (err e, events ++ (close app).1)
  or_close (none, app, events) next = next app events

  abbrev pub prefix : List Event → Init → Init
  prefix before (e, app, events) = (e, app, before ++ events)

  -- `NewApp`
  unfoldable pub new_app : Result App × List Event
  unfolding init_storage init_services close
  new_app =
      or_close init_storage
        λ app before. or_close (prefix before (init_services app)) λ app' events. (ok app', events)

  -- `shutdown`: the HTTP server, the worker, and then the connections.
  unfoldable pub shutdown : App → Option Error × List Event
  unfolding close
  shutdown app =
      let (e, events) = close app in
      (
        join (note (codes "http shutdown") o.http_shutdown (texts e)),
        http_stopped ∷ worker_stopped ∷ events,
      )
