-- ===== src/App/Balance.antt =====
-- `NewApp` and `shutdown` of cmd/app/app.go: what is open behind their events.
use exchange_rate_quote_serv.Prelude.{
  Bool, true, false, List, [], ◌∷◌, Option, none, some, ◌≡◌, arith,
}
use exchange_rate_quote_serv.Errors.{Error, Result, ok, err}
use exchange_rate_quote_serv.App.Lifecycle.{
  Resource, Event, opened, closed, http_stopped, worker_stopped, App, Outcomes, nothing, close,
  init_storage, init_services, new_app, shutdown,
}

abbrev is_open : Resource → App → Bool
is_open Resource.asynq_client app = app.asynq_client
is_open Resource.asynq_server app = app.asynq_server
is_open Resource.asynq_mon app = app.asynq_mon
is_open Resource.rdb_asynq app = app.rdb_asynq
is_open Resource.rdb_cache app = app.rdb_cache
is_open Resource.db app = app.db

abbrev put : Resource → Bool → App → App
put Resource.asynq_client b app = record app { asynq_client = b }
put Resource.asynq_server b app = record app { asynq_server = b }
put Resource.asynq_mon b app = record app { asynq_mon = b }
put Resource.rdb_asynq b app = record app { rdb_asynq = b }
put Resource.rdb_cache b app = record app { rdb_cache = b }
put Resource.db b app = record app { db = b }

unfoldable pub replay : App → List Event → Option App
replay app [] = some app
replay app (opened r ∷ es) =
    let rest = replay (put r true app) es in elim (is_open r app) [ true ↦ none | false ↦ rest ]
replay app (closed r ∷ es) =
    let rest = replay (put r false app) es in elim (is_open r app) [ true ↦ rest | false ↦ none ]
replay app (http_stopped ∷ es) = replay app es
replay app (worker_stopped ∷ es) = replay app es

-- Nothing but the connection of the queue's server, where there is one.
abbrev pub only_server : Bool → App
only_server b = record nothing { asynq_server = b }

abbrev all_none : List (Option Error) → Bool
all_none [] = true
all_none (none ∷ es) = all_none es
all_none (some e ∷ es) = false

-- What is open behind `NewApp`: the fields of the application; where it fails in `initStorage`,
-- nothing; and where it fails behind that, the connection of the queue's server.
abbrev pub left : Outcomes → Result App → App
left o (ok app) = app
left o (err e) = only_server (all_none (o.connect ∷ o.migrations ∷ o.ping ∷ []))

-- Whatever fails in `NewApp`, it opens nothing twice and closes only what is open. Where it
-- returns an application, what is open is what the fields of the application say. Where it fails
-- in `initStorage`, nothing is left open, and where it fails behind that, only the connection
-- inside asynq's server is.
pub new_app-replay : (o : Outcomes) → replay nothing (new_app o).1 ≡ some (left o (new_app o).0)
unfolding new_app init_storage init_services close replay
new_app-replay o = ground arith

-- `shutdown` closes each connection of the application once and no other, but that of the queue's
-- server, whatever errors the closing of the others returns.
pub shutdown-replay :
    (o : Outcomes) (app : App) → replay app (shutdown o app).1 ≡ some (only_server app.asynq_server)
unfolding shutdown close replay
shutdown-replay o app = ground arith
