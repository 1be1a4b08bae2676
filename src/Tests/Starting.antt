-- ===== src/Tests/Starting.antt =====
-- The configuration, the application's start and end, and its readiness.
use exchange_rate_quote_serv.Prelude.{
  All, all, any, List, [], ◌∷◌, arith, codes, Option, none, some, ◌≡◌, ◌↔◌, ◌⊎◌, true, refl,
}
use exchange_rate_quote_serv.Errors.{Error, ok, err}
use exchange_rate_quote_serv.Config.{default_config, validate, complete}
use exchange_rate_quote_serv.Config.Validation.{
  IsUsable, HasPools, validate_iff, load_config-IsUsable, load_defaults, dsn_text,
}
use exchange_rate_quote_serv.Provider.Http.{RatesProvider, frankfurter_get_rate, new_frankfurter}
use exchange_rate_quote_serv.App.Providers.{cached}
use exchange_rate_quote_serv.App.Lifecycle.{Resource, App, Outcomes, nothing, new_app}
use exchange_rate_quote_serv.App.Balance.{replay, left, new_app-replay}
use exchange_rate_quote_serv.App.Run.{
  Run, start, Turn, worker_turn, server_turn, stopper_turn, Served, listening, closed, run_turns,
  is_over,
}
use exchange_rate_quote_serv.App.Finishing.{
  stopper_turns, worker_turns, closings, cancelled-is_over,
}
use exchange_rate_quote_serv.Api.Response.{sent_status}
use exchange_rate_quote_serv.Api.Health.{Ping, Answers, handle_readyz, handle_readyz_iff}
use exchange_rate_quote_serv.Api.Endpoints.{service}
use exchange_rate_quote_serv.Worker.{asynq_enqueue_update_task}
use exchange_rate_quote_serv.Api.Document.Operations.{paths}
use exchange_rate_quote_serv.App.Routes.{init_http}
use exchange_rate_quote_serv.App.Documented.{IsServed, describes, init_http-IsServed}
use exchange_rate_quote_serv.Tests.Fixtures.{env, Store, svc, enqueuer, provider, upper}

validate_iff_example : (validate default_config ≡ ok tt) ↔ IsUsable default_config
validate_iff_example = validate_iff default_config

load_config-IsUsable_example :
    IsUsable (complete default_config)
    × HasPools (complete default_config)
    × ((complete default_config).database.dsn ≡ dsn_text (complete default_config).database)
load_config-IsUsable_example =
    load_config-IsUsable (ok default_config) (complete default_config) load_defaults

-- The last call of `NewApp` fails, and two connections do not close well.
abbrev broken : Error
broken = Error.failure (codes "broken")

abbrev closing : Resource → Option Error
closing Resource.rdb_asynq = some broken
closing Resource.db = some broken
closing _ = none

abbrev outcomes : Outcomes
outcomes = record {
  cache_addr = codes "localhost:6379";
  connect = none;
  migrations = none;
  ping = none;
  serve_asynqmon = true;
  provider = some broken;
  closing = closing;
  http_shutdown = some broken;
}

new_app-replay_example :
    replay nothing (new_app outcomes).1 ≡ some (left outcomes (new_app outcomes).0)
new_app-replay_example = new_app-replay outcomes

abbrev app : App
app = record nothing { db = true; rdb_cache = true; asynq_client = true }

handle_readyz_iff_example :
    let response = handle_readyz (ok tt) (some (ok tt)) (some (err broken)) in
    ((sent_status response ≡ 200)
      ↔ ((◌≡◌ {A = Ping} (ok tt) (ok tt)) × Answers (some (ok tt)) × Answers (some (err broken))))
    × ((sent_status response ≡ 200) ⊎ (sent_status response ≡ 503))
handle_readyz_iff_example = handle_readyz_iff (ok tt) (some (ok tt)) (some (err broken))

the_provider : RatesProvider Store
the_provider = cached env true default_config (codes "frankfurter") (
    frankfurter_get_rate env
      (new_frankfurter default_config.frankfurter.base_url default_config.frankfurter.timeout))

-- The port is taken: the server breaks, and the worker starts when all is down already.
abbrev downfall : List Turn
downfall =
    server_turn (Served.broken broken)
    ∷ stopper_turn
    ∷ stopper_turn
    ∷ stopper_turn
    ∷ worker_turn none
    ∷ worker_turn none
    ∷ []

abbrev stopping : List Turn
stopping =
    stopper_turn ∷ worker_turn none ∷ stopper_turn ∷ server_turn listening ∷ stopper_turn ∷ []

abbrev ending : List Turn
ending = worker_turn none ∷ server_turn closed ∷ []

abbrev cancelled : Run
cancelled = record start { cancelled = true }

cancelled-is_over_example :
    is_over (run_turns outcomes app ending (run_turns outcomes app stopping cancelled)) ≡ true
unfolding stopper_turns worker_turns closings
cancelled-is_over_example =
    cancelled-is_over outcomes app stopping ending cancelled refl (ground arith) (ground arith)
      (ground arith)

init_http-IsServed_example :
    All
      (IsServed (service env (asynq_enqueue_update_task env enqueuer) svc provider) upper)
      (init_http default_config.server true).routes
    × (all (λ op. any (λ r. describes r op) (init_http default_config.server true).routes) paths
        ≡ true)
init_http-IsServed_example =
    init_http-IsServed (service env (asynq_enqueue_update_task env enqueuer) svc provider) upper
      default_config.server true
