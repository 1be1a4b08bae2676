-- ===== src/Tests/Threading.antt =====
-- Threads beside one another, and the theorems at such runs.
use exchange_rate_quote_serv.Prelude.{
  ◌≤◌, codes, text_eq, List, [], ◌∷◌, none, some, get_elem?, ◌≡◌, refl, true, arith,
}
use exchange_rate_quote_serv.Prelude.Unicode.{trim_right, len, rune_len, to_upper, split}
use exchange_rate_quote_serv.Errors.{Result, ok}
use exchange_rate_quote_serv.Currency.{
  is_valid_currency_code, parse_pair, normalize_pair, validate_pair, is_supported,
}
use exchange_rate_quote_serv.Repository.Table.{
  Status, Quote, has_id, has_pair, find, char3, pad3, update_where, count_where, insert_row,
  selects, is_rival, collides, insert_update,
}
use exchange_rate_quote_serv.Repository.Methods.{create_update}
use exchange_rate_quote_serv.Repository.History.{Keeps}
use exchange_rate_quote_serv.Config.{default_config}
use exchange_rate_quote_serv.Provider.Http.{RatesProvider}
use exchange_rate_quote_serv.App.Providers.{new_rate_provider}
use exchange_rate_quote_serv.Worker.{asynq_enqueue_update_task}
use exchange_rate_quote_serv.System.Schedule.{IsSound}
use exchange_rate_quote_serv.Threads.Program.{done, forget, attempt, or_error, ◌>>=◌}
use exchange_rate_quote_serv.Threads.Operations.{
  RatesProgram, request_thread, process_thread, result_thread, latest_thread,
}
use exchange_rate_quote_serv.Threads.Providers.{cached_call, frankfurter_api, new_rate_thread}
use exchange_rate_quote_serv.Threads.Rates.{IsThreadOf, new_rate_thread-IsThreadOf}
use exchange_rate_quote_serv.Threads.Ends.{EndsIn}
use exchange_rate_quote_serv.Threads.Pool.{
  Pool, Moment, posted, looked, delivered, moved, evicted, move, run_moment, run_moments,
}
use exchange_rate_quote_serv.Threads.Progress.{moves}
use exchange_rate_quote_serv.Threads.Writes.{Writes}
use exchange_rate_quote_serv.Threads.Service.{
  service-IsSound, service-Keeps, service-Writes, operations-EndsIn, started-done,
}
use exchange_rate_quote_serv.Tests.Fixtures.{
  env, Store, empty_world, svc, enqueuer, upper-IsCaseTable,
}

go : Unit {0}
unfolding is_valid_currency_code parse_pair normalize_pair validate_pair is_supported len rune_len
    to_upper split trim_right text_eq create_update insert_update find has_id has_pair char3 pad3
    update_where count_where insert_row selects is_rival collides request_thread forget attempt
    or_error ◌>>=◌ move run_moment run_moments moves asynq_enqueue_update_task
go = tt

-- The provider of the default configuration.
abbrev fetch : RatesProgram Store
fetch =
    cached_call env true default_config (codes "frankfurter")
      (frankfurter_api env true default_config)

made : new_rate_thread env true default_config ≡ ok fetch
unfolding new_rate_thread default_config
made = refl

new_rate_thread-IsThreadOf_example :
    (p : RatesProvider Store) × (new_rate_provider env true default_config ≡ ok p)
    × IsThreadOf env 6 fetch p
new_rate_thread-IsThreadOf_example = new_rate_thread-IsThreadOf env true default_config fetch made

-- Two requests of one pair whose calls alternate, and a task that two workers have at once.
abbrev twice : List (Moment Store)
twice =
    posted (codes "eur/mxn")
    ∷ posted (codes "EUR/MXN")
    ∷ moved 0
    ∷ moved 1
    ∷ moved 1
    ∷ moved 0
    ∷ moved 1
    ∷ delivered 0
    ∷ delivered 0
    ∷ moved 2
    ∷ moved 3
    ∷ moved 2
    ∷ evicted []
    ∷ moved 3
    ∷ []

abbrev idle : Pool Store
idle = record { world = empty_world; threads = [] }

service-IsSound_example : IsSound env (run_moments env svc fetch enqueuer twice idle).world
service-IsSound_example =
    service-IsSound env svc fetch true default_config made enqueuer upper-IsCaseTable twice
      empty_world (tt, tt)

-- A request that has its row.
abbrev begun : List (Moment Store)
begun = posted (codes "eur/mxn") ∷ moved 0 ∷ moved 0 ∷ []

abbrev pending : Quote
pending = record {
  id = codes "a";
  base = codes "EUR";
  quote = codes "MXN";
  price = none;
  status = Status.pending;
  error_msg = none;
  requested_at = 51;
  updated_at = none;
}

service-Keeps_example :
    let pool = run_moments env svc fetch enqueuer begun idle in
    (s : Quote) × (find
        (has_id (codes "a"))
        (run_moments env svc fetch enqueuer twice pool).world.rows
      ≡ some s)
    × Keeps pending s
unfolding go
service-Keeps_example =
    service-Keeps env svc fetch true default_config made enqueuer upper-IsCaseTable begun twice
      empty_world (codes "a") pending (tt, tt) refl

operations-EndsIn_example :
    EndsIn 4 (request_thread env (asynq_enqueue_update_task env enqueuer) (codes "eur/mxn"))
    × EndsIn 1 (result_thread env (codes "a"))
    × EndsIn 3 (latest_thread env svc (codes "EUR") (codes "MXN"))
    × EndsIn 9 (process_thread env svc fetch (codes "a") (codes "EUR") (codes "MXN"))
operations-EndsIn_example =
    operations-EndsIn env svc fetch true default_config made
      (asynq_enqueue_update_task env enqueuer) (codes "eur/mxn") (codes "a") (codes "EUR")
      (codes "MXN")

-- A look-up whose calls another request's interrupt.
abbrev turns : List (Moment Store)
turns =
    moved 0
    ∷ posted (codes "EUR/MXN")
    ∷ moved 0
    ∷ moved 1
    ∷ moved 0
    ∷ moved 0
    ∷ moved 0
    ∷ evicted []
    ∷ moved 0
    ∷ moved 0
    ∷ moved 1
    ∷ moved 0
    ∷ moved 0
    ∷ []

often : 9 ≤ moves 0 turns
unfolding moves
often = ground arith

started-done_example :
    (r : Result (Unit {0})) × (get_elem?
        (run_moments env svc fetch enqueuer
          (looked (codes "EUR") (codes "MXN") ∷ turns)
          idle).threads
        0
      ≡ some (done r))
started-done_example =
    started-done env svc fetch true default_config made enqueuer
      (looked (codes "EUR") (codes "MXN")) turns idle tt often

-- A worker that is about to store the price, and the call that does.
abbrev busy : List (Moment Store)
busy =
    posted (codes "eur/mxn")
    ∷ moved 0
    ∷ moved 0
    ∷ moved 0
    ∷ delivered 0
    ∷ moved 1
    ∷ moved 1
    ∷ moved 1
    ∷ moved 1
    ∷ moved 1
    ∷ []

service-Writes_example :
    let pool = run_moments env svc fetch enqueuer busy idle in
    let after = run_moment env svc fetch enqueuer (moved 1) pool in
    Writes env after.world.rows pool.world.cache after.world.cache
service-Writes_example =
    service-Writes env svc fetch true default_config made enqueuer upper-IsCaseTable busy
      empty_world 1 (tt, tt)
