-- ===== src/Tests/Kit.antt =====
-- A suite of tests whose Redis comes up too late.
use exchange_rate_quote_serv.Prelude.{
  codes, List, [], ◌∷◌, Option, none, some, ◌≡◌, ◌⊎◌, refl, true, false,
}
use exchange_rate_quote_serv.Errors.{Error, ok}
use exchange_rate_quote_serv.Testkit.Settings.{TestConfig}
use exchange_rate_quote_serv.Testkit.Modules.{Containers, ran, failed, start_postgres, start_redis}
use exchange_rate_quote_serv.Testkit.Suite.{new_suite, setup, run_suite, all_well}
use exchange_rate_quote_serv.Testkit.Balance.{nothing_running, leaves_one, run_suite-stops}

abbrev containers : Containers
containers = record {
  run_postgres = λ k. ran;
  run_redis = λ k. failed true (Error.failure (codes "deadline exceeded"));
  connection_string = λ k. ok (codes "redis://localhost:6379");
  host = λ url. ok (codes "localhost:6379");
}

abbrev settings : TestConfig
settings = record {
  pg_image = codes "postgres:18.1-alpine";
  redis_image = codes "redis:8.4.0-alpine";
  pg_dsn = [];
  redis_addr = [];
  startup_timeout = 90000000000;
  keep_containers = false;
}

abbrev callbacks : List (Option Error)
callbacks = none ∷ some (Error.failure (codes "no migrations")) ∷ []

run_suite-stops_example :
    let (exit, w) = run_suite containers callbacks 0 (new_suite settings) (nothing_running 0) in
    (((w.postgres ≡ 0) × (w.redis ≡ 0))
      ⊎ ((w.postgres ≡ 1)
          × (w.redis ≡ 0)
          × (exit ≡ 1)
          × (leaves_one (containers.run_postgres 0) ≡ true))
      ⊎ ((w.postgres ≡ 0)
          × (w.redis ≡ 1)
          × (exit ≡ 1)
          × ((leaves_one (containers.run_redis 0) ≡ true)
              ⊎ (leaves_one (containers.run_redis 2) ≡ true))))
    × ((exit ≡ 1)
        ⊎ ((exit ≡ 0)
            × (all_well callbacks ≡ true)
            × ((setup containers (new_suite settings) (nothing_running 0)).0 ≡ none)))
run_suite-stops_example = run_suite-stops containers callbacks 0 settings 0 refl

run_suite_left :
    let (exit, w) = run_suite containers callbacks 0 (new_suite settings) (nothing_running 0) in
    (exit ≡ 1) × (w.postgres ≡ 0) × (w.redis ≡ 1)
unfolding run_suite setup start_postgres start_redis
run_suite_left = (refl, refl, refl)
