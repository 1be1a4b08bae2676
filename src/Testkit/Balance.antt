-- ===== src/Testkit/Balance.antt =====
-- The containers that a suite leaves running.
use exchange_rate_quote_serv.Prelude.{
  ℕ, suc, Bool, true, false, List, Option, none, ◌≡◌, ◌⊎◌, arith,
}
use exchange_rate_quote_serv.Errors.{Error}
use exchange_rate_quote_serv.Testkit.Settings.{TestConfig}
use exchange_rate_quote_serv.Testkit.Modules.{
  Containers, RunOutcome, ran, failed, Running, start_postgres, start_redis,
}
use exchange_rate_quote_serv.Testkit.Suite.{new_suite, setup, shutdown_suite, run_suite, all_well}

abbrev pub nothing_running : ℕ → Running
nothing_running k = record { postgres = 0; redis = 0; tick = k }

-- `Run` has returned an error together with a container that runs.
abbrev pub leaves_one : RunOutcome → Bool
leaves_one ran = false
leaves_one (failed started e) = started

module _ (c : Containers) where
  -- Let containers not be kept, and let `Run` of the suite end the process on a new suite. The
  -- exit code is 1, or else it is the code of the tests and the setup and every callback went
  -- well. Each container that was started has been told to stop, unless the `Run` of
  -- testcontainers has returned an error together with a started container: then the exit code is
  -- 1 and this one container runs on.
  pub run_suite-stops :
      (callbacks : List (Option Error)) (code : ℕ) (cfg : TestConfig) (k : ℕ)
      → cfg.keep_containers ≡ false
      → let (exit, w) = run_suite c callbacks code (new_suite cfg) (nothing_running k) in
        (((w.postgres ≡ 0) × (w.redis ≡ 0))
          ⊎ ((w.postgres ≡ 1) × (w.redis ≡ 0) × (exit ≡ 1) × (leaves_one (c.run_postgres k) ≡ true))
          ⊎ ((w.postgres ≡ 0)
              × (w.redis ≡ 1)
              × (exit ≡ 1)
              × ((leaves_one (c.run_redis k) ≡ true)
                  ⊎ (leaves_one (c.run_redis (suc (suc k))) ≡ true))))
        × ((exit ≡ 1)
            ⊎ ((exit ≡ code)
                × (all_well callbacks ≡ true)
                × ((setup c (new_suite cfg) (nothing_running k)).0 ≡ none)))
  unfolding run_suite setup start_postgres start_redis shutdown_suite
  run_suite-stops callbacks code cfg k off = ground arith
