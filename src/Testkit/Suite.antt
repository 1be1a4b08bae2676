-- ===== src/Testkit/Suite.antt =====
-- internal/testkit/suite.go: one suite, whose operations its mutex puts one after the other.
use exchange_rate_quote_serv.Prelude.{
  ℕ, Text, codes, ◌++◌, Bool, true, false, List, [], ◌∷◌, Option, none, some, if◌then◌else◌,
}
use exchange_rate_quote_serv.Errors.{Error, error_text, Result, ok, err}
use exchange_rate_quote_serv.Testkit.Settings.{TestConfig}
use exchange_rate_quote_serv.Testkit.Modules.{
  Containers, Running, PostgresModule, RedisModule, start_postgres, start_redis, terminate_postgres,
  terminate_redis,
}

pub record Suite : Type 0 where
  pub cfg : TestConfig
  pub pg : Option PostgresModule
  pub redis : Option RedisModule
  pub ready : Bool

abbrev pub new_suite : TestConfig → Suite
new_suite cfg = record { cfg = cfg; pg = none; redis = none; ready = false }

abbrev setup_error : Text → Error → Error
setup_error what e = Error.failure (what ++ (codes ": " ++ error_text e))

abbrev pub stop_postgres : Option PostgresModule → Running → Running
stop_postgres none w = w
stop_postgres (some m) w = terminate_postgres m.container w

abbrev pub stop_redis : Option RedisModule → Running → Running
stop_redis none w = w
stop_redis (some m) w = terminate_redis m.container w

-- What an operation of the suite leaves.
abbrev pub Done : Type 0
Done = Option Error × Suite × Running

module _ (c : Containers) where
  abbrev pub redis_started : PostgresModule → Suite → Result RedisModule × Running → Done
  redis_started pg s (ok m, w) = (none, record s { redis = some m; ready = true }, w)
  redis_started pg s (err e, w) = (
    some (setup_error (codes "setup redis") e),
    s,
    if s.cfg.keep_containers then w else terminate_postgres pg.container w,
  )

  abbrev pub postgres_started : Suite → Result PostgresModule × Running → Done
  postgres_started s (ok m, w) = redis_started m (record s { pg = some m }) (start_redis c s.cfg w)
  postgres_started s (err e, w) = (some (setup_error (codes "setup postgres") e), s, w)

  abbrev pub setup_ready : Bool → Suite → Running → Done
  setup_ready true s w =
      (some (Error.failure (codes "suite already set up; call Shutdown first")), s, w)
  setup_ready false s w = postgres_started s (start_postgres c s.cfg w)

  -- `Setup`
  unfoldable pub setup : Suite → Running → Done
  setup s w = setup_ready s.ready s w

abbrev pub shutdown_ready : Bool → Bool → Suite → Running → Suite × Running
shutdown_ready false keep s w = (s, w)
shutdown_ready true true s w = (record s { ready = false }, w)
shutdown_ready true false s w =
    (record s { ready = false }, stop_postgres s.pg (stop_redis s.redis w))

-- `Shutdown`; an error of `Terminate` is printed only.
unfoldable pub shutdown_suite : Suite → Running → Suite × Running
shutdown_suite s w = shutdown_ready s.ready s.cfg.keep_containers s w

-- `PostgresDSN` and `RedisAddr`
unfoldable pub suite_postgres_dsn : Suite → Text
suite_postgres_dsn s = elim s.pg [ none ↦ [] | some m ↦ m.dsn ]

unfoldable pub suite_redis_addr : Suite → Text
suite_redis_addr s = elim s.redis [ none ↦ [] | some m ↦ m.addr ]

-- The callbacks in turn: whether all went well.
abbrev pub all_well : List (Option Error) → Bool
all_well [] = true
all_well (none ∷ es) = all_well es
all_well (some e ∷ es) = false

abbrev pub run_tests : Bool → ℕ → Suite × Running → ℕ × Running
run_tests true code (s, w) = (code, (shutdown_suite s w).1)
run_tests false code (s, w) = (1, (shutdown_suite s w).1)

abbrev pub run_set_up : List (Option Error) → ℕ → Done → ℕ × Running
run_set_up callbacks code (some e, s, w) = (1, w)
run_set_up callbacks code (none, s, w) = run_tests (all_well callbacks) code (s, w)

-- `Run`: the exit code of the process. `code` is what `m.Run` returns.
unfoldable pub run_suite : Containers → List (Option Error) → ℕ → Suite → Running → ℕ × Running
run_suite c callbacks code s w = run_set_up callbacks code (setup c s w)
