-- ===== src/Testkit/Modules.antt =====
-- internal/testkit/postgres.go and redis.go: a container, or the address of a server outside.
use exchange_rate_quote_serv.Prelude.{
  ℕ, suc, ◌+◌, ◌-◌, Text, codes, ◌++◌, Bool, true, false, [], ◌∷◌,
}
use exchange_rate_quote_serv.Errors.{Error, error_text, Result, ok, err}
use exchange_rate_quote_serv.Testkit.Settings.{TestConfig}

-- What `Run` of package testcontainers returns: a container that has started, or an error with,
-- where `started` is true, a container that runs all the same.
pub data RunOutcome : Type 0 where
  ran : RunOutcome
  failed : (started : Bool) → (e : Error) → RunOutcome

-- What package testcontainers and `url.Parse` return, call by call.
pub record Containers : Type 0 where
  pub run_postgres : ℕ → RunOutcome
  pub run_redis : ℕ → RunOutcome
  pub connection_string : ℕ → Result Text
  pub host : Text → Result Text

-- The containers that have been started and not been told to stop.
pub record Running : Type 0 where
  pub postgres : ℕ
  pub redis : ℕ
  pub tick : ℕ

-- `container` is that it is not `nil`.
pub record PostgresModule : Type 0 where
  pub container : Bool
  pub dsn : Text

pub record RedisModule : Type 0 where
  pub container : Bool
  pub addr : Text

abbrev module_error : Text → Error → Error
module_error what e = Error.failure (what ++ (codes ": " ++ error_text e))

abbrev as_count : Bool → ℕ
as_count true = 1
as_count false = 0

-- `Terminate`
abbrev pub terminate_postgres : Bool → Running → Running
terminate_postgres true w = record w { postgres = w.postgres - 1 }
terminate_postgres false w = w

abbrev pub terminate_redis : Bool → Running → Running
terminate_redis true w = record w { redis = w.redis - 1 }
terminate_redis false w = w

module _ (c : Containers) where
  abbrev pub postgres_connected : Result Text → Running → Result PostgresModule × Running
  postgres_connected (ok dsn) w = (ok (record { container = true; dsn = dsn }), w)
  postgres_connected (err e) w =
      (err (module_error (codes "get postgres connection string") e), terminate_postgres true w)

  abbrev pub postgres_ran : RunOutcome → Running → Result PostgresModule × Running
  postgres_ran (failed started e) w = (
    err (module_error (codes "start postgres container") e),
    record w { postgres = w.postgres + as_count started; tick = suc w.tick },
  )
  postgres_ran ran w =
      postgres_connected (c.connection_string (suc w.tick))
        (record w { postgres = suc w.postgres; tick = suc (suc w.tick) })

  abbrev pub postgres_at : Text → Running → Result PostgresModule × Running
  postgres_at [] w = postgres_ran (c.run_postgres w.tick) w
  postgres_at (x ∷ dsn) w = (ok (record { container = false; dsn = x ∷ dsn }), w)

  -- `StartPostgres`
  unfoldable pub start_postgres : TestConfig → Running → Result PostgresModule × Running
  start_postgres cfg w = postgres_at cfg.pg_dsn w

  abbrev pub redis_parsed : Result Text → Running → Result RedisModule × Running
  redis_parsed (ok addr) w = (ok (record { container = true; addr = addr }), w)
  redis_parsed (err e) w =
      (err (module_error (codes "parse redis connection string") e), terminate_redis true w)

  abbrev pub redis_connected : Result Text → Running → Result RedisModule × Running
  redis_connected (ok text) w = redis_parsed (c.host text) w
  redis_connected (err e) w =
      (err (module_error (codes "get redis connection string") e), terminate_redis true w)

  abbrev pub redis_ran : RunOutcome → Running → Result RedisModule × Running
  redis_ran (failed started e) w = (
    err (module_error (codes "start redis container") e),
    record w { redis = w.redis + as_count started; tick = suc w.tick },
  )
  redis_ran ran w =
      redis_connected (c.connection_string (suc w.tick))
        (record w { redis = suc w.redis; tick = suc (suc w.tick) })

  abbrev pub redis_at : Text → Running → Result RedisModule × Running
  redis_at [] w = redis_ran (c.run_redis w.tick) w
  redis_at (x ∷ addr) w = (ok (record { container = false; addr = x ∷ addr }), w)

  -- `StartRedis`
  unfoldable pub start_redis : TestConfig → Running → Result RedisModule × Running
  start_redis cfg w = redis_at cfg.redis_addr w
