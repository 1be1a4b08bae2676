-- ===== src/Repository/Connection.antt =====
-- db.go: `NewPostgresDB`, over package sql, which opens and pings.
use exchange_rate_quote_serv.Prelude.{ℕ, codes, ◌++◌, List, [], ◌∷◌, Option, none, some}
use exchange_rate_quote_serv.Prelude.Int.{ℤ, seconds}
use exchange_rate_quote_serv.Errors.{Error, error_text, Result, ok, err}
use exchange_rate_quote_serv.Config.{DatabaseConfig}

-- The settings of a pool; the lifetime is in nanoseconds.
pub record PoolSettings : Type 0 where
  pub max_open_conns : ℤ
  pub max_idle_conns : ℤ
  pub conn_max_lifetime : ℕ

-- What happens to the pool on the way.
pub data PoolEvent : Type 0 where
  opened pinged closed : PoolEvent

abbrev pub pool_of : DatabaseConfig → PoolSettings
pool_of cfg = record {
  max_open_conns = cfg.max_open_conns;
  max_idle_conns = cfg.max_idle_conns;
  conn_max_lifetime = seconds cfg.conn_max_lifetime_sec;
}

abbrev pub ping_pool : Option Error → PoolSettings → Result PoolSettings × List PoolEvent
ping_pool none pool = (ok pool, opened ∷ pinged ∷ [])
ping_pool (some e) pool = (
  err (Error.failure (codes "unable to connect to database: " ++ error_text e)),
  opened ∷ pinged ∷ closed ∷ [],
)

abbrev pub open_pool :
    Option Error → Option Error → PoolSettings → Result PoolSettings × List PoolEvent
open_pool (some e) ping pool = (err e, [])
open_pool none ping pool = ping_pool ping pool

-- `NewPostgresDB`, with the errors of `sql.Open` and of the ping.
unfoldable pub new_postgres_db :
    Option Error → Option Error → DatabaseConfig → Result PoolSettings × List PoolEvent
new_postgres_db opening ping cfg = open_pool opening ping (pool_of cfg)
