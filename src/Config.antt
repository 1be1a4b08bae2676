-- ===== src/Config.antt =====
-- internal/config/config.go: the configuration, its validation and its loading. viper, which
-- merges the file, the environment and the defaults, hands over the decoded record or an error.
pub mod Validation
use exchange_rate_quote_serv.Prelude.{
  ℕ, Text, codes, Bool, true, false, not, ◌||◌, List, [], ◌∷◌, ◌++◌, Option, none, some,
  if◌then◌else◌,
}
use exchange_rate_quote_serv.Prelude.Int.{ℤ, pos, negsuc, is_positive, is_negative, signed_decimal}
use exchange_rate_quote_serv.Errors.{Error, error_text, join_lines, Result, ok, err, ◌>>=◌}

pub record ServerConfig : Type 0 where
  pub port : ℤ
  pub serve_swagger : Bool
  pub serve_asynqmon : Bool

pub record DatabaseConfig : Type 0 where
  pub host : Text
  pub port : ℤ
  pub user : Text
  pub password : Text
  pub name : Text
  pub ssl_mode : Text
  pub max_open_conns : ℤ
  pub max_idle_conns : ℤ
  pub conn_max_lifetime_sec : ℤ
  pub dsn : Text

pub record RedisConfig : Type 0 where
  pub asynq_addr : Text
  pub cache_addr : Text

pub record ExchangeRateHostConfig : Type 0 where
  pub base_url : Text
  pub api_key : Text
  pub timeout : ℤ

pub record FrankfurterConfig : Type 0 where
  pub base_url : Text
  pub timeout : ℤ

pub record WorkerConfig : Type 0 where
  pub concurrency : ℤ
  pub max_retry : ℤ
  pub timeout_sec : ℤ
  pub check_interval_sec : ℤ

pub record CacheConfig : Type 0 where
  pub latest_price_ttl_sec : ℤ
  pub exchange_provider_price_ttl_sec : ℤ

pub record Config : Type 0 where
  pub server : ServerConfig
  pub database : DatabaseConfig
  pub redis : RedisConfig
  pub exchange_rate_host : ExchangeRateHostConfig
  pub frankfurter : FrankfurterConfig
  pub worker : WorkerConfig
  pub cache : CacheConfig

-- The calls of `viper.SetDefault`.
unfoldable pub default_config : Config
default_config = record {
  server = record { port = pos 8080; serve_swagger = true; serve_asynqmon = true };
  database = record {
    host = codes "db";
    port = pos 5432;
    user = codes "postgres";
    password = codes "postgres";
    name = codes "quotesdb";
    ssl_mode = codes "disable";
    max_open_conns = pos 10;
    max_idle_conns = pos 5;
    conn_max_lifetime_sec = pos 300;
    dsn = [];
  };
  redis = record { asynq_addr = codes "redis_asynq:6380"; cache_addr = codes "redis_cache:6381" };
  exchange_rate_host = record {
    base_url = codes "https://api.exchangerate.host";
    api_key = [];
    timeout = pos 5;
  };
  frankfurter = record { base_url = codes "https://api.frankfurter.dev/v1"; timeout = pos 5 };
  worker = record {
    concurrency = pos 1;
    max_retry = pos 3;
    timeout_sec = pos 30;
    check_interval_sec = pos 5;
  };
  cache = record { latest_price_ttl_sec = pos 600; exchange_provider_price_ttl_sec = pos 300 };
}

abbrev pub is_empty : Text → Bool
is_empty [] = true
is_empty (_ ∷ _) = false

-- `if bad { errs = append(errs, …) }`
abbrev pub complain : Bool → Text → List Text → List Text
complain true msg rest = msg ∷ rest
complain false msg rest = rest

abbrev must_be : Text → ℤ → Text
must_be what n = what ++ (codes ", got " ++ signed_decimal n)

abbrev not_positive : ℤ → Text → List Text → List Text
not_positive n what = complain (not (is_positive n)) (must_be (what ++ codes " must be positive") n)

-- The second half of `Validate`: the worker and the caches.
abbrev worker_errors : WorkerConfig → List Text → List Text
worker_errors w rest = not_positive w.concurrency (codes "worker.concurrency") (
    complain (is_negative w.max_retry)
      (must_be (codes "worker.max_retry must be non-negative") w.max_retry)
      (not_positive w.timeout_sec (codes "worker.timeout_sec")
        (not_positive w.check_interval_sec (codes "worker.check_interval_sec") rest)))

abbrev cache_errors : CacheConfig → List Text
cache_errors c = not_positive c.latest_price_ttl_sec (codes "cache.latest_price_ttl_sec") (
    not_positive c.exchange_provider_price_ttl_sec (codes "cache.exchange_provider_price_ttl_sec")
      [])

abbrev redis_errors : RedisConfig → List Text → List Text
redis_errors r rest =
    complain (is_empty r.asynq_addr)
      (codes "redis.asynq_addr is required (set QUOTESVC_REDIS_ASYNQ_ADDR)")
      (complain (is_empty r.cache_addr)
        (codes "redis.cache_addr is required (set QUOTESVC_REDIS_CACHE_ADDR)") rest)

abbrev database_errors : DatabaseConfig → List Text → List Text
database_errors d rest = complain (is_empty d.host) (codes "database.host is required") (
    not_positive d.port (codes "database.port") (
      complain (is_empty d.user) (codes "database.user is required")
        (complain (is_empty d.name) (codes "database.name is required") rest)))

-- The errors that `Validate` appends, in its order.
unfoldable pub validation_errors : Config → List Text
validation_errors c = not_positive c.server.port (codes "server.port") (
    database_errors c.database
      (redis_errors c.redis (worker_errors c.worker (cache_errors c.cache))))

-- `errors.Join`, which is `nil` for no errors.
abbrev pub join_errors : List Text → Result (Unit {0})
join_errors [] = ok tt
join_errors (t ∷ ts) = err (Error.failure (join_lines (t ∷ ts)))

-- `Validate`
unfoldable pub validate : Config → Result (Unit {0})
unfolding validation_errors
validate c = join_errors (validation_errors c)

-- `if n <= 0 { n = d }`
abbrev pub or_positive : ℤ → ℤ → ℤ
or_positive d n = if is_positive n then n else d

unfoldable pub dsn_of : DatabaseConfig → Text
dsn_of d =
    codes "postgres://"
    ++ (d.user
        ++ b':'
          ∷ (d.password
              ++ b'@'
                ∷ (d.host
                    ++ b':'
                      ∷ (signed_decimal d.port
                          ++ b'/' ∷ (d.name ++ (codes "?sslmode=" ++ d.ssl_mode))))))

-- The pool settings and the DSN, which follow the validation.
unfoldable pub complete : Config → Config
unfolding dsn_of
complete c = record c {
  database = record c.database {
    max_open_conns = or_positive (pos 10) c.database.max_open_conns;
    max_idle_conns = or_positive (pos 5) c.database.max_idle_conns;
    conn_max_lifetime_sec = or_positive (pos 300) c.database.conn_max_lifetime_sec;
    dsn = dsn_of c.database;
  };
}

abbrev explained : {A : Type 0} → Text → Result A → Result A
explained what (ok a) = ok a
explained what (err e) = err (Error.failure (what ++ (codes ": " ++ error_text e)))

-- `LoadConfig`, from what `viper.Unmarshal` gives.
unfoldable pub load_config : Result Config → Result Config
unfolding validate complete
load_config decoded = explained (codes "error unmarshaling config") decoded >>= λ c.
    explained (codes "config validation failed") (validate c) >>= λ _. ok (complete c)
