-- ===== src/Testkit/Settings.antt =====
-- internal/testkit/config.go: the settings of the tests, from the environment.
use exchange_rate_quote_serv.Prelude.{
  ℕ, Text, codes, text_eq, Bool, true, false, [], ◌∷◌, any, Option, none, some, if◌then◌else◌, ◌≡◌,
  ◌≤◌, ◌*◌, arith,
}
use Prim.Native.Nat.{◌%◌}

-- A `time.Duration`, and an `int`: the 64 bits of it, read as a natural number.
abbrev pub Word : Type 0
Word = ℕ

abbrev pub word_size : ℕ
word_size = 18446744073709551616

-- The environment, and the parsers of packages time and strconv; `none` is an error.
pub record Environment : Type 0 where
  pub getenv : Text → Text
  pub parse_duration : Text → Option Word
  pub atoi : Text → Option Word

pub record TestConfig : Type 0 where
  pub pg_image : Text
  pub redis_image : Text
  pub pg_dsn : Text
  pub redis_addr : Text
  pub startup_timeout : Word
  pub keep_containers : Bool

-- `time.Duration(secs) * time.Second`
abbrev pub times_second : Word → Word
times_second secs = (secs * 1000000000) % word_size

-- `strconv.ParseBool`
unfoldable pub parse_bool : Text → Option Bool
parse_bool s =
    if any (text_eq s)
      (codes "1" ∷ codes "t" ∷ codes "T" ∷ codes "TRUE" ∷ codes "true" ∷ codes "True" ∷ [])
    then some true
    else if any (text_eq s)
        (codes "0" ∷ codes "f" ∷ codes "F" ∷ codes "FALSE" ∷ codes "false" ∷ codes "False" ∷ [])
    then some false
    else none

abbrev pub value_or : {A : Type 0} → A → Option A → A
value_or def none = def
value_or def (some a) = a

module _ (e : Environment) where
  abbrev pub nonempty_or : Text → Text → Text
  nonempty_or def [] = def
  nonempty_or def (c ∷ s) = c ∷ s

  -- `envOrDefault`
  unfoldable pub env_or_default : Text → Text → Text
  env_or_default key def = nonempty_or def (e.getenv key)

  abbrev pub as_seconds : Option Word → Option Word
  as_seconds none = none
  as_seconds (some secs) = some (times_second secs)

  abbrev pub duration_or_seconds : Text → Option Word → Option Word
  duration_or_seconds v (some d) = some d
  duration_or_seconds v none = as_seconds (e.atoi v)

  abbrev pub parsed_duration : Text → Option Word
  parsed_duration [] = none
  parsed_duration (c ∷ s) = duration_or_seconds (c ∷ s) (e.parse_duration (c ∷ s))

  -- `envDurationOrDefault`
  unfoldable pub env_duration_or_default : Text → Word → Word
  env_duration_or_default key def = value_or def (parsed_duration (e.getenv key))

  abbrev pub parsed_bool : Text → Option Bool
  parsed_bool [] = none
  parsed_bool (c ∷ s) = parse_bool (c ∷ s)

  -- `envBoolOrDefault`
  unfoldable pub env_bool_or_default : Text → Bool → Bool
  env_bool_or_default key def = value_or def (parsed_bool (e.getenv key))

  -- `LoadConfig`
  unfoldable pub load_test_config : TestConfig
  unfolding env_or_default env_duration_or_default env_bool_or_default
  load_test_config = record {
    pg_image = env_or_default (codes "TEST_PG_IMAGE") (codes "postgres:18.1-alpine");
    redis_image = env_or_default (codes "TEST_REDIS_IMAGE") (codes "redis:8.4.0-alpine");
    pg_dsn = e.getenv (codes "TEST_PG_DSN");
    redis_addr = e.getenv (codes "TEST_REDIS_ADDR");
    startup_timeout = env_duration_or_default (codes "TEST_STARTUP_TIMEOUT") (times_second 90);
    keep_containers = env_bool_or_default (codes "KEEP_CONTAINERS") false;
  }

-- A number of seconds up to 292 years is that many nanoseconds; above, the product wraps around.
pub times_second-eq : (secs : Word) → secs ≤ 9223372036 → times_second secs ≡ secs * 1000000000
times_second-eq secs h = omega arith
