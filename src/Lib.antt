-- ===== src/Lib.antt =====
-- The exchange rate quote service: a client asks for the price of a currency pair, a worker fetches
-- it, and the client reads it by the id of its request or as the latest of the pair.
--
-- The parts and their files. A text is a list of code points (Prelude/Texts.antt), and an operation
-- is a function from the state to its result and the new state (World.antt). The state has the
-- table of quotes, the content of the cache, and all tasks that the queue was ever given. `Env` has
-- every call outside the code: the links to PostgreSQL and the queue, Redis, HTTP, JSON, UUIDs,
-- time. Each call takes a tick, and its outcome is any function of the tick, so every pattern of
-- failures is covered. An interleaving of handlers and workers is a list of steps
-- (Repository/Calls.antt: of single statements; System/Schedule.antt: of whole operations;
-- Threads/Pool.antt: of the calls of any number of operations that run at once).
--
-- + Errors.antt: the sentinel errors of internal/service and `errors.Join`.
-- + Currency.antt: internal/service/quote_service_utils.go and validator.go.
-- + Repository.antt: internal/repository/quote_repo.go over migrations/001_init.sql. Table has the
--   statements and its child Rows the rows, Methods the methods and their errors, Invariant and
--   Steps the constraints and the steps that keep them, History what becomes of a row, Dedup,
--   Updates, Latest, Prices and Newest the methods one by one. View, Spec and Refinement have the
--   table as a map from ids to rows. Connection has db.go.
-- + Migrations.antt: internal/repository/migrations.go.
-- + Provider.antt: internal/provider; Http has the two clients, Cached the decorator, Facade the
--   facade, Quiet, Hits and Order their laws.
-- + Service.antt: internal/service; Operations has quote_service.go, Cache quote_service_cache.go,
--   QuoteResult quote_result.go, Latest and Runs laws of the operations.
-- + Worker.antt: internal/worker/worker.go.
-- + Api.antt: internal/api; Quotes, Health, Response and Middleware have the code, Endpoints,
--   Lookups, ById and Logging the handlers over the service. Document has internal/api/docs/docs.go
--   as data, and what the handlers answer against it.
-- + Config.antt: internal/config/config.go.
-- + App.antt: cmd/app; Providers has `newRateProvider`, Lifecycle what is opened and closed, with the
--   Redis connection that asynq's server makes of its own, Balance what is open behind it, Run,
--   Ordered, Over and Finishing the three goroutines of `Run`, Routes routes.go with
--   internal/api/swagger.go, Documented these against the API document, Main main.go.
-- + System.antt: the service with its queue, over a request, an update and a schedule of both.
-- + Threads.antt: internal/service, internal/provider and the worker's handler once more, as
--   threads. Program has a thread as a tree of its calls, Operations and Providers the code, Pool
--   all threads at once; Alone, Idle, Writes, Keeps, Ensures, Safe, Ends, Bounds, Rates, Schedule,
--   Progress and Service have the laws.
-- + Testkit.antt: internal/testkit; Settings has config.go, Modules postgres.go and redis.go, Suite
--   suite.go, Balance what runs when the tests end.
-- + Tests.antt: concrete runs, and each theorem at a concrete input.
--
-- The two models of the service differ in what others may see: in Service/Operations.antt an
-- operation is one function from world to world, and in Threads/Operations.antt it is left between
-- any two of its calls. A call itself is one step: a statement of PostgreSQL, a command of Redis,
-- the handing over of a task, an exchange with an HTTP API.
--
-- Every loop of the code is structural recursion. Only the decimal digits of a number are printed
-- on fuel (Prelude/Decimal.antt), one more than the number, which falls with every digit. Times are
-- natural numbers, and the configuration's numbers are integers. Durations are numbers of nanoseconds
-- in 64 bits, which wrap around where the code multiplies a number of seconds by `time.Second`
-- (Prelude/Int.antt). The printed price is a text throughout: PostgreSQL's NUMERIC(18,6) is the
-- parameter `numeric`.
--
-- Not modelled: log lines, contexts and their deadlines (a call that runs out of time is a lost or
-- unacknowledged one), the JSON decoder and encoder (but for the keys that it writes), the float
-- formatting, the matching of paths by the router, the registration of the API document and its
-- pages, and the helpers of the integration tests (internal/integration).
-- The hypotheses on outside code are `IsCaseTable` (the case table of package unicode),
-- `MakesUuids` (ids that PostgreSQL prints as they are), `RoundTrips` (a payload that is written is
-- read back), and `Remembers` (Redis has what was stored last when it is asked next).
pub mod Prelude
pub mod Errors
pub mod Currency
pub mod Repository
pub mod World
pub mod Provider
pub mod Service
pub mod Worker
pub mod System
pub mod Testkit
pub mod Threads
mod Tests
pub mod Api
pub mod Config
pub mod Migrations
pub mod App
