-- ===== src/Threads/Service.antt =====
-- The threads of the whole service, with the providers that a configuration gives.
use exchange_rate_quote_serv.Prelude.{
  ℕ, Text, Bool, List, [], ◌∷◌, ◌++◌, length, some, get_elem?, ◌≤◌, ◌≡◌, refl, arith,
}
use exchange_rate_quote_serv.Errors.{Result, ok, err}
use exchange_rate_quote_serv.World.{Env, World, UpdateQuotePayload, Task}
use exchange_rate_quote_serv.Config.{Config}
use exchange_rate_quote_serv.Service.Cache.{QuoteService}
use exchange_rate_quote_serv.Service.Operations.{TaskEnqueuer}
use exchange_rate_quote_serv.Worker.{AsynqEnqueuer}
use exchange_rate_quote_serv.Threads.Program.{Program, done}
use exchange_rate_quote_serv.Threads.Operations.{
  RatesProgram, request_thread, result_thread, latest_thread, process_thread,
}
use exchange_rate_quote_serv.Threads.Providers.{new_rate_thread}
use exchange_rate_quote_serv.Threads.Ends.{EndsIn, more_EndsIn, forget-EndsIn, done-EndsIn}
use exchange_rate_quote_serv.Threads.Bounds.{
  request_thread-EndsIn, result_thread-EndsIn, latest_thread-EndsIn, process_thread-EndsIn,
}
use exchange_rate_quote_serv.Threads.Rates.{new_rate_thread-IsThreadOf}
use exchange_rate_quote_serv.Threads.Pool.{
  Pool, Moment, posted, asked, looked, delivered, moved, evicted, payload_thread, handle_thread,
  run_moment, run_moments,
}
use exchange_rate_quote_serv.Prelude.Unicode.{IsCaseTable}
use exchange_rate_quote_serv.Repository.Table.{Quote, Table, has_id, find}
use exchange_rate_quote_serv.Repository.History.{Keeps}
use exchange_rate_quote_serv.System.Schedule.{IsSound}
use exchange_rate_quote_serv.Threads.Ensures.{IsSafe}
use exchange_rate_quote_serv.Threads.Schedule.{
  moved-Writes, run_moments-IsPoolSound, run_moments-Keeps,
}
use exchange_rate_quote_serv.Threads.Writes.{Writes}
use exchange_rate_quote_serv.Threads.Progress.{HasLeft, moves, run_moments-done}

module _ {S F : Type 0} (env : Env S F) (svc : QuoteService) (fetch : RatesProgram S) where
  -- A moment at which a thread starts.
  abbrev pub IsStart : Moment S → Pool S → Type 0
  IsStart (delivered n) pool = (task : Task) × (get_elem? pool.world.tasks n ≡ some task)
  IsStart (moved n) pool = ⊥
  IsStart (evicted s) pool = ⊥
  IsStart _ pool = Unit

  get_last :
      (ps : List (Program S (Unit {0}))) (p : Program S (Unit {0}))
      → get_elem? (ps ++ p ∷ []) (length ps) ≡ some p
  get_last [] p = refl
  get_last (q ∷ ps) p = get_last ps p

  last-HasLeft :
      (k : ℕ) (ps : List (Program S (Unit {0}))) (p : Program S (Unit {0}))
      → EndsIn k p
      → HasLeft (length ps) k (ps ++ p ∷ [])
  last-HasLeft k ps p h = record { thread = p; at = get_last ps p; within = h.within }

  module _ (has_cache : Bool) (cfg : Config)
      (made : new_rate_thread env has_cache cfg ≡ ok fetch) where
    -- The threads of the operations make at most this many calls of PostgreSQL, Redis, the queue
    -- and the HTTP APIs, whatever these return: a request 4, a look-up by id 1, a look-up of the
    -- latest price 3, and an update 9 with a provider that `newRateProvider` makes of a
    -- configuration.
    pub operations-EndsIn :
        (enqueuer : TaskEnqueuer S) (pair id base quote : Text)
        → EndsIn 4 (request_thread env enqueuer pair)
          × EndsIn 1 (result_thread env id)
          × EndsIn 3 (latest_thread env svc base quote)
          × EndsIn 9 (process_thread env svc fetch id base quote)
    operations-EndsIn enqueuer pair id base quote =
        let (p, _, whole) = new_rate_thread-IsThreadOf env has_cache cfg fetch made in
        (
          request_thread-EndsIn env enqueuer pair,
          result_thread-EndsIn env id,
          latest_thread-EndsIn env svc base quote,
          process_thread-EndsIn env svc 6 fetch whole.ends id base quote,
        )

    payload-EndsIn : (r : Result UpdateQuotePayload) → EndsIn 9 (payload_thread env svc fetch r)
    payload-EndsIn (err _) = done-EndsIn 9 _
    payload-EndsIn (ok p) =
        let (x, _, whole) = new_rate_thread-IsThreadOf env has_cache cfg fetch made in
        process_thread-EndsIn env svc 6 fetch whole.ends p.update_id p.base p.quote

    module _ (e : AsynqEnqueuer) where
      start-HasLeft :
          (x : Moment S) (pool : Pool S)
          → IsStart x pool
          → HasLeft (length pool.threads) 9 (run_moment env svc fetch e x pool).threads
      unfolding run_moment handle_thread
      start-HasLeft (posted pair) pool h =
          last-HasLeft 9 pool.threads _
            (forget-EndsIn (more_EndsIn 9 (ground arith) (request_thread-EndsIn env _ pair)))
      start-HasLeft (asked id) pool h =
          last-HasLeft 9 pool.threads _
            (forget-EndsIn (more_EndsIn 9 (ground arith) (result_thread-EndsIn env id)))
      start-HasLeft (looked b q) pool h =
          last-HasLeft 9 pool.threads _
            (forget-EndsIn (more_EndsIn 9 (ground arith) (latest_thread-EndsIn env svc b q)))
      start-HasLeft (delivered n) pool (task, at) =
          rw at (last-HasLeft 9 pool.threads _ (payload-EndsIn (env.unmarshal task.payload)))
      start-HasLeft (moved n) pool h = absurd h
      start-HasLeft (evicted s) pool h = absurd h

      -- Let the provider be one that `newRateProvider` makes of a configuration. A thread that
      -- starts for a request, a look-up or a task has ended once it has been scheduled nine
      -- times, whatever its calls return, whatever other threads start, and wherever their calls
      -- come in between.
      pub started-done :
          (x : Moment S) (xs : List (Moment S)) (pool : Pool S)
          → IsStart x pool
          → 9 ≤ moves (length pool.threads) xs
          → (r : Result (Unit {0})) × (get_elem?
                (run_moments env svc fetch e (x ∷ xs) pool).threads
                (length pool.threads)
              ≡ some (done r))
      unfolding run_moments
      started-done x xs pool starts enough =
          run_moments-done env svc fetch e xs (run_moment env svc fetch e x pool)
            (length pool.threads) 9 (start-HasLeft x pool starts) enough

      module _ (table : IsCaseTable env.upper) where
        configured-IsSafe : (b q : Text) (t : Table) → IsSafe env t (fetch b q)
        configured-IsSafe b q t =
            let (x, _, whole) = new_rate_thread-IsThreadOf env has_cache cfg fetch made in
            whole.safe b q t

        -- Let the case table be Unicode's and the provider one that `newRateProvider` makes of a
        -- configuration. Start with no thread, a valid table and a queue whose tasks have their
        -- rows. Whatever requests and look-ups come in, whichever task the queue delivers,
        -- however often, and however the calls of all these threads to PostgreSQL, Redis, the
        -- queue and the HTTP APIs interleave, succeed and fail, the table is valid afterwards,
        -- and each task of the queue has a payload that was encoded, names a row of the table,
        -- and has that row's pair, which is supported.
        pub service-IsSound :
            (xs : List (Moment S)) (w : World S)
            → IsSound env w
            → IsSound env
                (run_moments env svc fetch e xs (record { world = w; threads = [] })).world
        service-IsSound xs w sound =
            (run_moments-IsPoolSound env e svc fetch configured-IsSafe table xs _
              (record { sound = sound; safe = tt })).sound

        -- Let the case table be Unicode's and the provider one that `newRateProvider` makes of a
        -- configuration, and start with no thread and a sound world. A row that is found by its
        -- id behind any interleaving is found again behind any further one, with its id, pair and
        -- time of request, and if it was SUCCESS, it is not changed in any field, even where
        -- several workers have its task at once.
        pub service-Keeps :
            (xs ys : List (Moment S)) (w : World S) (u : Text) (r : Quote)
            → IsSound env w
            → let pool = run_moments env svc fetch e xs (record { world = w; threads = [] }) in
              find (has_id u) pool.world.rows ≡ some r
              → (s : Quote) × (find (has_id u) (run_moments env svc fetch e ys pool).world.rows
                  ≡ some s)
                × Keeps r s
        service-Keeps xs ys w u r sound found =
            run_moments-Keeps env e svc fetch configured-IsSafe table ys _ u r
              (run_moments-IsPoolSound env e svc fetch configured-IsSafe table xs _
                (record { sound = sound; safe = tt }))
              found

        -- Let the case table be Unicode's and the provider one that `newRateProvider` makes of a
        -- configuration, and start with no thread and a sound world. Behind any interleaving,
        -- whichever thread makes its next call, the call writes nothing into Redis, or a rate
        -- under a key of a provider, or, under the key of the latest price of a pair, a price
        -- that a SUCCESS row of the table has, as it is or as PostgreSQL prints it.
        pub service-Writes :
            (xs : List (Moment S)) (w : World S) (n : ℕ)
            → IsSound env w
            → let pool = run_moments env svc fetch e xs (record { world = w; threads = [] }) in
              let after = run_moment env svc fetch e (moved n) pool in
              Writes env after.world.rows pool.world.cache after.world.cache
        unfolding run_moment
        service-Writes xs w n sound = moved-Writes env n _ (
            run_moments-IsPoolSound env e svc fetch configured-IsSafe table xs _
              (record { sound = sound; safe = tt }))
