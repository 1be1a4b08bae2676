-- ===== src/Threads/Pool.antt =====
-- All threads of the service at once, over what they share. A moment starts a thread or lets one
-- make its next call: the server starts a thread for each request, and the queue one for each
-- delivery of a task, of which it may deliver any, again and again.
use exchange_rate_quote_serv.Prelude.{
  ℕ, suc, zero, Text, List, [], ◌∷◌, ◌++◌, Option, none, some, get_elem?,
}
use exchange_rate_quote_serv.Errors.{Result, ok, err}
use exchange_rate_quote_serv.World.{Env, World, UpdateQuotePayload, Task}
use exchange_rate_quote_serv.Service.Cache.{QuoteService}
use exchange_rate_quote_serv.Worker.{AsynqEnqueuer, asynq_enqueue_update_task}
use exchange_rate_quote_serv.Threads.Program.{Program, done, call, pure, forget}
use exchange_rate_quote_serv.Threads.Operations.{
  RatesProgram, request_thread, result_thread, latest_thread, process_thread,
}

pub record Pool (S : Type 0) : Type 0 where
  pub world : World S
  pub threads : List (Program S (Unit {0}))

pub data Moment (S : Type 0) : Type 0 where
  posted : (pair : Text) → Moment S
  asked : (id : Text) → Moment S
  looked : (base quote : Text) → Moment S
  delivered : (index : ℕ) → Moment S
  moved : (thread : ℕ) → Moment S
  evicted : S → Moment S

-- The next call of the thread at an index.
unfoldable pub move : {S : Type 0} → ℕ → List (Program S (Unit {0})) → World S → Pool S
move n [] w = record { world = w; threads = [] }
move zero (done r ∷ ps) w = record { world = w; threads = done r ∷ ps }
move zero (call act next ∷ ps) w = record { world = act w; threads = next w ∷ ps }
move (suc n) (p ∷ ps) w =
    let rest = move n ps w in record { world = rest.world; threads = p ∷ rest.threads }

abbrev pub start : {S : Type 0} → List (Program S (Unit {0})) → Pool S → Pool S
start ps pool = record pool { threads = pool.threads ++ ps }

module _ {S F : Type 0} (env : Env S F) (svc : QuoteService) (fetch : RatesProgram S) where
  abbrev pub payload_thread : Result UpdateQuotePayload → Program S (Unit {0})
  payload_thread (err _) = pure tt
  payload_thread (ok p) = process_thread env svc fetch p.update_id p.base p.quote

  -- The function that `NewQuoteUpdateHandler` returns.
  unfoldable pub handle_thread : Task → Program S (Unit {0})
  handle_thread task = payload_thread (env.unmarshal task.payload)

  abbrev pub delivery : Option Task → List (Program S (Unit {0}))
  delivery none = []
  delivery (some task) = handle_thread task ∷ []

  module _ (e : AsynqEnqueuer) where
    unfoldable pub run_moment : Moment S → Pool S → Pool S
    run_moment (posted pair) pool =
        start (forget (request_thread env (asynq_enqueue_update_task env e) pair) ∷ []) pool
    run_moment (asked id) pool = start (forget (result_thread env id) ∷ []) pool
    run_moment (looked base quote) pool =
        start (forget (latest_thread env svc base quote) ∷ []) pool
    run_moment (delivered n) pool = start (delivery (get_elem? pool.world.tasks n)) pool
    run_moment (moved n) pool = move n pool.threads pool.world
    run_moment (evicted s) pool = record pool { world = record pool.world { cache = s } }

    unfoldable pub run_moments : List (Moment S) → Pool S → Pool S
    run_moments [] pool = pool
    run_moments (x ∷ xs) pool = run_moments xs (run_moment x pool)
