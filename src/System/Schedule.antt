-- ===== src/System/Schedule.antt =====
-- Any number of requests, and a queue that may hand over any task it was ever given, again and
-- again and in any order, while the cache forgets what it likes.
use exchange_rate_quote_serv.Prelude.{
  ℕ, Text, List, [], ◌∷◌, All, All-get_elem?, get_elem?, Option, none, some, ◌≡◌, refl, sym, ap,
  ◌∙◌,
}
use mathlib.Core.Path.{subst}
use exchange_rate_quote_serv.Prelude.Unicode.{IsCaseTable}
use exchange_rate_quote_serv.Errors.{Result, ok, err}
use exchange_rate_quote_serv.Repository.Table.{Quote, has_id, find}
use exchange_rate_quote_serv.Repository.Invariant.{IsValid}
use exchange_rate_quote_serv.Repository.Steps.{Reach, here, reach_trans}
use exchange_rate_quote_serv.Repository.Steps.Valid.{Reach-IsValid}
use exchange_rate_quote_serv.Repository.History.{Keeps, Reach-Keeps}
use exchange_rate_quote_serv.World.{Env, World, UpdateQuotePayload, Task}
use exchange_rate_quote_serv.Provider.Http.{RatesProvider}
use exchange_rate_quote_serv.Provider.Quiet.{IsQuiet}
use exchange_rate_quote_serv.Service.Cache.{QuoteService}
use exchange_rate_quote_serv.Service.Operations.{process_update, fetch_and_complete}
use exchange_rate_quote_serv.Service.Runs.{Runs, request_quote_update-Runs, process_update-Runs}
use exchange_rate_quote_serv.Worker.{
  AsynqEnqueuer, asynq_enqueue_update_task, handle_update_task, handle_payload,
}
use exchange_rate_quote_serv.System.Requests.{request}
use exchange_rate_quote_serv.System.Processing.{process_valid}
use exchange_rate_quote_serv.System.Idle.{process_update_tasks}
use exchange_rate_quote_serv.System.Tasks.{IsTask, AreTasks-Reach, asynq-Runs, request-AreTasks}

pub data Event (S : Type 0) : Type 0 where
  posted : (pair : Text) → Event S
  delivered : (index : ℕ) → Event S
  evicted : S → Event S

-- The table satisfies its constraints, and each task of the queue stands for one of its rows.
abbrev pub IsSound : {S F : Type 0} → Env S F → World S → Type 0
IsSound env w = IsValid w.rows × All (IsTask env w.rows) w.tasks

module _ {S F : Type 0} (env : Env S F) (e : AsynqEnqueuer) (svc : QuoteService)
    (provider : RatesProvider S) where
  abbrev pub deliver : Option Task → World S → World S
  deliver none w = w
  deliver (some task) w = (handle_update_task env (process_update env svc provider) task w).1

  unfoldable pub run_event : Event S → World S → World S
  run_event (posted pair) w = (request env e pair w).1
  run_event (delivered n) w = deliver (get_elem? w.tasks n) w
  run_event (evicted s) w = record w { cache = s }

  unfoldable pub run_events : List (Event S) → World S → World S
  run_events [] w = w
  run_events (x ∷ xs) w = run_events xs (run_event x w)

  module _ (quiet : IsQuiet provider) where
    provider-Runs : (b q : Text) → Runs env.pg (provider b q)
    provider-Runs b q = record {
      run = λ w. subst (Reach env.pg w.rows) (sym ((quiet b q).rows w)) here;
    }

    payload-Reach :
        (r : Result UpdateQuotePayload) (w : World S)
        → Reach env.pg w.rows (handle_payload env (process_update env svc provider) r w).1.rows
    payload-Reach (err x) w = here
    payload-Reach (ok p) w =
        (process_update-Runs env svc provider provider-Runs p.update_id p.base p.quote).run w

    payload_tasks :
        (r : Result UpdateQuotePayload) (w : World S)
        → (handle_payload env (process_update env svc provider) r w).1.tasks ≡ w.tasks
    payload_tasks (err x) w = refl
    payload_tasks (ok p) w =
        process_update_tasks env svc provider quiet p.update_id p.base p.quote w

    deliver-Reach : (o : Option Task) (w : World S) → Reach env.pg w.rows (deliver o w).rows
    unfolding handle_update_task
    deliver-Reach none w = here
    deliver-Reach (some task) w = payload-Reach (env.unmarshal task.payload) w

    deliver_tasks : (o : Option Task) (w : World S) → (deliver o w).tasks ≡ w.tasks
    unfolding handle_update_task
    deliver_tasks none w = refl
    deliver_tasks (some task) w = payload_tasks (env.unmarshal task.payload) w

    run_event-Reach : (x : Event S) (w : World S) → Reach env.pg w.rows (run_event x w).rows
    unfolding run_event
    run_event-Reach (posted pair) w =
        (request_quote_update-Runs env (asynq_enqueue_update_task env e) (asynq-Runs env e)
            pair).run
          w
    run_event-Reach (delivered n) w = deliver-Reach (get_elem? w.tasks n) w
    run_event-Reach (evicted s) w = here

    pub run_events-Reach :
        (xs : List (Event S)) (w : World S) → Reach env.pg w.rows (run_events xs w).rows
    unfolding run_events
    run_events-Reach [] w = here
    run_events-Reach (x ∷ xs) w =
        reach_trans (run_event-Reach x w) (run_events-Reach xs (run_event x w))

    -- Let the provider leave the table and the queue alone. Over any sequence of requests,
    -- deliveries and losses of the cache, a row that is found by its id is found again with its
    -- id, pair and time of request, and a row that is SUCCESS is not changed in any field,
    -- however often its task is delivered.
    pub run_events-Keeps :
        (xs : List (Event S)) (w : World S) (u : Text) (r : Quote)
        → find (has_id u) w.rows ≡ some r
        → (s : Quote) × (find (has_id u) (run_events xs w).rows ≡ some s) × Keeps r s
    run_events-Keeps xs w u r h = Reach-Keeps u r h (run_events-Reach xs w)

    module _ (table : IsCaseTable env.upper) where
      run_event-AreTasks :
          (x : Event S) (w : World S)
          → IsSound env w
          → All (IsTask env (run_event x w).rows) (run_event x w).tasks
      unfolding run_event
      run_event-AreTasks (posted pair) w (valid, sound) =
          request-AreTasks env e pair w table valid sound
      run_event-AreTasks (delivered n) w (valid, sound) =
          let o = get_elem? w.tasks n in
          subst (All (IsTask env (deliver o w).rows)) (sym (deliver_tasks o w))
            (AreTasks-Reach env w.tasks (deliver-Reach o w) sound)
      run_event-AreTasks (evicted s) w (valid, sound) = sound

      -- Let the case table be Unicode's and the provider leave the table and the queue alone. Any
      -- sequence of requests, deliveries of any task that the queue was ever given, and losses of
      -- the cache, with every failure of the calls on the way, keeps this: the table is valid,
      -- and each task of the queue has a payload that was encoded, names a row of the table, and
      -- has that row's pair, which is supported.
      pub run_events-IsSound :
          (xs : List (Event S)) (w : World S) → IsSound env w → IsSound env (run_events xs w)
      unfolding run_events
      run_events-IsSound [] w sound = sound
      run_events-IsSound (x ∷ xs) w sound =
          run_events-IsSound xs (run_event x w)
            (Reach-IsValid sound.0 (run_event-Reach x w), run_event-AreTasks x w sound)

-- What the worker relies on of `encoding/json`: a payload that was written is read back.
pub record RoundTrips {S F : Type 0} (env : Env S F) : Type 0 where
  pub back :
      (p : UpdateQuotePayload) (text : Text) → env.marshal p ≡ ok text → env.unmarshal text ≡ ok p

module _ {S F : Type 0} (env : Env S F) (svc : QuoteService) (provider : RatesProvider S)
    (json : RoundTrips env) where
  -- Let a payload that was encoded be decoded to itself. For each task of a queue whose tasks
  -- have their rows, the worker's handler does what `ProcessUpdate` does behind its two checks,
  -- with the id and the pair that the request has put into the payload: the payload is never
  -- dropped and the pair never refused.
  pub deliver-fetch :
      (w : World S) (n : ℕ) (task : Task)
      → All (IsTask env w.rows) w.tasks
      → get_elem? w.tasks n ≡ some task
      → (t : IsTask env w.rows task) × (handle_update_task env
            (process_update env svc provider)
            task
            w
          ≡ fetch_and_complete env svc provider t.payload.update_id t.payload.base t.payload.quote
              w)
  unfolding handle_update_task
  deliver-fetch w n task sound at =
      let t = All-get_elem? (IsTask env w.rows) w.tasks n task sound at in
      let read = json.back t.payload task.payload t.written in
      let p = t.payload in
      (
        t,
        ap (λ r. handle_payload env (process_update env svc provider) r w) read
            ∙ process_valid env svc provider p.update_id p.base p.quote w (p.base, p.quote)
                t.accepted.normalized t.accepted.validated,
      )
