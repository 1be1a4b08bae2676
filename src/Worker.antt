-- ===== src/Worker.antt =====
-- internal/worker/worker.go: the handler of the queue's tasks, and the enqueuer.
use exchange_rate_quote_serv.Prelude.{ℕ, suc, Text, [], ◌∷◌, ◌++◌}
use exchange_rate_quote_serv.Errors.{Error, Result, ok, err}
use exchange_rate_quote_serv.Repository.Methods.{up, lost, unacknowledged}
use exchange_rate_quote_serv.World.{
  Env, World, UpdateQuotePayload, Task, Action, pure, lift, advance, ◌>>=◌,
}
use exchange_rate_quote_serv.Service.Operations.{TaskEnqueuer, task_type_update_quote}

-- The method `ProcessUpdate` of the service that a handler is given.
abbrev pub ProcessUpdate : Type 0 → Type 0
ProcessUpdate S = (id base quote : Text) → Action S (Unit {0})

pub record AsynqEnqueuer : Type 0 where
  pub max_retry : ℕ
  pub timeout : ℕ

unfoldable pub new_asynq_enqueuer : ℕ → ℕ → AsynqEnqueuer
new_asynq_enqueuer max_retry timeout = record { max_retry = max_retry; timeout = timeout }

module _ {S F : Type 0} (env : Env S F) where
  abbrev pub handle_payload : ProcessUpdate S → Result UpdateQuotePayload → Action S (Unit {0})
  handle_payload process (err _) = pure tt
  handle_payload process (ok p) = process p.update_id p.base p.quote

  -- The function that `NewQuoteUpdateHandler` returns. A payload that is no JSON is dropped: an
  -- error would have the queue try it again.
  unfoldable pub handle_update_task : ProcessUpdate S → Task → Action S (Unit {0})
  handle_update_task process task = handle_payload process (env.unmarshal task.payload)

  abbrev add_task : Task → World S → World S
  add_task task w = record w { tasks = w.tasks ++ task ∷ []; tick = suc w.tick }

  -- `client.EnqueueContext`: the queue takes the task; a call that fails may have reached it.
  abbrev client_enqueue : Task → Action S (Unit {0})
  client_enqueue task w = elim (env.enqueue w.tick) [
    | up ↦ (ok tt, add_task task w)
    | lost why ↦ (err (Error.failure why), advance w)
    | unacknowledged why ↦ (err (Error.failure why), add_task task w)
  ]

  -- `AsynqEnqueuer.EnqueueUpdateTask`
  unfoldable pub asynq_enqueue_update_task : AsynqEnqueuer → TaskEnqueuer S
  asynq_enqueue_update_task e payload = do
    text ← lift (env.marshal payload)
    client_enqueue (record {
      kind = task_type_update_quote;
      payload = text;
      max_retry = e.max_retry;
      timeout = e.timeout;
    })
