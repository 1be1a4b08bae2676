-- ===== src/Threads/Safe/Requests.antt =====
-- `RequestQuoteUpdate` as a thread.
use exchange_rate_quote_serv.Prelude.{
  Text, Bool, true, false, [], ◌∷◌, ◌++◌, All, All-append, ◌≡◌, ◌⊎◌, inl, inr, refl, sym, arith,
}
use mathlib.Core.Path.{subst}
use exchange_rate_quote_serv.Prelude.Unicode.{IsCaseTable}
use exchange_rate_quote_serv.Errors.{Error, Result, ok, err, Result-cases}
use exchange_rate_quote_serv.Currency.{parse_pair, validate_pair}
use exchange_rate_quote_serv.Currency.Accepted.{IsAccepted, parse_pair-IsAccepted}
use exchange_rate_quote_serv.Repository.Table.{Table}
use exchange_rate_quote_serv.Repository.Dedup.{IsHeld}
use exchange_rate_quote_serv.Repository.Steps.{Reach, here}
use exchange_rate_quote_serv.System.Requests.{task_of, payload_of}
use exchange_rate_quote_serv.System.Tasks.{IsTask, IsTask-Reach, held-IsTask}
use exchange_rate_quote_serv.System.Schedule.{IsSound}
use exchange_rate_quote_serv.World.{Env, World, ask}
use exchange_rate_quote_serv.Worker.{AsynqEnqueuer, asynq_enqueue_update_task}
use exchange_rate_quote_serv.Threads.Operations.{
  failed_enqueue_thread, enqueue_thread, enqueue_new, request_thread,
}
use exchange_rate_quote_serv.Threads.Writes.{nothing}
use exchange_rate_quote_serv.Threads.Keeps.{KeepsSound, quiet_keeps}
use exchange_rate_quote_serv.Threads.Ensures.{
  IsSafe, IsSafe-Ensures, attempt-Ensures, or_error-Ensures, done-IsSafe, lift-Ensures, bind-IsSafe,
  atom-IsSafe,
}
use exchange_rate_quote_serv.Threads.Safe.Calls.{mark_failed-IsSafe, create_update-Ensures}

module _ {S F : Type 0} (env : Env S F) where
  module _ (e : AsynqEnqueuer) where
    asynq_effect :
        (id b q : Text) (w : World S)
        → let w' = (asynq_enqueue_update_task env e (payload_of env e id b q) w).1 in
          (w'.rows ≡ w.rows)
          × (w'.cache ≡ w.cache)
          × ((w'.tasks ≡ w.tasks)
              ⊎ ((text : Text) × (env.marshal (payload_of env e id b q) ≡ ok text)
                  × (w'.tasks ≡ w.tasks ++ task_of env e text ∷ [])))
    unfolding asynq_enqueue_update_task
    asynq_effect id b q w = elim (Result-cases (env.marshal (payload_of env e id b q))) [
      | inl (text, written) ↦ ground arith
      | inr (x, bad) ↦ (ground arith, ground arith, inl (ground arith))
    ]

    -- The task of a row in flight, which is put behind the others.
    enqueue_keeps :
        (id b q : Text) (t : Table) (w : World S)
        → IsAccepted env.upper b q
        → IsHeld id b q t
        → Reach env.pg t w.rows
        → IsSound env w
        → KeepsSound env w (asynq_enqueue_update_task env e (payload_of env e id b q) w).1
    enqueue_keeps id b q t w acc held reach sound =
        let (rows, cache, queued) = asynq_effect id b q w in
        let w' = (asynq_enqueue_update_task env e (payload_of env e id b q) w).1 in
        elim queued [
          | inl same ↦ quiet_keeps env rows same cache sound
          | inr (text, written, added) ↦
              let new : IsTask env w.rows (task_of env e text) =
                IsTask-Reach env _ reach (held-IsTask env e b q id text t acc written held) in
              record {
                reach = subst (Reach env.pg w.rows) (sym rows) here;
                tasks = subst (All (IsTask env w'.rows)) (sym added) (
                    subst (λ r. All (IsTask env r) (w.tasks ++ task_of env e text ∷ [])) (sym rows)
                      (All-append (IsTask env w.rows) w.tasks _ sound.1 (new, tt)));
                cache = nothing cache;
              }
        ]

    failed-IsSafe :
        (id : Text) (r : Result (Unit {0})) (t : Table)
        → IsSafe env t (failed_enqueue_thread env id r)
    failed-IsSafe id (ok _) t = done-IsSafe env _
    failed-IsSafe id (err _) t =
        bind-IsSafe env (IsSafe-Ensures env (mark_failed-IsSafe env id _ t))
          (λ _ _ _. done-IsSafe env _)

    enqueue-IsSafe :
        (id b q : Text) (t : Table)
        → IsAccepted env.upper b q
        → IsHeld id b q t
        → IsSafe env t (enqueue_thread env (asynq_enqueue_update_task env e) id b q)
    enqueue-IsSafe id b q t acc held =
        bind-IsSafe env
          (attempt-Ensures env
            (atom-IsSafe env _ t (λ w reach sound. enqueue_keeps id b q t w acc held reach sound)))
          (λ t' r _. failed-IsSafe id r t')

    new-IsSafe :
        (fresh : Bool) (id b q : Text) (t : Table)
        → IsAccepted env.upper b q
        → IsHeld id b q t
        → IsSafe env t (enqueue_new env (asynq_enqueue_update_task env e) fresh id b q)
    new-IsSafe true id b q t acc held =
        bind-IsSafe env (IsSafe-Ensures env (enqueue-IsSafe id b q t acc held))
          (λ _ _ _. done-IsSafe env _)
    new-IsSafe false id b q t acc held = done-IsSafe env _

    pub request_thread-IsSafe :
        (pair : Text) (t : Table)
        → IsCaseTable env.upper
        → IsSafe env t (request_thread env (asynq_enqueue_update_task env e) pair)
    unfolding request_thread
    request_thread-IsSafe pair t table =
        bind-IsSafe env (lift-Ensures env (parse_pair env.upper pair)) λ _ p parsed.
          bind-IsSafe env (lift-Ensures env (validate_pair env.upper p.0 p.1)) λ t1 _ valid.
            let acc = parse_pair-IsAccepted env.upper table pair p.0 p.1 parsed valid in
            bind-IsSafe env
              (IsSafe-Ensures env (
                atom-IsSafe env (ask env.new_uuid) t1
                  (λ w reach sound. quiet_keeps env refl refl refl sound)))
              λ t2 uid _.
                bind-IsSafe env
                  (or_error-Ensures env Error.internal
                    (create_update-Ensures env p.0 p.1 uid t2 acc))
                  λ t3 id held. new-IsSafe _ id p.0 p.1 t3 acc held
