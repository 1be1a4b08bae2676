-- ===== src/System/Tasks.antt =====
-- What a request adds to the queue, whatever it returns.
use exchange_rate_quote_serv.Prelude.{
  suc, Text, text_eq, text_eq_iff, List, [], ◌∷◌, ◌++◌, All, All-append, some, ◌≡◌, ◌⊎◌, inl, inr,
  refl, sym, ◌∙◌, arith, Bool-cases,
}
use mathlib.Core.Path.{subst}
use exchange_rate_quote_serv.Prelude.Unicode.{IsCaseTable}
use exchange_rate_quote_serv.Errors.{Result, ok, Result-cases}
use exchange_rate_quote_serv.Currency.{parse_pair, validate_pair}
use exchange_rate_quote_serv.Currency.Accepted.{IsAccepted, parse_pair-IsAccepted}
use exchange_rate_quote_serv.Repository.Table.{Quote, Table, has_id, has_pair, find}
use exchange_rate_quote_serv.Repository.Invariant.{IsValid}
use exchange_rate_quote_serv.Repository.Dedup.{IsHeld, create_update-IsHeld}
use exchange_rate_quote_serv.Repository.Calls.{create_update-Reach}
use exchange_rate_quote_serv.Repository.Steps.{Reach, here, reach_trans}
use exchange_rate_quote_serv.Repository.History.{Reach-Keeps}
use exchange_rate_quote_serv.System.Codes.{char3-listed}
use exchange_rate_quote_serv.System.Requests.{
  request, created, task_of, payload_of, continued, request-continued,
}
use exchange_rate_quote_serv.World.{Env, World, UpdateQuotePayload, Task}
use exchange_rate_quote_serv.Service.Operations.{
  task_type_update_quote, requested, service_mark_failed, enqueue_update_task, request_quote_update,
}
use exchange_rate_quote_serv.Service.Runs.{
  Runs, request_quote_update-Runs, enqueue_update_task-Runs, bind-Runs, pure-Runs, if_Runs,
}
use exchange_rate_quote_serv.Worker.{AsynqEnqueuer, asynq_enqueue_update_task}

module _ {S F : Type 0} (env : Env S F) where
  -- A task whose payload names a row of the table and that row's pair, which is supported.
  pub record IsTask (rows : Table) (task : Task) : Type 0 where
    pub payload : UpdateQuotePayload
    pub kind : task.kind ≡ task_type_update_quote
    pub written : env.marshal payload ≡ ok task.payload
    pub accepted : IsAccepted env.upper payload.base payload.quote
    pub row : Quote
    pub found : find (has_id payload.update_id) rows ≡ some row
    pub base : row.base ≡ payload.base
    pub quote : row.quote ≡ payload.quote

  pub IsTask-Reach :
      {t t' : Table} (task : Task) → Reach env.pg t t' → IsTask t task → IsTask t' task
  IsTask-Reach task reach h =
      let (s, found, keeps) = Reach-Keeps h.payload.update_id h.row h.found reach in
      record {
        payload = h.payload;
        kind = h.kind;
        written = h.written;
        accepted = h.accepted;
        row = s;
        found = found;
        base = keeps.base ∙ h.base;
        quote = keeps.quote ∙ h.quote;
      }

  pub AreTasks-Reach :
      {t t' : Table} (tasks : List Task)
      → Reach env.pg t t'
      → All (IsTask t) tasks
      → All (IsTask t') tasks
  AreTasks-Reach [] reach h = tt
  AreTasks-Reach (task ∷ tasks) reach (h, hs) =
      (IsTask-Reach task reach h, AreTasks-Reach tasks reach hs)

  asynq_rows :
      (e : AsynqEnqueuer) (p : UpdateQuotePayload) (w : World S)
      → w.rows ≡ (asynq_enqueue_update_task env e p w).1.rows
  unfolding asynq_enqueue_update_task
  asynq_rows e p w = elim (Result-cases (env.marshal p)) [
    | inl (text, written) ↦ ground arith
    | inr (x, bad) ↦ ground arith
  ]

  pub asynq-Runs :
      (e : AsynqEnqueuer) (p : UpdateQuotePayload) → Runs env.pg (asynq_enqueue_update_task env e p)
  asynq-Runs e p = record { run = λ w. subst (Reach env.pg w.rows) (asynq_rows e p w) here }

  module _ (e : AsynqEnqueuer) where
    continued_tasks :
        (w : World S) (b q id : Text)
        → ((continued env e w b q id).1.tasks ≡ w.tasks)
          ⊎ ((text : Text) × (env.marshal (payload_of env e id b q) ≡ ok text)
              × ((continued env e w b q id).1.tasks ≡ w.tasks ++ task_of env e text ∷ []))
    unfolding enqueue_update_task asynq_enqueue_update_task service_mark_failed
    continued_tasks w b q id = elim (Bool-cases (text_eq id (env.new_uuid w.tick))) [
      | inr old ↦ inl (ground arith)
      | inl fresh ↦ elim (Result-cases (env.marshal (payload_of env e id b q))) [
        | inl (text, written) ↦ ground arith
        | inr (x, bad) ↦ inl (ground arith)
      ]
    ]

    request-created :
        (pair : Text) (w : World S)
        → ((request env e pair w).1.tasks ≡ w.tasks)
          ⊎ ((b : Text) × (q : Text) × (id : Text) × (parse_pair env.upper pair ≡ ok (b, q))
              × (validate_pair env.upper b q ≡ ok tt)
              × ((created env e w b q).0 ≡ ok id))
    unfolding request_quote_update
    request-created pair w = elim (Result-cases (parse_pair env.upper pair)) [
      | inr (x, bad) ↦ inl (ground arith)
      | inl (p, parsed) ↦ elim (Result-cases (validate_pair env.upper p.0 p.1)) [
        | inr (x, bad) ↦ inl (ground arith)
        | inl (u, valid) ↦ elim (Result-cases (created env e w p.0 p.1).0) [
          | inr (x, bad) ↦ inl (ground arith)
          | inl (id, made) ↦ inr (p.0, p.1, id, parsed, valid, made)
        ]
      ]
    ]

    continued-Reach :
        (w : World S) (b q id : Text)
        → Reach env.pg (created env e w b q).1 (continued env e w b q id).1.rows
    continued-Reach w b q id =
        let queued =
          bind-Runs env.pg
            (enqueue_update_task-Runs env (asynq_enqueue_update_task env e) (asynq-Runs e) id b q)
            (λ _. pure-Runs env.pg (requested id)) in
        let after =
          if_Runs env.pg (text_eq id (env.new_uuid w.tick)) queued
            (pure-Runs env.pg (requested id)) in
        after.run (record w { rows = (created env e w b q).1; tick = suc (suc w.tick) })

    pub held-IsTask :
        (b q id text : Text) (t : Table)
        → IsAccepted env.upper b q
        → env.marshal (payload_of env e id b q) ≡ ok text
        → IsHeld id b q t
        → IsTask t (task_of env e text)
    unfolding has_pair
    held-IsTask b q id text t acc written (r, found, held) = record {
      payload = payload_of env e id b q;
      kind = refl;
      written = written;
      accepted = acc;
      row = r;
      found = found;
      base = ground (arith, text_eq_iff r.base b);
      quote = ground (arith, text_eq_iff r.quote q);
    }

    AreSound : World S → Type 0
    AreSound w = All (IsTask w.rows) w.tasks

    continued-AreSound :
        (w : World S) (b q id : Text)
        → IsAccepted env.upper b q
        → IsValid w.rows
        → AreSound w
        → (created env e w b q).0 ≡ ok id
        → AreSound (continued env e w b q id).1
    unfolding AreSound
    continued-AreSound w b q id acc valid sound made =
        let later = continued-Reach w b q id in
        let all_of = reach_trans (create_update-Reach env.pg _ _ b q _ w.rows) later in
        let old = AreTasks-Reach w.tasks all_of sound in
        let t' = (continued env e w b q id).1.rows in
        elim (continued_tasks w b q id) [
          | inl same ↦ subst (All (IsTask t')) (sym same) old
          | inr (text, written, added) ↦
              let held =
                create_update-IsHeld env.pg _ _ b q _ id w.rows (created env e w b q).1
                  (char3-listed b acc.base_listed) (char3-listed q acc.quote_listed) valid
                  (λ i. (made i, (created env e w b q).1)) in
              let new = IsTask-Reach _ later (held-IsTask b q id text _ acc written held) in
              subst (All (IsTask t')) (sym added) (All-append (IsTask t') w.tasks _ old (new, tt))
        ]

    -- Whatever a request returns, each task of the queue has its row.
    pub request-AreTasks :
        (pair : Text) (w : World S)
        → IsCaseTable env.upper
        → IsValid w.rows
        → All (IsTask w.rows) w.tasks
        → All (IsTask (request env e pair w).1.rows) (request env e pair w).1.tasks
    unfolding AreSound
    request-AreTasks pair w table valid sound = elim (request-created pair w) [
      | inl same ↦
          let reach =
            (request_quote_update-Runs env (asynq_enqueue_update_task env e) (asynq-Runs e)
                pair).run
              w in
          subst (All (IsTask (request env e pair w).1.rows)) (sym same)
            (AreTasks-Reach w.tasks reach sound)
      | inr (b, q, id, parsed, validated, made) ↦
          let whole = request-continued env e pair w b q id parsed validated made in
          let acc = parse_pair-IsAccepted env.upper table pair b q parsed validated in
          subst (λ (r : Result (Text × Text) × World S). AreSound r.1) (sym whole)
            (continued-AreSound w b q id acc valid sound made)
    ]
