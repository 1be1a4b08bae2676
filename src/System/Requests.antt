-- ===== src/System/Requests.antt =====
-- `RequestQuoteUpdate` with the queue of internal/worker behind it.
use exchange_rate_quote_serv.Prelude.{
  codes, ℕ, suc, Text, text_eq, text_eq_iff, true, false, [], ◌∷◌, ◌++◌, some, ◌≡◌, ◌⊎◌, inl, inr,
  sym, ◌∙◌, arith, Bool-cases,
}
use mathlib.Core.Path.{subst}
use exchange_rate_quote_serv.Prelude.Unicode.{IsCaseTable}
use exchange_rate_quote_serv.Errors.{Result, ok, Result-cases}
use exchange_rate_quote_serv.Currency.{Pair, parse_pair, validate_pair}
use exchange_rate_quote_serv.Currency.Accepted.{IsListed, IsAccepted, parse_pair-IsAccepted}
use exchange_rate_quote_serv.Repository.Table.{Table}
use exchange_rate_quote_serv.Repository.Methods.{create_update}
use exchange_rate_quote_serv.Repository.Invariant.{IsValid}
use exchange_rate_quote_serv.Repository.Dedup.{
  IsHeld, insert_inverse, create_update_inverse, create_update-IsHeld,
}
use exchange_rate_quote_serv.System.Codes.{char3-listed}
use exchange_rate_quote_serv.World.{Env, World, UpdateQuotePayload, Task, Action, pure, ◌>>=◌}
use exchange_rate_quote_serv.Service.Operations.{
  task_type_update_quote, requested, enqueue_update_task, request_quote_update,
}
use exchange_rate_quote_serv.Service.QuoteResult.{status_text}
use exchange_rate_quote_serv.Worker.{AsynqEnqueuer, asynq_enqueue_update_task}

module _ {S F : Type 0} (env : Env S F) (e : AsynqEnqueuer) where
  abbrev pub request : Text → World S → Result (Text × Text) × World S
  request = request_quote_update env (asynq_enqueue_update_task env e)

  abbrev pub created : World S → Text → Text → Result Text × Table
  created w b q =
      create_update env.pg (env.db_link (suc w.tick)) (env.db_now (suc w.tick)) b q
        (env.new_uuid w.tick) w.rows

  abbrev pub task_of : Text → Task
  task_of text = record {
    kind = task_type_update_quote;
    payload = text;
    max_retry = e.max_retry;
    timeout = e.timeout;
  }

  abbrev pub payload_of : Text → Text → Text → UpdateQuotePayload
  payload_of id b q = record { update_id = id; base = b; quote = q }

  -- The part of a request behind `CreateUpdate`.
  abbrev pub continued : World S → Text → Text → Text → Result (Text × Text) × World S
  continued w b q id =
      let w' : World S = record w { rows = (created w b q).1; tick = suc (suc w.tick) } in
      let fresh : Action S (Text × Text) =
        enqueue_update_task env (asynq_enqueue_update_task env e) id b q >>= λ _.
        pure (requested id) in
      (elim (text_eq id (env.new_uuid w.tick)) as (λ _. Action S (Text × Text)) [
        | true ↦ fresh
        | false ↦ pure (requested id)
      ])
        w'

  pub request-continued :
      (pair : Text) (w : World S) (b q id : Text)
      → parse_pair env.upper pair ≡ ok (b, q)
      → validate_pair env.upper b q ≡ ok tt
      → (created w b q).0 ≡ ok id
      → request pair w ≡ continued w b q id
  unfolding request_quote_update
  request-continued pair w b q id parsed valid made = ground arith

  -- What follows a row of the id `id`: it was in flight already, or it is new and has its task.
  abbrev pub IsQueued : World S → Text → Text → Text → World S → Type 0
  IsQueued w id b q w' =
      ((text_eq id (env.new_uuid w.tick) ≡ false) × (w'.tasks ≡ w.tasks))
      ⊎ ((text_eq id (env.new_uuid w.tick) ≡ true)
          × ((text : Text) × (env.marshal (payload_of id b q) ≡ ok text)
              × (w'.tasks ≡ w.tasks ++ task_of text ∷ [])))

  continued_ok :
      (w : World S) (b q id : Text) (r : Text × Text)
      → (continued w b q id).0 ≡ ok r
      → (r ≡ requested id)
        × ((continued w b q id).1.rows ≡ (created w b q).1)
        × IsQueued w id b q (continued w b q id).1
  unfolding enqueue_update_task asynq_enqueue_update_task
  continued_ok w b q id r h = elim (Bool-cases (text_eq id (env.new_uuid w.tick))) [
    | inr old ↦ ground arith
    | inl fresh ↦ elim (Result-cases (env.marshal (payload_of id b q))) [
      | inl (text, written) ↦
          (ground arith, ground arith, inr (fresh, (text, written, ground arith)))
      | inr (x, bad) ↦ absurd (ground arith)
    ]
  ]

  pub request_parsed :
      (pair : Text) (w : World S) (r : Text × Text)
      → (request pair w).0 ≡ ok r
      → (p : Pair) × (parse_pair env.upper pair ≡ ok p) × (validate_pair env.upper p.0 p.1 ≡ ok tt)
  unfolding request_quote_update
  request_parsed pair w r h = elim (Result-cases (parse_pair env.upper pair)) [
    | inr (x, bad) ↦ absurd (ground arith)
    | inl (p, parsed) ↦ elim (Result-cases (validate_pair env.upper p.0 p.1)) [
      | inr (x, bad) ↦ absurd (ground arith)
      | inl (u, valid) ↦ (p, parsed, valid)
    ]
  ]

  -- A request that returns an id has come through each of its calls.
  pub request_inverse :
      (pair : Text) (w : World S) (r : Text × Text)
      → (request pair w).0 ≡ ok r
      → (b : Text) × (q : Text) × (id : Text) × (parse_pair env.upper pair ≡ ok (b, q))
        × (validate_pair env.upper b q ≡ ok tt)
        × ((created w b q).0 ≡ ok id)
  unfolding request_quote_update
  request_inverse pair w r h =
      let (p, parsed, valid) = request_parsed pair w r h in
      elim (Result-cases (created w p.0 p.1).0) [
        | inl (id, made) ↦ (p.0, p.1, id, parsed, valid, made)
        | inr (x, bad) ↦ absurd (ground arith)
      ]

-- The ids that `uuid.New` makes are in PostgreSQL's spelling.
pub record MakesUuids {S F : Type 0} (env : Env S F) : Type 0 where
  pub made : (k : ℕ) → env.pg.uuid (env.new_uuid k) ≡ some (env.new_uuid k)

module _ {S F : Type 0} (env : Env S F) (e : AsynqEnqueuer) where
  -- The pair is supported and an update of it is in flight under the id that is returned. The
  -- update was there before, and nothing has changed; or its row is new, and so is its task.
  pub record IsAnswered (pair : Text) (w : World S) (r : Text × Text) (w' : World S) : Type 0 where
    pub base : Text
    pub quote : Text
    pub parsed : parse_pair env.upper pair ≡ ok (base, quote)
    pub accepted : IsAccepted env.upper base quote
    pub id : Text
    pub answer : r ≡ (id, codes "PENDING")
    pub held : IsHeld id base quote w'.rows
    pub queued : IsQueued env e w id base quote w'
    pub kept :
        text_eq id (env.new_uuid w.tick) ≡ false → (w'.rows ≡ w.rows) × IsHeld id base quote w.rows

  module _ (uuids : MakesUuids env) where
    created_kept :
        (w : World S) (b q id : Text) (t : Table)
        → IsListed b
        → IsListed q
        → created env e w b q ≡ (ok id, t)
        → text_eq id (env.new_uuid w.tick) ≡ false
        → t ≡ w.rows
    created_kept w b q id t lb lq done other =
        let ran = create_update_inverse env.pg _ _ b q (env.new_uuid w.tick) id w.rows t done in
        elim (insert_inverse env.pg _ b q _ id w.rows t (char3-listed b lb) (char3-listed q lq)
          ran) [
            | inl (r, found, same, kept) ↦ kept
            | inr (fresh, cast, new) ↦
                ground (arith, uuids.made w.tick, text_eq_iff id (env.new_uuid w.tick))
          ]

    answered :
        (pair : Text) (w : World S) (r : Text × Text) (b q id : Text)
        → IsCaseTable env.upper
        → IsValid w.rows
        → parse_pair env.upper pair ≡ ok (b, q)
        → validate_pair env.upper b q ≡ ok tt
        → (created env e w b q).0 ≡ ok id
        → (request env e pair w).0 ≡ ok r
        → IsAnswered pair w r (request env e pair w).1
    unfolding status_text
    answered pair w r b q id table valid parsed validated made h =
        let whole = request-continued env e pair w b q id parsed validated made in
        let (answer, rows, queued) = continued_ok env e w b q id r (rw whole at h) in
        let acc = parse_pair-IsAccepted env.upper table pair b q parsed validated in
        let done : created env e w b q ≡ (ok id, (created env e w b q).1) =
          (λ i. (made i, (created env e w b q).1)) in
        let held =
          create_update-IsHeld env.pg _ _ b q _ id w.rows _ (char3-listed b acc.base_listed)
            (char3-listed q acc.quote_listed) valid done in
        let same : text_eq id (env.new_uuid w.tick) ≡ false → (created env e w b q).1 ≡ w.rows =
          created_kept w b q id _ acc.base_listed acc.quote_listed done in
        subst (λ (p : Result (Text × Text) × World S). IsAnswered pair w r p.1) (sym whole)
          (record {
            base = b;
            quote = q;
            parsed = parsed;
            accepted = acc;
            id = id;
            answer = answer;
            held = subst (IsHeld id b q) (sym rows) held;
            queued = queued;
            kept = λ other. (rows ∙ same other, subst (IsHeld id b q) (same other) held);
          })

    -- Let `uuid.New` make ids in PostgreSQL's spelling, let the case table be Unicode's and the
    -- table of quotes valid. If `RequestQuoteUpdate` returns an id and a status, then the text is
    -- a pair of supported currencies, the status is PENDING, and the table has a row of that id
    -- and pair that is PENDING or RUNNING. If the id is not the one made for this request, then
    -- that row was there before, and neither the table nor the queue has changed. If it is, then
    -- exactly one task with the id and the pair has been put at the end of the queue.
    pub request-IsAnswered :
        (pair : Text) (w : World S) (r : Text × Text)
        → IsCaseTable env.upper
        → IsValid w.rows
        → (request env e pair w).0 ≡ ok r
        → IsAnswered pair w r (request env e pair w).1
    request-IsAnswered pair w r table valid h =
        let (b, q, id, parsed, validated, made) = request_inverse env e pair w r h in
        answered pair w r b q id table valid parsed validated made h
