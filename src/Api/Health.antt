-- ===== src/Api/Health.antt =====
-- handlers_health.go: liveness and readiness.
use exchange_rate_quote_serv.Prelude.{
  Text, codes, [], ◌∷◌, Option, none, some, ◌≡◌, ◌⊎◌, ◌↔◌, arith,
}
use exchange_rate_quote_serv.Errors.{Result, ok, err}
use exchange_rate_quote_serv.Api.Response.{
  error_response, ready_response, plain, set_header, write, Response, write_json, sent_status,
}
use exchange_rate_quote_serv.Api.Quotes.{status_ok, status_service_unavailable}

-- `HandleHealthz`
unfoldable pub handle_healthz : Response
handle_healthz =
    set_header (codes "Content-Type") (codes "text/plain") ∷ write (plain (codes "OK")) ∷ []

abbrev pub Ping : Type 0
Ping = Result (Unit {0})

abbrev not_ready : Text → Response
not_ready what = write_json status_service_unavailable (error_response what)

-- The check of one client, and what follows it; a client that is nil is not asked.
abbrev check : Option Ping → Text → Response → Response
check none what next = next
check (some (ok _)) what next = next
check (some (err _)) what next = not_ready what

-- `HandleReadyz`, over what the three clients answer; the database is always there.
unfoldable pub handle_readyz : Ping → Option Ping → Option Ping → Response
handle_readyz db cache asynq_redis =
    let ready = write_json status_ok (ready_response (codes "ready")) in
    check (some db) (codes "DB not ready") (
      check cache (codes "Cache not ready")
        (check asynq_redis (codes "Asynq Redis not ready") ready))

abbrev pub Answers : Option Ping → Type 0
Answers none = Unit
Answers (some p) = p ≡ ok tt

-- Readiness answers with 200 exactly if the database answers and each of the two Redis clients
-- that is there answers, and with 503 otherwise.
pub handle_readyz_iff :
    (db : Ping) (cache asynq_redis : Option Ping)
    → ((sent_status (handle_readyz db cache asynq_redis) ≡ 200)
        ↔ ((db ≡ ok tt) × Answers cache × Answers asynq_redis))
      × ((sent_status (handle_readyz db cache asynq_redis) ≡ 200)
          ⊎ (sent_status (handle_readyz db cache asynq_redis) ≡ 503))
unfolding handle_readyz write_json sent_status
handle_readyz_iff db cache asynq_redis = ground arith
