-- ===== src/Api/Logging.antt =====
-- The log line of the middleware, over the responses of the handlers of quotes.
use exchange_rate_quote_serv.Prelude.{
  ℕ, ◌+◌, Text, Bool, true, false, ◌&&◌, not, [], ◌∷◌, ◌==◌, ◌≡◌, refl, arith, if◌then◌else◌,
}
use exchange_rate_quote_serv.Prelude.Unicode.{trim_space}
use exchange_rate_quote_serv.Errors.{Error, Result, ok, err}
use exchange_rate_quote_serv.World.{World}
use exchange_rate_quote_serv.Api.Response.{
  Body, set_header, write_header, write, Response, sent_status, write_json,
}
use exchange_rate_quote_serv.Api.Quotes.{
  QuoteServiceInterface, answer, accepted, quote_found, latest_found, update_error, by_id_error,
  latest_error, internal_error, handle_request_update, handle_get_quote_by_id,
  handle_get_latest_quote, update_pair,
}
use exchange_rate_quote_serv.Api.Middleware.{
  ResponseWriter, writer_step, writer_run, logged_status, request_id_middleware,
}

-- No status is written behind the first status or body, and none is 0.
unfoldable pub is_orderly : Bool → Response → Bool
is_orderly begun [] = true
is_orderly begun (set_header _ _ ∷ ws) = is_orderly begun ws
is_orderly begun (write_header code ∷ ws) = not begun && not (code == 0) && is_orderly true ws
is_orderly begun (write _ ∷ ws) = is_orderly true ws

abbrev recorded : ResponseWriter → ℕ
recorded rw = if rw.status == 0 then 200 else rw.status

module _ (accepted : Body → ℕ) where
  begun_status :
      (rw : ResponseWriter) (ws : Response)
      → is_orderly true ws ≡ true
      → (rw.status == 0) ≡ false
      → recorded (writer_run accepted rw ws) ≡ rw.status
  unfolding is_orderly writer_run writer_step
  begun_status rw [] h k = ground arith
  begun_status rw (set_header _ _ ∷ ws) h k = begun_status rw ws h k
  begun_status rw (write_header code ∷ ws) h k = cc
  begun_status rw (write b ∷ ws) h k =
      ground (arith, begun_status (writer_step accepted rw (write b)) ws h (ground arith))

  fresh_status :
      (size : ℕ) (ws : Response)
      → is_orderly false ws ≡ true
      → recorded (writer_run accepted (record { status = 0; size = size }) ws) ≡ sent_status ws
  unfolding is_orderly writer_run writer_step sent_status
  fresh_status size [] h = refl
  fresh_status size (set_header _ _ ∷ ws) h = fresh_status size ws h
  fresh_status size (write_header code ∷ ws) h =
      begun_status (record { status = code; size = size }) ws (ground arith) (ground arith)
  fresh_status size (write b ∷ ws) h =
      begun_status (record { status = 200; size = size + accepted b }) ws h refl

  -- For a response that writes no status behind its first status or body and never the status 0,
  -- the status in the log line is the status that the client receives.
  pub logged_status-eq :
      (ws : Response) → is_orderly false ws ≡ true → logged_status accepted ws ≡ sent_status ws
  unfolding logged_status
  logged_status-eq ws h = fresh_status 0 ws h

abbrev Orderly : Response → Type 0
Orderly ws = is_orderly false ws ≡ true

update_error-Orderly : (e : Error) → Orderly (update_error e)
unfolding is_orderly update_error internal_error write_json
update_error-Orderly e = ground arith

by_id_error-Orderly : (e : Error) → Orderly (by_id_error e)
unfolding is_orderly by_id_error internal_error write_json
by_id_error-Orderly e = ground arith

latest_error-Orderly : (upper : ℕ → ℕ) (b q : Text) (e : Error) → Orderly (latest_error upper b q e)
unfolding is_orderly latest_error internal_error write_json
latest_error-Orderly upper b q e = ground arith

answer-Orderly :
    {A : Type 0} (good : A → Response) (bad : Error → Response) (r : Result A)
    → ((a : A) → Orderly (good a))
    → ((e : Error) → Orderly (bad e))
    → Orderly (answer good bad r)
answer-Orderly good bad (ok a) g b = g a
answer-Orderly good bad (err e) g b = b e

module _ {S : Type 0} (svc : QuoteServiceInterface S) (w : World S) where
  pair-Orderly : (pair : Text) → Orderly (update_pair svc pair w).0
  unfolding is_orderly write_json accepted
  pair-Orderly [] = refl
  pair-Orderly (c ∷ pair) =
      answer-Orderly (λ (r : Text × Text). accepted r.0) update_error
        (svc.request_quote_update (c ∷ pair) w).0 (λ r. refl) update_error-Orderly

  request-Orderly : (body : Result Text) → Orderly (handle_request_update svc body w).0
  unfolding is_orderly handle_request_update write_json
  request-Orderly (err e) = refl
  request-Orderly (ok pair) = pair-Orderly (trim_space pair)

  by_id-Orderly : (id : Text) → Orderly (handle_get_quote_by_id svc id w).0
  unfolding is_orderly handle_get_quote_by_id write_json quote_found
  by_id-Orderly [] = refl
  by_id-Orderly (c ∷ id) =
      answer-Orderly quote_found by_id_error (svc.get_quote_result (c ∷ id) w).0 (λ r. refl)
        by_id_error-Orderly

  latest-Orderly :
      (upper : ℕ → ℕ) (b q : Text) → Orderly (handle_get_latest_quote svc upper b q w).0
  unfolding is_orderly handle_get_latest_quote write_json latest_found
  latest-Orderly upper [] q = refl
  latest-Orderly upper (c ∷ b) [] = refl
  latest-Orderly upper (c ∷ b) (d ∷ q) =
      answer-Orderly latest_found (latest_error upper (c ∷ b) (d ∷ q))
        (svc.get_latest_quote (c ∷ b) (d ∷ q) w).0 (λ r. refl)
        (latest_error-Orderly upper (c ∷ b) (d ∷ q))

  -- The status that the inner middleware logs is the one that the client receives behind the
  -- outer one, which puts the id into a header first.
  abbrev pub IsLogged : Response → Type 0
  IsLogged ws =
      (size : Body → ℕ) (header fresh : Text)
      → logged_status size ws ≡ sent_status (request_id_middleware (λ _. ws) header fresh)

  Orderly-IsLogged : (ws : Response) → Orderly ws → IsLogged ws
  unfolding request_id_middleware sent_status is_orderly
  Orderly-IsLogged ws h size header fresh = logged_status-eq size ws h

  -- For each of the three handlers of quotes behind the middleware of the log line and,
  -- outermost, that of the request id, with any service, the status in the log line is the status
  -- that the client receives.
  pub handlers-IsLogged :
      (body : Result Text) (id base quote : Text) (upper : ℕ → ℕ)
      → IsLogged (handle_request_update svc body w).0
        × (IsLogged (handle_get_quote_by_id svc id w).0
            × IsLogged (handle_get_latest_quote svc upper base quote w).0)
  handlers-IsLogged body id base quote upper = (
    Orderly-IsLogged _ (request-Orderly body),
    (Orderly-IsLogged _ (by_id-Orderly id), Orderly-IsLogged _ (latest-Orderly upper base quote)),
  )
