-- ===== src/App/Run.antt =====
-- cmd/app/app.go: `Run`, whose three goroutines of an `errgroup` take turns in any order.
use exchange_rate_quote_serv.Prelude.{
  codes, Bool, true, false, List, [], ◌∷◌, ◌++◌, Option, none, some, if◌then◌else◌,
}
use exchange_rate_quote_serv.Errors.{Error}
use exchange_rate_quote_serv.App.Lifecycle.{
  Event, http_stopped, worker_stopped, App, Outcomes, close, explain, join, note, texts,
}

-- `asynqServer.Start`, the wait for the context, and the return.
pub data WorkerPhase : Type 0 where
  starting waiting returned : WorkerPhase

-- `ListenAndServe`, and the return.
pub data ServerPhase : Type 0 where
  serving returned : ServerPhase

-- The wait for the context and the three parts of `shutdown`, and the return.
pub data StopPhase : Type 0 where
  idle http_down worker_down returned : StopPhase

pub record Run : Type 0 where
  pub cancelled : Bool
  pub first : Option Error
  pub worker : WorkerPhase
  pub server : ServerPhase
  pub stopper : StopPhase
  pub log : List Event

abbrev pub start : Run
start = record {
  cancelled = false;
  first = none;
  worker = WorkerPhase.starting;
  server = ServerPhase.serving;
  stopper = StopPhase.idle;
  log = [];
}

-- What `ListenAndServe` comes to: it goes on, it returns `http.ErrServerClosed`, or it fails.
pub data Served : Type 0 where
  listening closed : Served
  broken : Error → Served

-- A signal, or the next step of one of the goroutines, with what the call in it comes to.
pub data Turn : Type 0 where
  signalled : Turn
  worker_turn : (started : Option Error) → Turn
  server_turn : Served → Turn
  stopper_turn : Turn

-- The first error that a goroutine returns is that of `Wait`, and cancels the context.
abbrev pub fail : Option Error → Run → Run
fail none s = s
fail (some e) s = record s {
  cancelled = true;
  first = elim s.first [ none ↦ some e | some f ↦ some f ];
}

abbrev pub step_worker : WorkerPhase → Option Error → Run → Run
step_worker WorkerPhase.starting none s = record s { worker = WorkerPhase.waiting }
step_worker WorkerPhase.starting (some e) s =
    fail (some (explain (codes "asynq worker failed to start") e))
      (record s { worker = WorkerPhase.returned })
step_worker WorkerPhase.waiting o s =
    if s.cancelled then record s { worker = WorkerPhase.returned } else s
step_worker WorkerPhase.returned o s = s

-- `ErrServerClosed` comes only behind a call of `Shutdown`.
abbrev pub step_closed : StopPhase → Run → Run
step_closed StopPhase.idle s = s
step_closed _ s = record s { server = ServerPhase.returned }

abbrev pub step_server : ServerPhase → Served → Run → Run
step_server ServerPhase.serving listening s = s
step_server ServerPhase.serving closed s = step_closed s.stopper s
step_server ServerPhase.serving (broken e) s =
    fail (some (explain (codes "HTTP server error") e)) (record s { server = ServerPhase.returned })
step_server ServerPhase.returned served s = s

module _ (o : Outcomes) (app : App) where
  -- The goroutine of `shutdown`, part by part.
  unfoldable pub step_stopper : StopPhase → Run → Run
  step_stopper StopPhase.idle s =
      if s.cancelled
      then record s { stopper = StopPhase.http_down; log = s.log ++ http_stopped ∷ [] }
      else s
  step_stopper StopPhase.http_down s = record s {
    stopper = StopPhase.worker_down;
    log = s.log ++ worker_stopped ∷ [];
  }
  step_stopper StopPhase.worker_down s =
      let (e, events) = close o app in
      fail (join (note (codes "http shutdown") o.http_shutdown (texts e)))
        (record s { stopper = StopPhase.returned; log = s.log ++ events })
  step_stopper StopPhase.returned s = s

  unfoldable pub run_turn : Turn → Run → Run
  run_turn signalled s = record s { cancelled = true }
  run_turn (worker_turn started) s = step_worker s.worker started s
  run_turn (server_turn served) s = step_server s.server served s
  run_turn stopper_turn s = step_stopper s.stopper s

  unfoldable pub run_turns : List Turn → Run → Run
  run_turns [] s = s
  run_turns (t ∷ ts) s = run_turns ts (run_turn t s)

-- `Wait` returns when the three goroutines have.
abbrev pub has_returned : WorkerPhase → ServerPhase → StopPhase → Bool
has_returned WorkerPhase.returned ServerPhase.returned StopPhase.returned = true
has_returned _ _ _ = false

unfoldable pub is_over : Run → Bool
is_over s = has_returned s.worker s.server s.stopper
