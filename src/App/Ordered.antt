-- ===== src/App/Ordered.antt =====
-- The order in which `Run` takes the application down, and what it returns.
use exchange_rate_quote_serv.Prelude.{
  Bool, true, false, List, [], ◌∷◌, ◌++◌, Option, none, some, ◌≡◌, refl, ◌∙◌, ap, if◌then◌else◌,
}
use exchange_rate_quote_serv.Errors.{Error}
use exchange_rate_quote_serv.App.Lifecycle.{
  Event, http_stopped, worker_stopped, App, Outcomes, close, shutdown,
}
use exchange_rate_quote_serv.App.Run.{
  WorkerPhase, ServerPhase, StopPhase, Run, Turn, signalled, worker_turn, server_turn, stopper_turn,
  Served, listening, closed, broken, fail, step_worker, step_server, step_stopper, step_closed,
  run_turn,
}

module _ (o : Outcomes) (app : App) where
  -- What has been taken down in each phase of `shutdown`.
  abbrev pub torn : StopPhase → List Event
  torn StopPhase.idle = []
  torn StopPhase.http_down = http_stopped ∷ []
  torn StopPhase.worker_down = http_stopped ∷ worker_stopped ∷ []
  torn StopPhase.returned = (shutdown o app).1

  -- What an error of `shutdown` comes to.
  abbrev pub IsNoted : StopPhase → Option Error → Option Error → Type 0
  IsNoted StopPhase.returned (some e) first = (f : Error) × (first ≡ some f)
  IsNoted _ _ first = Unit

  abbrev pub is_idle : StopPhase → Bool
  is_idle StopPhase.idle = true
  is_idle _ = false

  pub record IsOrdered (s : Run) : Type 0 where
    pub log : s.log ≡ torn s.stopper
    pub cancelled : is_idle s.stopper ≡ false → s.cancelled ≡ true
    pub failure : IsNoted s.stopper (shutdown o app).0 s.first
    pub error : (e : Error) → s.first ≡ some e → s.cancelled ≡ true

  first-IsNoted :
      (p : StopPhase) (e x : Option Error) (new : Error)
      → IsNoted p e x
      → IsNoted p e (elim x [ none ↦ some new | some f ↦ some f ])
  first-IsNoted StopPhase.idle e x new h = tt
  first-IsNoted StopPhase.http_down e x new h = tt
  first-IsNoted StopPhase.worker_down e x new h = tt
  first-IsNoted StopPhase.returned none x new h = tt
  first-IsNoted StopPhase.returned (some e) none new h = (new, refl)
  first-IsNoted StopPhase.returned (some e) (some f) new h = (f, refl)

  fail-IsOrdered : (r : Option Error) (s : Run) → IsOrdered s → IsOrdered (fail r s)
  fail-IsOrdered none s h = h
  fail-IsOrdered (some e) s h = record {
    log = h.log;
    cancelled = λ _. refl;
    failure = first-IsNoted s.stopper (shutdown o app).0 s.first e h.failure;
    error = λ _ _. refl;
  }

  -- The phases of the worker and of the server do not matter.
  elsewhere :
      (p : WorkerPhase) (q : ServerPhase) (s : Run)
      → IsOrdered s
      → IsOrdered (record s { worker = p; server = q })
  elsewhere p q s h = record {
    log = h.log;
    cancelled = h.cancelled;
    failure = h.failure;
    error = h.error;
  }

  woken-IsOrdered :
      (b : Bool) (s : Run)
      → IsOrdered s
      → IsOrdered (if b then record s { worker = WorkerPhase.returned } else s)
  woken-IsOrdered true s h = elsewhere WorkerPhase.returned s.server s h
  woken-IsOrdered false s h = h

  worker-IsOrdered :
      (p : WorkerPhase) (r : Option Error) (s : Run) → IsOrdered s → IsOrdered (step_worker p r s)
  worker-IsOrdered WorkerPhase.starting none s h = elsewhere WorkerPhase.waiting s.server s h
  worker-IsOrdered WorkerPhase.starting (some e) s h =
      fail-IsOrdered (some _) (record s { worker = WorkerPhase.returned })
        (elsewhere WorkerPhase.returned s.server s h)
  worker-IsOrdered WorkerPhase.waiting r s h = woken-IsOrdered s.cancelled s h
  worker-IsOrdered WorkerPhase.returned r s h = h

  closed-IsOrdered : (p : StopPhase) (s : Run) → IsOrdered s → IsOrdered (step_closed p s)
  closed-IsOrdered StopPhase.idle s h = h
  closed-IsOrdered StopPhase.http_down s h = elsewhere s.worker ServerPhase.returned s h
  closed-IsOrdered StopPhase.worker_down s h = elsewhere s.worker ServerPhase.returned s h
  closed-IsOrdered StopPhase.returned s h = elsewhere s.worker ServerPhase.returned s h

  server-IsOrdered :
      (p : ServerPhase) (r : Served) (s : Run) → IsOrdered s → IsOrdered (step_server p r s)
  server-IsOrdered ServerPhase.serving listening s h = h
  server-IsOrdered ServerPhase.serving closed s h = closed-IsOrdered s.stopper s h
  server-IsOrdered ServerPhase.serving (broken e) s h =
      fail-IsOrdered (some _) (record s { server = ServerPhase.returned })
        (elsewhere s.worker ServerPhase.returned s h)
  server-IsOrdered ServerPhase.returned r s h = h

  has_first :
      (x : Option Error) (e : Error)
      → (f : Error) × (elim x as (λ _. Option Error) [ none ↦ some e | some g ↦ some g ] ≡ some f)
  has_first none e = (e, refl)
  has_first (some g) e = (g, refl)

  -- The last part of `shutdown`.
  finished-IsOrdered :
      (r : Option Error) (s : Run)
      → (shutdown o app).0 ≡ r
      → s.cancelled ≡ true
      → s.log ≡ (shutdown o app).1
      → IsOrdered (fail r (record s { stopper = StopPhase.returned }))
  finished-IsOrdered none s same on log = record {
    log = log;
    cancelled = λ _. on;
    failure = rw same tt;
    error = λ _ _. on;
  }
  finished-IsOrdered (some e) s same on log = record {
    log = log;
    cancelled = λ _. refl;
    failure = rw same (has_first s.first e);
    error = λ _ _. refl;
  }

  pub log_at : (p : StopPhase) (s : Run) → s.stopper ≡ p → IsOrdered s → s.log ≡ torn p
  log_at p s at h = h.log ∙ ap torn at

  pub on_at :
      (p : StopPhase) (s : Run)
      → s.stopper ≡ p
      → is_idle p ≡ false
      → IsOrdered s
      → s.cancelled ≡ true
  on_at p s at busy h = h.cancelled (ap is_idle at ∙ busy)

  begun-IsOrdered :
      (b : Bool) (s : Run)
      → s.cancelled ≡ b
      → s.stopper ≡ StopPhase.idle
      → IsOrdered s
      → IsOrdered (
          if b
          then record s { stopper = StopPhase.http_down; log = s.log ++ http_stopped ∷ [] }
          else s)
  begun-IsOrdered false s off at h = h
  begun-IsOrdered true s on at h = record {
    log = ap (λ l. l ++ http_stopped ∷ []) (log_at StopPhase.idle s at h);
    cancelled = λ _. on;
    failure = tt;
    error = h.error;
  }

  stopper-IsOrdered :
      (p : StopPhase) (s : Run) → s.stopper ≡ p → IsOrdered s → IsOrdered (step_stopper o app p s)
  unfolding step_stopper shutdown
  stopper-IsOrdered StopPhase.idle s at h = begun-IsOrdered s.cancelled s refl at h
  stopper-IsOrdered StopPhase.http_down s at h = record {
    log = ap (λ l. l ++ worker_stopped ∷ []) (log_at StopPhase.http_down s at h);
    cancelled = λ _. on_at StopPhase.http_down s at refl h;
    failure = tt;
    error = h.error;
  }
  stopper-IsOrdered StopPhase.worker_down s at h =
      finished-IsOrdered (shutdown o app).0
        (record s { stopper = StopPhase.returned; log = s.log ++ (close o app).1 }) refl
        (on_at StopPhase.worker_down s at refl h)
        (ap (λ l. l ++ (close o app).1) (log_at StopPhase.worker_down s at h))
  stopper-IsOrdered StopPhase.returned s at h = h

  pub turn-IsOrdered : (t : Turn) (s : Run) → IsOrdered s → IsOrdered (run_turn o app t s)
  unfolding run_turn
  turn-IsOrdered signalled s h = record {
    log = h.log;
    cancelled = λ _. refl;
    failure = h.failure;
    error = λ _ _. refl;
  }
  turn-IsOrdered (worker_turn r) s h = worker-IsOrdered s.worker r s h
  turn-IsOrdered (server_turn r) s h = server-IsOrdered s.server r s h
  turn-IsOrdered stopper_turn s h = stopper-IsOrdered s.stopper s refl h
