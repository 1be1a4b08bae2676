-- ===== src/App/Finishing.antt =====
-- How soon `Run` is over once its context is cancelled.
use exchange_rate_quote_serv.Prelude.{ℕ, suc, true, List, [], ◌∷◌, ◌≡◌, ◌+◌, ◌-◌, ◌≤◌, refl, arith}
use exchange_rate_quote_serv.App.Lifecycle.{App, Outcomes}
use exchange_rate_quote_serv.App.Run.{
  WorkerPhase, ServerPhase, StopPhase, Run, Turn, signalled, worker_turn, server_turn, stopper_turn,
  listening, closed, broken, step_stopper, run_turn, run_turns, is_over,
}

-- The turns that a goroutine still needs.
abbrev pub stopper_left : StopPhase → ℕ
stopper_left StopPhase.idle = 3
stopper_left StopPhase.http_down = 2
stopper_left StopPhase.worker_down = 1
stopper_left StopPhase.returned = 0

abbrev pub worker_left : WorkerPhase → ℕ
worker_left WorkerPhase.starting = 2
worker_left WorkerPhase.waiting = 1
worker_left WorkerPhase.returned = 0

abbrev pub server_left : ServerPhase → ℕ
server_left ServerPhase.serving = 1
server_left ServerPhase.returned = 0

-- The turns that a list gives to each goroutine; the server's are those behind `Shutdown`.
unfoldable pub stopper_turns : List Turn → ℕ
stopper_turns [] = 0
stopper_turns (stopper_turn ∷ ts) = suc (stopper_turns ts)
stopper_turns (signalled ∷ ts) = stopper_turns ts
stopper_turns (worker_turn r ∷ ts) = stopper_turns ts
stopper_turns (server_turn r ∷ ts) = stopper_turns ts

unfoldable pub worker_turns : List Turn → ℕ
worker_turns [] = 0
worker_turns (worker_turn r ∷ ts) = suc (worker_turns ts)
worker_turns (signalled ∷ ts) = worker_turns ts
worker_turns (stopper_turn ∷ ts) = worker_turns ts
worker_turns (server_turn r ∷ ts) = worker_turns ts

unfoldable pub closings : List Turn → ℕ
closings [] = 0
closings (server_turn closed ∷ ts) = suc (closings ts)
closings (server_turn listening ∷ ts) = closings ts
closings (server_turn (broken e) ∷ ts) = closings ts
closings (signalled ∷ ts) = closings ts
closings (stopper_turn ∷ ts) = closings ts
closings (worker_turn r ∷ ts) = closings ts

no_stopper : stopper_turns [] ≡ 0
unfolding stopper_turns
no_stopper = refl

no_worker : worker_turns [] ≡ 0
unfolding worker_turns
no_worker = refl

no_closing : closings [] ≡ 0
unfolding closings
no_closing = refl

at_most_three : (p : StopPhase) → stopper_left p ≤ 3
at_most_three p = ground arith

at_most_two : (p : WorkerPhase) → worker_left p ≤ 2
at_most_two p = ground arith

at_most_one : (p : ServerPhase) → server_left p ≤ 1
at_most_one p = ground arith

module _ (o : Outcomes) (app : App) where
  stays_cancelled :
      (t : Turn) (s : Run) → s.cancelled ≡ true → (run_turn o app t s).cancelled ≡ true
  unfolding run_turn step_stopper
  stays_cancelled t s on = ground arith

  stopper_step :
      (t : Turn) (s : Run)
      → s.cancelled ≡ true
      → stopper_left (run_turn o app t s).stopper ≤ stopper_left s.stopper - stopper_turns (t ∷ [])
  unfolding run_turn step_stopper stopper_turns
  stopper_step t s on = ground arith

  worker_step :
      (t : Turn) (s : Run)
      → s.cancelled ≡ true
      → worker_left (run_turn o app t s).worker ≤ worker_left s.worker - worker_turns (t ∷ [])
  unfolding run_turn step_stopper worker_turns
  worker_step t s on = ground arith

  server_step :
      (t : Turn) (s : Run)
      → stopper_left s.stopper ≤ 2
      → server_left (run_turn o app t s).server ≤ server_left s.server - closings (t ∷ [])
  unfolding run_turn step_stopper closings
  server_step t s down = ground arith

  stopper_stays :
      (t : Turn) (s : Run) → stopper_left (run_turn o app t s).stopper ≤ stopper_left s.stopper
  unfolding run_turn step_stopper
  stopper_stays t s = ground arith

  cancelled_turns :
      (ts : List Turn) (s : Run) → s.cancelled ≡ true → (run_turns o app ts s).cancelled ≡ true
  unfolding run_turns
  cancelled_turns [] s on = on
  cancelled_turns (t ∷ ts) s on = cancelled_turns ts (run_turn o app t s) (stays_cancelled t s on)

  stopper_split :
      (t : Turn) (ts : List Turn)
      → stopper_turns (t ∷ ts) ≡ stopper_turns (t ∷ []) + stopper_turns ts
  unfolding stopper_turns
  stopper_split t ts = ground arith

  worker_split :
      (t : Turn) (ts : List Turn) → worker_turns (t ∷ ts) ≡ worker_turns (t ∷ []) + worker_turns ts
  unfolding worker_turns
  worker_split t ts = ground arith

  closings_split : (t : Turn) (ts : List Turn) → closings (t ∷ ts) ≡ closings (t ∷ []) + closings ts
  unfolding closings
  closings_split t ts = ground arith

  stopper_drains :
      (ts : List Turn) (s : Run)
      → s.cancelled ≡ true
      → stopper_left (run_turns o app ts s).stopper ≤ stopper_left s.stopper - stopper_turns ts
  unfolding run_turns
  stopper_drains [] s on = let e : stopper_turns [] ≡ 0 = no_stopper in ground arith
  stopper_drains (t ∷ ts) s on =
      let first = stopper_step t s on in
      let rest = stopper_drains ts (run_turn o app t s) (stays_cancelled t s on) in
      let both = stopper_split t ts in ground arith

  worker_drains :
      (ts : List Turn) (s : Run)
      → s.cancelled ≡ true
      → worker_left (run_turns o app ts s).worker ≤ worker_left s.worker - worker_turns ts
  unfolding run_turns
  worker_drains [] s on = let e : worker_turns [] ≡ 0 = no_worker in ground arith
  worker_drains (t ∷ ts) s on =
      let first = worker_step t s on in
      let rest = worker_drains ts (run_turn o app t s) (stays_cancelled t s on) in
      let both = worker_split t ts in ground arith

  server_drains :
      (ts : List Turn) (s : Run)
      → stopper_left s.stopper ≤ 2
      → server_left (run_turns o app ts s).server ≤ server_left s.server - closings ts
  unfolding run_turns
  server_drains [] s down = let e : closings [] ≡ 0 = no_closing in ground arith
  server_drains (t ∷ ts) s down =
      let first = server_step t s down in
      let kept = stopper_stays t s in
      let rest = server_drains ts (run_turn o app t s) (ground arith) in
      let both = closings_split t ts in ground arith

  all_returned :
      (s : Run)
      → worker_left s.worker ≡ 0
      → server_left s.server ≡ 0
      → stopper_left s.stopper ≡ 0
      → is_over s ≡ true
  unfolding is_over
  all_returned s w v p = ground arith

  -- Once the context of `Run` is cancelled, `Run` returns, in any interleaving in which the
  -- goroutine of `shutdown` has had three turns, that of the worker two, and that of the server
  -- one behind these three in which `ListenAndServe` reports `http.ErrServerClosed`.
  pub cancelled-is_over :
      (xs ys : List Turn) (s : Run)
      → s.cancelled ≡ true
      → 3 ≤ stopper_turns xs
      → 2 ≤ worker_turns xs + worker_turns ys
      → 1 ≤ closings ys
      → is_over (run_turns o app ys (run_turns o app xs s)) ≡ true
  cancelled-is_over xs ys s on stops wakes closes =
      let s1 = run_turns o app xs s in
      let on1 = cancelled_turns xs s on in
      let most : stopper_left s.stopper ≤ 3 = at_most_three s.stopper in
      let w2 : worker_left s.worker ≤ 2 = at_most_two s.worker in
      let v1 : server_left s.server ≤ 1 = at_most_one s.server in
      let d1 = stopper_drains xs s on in
      let d2 = stopper_drains ys s1 on1 in
      let w3 = worker_drains xs s on in
      let w4 = worker_drains ys s1 on1 in
      let v2 = at_most_one s1.server in
      let v3 = server_drains ys s1 (ground arith) in
      all_returned (run_turns o app ys s1) (ground arith) (ground arith) (ground arith)
