-- ===== src/App/Over.antt =====
-- `Run` of cmd/app/app.go when it has returned.
use exchange_rate_quote_serv.Prelude.{List, [], ◌∷◌, arith, refl}
use exchange_rate_quote_serv.App.Lifecycle.{App, Outcomes}
use exchange_rate_quote_serv.App.Run.{Run, start, Turn, run_turn, run_turns}
use exchange_rate_quote_serv.App.Ordered.{IsOrdered, turn-IsOrdered}

module _ (o : Outcomes) (app : App) where
  turns-IsOrdered :
      (ts : List Turn) (s : Run) → IsOrdered o app s → IsOrdered o app (run_turns o app ts s)
  unfolding run_turns
  turns-IsOrdered [] s h = h
  turns-IsOrdered (t ∷ ts) s h =
      turns-IsOrdered ts (run_turn o app t s) (turn-IsOrdered o app t s h)

  started-IsOrdered : IsOrdered o app start
  started-IsOrdered = record {
    log = refl;
    cancelled = λ h. absurd (ground arith);
    failure = tt;
    error = λ e h. absurd (ground arith);
  }

  -- The invariant holds whatever turns the three take.
  pub run_turns-IsOrdered : (ts : List Turn) → IsOrdered o app (run_turns o app ts start)
  run_turns-IsOrdered ts = turns-IsOrdered ts start started-IsOrdered
